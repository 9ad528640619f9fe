-- ===== src/DatasetWriter/Written.antt =====
-- What the partitions of a writer hold together.
use modyn.DatasetWriter.Ready.{
  partitions_samples, zip_pairs, all_pairs, IsSmall, Holds, samples_ready-Holds,
}
use modyn.DatasetWriter.{
  Writer, new_writer, samples_ready, flush_full, inform_sample, inform_samples, finalize,
  write_batches,
}
use modyn.SampleStorage.{File, sort_files, get_matching_files, all_samples, get_all_samples}
use modyn.SampleStorage.Saved.{IsFresh}
use modyn.Prelude.{
  ltb, ◌==◌, if◌then◌else◌, lt→ltb, ltb→le, Bool-cases, length, length-append, drop-all,
  index_error, ok, ◌>>=◌, ◌>>◌, guard, ℕ, ◌≤◌, ◌<◌, ◌≡◌, refl, sym, ap, ◌∙◌, subst, inl, inr, false,
  List, [], ◌∷◌, ◌++◌, append-nil, append_assoc, arith,
}

-- A partition without files has no samples.
fresh_small {ℓ} :
    {Sample : Type ℓ} {n : ℕ} (p t q : ℕ) (files : List (File Sample))
    → IsFresh p t q files
    → length (get_all_samples p t q files) ≤ n
unfolding IsFresh get_all_samples get_matching_files sort_files all_samples
fresh_small p t q files e =
    let nothing = ap (λ l. length (all_samples (sort_files l))) e in omega (arith, nothing)

module _ {ℓ} {Weight : Type ℓ} where
  flush_full-Holds :
      (informed : List (ℕ × Weight)) (s : Writer Weight)
      → s.number_of_workers ≤ 10
      → 0 < s.maximum_keys_in_memory
      → length s.output_samples ≤ s.maximum_keys_in_memory
      → ((q : ℕ) → s.current_file_index ≤ q → IsFresh s.pipeline_id s.trigger_id q s.files)
      → IsSmall s
      → partitions_samples s.pipeline_id s.trigger_id s.files s.current_file_index
          ++ s.output_samples
        ≡ informed
      → Holds informed (flush_full s)
  unfolding flush_full
  flush_full-Holds informed s few some_room le fresh small stored =
      elim (Bool-cases (length s.output_samples == s.maximum_keys_in_memory)) [
        | inl e ↦
            subst (λ b. Holds informed (if b then samples_ready s else s)) (sym e)
              (samples_ready-Holds informed s few some_room le fresh small stored)
        | inr e ↦
            subst (λ b. Holds informed (if b then samples_ready s else s)) (sym e)
              (record {
                few = few;
                some_memory = some_room;
                room = not_full le e;
                fresh = fresh;
                small = small;
                stored = stored;
              })
      ]
    where
      not_full : {a b : ℕ} → a ≤ b → (a == b) ≡ false → a < b
      not_full h e = ground (arith, h, e)

  inform_sample-Holds :
      (k : ℕ) (w : Weight) (informed : List (ℕ × Weight)) (s : Writer Weight)
      → Holds informed s
      → (s' : Writer Weight) × (inform_sample k w s ≡ ok s') × Holds (informed ++ (k, w) ∷ []) s'
  unfolding inform_sample IsSmall
  inform_sample-Holds k w informed s h =
      let s' = record s { output_samples = s.output_samples ++ (k, w) ∷ [] } in
      (
        flush_full s',
        ap (λ b. guard b index_error >> ok (flush_full s')) (lt→ltb _ _ h.room),
        flush_full-Holds (informed ++ (k, w) ∷ []) s' h.few h.some_memory
            (omega (arith, h.room, length-append s.output_samples ((k, w) ∷ []))) h.fresh h.small
            (sym (append_assoc _ s.output_samples ((k, w) ∷ []))
              ∙ ap (λ l. l ++ (k, w) ∷ []) h.stored),
      )

  inform_samples-Holds :
      (ks : List ℕ) (ws : List Weight) (informed : List (ℕ × Weight)) (s : Writer Weight)
      → Holds informed s
      → (s' : Writer Weight) × (inform_samples ks ws s ≡ ok s')
        × Holds (informed ++ zip_pairs ks ws) s'
  unfolding inform_samples zip_pairs
  inform_samples-Holds [] ws informed s h =
      (s, refl, subst (λ l. Holds l s) (sym (append-nil informed)) h)
  inform_samples-Holds (k ∷ ks) [] informed s h =
      (s, refl, subst (λ l. Holds l s) (sym (append-nil informed)) h)
  inform_samples-Holds (k ∷ ks) (w ∷ ws) informed s h =
      let (s1, e1, h1) = inform_sample-Holds k w informed s h in
      let (s2, e2, h2) = inform_samples-Holds ks ws (informed ++ (k, w) ∷ []) s1 h1 in
      (
        s2,
        ap (λ r. r >>= λ s'. inform_samples ks ws s') e1 ∙ e2,
        subst (λ l. Holds l s2) (append_assoc informed ((k, w) ∷ []) (zip_pairs ks ws)) h2,
      )

  Finished : List (ℕ × Weight) → Writer Weight → Type ℓ
  Finished informed s =
      (partitions_samples s.pipeline_id s.trigger_id s.files s.current_file_index ≡ informed)
      × IsSmall s

  finalize-Finished :
      (informed : List (ℕ × Weight)) (s : Writer Weight)
      → Holds informed s
      → Finished informed (finalize s)
  unfolding Finished finalize samples_ready
  finalize-Finished informed s h = elim (Bool-cases (ltb 0 (length s.output_samples))) [
    | inl e ↦
        let k =
          samples_ready-Holds informed s h.few h.some_memory (omega (arith, h.room)) h.fresh h.small
            h.stored in
        subst (λ b. Finished informed (if b then samples_ready s else s)) (sym e)
          (sym (append-nil _) ∙ k.stored, k.small)
    | inr e ↦
        subst (λ b. Finished informed (if b then samples_ready s else s)) (sym e)
          (
            sym (append-nil _)
                ∙ ap
                    (λ l.
                      partitions_samples s.pipeline_id s.trigger_id s.files s.current_file_index
                      ++ l)
                    (sym (drop-all 0 s.output_samples (ltb→le _ _ e)))
                ∙ h.stored,
            h.small,
          )
  ]

  write_batches-Finished :
      (batches : List (List ℕ × List Weight)) (informed : List (ℕ × Weight)) (s : Writer Weight)
      → Holds informed s
      → (s' : Writer Weight) × (write_batches batches s ≡ ok s')
        × Finished (informed ++ all_pairs batches) s'
  unfolding write_batches all_pairs
  write_batches-Finished [] informed s h = (
    finalize s,
    refl,
    subst (λ l. Finished l (finalize s)) (sym (append-nil informed))
        (finalize-Finished informed s h),
  )
  write_batches-Finished ((ids, ws) ∷ batches) informed s h =
      let (s1, e1, h1) = inform_samples-Holds ids ws informed s h in
      let (s2, e2, f) = write_batches-Finished batches (informed ++ zip_pairs ids ws) s1 h1 in
      (
        s2,
        ap (λ r. r >>= λ s'. write_batches batches s') e1 ∙ e2,
        subst (λ l. Finished l s2) (append_assoc informed (zip_pairs ids ws) (all_pairs batches)) f,
      )

  -- A writer with at most ten workers and room for a sample, on a directory without files of its
  -- trigger, accepts every sequence of batches. When it has finalized, the partitions that it counted
  -- hold together exactly the pairs that it was informed of, in order, and no partition holds more than
  -- the maximum that it keeps in memory.
  pub write_batches-all_pairs :
      (p t workers maximum : ℕ) (files : List (File (ℕ × Weight)))
      (batches : List (List ℕ × List Weight))
      → workers ≤ 10
      → 0 < maximum
      → ((q : ℕ) → IsFresh p t q files)
      → (s : Writer Weight) × (write_batches batches (new_writer p t workers maximum files) ≡ ok s)
        × (partitions_samples s.pipeline_id s.trigger_id s.files s.current_file_index
            ≡ all_pairs batches)
        × ((q : ℕ)
            → length (get_all_samples s.pipeline_id s.trigger_id q s.files)
              ≤ s.maximum_keys_in_memory)
  unfolding new_writer Finished IsSmall partitions_samples
  write_batches-all_pairs p t workers maximum files batches h g f =
      let (s, e, k) =
        write_batches-Finished batches [] (new_writer p t workers maximum files) (record {
          few = h;
          some_memory = g;
          room = g;
          fresh = λ q _. f q;
          small = λ q. fresh_small p t q files (f q);
          stored = refl;
        }) in
      (s, e, k.0, k.1)
