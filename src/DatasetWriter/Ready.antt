-- ===== src/DatasetWriter/Ready.antt =====
-- A writer's partitions, and the storing of one more.
use modyn.Selector.Trigger.Lengths.{data_lengths_lem}
use modyn.DatasetWriter.{Writer, samples_ready}
use modyn.SampleStorage.{File, write_files, files_of, save_trigger_samples, get_all_samples}
use modyn.Selector.Trigger.{data_lengths}
use modyn.SampleStorage.Saved.{write_files-other, IsFresh, save-get_all_samples, save-other}
use modyn.Prelude.{
  ◌==◌, ==_iff, Bool-cases, length, ℕ, zero, suc, ◌≤◌, ◌<◌, ◌≡◌, refl, sym, ap, ◌∙◌, subst, inl,
  inr, List, [], ◌∷◌, ◌++◌, append-nil, arith,
}

module _ {ℓ} {Weight : Type ℓ} where
  -- The samples of the partitions 0 to n - 1.
  unfoldable pub partitions_samples : ℕ → ℕ → List (File (ℕ × Weight)) → ℕ → List (ℕ × Weight)
  partitions_samples p t files zero = []
  partitions_samples p t files (suc n) =
      partitions_samples p t files n ++ get_all_samples p t n files

  unfoldable pub zip_pairs : List ℕ → List Weight → List (ℕ × Weight)
  zip_pairs [] ws = []
  zip_pairs (k ∷ ks) [] = []
  zip_pairs (k ∷ ks) (w ∷ ws) = (k, w) ∷ zip_pairs ks ws

  unfoldable pub all_pairs : List (List ℕ × List Weight) → List (ℕ × Weight)
  all_pairs [] = []
  all_pairs ((ids, ws) ∷ batches) = zip_pairs ids ws ++ all_pairs batches

  unfoldable pub IsSmall : Writer Weight → Type 0
  IsSmall s =
      (q : ℕ)
      → length (get_all_samples s.pipeline_id s.trigger_id q s.files) ≤ s.maximum_keys_in_memory

  -- What has been informed is stored or waiting, and no partition from the next one on has files.
  pub record Holds (informed : List (ℕ × Weight)) (s : Writer Weight) : Type ℓ where
    pub few : s.number_of_workers ≤ 10
    pub some_memory : 0 < s.maximum_keys_in_memory
    pub room : length s.output_samples < s.maximum_keys_in_memory
    pub fresh : (q : ℕ) → s.current_file_index ≤ q → IsFresh s.pipeline_id s.trigger_id q s.files
    pub small : IsSmall s
    pub stored :
        partitions_samples s.pipeline_id s.trigger_id s.files s.current_file_index
          ++ s.output_samples
        ≡ informed

  partitions_samples-other :
      (p t q n : ℕ) (xs : List (ℕ × Weight)) (sizes : List ℕ) (files : List (File (ℕ × Weight)))
      → n ≤ q
      → partitions_samples p t (write_files p t q 0 xs sizes files) n
        ≡ partitions_samples p t files n
  unfolding partitions_samples
  partitions_samples-other p t q zero xs ls files h = refl
  partitions_samples-other p t q (suc n) xs ls files h =
      ap (λ l. l ++ get_all_samples p t n (write_files p t q 0 xs ls files))
        (partitions_samples-other p t q n xs ls files (omega (arith, h)))
      ∙ ap (λ l. partitions_samples p t files n ++ l)
          (save-other p t q n xs ls files (λ e. omega (arith, h, e)))

  stored_samples :
      (s : Writer Weight)
      → s.number_of_workers ≤ 10
      → IsFresh s.pipeline_id s.trigger_id s.current_file_index s.files
      → get_all_samples s.pipeline_id s.trigger_id s.current_file_index (
          write_files s.pipeline_id s.trigger_id s.current_file_index 0 s.output_samples
            (data_lengths s.number_of_workers (length s.output_samples))
            s.files)
        ≡ s.output_samples
  stored_samples s few fresh =
      let sizes = data_lengths_lem s.number_of_workers (length s.output_samples) in
      save-get_all_samples s.pipeline_id s.trigger_id s.current_file_index s.output_samples _
        s.files (omega (arith, sizes.1, few)) sizes.0 fresh

  ready-IsSmall :
      (s : Writer Weight)
      → s.number_of_workers ≤ 10
      → length s.output_samples ≤ s.maximum_keys_in_memory
      → ((q : ℕ) → s.current_file_index ≤ q → IsFresh s.pipeline_id s.trigger_id q s.files)
      → IsSmall s
      → IsSmall (samples_ready s)
  unfolding samples_ready files_of save_trigger_samples IsSmall
  ready-IsSmall s few le fresh small q = elim (Bool-cases (q == s.current_file_index)) [
    | inl e ↦
        subst
          (λ q.
            length (get_all_samples s.pipeline_id s.trigger_id q (samples_ready s).files)
            ≤ s.maximum_keys_in_memory)
          (sym ((==_iff q s.current_file_index).0 e))
          (omega (arith, le, ap length (stored_samples s few (fresh _ (omega arith)))))
    | inr e ↦ omega (
      arith,
      small q,
      ap length (
          save-other s.pipeline_id s.trigger_id s.current_file_index q s.output_samples
            (data_lengths s.number_of_workers (length s.output_samples)) s.files
            (λ k. cc (e, (==_iff q s.current_file_index).1 k))),
    )
  ]

  pub samples_ready-Holds :
      (informed : List (ℕ × Weight)) (s : Writer Weight)
      → s.number_of_workers ≤ 10
      → 0 < s.maximum_keys_in_memory
      → length s.output_samples ≤ s.maximum_keys_in_memory
      → ((q : ℕ) → s.current_file_index ≤ q → IsFresh s.pipeline_id s.trigger_id q s.files)
      → IsSmall s
      → partitions_samples s.pipeline_id s.trigger_id s.files s.current_file_index
          ++ s.output_samples
        ≡ informed
      → Holds informed (samples_ready s)
  unfolding samples_ready files_of save_trigger_samples partitions_samples IsFresh
  samples_ready-Holds informed s few some_room le fresh small stored = record {
    few = few;
    some_memory = some_room;
    room = some_room;
    fresh = λ q h.
        write_files-other s.pipeline_id s.trigger_id s.current_file_index q
          (data_lengths s.number_of_workers (length s.output_samples)) 0 s.output_samples s.files
          (λ e. omega (arith, h, e))
        ∙ fresh q (omega (arith, h));
    small = ready-IsSmall s few le fresh small;
    stored =
        append-nil _
        ∙ ap
            (λ l.
              l
              ++ get_all_samples s.pipeline_id s.trigger_id s.current_file_index
                  (samples_ready s).files)
            (partitions_samples-other s.pipeline_id s.trigger_id s.current_file_index
              s.current_file_index s.output_samples _ s.files (omega arith))
        ∙ ap (λ l. partitions_samples s.pipeline_id s.trigger_id s.files s.current_file_index ++ l)
            (stored_samples s few (fresh s.current_file_index (omega arith)))
        ∙ stored;
  }
