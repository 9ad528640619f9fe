-- ===== src/SampleStorage/Worker.antt =====
-- What a worker reads of the files of a partition, and what all workers read.
use modyn.Partition.{get_partition_for_worker}
use modyn.Partition.Cover.{slice_of, worker_slice, worker_slices, worker_slices_cover}
use modyn.Prelude.Int.{pos, negsuc}
use modyn.SampleStorage.{
  File, get_matching_files, all_samples, worker_step, worker_loop, get_all_samples,
  get_worker_samples, get_samples_in, get_trigger_samples,
}
use modyn.SampleStorage.Slices.{slice-append, slice-empty, slice-beyond, slice-past}
use modyn.Prelude.{
  ltb, leb, if◌then◌else◌, ltb→lt, lt→ltb, leb→le, leb→lt, ltb→le, lt→leb, Bool-cases, length,
  slice, Result, ok, ◌>>=◌, ℕ, zero, suc, ◌+◌, ◌-◌, ◌≤◌, ◌<◌, ◌≡◌, refl, sym, ap, ◌∙◌, inl, inr,
  some, List, [], ◌∷◌, ◌++◌, append-nil, arith,
}

sub_zero : (n : ℕ) → n - 0 ≡ n
sub_zero n = omega arith

start_lem : (a b : ℕ) → (if leb b a then a - b else 0) ≡ a - b
start_lem a b = ground arith

module _ {ℓ} {A : Type ℓ} (start size current : ℕ) (xs more : List A) where
  worker_step_lem :
      worker_step start size current xs
        (slice more (start - (current + length xs)) (start + size - (current + length xs)))
      ≡ slice (xs ++ more) (start - current) (start + size - current)
  unfolding worker_step
  worker_step_lem = elim (Bool-cases (leb (start + size) current)) [
    | inl e ↦ rw e (sym (slice-empty (xs ++ more) _ _ (omega (arith, leb→le _ _ e))))
    | inr e ↦ elim (Bool-cases (leb (current + length xs) start)) [
      | inl e1 ↦
          rw (e, e1)
            (sym (split ∙ ap (λ l. l ++ rest) (slice-beyond xs _ _ (omega (arith, leb→le _ _ e1)))))
      | inr e1 ↦ elim (Bool-cases (ltb (current + length xs) (start + size))) [
        | inl e2 ↦
            rw (e, e1, e2, start_lem start current)
              (sym (
                split
                ∙ ap (λ l. l ++ rest)
                    (slice-past xs (start - current) _ (omega (arith, ltb→lt _ _ e2)))))
        | inr e2 ↦
            rw (e, e1, e2, start_lem start current)
              (sym (
                split
                ∙ ap (λ l. slice xs (start - current) (start + size - current) ++ l)
                    (slice-empty more _ _ (omega (arith, ltb→le _ _ e2, leb→lt _ _ e1)))
                ∙ append-nil _))
      ]
    ]
  ]
    where
      rest : List A
      rest = slice more (start - (current + length xs)) (start + size - (current + length xs))

      sub_sub : (m n k : ℕ) → m - n - k ≡ m - (n + k)
      sub_sub m n k = omega arith

      split :
          slice (xs ++ more) (start - current) (start + size - current)
          ≡ slice xs (start - current) (start + size - current) ++ rest
      split =
          slice-append xs more (start - current) (start + size - current) (omega arith)
          ∙ ap (λ l. slice xs (start - current) (start + size - current) ++ l)
              (ap (λ lo. slice more lo (start + size - current - length xs))
                  (sub_sub start current (length xs))
                ∙ ap (slice more (start - (current + length xs)))
                    (sub_sub (start + size) current (length xs)))

module _ {ℓ} {Sample : Type ℓ} where
  -- The loop over the files reads what a slice of all the samples has.
  pub worker_loop_lem :
      (start size current : ℕ) (fs : List (File Sample))
      → worker_loop start size current fs
        ≡ slice (all_samples fs) (start - current) (start + size - current)
  unfolding worker_loop all_samples
  worker_loop_lem start size current [] = sym (slice-beyond [] _ _ (omega arith))
  worker_loop_lem start size current (f ∷ fs) =
      ap (worker_step start size current f.samples)
        (worker_loop_lem start size (current + length f.samples) fs)
      ∙ worker_step_lem start size current f.samples (all_samples fs)

module _ {ℓ} {Sample : Type ℓ} (p t q : ℕ) (files : List (File Sample)) where
  worker_lem :
      (w total : ℕ)
      → w < total
      → get_worker_samples p t q (pos w) total (length (get_all_samples p t q files)) files
        ≡ ok (worker_slice (get_all_samples p t q files) total w)
  unfolding get_worker_samples worker_slice slice_of get_partition_for_worker get_all_samples
  worker_lem w total h =
      rw (lt→leb w total h)
        (ap ok (worker_loop_lem _ _ 0 (get_matching_files p t q files) ∙ from_zero _ _))
    where
      from_zero :
          (lo hi : ℕ)
          → slice (all_samples (get_matching_files p t q files)) (lo - 0) (hi - 0)
            ≡ slice (all_samples (get_matching_files p t q files)) lo hi
      from_zero lo hi = rw (sub_zero lo, sub_zero hi) refl

  -- What the workers 0 to k - 1 of `total` get, one after the other.
  unfoldable pub workers_samples : ℕ → ℕ → ℕ → Result (List Sample)
  workers_samples total num_samples zero = ok []
  workers_samples total num_samples (suc k) = workers_samples total num_samples k >>= λ xs.
      get_trigger_samples p t q (pos k) (pos total) (pos num_samples) (some files) >>= λ ys.
      ok (xs ++ ys)

  workers_samples_lem :
      (total k : ℕ)
      → k ≤ total
      → 0 < length (get_all_samples p t q files)
      → workers_samples total (length (get_all_samples p t q files)) k
        ≡ ok (worker_slices (get_all_samples p t q files) total k)
  unfolding workers_samples worker_slices get_trigger_samples get_samples_in
  workers_samples_lem total zero h n = refl
  workers_samples_lem total (suc k) h n =
      let some_samples = lt→ltb 0 (length (get_all_samples p t q files)) n in
      rw
        (
          workers_samples_lem total k (omega (arith, h)) n,
          some_samples,
          worker_lem k total (omega (arith, h)),
        )
        refl

  -- The workers of a partition with samples, when they ask with the partition's number of samples, are
  -- together given what a call without a worker gives: each sample once, in the same order.
  pub workers_samples-all :
      (total : ℕ)
      → 0 < total
      → 0 < length (get_all_samples p t q files)
      → workers_samples total (length (get_all_samples p t q files)) total
        ≡ get_trigger_samples p t q (negsuc 0) (negsuc 0) (negsuc 0) (some files)
  unfolding get_trigger_samples get_samples_in
  workers_samples-all total h n =
      workers_samples_lem total total (omega arith) n
      ∙ ap ok (worker_slices_cover (get_all_samples p t q files) total h)
