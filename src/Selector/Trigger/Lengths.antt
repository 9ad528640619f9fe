-- ===== src/Selector/Trigger/Lengths.antt =====
-- The lengths of the files that the samples of a partition are split into.
use modyn.Selector.Trigger.{data_lengths}
use modyn.Prelude.{
  ltb, ◌==◌, if◌then◌else◌, tests, Bool-cases, length, replicate, sum, length-append,
  length-replicate, sum-replicate, sum-append, ℕ, zero, suc, ◌+◌, ◌-◌, ◌/◌, ◌≤◌, ◌<◌, max, ◌≡◌, ap,
  ◌∙◌, inl, inr, false, List, [], ◌∷◌, ◌++◌, arith,
}

split_sum :
    (even : List ℕ) (n : ℕ)
    → sum even ≤ n
    → sum (if ltb (sum even) n then even ++ (n - sum even) ∷ [] else even) ≡ n
split_sum even n h = elim (Bool-cases (ltb (sum even) n)) [
  | inl more ↦ rw more (omega (tests, more, sum-append even ((n - sum even) ∷ [])))
  | inr exact ↦ rw exact (omega (tests, exact))
]

split_length :
    (even : List ℕ) (n t : ℕ)
    → length even + 1 ≤ t
    → length (if ltb (sum even) n then even ++ (n - sum even) ∷ [] else even) ≤ t
split_length even n t h = elim (Bool-cases (ltb (sum even) n)) [
  | inl more ↦ rw more (omega (arith, length-append even ((n - sum even) ∷ [])))
  | inr exact ↦ rw exact (omega arith)
]

even_files : ℕ → ℕ → List ℕ
even_files t n = if ltb 0 (n / t) then replicate (t - 1) (n / t) else []

even_files-bounds :
    (t n : ℕ) → 0 < t → (sum (even_files t n) ≤ n) × (length (even_files t n) + 1 ≤ t)
unfolding even_files
even_files-bounds t n h = elim (Bool-cases (ltb 0 (n / t))) [
  | inl some_each ↦
      rw (some_each, sum-replicate (t - 1) (n / t), length-replicate (t - 1) (n / t))
        (grind arith, omega arith)
  | inr none_each ↦ rw none_each (omega arith, omega arith)
]

split_files : ℕ → ℕ → List ℕ
split_files t n =
    if ltb (sum (even_files t n)) n
    then even_files t n ++ (n - sum (even_files t n)) ∷ []
    else even_files t n

some_threads : (t n : ℕ) → 0 < t → data_lengths t n ≡ split_files t n
unfolding data_lengths split_files even_files
some_threads t n h = let not_none : (t == 0) ≡ false = ground arith in rw not_none

-- For any number of insertion threads, the lengths of the files that `trigger` asks for add up to
-- the number of samples, so that no sample is left out of the files. There are at most as many files
-- as threads, or one without threads.
pub data_lengths_lem :
    (insertion_threads n : ℕ)
    → (sum (data_lengths insertion_threads n) ≡ n)
      × (length (data_lengths insertion_threads n) ≤ max 1 insertion_threads)
unfolding data_lengths split_files
data_lengths_lem zero n = (omega arith, omega arith)
data_lengths_lem (suc t) n =
    let (fits, files) = even_files-bounds (suc t) n (omega arith) in
    (
      ap sum (with_threads t) ∙ split_sum (even_files (suc t) n) n fits,
      omega
          (arith, ap length (with_threads t), split_length (even_files (suc t) n) n (suc t) files),
    )
  where
    with_threads : (k : ℕ) → data_lengths (suc k) n ≡ split_files (suc k) n
    with_threads k = some_threads (suc k) n (omega arith)
