-- ===== src/Selector/Engine.antt =====
-- What the selector uses of SQLAlchemy, of the random module, of processes and of floats, and the
-- rows of the metadata database.
use modyn.Prelude.{length, count_by, All, concat, ℕ, ◌≤◌, ◌<◌, ◌≡◌, Bool, List}

-- A row of SelectorStateMetadata.
pub record SampleRow : Type 0 where
  pub pipeline_id : ℕ
  pub sample_key : ℕ
  pub timestamp : ℕ
  pub label : ℕ
  pub seen_in_trigger_id : ℕ

pub record Engine : Type 1 where
  pub Weight : Type 0
  -- 1.0
  pub one : Weight
  -- `Result.partitions()` of a statement with `yield_per`: the rows in parts of that size.
  pub partitions : ℕ → List ℕ → List (List ℕ)
  pub partitions_concat :
      (yield_per : ℕ) (rows : List ℕ) → concat (partitions yield_per rows) ≡ rows
  pub partitions_size :
      (yield_per : ℕ) (rows : List ℕ)
      → 0 < yield_per
      → All (λ part. length part ≤ yield_per) (partitions yield_per rows)
  -- `random.shuffle`, at a call that the two numbers name.
  pub shuffle : ℕ → ℕ → List ℕ → List ℕ
  pub shuffle_count :
      (i j : ℕ) (xs : List ℕ) (p : ℕ → Bool) → count_by p (shuffle i j xs) ≡ count_by p xs
  pub shuffle_length : (i j : ℕ) (xs : List ℕ) → length (shuffle i j xs) ≡ length xs
  -- `random.sample`
  pub sample : ℕ → ℕ → List ℕ → ℕ → List ℕ
  pub sample_length : (i j : ℕ) (xs : List ℕ) (k : ℕ) → k ≤ length xs → length (sample i j xs k) ≡ k
  -- The rows of processes that commit in any order.
  pub commit : List (List SampleRow) → List SampleRow
  pub commit_count :
      (parts : List (List SampleRow)) (p : SampleRow → Bool)
      → count_by p (commit parts) ≡ count_by p (concat parts)
  -- `current_time_millis`
  pub clock : ℕ → ℕ
