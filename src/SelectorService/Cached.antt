-- ===== src/SelectorService/Cached.antt =====
-- What the workers get of a trigger that is cached.
use modyn.SelectorService.{
  Service, find, is_in, Selector, populate_trigger_if_exists, cached_slice, from_cache,
  checked_partition, checked_worker, sample_answer, get_sample_keys_and_weights,
}
use modyn.Partition.{get_partition_for_worker}
use modyn.Partition.Cover.{slice_of, worker_slice, worker_slices, worker_slices_cover}
use modyn.Prelude.{
  ◌==◌, lt→ltb, lt→leb, Bool-cases, get_elem?, Result, ok, ◌>>=◌, ℕ, zero, suc, ◌≤◌, ◌<◌, ◌≡◌, refl,
  ap, ◌∙◌, inl, inr, true, Option, some, List, [], ◌∷◌, ◌++◌, arith, le_refl,
}
use modyn.Prelude.Int.{pos}

is_in-find : {A : Type 0} (t : ℕ) (a : A) (d : List (ℕ × A)) → find t d ≡ some a → is_in t d ≡ true
unfolding find is_in
is_in-find t a [] e = cc
is_in-find t a ((k, b) ∷ d) e = elim (Bool-cases (k == t)) [
  | inl same ↦ rw same refl
  | inr other ↦ rw other (is_in-find t a d (rw other at e))
]

module _ {Sample : Type 0} (strategy : Service Sample) (database : ℕ → Option (ℕ × ℕ)) where
  -- The answers to the workers 0 to k - 1, one after the other.
  abbrev pub all_answers : ℕ → ℕ → Selector strategy → ℕ → Result (List Sample)
  all_answers trigger_id partition_id s zero = ok []
  all_answers trigger_id partition_id s (suc k) =
      all_answers trigger_id partition_id s k >>= λ before.
      get_sample_keys_and_weights strategy database trigger_id (pos k) partition_id s >>= λ answer.
      ok (before ++ answer)

  module _ (t p n : ℕ) (parts : List (List Sample)) (samples : List Sample) (s : Selector strategy)
      (there : find t s.trigger_cache ≡ some parts) (known : is_in t s.trigger_size_cache ≡ true)
      (recorded : find t s.trigger_partition_cache ≡ some n) (below : p < n)
      (at : get_elem? parts p ≡ some samples) where
    answer_of :
        (w : ℕ)
        → w < s.num_workers
        → sample_answer strategy t (pos w) p s ≡ ok (worker_slice samples s.num_workers w)
    unfolding sample_answer checked_partition checked_worker from_cache cached_slice worker_slice
        slice_of get_partition_for_worker
    answer_of w h =
        rw
          (
            recorded,
            lt→ltb p n below,
            lt→ltb w s.num_workers h,
            there,
            at,
            lt→leb w s.num_workers h,
          )
          refl

    weights_of :
        (w : ℕ)
        → w < s.num_workers
        → get_sample_keys_and_weights strategy database t (pos w) p s
          ≡ ok (worker_slice samples s.num_workers w)
    unfolding get_sample_keys_and_weights populate_trigger_if_exists
    weights_of w h = rw (known, is_in-find t n s.trigger_partition_cache recorded) (answer_of w h)

    answers_up_to :
        (k : ℕ)
        → k ≤ s.num_workers
        → all_answers t p s k ≡ ok (worker_slices samples s.num_workers k)
    unfolding worker_slices
    answers_up_to zero h = refl
    answers_up_to (suc k) h = rw (answers_up_to k (omega arith), weights_of k (omega arith)) refl

    -- For a trigger that is cached and on record and one of its partitions, the answers of
    -- get_sample_keys_and_weights to the workers 0 to num_workers - 1 are, one after the other,
    -- exactly the partition, if there is a worker at all: none of them raises, and nothing is left
    -- out or given to two workers.
    pub get_sample_keys_and_weights-workers :
        0 < s.num_workers → all_answers t p s s.num_workers ≡ ok samples
    get_sample_keys_and_weights-workers positive =
        answers_up_to s.num_workers (le_refl s.num_workers)
        ∙ ap ok (worker_slices_cover samples s.num_workers positive)
