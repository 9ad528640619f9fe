-- ===== src/Examples/Prefetching.antt =====
-- Concrete runs of the dataset's epochs.
use modyn.Dataset.Prefetch.{
  Prefetcher, new_prefetcher, begin_epoch, launch, prefetch_partition, callback_func, is_limited,
  start_calls, enter_partition, partition_lock, consuming, exhausted, Epoch, start_epoch,
  new_callbacks, start, loop, enter, leave, stop, callback, Reach, here, next,
}
use modyn.Dataset.Prefetch.Started.{consuming-started, consuming-missing}
use modyn.Prelude.{
  key_error, ok, raise, ℕ, suc, ◌+◌, ◌≤◌, ◌<◌, ◌≡◌, refl, Bool, List, [], ◌∷◌, arith,
}

-- Two partitions with one prefetched: the first is started at once, the second with the first's turn.
abbrev reading_first : Epoch
reading_first = record {
  prefetcher = record {
    num_prefetched_partitions = 1;
    parallel_prefetch_requests = 1;
    num_partitions = 2;
    next_partition_to_fetch = 2;
    launched_prefetches = 0;
    data_threads = 1 ∷ 0 ∷ [];
  };
  callbacks = 0;
  position = consuming 0;
}

abbrev one_started : Prefetcher
one_started = record {
  num_prefetched_partitions = 1;
  parallel_prefetch_requests = 1;
  num_partitions = 2;
  next_partition_to_fetch = 1;
  launched_prefetches = 0;
  data_threads = 0 ∷ [];
}

to_reading_first : Reach (start_epoch (begin_epoch 2 (new_prefetcher 1 1))) reading_first
unfolding start_epoch begin_epoch new_prefetcher prefetch_partition launch enter_partition
    start_calls is_limited new_callbacks
to_reading_first =
    next (next (next here (start _ 0 one_started refl refl)) (loop _ refl))
      (enter _ 0 reading_first.prefetcher refl (omega arith) refl)

consuming-started_example :
    (partition_lock 0 reading_first.prefetcher ≡ ok tt)
    × (2 ≤ suc 0 + 1)
    × ((b : Bool) → (p' : Prefetcher) × (prefetch_partition b reading_first.prefetcher ≡ ok p'))
unfolding new_prefetcher
consuming-started_example =
    consuming-started 2 0 (new_prefetcher 1 1) reading_first (omega arith) (omega arith)
      (omega arith) (omega arith) to_reading_first refl

-- Two partitions, both prefetched with one request at a time: what the first epoch leaves.
abbrev after_epoch : Prefetcher
after_epoch = record {
  num_prefetched_partitions = 2;
  parallel_prefetch_requests = 1;
  num_partitions = 2;
  next_partition_to_fetch = 2;
  launched_prefetches = 2;
  data_threads = 1 ∷ 0 ∷ [];
}

-- The second epoch, from `start_epoch (begin_epoch 2 after_epoch)`.
abbrev again : ℕ → List ℕ → Prefetcher
again next_partition threads = record {
  num_prefetched_partitions = 2;
  parallel_prefetch_requests = 1;
  num_partitions = 2;
  next_partition_to_fetch = next_partition;
  launched_prefetches = 2;
  data_threads = threads;
}

abbrev reading_last : Epoch
reading_last = record { prefetcher = again 1 (0 ∷ []); callbacks = 0; position = consuming 1 }

first_epoch :
    Reach
      (start_epoch (begin_epoch 2 (new_prefetcher 2 1)))
      (record { prefetcher = after_epoch; callbacks = 0; position = exhausted })
unfolding start_epoch begin_epoch new_prefetcher prefetch_partition launch enter_partition
    start_calls is_limited new_callbacks callback_func
first_epoch =
    let zero_lt : 0 < 2 = omega arith in
    let one_lt : 1 < 2 = omega arith in
    let one = record after_epoch {
      next_partition_to_fetch = 1;
      launched_prefetches = 1;
      data_threads = 0 ∷ [];
    } in
    let started = next here (start _ 0 one refl refl) in
    let called = next started (callback _ 0 after_epoch refl refl) in
    let called_again = next called (callback _ 0 after_epoch refl refl) in
    let first = next (next called_again (loop _ refl)) (enter _ 0 after_epoch refl zero_lt refl) in
    let last = next (next first (leave _ 0 refl)) (enter _ 1 after_epoch refl one_lt refl) in
    next (next last (leave _ 1 refl)) (stop _ 2 refl (omega arith))

to_reading_last : Reach (start_epoch (begin_epoch 2 after_epoch)) reading_last
unfolding start_epoch begin_epoch prefetch_partition launch enter_partition start_calls is_limited
    new_callbacks
to_reading_last =
    let zero_lt : 0 < 2 = omega arith in
    let one_lt : 1 < 2 = omega arith in
    let looping = next (next here (start _ 0 (again 0 []) refl refl)) (loop _ refl) in
    let first = next looping (enter _ 0 (again 1 (0 ∷ [])) refl zero_lt refl) in
    next (next first (leave _ 0 refl)) (enter _ 1 (again 1 (0 ∷ [])) refl one_lt refl)

consuming-missing_example : partition_lock 1 reading_last.prefetcher ≡ raise key_error
consuming-missing_example =
    consuming-missing 2 after_epoch reading_last (omega arith) (omega arith) (omega arith)
      to_reading_last refl
