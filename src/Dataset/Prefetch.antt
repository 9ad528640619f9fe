-- ===== src/Dataset/Prefetch.antt =====
-- Which threads `OnlineDataset` starts and when: `_prefetch_partition`, its callback,
-- `start_prefetching` and the loop of `all_partition_generator`, as the loop and the callbacks of the
-- threads interleave. `_prefetch_partition` runs under a lock and is one step. A partition's thread,
-- lock, flags and container are made together, so the keys of `_data_threads` stand for all of them.
pub mod Counted
pub mod Calls
pub mod Schedule
pub mod Launches
pub mod Kept
pub mod Started
use modyn.Prelude.{
  ltb, leb, if◌then◌else◌, mem, assertion_error, key_error, Result, ok, ◌>>◌, guard, ℕ, suc, ◌+◌,
  ◌-◌, ◌≤◌, ◌<◌, min, ◌≡◌, Bool, true, false, not, ◌&&◌, ◌||◌, List, [], ◌∷◌,
}

pub record Prefetcher : Type 0 where
  pub num_prefetched_partitions : ℕ
  pub parallel_prefetch_requests : ℕ
  pub num_partitions : ℕ
  pub next_partition_to_fetch : ℕ
  pub launched_prefetches : ℕ
  pub data_threads : List ℕ

unfoldable pub new_prefetcher : ℕ → ℕ → Prefetcher
new_prefetcher num_prefetched_partitions parallel_prefetch_requests = record {
  num_prefetched_partitions = num_prefetched_partitions;
  parallel_prefetch_requests = parallel_prefetch_requests;
  num_partitions = 0;
  next_partition_to_fetch = 0;
  launched_prefetches = 0;
  data_threads = [];
}

-- What `__iter__` sets again in every epoch, for the key source's number of partitions;
-- `_launched_prefetches` is not among it.
unfoldable pub begin_epoch : ℕ → Prefetcher → Prefetcher
begin_epoch num_partitions p = record p {
  data_threads = [];
  next_partition_to_fetch = 0;
  num_partitions = num_partitions;
  num_prefetched_partitions = min p.num_prefetched_partitions num_partitions;
}

-- From the assertions to the end of `_prefetch_partition`; the first assertion holds of any ℕ.
unfoldable pub launch : Bool → Prefetcher → Result Prefetcher
launch maybe_continue p =
    guard (not (mem p.next_partition_to_fetch p.data_threads)) assertion_error
    >> ok (record p {
      launched_prefetches =
          (if maybe_continue then suc p.launched_prefetches else p.launched_prefetches);
      data_threads = p.next_partition_to_fetch ∷ p.data_threads;
      next_partition_to_fetch = suc p.next_partition_to_fetch;
    })

unfoldable pub prefetch_partition : Bool → Prefetcher → Result Prefetcher
prefetch_partition maybe_continue p =
    if ltb p.num_prefetched_partitions 1 || leb p.num_partitions p.next_partition_to_fetch
    then ok p
    else if maybe_continue && leb p.num_prefetched_partitions p.launched_prefetches
    then ok p
    else launch maybe_continue p

-- `callback_func` of a thread that was started with `maybe_continue`.
unfoldable pub callback_func : Prefetcher → Result Prefetcher
callback_func p =
    if ltb p.launched_prefetches p.num_prefetched_partitions
    then prefetch_partition true p
    else ok p

-- `start_prefetching` respects the limit of parallel requests.
unfoldable pub is_limited : Prefetcher → Bool
is_limited p = ltb p.parallel_prefetch_requests p.num_prefetched_partitions

-- The number of calls that `start_prefetching` makes, each with `is_limited` as `maybe_continue`.
unfoldable pub start_calls : Prefetcher → ℕ
start_calls p =
    if ltb p.num_prefetched_partitions 1
    then 0
    else if is_limited p
    then p.parallel_prefetch_requests
    else p.num_prefetched_partitions

-- The call at the head of the loop of `all_partition_generator`.
unfoldable pub enter_partition : ℕ → Prefetcher → Result Prefetcher
enter_partition partition_id p =
    if ltb 0 p.num_prefetched_partitions && ltb partition_id (p.num_partitions - 1)
    then prefetch_partition false p
    else ok p

-- The first look at a partition's lock, of `_partition_max_index`.
unfoldable pub partition_lock : ℕ → Prefetcher → Result (Unit {0})
partition_lock partition_id p = guard (mem partition_id p.data_threads) key_error

-- Where the loop stands: calls that `start_prefetching` has still to make; the head of the loop for a
-- partition; inside, reading that partition; behind the loop.
pub data Position : Type 0 where
  starting : ℕ → Position
  iterating : ℕ → Position
  consuming : ℕ → Position
  exhausted : Position

-- `callbacks`: threads with a callback that has not run.
pub record Epoch : Type 0 where
  pub prefetcher : Prefetcher
  pub callbacks : ℕ
  pub position : Position

unfoldable pub start_epoch : Prefetcher → Epoch
start_epoch p = record { prefetcher = p; callbacks = 0; position = starting (start_calls p) }

-- The threads with a callback that a call has started.
unfoldable pub new_callbacks : Prefetcher → Prefetcher → ℕ
new_callbacks p p' = p'.launched_prefetches - p.launched_prefetches

pub data Step : Epoch → Epoch → Type 0 where
  start :
      (s : Epoch) (k : ℕ) (p : Prefetcher)
      → s.position ≡ starting (suc k)
      → prefetch_partition (is_limited s.prefetcher) s.prefetcher ≡ ok p
      → Step s (record {
        prefetcher = p;
        callbacks = s.callbacks + new_callbacks s.prefetcher p;
        position = starting k;
      })
  loop : (s : Epoch) → s.position ≡ starting 0 → Step s (record s { position = iterating 0 })
  enter :
      (s : Epoch) (i : ℕ) (p : Prefetcher)
      → s.position ≡ iterating i
      → i < s.prefetcher.num_partitions
      → enter_partition i s.prefetcher ≡ ok p
      → Step s (record s { prefetcher = p; position = consuming i })
  leave :
      (s : Epoch) (i : ℕ)
      → s.position ≡ consuming i
      → Step s (record s { position = iterating (suc i) })
  stop :
      (s : Epoch) (i : ℕ)
      → s.position ≡ iterating i
      → s.prefetcher.num_partitions ≤ i
      → Step s (record s { position = exhausted })
  callback :
      (s : Epoch) (k : ℕ) (p : Prefetcher)
      → s.callbacks ≡ suc k
      → callback_func s.prefetcher ≡ ok p
      → Step s (record s { prefetcher = p; callbacks = k + new_callbacks s.prefetcher p })

pub data Reach (s : Epoch) : Epoch → Type 0 where
  here : Reach s s
  next : {t u : Epoch} → Reach s t → Step t u → Reach s u
