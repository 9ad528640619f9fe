-- ===== src/SelectorService.antt =====
-- `Selector` of modyn/selector/selector.py: the caches of a pipeline's selector in front of its
-- strategy, which is a record of operations without laws here, since the selector takes any. The row
-- of a trigger in the metadata database is a function, `none` where there is no row or no database.
pub mod Cached
pub mod Kept
use modyn.Partition.{get_partition_for_worker}
use modyn.Prelude.{
  ltb, leb, ◌==◌, if◌then◌else◌, length, get_elem?, slice, concat, value_error, assertion_error,
  index_error, Result, ok, raise, ◌>>=◌, ◌>>◌, guard, ℕ, zero, suc, ◌+◌, Bool, false, ◌&&◌, ◌||◌,
  Option, none, some, List, [], ◌∷◌,
}
use modyn.Prelude.Int.{ℤ, pos, negsuc}

-- What the selector calls of a strategy, with what it leaves behind. `trigger` answers the id and the
-- numbers of keys and partitions; get_trigger_partition_keys is asked for a worker of a number of
-- workers, or for all of a partition, and may raise.
pub record Service (Sample : Type 0) : Type 1 where
  pub State : Type 0
  pub inform_data : List ℕ → List ℕ → List ℕ → State → Result (Unit {0}) × State
  pub trigger : State → Result (ℕ × ℕ × ℕ) × State
  pub get_trigger_partition_keys : State → ℕ → ℕ → Option (ℕ × ℕ) → Result (List Sample)

-- A dictionary, newest entry first.
unfoldable pub find {ℓ} : {A : Type ℓ} → ℕ → List (ℕ × A) → Option A
find t [] = none
find t ((k, a) ∷ entries) = if k == t then some a else find t entries

unfoldable pub is_in {ℓ} : {A : Type ℓ} → ℕ → List (ℕ × A) → Bool
is_in t [] = false
is_in t ((k, a) ∷ entries) = k == t || is_in t entries

module _ {Sample : Type 0} (strategy : Service Sample) where
  pub record Selector : Type 0 where
    pub num_workers : ℕ
    pub maximum_keys_in_cache : ℕ
    pub current_keys_in_cache : ℕ
    pub trigger_cache : List (ℕ × List (List Sample))
    pub trigger_size_cache : List (ℕ × ℕ)
    pub trigger_partition_cache : List (ℕ × ℕ)
    pub state : strategy.State

  unfoldable pub new_selector : ℕ → ℕ → strategy.State → Selector
  new_selector num_workers cache_size state = record {
    num_workers = num_workers;
    maximum_keys_in_cache = cache_size;
    current_keys_in_cache = 0;
    trigger_cache = [];
    trigger_size_cache = [];
    trigger_partition_cache = [];
    state = state;
  }

  unfoldable pub add_row : ℕ → Option (ℕ × ℕ) → Selector → Selector
  add_row trigger_id none s = s
  add_row trigger_id (some (num_keys, num_partitions)) s = record s {
    trigger_size_cache = (trigger_id, num_keys) ∷ s.trigger_size_cache;
    trigger_partition_cache = (trigger_id, num_partitions) ∷ s.trigger_partition_cache;
  }

  unfoldable pub populate_trigger_if_exists : (ℕ → Option (ℕ × ℕ)) → ℕ → Selector → Result Selector
  populate_trigger_if_exists database trigger_id s =
      if is_in trigger_id s.trigger_size_cache
      then guard (is_in trigger_id s.trigger_partition_cache) assertion_error >> ok s
      else ok (add_row trigger_id (database trigger_id) s)

  -- A partition of a cached trigger.
  unfoldable pub cached_slice : ℕ → ℕ → Option (List Sample) → Result (List Sample)
  cached_slice worker_id num_workers none = raise index_error
  cached_slice worker_id num_workers (some samples) =
      get_partition_for_worker (pos worker_id) num_workers (length samples) >>= λ part.
      ok (slice samples part.0 (part.0 + part.1))

  unfoldable pub from_cache :
      ℕ → ℕ → ℕ → Selector → Option (List (List Sample)) → Result (List Sample)
  from_cache trigger_id worker_id partition_id s (some partitions) =
      cached_slice worker_id s.num_workers (get_elem? partitions partition_id)
  from_cache trigger_id worker_id partition_id s none =
      strategy.get_trigger_partition_keys s.state trigger_id partition_id
        (some (worker_id, s.num_workers))

  unfoldable pub checked_partition : ℕ → Option ℕ → Result (Unit {0})
  checked_partition partition_id none = raise value_error
  checked_partition partition_id (some n) = guard (ltb partition_id n) value_error

  unfoldable pub checked_worker : ℤ → ℕ → Result ℕ
  checked_worker (negsuc _) num_workers = raise value_error
  checked_worker (pos w) num_workers = guard (ltb w num_workers) value_error >> ok w

  -- `get_sample_keys_and_weights` after the trigger has been populated.
  unfoldable pub sample_answer : ℕ → ℤ → ℕ → Selector → Result (List Sample)
  sample_answer trigger_id worker_id partition_id s =
      checked_partition partition_id (find trigger_id s.trigger_partition_cache)
      >> (checked_worker worker_id s.num_workers >>= λ w.
          from_cache trigger_id w partition_id s (find trigger_id s.trigger_cache))

  unfoldable pub get_sample_keys_and_weights :
      (ℕ → Option (ℕ × ℕ)) → ℕ → ℤ → ℕ → Selector → Result (List Sample)
  get_sample_keys_and_weights database trigger_id worker_id partition_id s =
      populate_trigger_if_exists database trigger_id s >>= λ s'.
      sample_answer trigger_id worker_id partition_id s'

  -- `range(partitions_in_trigger)`, from `first` on.
  unfoldable pub all_partitions : strategy.State → ℕ → ℕ → ℕ → Result (List (List Sample))
  all_partitions state trigger_id first zero = ok []
  all_partitions state trigger_id first (suc n) =
      strategy.get_trigger_partition_keys state trigger_id first none >>= λ keys.
      all_partitions state trigger_id (suc first) n >>= λ later. ok (keys ∷ later)

  -- The trigger's partitions go into the cache before their number is checked.
  unfoldable pub cached :
      ℕ → ℕ → Result (List (List Sample)) → Selector → Result (Unit {0}) × Selector
  cached trigger_id total (raise e) s = (raise e, s)
  cached trigger_id total (ok partitions) s = (
    guard (total == length (concat partitions)) assertion_error,
    record s {
      trigger_cache = (trigger_id, partitions) ∷ s.trigger_cache;
      current_keys_in_cache = s.current_keys_in_cache + total;
    },
  )

  -- The part of `inform_data_and_trigger` about the cache.
  unfoldable pub cache_trigger : ℕ → ℕ → ℕ → Selector → Result (Unit {0}) × Selector
  cache_trigger trigger_id total parts s =
      if leb (s.current_keys_in_cache + total) s.maximum_keys_in_cache
      then cached trigger_id total (all_partitions s.state trigger_id 0 parts) s
      else (ok tt, s)

  unfoldable pub on_record : ℕ → ℕ → ℕ → Result (Unit {0}) × Selector → Result ℕ × Selector
  on_record trigger_id total parts (raise e, s) = (raise e, s)
  on_record trigger_id total parts (ok u, s) = (
    ok trigger_id,
    record s {
      trigger_size_cache = (trigger_id, total) ∷ s.trigger_size_cache;
      trigger_partition_cache = (trigger_id, parts) ∷ s.trigger_partition_cache;
    },
  )

  unfoldable pub after_trigger : Result (ℕ × ℕ × ℕ) → Selector → Result ℕ × Selector
  after_trigger (raise e) s = (raise e, s)
  after_trigger (ok (trigger_id, total, parts)) s =
      if is_in trigger_id s.trigger_size_cache
      then (raise assertion_error, s)
      else on_record trigger_id total parts (cache_trigger trigger_id total parts s)

  unfoldable pub after_inform : Result (Unit {0}) × Selector → Result ℕ × Selector
  after_inform (raise e, s) = (raise e, s)
  after_inform (ok u, s) =
      let (answer, state) = strategy.trigger s.state in
      after_trigger answer (record s { state = state })

  unfoldable pub inform_some : List ℕ → List ℕ → List ℕ → Selector → Result (Unit {0}) × Selector
  inform_some [] timestamps labels s = (ok tt, s)
  inform_some (k ∷ keys) timestamps labels s =
      let (answer, state) = strategy.inform_data (k ∷ keys) timestamps labels s.state in
      (answer, record s { state = state })

  unfoldable pub inform_data_and_trigger : List ℕ → List ℕ → List ℕ → Selector → Result ℕ × Selector
  inform_data_and_trigger keys timestamps labels s =
      if (length keys == length timestamps) && (length keys == length labels)
      then after_inform (inform_some keys timestamps labels s)
      else (raise assertion_error, s)

  unfoldable pub found_number : Option ℕ → Result ℕ
  found_number none = raise value_error
  found_number (some n) = ok n

  unfoldable pub get_number_of_samples : (ℕ → Option (ℕ × ℕ)) → ℕ → Selector → Result ℕ
  get_number_of_samples database trigger_id s =
      populate_trigger_if_exists database trigger_id s >>= λ s'.
      found_number (find trigger_id s'.trigger_size_cache)

  unfoldable pub get_number_of_partitions : (ℕ → Option (ℕ × ℕ)) → ℕ → Selector → Result ℕ
  get_number_of_partitions database trigger_id s =
      populate_trigger_if_exists database trigger_id s >>= λ s'.
      found_number (find trigger_id s'.trigger_partition_cache)
