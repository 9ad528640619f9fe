-- ===== src/Selector/Backend.antt =====
-- DatabaseStorageBackend: how samples become rows, and the queries.
pub mod Spread
use modyn.Selector.Engine.{SampleRow, Engine}
use modyn.Prelude.{
  ltb, leb, ◌==◌, if◌then◌else◌, length, slice, filter_by, mem, assertion_error, Result, ok, raise,
  ℕ, zero, suc, ◌+◌, ◌-◌, ◌*◌, ◌/◌, Bool, true, ◌&&◌, Option, none, some, List, [], ◌∷◌, ◌++◌, map,
}

-- `_persist_samples_impl`: `zip` stops at the shortest list.
unfoldable pub persist_samples_impl : ℕ → ℕ → List ℕ → List ℕ → List ℕ → List SampleRow
persist_samples_impl pipeline_id seen (key ∷ keys) (timestamp ∷ timestamps) (label ∷ labels) =
    record {
      pipeline_id = pipeline_id;
      sample_key = key;
      timestamp = timestamp;
      label = label;
      seen_in_trigger_id = seen;
    }
    ∷ persist_samples_impl pipeline_id seen keys timestamps labels
persist_samples_impl pipeline_id seen keys timestamps labels = []

-- `end_idx` of the process number `i`.
unfoldable pub end_index : ℕ → ℕ → ℕ → ℕ → ℕ
end_index insertion_threads samples_per_proc n i =
    if ltb i (insertion_threads - 1) then i * samples_per_proc + samples_per_proc else n

-- The rows of the processes 0 to `count - 1`; a process without keys is not started.
unfoldable pub processes : ℕ → ℕ → ℕ → List ℕ → List ℕ → List ℕ → ℕ → List (List SampleRow)
unfolding end_index persist_samples_impl
processes pipeline_id seen insertion_threads keys timestamps labels zero = []
processes pipeline_id seen insertion_threads keys timestamps labels (suc i) =
    let earlier = processes pipeline_id seen insertion_threads keys timestamps labels i in
    let samples_per_proc = length keys / insertion_threads in
    let first = i * samples_per_proc in
    let after_last = end_index insertion_threads samples_per_proc (length keys) i in
    let proc_keys = slice keys first after_last in
    if ltb 0 (length proc_keys)
    then earlier
      ++ persist_samples_impl pipeline_id seen proc_keys (slice timestamps first after_last)
          (slice labels first after_last)
        ∷ []
    else earlier

-- `persist_samples`: the rows after it. No threads stand for any number that is not positive.
unfoldable pub persist_samples :
    Engine → ℕ → ℕ → ℕ → List ℕ → List ℕ → List ℕ → List SampleRow → Result (List SampleRow)
unfolding processes
persist_samples engine pipeline_id insertion_threads seen keys timestamps labels rows =
    let joined =
      engine.commit
        (processes pipeline_id seen insertion_threads keys timestamps labels insertion_threads) in
    if (length keys == length timestamps) && (length keys == length labels)
    then ok (
        rows
        ++ (if insertion_threads == 0
            then persist_samples_impl pipeline_id seen keys timestamps labels
            else joined))
    else raise assertion_error

-- `_get_pipeline_data` with its additional filter: the keys, in parts.
unfoldable pub get_pipeline_data :
    Engine → ℕ → ℕ → (SampleRow → Bool) → List SampleRow → List (List ℕ)
get_pipeline_data engine pipeline_id maximum_keys_in_memory additional_filter rows =
    engine.partitions maximum_keys_in_memory (
      map (λ r. r.sample_key)
        (filter_by (λ r. (r.pipeline_id == pipeline_id) && additional_filter r) rows))

-- The filters of `get_data_since_trigger`, `get_trigger_data` and `get_all_data`.
abbrev pub since_trigger : ℕ → SampleRow → Bool
since_trigger smallest_included_trigger_id r = leb smallest_included_trigger_id r.seen_in_trigger_id

abbrev pub in_trigger : ℕ → SampleRow → Bool
in_trigger trigger_id r = r.seen_in_trigger_id == trigger_id

abbrev pub always : SampleRow → Bool
always r = true

-- `distinct`
unfoldable pub distinct : List ℕ → List ℕ
distinct [] = []
distinct (a ∷ later) = let rest = distinct later in if mem a rest then rest else a ∷ rest

-- `get_available_labels`; `seen >= next - tail - 1` is written without negative numbers.
unfoldable pub get_available_labels : ℕ → ℕ → Option ℕ → List SampleRow → List ℕ
unfolding distinct
get_available_labels pipeline_id next_trigger_id tail_triggers rows = distinct (
    map (λ r. r.label)
      (filter_by
        (λ r.
          (r.pipeline_id == pipeline_id)
          && ltb r.seen_in_trigger_id next_trigger_id
          && elim tail_triggers [
            | none ↦ true
            | some tail ↦ leb next_trigger_id (r.seen_in_trigger_id + tail + 1)
          ])
        rows))
