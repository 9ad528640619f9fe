-- ===== src/Selector/Trigger.antt =====
-- `trigger` of AbstractSelectionStrategy with `_on_trigger` of NewDataStrategy: the rows that a trigger
-- leaves in the database, and the samples that are stored for the trainer.
pub mod Lengths
pub mod Wanted
pub mod Selected
pub mod Limits
use modyn.Selector.Engine.{SampleRow, Engine}
use modyn.Selector.Backend.{get_pipeline_data, since_trigger, in_trigger, always}
use modyn.Selector.Strategy.{last_x, sample_uar, unsupported, Strategy, has_limit}
use modyn.Stopwatch.{Stopwatch, new_stopwatch, start, stop}
use modyn.Prelude.{
  ltb, ◌==◌, if◌then◌else◌, length, drop, replicate, sum, Exception, assertion_error,
  not_implemented, Result, ok, raise, ℕ, suc, ◌-◌, ◌/◌, min, Bool, true, false, not, ◌&&◌, Option,
  none, some, List, [], ◌∷◌, ◌++◌, map,
}

-- A row of Trigger; the numbers are set once all partitions are stored.
pub record TriggerRow : Type 0 where
  pub pipeline_id : ℕ
  pub trigger_id : ℕ
  pub num_keys : Option ℕ
  pub num_partitions : Option ℕ

pub record PartitionRow : Type 0 where
  pub pipeline_id : ℕ
  pub trigger_id : ℕ
  pub partition_id : ℕ
  pub num_keys : ℕ

-- A call of `save_trigger_samples`.
pub record Stored (W : Type 0) : Type 0 where
  pub pipeline_id : ℕ
  pub trigger_id : ℕ
  pub partition_id : ℕ
  pub training_samples : List (ℕ × W)
  pub data_lengths : List ℕ

pub record Database (W : Type 0) : Type 0 where
  pub samples : List SampleRow
  pub triggers : List TriggerRow
  pub partitions : List PartitionRow
  pub stored : List (Stored W)

-- A Python generator: it yields values, and ends or raises.
pub data Generator (A : Type 0) : Type 0 where
  finished : Generator A
  raises : Exception → Generator A
  yields : A → Generator A → Generator A

-- How the samples of a partition are split into files.
unfoldable pub data_lengths : ℕ → ℕ → List ℕ
data_lengths insertion_threads n =
    let samples_per_proc = n / insertion_threads in
    let even =
      if ltb 0 samples_per_proc then replicate (insertion_threads - 1) samples_per_proc else [] in
    if insertion_threads == 0
    then n ∷ []
    else if ltb (sum even) n
    then even ++ (n - sum even) ∷ []
    else even

-- The last `k` entries, `samples[-k:]` for a positive `k`.
abbrev pub last_entries : ℕ → List ℕ → List ℕ
last_entries k samples = drop (length samples - k) samples

module _ (engine : Engine) (s : Strategy) where
  -- Which rows the three data functions ask for.
  unfoldable pub wanted : SampleRow → Bool
  wanted = if s.reset_after_trigger then in_trigger s.next_trigger_id else elim s.tail_triggers [
    | none ↦ always
    | some tail ↦ if ltb 0 tail then since_trigger (s.next_trigger_id - tail) else always
  ]

  unfoldable pub sample_down : ℕ → List ℕ → List ℕ
  sample_down partition samples =
      engine.sample s.next_trigger_id partition samples
        (min (length samples) s.training_set_size_limit)

  -- The loops of `_get_data_reset` and `_get_data_tail` with a limit. They start the measurement
  -- "sample_time" of one stopwatch for each partition.
  unfoldable pub sample_parts : Stopwatch → ℕ → List (List ℕ) → Generator (List ℕ)
  unfolding sample_down
  sample_parts swt partition [] = finished
  sample_parts swt partition (samples ∷ parts) =
      elim (start "sample_time" false false (engine.clock partition) swt) [
        | raise e ↦ raises e
        | ok started ↦ elim (stop none (engine.clock (suc partition)) started) [
          | raise e ↦ raises e
          | ok measured ↦
              yields (sample_down partition samples)
                (sample_parts (measured.1) (suc partition) parts)
        ]
      ]

  -- `_handle_limit_no_reset`
  unfoldable pub handle_limit_no_reset : ℕ → List ℕ → Result (List ℕ)
  unfolding sample_down
  handle_limit_no_reset partition samples = elim s.limit_reset_strategy [
    | none ↦ raise assertion_error
    | some mode ↦ elim mode [
      | last_x ↦ ok (last_entries s.training_set_size_limit samples)
      | sample_uar ↦ ok (sample_down partition samples)
      | unsupported ↦ raise not_implemented
    ]
  ]

  -- The loop of `_get_data_no_reset` with a limit; its measurement is overwritten.
  unfoldable pub limit_parts : ℕ → List (List ℕ) → Generator (List ℕ)
  unfolding handle_limit_no_reset
  limit_parts partition [] = finished
  limit_parts partition (samples ∷ parts) = elim (handle_limit_no_reset partition samples) [
    | raise e ↦ raises e
    | ok limited ↦ yields limited (limit_parts (suc partition) parts)
  ]

  unfoldable pub all_parts : List (List ℕ) → Generator (List ℕ)
  all_parts [] = finished
  all_parts (samples ∷ parts) = yields samples (all_parts parts)

  -- `assert self.tail_triggers == 0`
  abbrev pub tail_is_zero : Bool
  tail_is_zero = elim s.tail_triggers [ none ↦ false | some tail ↦ tail == 0 ]

  -- `_get_data_reset`, `_get_data_tail` or `_get_data_no_reset`, as `_on_trigger` chooses.
  unfoldable pub get_data : List SampleRow → Generator (List ℕ)
  unfolding wanted sample_parts limit_parts all_parts get_pipeline_data
  get_data rows =
      let parts = get_pipeline_data engine s.pipeline_id s.maximum_keys_in_memory wanted rows in
      let no_reset =
        not s.reset_after_trigger
        && elim s.tail_triggers [ none ↦ true | some tail ↦ not (ltb 0 tail) ] in
      if s.reset_after_trigger && not tail_is_zero
      then raises assertion_error
      else if has_limit s
      then (if no_reset then limit_parts 0 parts else sample_parts new_stopwatch 0 parts)
      else all_parts parts

  -- The loop of `_on_trigger`, from the partition number `partition` on.
  unfoldable pub on_trigger : ℕ → Generator (List ℕ) → Generator (List (ℕ × engine.Weight))
  on_trigger partition finished = finished
  on_trigger partition (raises e) = raises e
  on_trigger partition (yields samples later) =
      yields (map (λ key. (key, engine.one)) (engine.shuffle s.next_trigger_id partition samples))
        (on_trigger (suc partition) later)

  -- The loop of `trigger`: what is stored, with the exception that ends it, if one does.
  unfoldable pub store_partitions :
      ℕ → Generator (List (ℕ × engine.Weight)) → List (Stored engine.Weight) × Option Exception
  unfolding data_lengths
  store_partitions partition finished = ([], none)
  store_partitions partition (raises e) = ([], some e)
  store_partitions partition (yields training_samples later) =
      let (stored, failure) = store_partitions (suc partition) later in
      (
        record {
          pipeline_id = s.pipeline_id;
          trigger_id = s.next_trigger_id;
          partition_id = partition;
          training_samples = training_samples;
          data_lengths = data_lengths s.insertion_threads (length training_samples);
        }
            ∷ stored,
        failure,
      )

  abbrev pub lengths : List (Stored engine.Weight) → List ℕ
  lengths stored = map (λ part. length part.training_samples) stored

  -- The update of the first row of this trigger.
  unfoldable pub update_trigger : ℕ → ℕ → List TriggerRow → List TriggerRow
  update_trigger num_keys num_partitions [] = []
  update_trigger num_keys num_partitions (row ∷ rows) =
      let later = row ∷ update_trigger num_keys num_partitions rows in
      if (row.pipeline_id == s.pipeline_id) && (row.trigger_id == s.next_trigger_id)
      then record row { num_keys = some num_keys; num_partitions = some num_partitions } ∷ rows
      else later

  -- `_store_trigger_num_keys` for each partition.
  unfoldable pub partition_rows : List (Stored engine.Weight) → List PartitionRow
  partition_rows stored =
      map
        (λ part. record {
          pipeline_id = s.pipeline_id;
          trigger_id = s.next_trigger_id;
          partition_id = part.partition_id;
          num_keys = length part.training_samples;
        })
        stored

  -- What `trigger` does before its loop: the new row.
  abbrev pub created : List TriggerRow → List TriggerRow
  created rows =
      rows
      ++ record {
        pipeline_id = s.pipeline_id;
        trigger_id = s.next_trigger_id;
        num_keys = none;
        num_partitions = none;
      }
        ∷ []

  -- What it does after the loop, or the exception that ended the loop. What was written before an
  -- exception stays. `_reset_state` of the new-data strategy does nothing.
  unfoldable pub finish_trigger :
      Database engine.Weight
      → List (Stored engine.Weight) × Option Exception
      → Result ((ℕ × ℕ × ℕ) × Strategy) × Database engine.Weight
  finish_trigger db (stored, some e) =
      (raise e, record db { triggers = created db.triggers; stored = db.stored ++ stored })
  finish_trigger db (stored, none) =
      let total = sum (lengths stored) in
      (
        ok (
          (s.next_trigger_id, total, length stored),
          record s { next_trigger_id = suc s.next_trigger_id },
        ),
        record db {
          triggers = update_trigger total (length stored) (created db.triggers);
          partitions = db.partitions ++ partition_rows stored;
          stored = db.stored ++ stored;
        },
      )

  -- `trigger`: (trigger id, number of keys, number of partitions) and the strategy afterwards.
  unfoldable pub trigger :
      Database engine.Weight → Result ((ℕ × ℕ × ℕ) × Strategy) × Database engine.Weight
  unfolding get_data on_trigger store_partitions finish_trigger update_trigger partition_rows
  trigger db = finish_trigger db (store_partitions 0 (on_trigger 0 (get_data db.samples)))
