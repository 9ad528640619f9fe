-- ===== src/Executor/Execute.antt =====
-- `execute`, the mode of a pipeline, and the batch size of its dataset.
use Prim.Native.String.{String, compare}
use Prim.Native.Nat.{Ordering}
use modyn.Executor.State.{
  get_selector_batch_size, done, general, dataset, Cluster, Config, Exec, pure, modify, ◌>>◌,
  update_stage,
}
use modyn.Executor.Training.{build_evaluation_matrix}
use modyn.Executor.Replay.{replay_data, wait_for_new_data}
use modyn.Triggers.Interface.{Trigger}
use modyn.Prelude.{
  if◌then◌else◌, value_error, Result, ok, raise, ℕ, Bool, true, false, Option, none, some, List, [],
  ◌∷◌,
}

abbrev same_text : String → String → Bool
same_text s t = elim (compare s t) [ Ordering.eq ↦ true | _ ↦ false ]

-- `_determine_pipeline_mode`: whether the pipeline is an experiment.
unfoldable pub determine_pipeline_mode : Config → Result Bool
determine_pipeline_mode config = elim config.start_replay_at [
  | some start ↦ ok true
  | none ↦ elim config.stop_replay_at [ none ↦ ok false | some stop ↦ raise value_error ]
]

-- The batch size for a dataset, from the datasets of the configuration and a default: the first with
-- the name counts.
unfoldable pub find_batch_size : String → List (String × Option ℕ) → ℕ → ℕ
find_batch_size dataset_id [] default = default
find_batch_size dataset_id ((name, size) ∷ datasets) default =
    if same_text name dataset_id
    then elim size [ none ↦ default | some n ↦ n ]
    else find_batch_size dataset_id datasets default

module _ (trigger : Trigger) (cluster : Cluster) (config : Config)
    (datasets : List (String × Option ℕ)) where
  unfoldable pub get_dataset_selector_batch_size : Exec trigger.State (Unit {0})
  unfolding find_batch_size update_stage
  get_dataset_selector_batch_size = do
    update_stage get_selector_batch_size (dataset config.dataset_id)
    modify (λ s. record s {
      selector_batch_size = find_batch_size config.dataset_id datasets s.selector_batch_size;
    })

  -- `execute` of an experiment or not, with an interrupt after `rounds` rounds of waiting.
  unfoldable pub execute : Bool → ℕ → ℕ → Exec trigger.State (Unit {0})
  unfolding get_dataset_selector_batch_size replay_data wait_for_new_data build_evaluation_matrix
      update_stage
  execute experiment_mode rounds start_timestamp = do
    get_dataset_selector_batch_size
    if experiment_mode
        then (do
          replay_data trigger cluster config
          if config.evaluation_matrix then build_evaluation_matrix cluster config else pure tt)
        else wait_for_new_data trigger cluster config rounds start_timestamp
    update_stage done general
