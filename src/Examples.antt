-- ===== src/Examples.antt =====
-- Concrete runs: the theorems at inputs of the size that the repository's tests use.
pub mod Selecting
pub mod Modelling
pub mod Fetching
pub mod Prefetching
pub mod Storing
pub mod Serving
pub mod Sharing
pub mod Training
pub mod Supervising
use modyn.Partition.Cover.{worker_slices, worker_slices_cover, get_partition_for_worker_bounds}
use modyn.Partition.{subset_size, offset, start_index, get_partition_for_worker}
use modyn.Executor.State.{init, Cluster, Config, State}
use modyn.Executor.NewData.Informs.{informed}
use modyn.Executor.NewData.{sort_by_timestamp, handle_new_data}
use modyn.Executor.NewData.Stream.{handle_new_data-conserves}
use modyn.Executor.Training.{build_evaluation_matrix}
use modyn.SelectorService.{find}
use modyn.Executor.Training.Matrix.{evaluated, Found, IsRow, build_evaluation_matrix_lem}
use modyn.Executor.Replay.{replay_data, poll}
use modyn.Executor.Replay.Replayed.{replay_data-conserves}
use modyn.Executor.Replay.Polls.{unseen, poll_lem, poll-forgets}
use modyn.Triggers.Amount.{DataAmountTrigger, inform as amount_inform}
use modyn.Triggers.Amount.Count.{amount_inform_lem, inform_all, amount_inform_all_lem}
use modyn.Triggers.Time.{TimeTrigger, last, inform as time_inform}
use modyn.Triggers.Time.Boundaries.{IsFirst, time_inform_lem}
use modyn.Triggers.Instances.{data_amount_trigger, time_trigger}
use modyn.Prelude.Int.{ℤ, pos, after}
use modyn.Prelude.{
  length, get_elem?, concat, mem, ok, ℕ, ◌+◌, ◌*◌, ◌/◌, ◌%◌, ◌≤◌, ◌<◌, ◌≡◌, refl, Bool, true, false,
  none, some, List, [], ◌∷◌, ◌++◌, map, arith,
}
use modyn.Data.{DataPoint}

abbrev item : ℕ → ℕ → DataPoint
item key timestamp = record { key = key; timestamp = timestamp; label = 0 }

abbrev seven : List ℕ
seven = 10 ∷ 11 ∷ 12 ∷ 13 ∷ 14 ∷ 15 ∷ 16 ∷ []

worker_slices_cover_example : worker_slices seven 3 3 ≡ seven
worker_slices_cover_example = worker_slices_cover seven 3 (omega arith)

get_partition_for_worker_bounds_example :
    (w : ℕ) × (pos 1 ≡ pos w) × (w < 3) × (3 + 2 ≤ 7) × (7 / 3 ≤ 2) × (2 ≤ 7 / 3 + 1)
unfolding get_partition_for_worker subset_size offset start_index
get_partition_for_worker_bounds_example = get_partition_for_worker_bounds 3 7 (pos 1) 3 2 refl

abbrev stream : List DataPoint
stream = item 3 30 ∷ item 1 10 ∷ item 2 20 ∷ item 4 40 ∷ item 5 50 ∷ []

abbrev every_two : DataAmountTrigger
every_two = record { data_points_for_trigger = 2; remaining_data_points = 1 }

abbrev after_ten : TimeTrigger
after_ten = record { trigger_every_s = 10; next_trigger_at = none }

-- Storage answers with one chunk; every other answer is the number of calls.
abbrev cluster : Cluster
cluster = record {
  trigger_id = length;
  num_samples = length;
  training_id = length;
  model_id = length;
  evaluations = λ calls. [];
  log_results = λ calls. "kept";
  data_chunks = λ calls. stream ∷ [];
}

abbrev config : Config
config = record {
  dataset_id = "test";
  use_previous_model = true;
  has_evaluation = false;
  evaluation_matrix = false;
  maximum_triggers = none;
  start_replay_at = some 0;
  stop_replay_at = none;
}

abbrev new_state : {T : Type 0} → T → State T
new_state t = record {
  trigger = t;
  selector_batch_size = 2;
  num_triggers = 0;
  logged_triggers = 0;
  current_training_id = none;
  previous_model_id = none;
  trained_models = [];
  triggers = [];
  matrix = [];
  stage = init;
  messages = [];
  calls = [];
}

amount_inform_lem_example :
    (indices : List ℕ) × (t' : DataAmountTrigger) × (amount_inform every_two stream
      ≡ ok (indices, t'))
    × (length indices ≡ (1 + 5) / 2)
    × ((k i : ℕ) → get_elem? indices k ≡ some i → 1 + i + 1 ≡ (k + 1) * 2)
    × (t'.data_points_for_trigger ≡ 2)
    × (t'.remaining_data_points ≡ (1 + 5) % 2)
    × (t'.remaining_data_points < t'.data_points_for_trigger)
amount_inform_lem_example = amount_inform_lem every_two stream (omega arith)

amount_inform_all_lem_example :
    (t' : DataAmountTrigger) × (inform_all every_two (stream ∷ [] ∷ stream ∷ [])
      ≡ ok ((1 + 10) / 2, t'))
amount_inform_all_lem_example =
    amount_inform_all_lem every_two (stream ∷ [] ∷ stream ∷ []) (omega arith)

time_inform_lem_example :
    (indices : List ℤ) × (next' : ℕ) × (time_inform after_ten (item 1 10 ∷ item 4 40 ∷ [])
      ≡ ok (indices, record after_ten { next_trigger_at = some next' }))
    × (40 < next')
    × (next' ≡ 20 + length indices * 10)
    × ((k : ℕ) (i : ℤ)
        → get_elem? indices k ≡ some i
        → IsFirst (20 + k * 10) (item 1 10 ∷ item 4 40 ∷ []) (after i))
unfolding last
time_inform_lem_example =
    time_inform_lem after_ten (item 1 10) (item 4 40 ∷ []) (item 4 40) (omega arith) refl

handle_new_data-conserves_example :
    (fired : Bool) × (s' : State DataAmountTrigger) × (handle_new_data data_amount_trigger cluster
        config stream
        (new_state every_two)
      ≡ (ok fired, s'))
    × (informed s'.calls ≡ [] ++ sort_by_timestamp stream)
    × ((s'.trigger.remaining_data_points < s'.trigger.data_points_for_trigger)
        × (s'.selector_batch_size ≡ 2))
handle_new_data-conserves_example =
    handle_new_data-conserves data_amount_trigger cluster config refl 2 (omega arith) stream
      (new_state every_two) (omega arith) refl

replay_data-conserves_example :
    (s' : State TimeTrigger) × (replay_data time_trigger cluster config (new_state after_ten)
      ≡ (ok tt, s'))
    × (informed s'.calls ≡ [] ++ concat (map sort_by_timestamp (stream ∷ [])))
    × ((0 < s'.trigger.trigger_every_s) × (s'.selector_batch_size ≡ 2))
replay_data-conserves_example =
    replay_data-conserves time_trigger cluster config refl 2 (omega arith) 0 (new_state after_ten)
      refl (omega arith) refl

poll_lem_example :
    (newest : ℕ) × (keys : List ℕ) × (s' : State DataAmountTrigger) × (poll data_amount_trigger
        cluster config 10
        (1 ∷ 2 ∷ [])
        (new_state every_two)
      ≡ (ok (newest, keys, true), s'))
    × (informed s'.calls
        ≡ [] ++ concat (map (λ c. sort_by_timestamp (unseen (1 ∷ 2 ∷ []) c)) (stream ∷ [])))
    × ((s'.trigger.remaining_data_points < s'.trigger.data_points_for_trigger)
        × (s'.selector_batch_size ≡ 2))
poll_lem_example =
    poll_lem data_amount_trigger cluster config refl 2 (omega arith) 10 (1 ∷ 2 ∷ [])
      (new_state every_two) (omega arith) refl

poll-forgets_example :
    (s' : State DataAmountTrigger) × (poll data_amount_trigger cluster config 50
        (1 ∷ 2 ∷ 3 ∷ 4 ∷ 5 ∷ [])
        (new_state every_two)
      ≡ (ok (50, [], true), s'))
poll-forgets_example =
    poll-forgets data_amount_trigger cluster config refl 2 (omega arith) 50 (1 ∷ 2 ∷ 3 ∷ 4 ∷ 5 ∷ [])
      (new_state every_two) (omega arith) refl (refl, tt)

abbrev trained : State DataAmountTrigger
trained = record (new_state every_two) {
  trained_models = 5 ∷ 6 ∷ [];
  triggers = 0 ∷ 1 ∷ [];
  matrix = (1, (1, "kept") ∷ []) ∷ [];
}

build_evaluation_matrix_lem_example :
    (s' : State DataAmountTrigger) × (build_evaluation_matrix cluster config trained ≡ (ok tt, s'))
    × (evaluated s'.calls ≡ (5, some 0) ∷ (5, some 1) ∷ (6, some 0) ∷ (6, some 1) ∷ [])
    × ((model : ℕ)
        → Found
            (IsRow cluster none (0 ∷ 1 ∷ []) model)
            (mem model (5 ∷ 6 ∷ []))
            none
            (find model s'.matrix))
build_evaluation_matrix_lem_example = build_evaluation_matrix_lem cluster config trained
