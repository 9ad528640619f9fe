-- ===== src/GrpcHandler.antt =====
-- `wait_for_training_completion` of modyn/supervisor/internal/grpc_handler.py with the reports of
-- training_status_reporter.py, on a trainer server. What the process of the training does is given
-- for each round of the loop; a loop that has not left its last round is `none`.
pub mod Life
pub mod Reading
pub mod Checked
pub mod Rounds
pub mod Waiting
use modyn.TrainerServer.{run}
use modyn.TrainerServer.Queues.{Process, Actions}
use modyn.TrainerServer.Server.{Server}
use modyn.TrainerServer.Answers.{TrainingStatusResponse, is_some, set_process, get_training_status}
use modyn.SelectorService.{find}
use Prim.Native.String.{String}
use modyn.Prelude.{
  if◌then◌else◌, assertion_error, connection_error, runtime_error, Result, ok, raise, ◌>>◌, guard,
  ℕ, Bool, not, ◌&&◌, ◌||◌, Option, none, some, List, [], ◌∷◌, ◌++◌,
}

-- What the process does while the handler sleeps, and in the two waits of the server.
pub record Round : Type 0 where
  pub asleep : Actions
  pub first : Actions
  pub second : Actions

pub data Report : Type 0 where
  create_tracker : ℕ → ℕ → Report
  progress_counter : ℕ → ℕ → Bool → Report
  close_counter : Report

-- A number that is not set is read as 0.
unfoldable pub number_of : Option ℕ → ℕ
number_of none = 0
number_of (some n) = n

-- The checks on an answer, and what is reported of it. That an answer is blocked is only counted
-- for a warning.
unfoldable pub inspect_state : TrainingStatusResponse → Result (List Report)
inspect_state res =
    if res.state_available
    then (guard
          ((is_some res.samples_seen && is_some res.batches_seen)
            || (is_some res.downsampling_samples_seen && is_some res.downsampling_batches_seen))
          assertion_error
        >> ok (
            progress_counter (number_of res.samples_seen) (number_of res.downsampling_samples_seen)
              res.is_training
            ∷ []))
    else ok []

unfoldable pub inspect : TrainingStatusResponse → Result (List Report)
inspect res =
    guard res.valid runtime_error
    >> (if res.blocked
        then ok []
        else guard (not (is_some res.exception)) runtime_error >> inspect_state res)

unfoldable pub elapse_on : ℕ → Actions → Server → Option Process → Server
elapse_on training_id actions s none = s
elapse_on training_id actions s (some p) = set_process training_id (run actions p) s

-- Time passes for the process of a training.
unfoldable pub elapse : ℕ → Actions → Server → Server
elapse training_id actions s =
    elapse_on training_id actions s (find training_id s.training_process_dict)

module _ {Log : Type 0} (json_loads : String → Result Log) where
  -- After an answer that is inspected: the next round, or the end.
  unfoldable pub after_answer :
      TrainingStatusResponse
      → Result (List Report)
      → Option (Result Log × List Report)
      → Option (Result Log × List Report)
  after_answer res (raise e) later = some (raise e, [])
  after_answer res (ok reports) later =
      if res.is_running then reported later else some (json_loads res.log, reports)
    where
      reported : Option (Result Log × List Report) → Option (Result Log × List Report)
      reported none = none
      reported (some (log, rest)) = some (log, reports ++ rest)

  -- An exception of the server fails the call.
  unfoldable pub answered_with :
      Result (TrainingStatusResponse × Server)
      → (Server → Option (Result Log × List Report))
      → Option (Result Log × List Report)
  answered_with (raise e) later = some (raise e, [])
  answered_with (ok (res, s)) later = after_answer res (inspect res) (later s)

  unfoldable pub status_loop : ℕ → List Round → Server → Option (Result Log × List Report)
  status_loop training_id [] s = none
  status_loop training_id (r ∷ rounds) s =
      answered_with
        (get_training_status r.first r.second training_id (elapse training_id r.asleep s))
        (λ s'. status_loop training_id rounds s')

  unfoldable pub with_tracker :
      ℕ → ℕ → Option (Result Log × List Report) → Option (Result Log × List Report)
  with_tracker total_samples status_bar_scale none = none
  with_tracker total_samples status_bar_scale (some (raise e, reports)) =
      some (raise e, create_tracker total_samples status_bar_scale ∷ reports)
  with_tracker total_samples status_bar_scale (some (ok log, reports)) =
      some (ok log, create_tracker total_samples status_bar_scale ∷ reports ++ close_counter ∷ [])

  -- The log of the training, with the answers of the selector for the tracker.
  unfoldable pub wait_for_training_completion :
      Bool → ℕ → ℕ → ℕ → List Round → Server → Option (Result Log × List Report)
  wait_for_training_completion connected total_samples status_bar_scale training_id rounds s =
      if connected
      then with_tracker total_samples status_bar_scale (status_loop training_id rounds s)
      else some (raise connection_error, [])
