-- ===== src/Supervisor/Status.antt =====
-- The status of a pipeline: all messages that are in its queues, as pipeline_info.py takes them.
-- What the process puts while the queues are read is not modelled.
use modyn.Supervisor.Start.{PipelineInfo, Supervisor}
use modyn.SelectorService.{find}
use modyn.TrainerServer.Server.{put}
use Prim.Native.String.{String}
use modyn.Prelude.{if◌then◌else◌, ℕ, Option, none, some, List, [], ◌∷◌, ◌++◌, map}
use modyn.Prelude.Int.{ℤ}

pub data StageMessage : Type 0 where
  message : String → StageMessage
  -- `exit_submsg` with the exit code and the exception
  exit_message : ℤ → Option String → StageMessage

pub data PipelineStatus : Type 0 where
  running exited not_found : PipelineStatus

pub record StatusAnswer : Type 0 where
  pub status : PipelineStatus
  pub pipeline_stage : List StageMessage
  pub training_status : List String
  pub eval_status : List String

-- The messages of a queue, oldest first, and what is left of it.
unfoldable pub get_all_msgs_from_queue : List String → List String × List String
get_all_msgs_from_queue [] = ([], [])
get_all_msgs_from_queue (m ∷ queue) =
    let rest = get_all_msgs_from_queue queue in (m ∷ rest.0, rest.1)

unfoldable pub check_for_exception : List String → Option String × List String
check_for_exception [] = (none, [])
check_for_exception (m ∷ queue) = (some m, queue)

unfoldable pub status_answer : PipelineInfo → StatusAnswer × PipelineInfo
status_answer p =
    let stages = get_all_msgs_from_queue p.pipeline_status_queue in
    let trainings = get_all_msgs_from_queue p.training_status_queue in
    let evaluations = get_all_msgs_from_queue p.eval_status_queue in
    let drained = record p {
      pipeline_status_queue = stages.1;
      training_status_queue = trainings.1;
      eval_status_queue = evaluations.1;
    } in
    let exception = check_for_exception p.exception_queue in
    if p.alive
    then (
      record {
        status = running;
        pipeline_stage = map message stages.0;
        training_status = trainings.0;
        eval_status = evaluations.0;
      },
      drained,
    )
    else (
      record {
        status = exited;
        pipeline_stage = map message stages.0 ++ exit_message p.exitcode exception.0 ∷ [];
        training_status = trainings.0;
        eval_status = evaluations.0;
      },
      record drained { exception_queue = exception.1 },
    )

unfoldable pub status_for : ℕ → Option PipelineInfo → Supervisor → StatusAnswer × Supervisor
status_for pipeline_id none s =
    (record { status = not_found; pipeline_stage = []; training_status = []; eval_status = [] }, s)
status_for pipeline_id (some p) s =
    let r = status_answer p in
    (r.0, record s { pipeline_process_dict = put pipeline_id r.1 s.pipeline_process_dict })

unfoldable pub get_pipeline_status : ℕ → Supervisor → StatusAnswer × Supervisor
get_pipeline_status pipeline_id s =
    status_for pipeline_id (find pipeline_id s.pipeline_process_dict) s
