-- ===== src/Supervisor/Start.antt =====
-- Registering and starting a pipeline. The metadata database, the other components and the start of
-- a process are a parameter: what they answer, or what they raise.
use modyn.Supervisor.{PipelineConfig, Validators, validate_pipeline_config}
use modyn.TrainerServer.Server.{put}
use Prim.Native.String.{String}
use modyn.Prelude.{
  ◌==◌, if◌then◌else◌, value_error, connection_error, os_error, Result, ok, raise, ◌>>=◌, ◌>>◌,
  guard, ℕ, Bool, true, false, not, ◌&&◌, Option, none, some, List, [], ◌∷◌,
}
use modyn.Prelude.Int.{ℤ, pos, is_negative}

pub data Failure : Type 0 where
  invalid_configuration no_permission invalid_system : Failure
  failed_to_register failed_to_execute : Failure

-- `pipeline_res_msg`: the id -1 is `none`.
pub record PipelineResponse : Type 0 where
  pub pipeline_id : Option ℕ
  pub exception : Option Failure

-- The process of a pipeline with its queues.
pub record PipelineInfo : Type 0 where
  pub alive : Bool
  pub exitcode : ℤ
  pub exception_queue : List String
  pub pipeline_status_queue : List String
  pub training_status_queue : List String
  pub eval_status_queue : List String

pub record System : Type 0 where
  pub validators : Validators
  -- `tempfile.TemporaryFile(dir=path)` and `close`: they are done, or raise an OSError with an errno.
  pub write_testfile : Option ℕ
  -- What `dataset_available` of the handler and the trainer server answer, or raise.
  pub check_availability : String → Result Bool
  pub connected_to_trainer_server : Bool
  pub trainer_available : Result Bool
  pub get_time_at_storage : Result ℕ
  -- The id that the database gives to a new row.
  pub insert_pipeline : PipelineConfig → Result ℕ
  -- `process.start()` with the time, the id and the configuration.
  pub start_process : ℕ → ℕ → PipelineConfig → Result (Unit {0})

pub record Supervisor : Type 0 where
  pub pipeline_process_dict : List (ℕ × PipelineInfo)
  -- The rows of the database, newest first.
  pub pipelines : List (ℕ × PipelineConfig)

unfoldable pub new_pipeline : PipelineInfo
new_pipeline = record {
  alive = true;
  exitcode = pos 0;
  exception_queue = [];
  pipeline_status_queue = [];
  training_status_queue = [];
  eval_status_queue = [];
}

unfoldable pub refuse : Failure → PipelineResponse
refuse f = record { pipeline_id = none; exception = some f }

module _ (system : System) where
  -- `is_directory_writable`: any error of the system but EACCES is raised again.
  unfoldable pub is_directory_writable : Result Bool
  is_directory_writable = elim system.write_testfile [
    | none ↦ ok true
    | some errno ↦ if errno == 13 then ok false else raise os_error
  ]

  -- `trainer_server_available` of the handler
  unfoldable pub trainer_server_available : Result Bool
  trainer_server_available =
      guard system.connected_to_trainer_server connection_error >> system.trainer_available

  unfoldable pub validate_system : PipelineConfig → Result Bool
  validate_system c = system.check_availability c.dataset_id >>= λ dataset_available.
      trainer_server_available >>= λ trainer_server_available.
      ok (dataset_available && trainer_server_available)

  unfoldable pub register_pipeline : PipelineConfig → Result ℕ
  register_pipeline c =
      guard (not (is_negative c.training.dataloader_workers)) value_error
      >> system.insert_pipeline c

  -- After the registration: the process is started, or that raises.
  unfoldable pub executed :
      PipelineConfig → ℕ → Result (Unit {0}) → Supervisor → PipelineResponse × Supervisor
  executed c pipeline_id (raise e) s = (
    record { pipeline_id = some pipeline_id; exception = some failed_to_execute },
    record s { pipelines = (pipeline_id, c) ∷ s.pipelines },
  )
  executed c pipeline_id (ok u) s = (
    record { pipeline_id = some pipeline_id; exception = none },
    record {
      pipeline_process_dict = put pipeline_id new_pipeline s.pipeline_process_dict;
      pipelines = (pipeline_id, c) ∷ s.pipelines;
    },
  )

  unfoldable pub execute :
      PipelineConfig → Result (ℕ × ℕ) → Supervisor → PipelineResponse × Supervisor
  execute c (raise e) s = (refuse failed_to_register, s)
  execute c (ok (start_timestamp, pipeline_id)) s =
      executed c pipeline_id (system.start_process start_timestamp pipeline_id c) s

  -- The time of the storage, and the id of the pipeline.
  unfoldable pub registration_of : PipelineConfig → Result (ℕ × ℕ)
  registration_of c = system.get_time_at_storage >>= λ start_timestamp.
      register_pipeline c >>= λ pipeline_id. ok (start_timestamp, pipeline_id)

  -- After `validate_system`, and after `is_directory_writable`: what is raised is not caught.
  unfoldable pub on_valid_system :
      PipelineConfig → Result Bool → Supervisor → Result PipelineResponse × Supervisor
  on_valid_system c (raise e) s = (raise e, s)
  on_valid_system c (ok false) s = (ok (refuse invalid_system), s)
  on_valid_system c (ok true) s =
      let (response, s') = execute c (registration_of c) s in (ok response, s')

  unfoldable pub on_writable :
      PipelineConfig → Result Bool → Supervisor → Result PipelineResponse × Supervisor
  on_writable c (raise e) s = (raise e, s)
  on_writable c (ok false) s = (ok (refuse no_permission), s)
  on_writable c (ok true) s = on_valid_system c (validate_system c) s

  unfoldable pub start_pipeline :
      PipelineConfig → Bool → Supervisor → Result PipelineResponse × Supervisor
  start_pipeline c evaluation_matrix s =
      if validate_pipeline_config system.validators c evaluation_matrix
      then on_writable c is_directory_writable s
      else (ok (refuse invalid_configuration), s)
