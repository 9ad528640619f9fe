-- ===== src/Examples/Supervising.antt =====
-- Concrete runs of the supervisor.
use modyn.Supervisor.{
  PipelineConfig, mem_text, validate_initial_model, validate_training_options, validate_optional,
  validate_matrix, validate_pipeline_config_content, validate_pipeline_config,
}
use modyn.Supervisor.Start.{
  invalid_configuration, System, Supervisor, refuse, is_directory_writable,
  trainer_server_available, validate_system, on_valid_system, on_writable, start_pipeline,
}
use modyn.Supervisor.Status.{not_found, status_for, get_pipeline_status}
use modyn.Supervisor.Outcome.{Ends}
use modyn.Supervisor.Started.{start_pipeline-Ends}
use modyn.SelectorService.{find}
use modyn.Stopwatch.{same_text}
use modyn.Prelude.{connection_error, os_error, ok, raise, ◌≡◌, refl, true, false, none, some, []}
use modyn.Prelude.Int.{pos}

abbrev small_pipeline : PipelineConfig
small_pipeline = record {
  model_id = "ResNet18";
  trigger_id = "TimeTrigger";
  dataset_id = "test";
  training = record {
    gpus = pos 1;
    batch_size = pos 32;
    dataloader_workers = pos 2;
    selection_strategy = "NewDataStrategy";
    initial_model = "random";
    use_previous_model = false;
    initial_model_id = none;
  };
  evaluation = none;
}

abbrev small_system : System
small_system = record {
  validators = record {
    validate_yaml = λ c. true;
    model_available = λ m. same_text m "ResNet18";
    trigger_available = λ t. same_text t "TimeTrigger";
  };
  write_testfile = none;
  check_availability = λ d. ok (same_text d "test");
  connected_to_trainer_server = true;
  trainer_available = ok true;
  get_time_at_storage = ok 100;
  insert_pipeline = λ c. ok 42;
  start_process = λ t i c. ok tt;
}

abbrev idle : Supervisor
idle = record { pipeline_process_dict = []; pipelines = [] }

no_workers :
    (start_pipeline small_system
      (record small_pipeline {
        training = record small_pipeline.training { dataloader_workers = pos 0 };
      })
      false
      idle).0
    ≡ ok (refuse invalid_configuration)
unfolding start_pipeline validate_pipeline_config validate_pipeline_config_content
    validate_training_options
no_workers = refl

unknown_pipeline :
    (get_pipeline_status 3 idle).0
    ≡ record { status = not_found; pipeline_stage = []; training_status = []; eval_status = [] }
unfolding get_pipeline_status status_for find
unknown_pipeline = refl

-- The directory is not there (ENOENT), and the trainer server is not connected.
no_directory :
    start_pipeline (record small_system { write_testfile = some 2 }) small_pipeline false idle
    ≡ (raise os_error, idle)
unfolding start_pipeline on_writable is_directory_writable validate_pipeline_config
    validate_pipeline_config_content validate_training_options mem_text validate_initial_model
    validate_optional validate_matrix
no_directory = refl

no_connection :
    start_pipeline
      (record small_system { connected_to_trainer_server = false })
      small_pipeline
      false
      idle
    ≡ (raise connection_error, idle)
unfolding start_pipeline on_writable is_directory_writable validate_system trainer_server_available
    on_valid_system validate_pipeline_config validate_pipeline_config_content
    validate_training_options mem_text validate_initial_model validate_optional validate_matrix
no_connection = refl

start_pipeline-Ends_example :
    Ends small_system small_pipeline false idle
      (start_pipeline small_system small_pipeline false idle)
start_pipeline-Ends_example = start_pipeline-Ends small_system small_pipeline false idle
