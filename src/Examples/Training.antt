-- ===== src/Examples/Training.antt =====
-- Concrete runs of the trainer server, and of the handler that waits for a training.
use modyn.TrainerServer.Queues.{Process}
use modyn.TrainerServer.{training, update, exit, new_process}
use modyn.TrainerServer.Server.{
  StartTrainingRequest, TrainingInfo, Services, Server, put, entry, take_id, with_info, begun,
  begin_training, with_model, start_training, registered, store_file, store_known,
  store_final_model,
}
use modyn.TrainerServer.Answers.{get_training_log, get_training_status, get_latest_model}
use modyn.SelectorService.{find}
use modyn.Stopwatch.{same_text}
use modyn.TrainerServer.Valid.{IsValid, IsFresh, IsBroken}
use modyn.TrainerServer.Raised.{Answers}
use modyn.TrainerServer.Calls.{calls-IsValid}
use modyn.TrainerServer.Stored.{registration, store_final_model-once}
use modyn.GrpcHandler.{Round, Report, create_tracker, close_counter, wait_for_training_completion}
use modyn.GrpcHandler.Life.{beat, live}
use modyn.GrpcHandler.Rounds.{outcome, closing}
use modyn.GrpcHandler.Waiting.{wait_for_training_completion-ends}
use Prim.Native.String.{String}
use modyn.Prelude.{
  ◌==◌, if◌then◌else◌, mem, value_error, os_error, Result, ok, raise, ℕ, ◌+◌, ◌≡◌, refl, ◌⊎◌, true,
  false, none, some, List, [], ◌∷◌, ◌++◌, arith,
}

abbrev first_request : StartTrainingRequest
first_request = record {
  pipeline_id = 4;
  trigger_id = 2;
  use_pretrained_model = false;
  pretrained_model_id = 0;
  checkpoint_path = "";
  checkpoint_interval = 0;
}

-- Pipeline 4 has a model; training 1 cannot be started, and the model storage refuses training 7.
abbrev some_services : Services
some_services = record {
  has_model = λ pipeline_id. ok (pipeline_id == 4);
  fetch_model = λ model_id. ok none;
  download_trained_model = λ training_id path. ok none;
  start_process = λ training_id. if training_id == 1 then raise os_error else ok tt;
  load_configuration = λ request. ok tt;
  register_model = λ pipeline_id trigger_id training_id.
      if training_id == 7 then none else some (training_id + 10);
}

abbrev first_info : TrainingInfo
first_info = record { request = first_request; training_id = 0; pretrained_model_path = none }

abbrev empty_server : Server
empty_server = record {
  next_training_id = 0;
  training_dict = [];
  training_process_dict = [];
  final_models = [];
  logs = λ training_id. some "{}";
  tmp_states = [];
  directories = λ path. none;
}

abbrev first_started : Server
first_started = record empty_server {
  next_training_id = 1;
  training_dict = (0, first_info) ∷ [];
  training_process_dict = (0, new_process) ∷ [];
}

first_start : start_training some_services first_request empty_server ≡ (ok (some 0), first_started)
unfolding start_training with_model begin_training begun with_info take_id put new_process
first_start = refl

-- The training that cannot be started is left in one of the two dictionaries.
second_start : start_training some_services first_request first_started ≡ (
  raise os_error,
  record first_started {
    next_training_id = 2;
    training_dict =
        (0, first_info)
        ∷ (1, record { request = first_request; training_id = 1; pretrained_model_path = none })
        ∷ [];
  },
)
unfolding start_training with_model begin_training begun with_info take_id put
second_start = refl

abbrev read_json : String → Result String
read_json text = if same_text text "" then raise value_error else ok text

-- The process answers the first query, and ends while the server waits for the second time.
abbrev two_rounds : List Round
two_rounds =
    record {
      asleep = [];
      first = update training 1 32 true [] ∷ [];
      second = update training 2 64 true [] ∷ [];
    }
    ∷ record { asleep = []; first = []; second = exit ∷ [] }
    ∷ []

abbrev quiet : Round
quiet = record { asleep = []; first = []; second = [] }

wait_for_training_completion-ends_example :
    (reports : List Report) × (wait_for_training_completion read_json true 100 1 0
        (two_rounds ++ quiet ∷ [])
        first_started
      ≡ some (ok "{}", create_tracker 100 1 ∷ reports ++ close_counter ∷ []))
unfolding live beat outcome closing new_process find get_training_log
wait_for_training_completion-ends_example =
    wait_for_training_completion-ends read_json 100 1 0 two_rounds quiet first_started first_info
      new_process refl refl ((tt, tt), (tt, tt)) refl

abbrev ended_process : Process
ended_process = record {
  alive = false;
  exception_queue = [];
  training_queues = record { queries = []; replies = [] };
  downsampling_queues = record { queries = []; replies = [] };
  was_training = true;
}

abbrev trained_server : Server
trained_server = record first_started {
  training_process_dict = (0, ended_process) ∷ [];
  final_models = 0 ∷ [];
}

stored_once :
    store_final_model some_services 0 trained_server
    ≡ ok (some 10, record trained_server { final_models = [] })
unfolding store_final_model store_known store_file registered entry find
stored_once = refl

store_final_model-once_example :
    ((store_final_model some_services 0 trained_server ≡ ok (none, trained_server))
      × ((find 0 trained_server.training_dict ≡ none)
          ⊎ ((info : TrainingInfo) × (p : Process) × (find 0 trained_server.training_dict
                ≡ some info)
              × (find 0 trained_server.training_process_dict ≡ some p)
              × ((p.alive ≡ true)
                  ⊎ ((mem 0 trained_server.final_models ≡ false)
                      ⊎ (registration some_services 0 info ≡ none))))))
    ⊎ ((info : TrainingInfo) × (p : Process) × (m : ℕ) × (s' : Server) × (find 0
            trained_server.training_dict
          ≡ some info)
        × (find 0 trained_server.training_process_dict ≡ some p)
        × (p.alive ≡ false)
        × (mem 0 trained_server.final_models ≡ true)
        × (registration some_services 0 info ≡ some m)
        × (store_final_model some_services 0 trained_server ≡ ok (some m, s'))
        × (store_final_model some_services 0 s' ≡ ok (none, s')))
unfolding IsValid
store_final_model-once_example =
    store_final_model-once some_services 0 trained_server ((omega arith, tt), refl)

calls-IsValid_example :
    (let r = start_training some_services first_request trained_server in
      ((IsValid r.1 × IsFresh trained_server r) ⊎ IsBroken some_services trained_server r)
      × Answers (λ t. IsValid t.1) (get_training_status [] [] 0 trained_server)
      × Answers (λ t. IsValid t.1) (get_latest_model (λ path. ok path) 5 [] 0 trained_server)
      × Answers (λ t. IsValid t.1) (store_final_model some_services 0 trained_server))
unfolding IsValid
calls-IsValid_example =
    calls-IsValid some_services (λ path. ok path) 5 (λ path. tt) first_request [] [] [] 0
      trained_server ((omega arith, tt), refl)
