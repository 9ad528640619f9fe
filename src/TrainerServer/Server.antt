-- ===== src/TrainerServer/Server.antt =====
-- The table of trainings and the calls of trainer_server_grpc_servicer.py, one call at a time. What
-- the server uses of the metadata database, of the model storage and of JSON is a parameter. A
-- file of a training is named by the training's id. Paths are texts, and only the empty one is the
-- empty path.
use modyn.SelectorService.{find}
use modyn.TrainerServer.{Bytes, new_process}
use modyn.TrainerServer.Queues.{Process}
use Prim.Native.String.{String}
use modyn.Prelude.{
  ◌==◌, if◌then◌else◌, filter_by, all, mem, key_error, Result, ok, raise, ◌>>=◌, ℕ, suc, Bool, true,
  false, not, Option, none, some, List, [], ◌∷◌,
}

pub record StartTrainingRequest : Type 0 where
  pub pipeline_id : ℕ
  pub trigger_id : ℕ
  pub use_pretrained_model : Bool
  pub pretrained_model_id : ℕ
  pub checkpoint_path : String
  pub checkpoint_interval : ℕ

pub record TrainingInfo : Type 0 where
  pub request : StartTrainingRequest
  pub training_id : ℕ
  pub pretrained_model_path : Option String

-- num_batches and num_samples, `none` for a file that cannot be loaded.
pub record Checkpoint : Type 0 where
  pub path : String
  pub modified : ℕ
  pub state : Option (ℕ × ℕ)

pub record Services : Type 0 where
  -- Whether modyn.models has the class of the pipeline's model in the database.
  pub has_model : ℕ → Result Bool
  -- The path of a model that could be fetched, and of its download for a training.
  pub fetch_model : ℕ → Result (Option String)
  pub download_trained_model : ℕ → String → Result (Option String)
  -- `json.loads` of the configurations and the import of the model's class.
  pub load_configuration : StartTrainingRequest → Result (Unit {0})
  -- The queues and `process.start()` for a training.
  pub start_process : ℕ → Result (Unit {0})
  -- The id of the model that was registered, of a pipeline, a trigger and a training.
  pub register_model : ℕ → ℕ → ℕ → Option ℕ

pub record Server : Type 0 where
  pub next_training_id : ℕ
  pub training_dict : List (ℕ × TrainingInfo)
  pub training_process_dict : List (ℕ × Process)
  -- The trainings whose model_final.modyn exists, the logs, and the directories.
  pub final_models : List ℕ
  pub logs : ℕ → Option String
  -- The files below tmp-state, by the time and the training.
  pub tmp_states : List ((ℕ × ℕ) × Bytes)
  pub directories : String → Option (List Checkpoint)

-- `d[key] = a`
unfoldable pub put {ℓ} : {A : Type ℓ} → ℕ → A → List (ℕ × A) → List (ℕ × A)
put key a [] = (key, a) ∷ []
put key a ((k, b) ∷ entries) =
    let rest = put key a entries in if k == key then (k, a) ∷ entries else (k, b) ∷ rest

-- `d[key]`
unfoldable pub entry {ℓ} : {A : Type ℓ} → Option A → Result A
entry none = raise key_error
entry (some a) = ok a

unfoldable pub trainer_available : Server → Bool
trainer_available s = all (λ e. not e.1.alive) s.training_process_dict

unfoldable pub take_id : Server → Server
take_id s = record s { next_training_id = suc s.next_training_id }

-- `self._training_dict[training_id] = training_info`
unfoldable pub with_info : StartTrainingRequest → ℕ → Option String → Server → Server
with_info request training_id pretrained_model_path s = record s {
  training_dict =
      put training_id
        (record {
          request = request;
          training_id = training_id;
          pretrained_model_path = pretrained_model_path;
        })
        s.training_dict;
}

-- From the configurations on, with what loading them and then starting the process came to. The
-- answer names the training; `none` is training_started=False.
unfoldable pub begun :
    StartTrainingRequest
    → ℕ
    → Option String
    → Server
    → Result (Unit {0})
    → Result (Unit {0})
    → Result (Option ℕ) × Server
unfolding with_info
begun request training_id pretrained_model_path s (raise e) started = (raise e, s)
begun request training_id pretrained_model_path s (ok u) (raise e) =
    (raise e, with_info request training_id pretrained_model_path s)
begun request training_id pretrained_model_path s (ok u) (ok v) = (
  ok (some training_id),
  let t = with_info request training_id pretrained_model_path s in
      record t { training_process_dict = put training_id new_process t.training_process_dict },
)

module _ (services : Services) where
  unfoldable pub begin_training :
      StartTrainingRequest → ℕ → Option String → Server → Result (Option ℕ) × Server
  begin_training request training_id pretrained_model_path s =
      begun request training_id pretrained_model_path s (services.load_configuration request)
        (services.start_process training_id)

  unfoldable pub with_download :
      StartTrainingRequest → ℕ → Result (Option String) → Server → Result (Option ℕ) × Server
  with_download request training_id (raise e) s = (raise e, s)
  with_download request training_id (ok none) s = (ok none, s)
  with_download request training_id (ok (some path)) s =
      begin_training request training_id (some path) s

  unfoldable pub with_pretrained :
      StartTrainingRequest → Result (Option String) → Server → Result (Option ℕ) × Server
  with_pretrained request (raise e) s = (raise e, s)
  with_pretrained request (ok none) s = (ok none, s)
  with_pretrained request (ok (some remote_path)) s =
      let training_id = s.next_training_id in
      with_download request training_id (services.download_trained_model training_id remote_path)
        (take_id s)

  unfoldable pub with_model :
      StartTrainingRequest → Result Bool → Server → Result (Option ℕ) × Server
  with_model request (raise e) s = (raise e, s)
  with_model request (ok false) s = (ok none, s)
  with_model request (ok true) s =
      if request.use_pretrained_model
      then with_pretrained request (services.fetch_model request.pretrained_model_id) s
      else begin_training request s.next_training_id none (take_id s)

  unfoldable pub start_training : StartTrainingRequest → Server → Result (Option ℕ) × Server
  start_training request s = with_model request (services.has_model request.pipeline_id) s

  -- `checksum` and path of the file are left to the model storage; the answer is the model's id.
  unfoldable pub registered : ℕ → Option ℕ → Server → Option ℕ × Server
  registered training_id none s = (none, s)
  registered training_id (some model_id) s = (
    some model_id,
    record s { final_models = filter_by (λ i. not (i == training_id)) s.final_models },
  )

  unfoldable pub store_file : ℕ → TrainingInfo → Server → Option ℕ × Server
  store_file training_id info s =
      if mem training_id s.final_models
      then registered training_id
          (services.register_model info.request.pipeline_id info.request.trigger_id training_id) s
      else (none, s)

  unfoldable pub store_known : ℕ → Option TrainingInfo → Server → Result (Option ℕ × Server)
  store_known training_id none s = ok (none, s)
  store_known training_id (some info) s = entry (find training_id s.training_process_dict) >>= λ p.
      ok (if p.alive then (none, s) else store_file training_id info s)

  -- The id of the model; `none` is valid_state=False.
  unfoldable pub store_final_model : ℕ → Server → Result (Option ℕ × Server)
  store_final_model training_id s = store_known training_id (find training_id s.training_dict) s
