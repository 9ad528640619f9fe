-- ===== src/TrainerServer/Answers.antt =====
-- The answers of trainer_server_grpc_servicer.py on the state of a training and on its newest model.
use modyn.TrainerServer.{Reply, status, model_state}
use modyn.TrainerServer.Queues.{
  Status, Process, Actions, Values, get_values_from_queues, get_model_state,
  check_for_training_exception,
}
use modyn.TrainerServer.Server.{TrainingInfo, Checkpoint, Server, put, entry}
use modyn.SelectorService.{find}
use modyn.Stopwatch.{same_text}
use Prim.Native.String.{String}
use modyn.Prelude.{
  leb, ◌==◌, if◌then◌else◌, type_error, Result, ok, raise, ◌>>=◌, ℕ, Bool, true, false, not, ◌&&◌,
  ◌||◌, Option, none, some, List, [], ◌∷◌,
}

-- `checkpoints.sort(key=os.path.getmtime)`
unfoldable pub insert_checkpoint : Checkpoint → List Checkpoint → List Checkpoint
insert_checkpoint c [] = c ∷ []
insert_checkpoint c (d ∷ ds) =
    let rest = insert_checkpoint c ds in if leb c.modified d.modified then c ∷ d ∷ ds else d ∷ rest

unfoldable pub sort_checkpoints : List Checkpoint → List Checkpoint
sort_checkpoints [] = []
sort_checkpoints (c ∷ cs) = insert_checkpoint c (sort_checkpoints cs)

unfoldable pub first_valid : List Checkpoint → Option (String × ℕ × ℕ)
first_valid [] = none
first_valid (c ∷ cs) = or_later c.path c.state (first_valid cs)
  where
    or_later : String → Option (ℕ × ℕ) → Option (String × ℕ × ℕ) → Option (String × ℕ × ℕ)
    or_later path none later = later
    or_later path (some (num_batches, num_samples)) later = some (path, num_batches, num_samples)

unfoldable pub checkpoint_in : Option (List Checkpoint) → Option (String × ℕ × ℕ)
checkpoint_in none = none
checkpoint_in (some files) = first_valid (sort_checkpoints files)

unfoldable pub get_latest_checkpoint : TrainingInfo → Server → Option (String × ℕ × ℕ)
get_latest_checkpoint info s =
    let path = info.request.checkpoint_path in
    if same_text path "" || (info.request.checkpoint_interval == 0)
    then none
    else checkpoint_in (s.directories path)

unfoldable pub get_training_log : ℕ → Server → String
get_training_log training_id s = text_of (s.logs training_id)
  where
    text_of : Option String → String
    text_of none = ""
    text_of (some text) = text

-- A field that is not set is `none` where the message has presence, and false otherwise.
pub record TrainingStatusResponse : Type 0 where
  pub valid : Bool
  pub is_running : Bool
  pub is_training : Bool
  pub state_available : Bool
  pub blocked : Bool
  pub log : String
  pub exception : Option String
  pub batches_seen : Option ℕ
  pub samples_seen : Option ℕ
  pub downsampling_batches_seen : Option ℕ
  pub downsampling_samples_seen : Option ℕ

abbrev pub invalid_response : TrainingStatusResponse
invalid_response = record {
  valid = false;
  is_running = false;
  is_training = false;
  state_available = false;
  blocked = false;
  log = "";
  exception = none;
  batches_seen = none;
  samples_seen = none;
  downsampling_batches_seen = none;
  downsampling_samples_seen = none;
}

abbrev pub is_some {ℓ} : {A : Type ℓ} → Option A → Bool
is_some none = false
is_some (some a) = true

abbrev pub batches_of : Status → Option ℕ
batches_of none = none
batches_of (some (batches, samples, active)) = some batches

abbrev pub samples_of : Status → Option ℕ
samples_of none = none
samples_of (some (batches, samples, active)) = some samples

abbrev pub flag_of : Option Bool → Bool
flag_of none = false
flag_of (some b) = b

unfoldable pub running_response : Values → TrainingStatusResponse
running_response v = record invalid_response {
  valid = true;
  is_running = true;
  is_training = flag_of v.is_training;
  blocked =
      not (is_some (batches_of v.training_status))
      && not (is_some (batches_of v.downsampling_status));
  state_available =
      (is_some (batches_of v.training_status) && is_some (samples_of v.training_status))
      || (is_some (batches_of v.downsampling_status) && is_some (samples_of v.downsampling_status));
  batches_seen = batches_of v.training_status;
  samples_seen = samples_of v.training_status;
  downsampling_batches_seen = batches_of v.downsampling_status;
  downsampling_samples_seen = samples_of v.downsampling_status;
}

abbrev pub checkpoint_batches : Option (String × ℕ × ℕ) → Option ℕ
checkpoint_batches none = none
checkpoint_batches (some (path, batches, samples)) = some batches

abbrev pub checkpoint_samples : Option (String × ℕ × ℕ) → Option ℕ
checkpoint_samples none = none
checkpoint_samples (some (path, batches, samples)) = some samples

unfoldable pub finished_response :
    Option String → Option (String × ℕ × ℕ) → String → TrainingStatusResponse
finished_response exception checkpoint log = record invalid_response {
  valid = true;
  state_available =
      is_some (checkpoint_batches checkpoint) && is_some (checkpoint_samples checkpoint);
  exception = exception;
  batches_seen = checkpoint_batches checkpoint;
  samples_seen = checkpoint_samples checkpoint;
  log = log;
}

unfoldable pub set_process : ℕ → Process → Server → Server
set_process training_id p s = record s {
  training_process_dict = put training_id p s.training_process_dict;
}

unfoldable pub status_finished :
    ℕ → TrainingInfo → Process → Server → TrainingStatusResponse × Server
status_finished training_id info p s =
    let exception = check_for_training_exception p in
    (
      finished_response exception.0 (get_latest_checkpoint info s) (get_training_log training_id s),
      set_process training_id exception.1 s,
    )

unfoldable pub status_of :
    Actions → Actions → ℕ → Option TrainingInfo → Server → Result (TrainingStatusResponse × Server)
status_of first second training_id none s = ok (invalid_response, s)
status_of first second training_id (some info) s =
    entry (find training_id s.training_process_dict) >>= λ p.
    if p.alive
    then (get_values_from_queues first second p >>= λ r.
        ok (running_response r.0, set_process training_id r.1 s))
    else ok (status_finished training_id info p s)

unfoldable pub get_training_status :
    Actions → Actions → ℕ → Server → Result (TrainingStatusResponse × Server)
get_training_status first second training_id s =
    status_of first second training_id (find training_id s.training_dict) s

pub data ModelPath : Type 0 where
  tmp_state : ℕ → ℕ → ModelPath
  checkpoint_file : String → ModelPath

-- `relative_to` raises for a path that is not below the directory of the server.
module _ (relative_to : String → Result String) (time : ℕ) where
  unfoldable pub persist_state_to_disk :
      ℕ → Option (Reply) × Process → Server → Result (Option ModelPath × Server)
  persist_state_to_disk training_id (none, p) s = ok (none, set_process training_id p s)
  persist_state_to_disk training_id (some (model_state bytes), p) s =
      let written = record s { tmp_states = ((time, training_id), bytes) ∷ s.tmp_states } in
      ok (some (tmp_state time training_id), set_process training_id p written)
  persist_state_to_disk training_id (some (status batches samples active), p) s = raise type_error

  unfoldable pub persisted_checkpoint :
      Option (String × ℕ × ℕ) → Server → Result (Option ModelPath × Server)
  persisted_checkpoint none s = ok (none, s)
  persisted_checkpoint (some (path, batches, samples)) s =
      relative_to path >>= λ below. ok (some (checkpoint_file below), s)

  unfoldable pub latest_of :
      Actions → ℕ → Option TrainingInfo → Server → Result (Option ModelPath × Server)
  latest_of meanwhile training_id none s = ok (none, s)
  latest_of meanwhile training_id (some info) s =
      entry (find training_id s.training_process_dict) >>= λ p.
      if p.alive
      then persist_state_to_disk training_id (get_model_state meanwhile p) s
      else persisted_checkpoint (get_latest_checkpoint info s) s

  -- The path of the model; `none` is valid_state=False.
  unfoldable pub get_latest_model : Actions → ℕ → Server → Result (Option ModelPath × Server)
  get_latest_model meanwhile training_id s =
      latest_of meanwhile training_id (find training_id s.training_dict) s
