-- ===== src/TrainerServer/Queues.antt =====
-- What trainer_server_grpc_servicer.py asks a process through its queues. A `get` with a timeout
-- takes the oldest reply of those that are there when the time is over; what the process does
-- meanwhile is a list of actions.
use modyn.TrainerServer.{
  Query, status_query, model_state_query, Reply, status, model_state, AvailableQueues, training,
  downsampling, Action, TrainingProcessInfo, queues_of, set_queues, run,
}
use Prim.Native.String.{String}
use modyn.Prelude.{
  if◌then◌else◌, type_error, Result, ok, raise, ◌>>=◌, ℕ, Bool, false, Option, none, some, List, [],
  ◌∷◌, ◌++◌,
}

-- num_batches, num_samples and training_active, or None for each.
abbrev pub Status : Type 0
Status = Option (ℕ × ℕ × Bool)

abbrev pub Process : Type 0
Process = TrainingProcessInfo

abbrev pub Actions : Type 0
Actions = List Action

unfoldable pub put_query : AvailableQueues → Query → Process → Process
put_query queue_name query p =
    let c = queues_of queue_name p in
    set_queues queue_name (record c { queries = c.queries ++ query ∷ [] }) p

-- `response["num_batches"]` of bytes is a TypeError.
unfoldable pub read_status : Reply → Result Status
read_status (status batches samples active) = ok (some (batches, samples, active))
read_status (model_state bytes) = raise type_error

unfoldable pub take_status : AvailableQueues → List Reply → Process → Result (Status × Process)
take_status queue_name [] p = ok (none, p)
take_status queue_name (reply ∷ later) p = read_status reply >>= λ s.
    ok (s, set_queues queue_name (record (queues_of queue_name p) { replies = later }) p)

-- `get_status_training` and `get_status_downsampling`
unfoldable pub get_status : AvailableQueues → Actions → Process → Result (Status × Process)
get_status queue_name meanwhile p =
    let waited = run meanwhile (put_query queue_name status_query p) in
    take_status queue_name (queues_of queue_name waited).replies waited

-- `clean_training_queue` and `clean_downsampling_queue`
unfoldable pub clean_queue : AvailableQueues → Process → Process
clean_queue queue_name p =
    set_queues queue_name (record (queues_of queue_name p) { replies = [] }) p

unfoldable pub is_active : Status → Bool
is_active none = false
is_active (some (batches, samples, active)) = active

-- is_training, and the statuses of downsampling and of training.
pub record Values : Type 0 where
  pub is_training : Option Bool
  pub downsampling_status : Status
  pub training_status : Status

unfoldable pub activity : Status → Option Bool
activity none = none
activity (some (batches, samples, active)) = some active

-- The second queue is read only if the first has no answer.
unfoldable pub second_downsampling : Status → Actions → Process → Result (Values × Process)
second_downsampling none meanwhile p = get_status downsampling meanwhile p >>= λ r.
    ok (
      record { is_training = activity r.0; downsampling_status = r.0; training_status = none },
      r.1,
    )
second_downsampling (some s) meanwhile p = ok (
  record { is_training = activity (some s); downsampling_status = none; training_status = some s },
  run meanwhile p,
)

unfoldable pub second_training : Status → Actions → Process → Result (Values × Process)
second_training none meanwhile p = get_status training meanwhile p >>= λ r.
    ok (
      record { is_training = activity r.0; downsampling_status = none; training_status = r.0 },
      r.1,
    )
second_training (some s) meanwhile p = ok (
  record { is_training = activity (some s); downsampling_status = some s; training_status = none },
  run meanwhile p,
)

unfoldable pub handle_was_training : Actions → Actions → Process → Result (Values × Process)
handle_was_training first second p = get_status training first p >>= λ r.
    second_downsampling r.0 second (if is_active r.0 then r.1 else clean_queue training r.1)

unfoldable pub handle_was_not_training : Actions → Actions → Process → Result (Values × Process)
handle_was_not_training first second p = get_status downsampling first p >>= λ r.
    second_training r.0 second (if is_active r.0 then clean_queue downsampling r.1 else r.1)

unfoldable pub set_was_training : Option Bool → Process → Process
set_was_training none p = p
set_was_training (some b) p = record p { was_training = b }

unfoldable pub get_values_from_queues : Actions → Actions → Process → Result (Values × Process)
get_values_from_queues first second p =
    (if p.was_training
      then handle_was_training first second p
      else handle_was_not_training first second p)
    >>= λ r. ok (r.0, set_was_training r.0.is_training r.1)

unfoldable pub take_model_state : List Reply → Process → Option Reply × Process
take_model_state [] p = (none, p)
take_model_state (reply ∷ later) p =
    (some reply, set_queues training (record p.training_queues { replies = later }) p)

unfoldable pub get_model_state : Actions → Process → Option Reply × Process
get_model_state meanwhile p =
    let waited = run meanwhile (put_query training model_state_query p) in
    take_model_state waited.training_queues.replies waited

unfoldable pub take_exception : List String → Process → Option String × Process
take_exception [] p = (none, p)
take_exception (message ∷ later) p = (some message, record p { exception_queue = later })

unfoldable pub check_for_training_exception : Process → Option String × Process
check_for_training_exception p = take_exception p.exception_queue p
