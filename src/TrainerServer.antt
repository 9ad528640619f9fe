-- ===== src/TrainerServer.antt =====
-- The trainer server: the process of a training with its queues, as training_process_info.py has
-- them, and what the process does with them (`update_queue`, `send_model_state_to_server` and
-- `train` of pytorch_trainer.py). A model's state is bytes. A process puts all that it
-- has put into its queues before it ends, as the documentation of multiprocessing says.
pub mod Queues
pub mod Server
pub mod Answers
pub mod Tables
pub mod Valid
pub mod Stored
pub mod Raised
pub mod Calls
use Prim.Native.String.{String}
use modyn.Prelude.{if◌then◌else◌, ℕ, Bool, true, false, List, [], ◌∷◌, ◌++◌}

abbrev pub Bytes : Type 0
Bytes = List ℕ

pub data Query : Type 0 where
  status_query model_state_query : Query

-- A dictionary with num_batches, num_samples and training_active, or the bytes of a model.
pub data Reply : Type 0 where
  status : ℕ → ℕ → Bool → Reply
  model_state : Bytes → Reply

pub data AvailableQueues : Type 0 where
  training downsampling : AvailableQueues

-- What the process does: it looks at a queue, with the numbers of batches and samples and with
-- whether training goes on; it catches an exception; it ends.
pub data Action : Type 0 where
  update : AvailableQueues → ℕ → ℕ → Bool → Bytes → Action
  fail : String → Action
  exit : Action

pub record Channel : Type 0 where
  pub queries : List Query
  pub replies : List Reply

pub record TrainingProcessInfo : Type 0 where
  pub alive : Bool
  pub exception_queue : List String
  pub training_queues : Channel
  pub downsampling_queues : Channel
  pub was_training : Bool

unfoldable pub new_process : TrainingProcessInfo
new_process = record {
  alive = true;
  exception_queue = [];
  training_queues = record { queries = []; replies = [] };
  downsampling_queues = record { queries = []; replies = [] };
  was_training = true;
}

unfoldable pub queues_of : AvailableQueues → TrainingProcessInfo → Channel
queues_of training p = p.training_queues
queues_of downsampling p = p.downsampling_queues

unfoldable pub set_queues : AvailableQueues → Channel → TrainingProcessInfo → TrainingProcessInfo
set_queues training c p = record p { training_queues = c }
set_queues downsampling c p = record p { downsampling_queues = c }

unfoldable pub send_model_state_to_server : Bytes → TrainingProcessInfo → TrainingProcessInfo
send_model_state_to_server bytes p =
    let c = p.training_queues in
    record p { training_queues = record c { replies = c.replies ++ model_state bytes ∷ [] } }

-- The answer to the oldest query, if there is one.
unfoldable pub answered :
    AvailableQueues → ℕ → ℕ → Bool → Bytes → List Query → TrainingProcessInfo → TrainingProcessInfo
answered queue_name batches samples active bytes [] p = p
answered queue_name batches samples active bytes (status_query ∷ later) p =
    let replies = (queues_of queue_name p).replies in
    set_queues queue_name
      (record { queries = later; replies = replies ++ status batches samples active ∷ [] }) p
answered queue_name batches samples active bytes (model_state_query ∷ later) p =
    let c = queues_of queue_name p in
    send_model_state_to_server bytes (set_queues queue_name (record c { queries = later }) p)

unfoldable pub update_queue :
    AvailableQueues → ℕ → ℕ → Bool → Bytes → TrainingProcessInfo → TrainingProcessInfo
update_queue queue_name batches samples active bytes p =
    answered queue_name batches samples active bytes (queues_of queue_name p).queries p

unfoldable pub act : Action → TrainingProcessInfo → TrainingProcessInfo
act (update queue_name batches samples active bytes) p =
    update_queue queue_name batches samples active bytes p
act (fail message) p = record p { exception_queue = p.exception_queue ++ message ∷ [] }
act exit p = record p { alive = false }

-- A process that has ended does nothing.
unfoldable pub run : List Action → TrainingProcessInfo → TrainingProcessInfo
run [] p = p
run (a ∷ actions) p = if p.alive then run actions (act a p) else p
