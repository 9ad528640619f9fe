-- ===== src/Executor/State.antt =====
-- The state of a PipelineExecutor, the calls that it makes and the messages that it puts into the
-- pipeline status queue (modyn/supervisor/internal/grpc/enums.py and template_msg.py). The answers of
-- the other components are a parameter: each may depend on all calls made before.
use Prim.Native.String.{String}
use modyn.Prelude.{Exception, value_error, Result, ok, raise, ℕ, Bool, Option, List, [], ◌∷◌, ◌++◌}
use modyn.Data.{DataPoint}

pub data PipelineStage : Type 0 where
  init init_cluster_connection get_selector_batch_size handle_new_data_stage : PipelineStage
  new_data_handled run_training_stage wait_for_training_completion_stage : PipelineStage
  store_trained_model_stage evaluate store_evaluation_results_stage : PipelineStage
  handle_triggers_within_batch_stage inform_selector_and_trigger_stage : PipelineStage
  inform_selector_remaining_data replay_data_stage replay_data_done : PipelineStage
  fetch_new_data wait_for_new_data_stage done : PipelineStage

-- The `submsg` of a message, with the message type that goes with it.
pub data Submsg : Type 0 where
  general counter_close : Submsg
  dataset : String → Submsg
  counter_create counter_update id_trigger : ℕ → Submsg

pub data Call : Type 0 where
  inform_selector inform_selector_and_trigger : List DataPoint → Call
  get_number_of_samples : ℕ → Call
  start_training : (trigger_id : ℕ) (previous_model_id : Option ℕ) → Call
  wait_for_training_completion : (training_id trigger_id : ℕ) → Call
  store_trained_model : ℕ → Call
  start_evaluation : (model_id : ℕ) (trigger_id : Option ℕ) → Call
  wait_for_evaluation_completion : (training_id : Option ℕ) (evaluations : List ℕ) → Call
  store_evaluation_results : List ℕ → Call
  get_new_data_since : ℕ → Call
  get_data_in_interval : ℕ → ℕ → Call
  stop_training : ℕ → Call
  sleep : Call

-- The answers, each from the calls up to and with the one that is answered, oldest first.
pub record Cluster : Type 0 where
  pub trigger_id : List Call → ℕ
  pub num_samples : List Call → ℕ
  pub training_id : List Call → ℕ
  pub model_id : List Call → ℕ
  pub evaluations : List Call → List ℕ
  -- What a LogResultWriter has kept when the results are stored, as a text.
  pub log_results : List Call → String
  pub data_chunks : List Call → List (List DataPoint)

-- What the executor reads of its arguments and of the pipeline configuration.
pub record Config : Type 0 where
  pub dataset_id : String
  pub use_previous_model : Bool
  pub has_evaluation : Bool
  pub evaluation_matrix : Bool
  pub maximum_triggers : Option ℕ
  pub start_replay_at : Option ℕ
  pub stop_replay_at : Option ℕ

-- `T` is the state of the trigger. `logged_triggers` is num_triggers of the pipeline log.
pub record State (T : Type 0) : Type 0 where
  pub trigger : T
  pub selector_batch_size : ℕ
  pub num_triggers : ℕ
  pub logged_triggers : ℕ
  pub current_training_id : Option ℕ
  pub previous_model_id : Option ℕ
  pub trained_models : List ℕ
  pub triggers : List ℕ
  -- The rows of "evaluation_matrix" by model, and the results in a row by trigger.
  pub matrix : List (ℕ × List (ℕ × String))
  pub stage : PipelineStage
  pub messages : List (PipelineStage × Submsg)
  pub calls : List Call

-- Methods may raise; what was written before stays written.
abbrev pub Exec : Type 0 → Type 0 → Type 0
Exec T A = State T → Result A × State T

module _ {T : Type 0} where
  unfoldable pub pure : {A : Type 0} → A → Exec T A
  pure a s = (ok a, s)

  unfoldable pub gets : {A : Type 0} → (State T → A) → Exec T A
  gets f s = (ok (f s), s)

  unfoldable pub modify : (State T → State T) → Exec T (Unit {0})
  modify f s = (ok tt, f s)

  unfoldable pub throw : {A : Type 0} → Exception → Exec T A
  throw e s = (raise e, s)

module _ {T A B : Type 0} where
  abbrev pub continue : Result A → (A → Exec T B) → Exec T B
  continue (ok a) f s = f a s
  continue (raise e) f s = (raise e, s)

  infixl 5 ◌>>=◌ ◌>>◌
  unfoldable pub ◌>>=◌ : Exec T A → (A → Exec T B) → Exec T B
  unfolding pure gets modify throw
  ◌>>=◌ m f s = let (r, s') = m s in continue r f s'

  abbrev pub ◌>>◌ : Exec T A → Exec T B → Exec T B
  m >> n = m >>= λ _. n

module _ {T : Type 0} where
  -- _update_pipeline_stage_and_enqueue_msg
  unfoldable pub update_stage : PipelineStage → Submsg → Exec T (Unit {0})
  unfolding modify
  update_stage stage submsg =
      modify (λ s. record s { stage = stage; messages = s.messages ++ (stage, submsg) ∷ [] })

  -- A call of a component, with what it answers.
  unfoldable pub ask : {A : Type 0} → Call → (List Call → A) → Exec T A
  ask call answer s =
      let calls = s.calls ++ call ∷ [] in (ok (answer calls), record s { calls = calls })

  unfoldable pub tell : Call → Exec T (Unit {0})
  unfolding ask
  tell call = ask call (λ _. tt)

  -- `self.grpc.inform_selector`: its `zip(*data)` cannot be unpacked for empty data.
  unfoldable pub tell_selector : List DataPoint → Exec T (Unit {0})
  unfolding tell throw
  tell_selector [] = throw value_error
  tell_selector (d ∷ ds) = tell (inform_selector (d ∷ ds))
