-- ===== src/Executor/Training.antt =====
-- `_run_training`, and the evaluation matrix.
pub mod Matrix
use modyn.Executor.State.{
  run_training_stage, wait_for_training_completion_stage, store_trained_model_stage, evaluate,
  store_evaluation_results_stage, id_trigger, start_training, wait_for_training_completion,
  store_trained_model, start_evaluation, wait_for_evaluation_completion, store_evaluation_results,
  Cluster, Config, Exec, pure, gets, modify, throw, ◌>>=◌, ◌>>◌, update_stage, ask, tell,
}
use modyn.SelectorService.{find}
use modyn.TrainerServer.Server.{put}
use Prim.Native.String.{String}
use modyn.Prelude.{if◌then◌else◌, key_error, ℕ, not, ◌&&◌, Option, none, some, List, [], ◌∷◌, ◌++◌}

module _ {T : Type 0} (cluster : Cluster) (config : Config) where
  -- The evaluation of the new model, if one is configured. The result writers are not modelled.
  unfoldable pub evaluate_model : ℕ → ℕ → ℕ → Exec T (Unit {0})
  unfolding update_stage ask tell
  evaluate_model trigger_id training_id model_id =
      if config.has_evaluation && not config.evaluation_matrix
      then (do
        update_stage evaluate (id_trigger trigger_id)
        evaluations ← ask (start_evaluation model_id none) cluster.evaluations
        tell (wait_for_evaluation_completion (some training_id) evaluations)
        update_stage store_evaluation_results_stage (id_trigger trigger_id)
        tell (store_evaluation_results evaluations))
      else pure tt

  unfoldable pub run_training : ℕ → Exec T (Unit {0})
  unfolding evaluate_model
  run_training trigger_id = do
    update_stage run_training_stage (id_trigger trigger_id)
    previous ← gets (λ s. s.previous_model_id)
    training_id ← ask (start_training trigger_id previous) cluster.training_id
    modify (λ s. record s {
      current_training_id = some training_id;
      stage = wait_for_training_completion_stage;
    })
    tell (wait_for_training_completion training_id trigger_id)
    update_stage store_trained_model_stage (id_trigger trigger_id)
    model_id ← ask (store_trained_model training_id) cluster.model_id
    modify (λ s. record s {
      previous_model_id = if config.use_previous_model then some model_id else s.previous_model_id;
      trained_models = s.trained_models ++ model_id ∷ [];
      triggers = s.triggers ++ trigger_id ∷ [];
    })
    evaluate_model trigger_id training_id model_id

  -- `matrix[model][trigger] = results`, with the row that stands under the model.
  unfoldable pub set_cell : ℕ → ℕ → String → Option (List (ℕ × String)) → Exec T (Unit {0})
  set_cell model trigger results none = throw key_error
  set_cell model trigger results (some row) =
      modify (λ s. record s { matrix = put model (put trigger results row) s.matrix })

  -- The body of the inner loop.
  unfoldable pub evaluate_on_trigger : ℕ → ℕ → Exec T (Unit {0})
  unfolding ask tell set_cell
  evaluate_on_trigger model trigger = do
    evaluations ← ask (start_evaluation model (some trigger)) cluster.evaluations
    current ← gets (λ s. s.current_training_id)
    tell (wait_for_evaluation_completion current evaluations)
    results ← ask (store_evaluation_results evaluations) cluster.log_results
    row ← gets (λ s. find model s.matrix)
    set_cell model trigger results row

  unfoldable pub evaluate_row : ℕ → List ℕ → Exec T (Unit {0})
  unfolding evaluate_on_trigger
  evaluate_row model [] = pure tt
  evaluate_row model (trigger ∷ triggers) = do
    evaluate_on_trigger model trigger
    evaluate_row model triggers

  unfoldable pub evaluate_rows : List ℕ → List ℕ → Exec T (Unit {0})
  unfolding evaluate_row
  evaluate_rows [] triggers = pure tt
  evaluate_rows (model ∷ models) triggers = do
    modify (λ s. record s { matrix = put model [] s.matrix })
    evaluate_row model triggers
    evaluate_rows models triggers

  unfoldable pub build_evaluation_matrix : Exec T (Unit {0})
  unfolding evaluate_rows
  build_evaluation_matrix = do
    modify (λ s. record s { matrix = [] })
    models ← gets (λ s. s.trained_models)
    triggers ← gets (λ s. s.triggers)
    evaluate_rows models triggers
