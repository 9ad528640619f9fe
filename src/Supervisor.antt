-- ===== src/Supervisor.antt =====
-- The supervisor, modyn/supervisor/internal/supervisor.py: validation here, the registration and
-- the start of a pipeline in Start, its status in Status. A configuration has the keys that the
-- schema requires, and its numbers are integers.
pub mod Start
pub mod Status
pub mod Accepted
pub mod Validated
pub mod Outcome
pub mod Started
use modyn.Stopwatch.{same_text}
use Prim.Native.String.{String}
use modyn.Prelude.{
  ltb, ◌==◌, if◌then◌else◌, length, any, all, ℕ, Bool, true, false, not, ◌&&◌, ◌||◌, Option, none,
  some, List, [], ◌∷◌, map,
}
use modyn.Prelude.Int.{ℤ, pos, negsuc, lt_nat}

pub record TrainingConfig : Type 0 where
  pub gpus : ℤ
  pub batch_size : ℤ
  pub dataloader_workers : ℤ
  pub selection_strategy : String
  pub initial_model : String
  pub use_previous_model : Bool
  pub initial_model_id : Option ℕ

pub record EvaluationDataset : Type 0 where
  pub dataset_id : String
  pub batch_size : ℤ
  pub dataloader_workers : ℤ

pub record EvaluationConfig : Type 0 where
  pub datasets : List EvaluationDataset
  pub result_writers : Option (List String)

pub record PipelineConfig : Type 0 where
  pub model_id : String
  pub trigger_id : String
  pub dataset_id : String
  pub training : TrainingConfig
  pub evaluation : Option EvaluationConfig

-- The classes that `modyn.models` and the triggers' module have, and the schema.
pub record Validators : Type 0 where
  pub validate_yaml : PipelineConfig → Bool
  pub model_available : String → Bool
  pub trigger_available : String → Bool

unfoldable pub mem_text : String → List String → Bool
mem_text x [] = false
mem_text x (y ∷ ys) = same_text x y || mem_text x ys

-- `set(xs)`
unfoldable pub set_of : List String → List String
set_of [] = []
set_of (x ∷ xs) = let rest = set_of xs in if mem_text x xs then rest else x ∷ rest

abbrev pub supported_strategies : List String
supported_strategies = "NewDataStrategy" ∷ "FreshnessSamplingStrategy" ∷ "CoresetStrategy" ∷ []

abbrev pub supported_evaluation_result_writers : List String
supported_evaluation_result_writers = "json" ∷ "tensorboard" ∷ "log" ∷ []

abbrev pub is_one : ℤ → Bool
is_one (pos n) = n == 1
is_one (negsuc n) = false

abbrev pub has_id : Option ℕ → Bool
has_id none = false
has_id (some i) = true

unfoldable pub validate_dataset : EvaluationDataset → Bool
validate_dataset d = not (lt_nat d.batch_size 1) && not (lt_nat d.dataloader_workers 1)

unfoldable pub validate_writers : Option (List String) → Bool
validate_writers none = true
validate_writers (some names) = all (λ n. mem_text n supported_evaluation_result_writers) names

unfoldable pub validate_evaluation_options : EvaluationConfig → Bool
validate_evaluation_options e =
    let ids = map (λ d. d.dataset_id) e.datasets in
    not (ltb (length (set_of ids)) (length ids))
    && (validate_writers e.result_writers && all validate_dataset e.datasets)

unfoldable pub validate_initial_model : TrainingConfig → Bool
validate_initial_model t =
    if same_text t.initial_model "pretrained"
    then t.use_previous_model && has_id t.initial_model_id
    else same_text t.initial_model "random"

unfoldable pub validate_training_options : TrainingConfig → Bool
validate_training_options t =
    is_one t.gpus
    && (not (lt_nat t.batch_size 1)
        && (not (lt_nat t.dataloader_workers 1)
            && (mem_text t.selection_strategy supported_strategies && validate_initial_model t)))

unfoldable pub validate_optional : Option EvaluationConfig → Bool
validate_optional none = true
validate_optional (some e) = validate_evaluation_options e

-- The training dataset is evaluated, if there is to be a matrix.
unfoldable pub validate_matrix : String → Option EvaluationConfig → Bool → Bool
validate_matrix dataset_id e false = true
validate_matrix dataset_id none true = false
validate_matrix dataset_id (some e) true = any (λ d. same_text d.dataset_id dataset_id) e.datasets

module _ (v : Validators) where
  unfoldable pub validate_pipeline_config_content : PipelineConfig → Bool → Bool
  validate_pipeline_config_content c evaluation_matrix =
      validate_training_options c.training
      && (v.model_available c.model_id
          && (v.trigger_available c.trigger_id
              && (validate_optional c.evaluation
                  && validate_matrix c.dataset_id c.evaluation evaluation_matrix)))

  unfoldable pub validate_pipeline_config : PipelineConfig → Bool → Bool
  validate_pipeline_config c evaluation_matrix =
      v.validate_yaml c && validate_pipeline_config_content c evaluation_matrix
