-- ===== src/ModelStorage/Manager.antt =====
-- ModelStorageManager. A stored file stands with the row that names it.
pub mod Stored
pub mod Held
pub mod Loaded
pub mod Deleted
use modyn.Prelude.{
  ◌==◌, if◌then◌else◌, filter_by, any, value_error, attribute_error, recursion_error, Result, ok,
  raise, ◌>>=◌, ℕ, zero, suc, ◌+◌, ◌%◌, Bool, true, false, not, ◌&&◌, Option, none, some, List, [],
  ◌∷◌, ◌++◌,
}

-- A row of TrainedModel.
pub record TrainedModel (F : Type 0) : Type 0 where
  pub model_id : ℕ
  pub pipeline_id : ℕ
  pub trigger_id : ℕ
  pub parent_model : Option ℕ
  pub file : F

-- The rows, and the id of the next one.
pub record Models (F : Type 0) : Type 0 where
  pub rows : List (TrainedModel F)
  pub next_id : ℕ

-- What the manager uses of the strategies of a policy, on model states `S` and files `F`; nothing is
-- assumed of it. A full model is loaded into a state of the pipeline's architecture.
pub record Strategies (S F : Type 0) : Type 0 where
  pub base_model_state : ℕ → S
  pub store_full : S → F
  pub load_full : S → F → S
  pub store_incremental : S → S → F
  pub load_incremental : S → F → S

pub record Policy : Type 0 where
  pub has_incremental : Bool
  pub full_model_interval : Option ℕ

-- The depth of recursion that Python allows by default.
abbrev pub recursion_limit : ℕ
recursion_limit = 1000

-- `_validate_full_model_interval`
unfoldable pub with_interval : ℕ → Policy → Result Policy
with_interval full_model_interval policy =
    if full_model_interval == 0
    then raise value_error
    else ok (record policy { full_model_interval = some full_model_interval })

-- Whether `_handle_new_model` tries to store a model as a difference.
unfoldable pub wants_difference : Policy → ℕ → Bool
wants_difference policy trigger_id = policy.has_incremental && elim policy.full_model_interval [
  | none ↦ true
  | some interval ↦ not (trigger_id % interval == 0)
]

module _ {F : Type 0} where
  -- The first row that passes a test.
  abbrev pub first_row : (TrainedModel F → Bool) → List (TrainedModel F) → Option (TrainedModel F)
  first_row p [] = none
  first_row p (row ∷ rows) = let later = first_row p rows in if p row then some row else later

  -- `session.get(TrainedModel, model_id)`
  abbrev pub find_model : ℕ → List (TrainedModel F) → Option (TrainedModel F)
  find_model model_id rows = first_row (λ row. row.model_id == model_id) rows

  abbrev pub is_previous : ℕ → ℕ → TrainedModel F → Bool
  is_previous pipeline_id trigger_id row =
      (row.pipeline_id == pipeline_id) && (row.trigger_id + 1 == trigger_id)

  -- The parent that a previous model gives: itself if it is stored in its entirety.
  unfoldable pub parent_of : Option (TrainedModel F) → Option ℕ
  parent_of none = none
  parent_of (some previous) = elim previous.parent_model [
    | none ↦ some previous.model_id
    | some parent ↦ some parent
  ]

  unfoldable pub determine_parent_model_id : ℕ → ℕ → List (TrainedModel F) → Option ℕ
  unfolding parent_of
  determine_parent_model_id pipeline_id trigger_id rows =
      parent_of (first_row (is_previous pipeline_id trigger_id) rows)

  -- `add_trained_model`
  unfoldable pub add_trained_model : ℕ → ℕ → Option ℕ → F → Models F → ℕ × Models F
  add_trained_model pipeline_id trigger_id parent file models = (
    models.next_id,
    record {
      rows =
          models.rows
          ++ record {
            model_id = models.next_id;
            pipeline_id = pipeline_id;
            trigger_id = trigger_id;
            parent_model = parent;
            file = file;
          }
            ∷ [];
      next_id = suc models.next_id;
    },
  )

  abbrev pub is_child_of : ℕ → TrainedModel F → Bool
  is_child_of model_id row = elim row.parent_model [
    | none ↦ false
    | some parent ↦ parent == model_id
  ]

  -- `delete_model`
  unfoldable pub delete_model : ℕ → Models F → Bool × Models F
  delete_model model_id models = elim (find_model model_id models.rows) [
    | none ↦ (false, models)
    | some row ↦ if any (is_child_of model_id) models.rows then (false, models) else (
      true,
      record models { rows = filter_by (λ r. not (r.model_id == model_id)) models.rows },
    )
  ]

module _ {S F : Type 0} (strategies : Strategies S F) where
  -- The base case of a fully stored model.
  abbrev pub load_full_model : TrainedModel F → S
  load_full_model model =
      strategies.load_full (strategies.base_model_state model.pipeline_id) model.file

  -- The two cases on the parent, which counts as none when it is 0.
  unfoldable pub load_from : TrainedModel F → (ℕ → Result S) → Option ℕ → Result S
  load_from model reconstruct none = ok (load_full_model model)
  load_from model reconstruct (some parent) =
      let difference = do
        model_state ← reconstruct parent
        ok (strategies.load_incremental model_state model.file)
      in if parent == 0 then ok (load_full_model model) else difference

  -- A missing model has no attribute `parent_model`.
  unfoldable pub reconstruct_found : (ℕ → Result S) → Option (TrainedModel F) → Result S
  unfolding load_from
  reconstruct_found reconstruct none = raise attribute_error
  reconstruct_found reconstruct (some model) = load_from model reconstruct model.parent_model

  -- `_reconstruct_model_state`, with the depth of the recursion bounded as Python's is.
  unfoldable pub reconstruct_model_state : ℕ → ℕ → List (TrainedModel F) → Result S
  unfolding reconstruct_found
  reconstruct_model_state zero model_id rows = raise recursion_error
  reconstruct_model_state (suc depth) model_id rows =
      reconstruct_found (λ parent. reconstruct_model_state depth parent rows)
        (find_model model_id rows)

  -- `_handle_new_model` with the parent that was determined: the parent and the file.
  unfoldable pub store_difference : S → List (TrainedModel F) → Option ℕ → Result (Option ℕ × F)
  unfolding reconstruct_model_state
  store_difference state_dict rows none = ok (none, strategies.store_full state_dict)
  store_difference state_dict rows (some parent) = do
    parent_model_state ← reconstruct_model_state recursion_limit parent rows
    ok (some parent, strategies.store_incremental state_dict parent_model_state)

  unfoldable pub handle_new_model :
      Policy → ℕ → ℕ → S → List (TrainedModel F) → Result (Option ℕ × F)
  unfolding determine_parent_model_id wants_difference store_difference
  handle_new_model policy pipeline_id trigger_id state_dict rows =
      if wants_difference policy trigger_id
      then store_difference state_dict rows (determine_parent_model_id pipeline_id trigger_id rows)
      else ok (none, strategies.store_full state_dict)

  unfoldable pub store_model : Policy → ℕ → ℕ → S → Models F → Result (ℕ × Models F)
  unfolding handle_new_model add_trained_model
  store_model policy pipeline_id trigger_id state_dict models = do
    (parent, file) ← handle_new_model policy pipeline_id trigger_id state_dict models.rows
    ok (add_trained_model pipeline_id trigger_id parent file models)

  -- `load_model` without the metadata; `none` for a model that does not exist.
  unfoldable pub load_found : ℕ → Models F → Option (TrainedModel F) → Result (Option S)
  unfolding reconstruct_model_state
  load_found model_id models none = ok none
  load_found model_id models (some model) = do
    model_state ← reconstruct_model_state recursion_limit model_id models.rows
    ok (some model_state)

  unfoldable pub load_model : ℕ → Models F → Result (Option S)
  unfolding load_found
  load_model model_id models = load_found model_id models (find_model model_id models.rows)
