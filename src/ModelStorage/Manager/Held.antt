-- ===== src/ModelStorage/Manager/Held.antt =====
-- What `_handle_new_model` stores of a new model: all of it, or the difference to its parent.
use modyn.ModelStorage.Manager.{
  TrainedModel, Models, Strategies, Policy, wants_difference, find_model, determine_parent_model_id,
  load_full_model, store_difference, handle_new_model,
}
use modyn.ModelStorage.Manager.Stored.{
  HasFullParent, IsValid, determine_parent-HasFullParent, reconstruct-full,
}
use modyn.Prelude.{if◌then◌else◌, ok, ℕ, ◌≡◌, refl, Bool, true, false, Option, none, some, List}

module _ {S F : Type 0} (strategies : Strategies S F) where
  -- The parent that a new model gets.
  abbrev pub parent_for : Policy → ℕ → ℕ → List (TrainedModel F) → Option ℕ
  parent_for policy pipeline_id trigger_id rows =
      if wants_difference policy trigger_id
      then determine_parent_model_id pipeline_id trigger_id rows
      else none

  -- What a file holds of a state: all of it, or the difference to the parent's state.
  abbrev pub Holds : List (TrainedModel F) → S → Option ℕ → F → Type 0
  Holds rows state_dict none file = file ≡ strategies.store_full state_dict
  Holds rows state_dict (some parent) file =
      (q : TrainedModel F) × (find_model parent rows ≡ some q)
      × (q.parent_model ≡ none)
      × (file ≡ strategies.store_incremental state_dict (load_full_model strategies q))

  store_difference_lem :
      (state_dict : S) (rows : List (TrainedModel F)) (parent : Option ℕ)
      → HasFullParent rows parent
      → (file : F) × (store_difference strategies state_dict rows parent ≡ ok (parent, file))
        × Holds rows state_dict parent file
  unfolding store_difference
  store_difference_lem state_dict rows none h = (_, refl, refl)
  store_difference_lem state_dict rows (some parent) (q, positive, found, full) = (
    strategies.store_incremental state_dict (load_full_model strategies q),
    rw (reconstruct-full strategies 999 parent rows q found full),
    (q, found, full, refl),
  )

  pub handle_new_model_lem :
      (policy : Policy) (pipeline_id trigger_id : ℕ) (state_dict : S) (models : Models F)
      → IsValid models
      → (let parent = parent_for policy pipeline_id trigger_id models.rows in
          HasFullParent models.rows parent
          × ((file : F) × (handle_new_model strategies policy pipeline_id trigger_id state_dict
                  models.rows
                ≡ ok (parent, file))
              × Holds models.rows state_dict parent file))
  unfolding handle_new_model
  handle_new_model_lem policy pipeline_id trigger_id state_dict models valid =
      either (wants_difference policy trigger_id)
    where
      full :
          HasFullParent models.rows (determine_parent_model_id pipeline_id trigger_id models.rows)
      full = determine_parent-HasFullParent models pipeline_id trigger_id valid

      either :
          (b : Bool)
          → (let parent =
                if b then determine_parent_model_id pipeline_id trigger_id models.rows else none in
              HasFullParent models.rows parent
              × ((file : F) × ((if b
                      then store_difference strategies state_dict models.rows
                          (determine_parent_model_id pipeline_id trigger_id models.rows)
                      else ok (none, strategies.store_full state_dict))
                    ≡ ok (parent, file))
                  × Holds models.rows state_dict parent file))
      either true = (
        full,
        store_difference_lem state_dict models.rows
            (determine_parent_model_id pipeline_id trigger_id models.rows) full,
      )
      either false = (tt, (_, refl, refl))
