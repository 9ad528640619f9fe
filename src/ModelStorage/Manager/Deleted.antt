-- ===== src/ModelStorage/Manager/Deleted.antt =====
-- Deleting a model.
use modyn.ModelStorage.Manager.{TrainedModel, Models, find_model, is_child_of, delete_model}
use modyn.ModelStorage.Manager.Stored.{HasFullParent, IsKept, IsValid}
use modyn.Prelude.{
  ◌==◌, if◌then◌else◌, Bool-cases, filter_by, any, All, ℕ, ◌≡◌, refl, ◌∙◌, inl, inr, Bool, false,
  not, ◌||◌, Option, none, some, List, [], ◌∷◌, arith,
}

both-false : (a b : Bool) → (a || b) ≡ false → (a ≡ false) × (b ≡ false)
both-false a b h = ground arith

module _ {F : Type 0} (deleted : ℕ) where
  abbrev without : List (TrainedModel F) → List (TrainedModel F)
  without rows = filter_by (λ r. not (r.model_id == deleted)) rows

  find-other :
      (other : ℕ) (rows : List (TrainedModel F))
      → (other == deleted) ≡ false
      → find_model other (without rows) ≡ find_model other rows
  find-other other [] h = refl
  find-other other (row ∷ rows) h = elim (Bool-cases (row.model_id == deleted)) [
    | inl gone ↦
        let different : (row.model_id == other) ≡ false = ground arith in
        rw (gone, different) (find-other other rows h)
    | inr kept ↦ elim (Bool-cases (row.model_id == other)) [
      | inl found ↦ rw (kept, found)
      | inr later ↦ rw (kept, later) (find-other other rows h)
    ]
  ]

  find-deleted : (rows : List (TrainedModel F)) → find_model deleted (without rows) ≡ none
  find-deleted [] = refl
  find-deleted (row ∷ rows) = elim (Bool-cases (row.model_id == deleted)) [
    | inl gone ↦ rw gone (find-deleted rows)
    | inr kept ↦ rw (kept, kept) (find-deleted rows)
  ]

  parent-stays :
      (rows : List (TrainedModel F)) (parent : Option ℕ)
      → HasFullParent rows parent
      → elim parent [ none ↦ false | some p ↦ p == deleted ] ≡ false
      → HasFullParent (without rows) parent
  parent-stays rows none h other = tt
  parent-stays rows (some p) (q, positive, found, full) other =
      (q, positive, find-other p rows other ∙ found, full)

  IsKept-without :
      (rows olds : List (TrainedModel F)) (next : ℕ)
      → All (IsKept rows next) olds
      → any (is_child_of deleted) olds ≡ false
      → All (IsKept (without rows) next) (without olds)
  IsKept-without rows [] next h childless = tt
  IsKept-without rows (row ∷ olds) next ((positive, under, found, parent), h) childless =
      let (no_child, none_later) =
        both-false (is_child_of deleted row) (any (is_child_of deleted) olds) childless in
      elim (Bool-cases (row.model_id == deleted)) [
        | inl gone ↦ rw gone (IsKept-without rows olds next h none_later)
        | inr kept ↦ rw kept (
          (
            positive,
            under,
            find-other row.model_id rows kept ∙ found,
            parent-stays rows row.parent_model parent no_child,
          ),
          IsKept-without rows olds next h none_later,
        )
      ]

  -- `delete_model` of a model that is there succeeds exactly when the model has no children. Then it
  -- is not found any more, and otherwise it stays; all other models are found as before, and ids and
  -- parents are as they have to be.
  pub delete_model_lem :
      (models : Models F) (row : TrainedModel F)
      → IsValid models
      → find_model deleted models.rows ≡ some row
      → ((delete_model deleted models).0 ≡ not (any (is_child_of deleted) models.rows))
        × IsValid (delete_model deleted models).1
        × (find_model deleted (delete_model deleted models).1.rows
            ≡ (if any (is_child_of deleted) models.rows then some row else none))
        × ((other : ℕ)
            → (other == deleted) ≡ false
            → find_model other (delete_model deleted models).1.rows ≡ find_model other models.rows)
  unfolding delete_model
  delete_model_lem models row (positive, kept) found =
      elim (Bool-cases (any (is_child_of deleted) models.rows)) [
        | inl child ↦
            rw (delete_model, found, child) (refl, (positive, kept), found, λ other h. refl)
        | inr childless ↦
            rw (delete_model, found, childless)
              (
                refl,
                (positive, IsKept-without models.rows models.rows models.next_id kept childless),
                find-deleted models.rows,
                λ other h. find-other other models.rows h,
              )
      ]
