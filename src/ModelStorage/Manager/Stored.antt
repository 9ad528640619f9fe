-- ===== src/ModelStorage/Manager/Stored.antt =====
-- The invariant of the model storage, and lemmas on its rows.
use modyn.ModelStorage.Manager.{
  TrainedModel, Models, Strategies, first_row, find_model, is_previous, parent_of,
  determine_parent_model_id, load_full_model, load_from, reconstruct_found, reconstruct_model_state,
}
use modyn.Prelude.{
  ◌==◌, Bool-cases, Option-cases, All, Result, ok, ℕ, suc, ◌<◌, ◌≡◌, refl, sym, ap, ◌∙◌, subst, inl,
  inr, Bool, true, false, Option, none, some, List, [], ◌∷◌, ◌++◌, arith,
}

module _ {F : Type 0} where
  pub first_row-All :
      (P : TrainedModel F → Type 0) (p : TrainedModel F → Bool) (rows : List (TrainedModel F))
      (r : TrainedModel F)
      → All P rows
      → first_row p rows ≡ some r
      → P r × (p r ≡ true)
  first_row-All P p [] r h e = cc
  first_row-All P p (row ∷ rows) r h e = elim (Bool-cases (p row)) [
    | inl found ↦
        let here : some row ≡ some r = rw found at e in
        let same : row ≡ r = cc in (subst P same h.0, ap p (sym same) ∙ found)
    | inr other ↦ first_row-All P p rows r h.1 (rw other at e)
  ]

  pub first_row-append :
      (p : TrainedModel F → Bool) (rows later : List (TrainedModel F)) (r : TrainedModel F)
      → first_row p rows ≡ some r
      → first_row p (rows ++ later) ≡ some r
  first_row-append p [] later r e = cc
  first_row-append p (row ∷ rows) later r e = elim (Bool-cases (p row)) [
    | inl found ↦ rw found (rw found at e)
    | inr other ↦ rw other (first_row-append p rows later r (rw other at e))
  ]

  pub first_row-new :
      (p : TrainedModel F → Bool) (rows : List (TrainedModel F)) (new : TrainedModel F)
      → All (λ row. p row ≡ false) rows
      → p new ≡ true
      → first_row p (rows ++ new ∷ []) ≡ some new
  first_row-new p [] new h e = rw e
  first_row-new p (row ∷ rows) new h e = rw (h.0) (first_row-new p rows new h.1 e)

  -- The parent of a row, if it has one, is a full model in the rows.
  abbrev pub HasFullParent : List (TrainedModel F) → Option ℕ → Type 0
  HasFullParent rows none = Unit {0}
  HasFullParent rows (some parent) =
      (q : TrainedModel F) × (0 < parent)
      × (find_model parent rows ≡ some q)
      × (q.parent_model ≡ none)

  -- Ids are positive, below the next one and found again, and parents are full models.
  abbrev pub IsKept : List (TrainedModel F) → ℕ → TrainedModel F → Type 0
  IsKept rows next row =
      (0 < row.model_id)
      × (row.model_id < next)
      × (find_model row.model_id rows ≡ some row)
      × HasFullParent rows row.parent_model

  abbrev pub IsValid : Models F → Type 0
  IsValid models = (0 < models.next_id) × All (IsKept models.rows models.next_id) models.rows

  pub HasFullParent-append :
      (rows later : List (TrainedModel F)) (parent : Option ℕ)
      → HasFullParent rows parent
      → HasFullParent (rows ++ later) parent
  HasFullParent-append rows later none h = tt
  HasFullParent-append rows later (some parent) (q, positive, found, full) =
      (q, positive, first_row-append _ rows later q found, full)

  pub IsKept-append :
      (rows later olds : List (TrainedModel F)) (next : ℕ)
      → All (IsKept rows next) olds
      → All (IsKept (rows ++ later) (suc next)) olds
  IsKept-append rows later [] next h = tt
  IsKept-append rows later (row ∷ olds) next ((positive, below, found, parent), h) = (
    (
      positive,
      omega arith,
      first_row-append _ rows later row found,
      HasFullParent-append rows later row.parent_model parent,
    ),
    IsKept-append rows later olds next h,
  )

  pub none_next :
      (rows olds : List (TrainedModel F)) (next : ℕ)
      → All (IsKept rows next) olds
      → All (λ row. (row.model_id == next) ≡ false) olds
  none_next rows [] next h = tt
  none_next rows (row ∷ olds) next ((_, below, _, _), h) =
      (ground arith, none_next rows olds next h)

  parent_or_self :
      (rows : List (TrainedModel F)) (previous : TrainedModel F)
      → 0 < previous.model_id
      → find_model previous.model_id rows ≡ some previous
      → (o : Option ℕ) → previous.parent_model ≡ o
      → HasFullParent rows o
      → HasFullParent rows (elim o [ none ↦ some previous.model_id | some parent ↦ some parent ])
  parent_or_self rows previous positive found none full h = (previous, positive, found, full)
  parent_or_self rows previous positive found (some parent) has h = h

  -- `_determine_parent_model_id` only gives full models.
  pub determine_parent-HasFullParent :
      (models : Models F) (pipeline_id trigger_id : ℕ)
      → IsValid models
      → HasFullParent models.rows (determine_parent_model_id pipeline_id trigger_id models.rows)
  unfolding determine_parent_model_id parent_of
  determine_parent-HasFullParent models pipeline_id trigger_id (_, kept) =
      elim (Option-cases (first_row (is_previous pipeline_id trigger_id) models.rows)) [
        | inl missing ↦ rw missing tt
        | inr (previous, found) ↦
            rw found (from_previous previous (first_row-All _ _ models.rows previous kept found).0)
      ]
    where
      from_previous :
          (previous : TrainedModel F)
          → IsKept models.rows models.next_id previous
          → HasFullParent models.rows (parent_of (some previous))
      from_previous previous (positive, below, found, parent) =
          parent_or_self models.rows previous positive found previous.parent_model refl parent

module _ {S F : Type 0} (strategies : Strategies S F) where
  pub reconstruct-full :
      (depth model_id : ℕ) (rows : List (TrainedModel F)) (r : TrainedModel F)
      → find_model model_id rows ≡ some r
      → r.parent_model ≡ none
      → reconstruct_model_state strategies (suc depth) model_id rows
        ≡ ok (load_full_model strategies r)
  unfolding reconstruct_model_state reconstruct_found load_from
  reconstruct-full depth model_id rows r found full =
      ap
        (reconstruct_found strategies
          (λ parent. reconstruct_model_state strategies depth parent rows))
        found
      ∙ ap (load_from strategies r (λ parent. reconstruct_model_state strategies depth parent rows))
          full

  pub reconstruct-difference :
      (depth model_id parent : ℕ) (rows : List (TrainedModel F)) (r q : TrainedModel F)
      → find_model model_id rows ≡ some r
      → r.parent_model ≡ some parent
      → 0 < parent
      → find_model parent rows ≡ some q
      → q.parent_model ≡ none
      → reconstruct_model_state strategies (suc (suc depth)) model_id rows
        ≡ ok (strategies.load_incremental (load_full_model strategies q) r.file)
  unfolding reconstruct_model_state reconstruct_found load_from
  reconstruct-difference depth model_id parent rows r q found has positive found' full =
      ap (reconstruct_found strategies again) found
      ∙ ap (load_from strategies r again) has
      ∙ (let not_zero : (parent == 0) ≡ false = ground arith in
          rw (not_zero, reconstruct-full depth parent rows q found' full))
    where
      again : ℕ → Result S
      again p = reconstruct_model_state strategies (suc depth) p rows
