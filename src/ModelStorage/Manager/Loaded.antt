-- ===== src/ModelStorage/Manager/Loaded.antt =====
-- Loading after storing.
use modyn.ModelStorage.Manager.{
  TrainedModel, Models, Strategies, Policy, recursion_limit, find_model, add_trained_model,
  load_full_model, reconstruct_model_state, store_model, load_found, load_model,
}
use modyn.ModelStorage.Manager.Stored.{
  first_row-All, first_row-append, first_row-new, HasFullParent, IsValid, HasFullParent-append,
  IsKept-append, none_next, reconstruct-full, reconstruct-difference,
}
use modyn.ModelStorage.Manager.Held.{parent_for, Holds, handle_new_model_lem}
use modyn.Prelude.{
  ◌==◌, ==_refl, All-append, Result, ok, ℕ, suc, ◌≡◌, refl, sym, ap, ◌∙◌, Option, none, some, List,
  [], ◌∷◌, ◌++◌, arith,
}

module _ {S F : Type 0} (strategies : Strategies S F) where
  abbrev reconstruct : ℕ → List (TrainedModel F) → Result S
  reconstruct model_id rows = reconstruct_model_state strategies recursion_limit model_id rows

  -- A model whose parent is full has a state, and later models do not change it.
  reconstruct-kept :
      (model_id : ℕ) (rows later : List (TrainedModel F)) (r : TrainedModel F) (parent : Option ℕ)
      → find_model model_id rows ≡ some r
      → r.parent_model ≡ parent
      → HasFullParent rows parent
      → (state : S) × (reconstruct model_id rows ≡ ok state)
        × (reconstruct model_id (rows ++ later) ≡ ok state)
  reconstruct-kept model_id rows later r none found full h = (
    load_full_model strategies r,
    reconstruct-full strategies 999 model_id rows r found full,
    reconstruct-full strategies 999 model_id (rows ++ later) r
        (first_row-append _ rows later r found) full,
  )
  reconstruct-kept model_id rows later r (some parent) found has (q, positive, found', full) = (
    strategies.load_incremental (load_full_model strategies q) r.file,
    reconstruct-difference strategies 998 model_id parent rows r q found has positive found' full,
    reconstruct-difference strategies 998 model_id parent (rows ++ later) r q
        (first_row-append _ rows later r found) has positive
        (first_row-append _ rows later q found') full,
  )

  -- What a new model without or with a parent loads.
  abbrev pub Loads : Models F → ℕ → S → Option ℕ → S → Type 0
  Loads models pipeline_id state_dict none loaded =
      loaded
      ≡ strategies.load_full (strategies.base_model_state pipeline_id)
          (strategies.store_full state_dict)
  Loads models pipeline_id state_dict (some parent) loaded =
      (parent_state : S) × (load_model strategies parent models ≡ ok (some parent_state))
      × (loaded
          ≡ strategies.load_incremental parent_state
              (strategies.store_incremental state_dict parent_state))

  load-found :
      (model_id : ℕ) (models : Models F) (r : TrainedModel F) (state : S)
      → find_model model_id models.rows ≡ some r
      → reconstruct model_id models.rows ≡ ok state
      → load_model strategies model_id models ≡ ok (some state)
  unfolding load_model load_found
  load-found model_id models r state found run = rw (found, run)

  rebuilt :
      (models : Models F) (state_dict : S) (new : TrainedModel F) (parent : Option ℕ)
      → find_model new.model_id (models.rows ++ new ∷ []) ≡ some new
      → new.parent_model ≡ parent
      → HasFullParent models.rows parent
      → Holds strategies models.rows state_dict parent new.file
      → (loaded : S) × (reconstruct new.model_id (models.rows ++ new ∷ []) ≡ ok loaded)
        × Loads models new.pipeline_id state_dict parent loaded
  rebuilt models state_dict new none found full h holds = (
    load_full_model strategies new,
    reconstruct-full strategies 999 new.model_id (models.rows ++ new ∷ []) new found full,
    ap (strategies.load_full (strategies.base_model_state new.pipeline_id)) holds,
  )
  rebuilt models state_dict new (some parent) found has (q, positive, found', full)
        (q', same', full', holds) =
      (
        strategies.load_incremental (load_full_model strategies q) new.file,
        reconstruct-difference strategies 998 new.model_id parent (models.rows ++ new ∷ []) new q
            found has positive (first_row-append _ models.rows (new ∷ []) q found') full,
        (
          load_full_model strategies q,
          load-found parent models q (load_full_model strategies q) found'
              (reconstruct-full strategies 999 parent models.rows q found' full),
          ap (strategies.load_incremental (load_full_model strategies q)) holds
              ∙ ap
                  (λ p.
                    strategies.load_incremental (load_full_model strategies q)
                      (strategies.store_incremental state_dict (load_full_model strategies p)))
                  (some-inj same' found'),
        ),
      )
    where
      some-inj :
          {p r : TrainedModel F}
          → find_model parent models.rows ≡ some p
          → find_model parent models.rows ≡ some r
          → p ≡ r
      some-inj e f = let here : some _ ≡ some _ = sym e ∙ f in cc

  load-kept :
      (model_id : ℕ) (models models' : Models F) (later : List (TrainedModel F))
      (r : TrainedModel F)
      → IsValid models
      → models'.rows ≡ models.rows ++ later
      → find_model model_id models.rows ≡ some r
      → load_model strategies model_id models' ≡ load_model strategies model_id models
  unfolding load_model load_found
  load-kept model_id models models' later r valid grown found =
      let (_, _, _, parent) = (first_row-All _ _ models.rows r valid.1 found).0 in
      let (state, before, after) =
        reconstruct-kept model_id models.rows later r r.parent_model found refl parent in
      ap
        (λ rows.
          load_found strategies model_id (record models' { rows = rows })
            (find_model model_id rows))
        grown
      ∙ rw (first_row-append _ models.rows later r found, after, found, before)

  pub store-load :
      (policy : Policy) (pipeline_id trigger_id : ℕ) (state_dict : S) (models : Models F)
      → IsValid models
      → (model_id : ℕ) × (models' : Models F) × (store_model strategies policy pipeline_id
            trigger_id state_dict models
          ≡ ok (model_id, models'))
        × ((loaded : S) × (load_model strategies model_id models' ≡ ok (some loaded))
            × Loads models pipeline_id state_dict
                (parent_for strategies policy pipeline_id trigger_id models.rows)
                loaded)
        × IsValid models'
        × ((old : ℕ) (row : TrainedModel F)
            → find_model old models.rows ≡ some row
            → load_model strategies old models' ≡ load_model strategies old models)
  unfolding store_model add_trained_model
  store-load policy pipeline_id trigger_id state_dict models valid =
      let (full, (file, run, holds)) =
        handle_new_model_lem strategies policy pipeline_id trigger_id state_dict models valid in
      let parent = parent_for strategies policy pipeline_id trigger_id models.rows in
      let new : TrainedModel F = record {
        model_id = models.next_id;
        pipeline_id = pipeline_id;
        trigger_id = trigger_id;
        parent_model = parent;
        file = file;
      } in
      let found =
        first_row-new (λ row. row.model_id == models.next_id) models.rows new
          (none_next models.rows models.rows models.next_id valid.1) (==_refl models.next_id) in
      let (loaded, reload, loads) = rebuilt models state_dict new parent found refl full holds in
      (
        models.next_id,
        record { rows = models.rows ++ new ∷ []; next_id = suc models.next_id },
        rw run refl,
        (loaded, load-found models.next_id _ new loaded found reload, loads),
        (
          omega arith,
          All-append _ models.rows (new ∷ [])
              (IsKept-append models.rows (new ∷ []) models.rows models.next_id valid.1)
              (
                (
                  valid.0,
                  omega arith,
                  found,
                  HasFullParent-append models.rows (new ∷ []) parent full,
                ),
                tt,
              ),
        ),
        λ old row found'.
            load-kept old models
              (record { rows = models.rows ++ new ∷ []; next_id = suc models.next_id }) (new ∷ [])
              row valid refl found',
      )
