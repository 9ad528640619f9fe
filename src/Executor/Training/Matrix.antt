-- ===== src/Executor/Training/Matrix.antt =====
-- The rows and the cells of the evaluation matrix, and the evaluations that are started for it.
use modyn.TrainerServer.Tables.{find-put, find-put_other}
use modyn.TrainerServer.Server.{put}
use modyn.Executor.State.{
  Call, start_evaluation, wait_for_evaluation_completion, store_evaluation_results, Cluster, Config,
  State, pure, gets, modify, ◌>>=◌, ask, tell,
}
use modyn.Executor.Training.{
  set_cell, evaluate_on_trigger, evaluate_row, evaluate_rows, build_evaluation_matrix,
}
use modyn.SelectorService.{find}
use Prim.Native.String.{String}
use modyn.Prelude.{
  ◌==◌, ==_iff, concat, mem, ok, ℕ, ◌≡◌, refl, sym, ap, ◌∙◌, subst, Bool, true, false, ◌||◌, Option,
  none, some, List, [], ◌∷◌, ◌++◌, map, append-nil, append_assoc,
}

-- The evaluations that the calls start, by model and trigger.
abbrev pub started_by : Call → List (ℕ × Option ℕ)
started_by (start_evaluation model trigger) = (model, trigger) ∷ []
started_by _ = []

abbrev pub evaluated : List Call → List (ℕ × Option ℕ)
evaluated [] = []
evaluated (call ∷ calls) = started_by call ++ evaluated calls

evaluated-append :
    (calls later : List Call) → evaluated (calls ++ later) ≡ evaluated calls ++ evaluated later
evaluated-append [] later = refl
evaluated-append (call ∷ calls) later =
    ap (λ pairs. started_by call ++ pairs) (evaluated-append calls later)
    ∙ sym (append_assoc (started_by call) (evaluated calls) (evaluated later))

-- An entry of a dictionary after a loop: if the loop met its key, there is one of the kind that is
-- asked for, and it is as before otherwise.
abbrev pub Found : {A : Type 0} → (A → Type 0) → Bool → Option A → Option A → Type 0
Found {A} P true before after = (a : A) × (after ≡ some a) × P a
Found P false before after = after ≡ before

Found-cons :
    {A : Type 0} (P : A → Type 0) (here later : Bool) (before between after : Option A)
    → (here ≡ true → (a : A) × (between ≡ some a) × P a)
    → (here ≡ false → between ≡ before)
    → Found P later between after
    → Found P (here || later) before after
Found-cons P true true before between after f g h = h
Found-cons P true false before between after f g h = let (a, e, p) = f refl in (a, h ∙ e, p)
Found-cons P false true before between after f g h = h
Found-cons P false false before between after f g h = h ∙ g refl

-- The pairs of one model, and of all models.
abbrev pub pairs_of : List ℕ → ℕ → List (ℕ × Option ℕ)
pairs_of triggers model = map (λ trigger. (model, some trigger)) triggers

module _ (cluster : Cluster) where
  -- The calls after those for one cell, which start an evaluation, wait for it and store its results.
  abbrev pub cell_calls : Option ℕ → ℕ → ℕ → List Call → List Call
  cell_calls current model trigger calls =
      let started = calls ++ start_evaluation model (some trigger) ∷ [] in
      let evaluations = cluster.evaluations started in
      (started ++ wait_for_evaluation_completion current evaluations ∷ [])
      ++ store_evaluation_results evaluations ∷ []

  -- The results are what was kept after such calls for the model and the trigger.
  abbrev pub IsResult : Option ℕ → ℕ → ℕ → String → Type 0
  IsResult current model trigger results =
      (calls : List Call) × (results ≡ cluster.log_results (cell_calls current model trigger calls))

  -- A row has the results for each trigger and for nothing else.
  abbrev pub IsRow : Option ℕ → List ℕ → ℕ → List (ℕ × String) → Type 0
  IsRow current triggers model row =
      (trigger : ℕ)
      → Found (IsResult current model trigger) (mem trigger triggers) none (find trigger row)

  evaluated-cell :
      (current : Option ℕ) (model trigger : ℕ) (calls : List Call)
      → evaluated (cell_calls current model trigger calls)
        ≡ evaluated calls ++ (model, some trigger) ∷ []
  evaluated-cell current model trigger calls =
      let started = calls ++ start_evaluation model (some trigger) ∷ [] in
      let evaluations = cluster.evaluations started in
      let waited = started ++ wait_for_evaluation_completion current evaluations ∷ [] in
      evaluated-append waited (store_evaluation_results evaluations ∷ [])
      ∙ append-nil (evaluated waited)
      ∙ evaluated-append started (wait_for_evaluation_completion current evaluations ∷ [])
      ∙ append-nil (evaluated started)
      ∙ evaluated-append calls (start_evaluation model (some trigger) ∷ [])

module _ {T : Type 0} (cluster : Cluster) (config : Config) where
  on_cell :
      (current : Option ℕ) (model trigger : ℕ) (row : List (ℕ × String)) (s : State T)
      → find model s.matrix ≡ some row
      → s.current_training_id ≡ current
      → (let calls = cell_calls cluster current model trigger s.calls in
          evaluate_on_trigger cluster config model trigger s ≡ (
            ok tt,
            record s {
              calls = calls;
              matrix = put model (put trigger (cluster.log_results calls) row) s.matrix;
            },
          ))
  unfolding evaluate_on_trigger set_cell ask tell gets modify ◌>>=◌
  on_cell current model trigger row s found same = simp (found, same) refl

  evaluate_row_lem :
      (current : Option ℕ) (model : ℕ) (triggers : List ℕ) (row : List (ℕ × String)) (s : State T)
      → find model s.matrix ≡ some row
      → s.current_training_id ≡ current
      → (row' : List (ℕ × String)) × (s' : State T) × (evaluate_row cluster config model triggers s
          ≡ (ok tt, s'))
        × (s'.current_training_id ≡ current)
        × (evaluated s'.calls ≡ evaluated s.calls ++ pairs_of triggers model)
        × (find model s'.matrix ≡ some row')
        × ((other : ℕ) → (model == other) ≡ false → find other s'.matrix ≡ find other s.matrix)
        × ((trigger : ℕ)
            → Found
                (IsResult cluster current model trigger)
                (mem trigger triggers)
                (find trigger row)
                (find trigger row'))
  unfolding evaluate_row pure ◌>>=◌
  evaluate_row_lem current model [] row s found same =
      (row, s, refl, same, sym (append-nil _), found, λ other e. refl, λ trigger. refl)
  evaluate_row_lem current model (trigger ∷ triggers) row s found same =
      let calls = cell_calls cluster current model trigger s.calls in
      let results = cluster.log_results calls in
      let row1 = put trigger results row in
      let s1 = record s { calls = calls; matrix = put model row1 s.matrix } in
      let (row', s', run, same', pairs, found', others, cells) =
        evaluate_row_lem current model triggers row1 s1 (find-put model row1 s.matrix) same in
      (
        row',
        s',
        rw (on_cell current model trigger row s found same) run,
        same',
        pairs
            ∙ ap (λ l. l ++ pairs_of triggers model)
                (evaluated-cell cluster current model trigger s.calls)
            ∙ append_assoc (evaluated s.calls) ((model, some trigger) ∷ [])
                (pairs_of triggers model),
        found',
        λ other e. others other e ∙ find-put_other model other row1 s.matrix e,
        λ t.
            Found-cons (IsResult cluster current model t) (trigger == t) (mem t triggers)
              (find t row) (find t row1) (find t row')
              (λ e.
                let at : trigger ≡ t = (==_iff trigger t).0 e in
                (
                  results,
                  ap (λ k. find k row1) (sym at) ∙ find-put trigger results row,
                  (
                    s.calls,
                    ap (λ k. cluster.log_results (cell_calls cluster current model k s.calls)) at,
                  ),
                ))
              (λ e. find-put_other trigger t results row e) (cells t),
      )

  evaluate_rows_lem :
      (current : Option ℕ) (models triggers : List ℕ) (s : State T)
      → s.current_training_id ≡ current
      → (s' : State T) × (evaluate_rows cluster config models triggers s ≡ (ok tt, s'))
        × (evaluated s'.calls ≡ evaluated s.calls ++ concat (map (pairs_of triggers) models))
        × ((model : ℕ)
            → Found
                (IsRow cluster current triggers model)
                (mem model models)
                (find model s.matrix)
                (find model s'.matrix))
  unfolding evaluate_rows modify pure ◌>>=◌ find
  evaluate_rows_lem current [] triggers s same = (s, refl, sym (append-nil _), λ model. refl)
  evaluate_rows_lem current (model ∷ models) triggers s same =
      let s1 = record s { matrix = put model [] s.matrix } in
      let (row, s2, run, same2, pairs, found, others, cells) =
        evaluate_row_lem current model triggers [] s1 (find-put model [] s.matrix) same in
      let (s3, run', pairs', rows) = evaluate_rows_lem current models triggers s2 same2 in
      (
        s3,
        rw run run',
        pairs'
            ∙ ap (λ l. l ++ concat (map (pairs_of triggers) models)) pairs
            ∙ append_assoc (evaluated s.calls) (pairs_of triggers model) _,
        λ m.
            Found-cons (IsRow cluster current triggers m) (model == m) (mem m models)
              (find m s.matrix) (find m s2.matrix) (find m s3.matrix)
              (λ e.
                subst
                  (λ k.
                    (a : List (ℕ × String)) × (find k s2.matrix ≡ some a)
                    × IsRow cluster current triggers k a)
                  ((==_iff model m).0 e) (row, found, cells))
              (λ e. others m e ∙ find-put_other model m [] s.matrix e) (rows m),
      )

  -- `build_evaluation_matrix` returns. The evaluations that it starts are those of each trained model
  -- on each trigger, row by row in the order of the trainings, and no others. Whatever the matrix
  -- held before, it then has a row for a model exactly if the model was trained, and a row has a cell
  -- for a trigger exactly if it was one of the triggers; the results in it are those that were kept
  -- after an evaluation of this model on this trigger was started, waited for and stored.
  pub build_evaluation_matrix_lem :
      (s : State T)
      → (s' : State T) × (build_evaluation_matrix cluster config s ≡ (ok tt, s'))
        × (evaluated s'.calls
            ≡ evaluated s.calls ++ concat (map (pairs_of s.triggers) s.trained_models))
        × ((model : ℕ)
            → Found
                (IsRow cluster s.current_training_id s.triggers model)
                (mem model s.trained_models)
                none
                (find model s'.matrix))
  unfolding build_evaluation_matrix gets modify ◌>>=◌ find
  build_evaluation_matrix_lem s =
      evaluate_rows_lem s.current_training_id s.trained_models s.triggers (record s { matrix = [] })
        refl
