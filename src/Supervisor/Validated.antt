-- ===== src/Supervisor/Validated.antt =====
-- The validation and its description, part by part.
use Prim.Native.String.{String}
use modyn.Supervisor.{
  TrainingConfig, EvaluationDataset, EvaluationConfig, supported_strategies,
  supported_evaluation_result_writers, has_id, validate_dataset, validate_writers,
  validate_evaluation_options, validate_initial_model, validate_training_options, validate_optional,
  validate_matrix,
}
use modyn.Supervisor.Accepted.{
  In, Unique, IsPositive, and_iff, IsPositive-iff, one_iff, same_text_iff, or_iff, mem_text_iff,
  Unique-iff,
}
use modyn.Stopwatch.{same_text}
use modyn.Prelude.{
  Bool-cases, any, all, All, ℕ, ◌≡◌, refl, sym, ◌∙◌, ◌↔◌, ◌⊎◌, inl, inr, Bool, true, false, ◌&&◌,
  Option, none, some, List, [], ◌∷◌, map,
}
use modyn.Prelude.Int.{pos}

abbrev pub IsAcceptedTraining : TrainingConfig → Type 0
IsAcceptedTraining t =
    (t.gpus ≡ pos 1)
    × (IsPositive t.batch_size
        × (IsPositive t.dataloader_workers
            × (In t.selection_strategy supported_strategies
                × ((t.initial_model ≡ "random")
                    ⊎ ((t.initial_model ≡ "pretrained")
                        × ((t.use_previous_model ≡ true)
                            × ((i : ℕ) × (t.initial_model_id ≡ some i))))))))

abbrev pub AreSupported : Option (List String) → Type 0
AreSupported none = Unit
AreSupported (some names) = All (λ n. In n supported_evaluation_result_writers) names

abbrev pub IsAcceptedEvaluation : Option EvaluationConfig → Type 0
IsAcceptedEvaluation none = Unit
IsAcceptedEvaluation (some e) =
    Unique (map (λ d. d.dataset_id) e.datasets)
    × (AreSupported e.result_writers
        × All (λ d. IsPositive d.batch_size × IsPositive d.dataloader_workers) e.datasets)

abbrev pub IsEvaluated : String → Option EvaluationConfig → Bool → Type 0
IsEvaluated dataset_id e false = Unit
IsEvaluated dataset_id none true = ⊥
IsEvaluated dataset_id (some e) true = In dataset_id (map (λ d. d.dataset_id) e.datasets)

-- Two tests and what they say.
pub and_both :
    {P Q : Type 0} (b c : Bool) → (b ≡ true) ↔ P → (c ≡ true) ↔ Q → ((b && c) ≡ true) ↔ (P × Q)
and_both b c p q =
    let a = and_iff b c in (λ e. let x = a.0 e in (p.0 x.0, q.0 x.1), λ e. a.1 (p.1 e.0, q.1 e.1))

all_iff :
    {A : Type 0} (test : A → Bool) (P : A → Type 0)
    → ((a : A) → (test a ≡ true) ↔ P a)
    → (xs : List A) → (all test xs ≡ true) ↔ All P xs
all_iff test P h [] = (λ e. tt, λ e. refl)
all_iff test P h (x ∷ xs) = and_both (test x) (all test xs) (h x) (all_iff test P h xs)

has_id_iff : (o : Option ℕ) → (has_id o ≡ true) ↔ ((i : ℕ) × (o ≡ some i))
has_id_iff none = (λ e. cc e, λ p. cc p.1)
has_id_iff (some i) = (λ e. (i, refl), λ p. refl)

pub iff_refl : {A : Type 0} → A ↔ A
iff_refl = (λ a. a, λ a. a)

names_differ : ◌≡◌ {A = String} "random" "pretrained" → ⊥
names_differ e = let f = (same_text_iff "random" "pretrained").1 e in cc f

initial_iff :
    (t : TrainingConfig)
    → (validate_initial_model t ≡ true) ↔ (
        (t.initial_model ≡ "random")
        ⊎ ((t.initial_model ≡ "pretrained")
            × ((t.use_previous_model ≡ true) × ((i : ℕ) × (t.initial_model_id ≡ some i)))))
unfolding validate_initial_model
initial_iff t =
    let named = same_text_iff t.initial_model "pretrained" in
    let random = same_text_iff t.initial_model "random" in
    let given =
      and_both t.use_previous_model (has_id t.initial_model_id) iff_refl
        (has_id_iff t.initial_model_id) in
    elim (Bool-cases (same_text t.initial_model "pretrained")) [
      | inl p ↦ (
        λ e. inr (named.0 p, given.0 (rw p at e)),
        λ e. elim e [
          | inl f ↦ absurd (names_differ (sym f ∙ named.0 p))
          | inr f ↦ rw p (given.1 f.1)
        ],
      )
      | inr p ↦ (
        λ e. inl (random.0 (rw p at e)),
        λ e. elim e [ inl f ↦ rw p (random.1 f) | inr f ↦ cc (named.1 f.0) ],
      )
    ]

pub training_iff :
    (t : TrainingConfig) → (validate_training_options t ≡ true) ↔ IsAcceptedTraining t
unfolding validate_training_options
training_iff t = and_both _ _ (one_iff t.gpus) (
    and_both _ _ (IsPositive-iff t.batch_size) (
      and_both _ _ (IsPositive-iff t.dataloader_workers)
        (and_both _ _ (mem_text_iff t.selection_strategy supported_strategies) (initial_iff t))))

writers_iff : (w : Option (List String)) → (validate_writers w ≡ true) ↔ AreSupported w
unfolding validate_writers
writers_iff none = (λ e. tt, λ e. refl)
writers_iff (some names) =
    all_iff _ _ (λ n. mem_text_iff n supported_evaluation_result_writers) names

pub evaluation_iff :
    (e : Option EvaluationConfig) → (validate_optional e ≡ true) ↔ IsAcceptedEvaluation e
unfolding validate_optional validate_evaluation_options validate_dataset
evaluation_iff none = (λ e. tt, λ e. refl)
evaluation_iff (some e) = and_both _ _ (Unique-iff (map (λ d. d.dataset_id) e.datasets)) (
    and_both _ _ (writers_iff e.result_writers) (
      all_iff _ _
        (λ d. and_both _ _ (IsPositive-iff d.batch_size) (IsPositive-iff d.dataloader_workers))
        e.datasets))

any_iff :
    (x : String) (ds : List EvaluationDataset)
    → (any (λ d. same_text d.dataset_id x) ds ≡ true) ↔ In x (map (λ d. d.dataset_id) ds)
any_iff x [] = (λ e. cc e, λ e. absurd e)
any_iff x (d ∷ ds) =
    let o = or_iff (same_text d.dataset_id x) (any (λ d. same_text d.dataset_id x) ds) in
    let s = same_text_iff d.dataset_id x in
    let r = any_iff x ds in
    (
      λ e. elim (o.0 e) [ inl f ↦ inl (sym (s.0 f)) | inr f ↦ inr (r.0 f) ],
      λ e. o.1 (elim e [ inl f ↦ inl (s.1 (sym f)) | inr f ↦ inr (r.1 f) ]),
    )

pub matrix_iff :
    (x : String) (e : Option EvaluationConfig) (m : Bool)
    → (validate_matrix x e m ≡ true) ↔ IsEvaluated x e m
unfolding validate_matrix
matrix_iff x none false = (λ e. tt, λ e. refl)
matrix_iff x (some e) false = (λ e. tt, λ e. refl)
matrix_iff x none true = (λ e. cc e, λ e. absurd e)
matrix_iff x (some e) true = any_iff x e.datasets
