-- ===== src/Executor/NewData/Conserved.antt =====
-- What the branches of a batch hand to the selector.
use modyn.Executor.State.{inform_selector, Cluster, Config, tell_selector}
use modyn.Executor.Training.{evaluate_model, run_training}
use modyn.Executor.NewData.Informs.{
  Informs, Informs-pure, Informs-update_stage, Informs-ask, Informs-tell, Informs-bind,
  Informs-then, Informs-ask_other, Informs-cast, Informs-count, Informs-gets_const, informs_rules,
}
use modyn.Executor.NewData.{
  reached, train_on, inform_remaining, handle_trigger, trigger_loop, handle_triggers_within_batch,
  handle_indices,
}
use modyn.Triggers.Interface.{IsOrdered, Trigger}
use modyn.Prelude.Int.{ℤ, after}
use modyn.Data.{DataPoint}
use modyn.Prelude.{
  length, drop, slice, slice-append-drop, ℕ, ◌+◌, ◌≡◌, refl, ap, ◌∙◌, true, false, none, List, [],
  ◌∷◌, ◌++◌, append-nil, arith,
}

module _ {T : Type 0} (cluster : Cluster) (config : Config) where
  evaluate_model-Informs :
      (trigger_id training_id model_id : ℕ)
      → Informs {T = T} [] 0 (evaluate_model cluster config trigger_id training_id model_id)
  unfolding evaluate_model
  evaluate_model-Informs trigger_id training_id model_id = search informs_rules depth 12

  run_training-Informs :
      (trigger_id : ℕ) → Informs {T = T} [] 0 (run_training cluster config trigger_id)
  unfolding run_training
  run_training-Informs trigger_id = search (informs_rules, evaluate_model-Informs) depth 24

-- The points that `inform_remaining` hands on.
abbrev rest_of : List ℤ → List DataPoint → List DataPoint
rest_of [] remaining = remaining
rest_of (i ∷ later) remaining = []

module _ (trigger : Trigger) (cluster : Cluster) (config : Config) where
  train_on-Informs :
      (trigger_id num_samples : ℕ)
      → Informs [] 0 (train_on trigger cluster config trigger_id num_samples)
  unfolding train_on
  train_on-Informs trigger_id num_samples =
      search (informs_rules, run_training-Informs cluster config) depth 12

  inform_remaining-Informs :
      (trigger_id : ℕ) (later : List ℤ) (remaining : List DataPoint)
      → Informs
          (rest_of later remaining)
          0
          (inform_remaining trigger cluster config trigger_id later remaining)
  unfolding inform_remaining tell_selector
  inform_remaining-Informs trigger_id (i ∷ later) remaining = Informs-pure tt
  inform_remaining-Informs trigger_id [] [] = Informs-pure tt
  inform_remaining-Informs trigger_id [] (d ∷ ds) =
      Informs-then _ _ (Informs-update_stage _ _) (λ _. Informs-tell (inform_selector (d ∷ ds)))

  handle_trigger-Informs :
      (batch : List DataPoint) (previous : ℕ) (i : ℤ) (later : List ℤ)
      → Informs
          (slice batch previous (after i) ++ rest_of later (drop (after i) batch))
          1
          (handle_trigger trigger cluster config batch previous i later)
  unfolding handle_trigger
  handle_trigger-Informs batch previous i later = Informs-then _ _ (Informs-update_stage _ _) λ _.
      Informs-cast _ _ _ refl zero_one (
        Informs-bind _ _ 0 1 _ _ (Informs-ask _ cluster.trigger_id) λ trigger_id.
          Informs-then _ _ (Informs-ask_other _ cluster.num_samples refl) λ num_samples.
            Informs-then _ _ (train_on-Informs trigger_id num_samples) λ _.
              Informs-cast _ _ _ (append-nil _) zero_one (
                Informs-bind _ [] 0 1 _ _ (inform_remaining-Informs trigger_id later _)
                  λ _. Informs-count))
    where
      zero_one : 0 + 1 ≡ 1
      zero_one = refl

  module _ (unlimited : config.maximum_triggers ≡ none) where
    pub reached-unlimited : (n : ℕ) → reached config n ≡ false
    unfolding reached
    reached-unlimited n = rw unlimited

    trigger_loop-Informs :
        (batch : List DataPoint) (previous : ℕ) (i : ℤ) (later : List ℤ)
        → IsOrdered previous (i ∷ later) (length batch)
        → Informs
            (drop previous batch)
            (length (i ∷ later))
            (trigger_loop trigger cluster config batch previous (i ∷ later))
    unfolding trigger_loop
    trigger_loop-Informs batch previous i [] (from, within, _) =
        Informs-cast _ _ _ (append-nil _ ∙ slice-append-drop batch previous (after i) from) one (
          Informs-bind _ [] 1 0 _ _ (handle_trigger-Informs batch previous i []) λ _.
            Informs-gets_const _ false _ (λ s. reached-unlimited s.num_triggers) (Informs-pure tt))
      where
        one : 1 + 0 ≡ 1
        one = refl
    trigger_loop-Informs batch previous i (j ∷ later) (from, within, rest) =
        Informs-cast _ _ _
          (ap (λ p. p ++ drop (after i) batch) (append-nil _)
            ∙ slice-append-drop batch previous (after i) from)
          (omega arith)
          (Informs-bind _ (drop (after i) batch) 1 (length (j ∷ later)) _ _
            (handle_trigger-Informs batch previous i (j ∷ later))
            λ _.
              Informs-gets_const _ false _ (λ s. reached-unlimited s.num_triggers)
                (trigger_loop-Informs batch (after i) j later rest))

    -- What one batch does once the trigger has answered.
    pub handle_indices-Informs :
        (d : DataPoint) (ds : List DataPoint) (indices : List ℤ)
        → IsOrdered 0 indices (length (d ∷ ds))
        → Informs (d ∷ ds) (length indices) (handle_indices trigger cluster config (d ∷ ds) indices)
    unfolding handle_indices tell_selector handle_triggers_within_batch
    handle_indices-Informs d ds [] ordered = Informs-cast _ _ _ (append-nil _) refl (
        Informs-bind (d ∷ ds) [] 0 0 _ _ (Informs-tell (inform_selector (d ∷ ds)))
          λ _. Informs-pure false)
    handle_indices-Informs d ds (i ∷ is) ordered = Informs-cast _ _ _ (append-nil _) (omega arith) (
        Informs-bind (d ∷ ds) [] (length (i ∷ is)) 0 _ _
          (Informs-then _ _ (Informs-update_stage _ _)
            λ _. trigger_loop-Informs (d ∷ ds) 0 i is ordered)
          λ _. Informs-pure true)
