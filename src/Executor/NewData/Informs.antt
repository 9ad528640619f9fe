-- ===== src/Executor/NewData/Informs.antt =====
-- What an action of the executor hands to the selector: a specification of actions, with one rule for
-- each way to build one.
use modyn.Executor.State.{
  PipelineStage, Submsg, Call, inform_selector, inform_selector_and_trigger, State, Exec, pure,
  gets, modify, ◌>>=◌, update_stage, ask, tell,
}
use modyn.Prelude.{
  if◌then◌else◌, ok, ℕ, ◌+◌, ◌≡◌, refl, sym, ap, ◌∙◌, subst, Bool, true, false, List, [], ◌∷◌, ◌++◌,
  append-nil, append_assoc, arith,
}
use modyn.Data.{DataPoint}

abbrev pub payload : Call → List DataPoint
payload (inform_selector points) = points
payload (inform_selector_and_trigger points) = points
payload _ = []

-- All data points that the selector was informed about, oldest first.
abbrev pub informed : List Call → List DataPoint
informed [] = []
informed (call ∷ calls) = payload call ++ informed calls

pub informed-append :
    (calls later : List Call) → informed (calls ++ later) ≡ informed calls ++ informed later
informed-append [] later = refl
informed-append (call ∷ calls) later =
    ap (λ points. payload call ++ points) (informed-append calls later)
    ∙ sym (append_assoc (payload call) (informed calls) (informed later))

-- From any state `m` returns, and informs the selector about `points`, and nothing else; it counts
-- `fired` triggers, and leaves the trigger and the batch size alone.
pub record Informs {T A : Type 0} (points : List DataPoint) (fired : ℕ) (m : Exec T A)
    : Type 0 where
  pub at :
      (s : State T)
      → (a : A) × (s' : State T) × (m s ≡ (ok a, s'))
        × (informed s'.calls ≡ informed s.calls ++ points)
        × (s'.num_triggers ≡ s.num_triggers + fired)
        × (s'.trigger ≡ s.trigger)
        × (s'.selector_batch_size ≡ s.selector_batch_size)

plus_zero : (n : ℕ) → n ≡ n + 0
plus_zero n = omega arith

module _ {T : Type 0} where
  pub Informs-pure : {A : Type 0} (a : A) → Informs {T = T} [] 0 (pure a)
  unfolding pure
  Informs-pure a = record {
    at = λ s.
        (a, s, refl, sym (append-nil (informed s.calls)), plus_zero s.num_triggers, refl, refl);
  }

  pub Informs-gets : {A : Type 0} (f : State T → A) → Informs [] 0 (gets f)
  unfolding gets
  Informs-gets f = record {
    at = λ s.
        (f s, s, refl, sym (append-nil (informed s.calls)), plus_zero s.num_triggers, refl, refl);
  }

  pub Informs-update_stage :
      (stage : PipelineStage) (submsg : Submsg) → Informs {T = T} [] 0 (update_stage stage submsg)
  unfolding update_stage
  Informs-update_stage stage submsg = record {
    at = λ s.
        (tt, _, refl, sym (append-nil (informed s.calls)), plus_zero s.num_triggers, refl, refl);
  }

  pub Informs-ask :
      {A : Type 0} (call : Call) (answer : List Call → A)
      → Informs {T = T} (payload call) 0 (ask call answer)
  unfolding ask
  Informs-ask call answer = record {
    at = λ s. (
      _,
      _,
      refl,
      informed-append s.calls (call ∷ [])
          ∙ ap (λ points. informed s.calls ++ points) (append-nil (payload call)),
      plus_zero s.num_triggers,
      refl,
      refl,
    );
  }

  pub Informs-tell : (call : Call) → Informs {T = T} (payload call) 0 (tell call)
  unfolding tell
  Informs-tell call = Informs-ask call (λ _. tt)

  pub Informs-if :
      {A : Type 0} {points : List DataPoint} {fired : ℕ} (b : Bool) (m n : Exec T A)
      → Informs points fired m
      → Informs points fired n
      → Informs points fired (if b then m else n)
  Informs-if true m n hm hn = hm
  Informs-if false m n hm hn = hn

  pub Informs-bind :
      {A B : Type 0} (points later : List DataPoint) (fired more : ℕ) (m : Exec T A)
      (f : A → Exec T B)
      → Informs points fired m
      → ((a : A) → Informs later more (f a))
      → Informs (points ++ later) (fired + more) (m >>= f)
  unfolding ◌>>=◌
  Informs-bind points later fired more m f hm hf = record {
    at = λ s.
        let (a, s', run, data', count, same, size) = hm.at s in
        let (b, s'', run', data'', count', same', size') = (hf a).at s' in
        (
          b,
          s'',
          rw (run, run'),
          data'' ∙ ap (λ d. d ++ later) data' ∙ append_assoc (informed s.calls) points later,
          omega (arith, count, count'),
          same' ∙ same,
          size' ∙ size,
        );
  }

  -- An action that informs the selector about nothing, before others.
  pub Informs-then :
      {A B : Type 0} {later : List DataPoint} {more : ℕ} (m : Exec T A) (f : A → Exec T B)
      → Informs [] 0 m
      → ((a : A) → Informs later more (f a))
      → Informs later more (m >>= f)
  Informs-then {later = later} {more = more} m f hm hf =
      subst (λ k. Informs later k (m >>= f)) (zero_plus more)
        (Informs-bind [] later 0 more m f hm hf)
    where
      zero_plus : (n : ℕ) → 0 + n ≡ n
      zero_plus n = omega arith

  pub Informs-modify :
      (f : State T → State T)
      → ((s : State T)
          → ((f s).calls ≡ s.calls)
            × ((f s).num_triggers ≡ s.num_triggers)
            × ((f s).trigger ≡ s.trigger)
            × ((f s).selector_batch_size ≡ s.selector_batch_size))
      → Informs [] 0 (modify f)
  unfolding modify
  Informs-modify f keeps = record {
    at = λ s.
        let (calls, count, same, size) = keeps s in
        (
          tt,
          f s,
          refl,
          ap informed calls ∙ sym (append-nil (informed s.calls)),
          count ∙ plus_zero s.num_triggers,
          same,
          size,
        );
  }

  -- Calls that carry no data points.
  pub Informs-ask_other :
      {A : Type 0} (call : Call) (answer : List Call → A)
      → payload call ≡ []
      → Informs {T = T} [] 0 (ask call answer)
  Informs-ask_other call answer none_carried =
      subst (λ points. Informs {T = T} points 0 (ask call answer)) none_carried
        (Informs-ask call answer)

  pub Informs-tell_other : (call : Call) → payload call ≡ [] → Informs {T = T} [] 0 (tell call)
  unfolding tell
  Informs-tell_other call none_carried = Informs-ask_other call (λ _. tt) none_carried

  pub Informs-cast :
      {A : Type 0} {points : List DataPoint} {fired : ℕ} (points' : List DataPoint) (fired' : ℕ)
      (m : Exec T A)
      → points ≡ points'
      → fired ≡ fired'
      → Informs points fired m
      → Informs points' fired' m
  Informs-cast {fired = fired} points' fired' m same count hm =
      subst (λ k. Informs points' k m) count (subst (λ p. Informs p fired m) same hm)

  pub Informs-count :
      Informs {T = T} [] 1 (modify (λ s. record s { num_triggers = s.num_triggers + 1 }))
  unfolding modify
  Informs-count = record {
    at = λ s. (tt, _, refl, sym (append-nil (informed s.calls)), refl, refl, refl);
  }

  -- A look at the state that finds the same value in every state.
  pub Informs-gets_const :
      {A B : Type 0} {points : List DataPoint} {fired : ℕ} (f : State T → A) (a : A)
      (k : A → Exec T B)
      → ((s : State T) → f s ≡ a)
      → Informs points fired (k a)
      → Informs points fired (gets f >>= k)
  unfolding ◌>>=◌ gets
  Informs-gets_const f a k same hk = record {
    at = λ s.
        let (b, s', run, data', count, kept, size) = hk.at s in
        (b, s', rw (same s) run, data', count, kept, size);
  }

pub ruleset informs_rules = (
  Informs-pure, Informs-gets, Informs-update_stage, Informs-ask_other, Informs-tell_other,
  Informs-modify, Informs-if, Informs-then,
)
