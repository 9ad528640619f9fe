-- ===== src/TrainerServer/Raised.antt =====
-- What the reading of the queues can raise.
use modyn.TrainerServer.{Reply, status, model_state, AvailableQueues, training, downsampling}
use modyn.TrainerServer.Queues.{
  Status, Process, Actions, read_status, take_status, get_status, Values, second_downsampling,
  second_training, handle_was_training, handle_was_not_training, get_values_from_queues,
}
use modyn.Prelude.{
  if◌then◌else◌, value_error, type_error, Result, ok, raise, ◌>>=◌, ◌≡◌, refl, ◌⊎◌, inl, Bool, true,
  false, none, some, List, [], ◌∷◌,
}

-- What is returned satisfies a predicate, and what is raised is a TypeError or a ValueError.
abbrev pub Answers : {A : Type 0} → (A → Type 0) → Result A → Type 0
Answers P (ok a) = P a
Answers P (raise e) = (e ≡ type_error) ⊎ (e ≡ value_error)

pub Answers-bind :
    {A B : Type 0} (P : A → Type 0) (Q : B → Type 0) (m : Result A) (f : A → Result B)
    → Answers P m
    → ((a : A) → P a → Answers Q (f a))
    → Answers Q (m >>= f)
Answers-bind P Q (ok a) f h g = g a h
Answers-bind P Q (raise e) f h g = h

abbrev pub Any : {A : Type 0} → A → Type 0
Any a = Unit

Answers-take_status :
    (q : AvailableQueues) (replies : List Reply) (p : Process)
    → Answers Any (take_status q replies p)
unfolding take_status read_status
Answers-take_status q [] p = tt
Answers-take_status q (status batches samples active ∷ later) p = tt
Answers-take_status q (model_state bytes ∷ later) p = inl refl

Answers-get_status :
    (q : AvailableQueues) (meanwhile : Actions) (p : Process)
    → Answers Any (get_status q meanwhile p)
unfolding get_status
Answers-get_status q meanwhile p = Answers-take_status q _ _

Answers-second_downsampling :
    (t : Status) (meanwhile : Actions) (p : Process)
    → Answers Any (second_downsampling t meanwhile p)
unfolding second_downsampling
Answers-second_downsampling none meanwhile p =
    Answers-bind Any Any _ _ (Answers-get_status downsampling meanwhile p) (λ r h. tt)
Answers-second_downsampling (some t) meanwhile p = tt

Answers-second_training :
    (t : Status) (meanwhile : Actions) (p : Process) → Answers Any (second_training t meanwhile p)
unfolding second_training
Answers-second_training none meanwhile p =
    Answers-bind Any Any _ _ (Answers-get_status training meanwhile p) (λ r h. tt)
Answers-second_training (some t) meanwhile p = tt

pub Answers-get_values_from_queues :
    (first second : Actions) (p : Process) → Answers Any (get_values_from_queues first second p)
unfolding get_values_from_queues handle_was_training handle_was_not_training
Answers-get_values_from_queues first second p =
    Answers-bind Any Any _ _
      (chosen p.was_training _ _
        (Answers-bind Any Any _ _ (Answers-get_status training first p)
          (λ r h. Answers-second_downsampling r.0 second _))
        (Answers-bind Any Any _ _ (Answers-get_status downsampling first p)
          (λ r h. Answers-second_training r.0 second _)))
      (λ r h. tt)
  where
    chosen :
        (b : Bool) (m n : Result (Values × Process))
        → Answers Any m
        → Answers Any n
        → Answers Any (if b then m else n)
    chosen true m n x y = x
    chosen false m n x y = y
