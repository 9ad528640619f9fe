-- ===== src/GrpcHandler/Reading.antt =====
-- What a process goes through while the server reads its queues.
use modyn.TrainerServer.{
  status_query, Reply, status, model_state, AvailableQueues, training, downsampling, queues_of,
  set_queues, run,
}
use modyn.TrainerServer.Queues.{
  Status, Process, Actions, put_query, read_status, take_status, get_status, clean_queue, is_active,
  Values, second_downsampling, second_training, handle_was_training, handle_was_not_training,
  set_was_training, get_values_from_queues,
}
use modyn.GrpcHandler.Life.{
  Life, live, life, Asks, Tells, IsClean, IsClean-set_queues, HasStatuses-queues_of,
  life-set_queues, IsClean-run, life-run,
}
use modyn.Prelude.{
  if◌then◌else◌, All, All-append, Result, ok, ◌>>=◌, ◌≡◌, refl, ap, ◌∙◌, subst, Bool, true, false,
  Option, none, some, List, [], ◌∷◌, ◌++◌,
}

-- A read that returns, of a clean process that has lived through the actions.
abbrev pub Reads : {A : Type 0} → Result (A × Process) → Life → Type 0
Reads {A} m l = (a : A) × (p : Process) × (m ≡ ok (a, p)) × IsClean p × (life p ≡ l)

Reads-bind :
    {A B : Type 0} (m : Result (A × Process)) (f : A × Process → Result (B × Process)) (l k : Life)
    → Reads m l
    → ((a : A) (p : Process) → IsClean p → life p ≡ l → Reads (f (a, p)) k)
    → Reads (m >>= f) k
Reads-bind m f l k r next =
    let t = next r.0 r.1 r.3 r.4 in (t.0, t.1, ap (λ x. x >>= f) r.2 ∙ t.2, t.3, t.4)

Reads-take_status :
    (q : AvailableQueues) (replies : List Reply) (p : Process)
    → IsClean p
    → All Tells replies
    → Reads (take_status q replies p) (life p)
unfolding take_status read_status
Reads-take_status q [] p h t = (none, p, refl, h, refl)
Reads-take_status q (status batches samples active ∷ later) p h t = (
  some (batches, samples, active),
  set_queues q (record (queues_of q p) { replies = later }) p,
  refl,
  IsClean-set_queues q _ p h ((HasStatuses-queues_of q p h).0, t.1),
  life-set_queues q _ p,
)
Reads-take_status q (model_state bytes ∷ later) p h t = absurd t.0

pub Reads-get_status :
    (q : AvailableQueues) (meanwhile : Actions) (p : Process)
    → IsClean p
    → Reads (get_status q meanwhile p) (live meanwhile (life p))
unfolding get_status put_query
Reads-get_status q meanwhile p h =
    let c = queues_of q p in
    let asked = set_queues q (record c { queries = c.queries ++ status_query ∷ [] }) p in
    let known = HasStatuses-queues_of q p h in
    let clean = IsClean-run meanwhile asked (
      IsClean-set_queues q _ p h
        (All-append Asks c.queries (status_query ∷ []) known.0 (tt, tt), known.1)) in
    let waited = run meanwhile asked in
    subst (λ l. Reads (take_status q (queues_of q waited).replies waited) l)
      (life-run meanwhile asked ∙ ap (live meanwhile) (life-set_queues q _ p))
      (Reads-take_status q (queues_of q waited).replies waited clean
        (HasStatuses-queues_of q waited clean).1)

Reads-second_downsampling :
    (s : Status) (meanwhile : Actions) (p : Process)
    → IsClean p
    → Reads (second_downsampling s meanwhile p) (live meanwhile (life p))
unfolding second_downsampling
Reads-second_downsampling none meanwhile p h =
    Reads-bind _ _ _ _ (Reads-get_status downsampling meanwhile p h)
      (λ s p' c e. (_, p', refl, c, e))
Reads-second_downsampling (some s) meanwhile p h =
    (_, run meanwhile p, refl, IsClean-run meanwhile p h, life-run meanwhile p)

Reads-second_training :
    (s : Status) (meanwhile : Actions) (p : Process)
    → IsClean p
    → Reads (second_training s meanwhile p) (live meanwhile (life p))
unfolding second_training
Reads-second_training none meanwhile p h =
    Reads-bind _ _ _ _ (Reads-get_status training meanwhile p h) (λ s p' c e. (_, p', refl, c, e))
Reads-second_training (some s) meanwhile p h =
    (_, run meanwhile p, refl, IsClean-run meanwhile p h, life-run meanwhile p)

IsClean-clean_queue :
    (q : AvailableQueues) (p : Process)
    → IsClean p
    → IsClean (clean_queue q p) × (life (clean_queue q p) ≡ life p)
unfolding clean_queue
IsClean-clean_queue q p h =
    (IsClean-set_queues q _ p h ((HasStatuses-queues_of q p h).0, tt), life-set_queues q _ p)

cleaned_if :
    (b : Bool) (q : AvailableQueues) (p : Process)
    → IsClean p
    → (let p' = if b then clean_queue q p else p in IsClean p' × (life p' ≡ life p))
cleaned_if true q p h = IsClean-clean_queue q p h
cleaned_if false q p h = (h, refl)

cleaned_unless :
    (b : Bool) (q : AvailableQueues) (p : Process)
    → IsClean p
    → (let p' = if b then p else clean_queue q p in IsClean p' × (life p' ≡ life p))
cleaned_unless true q p h = (h, refl)
cleaned_unless false q p h = IsClean-clean_queue q p h

Reads-handle_was_training :
    (first second : Actions) (p : Process)
    → IsClean p
    → Reads (handle_was_training first second p) (live second (live first (life p)))
unfolding handle_was_training
Reads-handle_was_training first second p h =
    Reads-bind _ _ _ _ (Reads-get_status training first p h) (λ s p' clean e.
      let c = cleaned_unless (is_active s) training p' clean in
      let t = Reads-second_downsampling s second _ c.0 in
      (t.0, t.1, t.2, t.3, t.4 ∙ ap (live second) (c.1 ∙ e)))

Reads-handle_was_not_training :
    (first second : Actions) (p : Process)
    → IsClean p
    → Reads (handle_was_not_training first second p) (live second (live first (life p)))
unfolding handle_was_not_training
Reads-handle_was_not_training first second p h =
    Reads-bind _ _ _ _ (Reads-get_status downsampling first p h) (λ s p' clean e.
      let c = cleaned_if (is_active s) downsampling p' clean in
      let t = Reads-second_training s second _ c.0 in
      (t.0, t.1, t.2, t.3, t.4 ∙ ap (live second) (c.1 ∙ e)))

set_was_training-life :
    (b : Option Bool) (p : Process)
    → IsClean p
    → IsClean (set_was_training b p) × (life (set_was_training b p) ≡ life p)
unfolding set_was_training
set_was_training-life none p h = (h, refl)
set_was_training-life (some b) p h = (h, refl)

-- Of a clean process the values can always be read.
pub Reads-get_values_from_queues :
    (first second : Actions) (p : Process)
    → IsClean p
    → Reads (get_values_from_queues first second p) (live second (live first (life p)))
unfolding get_values_from_queues
Reads-get_values_from_queues first second p h =
    Reads-bind _ _ _ _
      (chosen p.was_training (Reads-handle_was_training first second p h)
        (Reads-handle_was_not_training first second p h))
      (λ v p' clean e.
        let w = set_was_training-life v.is_training p' clean in (v, _, refl, w.0, w.1 ∙ e))
  where
    chosen :
        (b : Bool) {m n : Result (Values × Process)} {l : Life}
        → Reads m l
        → Reads n l
        → Reads (if b then m else n) l
    chosen true x y = x
    chosen false x y = y
