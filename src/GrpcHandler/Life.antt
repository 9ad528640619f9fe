-- ===== src/GrpcHandler/Life.antt =====
-- A process without its queues: whether it is alive, and the exceptions that it has put. Queues
-- that hold no query for the model hold statuses only.
use modyn.TrainerServer.{
  Bytes, Query, status_query, model_state_query, Reply, status, model_state, AvailableQueues,
  training, downsampling, Action, update, fail, exit, Channel, queues_of, set_queues,
  send_model_state_to_server, answered, update_queue, act, run,
}
use modyn.TrainerServer.Queues.{Process, Actions}
use Prim.Native.String.{String}
use modyn.Prelude.{
  if◌then◌else◌, Bool-cases, All, All-append, ℕ, ◌≡◌, refl, sym, ap, ◌∙◌, inl, inr, Bool, true,
  false, List, [], ◌∷◌, ◌++◌,
}

abbrev pub Life : Type 0
Life = Bool × List String

unfoldable pub beat : Action → Life → Life
beat (update queue_name batches samples active bytes) l = l
beat (fail message) l = (l.0, l.1 ++ message ∷ [])
beat exit l = (false, l.1)

unfoldable pub live : Actions → Life → Life
live [] l = l
live (a ∷ actions) l = if l.0 then live actions (beat a l) else l

abbrev pub life : Process → Life
life p = (p.alive, p.exception_queue)

pub live_dead : (actions : Actions) (l : Life) → l.0 ≡ false → live actions l ≡ l
unfolding live
live_dead [] l e = refl
live_dead (a ∷ actions) l e = rw e refl

pub live-append : (xs ys : Actions) (l : Life) → live (xs ++ ys) l ≡ live ys (live xs l)
unfolding live
live-append [] ys l = refl
live-append (a ∷ xs) ys (true, messages) = live-append xs ys (beat a (true, messages))
live-append (a ∷ xs) ys (false, messages) = sym (live_dead ys (false, messages) refl)

abbrev pub Asks : Query → Type 0
Asks status_query = Unit
Asks model_state_query = ⊥

abbrev pub Tells : Reply → Type 0
Tells (status batches samples active) = Unit
Tells (model_state bytes) = ⊥

abbrev pub HasStatuses : Channel → Type 0
HasStatuses c = All Asks c.queries × All Tells c.replies

abbrev pub IsClean : Process → Type 0
IsClean p = HasStatuses p.training_queues × HasStatuses p.downsampling_queues

pub IsClean-set_queues :
    (q : AvailableQueues) (c : Channel) (p : Process)
    → IsClean p
    → HasStatuses c
    → IsClean (set_queues q c p)
unfolding set_queues
IsClean-set_queues training c p h g = (g, h.1)
IsClean-set_queues downsampling c p h g = (h.0, g)

pub HasStatuses-queues_of :
    (q : AvailableQueues) (p : Process) → IsClean p → HasStatuses (queues_of q p)
unfolding queues_of
HasStatuses-queues_of training p h = h.0
HasStatuses-queues_of downsampling p h = h.1

pub life-set_queues :
    (q : AvailableQueues) (c : Channel) (p : Process) → life (set_queues q c p) ≡ life p
unfolding set_queues
life-set_queues training c p = refl
life-set_queues downsampling c p = refl

IsClean-answered :
    (q : AvailableQueues) (batches samples : ℕ) (active : Bool) (bytes : Bytes) (qs : List Query)
    (p : Process)
    → IsClean p
    → All Asks qs
    → IsClean (answered q batches samples active bytes qs p)
unfolding answered
IsClean-answered q batches samples active bytes [] p h a = h
IsClean-answered q batches samples active bytes (status_query ∷ later) p h a =
    let c = HasStatuses-queues_of q p h in
    IsClean-set_queues q _ p h (
      a.1,
      All-append Tells (queues_of q p).replies (status batches samples active ∷ []) c.1 (tt, tt),
    )
IsClean-answered q batches samples active bytes (model_state_query ∷ later) p h a = absurd a.0

life-sent : (bytes : Bytes) (p : Process) → life (send_model_state_to_server bytes p) ≡ life p
unfolding send_model_state_to_server
life-sent bytes p = refl

life-answered :
    (q : AvailableQueues) (batches samples : ℕ) (active : Bool) (bytes : Bytes) (qs : List Query)
    (p : Process)
    → life (answered q batches samples active bytes qs p) ≡ life p
unfolding answered
life-answered q batches samples active bytes [] p = refl
life-answered q batches samples active bytes (status_query ∷ later) p = life-set_queues q _ p
life-answered q batches samples active bytes (model_state_query ∷ later) p =
    life-sent bytes _ ∙ life-set_queues q _ p

IsClean-act : (a : Action) (p : Process) → IsClean p → IsClean (act a p)
unfolding act update_queue
IsClean-act (update q batches samples active bytes) p h =
    IsClean-answered q batches samples active bytes _ p h (HasStatuses-queues_of q p h).0
IsClean-act (fail message) p h = h
IsClean-act exit p h = h

life-act : (a : Action) (p : Process) → life (act a p) ≡ beat a (life p)
unfolding act update_queue beat
life-act (update q batches samples active bytes) p =
    life-answered q batches samples active bytes _ p
life-act (fail message) p = refl
life-act exit p = refl

pub IsClean-run : (actions : Actions) (p : Process) → IsClean p → IsClean (run actions p)
unfolding run
IsClean-run [] p h = h
IsClean-run (a ∷ actions) p h = elim (Bool-cases p.alive) [
  | inl e ↦ simp e (IsClean-run actions (act a p) (IsClean-act a p h))
  | inr e ↦ simp e h
]

pub life-run : (actions : Actions) (p : Process) → life (run actions p) ≡ live actions (life p)
unfolding run live
life-run [] p = refl
life-run (a ∷ actions) p =
    guarded p.alive (run actions (act a p)) (live actions (beat a (life p)))
      (life-run actions (act a p) ∙ ap (live actions) (life-act a p))
  where
    guarded :
        (b : Bool) (q : Process) (l : Life)
        → life q ≡ l
        → life (if b then q else p) ≡ (if b then l else life p)
    guarded true q l e = e
    guarded false q l e = refl
