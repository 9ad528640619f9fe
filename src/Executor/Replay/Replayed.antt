-- ===== src/Executor/Replay/Replayed.antt =====
-- What `replay_data` hands to the selector.
use modyn.Executor.State.{
  replay_data_stage, replay_data_done, dataset, Call, get_new_data_since, get_data_in_interval,
  Cluster, Config, State, Exec, modify, throw, ◌>>=◌, ◌>>◌, update_stage, ask,
}
use modyn.Executor.NewData.{sort_by_timestamp}
use modyn.Executor.NewData.Informs.{
  payload, informed, informed-append, Informs-pure, Informs-update_stage,
}
use modyn.Executor.NewData.Stream.{
  Hands, Hands-Informs, Hands-bind, Hands-unlimited, handle_new_data-Hands,
}
use modyn.Executor.Replay.{replay_loop, replay_generator, replay_from, replay_data}
use modyn.Triggers.Interface.{Trigger}
use modyn.Prelude.{
  Option-cases, concat, assertion_error, Result, ok, ℕ, ◌<◌, ◌≡◌, ap, ◌∙◌, inl, inr, Option, none,
  some, List, [], ◌∷◌, ◌++◌, map, append-nil,
}
use modyn.Data.{DataPoint}

module _ (trigger : Trigger) (cluster : Cluster) (config : Config)
    (unlimited : config.maximum_triggers ≡ none) (size : ℕ) (positive : 0 < size) where
  replay_loop-Hands :
      (chunks : List (List DataPoint))
      → Hands trigger cluster config unlimited size positive
          (concat (map sort_by_timestamp chunks))
          (replay_loop trigger cluster config chunks)
  unfolding replay_loop
  replay_loop-Hands [] =
      Hands-Informs trigger cluster config unlimited size positive _ (Informs-pure tt)
  replay_loop-Hands (chunk ∷ chunks) =
      Hands-bind trigger cluster config unlimited size positive _ _ _ _
        (handle_new_data-Hands trigger cluster config unlimited size positive chunk)
        λ _.
          Hands-unlimited trigger cluster config unlimited size positive _ _
            (replay_loop-Hands chunks)

  -- The request that a replay sends.
  abbrev pub replay_request : ℕ → Call
  replay_request start = elim config.stop_replay_at [
    | none ↦ get_new_data_since start
    | some stop ↦ get_data_in_interval start stop
  ]

  replay_generator_eq :
      (start : ℕ)
      → replay_generator trigger cluster config start
        ≡ ask (replay_request start) cluster.data_chunks
  unfolding replay_generator
  replay_generator_eq start = elim (Option-cases config.stop_replay_at) [
    | inl none_set ↦ rw none_set
    | inr (stop, set) ↦ rw set
  ]

  request_carries_none :
      (start : ℕ) (calls : List Call)
      → informed (calls ++ replay_request start ∷ []) ≡ informed calls
  request_carries_none start calls =
      informed-append calls (replay_request start ∷ [])
      ∙ ap (λ p. informed calls ++ p) (append-nil (payload (replay_request start)) ∙ carries)
      ∙ append-nil (informed calls)
    where
      carries : payload (replay_request start) ≡ []
      carries = elim (Option-cases config.stop_replay_at) [
        | inl none_set ↦ rw none_set
        | inr (stop, set) ↦ rw set
      ]

  -- The state once the storage has answered.
  requested : ℕ → State trigger.State → State trigger.State
  requested start s = record s {
    stage = replay_data_stage;
    messages = s.messages ++ (replay_data_stage, dataset config.dataset_id) ∷ [];
    calls = s.calls ++ replay_request start ∷ [];
  }

  replay_from_eq :
      (start : ℕ) (s : State trigger.State)
      → replay_from trigger cluster config start s
        ≡ (replay_loop trigger cluster config
                (cluster.data_chunks (s.calls ++ replay_request start ∷ []))
              >> update_stage replay_data_done (dataset config.dataset_id))
            (requested start s)
  unfolding replay_from update_stage ask requested ◌>>=◌ modify
  replay_from_eq start s = rw (replay_generator_eq start)

  replay_data_eq :
      (start : ℕ) (s : State trigger.State)
      → config.start_replay_at ≡ some start
      → replay_data trigger cluster config s ≡ replay_from trigger cluster config start s
  unfolding replay_data
  replay_data_eq start s starts = ap (replay_at s) starts
    where
      replay_at : State trigger.State → Option ℕ → Result (Unit {0}) × State trigger.State
      replay_at s' o =
          (elim o as (λ x. Exec trigger.State (Unit {0})) [
            | none ↦ throw assertion_error
            | some start' ↦ replay_from trigger cluster config start'
          ])
            s'

  -- In a configuration with a start of the replay and without a limit on the triggers, from a state
  -- with a positive batch size and a valid trigger, `replay_data` returns. It sends one request, for
  -- the data since the start or for the interval, and informs the selector about each data point of
  -- each chunk of the answer exactly once: chunk after chunk, each in the order of its timestamps.
  pub replay_data-conserves :
      (start : ℕ) (s : State trigger.State)
      → config.start_replay_at ≡ some start
      → trigger.IsValid s.trigger
      → s.selector_batch_size ≡ size
      → (s' : State trigger.State) × (replay_data trigger cluster config s ≡ (ok tt, s'))
        × (informed s'.calls
            ≡ informed s.calls
              ++ concat (
                  map sort_by_timestamp
                    (cluster.data_chunks (s.calls ++ replay_request start ∷ []))))
        × (trigger.IsValid s'.trigger × (s'.selector_batch_size ≡ size))
  unfolding requested
  replay_data-conserves start s starts valid kept =
      let chunks = cluster.data_chunks (s.calls ++ replay_request start ∷ []) in
      let (a, s', run, data', ready) =
        (Hands-bind trigger cluster config unlimited size positive _ [] _ _
            (replay_loop-Hands chunks)
            λ _.
              Hands-Informs trigger cluster config unlimited size positive _
                (Informs-update_stage replay_data_done (dataset config.dataset_id))).at
          (requested start s) (valid, kept) in
      (
        s',
        replay_data_eq start s starts ∙ replay_from_eq start s ∙ run,
        data'
            ∙ ap (λ p. informed (requested start s).calls ++ p) (append-nil _)
            ∙ ap (λ p. p ++ concat (map sort_by_timestamp chunks))
                (request_carries_none start s.calls),
        ready,
      )
