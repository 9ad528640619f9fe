-- ===== src/Executor/Replay/Polls.antt =====
-- What one round of `wait_for_new_data` hands on, and what it remembers.
use modyn.Executor.State.{
  fetch_new_data, wait_for_new_data_stage, dataset, get_new_data_since, sleep, Cluster, Config,
  State, Exec, pure, gets, modify, ◌>>=◌, ◌>>◌, update_stage, ask, tell,
}
use modyn.Executor.NewData.Conserved.{reached-unlimited}
use modyn.Executor.NewData.{sort_by_timestamp, handle_new_data}
use modyn.Executor.NewData.Informs.{informed, informed-append}
use modyn.Executor.NewData.Stream.{IsReady, handle_new_data-Hands}
use modyn.Executor.Replay.{latest, chunk_loop, poll}
use modyn.Triggers.Interface.{Trigger}
use modyn.Prelude.{
  ◌==◌, if◌then◌else◌, filter_by, All, concat, mem, ok, ℕ, ◌<◌, ◌≡◌, refl, sym, ap, ◌∙◌, Bool, true,
  false, not, ◌&&◌, ◌||◌, none, List, [], ◌∷◌, ◌++◌, map, append-nil, append_assoc,
}
use modyn.Data.{DataPoint}

-- The items that a round does not know yet.
abbrev pub unseen : List ℕ → List DataPoint → List DataPoint
unseen previous chunk = filter_by (λ d. not (mem d.key previous)) chunk

module _ (trigger : Trigger) (cluster : Cluster) (config : Config)
    (unlimited : config.maximum_triggers ≡ none) (size : ℕ) (positive : 0 < size) where
  abbrev sorted_unseen : List ℕ → List (List DataPoint) → List DataPoint
  sorted_unseen previous chunks = concat (map (λ c. sort_by_timestamp (unseen previous c)) chunks)

  -- The keys that a chunk leaves to be remembered.
  newest_keys : ℕ → List DataPoint → List ℕ
  newest_keys last new_data =
      map (λ d. d.key) (filter_by (λ d. d.timestamp == latest last new_data) new_data)

  and_true : (b : Bool) → (b && true) ≡ b
  and_true true = refl
  and_true false = refl

  chunk_loop_step :
      (previous : List ℕ) (chunk : List DataPoint) (chunks : List (List DataPoint)) (last : ℕ)
      (largest : List ℕ) (occured running fired : Bool) (s s' : State trigger.State)
      → handle_new_data trigger cluster config (unseen previous chunk) s ≡ (ok fired, s')
      → chunk_loop trigger cluster config previous (chunk ∷ chunks) last largest occured running s
        ≡ chunk_loop trigger cluster config previous chunks
            (latest last (unseen previous chunk))
            (largest ++ newest_keys last (unseen previous chunk))
            (occured || fired)
            running
            s'
  unfolding chunk_loop ◌>>=◌ gets newest_keys
  chunk_loop_step previous chunk chunks last largest occured running fired s s' run =
      rw (run, reached-unlimited trigger cluster config unlimited s'.num_triggers, and_true running)

  chunk_loop_lem :
      (previous : List ℕ) (chunks : List (List DataPoint)) (last : ℕ) (largest : List ℕ)
      (occured running : Bool) (s : State trigger.State)
      → IsReady trigger cluster config unlimited size positive s
      → (newest : ℕ) × (keys : List ℕ) × (occured' : Bool) × (s' : State trigger.State)
        × (chunk_loop trigger cluster config previous chunks last largest occured running s
            ≡ (ok (newest, keys, occured', running), s'))
        × (informed s'.calls ≡ informed s.calls ++ sorted_unseen previous chunks)
        × IsReady trigger cluster config unlimited size positive s'
        × (All (λ c. unseen previous c ≡ []) chunks → (newest ≡ last) × (keys ≡ largest))
  unfolding chunk_loop ◌>>=◌ gets pure newest_keys
  chunk_loop_lem previous [] last largest occured running s ready = (
    last,
    largest,
    occured,
    s,
    refl,
    sym (append-nil (informed s.calls)),
    ready,
    λ h. (refl, refl),
  )
  chunk_loop_lem previous (chunk ∷ chunks) last largest occured running s ready =
      let (fired, s', run, data', ready') =
        (handle_new_data-Hands trigger cluster config unlimited size positive
            (unseen previous chunk)).at
          s ready in
      let (newest, keys, occured', s'', run', data'', ready'', known) =
        chunk_loop_lem previous chunks (latest last (unseen previous chunk))
          (largest ++ newest_keys last (unseen previous chunk)) (occured || fired) running s'
          ready' in
      (
        newest,
        keys,
        occured',
        s'',
        chunk_loop_step previous chunk chunks last largest occured running fired s s' run ∙ run',
        data''
            ∙ ap (λ d. d ++ sorted_unseen previous chunks) data'
            ∙ append_assoc (informed s.calls) (sort_by_timestamp (unseen previous chunk))
                (sorted_unseen previous chunks),
        ready'',
        λ h. (
          (known h.1).0 ∙ ap (latest last) h.0,
          (known h.1).1 ∙ ap (λ d. largest ++ newest_keys last d) h.0 ∙ append-nil largest,
        ),
      )

  -- The state once the storage has answered a round.
  polled : ℕ → State trigger.State → State trigger.State
  polled last s = record s {
    stage = fetch_new_data;
    messages = s.messages ++ (fetch_new_data, dataset config.dataset_id) ∷ [];
    calls = s.calls ++ get_new_data_since last ∷ [];
  }

  abbrev finish : ℕ → List ℕ → Bool → Bool → Exec trigger.State (ℕ × List ℕ × Bool)
  finish newest keys occured running =
      if occured
      then pure (newest, keys, running)
      else (update_stage wait_for_new_data_stage (dataset config.dataset_id)
          >> (tell sleep >> pure (newest, keys, running)))

  finish-Hands :
      (newest : ℕ) (keys : List ℕ) (occured running : Bool) (s : State trigger.State)
      → IsReady trigger cluster config unlimited size positive s
      → (s' : State trigger.State) × (finish newest keys occured running s
          ≡ (ok (newest, keys, running), s'))
        × (informed s'.calls ≡ informed s.calls)
        × IsReady trigger cluster config unlimited size positive s'
  unfolding pure tell ask update_stage ◌>>=◌
  finish-Hands newest keys true running s ready = (s, refl, refl, ready)
  finish-Hands newest keys false running s ready =
      (_, refl, informed-append s.calls (sleep ∷ []) ∙ append-nil (informed s.calls), ready)

  poll_eq :
      (last newest : ℕ) (previous keys : List ℕ) (occured running : Bool)
      (s s' : State trigger.State)
      → chunk_loop trigger cluster config previous
          (cluster.data_chunks (s.calls ++ get_new_data_since last ∷ []))
          last
          []
          false
          true
          (polled last s)
        ≡ (ok (newest, keys, occured, running), s')
      → poll trigger cluster config last previous s ≡ finish newest keys occured running s'
  unfolding poll ◌>>=◌ ask update_stage modify polled
  poll_eq last newest previous keys occured running s s' run = rw run

  poll_outcome :
      (last : ℕ) (previous : List ℕ) (s : State trigger.State)
      → trigger.IsValid s.trigger
      → s.selector_batch_size ≡ size
      → (newest : ℕ) × (keys : List ℕ) × (s' : State trigger.State) × (poll trigger cluster config
            last previous s
          ≡ (ok (newest, keys, true), s'))
        × (informed s'.calls
            ≡ informed s.calls
              ++ sorted_unseen previous
                  (cluster.data_chunks (s.calls ++ get_new_data_since last ∷ [])))
        × (trigger.IsValid s'.trigger × (s'.selector_batch_size ≡ size))
        × (All
              (λ c. unseen previous c ≡ [])
              (cluster.data_chunks (s.calls ++ get_new_data_since last ∷ []))
            → (newest ≡ last) × (keys ≡ []))
  unfolding polled
  poll_outcome last previous s valid kept =
      let chunks = cluster.data_chunks (s.calls ++ get_new_data_since last ∷ []) in
      let (newest, keys, occured, s', run, data', ready, known) =
        chunk_loop_lem previous chunks last [] false true (polled last s) (valid, kept) in
      let (s'', run', data'', ready') = finish-Hands newest keys occured true s' ready in
      (
        newest,
        keys,
        s'',
        poll_eq last newest previous keys occured true s s' run ∙ run',
        data''
            ∙ data'
            ∙ ap (λ p. p ++ sorted_unseen previous chunks)
                (informed-append s.calls (get_new_data_since last ∷ [])
                  ∙ append-nil (informed s.calls)),
        ready',
        known,
      )

  -- One round of `wait_for_new_data`, in a configuration without a limit on the triggers, from a
  -- state with a positive batch size and a valid trigger: it returns, goes on running, and informs
  -- the selector about exactly the items of the storage's answer whose key is not among the
  -- previous largest keys, chunk after chunk, each in the order of its timestamps.
  pub poll_lem :
      (last : ℕ) (previous : List ℕ) (s : State trigger.State)
      → trigger.IsValid s.trigger
      → s.selector_batch_size ≡ size
      → (newest : ℕ) × (keys : List ℕ) × (s' : State trigger.State) × (poll trigger cluster config
            last previous s
          ≡ (ok (newest, keys, true), s'))
        × (informed s'.calls
            ≡ informed s.calls
              ++ sorted_unseen previous
                  (cluster.data_chunks (s.calls ++ get_new_data_since last ∷ [])))
        × (trigger.IsValid s'.trigger × (s'.selector_batch_size ≡ size))
  poll_lem last previous s valid kept =
      let (newest, keys, s', run, data', ready, known) = poll_outcome last previous s valid kept in
      (newest, keys, s', run, data', ready)

  -- A round of `wait_for_new_data`, in a configuration without a limit on the triggers, from a state
  -- with a positive batch size and a valid trigger, whose answer of the storage has only items with
  -- keys that are known from the round before: it leaves the last timestamp as it is, and the set of
  -- keys that it remembers for the next round is empty.
  pub poll-forgets :
      (last : ℕ) (previous : List ℕ) (s : State trigger.State)
      → trigger.IsValid s.trigger
      → s.selector_batch_size ≡ size
      → All
          (λ c. unseen previous c ≡ [])
          (cluster.data_chunks (s.calls ++ get_new_data_since last ∷ []))
      → (s' : State trigger.State) × (poll trigger cluster config last previous s
          ≡ (ok (last, [], true), s'))
  poll-forgets last previous s valid kept all_known =
      let (newest, keys, s', run, data', ready, known) = poll_outcome last previous s valid kept in
      let (same, none_kept) = known all_known in
      (
        s',
        run
            ∙ ap (λ n. (ok (n, keys, true), s')) same
            ∙ ap (λ k. (ok (last, k, true), s')) none_kept,
      )
