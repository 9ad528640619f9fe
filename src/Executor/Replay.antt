-- ===== src/Executor/Replay.antt =====
-- Where the data comes from: `replay_data`, and `wait_for_new_data` up to the interrupt that ends it.
pub mod Replayed
pub mod Polls
use modyn.Executor.State.{
  replay_data_stage, replay_data_done, fetch_new_data, wait_for_new_data_stage, dataset,
  get_new_data_since, get_data_in_interval, stop_training, sleep, Cluster, Config, State, Exec,
  pure, gets, throw, ◌>>=◌, ◌>>◌, update_stage, ask, tell,
}
use modyn.Executor.NewData.{reached, handle_new_data}
use modyn.Triggers.Interface.{Trigger}
use modyn.Prelude.{
  ◌==◌, if◌then◌else◌, filter_by, mem, assertion_error, ok, ℕ, zero, suc, max, Bool, true, false,
  not, ◌&&◌, ◌||◌, none, some, List, [], ◌∷◌, ◌++◌, map,
}
use modyn.Data.{DataPoint}

-- `max` of the timestamps.
unfoldable pub max_timestamp : ℕ → List DataPoint → ℕ
max_timestamp timestamp [] = timestamp
max_timestamp timestamp (d ∷ ds) = max_timestamp (max timestamp d.timestamp) ds

-- `last_timestamp` after a chunk.
unfoldable pub latest : ℕ → List DataPoint → ℕ
unfolding max_timestamp
latest last_timestamp [] = last_timestamp
latest last_timestamp (d ∷ ds) = max_timestamp d.timestamp ds

module _ (trigger : Trigger) (cluster : Cluster) (config : Config) where
  unfoldable pub replay_loop : List (List DataPoint) → Exec trigger.State (Unit {0})
  unfolding handle_new_data reached
  replay_loop [] = pure tt
  replay_loop (replay_data ∷ chunks) = do
    any_training_triggered ← handle_new_data trigger cluster config replay_data
    stop ← gets (λ s. reached config s.num_triggers)
    if stop then pure tt else replay_loop chunks

  -- The generator of the chunks.
  unfoldable pub replay_generator : ℕ → Exec trigger.State (List (List DataPoint))
  unfolding ask
  replay_generator start_replay_at = elim config.stop_replay_at [
    | none ↦ ask (get_new_data_since start_replay_at) cluster.data_chunks
    | some stop ↦ ask (get_data_in_interval start_replay_at stop) cluster.data_chunks
  ]

  unfoldable pub replay_from : ℕ → Exec trigger.State (Unit {0})
  unfolding replay_loop replay_generator update_stage
  replay_from start_replay_at = do
    update_stage replay_data_stage (dataset config.dataset_id)
    chunks ← replay_generator start_replay_at
    replay_loop chunks
    update_stage replay_data_done (dataset config.dataset_id)

  unfoldable pub replay_data : Exec trigger.State (Unit {0})
  unfolding replay_from
  replay_data = elim config.start_replay_at [
    | none ↦ throw assertion_error
    | some start ↦ replay_from start
  ]

  unfoldable pub shutdown_trainer : Exec trigger.State (Unit {0})
  unfolding tell
  shutdown_trainer s = elim s.current_training_id [
    | none ↦ (ok tt, s)
    | some training_id ↦ tell (stop_training training_id) s
  ]

  -- What the rounds of `wait_for_new_data` keep: `last_timestamp`, `previous_largest_keys`,
  -- `continue_running`; within a round also `largest_keys` and `trigger_occured`.
  unfoldable pub chunk_loop :
      List ℕ
      → List (List DataPoint)
      → ℕ
      → List ℕ
      → Bool
      → Bool
      → Exec trigger.State (ℕ × List ℕ × Bool × Bool)
  unfolding latest handle_new_data reached
  chunk_loop previous_largest_keys [] last_timestamp largest_keys trigger_occured running =
      pure (last_timestamp, largest_keys, trigger_occured, running)
  chunk_loop previous_largest_keys (chunk ∷ chunks) last_timestamp largest_keys trigger_occured
        running =
      do
        let new_data = filter_by (λ d. not (mem d.key previous_largest_keys)) chunk
        let newest = latest last_timestamp new_data
        let keys = map (λ d. d.key) (filter_by (λ d. d.timestamp == newest) new_data)
        triggered ← handle_new_data trigger cluster config new_data
        stop ← gets (λ s. reached config s.num_triggers)
        chunk_loop previous_largest_keys chunks newest (largest_keys ++ keys)
            (trigger_occured || triggered) (running && not stop)

  -- One round of the `while` loop: the new `last_timestamp`, `previous_largest_keys` and
  -- `continue_running`.
  unfoldable pub poll : ℕ → List ℕ → Exec trigger.State (ℕ × List ℕ × Bool)
  unfolding chunk_loop update_stage ask tell
  poll last_timestamp previous_largest_keys = do
    update_stage fetch_new_data (dataset config.dataset_id)
    chunks ← ask (get_new_data_since last_timestamp) cluster.data_chunks
    (newest, largest_keys, trigger_occured, running) ←
        chunk_loop previous_largest_keys chunks last_timestamp [] false true
    if trigger_occured then pure (newest, largest_keys, running) else (do
      update_stage wait_for_new_data_stage (dataset config.dataset_id)
      tell sleep
      pure (newest, largest_keys, running))

  -- The `while` loop, with an interrupt after the given number of rounds.
  unfoldable pub poll_loop : ℕ → ℕ → List ℕ → Exec trigger.State (Unit {0})
  unfolding poll shutdown_trainer
  poll_loop zero last_timestamp previous_largest_keys = shutdown_trainer
  poll_loop (suc rounds) last_timestamp previous_largest_keys = do
    (newest, largest_keys, running) ← poll last_timestamp previous_largest_keys
    if running then poll_loop rounds newest largest_keys else pure tt

  unfoldable pub wait_for_new_data : ℕ → ℕ → Exec trigger.State (Unit {0})
  unfolding poll_loop
  wait_for_new_data rounds start_timestamp = poll_loop rounds start_timestamp []
