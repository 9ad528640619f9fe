-- ===== src/Executor/NewData.antt =====
-- How new data is handed to the trigger and to the selector: `_handle_new_data`,
-- `_handle_new_data_batch` and `_handle_triggers_within_batch`.
pub mod Informs
pub mod Conserved
pub mod Stream
use modyn.Executor.State.{
  handle_new_data_stage, new_data_handled, handle_triggers_within_batch_stage,
  inform_selector_and_trigger_stage, inform_selector_remaining_data, general, counter_close,
  counter_create, counter_update, id_trigger, inform_selector_and_trigger, get_number_of_samples,
  Cluster, Config, State, Exec, pure, gets, modify, throw, ◌>>=◌, ◌>>◌, update_stage, ask,
  tell_selector,
}
use modyn.Executor.Training.{run_training}
use modyn.Triggers.Interface.{Trigger}
use modyn.Prelude.Range.{range_list}
use modyn.Prelude.Int.{ℤ, after}
use modyn.Prelude.{
  ltb, leb, if◌then◌else◌, length, drop, slice, value_error, ok, raise, ℕ, ◌+◌, ◌-◌, Bool, true,
  false, ◌||◌, none, some, List, [], ◌∷◌,
}
use modyn.Data.{DataPoint}

-- `new_data.sort(key=lambda tup: tup[1])`: Python's sort keeps the order of equal timestamps.
unfoldable pub insert_by_timestamp : DataPoint → List DataPoint → List DataPoint
insert_by_timestamp d [] = d ∷ []
insert_by_timestamp d (e ∷ es) =
    let later = e ∷ insert_by_timestamp d es in
    if leb d.timestamp e.timestamp then d ∷ e ∷ es else later

unfoldable pub sort_by_timestamp : List DataPoint → List DataPoint
unfolding insert_by_timestamp
sort_by_timestamp [] = []
sort_by_timestamp (d ∷ ds) = insert_by_timestamp d (sort_by_timestamp ds)

-- `self.maximum_triggers is not None and self.num_triggers >= self.maximum_triggers`
unfoldable pub reached : Config → ℕ → Bool
reached config num_triggers = elim config.maximum_triggers [
  | none ↦ false
  | some limit ↦ leb limit num_triggers
]

module _ (trigger : Trigger) (cluster : Cluster) (config : Config) where
  -- Training on a trigger that has samples.
  unfoldable pub train_on : ℕ → ℕ → Exec trigger.State (Unit {0})
  unfolding update_stage
  train_on trigger_id num_samples =
      if ltb 0 num_samples
      then (do
        run_training cluster config trigger_id
        update_stage handle_triggers_within_batch_stage (id_trigger trigger_id))
      else pure tt

  -- The data behind the last trigger of a batch.
  unfoldable pub inform_remaining : ℕ → List ℤ → List DataPoint → Exec trigger.State (Unit {0})
  unfolding update_stage tell_selector
  inform_remaining trigger_id (i ∷ later) remaining = pure tt
  inform_remaining trigger_id [] [] = pure tt
  inform_remaining trigger_id [] (d ∷ ds) = do
    update_stage inform_selector_remaining_data (id_trigger trigger_id)
    tell_selector (d ∷ ds)

  -- One round of the loop of `_handle_triggers_within_batch`, up to the test that may end it.
  unfoldable pub handle_trigger : List DataPoint → ℕ → ℤ → List ℤ → Exec trigger.State (Unit {0})
  unfolding train_on inform_remaining update_stage ask
  handle_trigger batch previous_trigger_idx triggering_idx later = do
    update_stage inform_selector_and_trigger_stage general
    trigger_id ←
        ask (inform_selector_and_trigger (slice batch previous_trigger_idx (after triggering_idx)))
          cluster.trigger_id
    num_samples ← ask (get_number_of_samples trigger_id) cluster.num_samples
    train_on trigger_id num_samples
    inform_remaining trigger_id later (drop (after triggering_idx) batch)
    modify (λ s. record s { num_triggers = s.num_triggers + 1 })

  unfoldable pub trigger_loop : List DataPoint → ℕ → List ℤ → Exec trigger.State (Unit {0})
  unfolding handle_trigger reached
  trigger_loop batch previous_trigger_idx [] = pure tt
  trigger_loop batch previous_trigger_idx (triggering_idx ∷ later) = do
    handle_trigger batch previous_trigger_idx triggering_idx later
    stop ← gets (λ s. reached config s.num_triggers)
    if stop then pure tt else trigger_loop batch (after triggering_idx) later

  unfoldable pub handle_triggers_within_batch :
      List DataPoint → List ℤ → Exec trigger.State (Unit {0})
  unfolding trigger_loop update_stage
  handle_triggers_within_batch batch triggering_indices = do
    update_stage handle_triggers_within_batch_stage general
    trigger_loop batch 0 triggering_indices

  -- `self.trigger.inform(batch)`
  unfoldable pub inform_trigger : List DataPoint → Exec trigger.State (List ℤ)
  inform_trigger batch s = elim (trigger.inform s.trigger batch) [
    | ok (indices, t) ↦ (ok indices, record s { trigger = t })
    | raise e ↦ (raise e, s)
  ]

  -- The branches on the number of triggers in the batch.
  unfoldable pub handle_indices : List DataPoint → List ℤ → Exec trigger.State Bool
  unfolding handle_triggers_within_batch tell_selector
  handle_indices batch [] = do tell_selector batch; pure false
  handle_indices batch (i ∷ is) = do handle_triggers_within_batch batch (i ∷ is); pure true

  unfoldable pub handle_new_data_batch : List DataPoint → Exec trigger.State Bool
  unfolding inform_trigger handle_indices
  handle_new_data_batch batch = do
    triggering_indices ← inform_trigger batch
    modify (λ s. record s { logged_triggers = s.logged_triggers + length triggering_indices })
    handle_indices batch triggering_indices

  -- The loop over the batches that start at the given indices.
  unfoldable pub batch_loop : List DataPoint → List ℕ → Bool → Exec trigger.State Bool
  unfolding handle_new_data_batch reached update_stage
  batch_loop new_data [] any_training_triggered = pure any_training_triggered
  batch_loop new_data (i ∷ is) any_training_triggered = do
    size ← gets (λ s. s.selector_batch_size)
    update_stage handle_new_data_stage
        (counter_update (if ltb (i + size) (length new_data) then size else length new_data - i))
    triggered ← handle_new_data_batch (slice new_data i (i + size))
    stop ← gets (λ s. reached config s.num_triggers)
    if stop
        then pure (any_training_triggered || triggered)
        else batch_loop new_data is (any_training_triggered || triggered)

  -- `range` raises a ValueError for a step of zero.
  unfoldable pub handle_new_data : List DataPoint → Exec trigger.State Bool
  unfolding batch_loop sort_by_timestamp range_list update_stage
  handle_new_data data_points = do
    let new_data = sort_by_timestamp data_points
    update_stage handle_new_data_stage (counter_create (length new_data))
    size ← gets (λ s. s.selector_batch_size)
    any_training_triggered ←
        (if ltb 0 size
          then batch_loop new_data (range_list 0 (length new_data) size) false
          else throw value_error)
    update_stage new_data_handled counter_close
    pure any_training_triggered
