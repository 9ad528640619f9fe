-- ===== src/Executor/NewData/Stream.antt =====
-- `_handle_new_data` over all its batches.
use modyn.Executor.State.{Cluster, Config, State, Exec, pure, gets, modify, throw, ◌>>=◌}
use modyn.Executor.NewData.{
  sort_by_timestamp, reached, inform_trigger, handle_indices, handle_new_data_batch, batch_loop,
  handle_new_data,
}
use modyn.Executor.NewData.Informs.{informed, Informs, Informs-pure, Informs-update_stage}
use modyn.Executor.NewData.Conserved.{handle_indices-Informs}
use modyn.Triggers.Interface.{Trigger}
use modyn.Prelude.Range.{steps, range_list}
use modyn.Prelude.Int.{ℤ}
use modyn.Prelude.{
  ltb, if◌then◌else◌, lt→ltb, length, drop, slice, length-take, length-drop, drop-all,
  slice-append-drop, value_error, ok, ℕ, zero, suc, ◌+◌, ◌-◌, ◌*◌, ◌/◌, ◌≤◌, ◌<◌, ◌≡◌, refl, sym,
  ap, ◌∙◌, subst, ◌≢◌, Bool, true, false, none, List, [], ◌∷◌, ◌++◌, append-nil, append_assoc,
  arith,
}
use modyn.Data.{DataPoint}

module _ (trigger : Trigger) (cluster : Cluster) (config : Config)
    (unlimited : config.maximum_triggers ≡ none) (size : ℕ) (positive : 0 < size) where
  abbrev pub IsReady : State trigger.State → Type 0
  IsReady s = trigger.IsValid s.trigger × (s.selector_batch_size ≡ size)

  -- From a state that is ready `m` returns and leaves one, having informed the selector about
  -- `points`, and nothing else.
  pub record Hands {A : Type 0} (points : List DataPoint) (m : Exec trigger.State A) : Type 0 where
    pub at :
        (s : State trigger.State)
        → IsReady s
        → (a : A) × (s' : State trigger.State) × (m s ≡ (ok a, s'))
          × (informed s'.calls ≡ informed s.calls ++ points)
          × IsReady s'

  pub Hands-Informs :
      {A : Type 0} {points : List DataPoint} {fired : ℕ} (m : Exec trigger.State A)
      → Informs points fired m
      → Hands points m
  Hands-Informs m hm = record {
    at = λ s ready.
        let (a, s', run, data', _, same, kept) = hm.at s in
        (a, s', run, data', (subst trigger.IsValid (sym same) ready.0, kept ∙ ready.1));
  }

  pub Hands-bind :
      {A B : Type 0} (points later : List DataPoint) (m : Exec trigger.State A)
      (f : A → Exec trigger.State B)
      → Hands points m
      → ((a : A) → Hands later (f a))
      → Hands (points ++ later) (m >>= f)
  unfolding ◌>>=◌
  Hands-bind points later m f hm hf = record {
    at = λ s ready.
        let (a, s', run, data', ready') = hm.at s ready in
        let (b, s'', run', data'', ready'') = (hf a).at s' ready' in
        (
          b,
          s'',
          rw (run, run'),
          data'' ∙ ap (λ d. d ++ later) data' ∙ append_assoc (informed s.calls) points later,
          ready'',
        );
  }

  pub Hands-cast :
      {A : Type 0} {points : List DataPoint} (points' : List DataPoint) (m : Exec trigger.State A)
      → points ≡ points'
      → Hands points m
      → Hands points' m
  Hands-cast points' m same hm = subst (λ p. Hands p m) same hm

  Hands-if :
      {A : Type 0} {points : List DataPoint} (b : Bool) (m n : Exec trigger.State A)
      → b ≡ true
      → Hands points m
      → Hands points (if b then m else n)
  Hands-if b m n e hm = rw e hm

  -- The batch size that is read is the one that the state is ready for.
  Hands-size :
      {B : Type 0} (points : List DataPoint) (k : ℕ → Exec trigger.State B)
      → Hands points (k size)
      → Hands points (gets (λ s. s.selector_batch_size) >>= k)
  unfolding ◌>>=◌ gets
  Hands-size points k hk = record {
    at = λ s ready.
        let (b, s', run, data', ready') = hk.at s ready in
        (b, s', ap (λ n. k n s) ready.1 ∙ run, data', ready');
  }

  pub Hands-unlimited :
      {B : Type 0} (points : List DataPoint) (k : Bool → Exec trigger.State B)
      → Hands points (k false)
      → Hands points (gets (λ s. reached config s.num_triggers) >>= k)
  unfolding ◌>>=◌ gets reached
  Hands-unlimited points k hk = record {
    at = λ s ready.
        let (b, s', run, data', ready') = hk.at s ready in (b, s', rw unlimited run, data', ready');
  }

  inform_trigger_eq :
      (s : State trigger.State) (batch : List DataPoint) (indices : List ℤ) (t' : trigger.State)
      → trigger.inform s.trigger batch ≡ ok (indices, t')
      → inform_trigger trigger cluster config batch s ≡ (ok indices, record s { trigger = t' })
  unfolding inform_trigger
  inform_trigger_eq s batch indices t' run = rw (inform_trigger, run)

  -- A batch from the answer of the trigger on.
  batch_informed :
      (s : State trigger.State) (batch : List DataPoint) (indices : List ℤ) (t' : trigger.State)
      → trigger.inform s.trigger batch ≡ ok (indices, t')
      → handle_new_data_batch trigger cluster config batch s
        ≡ handle_indices trigger cluster config batch indices
            (record s { trigger = t'; logged_triggers = s.logged_triggers + length indices })
  unfolding handle_new_data_batch inform_trigger ◌>>=◌ modify
  batch_informed s batch indices t' run = rw (inform_trigger_eq s batch indices t' run)

  handle_new_data_batch-Hands :
      (d : DataPoint) (ds : List DataPoint)
      → Hands (d ∷ ds) (handle_new_data_batch trigger cluster config (d ∷ ds))
  handle_new_data_batch-Hands d ds = record {
    at = λ s ready.
        let (indices, t', run, valid, ordered) = trigger.inform_returns s.trigger d ds ready.0 in
        let (a, s', run', data', _, same, kept) =
          (handle_indices-Informs trigger cluster config unlimited d ds indices ordered).at
            (record s { trigger = t'; logged_triggers = s.logged_triggers + length indices }) in
        (
          a,
          s',
          batch_informed s (d ∷ ds) indices t' run ∙ run',
          data',
          (subst trigger.IsValid (sym same) valid, kept ∙ ready.1),
        );
  }

  slice-cons :
      {A : Type 0} (xs : List A) (i : ℕ)
      → i < length xs
      → (x : A) × (ys : List A) × (slice xs i (i + size) ≡ x ∷ ys)
  slice-cons xs i h =
      not_empty (slice xs i (i + size))
        (omega (arith, length-take (i + size - i) (drop i xs), length-drop i xs))
    where
      not_empty :
          {A : Type 0} (zs : List A) → 0 < length zs → (x : A) × (ys : List A) × (zs ≡ x ∷ ys)
      not_empty [] h = elim h [ ]
      not_empty (z ∷ zs) h = (z, zs, refl)

  -- The batches from index `i` on, when `count` steps from there reach the end and no fewer do.
  batch_loop-Hands :
      (new_data : List DataPoint) (i count : ℕ) (triggered : Bool)
      → length new_data ≤ i + count * size
      → (count ≢ 0 → i + count * size < length new_data + size)
      → Hands
          (drop i new_data)
          (batch_loop trigger cluster config new_data (steps i size count) triggered)
  unfolding batch_loop steps
  batch_loop-Hands new_data i zero triggered enough tight =
      subst (λ p. Hands p (pure triggered)) (sym (drop-all i new_data (omega arith)))
        (Hands-Informs _ (Informs-pure triggered))
  batch_loop-Hands new_data i (suc count) triggered enough tight =
      let (d, ds, batch) = slice-cons new_data i (omega (arith, tight (λ e. ground arith))) in
      let hands_batch : Hands (slice new_data i (i + size))
          (handle_new_data_batch trigger cluster config (slice new_data i (i + size))) =
        subst (λ b. Hands b (handle_new_data_batch trigger cluster config b)) (sym batch)
          (handle_new_data_batch-Hands d ds) in
      Hands-size _ _ (
        Hands-bind [] _ _ _ (Hands-Informs _ (Informs-update_stage _ _)) λ _.
          Hands-cast _ _ (slice-append-drop new_data i (i + size) (omega arith)) (
            Hands-bind _ _ _ _ hands_batch λ fired. Hands-unlimited _ _ (
              batch_loop-Hands new_data (i + size) count _ (omega (arith, enough))
                (λ e. omega (arith, tight (λ e'. ground arith))))))

  -- The number of steps of `range(0, n, size)` reaches the end, and no fewer do.
  range_reaches :
      (n : ℕ)
      → (n ≤ 0 + (n - 0 + (size - 1)) / size * size)
        × ((n - 0 + (size - 1)) / size ≢ 0 → 0 + (n - 0 + (size - 1)) / size * size < n + size)
  range_reaches n = (grind (arith, positive), λ e. grind (arith, positive))

  pub handle_new_data-Hands :
      (data_points : List DataPoint)
      → Hands (sort_by_timestamp data_points) (handle_new_data trigger cluster config data_points)
  unfolding handle_new_data range_list
  handle_new_data-Hands data_points = Hands-cast _ _ (append-nil _) (
      Hands-bind [] _ _ _ (Hands-Informs _ (Informs-update_stage _ _)) λ _. Hands-size _ _ (
        Hands-bind sorted [] _ _ batches λ fired.
          Hands-bind [] [] _ _ (Hands-Informs _ (Informs-update_stage _ _))
            λ _. Hands-Informs _ (Informs-pure fired)))
    where
      sorted : List DataPoint
      sorted = sort_by_timestamp data_points

      batches : Hands sorted (
          if ltb 0 size
          then batch_loop trigger cluster config sorted (range_list 0 (length sorted) size) false
          else throw value_error)
      batches = Hands-if _ _ _ (lt→ltb 0 size positive) (
          batch_loop-Hands sorted 0 _ false (range_reaches (length sorted)).0
            (range_reaches (length sorted)).1)

  -- In a configuration without a limit on the triggers, with a positive batch size and a valid
  -- trigger, `_handle_new_data` returns on any data. It informs the selector about each data point
  -- exactly once, in the order of the timestamps, whatever the trigger answers and however the
  -- batches fall; the trigger stays valid, and the batch size is kept.
  pub handle_new_data-conserves :
      (data_points : List DataPoint) (s : State trigger.State)
      → trigger.IsValid s.trigger
      → s.selector_batch_size ≡ size
      → (fired : Bool) × (s' : State trigger.State) × (handle_new_data trigger cluster config
            data_points s
          ≡ (ok fired, s'))
        × (informed s'.calls ≡ informed s.calls ++ sort_by_timestamp data_points)
        × (trigger.IsValid s'.trigger × (s'.selector_batch_size ≡ size))
  handle_new_data-conserves data_points s valid kept =
      (handle_new_data-Hands data_points).at s (valid, kept)
