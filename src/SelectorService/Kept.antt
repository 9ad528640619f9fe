-- ===== src/SelectorService/Kept.antt =====
-- What a call of `inform_data_and_trigger` puts on record and into the cache.
use modyn.SelectorService.{
  Service, is_in, Selector, all_partitions, cached, cache_trigger, on_record, after_trigger,
  after_inform, inform_some, inform_data_and_trigger,
}
use modyn.Prelude.{
  leb, ◌==◌, if◌then◌else◌, leb→le, leb→lt, ==_iff, Bool-cases, length, get_elem?, concat,
  assertion_error, Result, ok, raise, of_bind, ok-inj, ℕ, zero, suc, ◌+◌, ◌≤◌, ◌<◌, ◌≡◌, refl, ap,
  ◌∙◌, subst, ◌⊎◌, inl, inr, Bool, true, false, ◌&&◌, none, some, List, [], ◌∷◌, arith,
}

module _ {Sample : Type 0} (strategy : Service Sample) where
  -- The partitions are what the strategy has for the trigger, one for each of the numbers below `n`.
  abbrev pub IsTaken : strategy.State → ℕ → ℕ → List (List Sample) → Type 0
  IsTaken state t n parts =
      (length parts ≡ n)
      × ((p : ℕ) (keys : List Sample)
          → get_elem? parts p ≡ some keys
          → strategy.get_trigger_partition_keys state t p none ≡ ok keys)

  abbrev TakenFrom : strategy.State → ℕ → ℕ → ℕ → List (List Sample) → Type 0
  TakenFrom state t first n parts =
      (length parts ≡ n)
      × ((p : ℕ) (keys : List Sample)
          → get_elem? parts p ≡ some keys
          → strategy.get_trigger_partition_keys state t (first + p) none ≡ ok keys)

  TakenFrom-cons :
      (state : strategy.State) (t first n : ℕ) (head : List Sample) (later : List (List Sample))
      → strategy.get_trigger_partition_keys state t first none ≡ ok head
      → TakenFrom state t (suc first) n later
      → TakenFrom state t first (suc n) (head ∷ later)
  TakenFrom-cons state t first n head later here (many, rest) = (ap suc many, at)
    where
      at :
          (p : ℕ) (keys : List Sample)
          → get_elem? (head ∷ later) p ≡ some keys
          → strategy.get_trigger_partition_keys state t (first + p) none ≡ ok keys
      at zero keys e =
          let same : head ≡ keys = cc in
          let number : first ≡ first + 0 = omega arith in
          subst (λ i. strategy.get_trigger_partition_keys state t i none ≡ ok keys) number
            (here ∙ ap ok same)
      at (suc p) keys e =
          let number : suc first + p ≡ first + suc p = omega arith in
          subst (λ i. strategy.get_trigger_partition_keys state t i none ≡ ok keys) number
            (rest p keys e)

  TakenFrom-all_partitions :
      (state : strategy.State) (t first n : ℕ) (parts : List (List Sample))
      → all_partitions strategy state t first n ≡ ok parts
      → TakenFrom state t first n parts
  unfolding all_partitions
  TakenFrom-all_partitions state t first zero parts e =
      subst (TakenFrom state t first 0) (ok-inj e) (refl, λ p keys f. cc f)
  TakenFrom-all_partitions state t first (suc n) parts e =
      let (head, here, e1) =
        of_bind (strategy.get_trigger_partition_keys state t first none) _ parts e in
      let (later, rest, e2) = of_bind (all_partitions strategy state t (suc first) n) _ parts e1 in
      subst (TakenFrom state t first (suc n)) (ok-inj e2) (
        TakenFrom-cons state t first n head later here
          (TakenFrom-all_partitions state t (suc first) n later rest))

  IsTaken-all_partitions :
      (state : strategy.State) (t n : ℕ) (parts : List (List Sample))
      → all_partitions strategy state t 0 n ≡ ok parts
      → IsTaken state t n parts
  IsTaken-all_partitions state t n parts e =
      let (many, at) = TakenFrom-all_partitions state t 0 n parts e in
      (
        many,
        λ p keys f.
            let number : 0 + p ≡ p = omega arith in
            subst (λ i. strategy.get_trigger_partition_keys state t i none ≡ ok keys) number
              (at p keys f),
      )

  -- The trigger is cached if that does not take more keys than the cache may hold, and not otherwise.
  abbrev pub IsCachedAs : Selector strategy → ℕ → ℕ → ℕ → Selector strategy → Type 0
  IsCachedAs s t total n s' =
      ((s.maximum_keys_in_cache < s.current_keys_in_cache + total)
        × (s'.trigger_cache ≡ s.trigger_cache)
        × (s'.current_keys_in_cache ≡ s.current_keys_in_cache))
      ⊎ ((parts : List (List Sample)) × IsTaken s'.state t n parts
          × (total ≡ length (concat parts))
          × (s'.trigger_cache ≡ (t, parts) ∷ s.trigger_cache)
          × (s'.current_keys_in_cache ≡ s.current_keys_in_cache + total))

  -- How a call ends that began with `s`.
  abbrev pub Ends : Selector strategy → Result ℕ × Selector strategy → Type 0
  Ends s (ok t, s') =
      (total : ℕ) × (n : ℕ) × (state : strategy.State) × (strategy.trigger state
        ≡ (ok (t, total, n), s'.state))
      × (is_in t s.trigger_size_cache ≡ false)
      × (s'.trigger_size_cache ≡ (t, total) ∷ s.trigger_size_cache)
      × (s'.trigger_partition_cache ≡ (t, n) ∷ s.trigger_partition_cache)
      × IsCachedAs s t total n s'
      × (s'.current_keys_in_cache ≤ s.maximum_keys_in_cache)
  Ends s (raise e, s') =
      (s'.trigger_size_cache ≡ s.trigger_size_cache)
      × (s'.trigger_partition_cache ≡ s.trigger_partition_cache)
      × (s'.current_keys_in_cache ≤ s.maximum_keys_in_cache)

  module _ (t total n : ℕ) (state : strategy.State) (s : Selector strategy)
      (answer : strategy.trigger state ≡ (ok (t, total, n), s.state))
      (fresh : is_in t s.trigger_size_cache ≡ false)
      (small : s.current_keys_in_cache ≤ s.maximum_keys_in_cache) where
    cached-Ends :
        (r : Result (List (List Sample)))
        → all_partitions strategy s.state t 0 n ≡ r
        → s.current_keys_in_cache + total ≤ s.maximum_keys_in_cache
        → Ends s (on_record strategy t total n (cached strategy t total r s))
    unfolding on_record cached
    cached-Ends (raise e) same fits = (refl, refl, small)
    cached-Ends (ok parts) same fits = elim (Bool-cases (total == length (concat parts))) [
      | inl right ↦
          let taken = IsTaken-all_partitions s.state t n parts same in
          rw right (
            total,
            n,
            state,
            answer,
            fresh,
            refl,
            refl,
            inr (parts, taken, (==_iff total (length (concat parts))).0 right, refl, refl),
            fits,
          )
      | inr wrong ↦ rw wrong (refl, refl, fits)
    ]

    cache_trigger-Ends : Ends s (on_record strategy t total n (cache_trigger strategy t total n s))
    unfolding on_record cache_trigger
    cache_trigger-Ends =
        elim (Bool-cases (leb (s.current_keys_in_cache + total) s.maximum_keys_in_cache)) [
          | inl fits ↦ rw fits (cached-Ends _ refl (leb→le _ _ fits))
          | inr full ↦
              rw full (
                total,
                n,
                state,
                answer,
                fresh,
                refl,
                refl,
                inl (leb→lt _ _ full, refl, refl),
                small,
              )
        ]

  after_trigger-Ends :
      (r : Result (ℕ × ℕ × ℕ)) (state : strategy.State) (s : Selector strategy)
      → strategy.trigger state ≡ (r, s.state)
      → s.current_keys_in_cache ≤ s.maximum_keys_in_cache
      → Ends s (after_trigger strategy r s)
  unfolding after_trigger
  after_trigger-Ends (raise e) state s answer small = (refl, refl, small)
  after_trigger-Ends (ok (t, total, n)) state s answer small =
      elim (Bool-cases (is_in t s.trigger_size_cache)) [
        | inl known ↦ rw known (refl, refl, small)
        | inr fresh ↦ rw fresh (cache_trigger-Ends t total n state s answer fresh small)
      ]

  after_inform-Ends :
      (s : Selector strategy) (r : Result (Unit {0})) (state : strategy.State)
      → s.current_keys_in_cache ≤ s.maximum_keys_in_cache
      → Ends s (after_inform strategy (r, record s { state = state }))
  unfolding after_inform
  after_inform-Ends s (raise e) state small = (refl, refl, small)
  after_inform-Ends s (ok u) state small =
      after_trigger-Ends (strategy.trigger state).0 state
        (record s { state = (strategy.trigger state).1 }) refl small

  -- Let the cache hold no more keys than it may; a call of `inform_data_and_trigger` keeps this, also
  -- if it raises. If it returns, the strategy's `trigger` answered the id, which was not on record,
  -- with a number of keys and of partitions, and these are now on record, with all that was there.
  -- If that many keys did not fit, the cache is as before; otherwise it has the id's partitions as
  -- well, as the strategy had them when it had triggered, each partition at its number, and they have
  -- together as many keys as `trigger` said. If it raises, no numbers are put on record.
  pub inform_data_and_trigger-Ends :
      (keys timestamps labels : List ℕ) (s : Selector strategy)
      → s.current_keys_in_cache ≤ s.maximum_keys_in_cache
      → Ends s (inform_data_and_trigger strategy keys timestamps labels s)
  unfolding inform_data_and_trigger inform_some
  inform_data_and_trigger-Ends keys timestamps labels s small =
      either ((length keys == length timestamps) && (length keys == length labels)) keys
    where
      either :
          (b : Bool) (ks : List ℕ)
          → Ends s (
              if b
              then after_inform strategy (inform_some strategy ks timestamps labels s)
              else (raise assertion_error, s))
      either false ks = (refl, refl, small)
      either true [] = after_inform-Ends s (ok tt) s.state small
      either true (k ∷ ks) =
          let (answer, state) = strategy.inform_data (k ∷ ks) timestamps labels s.state in
          after_inform-Ends s answer state small
