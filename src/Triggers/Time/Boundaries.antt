-- ===== src/Triggers/Time/Boundaries.antt =====
-- Where a TimeTrigger fires.
use modyn.Prelude.{
  leb, leb→le, leb→lt, tests, Bool-cases, length, get_elem?, take, All, ok, ℕ, zero, suc, ◌+◌, ◌-◌,
  ◌*◌, ◌≤◌, ◌<◌, ◌≡◌, refl, sym, ap, ◌∙◌, subst, inl, inr, none, some, List, [], ◌∷◌, arith,
  le_refl,
}
use modyn.Prelude.Int.{ℤ, after}
use modyn.Data.{DataPoint}
use modyn.Triggers.Time.{TimeTrigger, first_from, before, loop, last, inform_from, inform}

-- The item number `j` is the first with a timestamp of `at` or later.
abbrev pub IsFirst : ℕ → List DataPoint → ℕ → Type 0
IsFirst at new_data j =
    All (λ d. d.timestamp < at) (take j new_data)
    × ((d : DataPoint) × (get_elem? new_data j ≡ some d) × (at ≤ d.timestamp))

plus_zero : (i : ℕ) → i ≡ i + 0
plus_zero i = omega arith

zero_plus : (i : ℕ) → 0 + i ≡ i
zero_plus i = omega arith

first_from_lem :
    (i at : ℕ) (new_data : List DataPoint) (newest : DataPoint)
    → last new_data ≡ ok newest
    → at ≤ newest.timestamp
    → (j : ℕ) × (first_from i at new_data ≡ ok (i + j)) × IsFirst at new_data j
unfolding first_from last
first_from_lem i at [] newest e h = cc
first_from_lem i at (d ∷ []) newest e h = (0, ground arith, (tt, (d, refl, ground arith)))
first_from_lem i at (d ∷ d' ∷ ds) newest e h = elim (Bool-cases (leb at d.timestamp)) [
  | inl found ↦ (0, rw found (ap ok (plus_zero i)), (tt, (d, refl, leb→le _ _ found)))
  | inr later ↦
      let (j, eq, first) = first_from_lem (suc i) at (d' ∷ ds) newest e h in
      (suc j, rw later (eq ∙ ap ok (omega arith)), ((leb→lt _ _ later, first.0), first.1))
]

after-before : (i : ℕ) → after (before i) ≡ i
unfolding before
after-before zero = refl
after-before (suc i) = refl

module _ (every : ℕ) (new_data : List DataPoint) (newest : DataPoint)
    (is_last : last new_data ≡ ok newest) (positive : 0 < every) where
  abbrev FiresFrom : ℕ → List ℤ → Type 0
  FiresFrom next indices =
      (k : ℕ) (i : ℤ) → get_elem? indices k ≡ some i → IsFirst (next + k * every) new_data (after i)

  FiresFrom-cons :
      (next j : ℕ) (indices : List ℤ)
      → IsFirst next new_data j
      → FiresFrom (next + every) indices
      → FiresFrom next (before j ∷ indices)
  FiresFrom-cons next j indices first rest zero i e =
      let same : before j ≡ i = cc in
      let at_j : j ≡ after i = sym (after-before j) ∙ ap after same in
      let at_next : next ≡ next + 0 * every = omega arith in
      subst (λ t. IsFirst t new_data (after i)) at_next (subst (IsFirst next new_data) at_j first)
  FiresFrom-cons next j indices first rest (suc k) i e =
      let at_next : next + every + k * every ≡ next + suc k * every = omega arith in
      subst (λ t. IsFirst t new_data (after i)) at_next (rest k i e)

  loop_lem :
      (fuel next : ℕ)
      → newest.timestamp + 1 - next ≤ fuel
      → (indices : List ℤ) × (next' : ℕ) × (loop fuel every newest.timestamp next new_data
          ≡ ok (indices, next'))
        × (newest.timestamp < next')
        × (next' ≡ next + length indices * every)
        × FiresFrom next indices
  unfolding loop
  loop_lem zero next h = ([], next, refl, omega arith, omega arith, λ k i e. ground arith)
  loop_lem (suc fuel) next h = elim (Bool-cases (leb next newest.timestamp)) [
    | inl due ↦
        let (j, found, first) = first_from_lem 0 next new_data newest is_last (leb→le _ _ due) in
        let (indices, next', run, past, total, fires) =
          loop_lem fuel (next + every) (omega (tests, due)) in
        let found' : first_from 0 next new_data ≡ ok j = found ∙ ap ok (zero_plus j) in
        (
          before j ∷ indices,
          next',
          rw (due, found', run),
          past,
          omega (arith, total),
          FiresFrom-cons next j indices first fires,
        )
    | inr done ↦ ([], next, rw done, leb→lt _ _ done, omega arith, λ k i e. ground arith)
  ]

-- When `inform` takes its boundaries from, on the data that it is called with.
abbrev pub starts_at : TimeTrigger → DataPoint → ℕ
starts_at t first = elim t.next_trigger_at [
  | some next ↦ next
  | none ↦ first.timestamp + t.trigger_every_s
]

inform_eq :
    (t : TimeTrigger) (d : DataPoint) (ds : List DataPoint)
    → inform t (d ∷ ds) ≡ inform_from t (starts_at t d) (d ∷ ds)
unfolding inform
inform_eq t d ds = ground arith

-- A TimeTrigger with a positive interval, called on any data that is not empty, does not raise.
-- With the boundaries next, next + every, next + 2 * every, ..., counted from `next_trigger_at` or,
-- on the first call, from one interval after the first item, it returns one index for each boundary
-- up to the last item's timestamp: the k-th index is that of the item just before the first item
-- whose timestamp reaches the k-th boundary. Afterwards the next boundary lies after the last item.
pub time_inform_lem :
    (t : TimeTrigger) (d : DataPoint) (ds : List DataPoint) (newest : DataPoint)
    → 0 < t.trigger_every_s
    → last (d ∷ ds) ≡ ok newest
    → (indices : List ℤ) × (next' : ℕ) × (inform t (d ∷ ds)
        ≡ ok (indices, record t { next_trigger_at = some next' }))
      × (newest.timestamp < next')
      × (next' ≡ starts_at t d + length indices * t.trigger_every_s)
      × ((k : ℕ) (i : ℤ)
          → get_elem? indices k ≡ some i
          → IsFirst (starts_at t d + k * t.trigger_every_s) (d ∷ ds) (after i))
unfolding inform_from
time_inform_lem t d ds newest positive is_last =
    let (indices, next', run, past, total, fires) =
      loop_lem t.trigger_every_s (d ∷ ds) newest is_last positive
        (newest.timestamp + 1 - starts_at t d) (starts_at t d) (le_refl _) in
    (indices, next', inform_eq t d ds ∙ rw (is_last, run), past, total, fires)
