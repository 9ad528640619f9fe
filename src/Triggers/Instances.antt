-- ===== src/Triggers/Instances.antt =====
-- Both triggers provide what the executor relies on.
use modyn.Triggers.Amount.{DataAmountTrigger, inform as amount_inform}
use modyn.Triggers.Amount.Count.{amount_inform_lem}
use modyn.Triggers.Time.{TimeTrigger, before, last, inform as time_inform}
use modyn.Triggers.Time.Boundaries.{IsFirst, starts_at, time_inform_lem}
use modyn.Triggers.Interface.{IsOrdered, Trigger}
use modyn.Prelude.Int.{ℤ, pos, after}
use modyn.Prelude.{
  ltb, ltb→lt, ltb→le, Bool-cases, length, get_elem?, take, All, Result, ok, ◌>>=◌, ℕ, zero, suc,
  ◌+◌, ◌*◌, ◌≤◌, ◌<◌, ◌≡◌, refl, subst, inl, inr, some, List, [], ◌∷◌, map, arith,
}
use modyn.Data.{DataPoint}

-- Indices on a grid of step `d` are in order, and end at `n`.
grid-IsOrdered :
    (d r n lo j : ℕ) (indices : List ℕ)
    → ((k i : ℕ) → get_elem? indices k ≡ some i → r + i + 1 ≡ (j + k + 1) * d)
    → r + lo ≤ (j + 1) * d
    → (j + length indices) * d ≤ r + n
    → IsOrdered lo (map pos indices) n
grid-IsOrdered d r n lo j [] grid from within = tt
grid-IsOrdered d r n lo j (i ∷ is) grid from within =
    let here = grid 0 i refl in
    (
      omega (arith, here),
      omega (arith, here),
      grid-IsOrdered d r n (suc i) (suc j) is (λ k i' e. omega (arith, grid (suc k) i' e))
          (omega (arith, here)) (omega arith),
    )

-- The indices as integers.
abbrev pub inform_integers :
    DataAmountTrigger → List DataPoint → Result (List ℤ × DataAmountTrigger)
inform_integers t new_data = do (is, t') ← amount_inform t new_data; ok (map pos is, t')

pub amount_returns :
    (t : DataAmountTrigger) (d : DataPoint) (ds : List DataPoint)
    → t.remaining_data_points < t.data_points_for_trigger
    → (indices : List ℤ) × (t' : DataAmountTrigger) × (inform_integers t (d ∷ ds)
        ≡ ok (indices, t'))
      × (t'.remaining_data_points < t'.data_points_for_trigger)
      × IsOrdered 0 indices (length (d ∷ ds))
amount_returns t d ds h =
    let (indices, t', run, count, grid, _, _, below) = amount_inform_lem t (d ∷ ds) h in
    (
      map pos indices,
      t',
      rw run,
      below,
      grid-IsOrdered t.data_points_for_trigger t.remaining_data_points (length (d ∷ ds)) 0 0 indices
          (λ k i e. omega (arith, grid k i e)) (omega arith) (grind (arith, count)),
    )

-- A DataAmountTrigger, valid while its counter is below the threshold.
abbrev pub data_amount_trigger : Trigger
data_amount_trigger = record {
  State = DataAmountTrigger;
  inform = inform_integers;
  IsValid = λ t. t.remaining_data_points < t.data_points_for_trigger;
  inform_returns = amount_returns;
}

at_entry :
    (a j j' : ℕ) (xs : List DataPoint) (d : DataPoint)
    → All (λ x. x.timestamp < a) (take j xs)
    → get_elem? xs j' ≡ some d
    → j' < j
    → d.timestamp < a
at_entry a j j' [] d below e h = cc
at_entry a zero j' (x ∷ xs) d below e h = elim h [ ]
at_entry a (suc j) zero (x ∷ xs) d below e h =
    let same : x ≡ d = cc in subst (λ y. y.timestamp < a) same below.0
at_entry a (suc j) (suc j') (x ∷ xs) d below e h = at_entry a j j' xs d below.1 e (omega arith)

in_length : (j : ℕ) (xs : List DataPoint) (d : DataPoint) → get_elem? xs j ≡ some d → j < length xs
in_length j [] d e = cc
in_length zero (x ∷ xs) d e = omega arith
in_length (suc j) (x ∷ xs) d e = omega (arith, in_length j xs d e)

IsFirst-monotone :
    (a b j j' : ℕ) (xs : List DataPoint) → a ≤ b → IsFirst a xs j → IsFirst b xs j' → j ≤ j'
IsFirst-monotone a b j j' xs h (below, _) (_, (d, e, late)) = elim (Bool-cases (ltb j' j)) [
  | inl before ↦
      let early : d.timestamp < a = at_entry a j j' xs d below e (ltb→lt _ _ before) in omega arith
  | inr not_before ↦ ltb→le _ _ not_before
]

fires-IsOrdered :
    (every : ℕ) (xs : List DataPoint) (next lo : ℕ) (indices : List ℤ)
    → ((k : ℕ) (i : ℤ) → get_elem? indices k ≡ some i → IsFirst (next + k * every) xs (after i))
    → ((j : ℕ) → IsFirst next xs j → lo ≤ j)
    → IsOrdered lo indices (length xs)
fires-IsOrdered every xs next lo [] fires from = tt
fires-IsOrdered every xs next lo (i ∷ is) fires from =
    let here = subst (λ t. IsFirst t xs (after i)) (plus_none next) (fires 0 i refl) in
    let (d, e, _) = here.1 in
    (
      from (after i) here,
      omega (arith, in_length (after i) xs d e),
      fires-IsOrdered every xs (next + every) (after i) is
          (λ k i' e. subst (λ t. IsFirst t xs (after i')) (plus_one next k) (fires (suc k) i' e))
          (λ j first. IsFirst-monotone next (next + every) (after i) j xs (omega arith) here first),
    )
  where
    plus_none : (t : ℕ) → t + 0 * every ≡ t
    plus_none t = omega arith

    plus_one : (t k : ℕ) → t + suc k * every ≡ t + every + k * every
    plus_one t k = omega arith

last-ok : (d : DataPoint) (ds : List DataPoint) → (newest : DataPoint) × (last (d ∷ ds) ≡ ok newest)
unfolding last
last-ok d [] = (d, refl)
last-ok d (e ∷ ds) = last-ok e ds

pub time_returns :
    (t : TimeTrigger) (d : DataPoint) (ds : List DataPoint)
    → 0 < t.trigger_every_s
    → (indices : List ℤ) × (t' : TimeTrigger) × (time_inform t (d ∷ ds) ≡ ok (indices, t'))
      × (0 < t'.trigger_every_s)
      × IsOrdered 0 indices (length (d ∷ ds))
time_returns t d ds positive =
    let (newest, is_last) = last-ok d ds in
    let (indices, next', run, _, _, fires) = time_inform_lem t d ds newest positive is_last in
    (
      indices,
      _,
      run,
      positive,
      fires-IsOrdered t.trigger_every_s (d ∷ ds) (starts_at t d) 0 indices fires
          (λ j first. omega arith),
    )

-- A TimeTrigger, valid with a positive interval.
abbrev pub time_trigger : Trigger
time_trigger = record {
  State = TimeTrigger;
  inform = time_inform;
  IsValid = λ t. 0 < t.trigger_every_s;
  inform_returns = time_returns;
}
