-- ===== src/Triggers/Amount/Count.antt =====
-- Which items of a stream cause a DataAmountTrigger.
use modyn.Prelude.{
  leb, lt→ltb, tests, Bool-cases, length, get_elem?, concat, length-append, Result, ok, ◌>>=◌, ℕ,
  ◌+◌, ◌-◌, ◌*◌, ◌/◌, ◌%◌, ◌<◌, ◌≡◌, refl, sym, ap, ◌∙◌, inl, inr, some, List, [], ◌∷◌, ◌++◌, arith,
  add_assoc,
}
use native.Mathlib.Nat.{div-add-mod', mul-add-div_right, div-eq_of_lt}
use modyn.Data.{DataPoint}
use modyn.Prelude.Range.{range_list, length-steps, get_elem?-steps}
use modyn.Triggers.Amount.{DataAmountTrigger, inform}

ceil_count : (d r n : ℕ) → r < d → (n - (d - r - 1) + (d - 1)) / d ≡ (r + n) / d
ceil_count d r n h = elim (Bool-cases (leb (d - r - 1) n)) [
  | inl enough ↦
      let same : n - (d - r - 1) + (d - 1) ≡ r + n = omega (tests, enough) in ap (λ k. k / d) same
  | inr short ↦
      let none_left : n - (d - r - 1) ≡ 0 = omega (tests, short) in
      rw none_left (
        let below : 0 + (d - 1) < d = omega arith in
        let below' : r + n < d = omega (tests, short) in div_lt below ∙ sym (div_lt below'))
]
  where
    div_lt : {a : ℕ} → a < d → a / d ≡ 0
    div_lt h' = grind arith

module _ (t : DataAmountTrigger) (new_data : List DataPoint) where
  abbrev reached : ℕ
  reached = t.remaining_data_points + length new_data

  -- A call on a trigger whose counter is below the threshold d does not raise. With r points
  -- counted before and n new ones, it fires (r + n) / d times, the k-th time (from 0) at the item
  -- that is number (k + 1) * d since the counter was zero; the new counter is (r + n) % d, so it is
  -- again below d.
  pub amount_inform_lem :
      t.remaining_data_points < t.data_points_for_trigger
      → (indices : List ℕ) × (t' : DataAmountTrigger) × (inform t new_data ≡ ok (indices, t'))
        × (length indices ≡ reached / t.data_points_for_trigger)
        × ((k i : ℕ)
            → get_elem? indices k ≡ some i
            → t.remaining_data_points + i + 1 ≡ (k + 1) * t.data_points_for_trigger)
        × (t'.data_points_for_trigger ≡ t.data_points_for_trigger)
        × (t'.remaining_data_points ≡ reached % t.data_points_for_trigger)
        × (t'.remaining_data_points < t'.data_points_for_trigger)
  unfolding inform range_list
  amount_inform_lem h = rw (lt→ltb t.remaining_data_points t.data_points_for_trigger h) (
    _,
    _,
    refl,
    length-steps _ t.data_points_for_trigger _
        ∙ ceil_count t.data_points_for_trigger t.remaining_data_points (length new_data) h,
    λ k i e. omega (arith, get_elem?-steps _ t.data_points_for_trigger _ k i e),
    refl,
    refl,
    grind arith,
  )

-- The number of triggers over a list of batches, and the trigger after them.
pub inform_all : DataAmountTrigger → List (List DataPoint) → Result (ℕ × DataAmountTrigger)
inform_all t [] = ok (0, t)
inform_all t (batch ∷ batches) = do
  (indices, t') ← inform t batch
  (count, t'') ← inform_all t' batches
  ok (length indices + count, t'')

div_in_two : (r m n d : ℕ) → 0 < d → (r + m) / d + ((r + m) % d + n) / d ≡ (r + m + n) / d
div_in_two r m n d h =
    let split : r + m + n ≡ (r + m) / d * d + ((r + m) % d + n) =
      omega (arith, div-add-mod' (r + m) d) in
    sym (ap (λ k. k / d) split ∙ mul-add-div_right h ((r + m) / d) ((r + m) % d + n))

nothing_more : {r d : ℕ} → r < d → (r + 0) / d ≡ 0
nothing_more {r} h = let same : r + 0 ≡ r = omega arith in rw same (div-eq_of_lt h)

regroup : (r m n d : ℕ) → 0 < d → (r + m) / d + ((r + m) % d + n) / d ≡ (r + (m + n)) / d
regroup r m n d h = div_in_two r m n d h ∙ ap (λ k. k / d) (add_assoc r m n)

-- However a stream is cut into batches, a trigger whose counter r is below the threshold d fires
-- (r + n) / d times over the n items of all batches together, and no call raises.
pub amount_inform_all_lem :
    (t : DataAmountTrigger) (batches : List (List DataPoint))
    → t.remaining_data_points < t.data_points_for_trigger
    → (t' : DataAmountTrigger) × (inform_all t batches
        ≡ ok ((t.remaining_data_points + length (concat batches)) / t.data_points_for_trigger, t'))
unfolding inform_all
amount_inform_all_lem t [] h = (t, ap (λ (n : ℕ). ok (n, t)) (sym (nothing_more h)))
amount_inform_all_lem t (batch ∷ batches) h =
    let (indices, t', run, count, _, same, rest, below) = amount_inform_lem t batch h in
    let (t'', run') = amount_inform_all_lem t' batches below in
    let total =
      regroup t.remaining_data_points (length batch) (length (concat batches))
        t.data_points_for_trigger (omega arith) in
    (t'', rw (run, run') (ap (λ (n : ℕ). ok (n, t'')) (rw (count, same, rest, appended) total)))
  where
    appended : length (batch ++ concat batches) ≡ length batch + length (concat batches)
    appended = length-append batch (concat batches)
