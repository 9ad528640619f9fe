-- ===== src/Presampling/FairShare/Largest.antt =====
-- How large the share is that `get_fair_share` computes for requests no two of which are equal.
use modyn.Presampling.FairShare.Bounds.{predicted-total, low-fits, goes_on}
use modyn.Presampling.FairShare.Maximal.{Distinct, kept-marked, Distinct-high}
use modyn.Presampling.FairShare.{below_fair_share, get_fair_share, get_fair_share_predicted_total}
use modyn.Presampling.FairShare.Picked.{
  low, high, sum_at-below, length-below, members_of, total, total-split, length-split, low-bound,
}
use modyn.Prelude.{
  leb, ◌==◌, leb→le, leb→lt, ==_iff, Bool-cases, length, All, sum, ok, ℕ, zero, suc, ◌-◌, ◌*◌, ◌/◌,
  ◌≤◌, ◌<◌, min, ◌≡◌, refl, sym, ◌∙◌, ◌⊎◌, inl, inr, Bool, true, false, not, ◌&&◌, List, [], ◌∷◌,
  arith, le_refl, le_trans, mul-div-le, le-div_iff_mul-le,
}

-- The pass that ends: every request is low, or none is.
every_low : (f : ℕ) (rs : List ℕ) → length rs ≤ length (low f rs) → All (λ x. x ≤ f) rs
unfolding low
every_low f [] h = tt
every_low f (r ∷ rs) h = elim (Bool-cases (leb r f)) [
  | inl e ↦ (leb→le _ _ e, every_low f rs (omega (arith, rw e at h)))
  | inr e ↦ absurd (omega (arith, rw e at h, length-split f rs))
]

none-low :
    (f : ℕ) (rs : List ℕ)
    → length (low f rs) ≡ 0
    → get_fair_share_predicted_total (suc f) rs ≡ length rs * suc f
unfolding low get_fair_share_predicted_total
none-low f [] h = omega arith
none-low f (r ∷ rs) h = elim (Bool-cases (leb r f)) [
  | inl e ↦ absurd (omega (arith, rw e at h))
  | inr e ↦ grind (arith, none-low f rs (rw e at h), leb→lt _ _ e)
]

quotient-next : (capacity n : ℕ) → 0 < n → capacity < n * suc (capacity / n)
quotient-next capacity n pos =
    let next = n * suc (capacity / n) in
    elim (Bool-cases (leb next capacity)) [
      | inl e ↦
          let more =
            (le-div_iff_mul-le {x = suc (capacity / n)} {y = capacity} pos).1
              (grind (arith, leb→le _ _ e)) in
          absurd (omega (arith, more))
      | inr e ↦ leb→lt _ _ e
    ]

-- The pass that goes on: the share does not fall.
share_grows :
    (capacity : ℕ) (rs : List ℕ)
    → 0 < length (high (capacity / length rs) rs)
    → (let f = capacity / length rs in f ≤ (capacity - sum (low f rs)) / length (high f rs))
share_grows capacity rs pos =
    let f = capacity / length rs in
    (le-div_iff_mul-le pos).1
      (grind (arith, low-bound f rs, length-split f rs, mul-div-le capacity (length rs)))

low-total : (f g : ℕ) (rs : List ℕ) → f ≤ g → total (min (suc g)) (low f rs) ≡ sum (low f rs)
unfolding low total
low-total f g [] h = refl
low-total f g (r ∷ rs) h = elim (Bool-cases (leb r f)) [
  | inl e ↦ rw e (omega (arith, low-total f g rs h, leb→le _ _ e, h))
  | inr e ↦ rw e (low-total f g rs h)
]

every_high : (f g : ℕ) (rs : List ℕ) → f ≤ g → All (λ x. x ≤ g) (high f rs) → All (λ x. x ≤ g) rs
unfolding high
every_high f g [] h a = tt
every_high f g (r ∷ rs) h a = elim (Bool-cases (leb r f)) [
  | inl e ↦ (le_trans (leb→le _ _ e) h, every_high f g rs h (rw e at a))
  | inr e ↦ let b = rw e at a in (b.0, every_high f g rs h b.1)
]

Largest : ℕ → ℕ → List ℕ → Type 0
Largest capacity f requests =
    All (λ x. x ≤ f) requests ⊎ (capacity < get_fair_share_predicted_total (suc f) requests)

-- The two kinds of pass.
stop-Largest :
    (capacity : ℕ) (rs : List ℕ)
    → 0 < length rs
    → (let f = capacity / length rs in
        (length (low f rs) ≡ 0 ⊎ length rs ≡ length (low f rs)) → Largest capacity f rs)
unfolding Largest
stop-Largest capacity rs pos (inl no_one) = inr (
    omega
      (arith, none-low (capacity / length rs) rs no_one, quotient-next capacity (length rs) pos))
stop-Largest capacity rs pos (inr every) =
    inl (every_low (capacity / length rs) rs (omega (arith, every)))

step-Largest :
    (capacity g : ℕ) (rs : List ℕ)
    → 0 < length rs
    → (let f = capacity / length rs in
        f ≤ g → Largest (capacity - sum (low f rs)) g (high f rs) → Largest capacity g rs)
unfolding Largest
step-Largest capacity g rs pos h (inl every) = inl (every_high (capacity / length rs) g rs h every)
step-Largest capacity g rs pos h (inr more) =
    let f = capacity / length rs in
    inr (
      omega (
        arith,
        more,
        predicted-total (suc g) rs,
        predicted-total (suc g) (high f rs),
        total-split (min (suc g)) f rs,
        low-total f g rs h,
        low-fits capacity rs pos,
      ))

stops_at : (a b : ℕ) → (not (a == 0) && not (b == a)) ≡ false → a ≡ 0 ⊎ b ≡ a
stops_at a b h = elim (Bool-cases (a == 0)) [
  | inl z ↦ inl ((==_iff a 0).0 z)
  | inr positive ↦ elim (Bool-cases (b == a)) [
    | inl e ↦ inr ((==_iff b a).0 e)
    | inr e ↦ absurd (clash (a == 0) (b == a) positive e h)
  ]
]
  where
    clash : (s t : Bool) → s ≡ false → t ≡ false → (not s && not t) ≡ false → ⊥
    clash true t e f h = cc e
    clash false true e f h = cc f
    clash false false e f h = cc h

stop_cases : {a b c : ℕ} → a ≡ c → (a ≡ 0 ⊎ b ≡ a) → (c ≡ 0 ⊎ b ≡ c)
stop_cases e (inl z) = inl (sym e ∙ z)
stop_cases e (inr f) = inr (f ∙ e)

-- For requests of which no two are equal, not empty, with as much fuel as there are requests,
-- `get_fair_share` returns a share that is at least an equal part of the capacity, and a larger one
-- would be of no use: each request is at most the share, or one more allots more than the capacity.
pub get_fair_share-Largest :
    (fuel capacity : ℕ) (requests : List ℕ)
    → Distinct requests
    → 0 < length requests
    → length requests ≤ fuel
    → (f : ℕ) × (get_fair_share fuel capacity requests ≡ ok f)
      × (capacity / length requests ≤ f)
      × (All (λ x. x ≤ f) requests ⊎ (capacity < get_fair_share_predicted_total (suc f) requests))
unfolding get_fair_share Largest
get_fair_share-Largest zero capacity requests d pos enough = absurd (omega (arith, pos, enough))
get_fair_share-Largest (suc fuel) capacity [] d pos enough = absurd (omega (arith, pos))
get_fair_share-Largest (suc fuel) capacity (r ∷ rs) d pos enough =
    let requests = r ∷ rs in
    let f = capacity / length requests in
    let below = below_fair_share f requests requests in
    let later = kept-marked f requests 0 requests d refl in
    let out = sum_at-below f requests requests (members_of requests) in
    let counts = length-below f requests requests in
    elim (Bool-cases (not (length below == 0) && not (length requests == length below))) [
      | inl go ↦
          let some_out = goes_on (length below) (length requests) go in
          let left : 0 < length (high f requests) =
            omega (arith, length-split f requests, counts, some_out.1) in
          let rest =
            get_fair_share-Largest fuel (capacity - sum (low f requests)) (high f requests)
              (Distinct-high f requests d) left
              (omega (arith, length-split f requests, counts, some_out.0, enough)) in
          let grows = le_trans (share_grows capacity requests left) rest.2 in
          rw (go, later, out)
            (rest.0, rest.1, grows, step-Largest capacity rest.0 requests pos grows rest.3)
      | inr stop ↦ rw stop (
        f,
        refl,
        le_refl f,
        stop-Largest capacity requests pos
            (stop_cases counts (stops_at (length below) (length requests) stop)),
      )
    ]
