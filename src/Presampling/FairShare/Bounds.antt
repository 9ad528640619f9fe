-- ===== src/Presampling/FairShare/Bounds.antt =====
-- What a pass of `get_fair_share` allots, and what is left to the next one.
use modyn.Presampling.FairShare.{
  below_fair_share, sum_at, kept, get_fair_share, get_fair_share_predicted_total,
}
use modyn.Presampling.FairShare.Picked.{
  low, high, sum_at-below, length-below, members_of, below-low, total, kept-high, below-IsSmall,
  kept-below-shorter, total-split, length-split, low-bound,
}
use modyn.Prelude.{
  ◌==◌, ==_iff, Bool-cases, length, sum, ok, ℕ, zero, suc, ◌+◌, ◌-◌, ◌*◌, ◌/◌, ◌≤◌, ◌<◌, min, ◌≡◌,
  refl, sym, ap, ◌≢◌, inl, inr, Bool, true, false, not, ◌&&◌, List, [], ◌∷◌, arith, mul-div-le,
}

-- The totals of a sum, of a count and of what a share allots.
sum-total : (rs : List ℕ) → sum rs ≡ total (λ x. x) rs
unfolding total
sum-total [] = refl
sum-total (r ∷ rs) = ap (λ n. r + n) (sum-total rs)

length-total : (rs : List ℕ) → length rs ≡ total (λ _. 1) rs
unfolding total
length-total [] = refl
length-total (r ∷ rs) = omega (arith, length-total rs)

pub predicted-total : (f : ℕ) (rs : List ℕ) → get_fair_share_predicted_total f rs ≡ total (min f) rs
unfolding get_fair_share_predicted_total total
predicted-total f [] = refl
predicted-total f (r ∷ rs) = ap (λ n. min f r + n) (predicted-total f rs)

pub high-length :
    (f : ℕ) (rs : List ℕ) → length (high f rs) ≤ length (kept (below_fair_share f rs rs) 0 rs)
high-length f rs = omega (
  arith,
  length-total (high f rs),
  length-total (kept (below_fair_share f rs rs) 0 rs),
  kept-high (λ _. 1) f rs (below_fair_share f rs rs) 0 rs (below-low f rs rs (members_of rs)) refl,
)

-- What a share allots is at most what is asked for, and at most the share for each.
pub predicted-sum : (f : ℕ) (rs : List ℕ) → get_fair_share_predicted_total f rs ≤ sum rs
unfolding get_fair_share_predicted_total
predicted-sum f [] = omega arith
predicted-sum f (r ∷ rs) = ground (arith, predicted-sum f rs)

pub predicted-length : (f : ℕ) (rs : List ℕ) → get_fair_share_predicted_total f rs ≤ length rs * f
unfolding get_fair_share_predicted_total
predicted-length f [] = omega arith
predicted-length f (r ∷ rs) = ground (arith, predicted-length f rs)

-- The low requests fit into the capacity.
pub low-fits :
    (capacity : ℕ) (rs : List ℕ) → 0 < length rs → sum (low (capacity / length rs) rs) ≤ capacity
low-fits capacity rs pos =
    let f = capacity / length rs in
    grind (arith, low-bound f rs, length-split f rs, mul-div-le capacity (length rs))

-- A pass that goes on: what the rest allots fits beside the low requests.
step_fits :
    (capacity : ℕ) (rs : List ℕ) (g : ℕ)
    → 0 < length rs
    → (let f = capacity / length rs in
        get_fair_share_predicted_total g (kept (below_fair_share f rs rs) 0 rs)
        ≤ capacity - sum_at rs (below_fair_share f rs rs))
    → get_fair_share_predicted_total g rs ≤ capacity
step_fits capacity rs g pos h =
    let f = capacity / length rs in
    omega (
      arith,
      h,
      predicted-total g rs,
      total-split (min g) f rs,
      predicted-total g (low f rs),
      predicted-sum g (low f rs),
      predicted-total g (kept (below_fair_share f rs rs) 0 rs),
      kept-high (min g) f rs (below_fair_share f rs rs) 0 rs (below-low f rs rs (members_of rs))
          refl,
      sum_at-below f rs rs (members_of rs),
      low-fits capacity rs pos,
    )

-- A pass that goes on takes some requests out, and not all of them.
pub goes_on : (a b : ℕ) → (not (a == 0) && not (b == a)) ≡ true → (0 < a) × (a ≢ b)
goes_on zero b h = cc h
goes_on (suc a) b h =
    (omega arith, λ e. clash (not (suc a == 0)) (b == suc a) h ((==_iff b (suc a)).1 (sym e)))
  where
    clash : (s t : Bool) → (s && not t) ≡ true → t ≡ true → ⊥
    clash true true h e = cc h
    clash true false h e = cc e
    clash false t h e = cc h

-- For requests that are not empty, with as much fuel as there are requests, `get_fair_share` returns
-- a share, and what it allots to all requests, at most the share to each, is at most the capacity.
pub get_fair_share-total :
    (fuel capacity : ℕ) (requests : List ℕ)
    → 0 < length requests
    → length requests ≤ fuel
    → (f : ℕ) × (get_fair_share fuel capacity requests ≡ ok f)
      × (get_fair_share_predicted_total f requests ≤ capacity)
unfolding get_fair_share
get_fair_share-total zero capacity requests pos enough = absurd (omega (arith, pos, enough))
get_fair_share-total (suc fuel) capacity [] pos enough = absurd (omega (arith, pos))
get_fair_share-total (suc fuel) capacity (r ∷ rs) pos enough =
    let requests = r ∷ rs in
    let f = capacity / length requests in
    let below = below_fair_share f requests requests in
    let members = members_of requests in
    elim (Bool-cases (not (length below == 0) && not (length requests == length below))) [
      | inl go ↦
          let later = kept below 0 requests in
          let some_out = goes_on (length below) (length requests) go in
          let shorter =
            kept-below-shorter requests below (below-IsSmall f requests requests members)
              some_out.0 in
          let left : 0 < length later = omega (
            arith,
            high-length f requests,
            length-split f requests,
            length-below f requests requests,
            some_out.1,
          ) in
          let rest =
            get_fair_share-total fuel (capacity - sum_at requests below) later left
              (omega (arith, shorter, enough)) in
          rw go (rest.0, rest.1, step_fits capacity requests rest.0 pos rest.2)
      | inr stop ↦ rw stop (
        f,
        refl,
        omega (arith, predicted-length f requests, mul-div-le capacity (length requests)),
      )
    ]
