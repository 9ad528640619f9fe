-- ===== src/Presampling/FairShare.antt =====
-- `get_fair_share` of abstract_balanced_strategy.py. `int(capacity / len(requests))` is the quotient,
-- exactly so for numbers below 2 ** 53. The recursion is on fuel; without fuel it raises what Python
-- raises for a recursion that is too deep.
pub mod Picked
pub mod Bounds
pub mod Maximal
pub mod Largest
use modyn.Prelude.{
  leb, ◌==◌, if◌then◌else◌, length, mem, recursion_error, zero_division_error, Result, ok, raise, ℕ,
  zero, suc, ◌+◌, ◌-◌, ◌/◌, min, not, ◌&&◌, List, [], ◌∷◌,
}

-- `requests.index(el)`, for an element of the list.
unfoldable pub index_of : List ℕ → ℕ → ℕ
index_of [] el = 0
index_of (r ∷ requests) el = if r == el then 0 else suc (index_of requests el)

-- `[requests.index(el) for el in requests if el <= fair_share]`, for the elements of a part.
unfoldable pub below_fair_share : ℕ → List ℕ → List ℕ → List ℕ
below_fair_share fair_share requests [] = []
below_fair_share fair_share requests (el ∷ els) =
    let rest = below_fair_share fair_share requests els in
    if leb el fair_share then index_of requests el ∷ rest else rest

-- `requests[i]` for an index in range.
unfoldable pub entry_at : List ℕ → ℕ → ℕ
entry_at [] i = 0
entry_at (r ∷ requests) zero = r
entry_at (r ∷ requests) (suc i) = entry_at requests i

-- `sum(requests[i] for i in below_fair_share)`
unfoldable pub sum_at : List ℕ → List ℕ → ℕ
sum_at requests [] = 0
sum_at requests (i ∷ indices) = entry_at requests i + sum_at requests indices

-- `[requests[i] for i in range(len(requests)) if i not in below_fair_share]`, from the index `i` on.
unfoldable pub kept : List ℕ → ℕ → List ℕ → List ℕ
kept indices i [] = []
kept indices i (r ∷ requests) =
    let rest = kept indices (suc i) requests in if mem i indices then rest else r ∷ rest

unfoldable pub get_fair_share : ℕ → ℕ → List ℕ → Result ℕ
get_fair_share zero capacity requests = raise recursion_error
get_fair_share (suc fuel) capacity [] = raise zero_division_error
get_fair_share (suc fuel) capacity (r ∷ rs) =
    let fair_share = capacity / length (r ∷ rs) in
    let below = below_fair_share fair_share (r ∷ rs) (r ∷ rs) in
    let new_capacity = capacity - sum_at (r ∷ rs) below in
    let share = get_fair_share fuel new_capacity (kept below 0 (r ∷ rs)) in
    if not (length below == 0) && not (length (r ∷ rs) == length below)
    then share
    else ok fair_share

unfoldable pub get_fair_share_predicted_total : ℕ → List ℕ → ℕ
get_fair_share_predicted_total fair_share [] = 0
get_fair_share_predicted_total fair_share (req ∷ requests) =
    min fair_share req + get_fair_share_predicted_total fair_share requests
