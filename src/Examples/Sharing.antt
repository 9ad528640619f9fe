-- ===== src/Examples/Sharing.antt =====
-- Concrete runs of the presampling strategies.
use modyn.Presampling.FairShare.{
  index_of, below_fair_share, entry_at, sum_at, kept, get_fair_share,
  get_fair_share_predicted_total,
}
use modyn.Presampling.FairShare.Bounds.{get_fair_share-total}
use modyn.Presampling.FairShare.Maximal.{Distinct}
use modyn.Presampling.FairShare.Largest.{get_fair_share-Largest}
use modyn.Prelude.{All, ok, ℕ, suc, ◌/◌, ◌≤◌, ◌<◌, ◌≡◌, refl, ◌⊎◌, List, [], ◌∷◌, arith}

abbrev uneven : List ℕ
uneven = 2 ∷ 7 ∷ 100 ∷ []

-- Equal requests are taken for one: the first passes on the capacity of all of them.
equal_requests : get_fair_share 5 5 (1 ∷ 1 ∷ 1 ∷ 1 ∷ 100 ∷ []) ≡ ok 0
unfolding get_fair_share below_fair_share index_of sum_at entry_at kept
equal_requests = refl

uneven_share : get_fair_share 3 30 uneven ≡ ok 21
unfolding get_fair_share below_fair_share index_of sum_at entry_at kept
uneven_share = refl

get_fair_share-total_example :
    (f : ℕ) × (get_fair_share 3 30 uneven ≡ ok f) × (get_fair_share_predicted_total f uneven ≤ 30)
get_fair_share-total_example = get_fair_share-total 3 30 uneven (omega arith) (omega arith)

get_fair_share-Largest_example :
    (f : ℕ) × (get_fair_share 3 30 uneven ≡ ok f)
    × (30 / 3 ≤ f)
    × (All (λ x. x ≤ f) uneven ⊎ (30 < get_fair_share_predicted_total (suc f) uneven))
unfolding Distinct
get_fair_share-Largest_example =
    get_fair_share-Largest 3 30 uneven (refl, (refl, (refl, tt))) (omega arith) (omega arith)
