-- ===== src/Presampling/FairShare/Maximal.antt =====
-- `get_fair_share` of requests no two of which are equal: `requests.index` then gives an element's
-- own index, and the share cannot be larger.
use modyn.Presampling.FairShare.{index_of, below_fair_share, entry_at, kept}
use modyn.Presampling.FairShare.Picked.{
  high, mem-tail, members_of, below-low, high-unmarked, entry_at-drop, drop-tail,
}
use modyn.Prelude.{
  leb, ◌==◌, leb→le, le→leb, leb→lt, ==_iff, ==_refl, Bool-cases, length, drop, mem, drop-nil, ℕ,
  zero, suc, ◌≤◌, ◌<◌, ◌≡◌, refl, sym, ap, ◌∙◌, subst, inl, inr, true, false, ◌||◌, List, [], ◌∷◌,
  arith,
}

unfoldable pub Distinct : List ℕ → Type 0
Distinct [] = Unit
Distinct (r ∷ rs) = (mem r rs ≡ false) × Distinct rs

entry_at-mem : (rs : List ℕ) (i : ℕ) → i < length rs → mem (entry_at rs i) rs ≡ true
unfolding entry_at
entry_at-mem [] i h = absurd (omega (arith, h))
entry_at-mem (r ∷ rs) zero h = rw (==_refl r) refl
entry_at-mem (r ∷ rs) (suc i) h =
    (mem-tail rs r (entry_at rs i ∷ []) (entry_at-mem rs i (omega (arith, h)), tt)).0

index_of-entry_at :
    (rs : List ℕ) (i : ℕ) → Distinct rs → i < length rs → index_of rs (entry_at rs i) ≡ i
unfolding index_of entry_at Distinct
index_of-entry_at [] i d h = absurd (omega (arith, h))
index_of-entry_at (r ∷ rs) zero d h = rw (==_refl r) refl
index_of-entry_at (r ∷ rs) (suc i) d h = elim (Bool-cases (r == entry_at rs i)) [
  | inl e ↦ cc (
    d.0,
    ap (λ x. mem x rs) ((==_iff r (entry_at rs i)).0 e),
    entry_at-mem rs i (omega (arith, h)),
  )
  | inr e ↦ rw (e, index_of-entry_at rs i d.1 (omega (arith, h))) refl
]

below-mem :
    (f : ℕ) (rs els : List ℕ) (x : ℕ)
    → mem x els ≡ true
    → x ≤ f
    → mem (index_of rs x) (below_fair_share f rs els) ≡ true
unfolding below_fair_share
below-mem f rs [] x m h = cc m
below-mem f rs (y ∷ els) x m h = elim (Bool-cases (y == x)) [
  | inl e ↦
      let same = (==_iff y x).0 e in
      rw (le→leb y f (omega (arith, same, h)), same, ==_refl (index_of rs x)) refl
  | inr e ↦
      let rest = below-mem f rs els x (ap (λ b. b || mem x els) (sym e) ∙ m) h in
      elim (Bool-cases (leb y f)) [
        | inl l ↦ rw l (
            (mem-tail (below_fair_share f rs els) (index_of rs y) (index_of rs x ∷ [])
              (rest, tt)).0)
        | inr l ↦ rw l rest
      ]
]

drop-IsSmall : (i : ℕ) (rs : List ℕ) (x : ℕ) (xs : List ℕ) → drop i rs ≡ x ∷ xs → i < length rs
drop-IsSmall i [] x xs e = cc (drop-nil i, e)
drop-IsSmall zero (r ∷ rs) x xs e = omega arith
drop-IsSmall (suc i) (r ∷ rs) x xs e = omega (arith, drop-IsSmall i rs x xs e)

-- Just the low requests are taken out.
pub kept-marked :
    (f : ℕ) (rs : List ℕ) (i : ℕ) (xs : List ℕ)
    → Distinct rs
    → drop i rs ≡ xs
    → kept (below_fair_share f rs rs) i xs ≡ high f xs
unfolding kept high
kept-marked f rs i [] d e = refl
kept-marked f rs i (x ∷ xs) d e =
    let below = below_fair_share f rs rs in
    let rest = kept-marked f rs (suc i) xs d (drop-tail i rs x xs e) in
    let here = entry_at-drop i rs x xs e in
    elim (Bool-cases (leb x f)) [
      | inl low_one ↦
          let small = drop-IsSmall i rs x xs e in
          let m =
            subst (λ n. mem n below ≡ true) (index_of-entry_at rs i d small)
              (below-mem f rs rs (entry_at rs i) (entry_at-mem rs i small)
                (subst (λ n. n ≤ f) (sym here) (leb→le _ _ low_one))) in
          rw (low_one, m) rest
      | inr high_one ↦
          let m =
            high-unmarked f rs i below (below-low f rs rs (members_of rs))
              (subst (λ n. f < n) (sym here) (leb→lt _ _ high_one)) in
          rw (high_one, m) (ap (λ ys. x ∷ ys) rest)
    ]

pub Distinct-high : (f : ℕ) (rs : List ℕ) → Distinct rs → Distinct (high f rs)
unfolding Distinct high
Distinct-high f [] d = tt
Distinct-high f (r ∷ rs) d = elim (Bool-cases (leb r f)) [
  | inl e ↦ rw e (Distinct-high f rs d.1)
  | inr e ↦ rw e (unmarked r rs d.0, Distinct-high f rs d.1)
]
  where
    unmarked : (x : ℕ) (rs : List ℕ) → mem x rs ≡ false → mem x (high f rs) ≡ false
    unmarked x [] m = refl
    unmarked x (y ∷ ys) m = elim (Bool-cases (y == x)) [
      | inl e ↦ cc (m, e)
      | inr e ↦
          let rest = unmarked x ys (ap (λ b. b || mem x ys) (sym e) ∙ m) in
          elim (Bool-cases (leb y f)) [ inl l ↦ rw l rest | inr l ↦ rw (l, e) rest ]
    ]
