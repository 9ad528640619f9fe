-- ===== src/Presampling/FairShare/Picked.antt =====
-- The requests that the recursion takes out, and those that it goes on with.
use modyn.Presampling.FairShare.{index_of, below_fair_share, entry_at, sum_at, kept}
use modyn.Prelude.{
  leb, ◌==◌, if◌then◌else◌, leb→le, leb→lt, ==_iff, ==_refl, tests, Bool-cases, length, drop, All,
  sum, mem, drop-nil, ℕ, zero, suc, ◌+◌, ◌*◌, ◌≤◌, ◌<◌, ◌≡◌, refl, sym, ap, ◌∙◌, subst, inl, inr,
  Bool, true, false, ◌||◌, List, [], ◌∷◌, arith,
}

unfoldable pub low : ℕ → List ℕ → List ℕ
low f [] = []
low f (r ∷ rs) = let rest = low f rs in if leb r f then r ∷ rest else rest

unfoldable pub high : ℕ → List ℕ → List ℕ
high f [] = []
high f (r ∷ rs) = let rest = high f rs in if leb r f then rest else r ∷ rest

entry_at-index_of : (rs : List ℕ) (x : ℕ) → mem x rs ≡ true → entry_at rs (index_of rs x) ≡ x
unfolding entry_at index_of
entry_at-index_of [] x h = cc h
entry_at-index_of (r ∷ rs) x h = elim (Bool-cases (r == x)) [
  | inl e ↦ rw e ((==_iff r x).0 e)
  | inr e ↦ rw e (entry_at-index_of rs x (ap (λ b. b || mem x rs) (sym e) ∙ h))
]

pub sum_at-below :
    (f : ℕ) (rs els : List ℕ)
    → All (λ x. mem x rs ≡ true) els
    → sum_at rs (below_fair_share f rs els) ≡ sum (low f els)
unfolding sum_at below_fair_share low
sum_at-below f rs [] h = refl
sum_at-below f rs (x ∷ els) h = elim (Bool-cases (leb x f)) [
  | inl e ↦ rw (e, entry_at-index_of rs x h.0, sum_at-below f rs els h.1) refl
  | inr e ↦ rw e (sum_at-below f rs els h.1)
]

pub length-below :
    (f : ℕ) (rs els : List ℕ) → length (below_fair_share f rs els) ≡ length (low f els)
unfolding below_fair_share low
length-below f rs [] = refl
length-below f rs (x ∷ els) = elim (Bool-cases (leb x f)) [
  | inl e ↦ rw (e, length-below f rs els) refl
  | inr e ↦ rw e (length-below f rs els)
]

pub mem-tail :
    (rs : List ℕ) (r : ℕ) (els : List ℕ)
    → All (λ x. mem x rs ≡ true) els
    → All (λ x. mem x (r ∷ rs) ≡ true) els
mem-tail rs r [] h = tt
mem-tail rs r (x ∷ els) h = (rw h.0 (or_true (r == x)), mem-tail rs r els h.1)
  where
    or_true : (b : Bool) → (b || true) ≡ true
    or_true true = refl
    or_true false = refl

pub members_of : (rs : List ℕ) → All (λ x. mem x rs ≡ true) rs
members_of [] = tt
members_of (r ∷ rs) = (rw (==_refl r) refl, mem-tail rs r rs (members_of rs))

-- Every index that is taken out is that of a low request.
pub below-low :
    (f : ℕ) (rs els : List ℕ)
    → All (λ x. mem x rs ≡ true) els
    → All (λ i. entry_at rs i ≤ f) (below_fair_share f rs els)
unfolding below_fair_share
below-low f rs [] h = tt
below-low f rs (x ∷ els) h = elim (Bool-cases (leb x f)) [
  | inl e ↦ rw e (omega (tests, entry_at-index_of rs x h.0, leb→le _ _ e), below-low f rs els h.1)
  | inr e ↦ rw e (below-low f rs els h.1)
]

pub high-unmarked :
    (f : ℕ) (rs : List ℕ) (i : ℕ) (indices : List ℕ)
    → All (λ i. entry_at rs i ≤ f) indices
    → f < entry_at rs i
    → mem i indices ≡ false
high-unmarked f rs i [] h g = refl
high-unmarked f rs i (j ∷ js) h g = elim (Bool-cases (j == i)) [
  | inl e ↦ absurd (omega (arith, h.0, g, ap (entry_at rs) ((==_iff j i).0 e)))
  | inr e ↦ rw (e, high-unmarked f rs i js h.1 g) refl
]

pub entry_at-drop :
    (i : ℕ) (rs : List ℕ) (x : ℕ) (xs : List ℕ) → drop i rs ≡ x ∷ xs → entry_at rs i ≡ x
unfolding entry_at
entry_at-drop i [] x xs e = cc (drop-nil i, e)
entry_at-drop zero (r ∷ rs) x xs e = cc e
entry_at-drop (suc i) (r ∷ rs) x xs e = entry_at-drop i rs x xs e

pub drop-tail :
    (i : ℕ) (rs : List ℕ) (x : ℕ) (xs : List ℕ) → drop i rs ≡ x ∷ xs → drop (suc i) rs ≡ xs
drop-tail i [] x xs e = cc (drop-nil i, e)
drop-tail zero (r ∷ rs) x xs e = cc e
drop-tail (suc i) (r ∷ rs) x xs e = drop-tail i rs x xs e

kept-length : (indices : List ℕ) (i : ℕ) (xs : List ℕ) → length (kept indices i xs) ≤ length xs
unfolding kept
kept-length indices i [] = omega arith
kept-length indices i (x ∷ xs) = elim (Bool-cases (mem i indices)) [
  | inl m ↦ rw m (omega (arith, kept-length indices (suc i) xs))
  | inr m ↦ rw m (omega (arith, kept-length indices (suc i) xs))
]

-- Whatever is summed up, the high requests are among those that are kept.
unfoldable pub total : (ℕ → ℕ) → List ℕ → ℕ
total g [] = 0
total g (r ∷ rs) = g r + total g rs

pub kept-high :
    (g : ℕ → ℕ) (f : ℕ) (rs : List ℕ) (indices : List ℕ) (i : ℕ) (xs : List ℕ)
    → All (λ i. entry_at rs i ≤ f) indices
    → drop i rs ≡ xs
    → total g (high f xs) ≤ total g (kept indices i xs)
unfolding high kept total
kept-high g f rs indices i [] h e = omega arith
kept-high g f rs indices i (x ∷ xs) h e =
    let k = kept-high g f rs indices (suc i) xs h (drop-tail i rs x xs e) in
    elim (Bool-cases (leb x f)) [
      | inl low_one ↦ elim (Bool-cases (mem i indices)) [
        | inl m ↦ rw (low_one, m) k
        | inr m ↦ rw (low_one, m) (omega (arith, k))
      ]
      | inr high_one ↦
          let m =
            high-unmarked f rs i indices h
              (subst (λ n. f < n) (sym (entry_at-drop i rs x xs e)) (leb→lt _ _ high_one)) in
          rw (high_one, m) (omega (arith, k))
    ]

-- Something is taken out when the index of one of them is marked.
pub kept-shorter :
    (indices : List ℕ) (i j k : ℕ) (xs : List ℕ)
    → i + j ≡ k
    → mem k indices ≡ true
    → j < length xs
    → length (kept indices i xs) < length xs
unfolding kept
kept-shorter indices i j k [] e m h = absurd (omega (arith, h))
kept-shorter indices i zero k (x ∷ xs) e m h =
    let here : i ≡ k = omega (arith, e) in
    rw (subst (λ n. mem n indices ≡ true) (sym here) m)
      (omega (arith, kept-length indices (suc i) xs))
kept-shorter indices i (suc j) k (x ∷ xs) e m h =
    let rest = kept-shorter indices (suc i) j k xs (omega (arith, e)) m (omega (arith, h)) in
    elim (Bool-cases (mem i indices)) [
      | inl b ↦ rw b (omega (arith, rest))
      | inr b ↦ rw b (omega (arith, rest))
    ]

pub index_of-IsSmall : (rs : List ℕ) (x : ℕ) → mem x rs ≡ true → index_of rs x < length rs
unfolding index_of
index_of-IsSmall [] x h = cc h
index_of-IsSmall (r ∷ rs) x h = elim (Bool-cases (r == x)) [
  | inl e ↦ rw e (omega arith)
  | inr e ↦ rw e (omega (arith, index_of-IsSmall rs x (ap (λ b. b || mem x rs) (sym e) ∙ h)))
]

-- The marked indices are those of elements, and there is one when the list is not empty.
pub below-IsSmall :
    (f : ℕ) (rs els : List ℕ)
    → All (λ x. mem x rs ≡ true) els
    → All (λ i. i < length rs) (below_fair_share f rs els)
unfolding below_fair_share
below-IsSmall f rs [] h = tt
below-IsSmall f rs (x ∷ els) h = elim (Bool-cases (leb x f)) [
  | inl e ↦ rw e (index_of-IsSmall rs x h.0, below-IsSmall f rs els h.1)
  | inr e ↦ rw e (below-IsSmall f rs els h.1)
]

pub kept-below-shorter :
    (rs indices : List ℕ)
    → All (λ i. i < length rs) indices
    → 0 < length indices
    → length (kept indices 0 rs) < length rs
kept-below-shorter rs [] h pos = absurd (omega (arith, pos))
kept-below-shorter rs (i ∷ is) h pos =
    kept-shorter (i ∷ is) 0 i i rs (omega arith) (rw (==_refl i) refl) h.0

-- A total splits into that of the low and that of the high requests.
pub total-split :
    (g : ℕ → ℕ) (f : ℕ) (rs : List ℕ) → total g rs ≡ total g (low f rs) + total g (high f rs)
unfolding low high total
total-split g f [] = refl
total-split g f (r ∷ rs) = elim (Bool-cases (leb r f)) [
  | inl e ↦ rw e (omega (arith, total-split g f rs))
  | inr e ↦ rw e (omega (arith, total-split g f rs))
]

pub length-split : (f : ℕ) (rs : List ℕ) → length rs ≡ length (low f rs) + length (high f rs)
unfolding low high
length-split f [] = refl
length-split f (r ∷ rs) = elim (Bool-cases (leb r f)) [
  | inl e ↦ rw e (omega (arith, length-split f rs))
  | inr e ↦ rw e (omega (arith, length-split f rs))
]

-- The low requests are at most the share, each of them.
pub low-bound : (f : ℕ) (rs : List ℕ) → sum (low f rs) ≤ length (low f rs) * f
unfolding low
low-bound f [] = omega arith
low-bound f (r ∷ rs) = elim (Bool-cases (leb r f)) [
  | inl e ↦ rw e (grind (arith, low-bound f rs, leb→le _ _ e))
  | inr e ↦ rw e (low-bound f rs)
]
