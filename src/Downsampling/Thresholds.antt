-- ===== src/Downsampling/Thresholds.antt =====
-- Strictly increasing thresholds, and how many lie below a number.
use modyn.Downsampling.{is_sorted, members}
use modyn.Prelude.{
  ltb, leb, if◌then◌else◌, ltb→lt, leb→le, ==_refl, tests, Bool-cases, length, get_elem?, take,
  count_by, All, mem, ℕ, zero, suc, ◌≤◌, ◌<◌, ◌≡◌, refl, ap, ◌∙◌, inl, inr, Bool, true, false, ◌&&◌,
  Option, none, some, List, [], ◌∷◌, arith,
}

-- Strictly increasing, from `lo` on.
unfoldable pub IsIncreasing : ℕ → List ℕ → Type 0
IsIncreasing lo [] = Unit {0}
IsIncreasing lo (x ∷ xs) = (lo ≤ x) × IsIncreasing (suc x) xs

-- How many thresholds lie below `n`.
abbrev pub below : ℕ → List ℕ → ℕ
below n = count_by (λ t. ltb t n)

pub below-none : (n lo : ℕ) (xs : List ℕ) → n ≤ lo → IsIncreasing lo xs → below n xs ≡ 0
unfolding IsIncreasing
below-none n lo [] h inc = refl
below-none n lo (x ∷ xs) h (from, inc) =
    let late : ltb x n ≡ false = ground arith in rw late (below-none n (suc x) xs (omega arith) inc)

abbrev pub next_count : ℕ → ℕ → Option ℕ → ℕ
next_count n k none = k
next_count n k (some t) = if leb t n then suc k else k

pub next_count-suc : (n k : ℕ) (o : Option ℕ) → suc (next_count n k o) ≡ next_count n (suc k) o
next_count-suc n k none = refl
next_count-suc n k (some t) = ground arith

pub below-suc :
    (n lo : ℕ) (xs : List ℕ)
    → IsIncreasing lo xs
    → below (suc n) xs ≡ next_count n (below n xs) (get_elem? xs (below n xs))
unfolding IsIncreasing
below-suc n lo [] inc = refl
below-suc n lo (x ∷ xs) (from, inc) = elim (Bool-cases (ltb x n)) [
  | inl early ↦
      let early' : ltb x (suc n) ≡ true = ground arith in
      rw (early, early') (ap suc (below-suc n (suc x) xs inc) ∙ next_count-suc n (below n xs) _)
  | inr late ↦ elim (Bool-cases (leb x n)) [
    | inl due ↦
        let due' : ltb x (suc n) ≡ true = ground arith in
        rw (late, due', below-none n (suc x) xs (omega (tests, late)) inc, due)
          (ap suc (below-none (suc n) (suc x) xs (omega (tests, late)) inc))
    | inr later ↦
        let later' : ltb x (suc n) ≡ false = ground arith in
        rw (late, later', below-none n (suc x) xs (omega (tests, late)) inc, later)
          (below-none (suc n) (suc x) xs (omega (tests, later)) inc)
  ]
]

pub members-length : (xs : List ℕ) → length (members xs) ≤ length xs
unfolding members
members-length [] = omega arith
members-length (a ∷ rest) = ground (arith, members-length rest)

pub mem-members : (a : ℕ) (rest : List ℕ) → mem a (members (a ∷ rest)) ≡ true
unfolding members
mem-members a rest = elim (Bool-cases (mem a (members rest))) [
  | inl known ↦ rw known known
  | inr new ↦ rw (new, ==_refl a)
]

pub unique-tail :
    (a : ℕ) (rest : List ℕ)
    → length (a ∷ rest) ≡ length (members (a ∷ rest))
    → (mem a (members rest) ≡ false) × (length rest ≡ length (members rest))
unfolding members
unique-tail a rest unique = elim (Bool-cases (mem a (members rest))) [
  | inl known ↦
      let shorter : suc (length rest) ≡ length (members rest) = unique ∙ rw known refl in
      absurd (omega (arith, shorter, members-length rest))
  | inr new ↦
      let same : suc (length rest) ≡ suc (length (members rest)) = unique ∙ rw new refl in
      (new, omega (arith, same))
]

pub strict :
    (lo : ℕ) (xs : List ℕ)
    → All (λ x. lo ≤ x) (take 1 xs)
    → is_sorted xs ≡ true
    → length xs ≡ length (members xs)
    → IsIncreasing lo xs
unfolding IsIncreasing is_sorted
strict lo [] first sorted unique = tt
strict lo (a ∷ []) first sorted unique = (first.0, tt)
strict lo (a ∷ b ∷ rest) first sorted unique =
    let (new, unique') = unique-tail a (b ∷ rest) unique in
    let (ordered, sorted') = both (leb a b) (is_sorted (b ∷ rest)) sorted in
    (first.0, strict (suc a) (b ∷ rest) (apart new (leb→le a b ordered), tt) sorted' unique')
  where
    both : (p q : Bool) → (p && q) ≡ true → (p ≡ true) × (q ≡ true)
    both p q h = ground arith

    apart : mem a (members (b ∷ rest)) ≡ false → a ≤ b → suc a ≤ b
    apart new h = elim (Bool-cases (ltb a b)) [
      | inl less ↦ ltb→lt a b less
      | inr not_less ↦
          let same : a ≡ b = omega (tests, not_less) in
          let known : mem a (members (b ∷ rest)) ≡ true =
            ap (λ c. mem c (members (b ∷ rest))) same ∙ mem-members b rest in
          cc
    ]

pub within :
    {A : Type 0} (xs : List A) (i : ℕ) → i < length xs → (a : A) × (get_elem? xs i ≡ some a)
within [] i h = absurd (omega arith)
within (x ∷ xs) zero h = (x, refl)
within (x ∷ xs) (suc i) h = within xs i (omega arith)

pub in_range : (xs : List ℕ) (i t : ℕ) → get_elem? xs i ≡ some t → i < length xs
in_range [] i t e = cc
in_range (x ∷ xs) zero t e = omega arith
in_range (x ∷ xs) (suc i) t e = omega (arith, in_range xs i t e)
