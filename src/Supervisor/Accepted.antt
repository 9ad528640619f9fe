-- ===== src/Supervisor/Accepted.antt =====
-- What a configuration is that the validation of the supervisor accepts.
use text.Mathlib.TextEquality.{path_by_compare}
use Prim.Native.String.{String, compare}
use Prim.Native.Nat.{Ordering}
use modyn.Supervisor.{mem_text, set_of, is_one}
use modyn.Stopwatch.{same_text}
use modyn.Stopwatch.Measure.{same_text_refl}
use modyn.Prelude.{
  ltb, ltb→le, ==_iff, Bool-cases, le→ltb, length, ℕ, zero, suc, ◌≤◌, ◌≡◌, refl, ap, subst, ◌↔◌,
  ◌⊎◌, inl, inr, Bool, true, false, not, ◌&&◌, ◌||◌, List, [], ◌∷◌, arith,
}
use modyn.Prelude.Int.{ℤ, pos, negsuc, lt_nat}

abbrev pub In : String → List String → Type 0
In x [] = ⊥
In x (y ∷ ys) = (x ≡ y) ⊎ In x ys

abbrev pub Unique : List String → Type 0
Unique [] = Unit
Unique (x ∷ xs) = ¬ (In x xs) × Unique xs

abbrev pub IsPositive : ℤ → Type 0
IsPositive z = (n : ℕ) × (z ≡ pos (suc n))

pub and_iff : (b c : Bool) → ((b && c) ≡ true) ↔ ((b ≡ true) × (c ≡ true))
and_iff true c = (λ e. (refl, e), λ e. e.1)
and_iff false c = (λ e. cc e, λ e. cc e.0)

pub not_iff : (b : Bool) → (not b ≡ true) ↔ (b ≡ false)
not_iff true = (λ e. cc e, λ e. cc e)
not_iff false = (λ e. refl, λ e. refl)

pub IsPositive-iff : (z : ℤ) → (not (lt_nat z 1) ≡ true) ↔ IsPositive z
IsPositive-iff (pos zero) = (λ e. cc e, λ p. cc p.1)
IsPositive-iff (pos (suc n)) = (λ e. (n, refl), λ p. (not_iff _).1 (le→ltb (suc n) 1 (omega arith)))
IsPositive-iff (negsuc n) = (λ e. cc e, λ p. cc p.1)

pub one_iff : (z : ℤ) → (is_one z ≡ true) ↔ (z ≡ pos 1)
one_iff (pos n) = (λ e. ap pos ((==_iff n 1).0 e), λ p. (==_iff n 1).1 (cc p))
one_iff (negsuc n) = (λ e. cc e, λ p. cc p)

pub same_text_iff : (s t : String) → (same_text s t ≡ true) ↔ (s ≡ t)
same_text_iff s t = (
  λ e. path_by_compare s t (equal (compare s t) e),
  λ p. subst (λ u. same_text s u ≡ true) p (same_text_refl s),
)
  where
    equal : (o : Ordering) → elim o [ Ordering.eq ↦ true | _ ↦ false ] ≡ true → o ≡ Ordering.eq
    equal Ordering.lt e = cc e
    equal Ordering.eq e = refl
    equal Ordering.gt e = cc e

pub or_iff : (b c : Bool) → ((b || c) ≡ true) ↔ ((b ≡ true) ⊎ (c ≡ true))
or_iff true c = (λ e. inl refl, λ e. refl)
or_iff false c = (λ e. inr e, λ e. elim e [ inl f ↦ cc f | inr f ↦ f ])

pub mem_text_iff : (x : String) (ys : List String) → (mem_text x ys ≡ true) ↔ In x ys
unfolding mem_text
mem_text_iff x [] = (λ e. cc e, λ e. absurd e)
mem_text_iff x (y ∷ ys) =
    let o = or_iff (same_text x y) (mem_text x ys) in
    let s = same_text_iff x y in
    let r = mem_text_iff x ys in
    (
      λ e. elim (o.0 e) [ inl f ↦ inl (s.0 f) | inr f ↦ inr (r.0 f) ],
      λ e. o.1 (elim e [ inl f ↦ inl (s.1 f) | inr f ↦ inr (r.1 f) ]),
    )

-- `set` shortens a list exactly when something occurs twice.
set_of-bound : (xs : List String) → length (set_of xs) ≤ length xs
unfolding set_of
set_of-bound [] = omega arith
set_of-bound (x ∷ xs) = elim (Bool-cases (mem_text x xs)) [
  | inl m ↦ rw m (omega (arith, set_of-bound xs))
  | inr m ↦ rw m (omega (arith, set_of-bound xs))
]

set_of-Unique : (xs : List String) → (length (set_of xs) ≡ length xs) ↔ Unique xs
unfolding set_of
set_of-Unique [] = (λ e. tt, λ u. refl)
set_of-Unique (x ∷ xs) = elim (Bool-cases (mem_text x xs)) [
  | inl m ↦ (
    λ e. absurd (omega (arith, rw m at e, set_of-bound xs)),
    λ u. absurd (u.0 ((mem_text_iff x xs).0 m)),
  )
  | inr m ↦ (
    λ e. (λ i. cc (m, (mem_text_iff x xs).1 i), (set_of-Unique xs).0 (omega (arith, rw m at e))),
    λ u. rw m (ap suc ((set_of-Unique xs).1 u.1)),
  )
]

pub Unique-iff :
    (xs : List String) → (not (ltb (length (set_of xs)) (length xs)) ≡ true) ↔ Unique xs
Unique-iff xs =
    let u = set_of-Unique xs in
    let n = not_iff (ltb (length (set_of xs)) (length xs)) in
    (
      λ e. u.0 (omega (arith, ltb→le _ _ (n.0 e), set_of-bound xs)),
      λ d. n.1 (le→ltb (length (set_of xs)) (length xs) (omega (arith, u.1 d))),
    )
