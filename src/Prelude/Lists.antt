-- ===== src/Prelude/Lists.antt =====
-- Lists measured and indexed by native numbers, under the library's names, and Python's slices.
use Prim.Native.Nat.{ℕ, zero, suc, ◌+◌, ◌-◌, ◌*◌, ◌≤◌, min}
use mathlib.Core.Path.{◌≡◌, refl, ap, ◌∙◌, sym}
use mathlib.Core.List.{List, [], ◌∷◌, ◌++◌, map, append_assoc}
use mathlib.Core.Option.{Option, none, some}
use mathlib.Core.Bool.{Bool, true, false, ◌&&◌, ◌||◌}
use native.Mathlib.Omega.{arith}
use modyn.Prelude.Tests.{◌==◌, if◌then◌else◌}

module _ {ℓ} {A : Type ℓ} where
  abbrev pub length : List A → ℕ
  length [] = 0
  length (x ∷ xs) = suc (length xs)

  abbrev pub get_elem? : List A → ℕ → Option A
  get_elem? [] i = none
  get_elem? (x ∷ xs) zero = some x
  get_elem? (x ∷ xs) (suc i) = get_elem? xs i

  abbrev pub take : ℕ → List A → List A
  take zero xs = []
  take (suc n) [] = []
  take (suc n) (x ∷ xs) = x ∷ take n xs

  abbrev pub drop : ℕ → List A → List A
  drop zero xs = xs
  drop (suc n) [] = []
  drop (suc n) (x ∷ xs) = drop n xs

  abbrev pub replicate : ℕ → A → List A
  replicate zero a = []
  replicate (suc n) a = a ∷ replicate n a

  -- `xs[start:stop]` for bounds that are not negative.
  abbrev pub slice : List A → ℕ → ℕ → List A
  slice xs start stop = take (stop - start) (drop start xs)

  -- `filter` by a Boolean test, as a comprehension with an `if` has it.
  abbrev pub filter_by : (A → Bool) → List A → List A
  filter_by p [] = []
  filter_by p (x ∷ xs) = if p x then x ∷ filter_by p xs else filter_by p xs

  -- How many entries pass a test.
  abbrev pub count_by : (A → Bool) → List A → ℕ
  count_by p xs = length (filter_by p xs)

  abbrev pub any : (A → Bool) → List A → Bool
  any p [] = false
  any p (x ∷ xs) = p x || any p xs

  abbrev pub all : (A → Bool) → List A → Bool
  all p [] = true
  all p (x ∷ xs) = p x && all p xs

  -- A predicate at every entry.
  abbrev pub All {κ} : (A → Type κ) → List A → Type κ
  All P [] = Unit
  All P (x ∷ xs) = P x × All P xs

  -- `flatten` of modyn/utils/utils.py.
  abbrev pub concat : List (List A) → List A
  concat [] = []
  concat (xs ∷ xss) = xs ++ concat xss

abbrev pub sum : List ℕ → ℕ
sum [] = 0
sum (x ∷ xs) = x + sum xs

abbrev pub mem : ℕ → List ℕ → Bool
mem a [] = false
mem a (x ∷ xs) = x == a || mem a xs

module _ {ℓ} {A : Type ℓ} where
  pub length-append : (xs ys : List A) → length (xs ++ ys) ≡ length xs + length ys
  length-append [] ys = omega arith
  length-append (x ∷ xs) ys = omega (arith, length-append xs ys)

  pub take-append-drop : (n : ℕ) (xs : List A) → take n xs ++ drop n xs ≡ xs
  take-append-drop zero xs = refl
  take-append-drop (suc n) [] = refl
  take-append-drop (suc n) (x ∷ xs) = rw (take-append-drop n xs)

  pub length-take : (n : ℕ) (xs : List A) → length (take n xs) ≡ min n (length xs)
  length-take zero xs = omega arith
  length-take (suc n) [] = omega arith
  length-take (suc n) (x ∷ xs) = omega (arith, length-take n xs)

  pub length-drop : (n : ℕ) (xs : List A) → length (drop n xs) ≡ length xs - n
  length-drop zero xs = omega arith
  length-drop (suc n) [] = omega arith
  length-drop (suc n) (x ∷ xs) = omega (arith, length-drop n xs)

  pub take-all : (n : ℕ) (xs : List A) → length xs ≤ n → take n xs ≡ xs
  take-all zero [] h = refl
  take-all zero (x ∷ xs) h = elim h [ ]
  take-all (suc n) [] h = refl
  take-all (suc n) (x ∷ xs) h = ap (λ t. x ∷ t) (take-all n xs (omega arith))

  pub drop-all : (n : ℕ) (xs : List A) → length xs ≤ n → drop n xs ≡ []
  drop-all zero [] h = refl
  drop-all zero (x ∷ xs) h = elim h [ ]
  drop-all (suc n) [] h = refl
  drop-all (suc n) (x ∷ xs) h = drop-all n xs (omega arith)

  pub drop-nil : (n : ℕ) → ◌≡◌ {A = List A} (drop n []) []
  drop-nil zero = refl
  drop-nil (suc n) = refl

  pub drop-drop : (m n : ℕ) (xs : List A) → drop n (drop m xs) ≡ drop (m + n) xs
  drop-drop zero n xs = ap (λ k. drop k xs) (omega arith)
  drop-drop (suc m) n [] = drop-nil n ∙ sym (drop-nil (suc m + n))
  drop-drop (suc m) n (x ∷ xs) = drop-drop m n xs ∙ ap (λ k. drop k (x ∷ xs)) (suc_add m n)
    where
      suc_add : (a b : ℕ) → suc (a + b) ≡ suc a + b
      suc_add a b = omega arith

  -- The entry at an index in range, and the rest.
  pub drop_cons :
      (i : ℕ) (xs : List A) → suc i ≤ length xs → (x : A) × (drop i xs ≡ x ∷ drop (suc i) xs)
  drop_cons i [] h = absurd (omega (arith, h))
  drop_cons zero (x ∷ xs) h = (x, refl)
  drop_cons (suc i) (x ∷ xs) h = drop_cons i xs (omega (arith, h))

  pub take_snoc :
      (i : ℕ) (xs ys : List A) (y : A) → drop i xs ≡ y ∷ ys → take (suc i) xs ≡ take i xs ++ y ∷ []
  take_snoc i [] ys y e = cc (drop-nil i, e)
  take_snoc zero (x ∷ xs) ys y e = ap (λ t. take 1 t) e
  take_snoc (suc i) (x ∷ xs) ys y e = ap (λ t. x ∷ t) (take_snoc i xs ys y e)

  pub take-append : (i : ℕ) (xs ys : List A) → i ≤ length xs → take i (xs ++ ys) ≡ take i xs
  take-append zero xs ys h = refl
  take-append (suc i) [] ys h = absurd (omega (arith, h))
  take-append (suc i) (x ∷ xs) ys h = ap (λ t. x ∷ t) (take-append i xs ys (omega (arith, h)))

  pub take-nil : (n : ℕ) → ◌≡◌ {A = List A} (take n []) []
  take-nil zero = refl
  take-nil (suc n) = refl

  -- A prefix, and the slice that goes on from its end.
  pub take-append-slice :
      (xs : List A) (m k : ℕ) → take m xs ++ slice xs m (m + k) ≡ take (m + k) xs
  take-append-slice xs m k = ap (λ j. take m xs ++ take j (drop m xs)) (add_sub m k) ∙ joined xs m
    where
      add_sub : (a b : ℕ) → a + b - a ≡ b
      add_sub a b = omega arith

      suc_add : (a b : ℕ) → suc (a + b) ≡ suc a + b
      suc_add a b = omega arith

      joined : (ys : List A) (j : ℕ) → take j ys ++ take k (drop j ys) ≡ take (j + k) ys
      joined ys zero = ap (λ j. take j ys) (omega arith)
      joined [] (suc j) = take-nil k ∙ sym (take-nil (suc j + k))
      joined (y ∷ ys) (suc j) =
          ap (λ t. y ∷ t) (joined ys j) ∙ ap (λ i. take i (y ∷ ys)) (suc_add j k)

  -- A slice and what comes after it.
  pub slice-append-drop :
      (xs : List A) (lo hi : ℕ) → lo ≤ hi → slice xs lo hi ++ drop hi xs ≡ drop lo xs
  slice-append-drop xs lo hi h =
      ap (λ ys. slice xs lo hi ++ ys)
        (ap (λ k. drop k xs) (split h) ∙ sym (drop-drop lo (hi - lo) xs))
      ∙ take-append-drop (hi - lo) (drop lo xs)
    where
      split : {a b : ℕ} → a ≤ b → b ≡ a + (b - a)
      split k = omega arith

  pub take-append-until :
      (xs : List A) (lo hi : ℕ) → lo ≤ hi → take lo xs ++ slice xs lo hi ≡ take hi xs
  take-append-until xs lo hi h =
      ap (λ k. take lo xs ++ slice xs lo k) (split h)
      ∙ take-append-slice xs lo (hi - lo)
      ∙ ap (λ k. take k xs) (sym (split h))
    where
      split : {a b : ℕ} → a ≤ b → b ≡ a + (b - a)
      split k = omega arith

  pub concat-append : (xss yss : List (List A)) → concat (xss ++ yss) ≡ concat xss ++ concat yss
  concat-append [] yss = refl
  concat-append (xs ∷ xss) yss =
      ap (λ t. xs ++ t) (concat-append xss yss) ∙ sym (append_assoc xs (concat xss) (concat yss))

  pub length-replicate : (n : ℕ) (a : A) → length (replicate n a) ≡ n
  length-replicate zero a = refl
  length-replicate (suc n) a = ap suc (length-replicate n a)

  pub length-map {κ} : {B : Type κ} (xs : List A) (f : A → B) → length (map f xs) ≡ length xs
  length-map [] f = refl
  length-map (x ∷ xs) f = ap suc (length-map xs f)

  pub All-append {κ} : (P : A → Type κ) (xs ys : List A) → All P xs → All P ys → All P (xs ++ ys)
  All-append P [] ys hx hy = hy
  All-append P (x ∷ xs) ys hx hy = (hx.0, All-append P xs ys hx.1 hy)

pub sum-replicate : (n a : ℕ) → sum (replicate n a) ≡ n * a
sum-replicate zero a = omega arith
sum-replicate (suc n) a = omega (arith, sum-replicate n a)

pub sum-append : (xs ys : List ℕ) → sum (xs ++ ys) ≡ sum xs + sum ys
sum-append [] ys = omega arith
sum-append (x ∷ xs) ys = omega (arith, sum-append xs ys)
