-- ===== src/SampleStorage/Slices.antt =====
-- Slices of a list that is put together from two.
use modyn.Prelude.{
  length, take, drop, slice, length-drop, take-all, drop-all, take-nil, ℕ, zero, suc, ◌-◌, ◌≤◌, ◌≡◌,
  sym, ap, ◌∙◌, List, [], ◌∷◌, ◌++◌, arith,
}

module _ {ℓ} {A : Type ℓ} where
  take-append-both :
      (n : ℕ) (xs ys : List A) → take n (xs ++ ys) ≡ take n xs ++ take (n - length xs) ys
  take-append-both zero xs ys = sym (ap (λ k. take k ys) (zero_sub (length xs)))
    where
      zero_sub : (a : ℕ) → 0 - a ≡ 0
      zero_sub a = omega arith
  take-append-both (suc n) [] ys = ap (λ k. take k ys) {x = suc n} (omega arith)
  take-append-both (suc n) (x ∷ xs) ys =
      ap (λ t. x ∷ t)
        (take-append-both n xs ys ∙ ap (λ k. take n xs ++ take k ys) (suc_sub n (length xs)))
    where
      suc_sub : (a b : ℕ) → a - b ≡ suc a - suc b
      suc_sub a b = omega arith

  drop-append-both :
      (n : ℕ) (xs ys : List A) → drop n (xs ++ ys) ≡ drop n xs ++ drop (n - length xs) ys
  drop-append-both zero xs ys = ap (λ k. xs ++ drop k ys) (zero_sub (length xs))
    where
      zero_sub : (a : ℕ) → 0 ≡ 0 - a
      zero_sub a = omega arith
  drop-append-both (suc n) [] ys = ap (λ k. drop k ys) {x = suc n} (omega arith)
  drop-append-both (suc n) (x ∷ xs) ys =
      drop-append-both n xs ys ∙ ap (λ k. drop n xs ++ drop k ys) (suc_sub n (length xs))
    where
      suc_sub : (a b : ℕ) → a - b ≡ suc a - suc b
      suc_sub a b = omega arith

  pub slice-append :
      (xs ys : List A) (lo hi : ℕ)
      → lo ≤ hi
      → slice (xs ++ ys) lo hi ≡ slice xs lo hi ++ slice ys (lo - length xs) (hi - length xs)
  slice-append xs ys lo hi h =
      ap (take (hi - lo)) (drop-append-both lo xs ys)
      ∙ take-append-both (hi - lo) (drop lo xs) (drop (lo - length xs) ys)
      ∙ ap (λ k. slice xs lo hi ++ take k (drop (lo - length xs) ys))
          (rest_length (length xs) (length-drop lo xs) h)
    where
      rest_length : {d lo hi : ℕ} (n : ℕ) → d ≡ n - lo → lo ≤ hi → hi - lo - d ≡ hi - n - (lo - n)
      rest_length n e k = omega (arith, e, k)

  pub slice-empty : (xs : List A) (lo hi : ℕ) → hi ≤ lo → slice xs lo hi ≡ []
  slice-empty xs lo hi h = ap (λ k. take k (drop lo xs)) (no_more h)
    where
      no_more : {lo hi : ℕ} → hi ≤ lo → hi - lo ≡ 0
      no_more h = omega (arith, h)

  pub slice-beyond : (xs : List A) (lo hi : ℕ) → length xs ≤ lo → slice xs lo hi ≡ []
  slice-beyond xs lo hi h = ap (take (hi - lo)) (drop-all lo xs h) ∙ take-nil (hi - lo)

  pub slice-past :
      (xs : List A) (lo hi : ℕ) → length xs ≤ hi → slice xs lo hi ≡ slice xs lo (length xs)
  slice-past xs lo hi h =
      take-all (hi - lo) (drop lo xs) (omega (arith, length-drop lo xs, h))
      ∙ sym (take-all (length xs - lo) (drop lo xs) (omega (arith, length-drop lo xs)))
