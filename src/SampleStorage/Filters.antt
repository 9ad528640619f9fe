-- ===== src/SampleStorage/Filters.antt =====
-- Filters of lists by Boolean tests.
use modyn.Prelude.{
  if◌then◌else◌, Bool-cases, filter_by, All, ◌≡◌, refl, sym, ap, ◌∙◌, subst, inl, inr, Bool, true,
  false, List, [], ◌∷◌,
}

module _ {ℓ} {A : Type ℓ} where
  pub filter_by-keeps :
      (p : A → Bool) (x : A) (xs : List A) → p x ≡ true → filter_by p (x ∷ xs) ≡ x ∷ filter_by p xs
  filter_by-keeps p x xs e = ap (λ b. if b then x ∷ filter_by p xs else filter_by p xs) e

  pub filter_by-leaves :
      (p : A → Bool) (x : A) (xs : List A) → p x ≡ false → filter_by p (x ∷ xs) ≡ filter_by p xs
  filter_by-leaves p x xs e = ap (λ b. if b then x ∷ filter_by p xs else filter_by p xs) e

  -- A filter that passes everything that another one keeps.
  pub filter_by-filter_by :
      (p q : A → Bool) (xs : List A)
      → All (λ x. q x ≡ true) (filter_by p xs)
      → filter_by p (filter_by q xs) ≡ filter_by p xs
  filter_by-filter_by p q [] h = refl
  filter_by-filter_by p q (x ∷ xs) h = elim (Bool-cases (p x)) [
    | inl e ↦
        let k = subst (All (λ x. q x ≡ true)) (filter_by-keeps p x xs e) h in
        ap (filter_by p) (filter_by-keeps q x xs k.0)
        ∙ filter_by-keeps p x (filter_by q xs) e
        ∙ ap (λ l. x ∷ l) (filter_by-filter_by p q xs k.1)
        ∙ sym (filter_by-keeps p x xs e)
    | inr e ↦
        let k = subst (All (λ x. q x ≡ true)) (filter_by-leaves p x xs e) h in
        both (q x) e ∙ filter_by-filter_by p q xs k ∙ sym (filter_by-leaves p x xs e)
  ]
    where
      both :
          (b : Bool)
          → p x ≡ false
          → filter_by p (if b then x ∷ filter_by q xs else filter_by q xs)
            ≡ filter_by p (filter_by q xs)
      both true e = filter_by-leaves p x (filter_by q xs) e
      both false e = refl

  pub All-filter_by {κ} :
      (p : A → Bool) (P : A → Type κ) (xs : List A)
      → ((x : A) → p x ≡ true → P x)
      → All P (filter_by p xs)
  All-filter_by p P [] h = tt
  All-filter_by p P (x ∷ xs) h = elim (Bool-cases (p x)) [
    | inl e ↦ rw e (h x e, All-filter_by p P xs h)
    | inr e ↦ rw e (All-filter_by p P xs h)
  ]

  pub All-mono {κ} : (P Q : A → Type κ) (xs : List A) → ((x : A) → P x → Q x) → All P xs → All Q xs
  All-mono P Q [] f h = tt
  All-mono P Q (x ∷ xs) f h = (f x h.0, All-mono P Q xs f h.1)
