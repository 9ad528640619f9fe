-- ===== src/SampleStorage/Sorted.antt =====
-- The order of the files of a partition.
use modyn.SampleStorage.{File, digits_on, digits, name_leb, insert_file, sort_files, all_samples}
use modyn.Prelude.{
  lt→ltb, Bool-cases, All, ℕ, zero, suc, ◌<◌, ◌≡◌, refl, sym, ap, ◌∙◌, inl, inr, false, List, [],
  ◌∷◌, ◌++◌, append_assoc, arith,
}

-- A file with a larger index of one digit comes later.
digits_lem : (n : ℕ) → n < 10 → digits n ≡ n ∷ []
unfolding digits digits_on
digits_lem zero h = refl
digits_lem (suc n) h = rw (lt→ltb (suc n) 10 h) refl

pub name_leb-below : (i j : ℕ) → i < 10 → j < i → name_leb (digits i) (digits j) ≡ false
unfolding name_leb
name_leb-below i j h k = rw (digits_lem i h, digits_lem j (omega (arith, h, k))) (ground arith)

module _ {ℓ} {Sample : Type ℓ} where
  All-insert_file {κ} :
      (P : File Sample → Type κ) (f : File Sample) (gs : List (File Sample))
      → P f
      → All P gs
      → All P (insert_file f gs)
  unfolding insert_file
  All-insert_file P f [] h k = (h, tt)
  All-insert_file P f (g ∷ gs) h k =
      elim (Bool-cases (name_leb (digits f.index) (digits g.index))) [
        | inl e ↦ rw e (h, k)
        | inr e ↦ rw e (k.0, All-insert_file P f gs h k.1)
      ]

  pub All-sort_files {κ} :
      (P : File Sample → Type κ) (fs : List (File Sample)) → All P fs → All P (sort_files fs)
  unfolding sort_files
  All-sort_files P [] h = tt
  All-sort_files P (f ∷ fs) h = All-insert_file P f (sort_files fs) h.0 (All-sort_files P fs h.1)

  pub insert_file-last :
      (f : File Sample) (gs : List (File Sample))
      → All (λ g. name_leb (digits f.index) (digits g.index) ≡ false) gs
      → insert_file f gs ≡ gs ++ f ∷ []
  unfolding insert_file
  insert_file-last f [] h = refl
  insert_file-last f (g ∷ gs) h = rw (h.0, insert_file-last f gs h.1) refl

  pub all_samples-append :
      (fs gs : List (File Sample)) → all_samples (fs ++ gs) ≡ all_samples fs ++ all_samples gs
  unfolding all_samples
  all_samples-append [] gs = refl
  all_samples-append (f ∷ fs) gs =
      ap (λ l. f.samples ++ l) (all_samples-append fs gs)
      ∙ sym (append_assoc f.samples (all_samples fs) (all_samples gs))
