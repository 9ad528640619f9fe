-- ===== src/TrainerServer/Tables.antt =====
-- Dictionaries of the trainer server: an entry that is set is found, and the others stay.
use modyn.TrainerServer.Server.{put}
use modyn.SelectorService.{find}
use modyn.Prelude.{
  ◌==◌, ==_iff, ==_refl, Bool-cases, ℕ, ◌≡◌, refl, ap, ◌∙◌, inl, inr, false, some, List, [], ◌∷◌,
}

pub find-put : {A : Type 0} (k : ℕ) (a : A) (d : List (ℕ × A)) → find k (put k a d) ≡ some a
unfolding find put
find-put k a [] = rw (==_refl k) refl
find-put k a ((j, b) ∷ d) = elim (Bool-cases (j == k)) [
  | inl e ↦ rw (e, e) refl
  | inr e ↦ rw (e, e) (find-put k a d)
]

pub find-put_other :
    {A : Type 0} (k i : ℕ) (a : A) (d : List (ℕ × A))
    → (k == i) ≡ false
    → find i (put k a d) ≡ find i d
unfolding find put
find-put_other k i a [] n = rw n refl
find-put_other k i a ((j, b) ∷ d) n = elim (Bool-cases (j == k)) [
  | inl e ↦ rw (e, ap (λ m. m == i) ((==_iff j k).0 e) ∙ n) refl
  | inr e ↦ rw (e, find-put_other k i a d n) refl
]
