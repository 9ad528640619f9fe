-- ===== src/Dataset/Stream/Serving.antt =====
-- The thread of a partition whose answers name only keys that were asked for.
use modyn.Dataset.Fetching.{Answer, Container, weights_of, add, extend}
use modyn.Dataset.Stream.{
  Fetcher, fetching, calling_back, ended, failed, finished, Stream, Step, receive, fail, validate,
  end, poll, read, yield, repeat, join, drain, clear, Reach, here, next,
}
use modyn.Prelude.{
  All, ok, ◌>>=◌, ℕ, ◌≡◌, refl, ap, subst, ◌⊎◌, inl, inr, Bool, true, false, Option, List,
}

module _ {ℓ κ} {Sample : Type ℓ} {Weight : Type κ} (m : Option (List (ℕ × Weight))) where
  -- The keys of an answer are keys that were asked for.
  unfoldable pub IsKnown : Answer Sample → Type κ
  IsKnown a = (ws : List (Option Weight)) × (weights_of m a.keys ≡ ok ws)

  -- The thread has not failed, and has marked the partition before it ends.
  unfoldable pub Serves : Fetcher Sample → Bool → Type κ
  Serves (fetching answers) v = All IsKnown answers
  Serves calling_back v = Unit × (v ≡ true)
  Serves ended v = Unit × (v ≡ true)
  Serves (failed e answers) v = Unit × (true ≡ false)

  pub extend-ok :
      (a : Answer Sample) (c : Container Sample Weight)
      → IsKnown a
      → (c' : Container Sample Weight) × (extend m a c ≡ ok c')
  unfolding extend IsKnown add
  extend-ok a c (ws, e) = (add c a ws, ap (λ r. r >>= λ ws. ok (add c a ws)) e)

  pub Reach-before : (s t u : Stream Sample Weight) → Step m s t → Reach m t u → Reach m s u
  Reach-before s t _ st here = next here st
  Reach-before s t u st (next {t = v} r st') = next (Reach-before s t v st r) st'

  pub Step-Serves :
      (s t : Stream Sample Weight)
      → Step m s t
      → Serves s.fetcher s.valid
      → Serves t.fetcher t.valid ⊎ (t.reader ≡ finished)
  unfolding Serves IsKnown
  Step-Serves s t (receive _ a rest c e f) h = inl (subst (λ f. Serves f s.valid) e h).1
  Step-Serves s t (fail _ a rest x e f) h =
      let (c, k) = extend-ok a s.container (subst (λ f. Serves f s.valid) e h).0 in cc (f, k)
  Step-Serves s t (validate _ e) h = inl (tt, refl)
  Step-Serves s t (end _ e) h = inl (subst (λ f. Serves f s.valid) e h)
  Step-Serves s t (poll _ i e) h = inl h
  Step-Serves s t (read _ i e) h = inl h
  Step-Serves s t (yield _ i j r e k g) h = inl h
  Step-Serves s t (repeat _ i j e k) h = inl h
  Step-Serves s t (join _ i e k) h = inl h
  Step-Serves s t (drain _ i j r e k g) h = inl h
  Step-Serves s t (clear _ i j e k) h = inr refl

  pub Step-finished :
      (s t : Stream Sample Weight) → Step m s t → s.reader ≡ finished → t.reader ≡ finished
  Step-finished s t (receive _ a rest c e f) h = h
  Step-finished s t (fail _ a rest x e f) h = h
  Step-finished s t (validate _ e) h = h
  Step-finished s t (end _ e) h = h
  Step-finished s t (poll _ i e) h = cc (e, h)
  Step-finished s t (read _ i e) h = cc (e, h)
  Step-finished s t (yield _ i j r e k g) h = cc (e, h)
  Step-finished s t (repeat _ i j e k) h = cc (e, h)
  Step-finished s t (join _ i e k) h = cc (e, h)
  Step-finished s t (drain _ i j r e k g) h = cc (e, h)
  Step-finished s t (clear _ i j e k) h = refl

  pub Reach-Serves :
      (s t : Stream Sample Weight)
      → Reach m s t
      → Serves s.fetcher s.valid
      → Serves t.fetcher t.valid ⊎ (t.reader ≡ finished)
  Reach-Serves s _ here h = inl h
  Reach-Serves s t (next {t = u} r st) h = elim (Reach-Serves s u r h) [
    | inl k ↦ Step-Serves u t st k
    | inr e ↦ inr (Step-finished u t st e)
  ]

  pub Reach-trans : (s t u : Stream Sample Weight) → Reach m s t → Reach m t u → Reach m s u
  Reach-trans s t _ r here = r
  Reach-trans s t u r (next {t = v} r' st) = next (Reach-trans s t v r r') st
