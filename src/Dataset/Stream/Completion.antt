-- ===== src/Dataset/Stream/Completion.antt =====
-- Bringing a partition's stream to its end.
use modyn.Dataset.Stream.Delivery.{Reach-Live, yielded-all_rows}
use modyn.Dataset.Stream.Thread.{new_stream-Live, receive-Live, go_on-Live}
use modyn.Prelude.Int.{ℤ, after}
use modyn.Dataset.Stream.Generator.{
  IsDone, Follows-at, valid_until_lem, poll-Live, yield-Live, drain-Live, read-Live, join-Live,
  repeat-Live,
}
use modyn.Dataset.Stream.Invariant.{pending, all_rows, Follows, Live, fetching-not-ended}
use modyn.Dataset.Fetching.Rows.{IsAnswer, row_at_lem}
use modyn.Dataset.Fetching.{Answer}
use modyn.Dataset.Stream.{
  Fetcher, fetching, calling_back, ended, failed, Reader, polling, reading, yielding, joining,
  draining, finished, Stream, new_stream, Step, receive, validate, end, poll, read, yield, repeat,
  join, drain, clear, Reach, here, next,
}
use modyn.Dataset.Stream.Serving.{
  IsKnown, Serves, extend-ok, Reach-before, Reach-Serves, Reach-trans,
}
use modyn.Prelude.{
  if◌then◌else◌, All, ℕ, zero, suc, ◌+◌, ◌-◌, ◌≤◌, ◌<◌, ◌≡◌, refl, sym, ap, ◌∙◌, inl, inr, true,
  Option, List, [], ◌∷◌, ◌++◌, append-nil, arith,
}

module _ {ℓ κ} {Sample : Type ℓ} {Weight : Type κ} (m : Option (List (ℕ × Weight)))
    (answers : List (Answer Sample)) where
  unfoldable Finishes : Stream Sample Weight → Type (ℓ ⊔ κ)
  Finishes s = (t : Stream Sample Weight) × Reach m s t × (t.reader ≡ finished)

  before : (s t : Stream Sample Weight) → Step m s t → Finishes t → Finishes s
  unfolding Finishes
  before s t st (u, r, e) = (u, Reach-before m s t u st r, e)

  drains :
      (n idx : ℕ) (j : ℤ) (s : Stream Sample Weight)
      → Live m answers s
      → s.reader ≡ draining idx j
      → idx + n ≡ after j
      → Finishes s
  unfolding Finishes Follows
  drains zero idx j s l e h = (_, next here (clear s idx j e (omega (arith, h))), refl)
  drains (suc n) idx j s l e h =
      let f = Follows-at m answers s (draining idx j) e l in
      let (row, g, _) = row_at_lem s.container idx (omega (arith, h, f.1)) in
      let lt : idx < after j = omega (arith, h) in
      before s _ (drain s idx j row e lt g)
        (drains n (suc idx) j _ (drain-Live m answers s idx j row e lt g l) refl (omega (arith, h)))

  joins :
      (i : ℤ) (s : Stream Sample Weight)
      → Live m answers s
      → s.fetcher ≡ ended
      → s.reader ≡ joining i
      → Finishes s
  unfolding Follows
  joins i s l f e =
      let g = Follows-at m answers s (joining i) e l in
      let u = valid_until_lem m answers s l in
      before s _ (join s i e f) (
        drains (after s.valid_until - after i) (after i) s.valid_until _
          (join-Live m answers s i e f l) refl (omega (arith, g.0, u)))

  polls :
      (i : ℤ) (s : Stream Sample Weight)
      → Live m answers s
      → s.fetcher ≡ ended
      → s.valid ≡ true
      → s.reader ≡ polling i
      → Finishes s
  polls i s l f v e =
      before s _ (poll s i e)
        (joins i _ (poll-Live m answers s i e l) f (ap (λ b. if b then joining i else reading i) v))

  yields :
      (n idx : ℕ) (j : ℤ) (s : Stream Sample Weight)
      → Live m answers s
      → s.fetcher ≡ ended
      → s.valid ≡ true
      → s.reader ≡ yielding idx j
      → idx + n ≡ after j
      → Finishes s
  unfolding Follows
  yields zero idx j s l f v e h =
      let le : after j ≤ idx = omega (arith, h) in
      before s _ (repeat s idx j e le) (polls j _ (repeat-Live m answers s idx j e le l) f v refl)
  yields (suc n) idx j s l f v e h =
      let g = Follows-at m answers s (yielding idx j) e l in
      let (row, at, _) = row_at_lem s.container idx (omega (arith, h, g.1)) in
      let lt : idx < after j = omega (arith, h) in
      before s _ (yield s idx j row e lt at) (
        yields n (suc idx) j _ (yield-Live m answers s idx j row e lt at l) f v refl
          (omega (arith, h)))

  -- Once the thread has ended.
  reads :
      (r : Reader) (s : Stream Sample Weight)
      → Live m answers s
      → s.fetcher ≡ ended
      → s.valid ≡ true
      → s.reader ≡ r
      → Finishes s
  unfolding Follows Finishes
  reads (polling i) s l f v e = polls i s l f v e
  reads (reading i) s l f v e =
      let g = Follows-at m answers s (reading i) e l in
      let u = valid_until_lem m answers s l in
      before s _ (read s i e) (
        yields (after s.valid_until - after i) (after i) s.valid_until _
          (read-Live m answers s i e l) f v refl (omega (arith, g.0, u)))
  reads (joining i) s l f v e = joins i s l f e
  reads (yielding i j) s l f v e =
      let g = Follows-at m answers s (yielding i j) e l in
      yields (after j - i) i j s l f v e (omega (arith, g.0))
  reads (draining i j) s l f v e =
      let g = Follows-at m answers s (draining i j) e l in
      drains (after j - i) i j s l e (omega (arith, g.0))
  reads finished s l f v e = (s, here, e)

  ends :
      (s : Stream Sample Weight)
      → Live m answers s
      → s.fetcher ≡ calling_back
      → s.valid ≡ true
      → Finishes s
  unfolding pending
  ends s l e v = before s _ (end s e) (
      reads s.reader _
        (go_on-Live m answers s ended s.valid (λ k. cc (e, k)) (ap pending e) (λ v. refl) l) refl v
        refl)

  -- While the thread fetches.
  fetches :
      (coming : List (Answer Sample)) (s : Stream Sample Weight)
      → Live m answers s
      → s.fetcher ≡ fetching coming
      → All (IsKnown m) coming
      → Finishes s
  unfolding pending
  fetches (a ∷ rest) s l e h =
      let (c, g) = extend-ok m a s.container h.0 in
      before s _ (receive s a rest c e g)
        (fetches rest _ (receive-Live m answers s a rest c e g l) refl h.1)
  fetches [] s l e h = before s _ (validate s e) (
      ends _
        (go_on-Live m answers s calling_back true (fetching-not-ended s.fetcher _ e) (ap pending e)
          (λ v. refl) l)
        refl refl)

  serves :
      (f : Fetcher Sample) (s : Stream Sample Weight)
      → Live m answers s
      → s.fetcher ≡ f
      → Serves m f s.valid
      → Finishes s
  unfolding Serves
  serves (fetching coming) s l e h = fetches coming s l e h
  serves calling_back s l e h = ends s l e h.1
  serves ended s l e h = reads s.reader s l e h.1 refl
  serves (failed x coming) s l e h = cc h.1

  from_reachable :
      (s : Stream Sample Weight)
      → All IsAnswer answers
      → All (IsKnown m) answers
      → Reach m (new_stream answers) s
      → Finishes s
  unfolding Finishes IsDone Serves new_stream
  from_reachable s h k r =
      elim (Reach-Live m answers (new_stream answers) s r (new_stream-Live m answers h)) [
        | inl l ↦ elim (Reach-Serves m (new_stream answers) s r k) [
          | inl f ↦ serves s.fetcher s l refl f
          | inr e ↦ (s, here, e)
        ]
        | inr d ↦ (s, here, d.0)
      ]

  -- If every answer has as many samples and as many labels as keys, and names only keys that were
  -- asked for, the partition can be read to its end from every state that the thread and the
  -- generator can be in together: there are steps that lead to a state in which the generator has
  -- finished and has yielded all rows of the answers, in their order.
  pub Reach-Finishes :
      (s : Stream Sample Weight)
      → All IsAnswer answers
      → All (IsKnown m) answers
      → Reach m (new_stream answers) s
      → (t : Stream Sample Weight) × Reach m s t
        × (t.reader ≡ finished)
        × (t.yielded ≡ all_rows m answers)
  unfolding Finishes
  Reach-Finishes s h k r =
      let (t, r', e) = from_reachable s h k r in
      let (rest, f, g) =
        yielded-all_rows m answers t h (Reach-trans m (new_stream answers) s t r r') in
      (t, r', e, sym (append-nil t.yielded) ∙ ap (λ l. t.yielded ++ l) (sym (g e)) ∙ f)
