-- ===== src/Dataset/Stream/Delivery.antt =====
-- What the generator of a partition yields, over every interleaving with the thread.
use modyn.Prelude.Int.{after}
use modyn.Dataset.Fetching.{Answer, Row}
use modyn.Dataset.Fetching.Rows.{IsAnswer, container_rows}
use modyn.Dataset.Stream.{
  Fetcher, calling_back, ended, failed, Reader, polling, reading, yielding, joining, draining,
  finished, Stream, new_stream, Step, receive, fail, validate, end, poll, read, yield, repeat, join,
  drain, clear, Reach, here, next,
}
use modyn.Dataset.Stream.Invariant.{pending, all_rows, Follows, Live, fetching-not-ended}
use modyn.Dataset.Stream.Thread.{new_stream-Live, receive-Live, go_on-Live}
use modyn.Dataset.Stream.Generator.{
  IsDone, poll-Live, yield-Live, drain-Live, read-Live, join-Live, repeat-Live, clear-IsDone,
}
use modyn.Prelude.{
  take, drop, All, take-append-drop, ℕ, ◌≡◌, refl, sym, ap, ◌∙◌, ◌≢◌, ◌⊎◌, inl, inr, true, Option,
  List, [], ◌∷◌, ◌++◌, append-nil, append_assoc,
}

module _ {ℓ κ} {Sample : Type ℓ} {Weight : Type κ} (m : Option (List (ℕ × Weight)))
    (answers : List (Answer Sample)) where
  pub Step-Live :
      (s t : Stream Sample Weight)
      → Step m s t
      → Live m answers s
      → Live m answers t ⊎ IsDone m answers t
  unfolding pending
  Step-Live s t (receive _ a rest c e f) l = inl (receive-Live m answers s a rest c e f l)
  Step-Live s t (fail _ a rest x e f) l = inl (
      go_on-Live m answers s (failed x (a ∷ rest)) s.valid (fetching-not-ended s.fetcher _ e)
        (ap pending e) (λ v. absurd (cc (l.complete v, ap pending e))) l)
  Step-Live s t (validate _ e) l = inl (
      go_on-Live m answers s calling_back true (fetching-not-ended s.fetcher _ e) (ap pending e)
        (λ v. refl) l)
  Step-Live s t (end _ e) l =
      inl (go_on-Live m answers s ended s.valid (λ h. cc (e, h)) (ap pending e) (λ v. refl) l)
  Step-Live s t (poll _ i e) l = inl (poll-Live m answers s i e l)
  Step-Live s t (read _ i e) l = inl (read-Live m answers s i e l)
  Step-Live s t (yield _ i j r e h g) l = inl (yield-Live m answers s i j r e h g l)
  Step-Live s t (repeat _ i j e h) l = inl (repeat-Live m answers s i j e h l)
  Step-Live s t (join _ i e h) l = inl (join-Live m answers s i e h l)
  Step-Live s t (drain _ i j r e h g) l = inl (drain-Live m answers s i j r e h g l)
  Step-Live s t (clear _ i j e h) l = inr (clear-IsDone m answers s i j e h l)

  -- After the end no step is left.
  Step-IsDone : (s t : Stream Sample Weight) → Step m s t → IsDone m answers s → IsDone m answers t
  unfolding IsDone
  Step-IsDone s t (receive _ a rest c e f) d = cc (e, d.1)
  Step-IsDone s t (fail _ a rest x e f) d = cc (e, d.1)
  Step-IsDone s t (validate _ e) d = cc (e, d.1)
  Step-IsDone s t (end _ e) d = cc (e, d.1)
  Step-IsDone s t (poll _ i e) d = cc (e, d.0)
  Step-IsDone s t (read _ i e) d = cc (e, d.0)
  Step-IsDone s t (yield _ i j r e h g) d = cc (e, d.0)
  Step-IsDone s t (repeat _ i j e h) d = cc (e, d.0)
  Step-IsDone s t (join _ i e h) d = cc (e, d.0)
  Step-IsDone s t (drain _ i j r e h g) d = cc (e, d.0)
  Step-IsDone s t (clear _ i j e h) d = cc (e, d.0)

  pub Reach-Live :
      (s t : Stream Sample Weight)
      → Reach m s t
      → Live m answers s
      → Live m answers t ⊎ IsDone m answers t
  Reach-Live s _ here l = inl l
  Reach-Live s t (next {t = u} r st) l = elim (Reach-Live s u r l) [
    | inl l' ↦ Step-Live u t st l'
    | inr d ↦ inr (Step-IsDone u t st d)
  ]

  Follows-prefix :
      (r : Reader) (f : Fetcher Sample) (rows out : List (Row Sample Weight))
      → Follows r f rows out
      → (k : ℕ) × (out ≡ take k rows) × (r ≢ finished)
  unfolding Follows
  Follows-prefix (polling i) f rows out h = (after i, h.1, λ e. cc e)
  Follows-prefix (reading i) f rows out h = (after i, h.1, λ e. cc e)
  Follows-prefix (joining i) f rows out h = (after i, h.1, λ e. cc e)
  Follows-prefix (yielding i j) f rows out h = (i, h.2, λ e. cc e)
  Follows-prefix (draining i j) f rows out h = (i, h.2, λ e. cc e)
  Follows-prefix finished f rows out h = absurd h.0

  cut :
      (s : Stream Sample Weight)
      → Live m answers s
      → (rest : List (Row Sample Weight)) × (s.yielded ++ rest ≡ all_rows m answers)
        × (s.reader ≡ finished → rest ≡ [])
  cut s l =
      let rows = container_rows s.container in
      let coming = all_rows m (pending s.fetcher) in
      let (k, e, n) = Follows-prefix s.reader s.fetcher rows s.yielded l.follows in
      (
        drop k rows ++ coming,
        ap (λ out. out ++ (drop k rows ++ coming)) e
            ∙ sym (append_assoc (take k rows) (drop k rows) coming)
            ∙ ap (λ r. r ++ coming) (take-append-drop k rows)
            ∙ l.delivered,
        λ h. absurd (n h),
      )

  -- However the thread that fetches a partition and the generator that reads it interleave, the rows
  -- that have been yielded are a beginning of the rows of the storage's answers, in the order of the
  -- answers, each with its key's weight; when the generator has finished they are all of them.
  -- Each answer is to have as many samples and labels as keys.
  pub yielded-all_rows :
      (s : Stream Sample Weight)
      → All IsAnswer answers
      → Reach m (new_stream answers) s
      → (rest : List (Row Sample Weight)) × (s.yielded ++ rest ≡ all_rows m answers)
        × (s.reader ≡ finished → rest ≡ [])
  unfolding IsDone
  yielded-all_rows s h r =
      elim (Reach-Live (new_stream answers) s r (new_stream-Live m answers h)) [
        | inl l ↦ cut s l
        | inr d ↦ ([], append-nil s.yielded ∙ d.2, λ e. refl)
      ]
