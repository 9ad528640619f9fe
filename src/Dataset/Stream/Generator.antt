-- ===== src/Dataset/Stream/Generator.antt =====
-- The invariant of a partition's stream over the generator's steps.
use modyn.Dataset.Fetching.{Answer, Row, empty_container, row_at}
use modyn.Dataset.Fetching.Rows.{container_rows, row_at_lem, length-container_rows}
use modyn.Dataset.Stream.{
  ended, Reader, polling, reading, yielding, joining, draining, finished, Stream,
}
use modyn.Dataset.Stream.Invariant.{after-last_index, pending, all_rows, Follows, Live}
use modyn.Dataset.Stream.Thread.{read_on-Live}
use modyn.Prelude.{
  if◌then◌else◌, length, take, take-all, ok, ok-inj, ℕ, suc, ◌≤◌, ◌<◌, ◌≡◌, refl, sym, ap, ◌∙◌,
  subst, Bool, true, false, Option, List, [], ◌∷◌, ◌++◌, append-nil, arith,
}
use modyn.Prelude.Int.{ℤ, negsuc, after}

module _ {ℓ κ} {Sample : Type ℓ} {Weight : Type κ} (m : Option (List (ℕ × Weight)))
    (answers : List (Answer Sample)) where
  -- The generator has cleared the partition.
  unfoldable pub IsDone : Stream Sample Weight → Type (ℓ ⊔ κ)
  IsDone s = (s.reader ≡ finished) × (s.fetcher ≡ ended) × (s.yielded ≡ all_rows m answers)

  pub Follows-at :
      (s : Stream Sample Weight) (r : Reader)
      → s.reader ≡ r
      → Live m answers s
      → Follows r s.fetcher (container_rows s.container) s.yielded
  Follows-at s r e l =
      subst (λ r. Follows r s.fetcher (container_rows s.container) s.yielded) e l.follows

  -- The bound that the generator reads is the number of rows.
  pub valid_until_lem :
      (s : Stream Sample Weight)
      → Live m answers s
      → after s.valid_until ≡ length (container_rows s.container)
  valid_until_lem s l =
      ap after l.counted
      ∙ after-last_index (length s.container.keys)
      ∙ sym (length-container_rows s.container l.even)

  pub poll-Live :
      (s : Stream Sample Weight) (i : ℤ)
      → s.reader ≡ polling i
      → Live m answers s
      → Live m answers (record s { reader = (if s.valid then joining i else reading i) })
  unfolding Follows
  poll-Live s i e l =
      read_on-Live m answers s (if s.valid then joining i else reading i) s.yielded (both s.valid) l
    where
      both :
          (b : Bool)
          → Follows
              (if b then joining i else reading i)
              s.fetcher
              (container_rows s.container)
              s.yielded
      both true = Follows-at s (polling i) e l
      both false = Follows-at s (polling i) e l

  -- One more row, from an index below the bound.
  pub row_lem :
      (s : Stream Sample Weight) (idx : ℕ) (row : Row Sample Weight)
      → idx < length (container_rows s.container)
      → row_at s.container idx ≡ ok row
      → s.yielded ≡ take idx (container_rows s.container)
      → s.yielded ++ row ∷ [] ≡ take (suc idx) (container_rows s.container)
  row_lem s idx row h e o =
      let (r, e', t) = row_at_lem s.container idx h in
      ap (λ y. y ++ row ∷ []) o
      ∙ ap (λ x. take idx (container_rows s.container) ++ x ∷ []) (ok-inj (sym e ∙ e'))
      ∙ sym t

  pub yield-Live :
      (s : Stream Sample Weight) (idx : ℕ) (j : ℤ) (row : Row Sample Weight)
      → s.reader ≡ yielding idx j
      → idx < after j
      → row_at s.container idx ≡ ok row
      → Live m answers s
      → Live m answers (record s { reader = yielding (suc idx) j; yielded = s.yielded ++ row ∷ [] })
  unfolding Follows
  yield-Live s idx j row e h g l =
      let f = Follows-at s (yielding idx j) e l in
      read_on-Live m answers s (yielding (suc idx) j) (s.yielded ++ row ∷ [])
        (h, f.1, row_lem s idx row (omega (arith, h, f.1)) g f.2) l

  pub drain-Live :
      (s : Stream Sample Weight) (idx : ℕ) (j : ℤ) (row : Row Sample Weight)
      → s.reader ≡ draining idx j
      → idx < after j
      → row_at s.container idx ≡ ok row
      → Live m answers s
      → Live m answers (record s { reader = draining (suc idx) j; yielded = s.yielded ++ row ∷ [] })
  unfolding Follows
  drain-Live s idx j row e h g l =
      let f = Follows-at s (draining idx j) e l in
      read_on-Live m answers s (draining (suc idx) j) (s.yielded ++ row ∷ [])
        (h, f.1, row_lem s idx row (omega (arith, h, f.1)) g f.2, f.3) l

  pub read-Live :
      (s : Stream Sample Weight) (i : ℤ)
      → s.reader ≡ reading i
      → Live m answers s
      → Live m answers (record s { reader = yielding (after i) s.valid_until })
  unfolding Follows
  read-Live s i e l =
      let f = Follows-at s (reading i) e l in
      let u = valid_until_lem s l in
      read_on-Live m answers s (yielding (after i) s.valid_until) s.yielded
        (omega (arith, f.0, u), omega (arith, u), f.1) l

  pub join-Live :
      (s : Stream Sample Weight) (i : ℤ)
      → s.reader ≡ joining i
      → s.fetcher ≡ ended
      → Live m answers s
      → Live m answers (record s { reader = draining (after i) s.valid_until })
  unfolding Follows
  join-Live s i e h l =
      let f = Follows-at s (joining i) e l in
      let u = valid_until_lem s l in
      read_on-Live m answers s (draining (after i) s.valid_until) s.yielded
        (omega (arith, f.0, u), u, f.1, h) l

  pub repeat-Live :
      (s : Stream Sample Weight) (idx : ℕ) (j : ℤ)
      → s.reader ≡ yielding idx j
      → after j ≤ idx
      → Live m answers s
      → Live m answers (record s { reader = polling j })
  unfolding Follows
  repeat-Live s idx j e h l =
      let f = Follows-at s (yielding idx j) e l in
      read_on-Live m answers s (polling j) s.yielded
        (f.1, f.2 ∙ ap (λ n. take n (container_rows s.container)) (le_antisym f.0 h)) l
    where
      le_antisym : {a b : ℕ} → a ≤ b → b ≤ a → a ≡ b
      le_antisym g h = omega (arith, g, h)

  pub clear-IsDone :
      (s : Stream Sample Weight) (idx : ℕ) (j : ℤ)
      → s.reader ≡ draining idx j
      → after j ≤ idx
      → Live m answers s
      → IsDone (record s {
        container = empty_container;
        valid = false;
        valid_until = negsuc 0;
        reader = finished;
      })
  unfolding Follows pending all_rows IsDone
  clear-IsDone s idx j e h l =
      let f = Follows-at s (draining idx j) e l in
      let rows = container_rows s.container in
      (
        refl,
        f.3,
        f.2
            ∙ take-all idx rows (omega (arith, f.1, h))
            ∙ sym (append-nil rows)
            ∙ ap (λ p. rows ++ all_rows m (pending p)) (sym f.3)
            ∙ l.delivered,
      )
