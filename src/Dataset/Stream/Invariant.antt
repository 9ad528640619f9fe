-- ===== src/Dataset/Stream/Invariant.antt =====
-- The invariant of a partition's stream.
use modyn.Dataset.Fetching.{Answer, Row, advance}
use modyn.Dataset.Fetching.Rows.{IsAnswer, container_rows, IsEven, answer_rows}
use modyn.Dataset.Stream.{
  Fetcher, fetching, calling_back, ended, failed, Reader, polling, reading, yielding, joining,
  draining, finished, Stream,
}
use modyn.Prelude.{
  length, take, All, length-append, take-append, ℕ, zero, suc, ◌+◌, ◌≤◌, ◌≡◌, refl, sym, ap, ◌∙◌,
  ◌≢◌, true, Option, List, [], ◌∷◌, ◌++◌, arith,
}
use modyn.Prelude.Int.{ℤ, pos, negsuc, after}

-- The last index of `n` rows.
unfoldable pub last_index : ℕ → ℤ
last_index zero = negsuc 0
last_index (suc n) = pos n

pub advance-last_index : (m n : ℕ) → advance (last_index m) n ≡ last_index (m + n)
unfolding advance last_index
advance-last_index zero zero = refl
advance-last_index zero (suc n) = ap last_index (sym (zero-add (suc n)))
  where
    zero-add : (a : ℕ) → 0 + a ≡ a
    zero-add a = omega arith
advance-last_index (suc m) n = ap last_index (shift m n)
  where
    shift : (a b : ℕ) → suc (a + b) ≡ suc a + b
    shift a b = omega arith

pub after-last_index : (n : ℕ) → after (last_index n) ≡ n
unfolding last_index
after-last_index zero = refl
after-last_index (suc n) = refl

-- The answers that have not been added to the container.
unfoldable pub pending {ℓ} : {Sample : Type ℓ} → Fetcher Sample → List (Answer Sample)
pending (fetching answers) = answers
pending calling_back = []
pending ended = []
pending (failed e answers) = answers

module _ {ℓ κ} {Sample : Type ℓ} {Weight : Type κ} where
  unfoldable pub all_rows :
      Option (List (ℕ × Weight)) → List (Answer Sample) → List (Row Sample Weight)
  all_rows m [] = []
  all_rows m (a ∷ answers) = answer_rows m a ++ all_rows m answers

  -- What the generator has yielded, and how far it may read.
  unfoldable pub Follows :
      Reader → Fetcher Sample → List (Row Sample Weight) → List (Row Sample Weight) → Type (ℓ ⊔ κ)
  Follows (polling i) f rows out = (after i ≤ length rows) × (out ≡ take (after i) rows)
  Follows (reading i) f rows out = (after i ≤ length rows) × (out ≡ take (after i) rows)
  Follows (joining i) f rows out = (after i ≤ length rows) × (out ≡ take (after i) rows)
  Follows (yielding i j) f rows out = (i ≤ after j) × (after j ≤ length rows) × (out ≡ take i rows)
  Follows (draining i j) f rows out =
      (i ≤ after j) × (after j ≡ length rows) × (out ≡ take i rows) × (f ≡ ended)
  Follows finished f rows out = ⊥ × (out ≡ rows)

  pub record Live (m : Option (List (ℕ × Weight))) (answers : List (Answer Sample))
      (s : Stream Sample Weight) : Type (ℓ ⊔ κ) where
    pub even : IsEven s.container
    pub counted : s.valid_until ≡ last_index (length s.container.keys)
    pub delivered :
        container_rows s.container ++ all_rows m (pending s.fetcher) ≡ all_rows m answers
    pub answered : All IsAnswer (pending s.fetcher)
    pub complete : s.valid ≡ true → pending s.fetcher ≡ []
    pub follows : Follows s.reader s.fetcher (container_rows s.container) s.yielded

  -- More rows leave what the generator has read, while the thread fetches.
  pub Follows-append :
      (r : Reader) (f f' : Fetcher Sample) (rows more out : List (Row Sample Weight))
      → f ≢ ended
      → Follows r f rows out
      → Follows r f' (rows ++ more) out
  unfolding Follows
  Follows-append (polling i) f f' rows more out n h =
      (omega (arith, h.0, length-append rows more), h.1 ∙ sym (take-append (after i) rows more h.0))
  Follows-append (reading i) f f' rows more out n h =
      (omega (arith, h.0, length-append rows more), h.1 ∙ sym (take-append (after i) rows more h.0))
  Follows-append (joining i) f f' rows more out n h =
      (omega (arith, h.0, length-append rows more), h.1 ∙ sym (take-append (after i) rows more h.0))
  Follows-append (yielding i j) f f' rows more out n h = (
    h.0,
    omega (arith, h.1, length-append rows more),
    h.2 ∙ sym (take-append i rows more (omega (arith, h.0, h.1))),
  )
  Follows-append (draining i j) f f' rows more out n h = absurd (n h.3)
  Follows-append finished f f' rows more out n h = absurd h.0

  -- The thread's own progress, which adds no row.
  pub Follows-fetcher :
      (r : Reader) (f f' : Fetcher Sample) (rows out : List (Row Sample Weight))
      → f ≢ ended
      → Follows r f rows out
      → Follows r f' rows out
  unfolding Follows
  Follows-fetcher (polling i) f f' rows out n h = h
  Follows-fetcher (reading i) f f' rows out n h = h
  Follows-fetcher (joining i) f f' rows out n h = h
  Follows-fetcher (yielding i j) f f' rows out n h = h
  Follows-fetcher (draining i j) f f' rows out n h = absurd (n h.3)
  Follows-fetcher finished f f' rows out n h = absurd h.0

pub fetching-not-ended {ℓ} :
    {Sample : Type ℓ} (f : Fetcher Sample) (rest : List (Answer Sample))
    → f ≡ fetching rest
    → f ≢ ended
fetching-not-ended f rest e = λ h. cc (e, h)
