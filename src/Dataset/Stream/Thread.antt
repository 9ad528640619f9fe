-- ===== src/Dataset/Stream/Thread.antt =====
-- The invariant of a partition's stream at its start and over the thread's steps.
use modyn.Dataset.Fetching.{Answer, Container, Row, empty_container, extend, advance}
use modyn.Dataset.Fetching.Rows.{
  IsAnswer, zip_rows, container_rows, IsEven, answer_rows, extend_lem,
}
use modyn.Dataset.Stream.{Fetcher, fetching, ended, Reader, Stream, new_stream}
use modyn.Dataset.Stream.Invariant.{
  last_index, advance-last_index, pending, all_rows, Follows, Live, Follows-append, Follows-fetcher,
  fetching-not-ended,
}
use modyn.Prelude.{
  length, All, ok, ℕ, ◌≡◌, refl, sym, ap, ◌∙◌, subst, ◌≢◌, Bool, true, Option, List, [], ◌∷◌, ◌++◌,
  append_assoc, arith,
}

module _ {ℓ κ} {Sample : Type ℓ} {Weight : Type κ} (m : Option (List (ℕ × Weight)))
    (answers : List (Answer Sample)) where
  pub new_stream-Live : All IsAnswer answers → Live m answers (new_stream answers)
  unfolding new_stream empty_container container_rows zip_rows IsEven pending Follows last_index
  new_stream-Live h = record {
    even = (refl, refl, refl);
    counted = refl;
    delivered = refl;
    answered = h;
    complete = λ e. cc e;
    follows = (omega arith, refl);
  }

  pub receive-Live :
      (s : Stream Sample Weight) (a : Answer Sample) (rest : List (Answer Sample))
      (c : Container Sample Weight)
      → s.fetcher ≡ fetching (a ∷ rest)
      → extend m a s.container ≡ ok c
      → Live m answers s
      → Live m answers (record s {
        container = c;
        valid_until = advance s.valid_until (length a.keys);
        fetcher = fetching rest;
      })
  unfolding pending all_rows
  receive-Live s a rest c e f l =
      let waiting = subst (All IsAnswer) (ap pending e) l.answered in
      let (rows, even, keys) = extend_lem m a s.container c l.even waiting.0 f in
      record {
        even = even;
        counted =
            ap (λ v. advance v (length a.keys)) l.counted
            ∙ advance-last_index (length s.container.keys) (length a.keys)
            ∙ ap last_index (sym keys);
        delivered =
            ap (λ r. r ++ all_rows m rest) rows
            ∙ append_assoc (container_rows s.container) (answer_rows m a) (all_rows m rest)
            ∙ ap (λ f. container_rows s.container ++ all_rows m (pending f)) (sym e)
            ∙ l.delivered;
        answered = waiting.1;
        complete = λ v. cc (l.complete v, ap pending e);
        follows =
            subst (λ r. Follows s.reader (fetching rest) r s.yielded) (sym rows)
              (Follows-append s.reader s.fetcher (fetching rest) _ _ _
                (fetching-not-ended s.fetcher _ e) l.follows);
      }

  -- The thread goes on without an answer.
  pub go_on-Live :
      (s : Stream Sample Weight) (f : Fetcher Sample) (v : Bool)
      → s.fetcher ≢ ended
      → pending s.fetcher ≡ pending f
      → (v ≡ true → pending f ≡ [])
      → Live m answers s
      → Live m answers (record s { valid = v; fetcher = f })
  go_on-Live s f v n e c l = record {
    even = l.even;
    counted = l.counted;
    delivered = ap (λ p. container_rows s.container ++ all_rows m p) (sym e) ∙ l.delivered;
    answered = subst (All IsAnswer) e l.answered;
    complete = c;
    follows = Follows-fetcher s.reader s.fetcher f _ _ n l.follows;
  }

  -- The generator goes on, and the container and the thread stay.
  pub read_on-Live :
      (s : Stream Sample Weight) (r : Reader) (out : List (Row Sample Weight))
      → Follows r s.fetcher (container_rows s.container) out
      → Live m answers s
      → Live m answers (record s { reader = r; yielded = out })
  read_on-Live s r out h l = record {
    even = l.even;
    counted = l.counted;
    delivered = l.delivered;
    answered = l.answered;
    complete = l.complete;
    follows = h;
  }
