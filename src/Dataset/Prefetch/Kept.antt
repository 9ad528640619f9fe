-- ===== src/Dataset/Prefetch/Kept.antt =====
-- The steps of an epoch and its invariant.
use modyn.Dataset.Prefetch.Launches.{
  Launched-call, Launched-same, Launched-callback, start_calls_le,
}
use modyn.Dataset.Prefetch.{
  Prefetcher, prefetch_partition, callback_func, is_limited, enter_partition, Position, starting,
  iterating, consuming, exhausted, Epoch, start_epoch, new_callbacks, Step, start, loop, enter,
  leave, stop, callback, Reach, here, next,
}
use modyn.Dataset.Prefetch.Counted.{Counted, prefetch_partition-false, prefetch_partition-true}
use modyn.Dataset.Prefetch.Calls.{enter_partition-ok, callback_func-ok}
use modyn.Dataset.Prefetch.Schedule.{
  started_calls, calls_at, Bounded, calls_left, IsFirst, Launched, Scheduled, is_limited-same,
  start_epoch-Scheduled,
}
use modyn.Prelude.{
  ok, ok-inj, ℕ, suc, ◌+◌, ◌-◌, ◌≤◌, ◌<◌, ◌≡◌, refl, sym, ap, ◌∙◌, subst, Bool, true, false, arith,
}

module _ (first : Prefetcher) (f : IsFirst first) where
  pub Counted-at :
      (b : Bool) (s : Epoch) (p : Position)
      → s.position ≡ p
      → Scheduled b first s
      → Counted first
          (calls_at b first.num_prefetched_partitions first.num_partitions p)
          s.prefetcher
  Counted-at b s p e c =
      subst
        (λ p.
          Counted first (calls_at b first.num_prefetched_partitions first.num_partitions p)
            s.prefetcher)
        e c.counted

  pub Launched-at :
      (b : Bool) (s : Epoch) (p : Position)
      → s.position ≡ p
      → Scheduled b first s
      → Launched b first (calls_left p) s.callbacks s.prefetcher
  Launched-at b s p e c =
      subst (λ p. Launched b first (calls_left p) s.callbacks s.prefetcher) e c.launches

  start-Scheduled :
      (b : Bool) (s : Epoch) (k : ℕ) (p : Prefetcher)
      → s.position ≡ starting (suc k)
      → prefetch_partition b s.prefetcher ≡ ok p
      → Scheduled b first s
      → Scheduled b first (record {
        prefetcher = p;
        callbacks = s.callbacks + new_callbacks s.prefetcher p;
        position = starting k;
      })
  unfolding calls_at started_calls Bounded calls_left Launched new_callbacks
  start-Scheduled true s k p e g c =
      let d = Counted-at true s (starting (suc k)) e c in
      let (p', h, d', le, lt) = prefetch_partition-true first 0 s.prefetcher d f.prefetches in
      let q = ok-inj (sym h ∙ g) in
      record {
        counted = subst (Counted first 0) q d';
        bounded = below (subst (Bounded first) e c.bounded);
        launches = λ room _.
            subst (λ p. first.launched_prefetches < p.launched_prefetches) q
              (Launched-call first s.prefetcher p' k 0 f d refl le lt room);
      }
    where
      below : {k n : ℕ} → suc k ≤ n → k ≤ n
      below h = omega (arith, h)
  start-Scheduled false s k p e g c =
      let d = Counted-at false s (starting (suc k)) e c in
      let (p', h, d', same) =
        prefetch_partition-false first (first.num_prefetched_partitions - suc k) s.prefetcher d
          f.prefetches in
      let q = ok-inj (sym h ∙ g) in
      let l = Launched-at false s (starting (suc k)) e c in
      let le = subst (Bounded first) e c.bounded in
      let same' = ap (λ p. p.launched_prefetches) (sym q) ∙ same in
      record {
        counted = subst2 (one_less le (start_calls_le first)) (subst (Counted first _) q d');
        bounded = below le;
        launches = (omega (arith, l.0, same'), same' ∙ l.1);
      }
    where
      below : {k n : ℕ} → suc k ≤ n → k ≤ n
      below h = omega (arith, h)

      one_less : {k n num : ℕ} → suc k ≤ n → n ≤ num → suc (num - suc k) ≡ num - k
      one_less h g = omega (arith, h, g)

      subst2 : {x y : ℕ} → x ≡ y → Counted first x p → Counted first y p
      subst2 e = subst (λ n. Counted first n p) e

  loop-Scheduled :
      (b : Bool) (s : Epoch)
      → s.position ≡ starting 0
      → Scheduled b first s
      → Scheduled b first (record s { position = iterating 0 })
  unfolding calls_at started_calls Bounded calls_left
  loop-Scheduled b s e c = record {
    counted =
        subst (λ n. Counted first n s.prefetcher) (omega arith) (Counted-at b s (starting 0) e c);
    bounded = omega arith;
    launches = Launched-at b s (starting 0) e c;
  }

  enter-Scheduled :
      (b : Bool) (s : Epoch) (i : ℕ) (p : Prefetcher)
      → s.position ≡ iterating i
      → i < s.prefetcher.num_partitions
      → enter_partition i s.prefetcher ≡ ok p
      → Scheduled b first s
      → Scheduled b first (record s { prefetcher = p; position = consuming i })
  unfolding calls_at Bounded calls_left
  enter-Scheduled b s i p e h g c =
      let d = Counted-at b s (iterating i) e c in
      let lt = subst (λ n. i < n) d.same_partitions h in
      let (p', k, d', same) =
        enter_partition-ok first f.prefetches i (started_calls b first.num_prefetched_partitions 0)
          s.prefetcher d lt in
      let q = ok-inj (sym k ∙ g) in
      record {
        counted = subst (Counted first _) q d';
        bounded = lt;
        launches =
            Launched-same b first s.prefetcher p 0 s.callbacks
              (ap (λ p. p.launched_prefetches) (sym q) ∙ same) (Launched-at b s (iterating i) e c);
      }

  leave-Scheduled :
      (b : Bool) (s : Epoch) (i : ℕ)
      → s.position ≡ consuming i
      → Scheduled b first s
      → Scheduled b first (record s { position = iterating (suc i) })
  unfolding calls_at Bounded calls_left
  leave-Scheduled b s i e c = record {
    counted = Counted-at b s (consuming i) e c;
    bounded = subst (Bounded first) e c.bounded;
    launches = Launched-at b s (consuming i) e c;
  }

  stop-Scheduled :
      (b : Bool) (s : Epoch) (i : ℕ)
      → s.position ≡ iterating i
      → s.prefetcher.num_partitions ≤ i
      → Scheduled b first s
      → Scheduled b first (record s { position = exhausted })
  unfolding calls_at Bounded calls_left
  stop-Scheduled b s i e h c =
      let d = Counted-at b s (iterating i) e c in
      record {
        counted = subst (λ n. Counted first n s.prefetcher) (omega (arith, h, d.same_partitions)) d;
        bounded = tt;
        launches = Launched-at b s (iterating i) e c;
      }

  callback-Scheduled :
      (b : Bool) (s : Epoch) (k : ℕ) (p : Prefetcher)
      → s.callbacks ≡ suc k
      → callback_func s.prefetcher ≡ ok p
      → Scheduled b first s
      → Scheduled b first
          (record s { prefetcher = p; callbacks = k + new_callbacks s.prefetcher p })
  callback-Scheduled b s k p e g c =
      let (p', h, d, le) = callback_func-ok first f.prefetches _ s.prefetcher c.counted in
      let q = ok-inj (sym h ∙ g) in
      record {
        counted = subst (Counted first _) q d;
        bounded = c.bounded;
        launches =
            Launched-callback b first s.prefetcher p (calls_left s.position) s.callbacks k _ e
              (subst (λ p. s.prefetcher.launched_prefetches ≤ p.launched_prefetches) q le)
              c.launches;
      }

  Step-Scheduled :
      (b : Bool) (s t : Epoch)
      → is_limited first ≡ b
      → Step s t
      → Scheduled b first s
      → Scheduled b first t
  Step-Scheduled b s t l (start _ k p e g) c =
      start-Scheduled b s k p e
        (ap (λ b. prefetch_partition b s.prefetcher)
            (sym (is_limited-same first s.prefetcher _ c.counted ∙ l))
          ∙ g)
        c
  Step-Scheduled b s t l (loop _ e) c = loop-Scheduled b s e c
  Step-Scheduled b s t l (enter _ i p e h g) c = enter-Scheduled b s i p e h g c
  Step-Scheduled b s t l (leave _ i e) c = leave-Scheduled b s i e c
  Step-Scheduled b s t l (stop _ i e h) c = stop-Scheduled b s i e h c
  Step-Scheduled b s t l (callback _ k p e g) c = callback-Scheduled b s k p e g c

  pub Reach-Scheduled :
      (s : Epoch) → Reach (start_epoch first) s → Scheduled (is_limited first) first s
  Reach-Scheduled _ here = start_epoch-Scheduled first f
  Reach-Scheduled s (next {t = u} r st) =
      Step-Scheduled (is_limited first) u s refl st (Reach-Scheduled u r)
