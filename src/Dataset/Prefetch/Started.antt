-- ===== src/Dataset/Prefetch/Started.antt =====
-- Which partitions are started when the loop reads one.
use modyn.Dataset.Prefetch.Kept.{Counted-at, Launched-at, Reach-Scheduled}
use modyn.Dataset.Prefetch.{
  Prefetcher, begin_epoch, prefetch_partition, is_limited, partition_lock, consuming, Epoch,
  start_epoch, Reach,
}
use modyn.Dataset.Prefetch.Counted.{Counted, prefetch_partition-false, prefetch_partition-true}
use modyn.Dataset.Prefetch.Schedule.{
  started_calls, calls_at, Bounded, calls_left, IsFirst, Launched,
}
use modyn.Prelude.{
  ltb, lt→ltb, key_error, ok, raise, guard, ℕ, suc, ◌+◌, ◌-◌, ◌≤◌, ◌<◌, min, ◌≡◌, refl, ap, ◌∙◌,
  subst, Bool, true, false, arith,
}

begin_epoch-IsFirst :
    (n : ℕ) (p : Prefetcher) → 0 < n → 0 < p.num_prefetched_partitions → IsFirst (begin_epoch n p)
unfolding begin_epoch
begin_epoch-IsFirst n p h g = record {
  none_fetched = refl;
  no_threads = refl;
  prefetches = omega arith;
  few = omega arith;
}

-- A partition that is started has its lock.
lock_lem :
    (first p : Prefetcher) (calls i : ℕ)
    → Counted first calls p
    → partition_lock i p ≡ guard (ltb i p.next_partition_to_fetch) key_error
unfolding partition_lock
lock_lem first p calls i c = ap (λ t. guard t key_error) (c.threads i)

Launched-next :
    (b : Bool) (first p : Prefetcher) (callbacks i : ℕ)
    → IsFirst first
    → (b ≡ true → 0 < first.parallel_prefetch_requests)
    → first.launched_prefetches < first.num_prefetched_partitions
    → i < first.num_partitions
    → Counted first
        (calls_at b first.num_prefetched_partitions first.num_partitions (consuming i))
        p
    → Launched b first 0 callbacks p
    → i < p.next_partition_to_fetch
      × (p.next_partition_to_fetch ≤ suc i + first.num_prefetched_partitions)
unfolding calls_at started_calls Launched
Launched-next true first p callbacks i f par room h c l =
    let m = l room (par refl) in omega (arith, c.next_lem, m, h, c.limit)
Launched-next false first p callbacks i f par room h c l =
    omega (arith, c.next_lem, l.1, h, f.prefetches)

Bounded-at :
    (first : Prefetcher) (s : Epoch) (i : ℕ)
    → s.position ≡ consuming i
    → Bounded first s.position
    → i < first.num_partitions
unfolding Bounded
Bounded-at first s i e h = subst (Bounded first) e h

prefetches :
    (first p : Prefetcher)
    → 0 < first.num_prefetched_partitions
    → (calls : ℕ) → Counted first calls p
    → (b : Bool) → (p' : Prefetcher) × (prefetch_partition b p ≡ ok p')
prefetches first p h calls c true =
    let (p', e, _, _, _) = prefetch_partition-true first calls p c h in (p', e)
prefetches first p h calls c false =
    let (p', e, _, _) = prefetch_partition-false first calls p c h in (p', e)

-- With no room for launches, the calls of the loop start all partitions but the last.
last_missing :
    (b : Bool) (first p : Prefetcher)
    → b ≡ true
    → first.num_prefetched_partitions ≤ first.launched_prefetches
    → Counted first
        (calls_at b first.num_prefetched_partitions first.num_partitions
          (consuming (first.num_partitions - 1)))
        p
    → p.next_partition_to_fetch ≤ first.num_partitions - 1
unfolding calls_at started_calls
last_missing true first p e h c = omega (arith, c.next_lem, c.limit, h)
last_missing false first p e h c = cc e

not_ltb : {a b : ℕ} → b ≤ a → ltb a b ≡ false
not_ltb h = ground (arith, h)

-- In an epoch with prefetching, at least one parallel request and room for a launch, whenever the loop
-- reads a partition, however the callbacks of the threads have interleaved with it: that partition has
-- been started, so its lock is there; no more partitions than `num_prefetched_partitions` have been
-- started after it; and no call of `_prefetch_partition` finds that the next one is already started.
pub consuming-started :
    (n i : ℕ) (p : Prefetcher) (s : Epoch)
    → 0 < n
    → 0 < p.num_prefetched_partitions
    → 0 < p.parallel_prefetch_requests
    → p.launched_prefetches < min p.num_prefetched_partitions n
    → Reach (start_epoch (begin_epoch n p)) s
    → s.position ≡ consuming i
    → (partition_lock i s.prefetcher ≡ ok tt)
      × (s.prefetcher.next_partition_to_fetch ≤ suc i + p.num_prefetched_partitions)
      × ((b : Bool) → (p' : Prefetcher) × (prefetch_partition b s.prefetcher ≡ ok p'))
unfolding begin_epoch calls_left
consuming-started n i p s hn hp hr room r e =
    let first = begin_epoch n p in
    let f = begin_epoch-IsFirst n p hn hp in
    let c = Reach-Scheduled first f s r in
    let d = Counted-at first f (is_limited first) s (consuming i) e c in
    let (lt, le) =
      Launched-next (is_limited first) first s.prefetcher s.callbacks i f (λ _. hr) room
        (Bounded-at first s i e c.bounded) d
        (Launched-at first f (is_limited first) s (consuming i) e c) in
    (
      lock_lem first s.prefetcher _ i d ∙ ap (λ t. guard t key_error) (lt→ltb _ _ lt),
      omega (arith, le),
      prefetches first s.prefetcher f.prefetches _ d,
    )

-- In an epoch that begins with no room for a launch, as `_launched_prefetches` is not reset between
-- epochs, when parallel requests are limited: the loop comes to the last partition without its having
-- been started, and the look at its lock raises a KeyError.
pub consuming-missing :
    (n : ℕ) (p : Prefetcher) (s : Epoch)
    → 0 < n
    → p.parallel_prefetch_requests < min p.num_prefetched_partitions n
    → min p.num_prefetched_partitions n ≤ p.launched_prefetches
    → Reach (start_epoch (begin_epoch n p)) s
    → s.position ≡ consuming (n - 1)
    → partition_lock (n - 1) s.prefetcher ≡ raise key_error
unfolding begin_epoch is_limited
consuming-missing n p s hn lim full r e =
    let first = begin_epoch n p in
    let f = begin_epoch-IsFirst n p hn (omega (arith, lim)) in
    let c = Reach-Scheduled first f s r in
    let d = Counted-at first f (is_limited first) s (consuming (n - 1)) e c in
    lock_lem first s.prefetcher _ (n - 1) d
    ∙ ap (λ t. guard t key_error)
        (not_ltb (last_missing (is_limited first) first s.prefetcher (lt→ltb _ _ lim) full d))
