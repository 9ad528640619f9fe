-- ===== src/Dataset/Prefetch/Schedule.antt =====
-- The invariant of an epoch, and the start of one.
use modyn.Dataset.Prefetch.{
  Prefetcher, is_limited, start_calls, Position, starting, iterating, consuming, exhausted, Epoch,
  start_epoch,
}
use modyn.Dataset.Prefetch.Counted.{Counted}
use modyn.Prelude.{
  ltb, if◌then◌else◌, ℕ, suc, ◌+◌, ◌-◌, ◌≤◌, ◌<◌, min, ◌≡◌, refl, Bool, true, false, [], arith,
}

-- The calls without `maybe_continue` that have been made.
unfoldable pub started_calls : Bool → ℕ → ℕ → ℕ
started_calls true num k = 0
started_calls false num k = num - k

unfoldable pub calls_at : Bool → ℕ → ℕ → Position → ℕ
calls_at limited num n (starting k) = started_calls limited num k
calls_at limited num n (iterating i) = started_calls limited num 0 + min i (n - 1)
calls_at limited num n (consuming i) = started_calls limited num 0 + min (suc i) (n - 1)
calls_at limited num n exhausted = started_calls limited num 0 + (n - 1)

-- The calls of `start_prefetching` that are left, and the partition that is read.
unfoldable pub Bounded : Prefetcher → Position → Type 0
Bounded first (starting k) = k ≤ start_calls first
Bounded first (iterating i) = i ≤ first.num_partitions
Bounded first (consuming i) = i < first.num_partitions
Bounded first exhausted = Unit

unfoldable pub calls_left : Position → ℕ
calls_left (starting k) = k
calls_left (iterating i) = 0
calls_left (consuming i) = 0
calls_left exhausted = 0

pub record IsFirst (first : Prefetcher) : Type 0 where
  pub none_fetched : first.next_partition_to_fetch ≡ 0
  pub no_threads : first.data_threads ≡ []
  pub prefetches : 0 < first.num_prefetched_partitions
  pub few : first.num_prefetched_partitions ≤ first.num_partitions

-- With a limit, one partition is started by the first call; without one, there are no callbacks.
unfoldable pub Launched : Bool → Prefetcher → ℕ → ℕ → Prefetcher → Type 0
Launched true first left callbacks p =
    first.launched_prefetches < first.num_prefetched_partitions
    → left < first.parallel_prefetch_requests
    → first.launched_prefetches < p.launched_prefetches
Launched false first left callbacks p =
    (callbacks ≡ 0) × (p.launched_prefetches ≡ first.launched_prefetches)

pub record Scheduled (b : Bool) (first : Prefetcher) (s : Epoch) : Type 0 where
  pub counted :
      Counted first
        (calls_at b first.num_prefetched_partitions first.num_partitions s.position)
        s.prefetcher
  pub bounded : Bounded first s.position
  pub launches : Launched b first (calls_left s.position) s.callbacks s.prefetcher

pub is_limited-same :
    (first p : Prefetcher) (calls : ℕ) → Counted first calls p → is_limited p ≡ is_limited first
unfolding is_limited
is_limited-same first p calls c = rw (c.same_parallel, c.same_num) refl

-- No call has been made.
calls_at_start :
    (b : Bool) (num n parallel : ℕ)
    → 0 < num
    → started_calls b num (if ltb num 1 then 0 else if b then parallel else num) ≡ 0
unfolding started_calls
calls_at_start true num n parallel h = refl
calls_at_start false num n parallel h =
    let e : ltb num 1 ≡ false = ground arith in rw e (omega arith)

first-Counted :
    (first : Prefetcher) (calls : ℕ) → IsFirst first → calls ≡ 0 → Counted first calls first
first-Counted first calls f e = record {
  same_num = refl;
  same_parallel = refl;
  same_partitions = refl;
  more = omega arith;
  limit = omega arith;
  next_lem = omega (arith, f.none_fetched, e);
  threads = λ i. rw (f.no_threads, f.none_fetched) (nothing i);
}
  where
    nothing : (i : ℕ) → false ≡ ltb i 0
    nothing i = ground arith

first-Launched :
    (b : Bool) (first : Prefetcher) (left : ℕ)
    → (b ≡ true → first.parallel_prefetch_requests ≤ left)
    → Launched b first left 0 first
unfolding Launched
first-Launched true first left h = λ _ k. absurd (omega (arith, h refl, k))
first-Launched false first left h = (refl, refl)

start_calls_limited :
    (first : Prefetcher)
    → 0 < first.num_prefetched_partitions
    → is_limited first ≡ true
    → first.parallel_prefetch_requests ≤ start_calls first
unfolding start_calls
start_calls_limited first h e =
    let f : ltb first.num_prefetched_partitions 1 ≡ false = ground arith in rw (f, e) (omega arith)

pub start_epoch-Scheduled :
    (first : Prefetcher) → IsFirst first → Scheduled (is_limited first) first (start_epoch first)
unfolding start_epoch calls_at Bounded calls_left start_calls
start_epoch-Scheduled first f = record {
  counted = first-Counted first _ f (
      calls_at_start (is_limited first) first.num_prefetched_partitions first.num_partitions
        first.parallel_prefetch_requests f.prefetches);
  bounded = omega arith;
  launches =
      first-Launched (is_limited first) first (start_calls first)
        (start_calls_limited first f.prefetches);
}
