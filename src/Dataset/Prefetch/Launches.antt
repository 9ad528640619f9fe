-- ===== src/Dataset/Prefetch/Launches.antt =====
-- What the calls and the callbacks of an epoch do to the count of launches.
use modyn.Dataset.Prefetch.{Prefetcher, is_limited, start_calls}
use modyn.Dataset.Prefetch.Counted.{Counted}
use modyn.Dataset.Prefetch.Schedule.{IsFirst, Launched}
use modyn.Prelude.{
  ltb, ltb→lt, ltb→le, Bool-cases, ℕ, suc, ◌≤◌, ◌<◌, ◌≡◌, ◌∙◌, inl, inr, Bool, true, false, arith,
}

-- One call of `start_prefetching`.
pub Launched-call :
    (first p p' : Prefetcher) (k calls : ℕ)
    → IsFirst first
    → Counted first calls p
    → calls ≡ 0
    → (p.launched_prefetches ≤ p'.launched_prefetches)
    → (p.launched_prefetches < first.num_prefetched_partitions
        → p.next_partition_to_fetch < first.num_partitions
        → p.launched_prefetches < p'.launched_prefetches)
    → first.launched_prefetches < first.num_prefetched_partitions
    → first.launched_prefetches < p'.launched_prefetches
Launched-call first p p' k calls f c z le lt h =
    elim (Bool-cases (ltb first.launched_prefetches p.launched_prefetches)) [
      | inl e ↦ omega (arith, ltb→lt _ _ e, le)
      | inr e ↦ omega (
        arith,
        ltb→le _ _ e,
        c.more,
        h,
        le,
        lt (omega (arith, ltb→le _ _ e, h))
            (omega (arith, ltb→le _ _ e, c.next_lem, z, f.prefetches, f.few)),
      )
    ]

pub Launched-same :
    (b : Bool) (first p p' : Prefetcher) (left callbacks : ℕ)
    → p'.launched_prefetches ≡ p.launched_prefetches
    → Launched b first left callbacks p
    → Launched b first left callbacks p'
unfolding Launched
Launched-same true first p p' left callbacks e l = λ h k. omega (arith, e, l h k)
Launched-same false first p p' left callbacks e l = (l.0, e ∙ l.1)

pub Launched-callback :
    (b : Bool) (first p p' : Prefetcher) (left callbacks k callbacks' : ℕ)
    → callbacks ≡ suc k
    → p.launched_prefetches ≤ p'.launched_prefetches
    → Launched b first left callbacks p
    → Launched b first left callbacks' p'
unfolding Launched
Launched-callback true first p p' left callbacks k callbacks' e h l = λ g j. omega (arith, h, l g j)
Launched-callback false first p p' left callbacks k callbacks' e h l =
    absurd (omega (arith, e, l.0))

pub start_calls_le : (first : Prefetcher) → start_calls first ≤ first.num_prefetched_partitions
unfolding start_calls is_limited
start_calls_le first = ground arith
