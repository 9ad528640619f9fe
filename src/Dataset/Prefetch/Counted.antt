-- ===== src/Dataset/Prefetch/Counted.antt =====
-- How the calls of `_prefetch_partition` count the partitions that are started.
use modyn.Dataset.Prefetch.{Prefetcher, launch, prefetch_partition}
use modyn.Prelude.{
  ltb, leb, ◌==◌, if◌then◌else◌, leb→le, leb→lt, tests, Bool-cases, mem, assertion_error, ok, ◌>>◌,
  guard, ℕ, suc, ◌+◌, ◌-◌, ◌≤◌, ◌<◌, min, max, ◌≡◌, refl, ap, ◌∙◌, inl, inr, Bool, true, false, not,
  ◌||◌, ◌∷◌, arith,
}

-- After `calls` calls without `maybe_continue`, in an epoch that began with `first`.
pub record Counted (first : Prefetcher) (calls : ℕ) (p : Prefetcher) : Type 0 where
  pub same_num : p.num_prefetched_partitions ≡ first.num_prefetched_partitions
  pub same_parallel : p.parallel_prefetch_requests ≡ first.parallel_prefetch_requests
  pub same_partitions : p.num_partitions ≡ first.num_partitions
  pub more : first.launched_prefetches ≤ p.launched_prefetches
  pub limit : p.launched_prefetches ≤ max first.launched_prefetches first.num_prefetched_partitions
  pub next_lem :
      p.next_partition_to_fetch
      ≡ min first.num_partitions (p.launched_prefetches - first.launched_prefetches + calls)
  pub threads : (i : ℕ) → mem i p.data_threads ≡ ltb i p.next_partition_to_fetch

ltb_irrefl : (a : ℕ) → ltb a a ≡ false
ltb_irrefl a = ground arith

mem_suc : (n i : ℕ) → ((n == i) || ltb i n) ≡ ltb i (suc n)
mem_suc n i = ground arith

launched : Bool → Prefetcher → Prefetcher
launched b p = record p {
  launched_prefetches = (if b then suc p.launched_prefetches else p.launched_prefetches);
  data_threads = p.next_partition_to_fetch ∷ p.data_threads;
  next_partition_to_fetch = suc p.next_partition_to_fetch;
}

module _ (first : Prefetcher) where
  launch-ok :
      (b : Bool) (calls : ℕ) (p : Prefetcher)
      → Counted first calls p
      → launch b p ≡ ok (launched b p)
  unfolding launch launched
  launch-ok b calls p c =
      ap (λ t. guard (not t) assertion_error >> ok (launched b p))
        (c.threads p.next_partition_to_fetch ∙ ltb_irrefl p.next_partition_to_fetch)

  -- A launch where the limits leave room.
  launched-Counted :
      (b : Bool) (calls calls' : ℕ) (p : Prefetcher)
      → Counted first calls p
      → p.next_partition_to_fetch < first.num_partitions
      → (if b then suc p.launched_prefetches else p.launched_prefetches) + calls'
        ≡ suc (p.launched_prefetches + calls)
      → (if b then suc p.launched_prefetches else p.launched_prefetches)
        ≤ max first.launched_prefetches first.num_prefetched_partitions
      → Counted first calls' (launched b p)
  unfolding launched
  launched-Counted b calls calls' p c h e l = record {
    same_num = c.same_num;
    same_parallel = c.same_parallel;
    same_partitions = c.same_partitions;
    more = not_less b c.more;
    limit = l;
    next_lem = omega (arith, c.next_lem, h, e, c.more, not_less b c.more);
    threads = λ i.
        ap (λ t. (p.next_partition_to_fetch == i) || t) (c.threads i)
        ∙ mem_suc p.next_partition_to_fetch i;
  }
    where
      not_less : (b : Bool) {a l : ℕ} → a ≤ l → a ≤ (if b then suc l else l)
      not_less true k = omega (arith, k)
      not_less false k = k

  -- A call that finds nothing more to prefetch.
  full-Counted :
      (calls calls' : ℕ) (p : Prefetcher)
      → Counted first calls p
      → first.num_partitions ≤ p.next_partition_to_fetch
      → calls ≤ calls'
      → Counted first calls' p
  full-Counted calls calls' p c h k = record {
    same_num = c.same_num;
    same_parallel = c.same_parallel;
    same_partitions = c.same_partitions;
    more = c.more;
    limit = c.limit;
    next_lem = omega (arith, c.next_lem, h, k);
    threads = c.threads;
  }

  -- A call without `maybe_continue` does not fail, and starts one more partition if one is left.
  pub prefetch_partition-false :
      (calls : ℕ) (p : Prefetcher)
      → Counted first calls p
      → 0 < first.num_prefetched_partitions
      → (p' : Prefetcher) × (prefetch_partition false p ≡ ok p')
        × Counted first (suc calls) p'
        × (p'.launched_prefetches ≡ p.launched_prefetches)
  unfolding prefetch_partition launched
  prefetch_partition-false calls p c n =
      let e : ltb p.num_prefetched_partitions 1 ≡ false = ground (arith, c.same_num, n) in
      elim (Bool-cases (leb p.num_partitions p.next_partition_to_fetch)) [
        | inl h ↦ (
          p,
          rw (e, h),
          full-Counted calls (suc calls) p c (omega (tests, leb→le _ _ h, c.same_partitions))
              (omega arith),
          refl,
        )
        | inr h ↦ (
          launched false p,
          rw (e, h) (launch-ok false calls p c),
          launched-Counted false calls (suc calls) p c
              (omega (tests, leb→lt _ _ h, c.same_partitions)) (omega arith) c.limit,
          refl,
        )
      ]

  -- A call with `maybe_continue` does not fail, and starts one more partition if one is left and the
  -- limit allows it.
  pub prefetch_partition-true :
      (calls : ℕ) (p : Prefetcher)
      → Counted first calls p
      → 0 < first.num_prefetched_partitions
      → (p' : Prefetcher) × (prefetch_partition true p ≡ ok p')
        × Counted first calls p'
        × (p.launched_prefetches ≤ p'.launched_prefetches)
        × (p.launched_prefetches < first.num_prefetched_partitions
            → p.next_partition_to_fetch < first.num_partitions
            → p.launched_prefetches < p'.launched_prefetches)
  unfolding prefetch_partition launched
  prefetch_partition-true calls p c n =
      let e : ltb p.num_prefetched_partitions 1 ≡ false = ground (arith, c.same_num, n) in
      elim (Bool-cases (leb p.num_partitions p.next_partition_to_fetch)) [
        | inl h ↦ (
          p,
          rw (e, h),
          c,
          omega arith,
          λ l k. absurd (omega (tests, leb→le _ _ h, c.same_partitions, k)),
        )
        | inr h ↦ elim (Bool-cases (leb p.num_prefetched_partitions p.launched_prefetches)) [
          | inl k ↦ (
            p,
            rw (e, h, k),
            c,
            omega arith,
            λ l _. absurd (omega (tests, leb→le _ _ k, c.same_num, l)),
          )
          | inr k ↦ (
            launched true p,
            rw (e, h, k) (launch-ok true calls p c),
            launched-Counted true calls calls p c (omega (tests, leb→lt _ _ h, c.same_partitions))
                (omega arith) (omega (tests, leb→lt _ _ k, c.same_num)),
            omega arith,
            λ _ _. omega arith,
          )
        ]
      ]
