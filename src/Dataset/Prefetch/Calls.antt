-- ===== src/Dataset/Prefetch/Calls.antt =====
-- The callers of `_prefetch_partition`: the head of the loop, and the callback.
use modyn.Dataset.Prefetch.{Prefetcher, callback_func, enter_partition}
use modyn.Dataset.Prefetch.Counted.{Counted, prefetch_partition-false, prefetch_partition-true}
use modyn.Prelude.{
  ltb, ltb→lt, ltb→le, Bool-cases, ok, ℕ, suc, ◌+◌, ◌-◌, ◌≤◌, ◌<◌, min, ◌≡◌, refl, subst, inl, inr,
  true, arith,
}

module _ (first : Prefetcher) (num : 0 < first.num_prefetched_partitions) where
  -- The head of the loop makes one call for each partition but the last.
  pub enter_partition-ok :
      (i base : ℕ) (p : Prefetcher)
      → Counted first (base + min i (first.num_partitions - 1)) p
      → i < first.num_partitions
      → (p' : Prefetcher) × (enter_partition i p ≡ ok p')
        × Counted first (base + min (suc i) (first.num_partitions - 1)) p'
        × (p'.launched_prefetches ≡ p.launched_prefetches)
  unfolding enter_partition
  enter_partition-ok i base p c h =
      let e : ltb 0 p.num_prefetched_partitions ≡ true = ground (arith, c.same_num, num) in
      elim (Bool-cases (ltb i (p.num_partitions - 1))) [
        | inl l ↦
            let (p', g, d, same) = prefetch_partition-false first _ p c num in
            (
              p',
              rw (e, l) g,
              subst (λ n. Counted first n p')
                  (one_more base (subst (λ n. i < n - 1) c.same_partitions (ltb→lt _ _ l))) d,
              same,
            )
        | inr l ↦ (
          p,
          rw (e, l),
          subst (λ n. Counted first n p)
              (no_more base (subst (λ n. n - 1 ≤ i) c.same_partitions (ltb→le _ _ l))) c,
          refl,
        )
      ]
    where
      one_more : {i n : ℕ} (base : ℕ) → i < n → suc (base + min i n) ≡ base + min (suc i) n
      one_more base h = omega (arith, h)

      no_more : {i n : ℕ} (base : ℕ) → n ≤ i → base + min i n ≡ base + min (suc i) n
      no_more base h = omega (arith, h)

  pub callback_func-ok :
      (calls : ℕ) (p : Prefetcher)
      → Counted first calls p
      → (p' : Prefetcher) × (callback_func p ≡ ok p')
        × Counted first calls p'
        × (p.launched_prefetches ≤ p'.launched_prefetches)
  unfolding callback_func
  callback_func-ok calls p c =
      elim (Bool-cases (ltb p.launched_prefetches p.num_prefetched_partitions)) [
        | inl l ↦
            let (p', g, d, le, _) = prefetch_partition-true first calls p c num in
            (p', rw l g, d, le)
        | inr l ↦ (p, rw l, c, omega arith)
      ]
