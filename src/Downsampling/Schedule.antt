-- ===== src/Downsampling/Schedule.antt =====
-- Which downsampler is in use after a number of triggers.
use modyn.Downsampling.{
  DownsamplerConfig, Classes, Scheduler, is_sorted, members, is_due, validate_threshold,
  instantiate_downsampler, downsampler_at, get_next, at_index, init, inform_next_trigger,
}
use modyn.Downsampling.Thresholds.{
  IsIncreasing, below, below-none, next_count, below-suc, strict, within, in_range,
}
use modyn.Prelude.{
  leb, Bool-cases, length, get_elem?, take, All, Result, ok, raise, ◌>>=◌, Result-cases, ℕ, zero,
  suc, ◌+◌, ◌≤◌, ◌<◌, ◌≡◌, refl, sym, ap, ◌∙◌, subst, inl, inr, true, false, Option, none, some,
  List, [], ◌∷◌, arith, le_refl, le_trans,
}

validate_threshold_lem :
    {C : Type 0} (configs : List (DownsamplerConfig C)) (thresholds : List ℕ)
    → validate_threshold configs thresholds ≡ ok tt
    → (length configs ≡ length thresholds + 1) × IsIncreasing 0 thresholds
unfolding validate_threshold
validate_threshold_lem configs thresholds valid =
    let (sizes, sorted, unique) = passed in
    (sizes, strict 0 thresholds (first thresholds) sorted unique)
  where
    passed :
        (length configs ≡ length thresholds + 1)
        × (is_sorted thresholds ≡ true)
        × (length thresholds ≡ length (members thresholds))
    passed = ground arith

    first : (xs : List ℕ) → All (λ x. 0 ≤ x) (take 1 xs)
    first [] = tt
    first (x ∷ xs) = (omega arith, tt)

-- A property of the first elements and of the next one.
All-take_suc :
    {A : Type 0} (P : A → Type 0) (xs : List A) (k : ℕ) (a : A)
    → All P (take k xs)
    → get_elem? xs k ≡ some a
    → P a
    → All P (take (suc k) xs)
All-take_suc P [] k a h e p = cc
All-take_suc P (x ∷ xs) zero a h e p =
    let same : some x ≡ some a = e in let at : x ≡ a = cc in (subst P (sym at) p, tt)
All-take_suc P (x ∷ xs) (suc k) a h e p = (h.0, All-take_suc P xs k a h.1 e p)

module _ {C D : Type 0} (classes : Classes C D) (maximum_keys_in_memory : ℕ) where
  -- The scheduler after the triggers 0 to `n - 1`, one after the other.
  pub informed : ℕ → Scheduler C D → Result (Scheduler C D)
  informed zero s = ok s
  informed (suc n) s = do s' ← informed n s; inform_next_trigger classes n s'

  abbrev pub IsMade : DownsamplerConfig C → Type 0
  IsMade config = (d : D) × (instantiate_downsampler classes maximum_keys_in_memory config ≡ ok d)

  -- The scheduler stands at an index; the downsamplers up to there could be made.
  abbrev pub IsAt : List (DownsamplerConfig C) → List ℕ → ℕ → Scheduler C D → Type 0
  IsAt configs thresholds index s =
      (s.downsampling_configs ≡ configs)
      × (s.downsampling_thresholds ≡ thresholds)
      × (s.downsampler_index ≡ index)
      × (s.maximum_keys_in_memory ≡ maximum_keys_in_memory)
      × (s.next_threshold ≡ get_elem? thresholds index)
      × ((config : DownsamplerConfig C) × (get_elem? configs index ≡ some config)
          × (instantiate_downsampler classes maximum_keys_in_memory config
              ≡ ok s.current_downsampler))
      × All IsMade (take (suc index) configs)

  -- A scheduler at an index, or what making a downsampler up to it raises.
  abbrev pub Reaches : List (DownsamplerConfig C) → List ℕ → ℕ → Result (Scheduler C D) → Type 0
  Reaches configs thresholds index (ok s) = IsAt configs thresholds index s
  Reaches configs thresholds index (raise e) =
      (i : ℕ) × (config : DownsamplerConfig C) × (i ≤ index)
      × (get_elem? configs i ≡ some config)
      × All IsMade (take i configs)
      × (instantiate_downsampler classes maximum_keys_in_memory config ≡ raise e)

  at_index-Reaches :
      (configs : List (DownsamplerConfig C)) (thresholds : List ℕ) (index : ℕ)
      → index < length configs
      → All IsMade (take index configs)
      → Reaches configs thresholds index
          (at_index classes maximum_keys_in_memory configs thresholds index)
  unfolding at_index get_next downsampler_at
  at_index-Reaches configs thresholds index h made =
      let (config, found) = within configs index h in
      elim (Result-cases (instantiate_downsampler classes maximum_keys_in_memory config)) [
        | inl (d, new) ↦
            let whole = All-take_suc IsMade configs index config made found (d, new) in
            rw (found, new) (refl, refl, refl, refl, refl, (config, found, new), whole)
        | inr (e, failed) ↦ rw (found, failed) (index, config, le_refl index, found, made, failed)
      ]

  advances :
      (configs : List (DownsamplerConfig C)) (thresholds : List ℕ) (k : ℕ) (s : Scheduler C D)
      → IsAt configs thresholds k s
      → at_index classes maximum_keys_in_memory configs thresholds (suc k)
        ≡ at_index classes s.maximum_keys_in_memory s.downsampling_configs s.downsampling_thresholds
            (s.downsampler_index + 1)
  advances configs thresholds k s (cs, ts, at, keys, next, current, made) =
      rw (cs, ts, at, keys)
        (ap (at_index classes maximum_keys_in_memory configs thresholds) (plus_one k))
    where
      plus_one : (i : ℕ) → suc i ≡ i + 1
      plus_one i = omega arith

  inform_next_trigger-Reaches :
      (configs : List (DownsamplerConfig C)) (thresholds : List ℕ) (n k : ℕ) (o : Option ℕ)
      (s : Scheduler C D)
      → length configs ≡ length thresholds + 1
      → IsAt configs thresholds k s
      → get_elem? thresholds k ≡ o
      → Reaches configs thresholds (next_count n k o) (inform_next_trigger classes n s)
  unfolding inform_next_trigger
  inform_next_trigger-Reaches configs thresholds n k none s sizes
        (cs, ts, at, keys, next, current, made) e =
      let never : is_due n s.next_threshold ≡ false = ap (is_due n) (next ∙ e) in
      rw never (cs, ts, at, keys, next, current, made)
  inform_next_trigger-Reaches configs thresholds n k (some t) s sizes
        (cs, ts, at, keys, next, current, made) e =
      elim (Bool-cases (leb t n)) [
        | inl due ↦
            let now : is_due n s.next_threshold ≡ true = ap (is_due n) (next ∙ e) ∙ due in
            rw (now, due)
              (subst (Reaches configs thresholds (suc k))
                (advances configs thresholds k s (cs, ts, at, keys, next, current, made))
                (at_index-Reaches configs thresholds (suc k)
                  (omega (arith, sizes, in_range thresholds k t e)) made))
        | inr later ↦
            let not_now : is_due n s.next_threshold ≡ false = ap (is_due n) (next ∙ e) ∙ later in
            rw (not_now, later) (cs, ts, at, keys, next, current, made)
      ]

  le_next : (n k : ℕ) (o : Option ℕ) → k ≤ next_count n k o
  le_next n k none = le_refl k
  le_next n k (some t) = ground arith

  -- One more trigger.
  inform-Reaches :
      (configs : List (DownsamplerConfig C)) (thresholds : List ℕ) (n k : ℕ)
      (r : Result (Scheduler C D))
      → length configs ≡ length thresholds + 1
      → Reaches configs thresholds k r
      → Reaches configs thresholds
          (next_count n k (get_elem? thresholds k))
          (r >>= inform_next_trigger classes n)
  inform-Reaches configs thresholds n k (ok s) sizes at =
      inform_next_trigger-Reaches configs thresholds n k (get_elem? thresholds k) s sizes at refl
  inform-Reaches configs thresholds n k (raise e) sizes (i, config, bound, found, made, failed) =
      (i, config, le_trans bound (le_next n k (get_elem? thresholds k)), found, made, failed)

  informed-Reaches :
      (configs : List (DownsamplerConfig C)) (thresholds : List ℕ) (n : ℕ) (s : Scheduler C D)
      → length configs ≡ length thresholds + 1
      → IsIncreasing 0 thresholds
      → IsAt configs thresholds 0 s
      → Reaches configs thresholds (below n thresholds) (informed n s)
  unfolding informed
  informed-Reaches configs thresholds zero s sizes inc at =
      subst (λ k. IsAt configs thresholds k s) (sym (below-none 0 0 thresholds (le_refl 0) inc)) at
  informed-Reaches configs thresholds (suc n) s sizes inc at =
      subst (λ k. Reaches configs thresholds k (informed n s >>= inform_next_trigger classes n))
        (sym (below-suc n 0 thresholds inc))
        (inform-Reaches configs thresholds n (below n thresholds) (informed n s) sizes
          (informed-Reaches configs thresholds n s sizes inc at))

  started :
      (configs : List (DownsamplerConfig C)) (thresholds : List ℕ) (n : ℕ)
      (r : Result (Scheduler C D))
      → length configs ≡ length thresholds + 1
      → IsIncreasing 0 thresholds
      → Reaches configs thresholds 0 r
      → Reaches configs thresholds (below n thresholds) (r >>= informed n)
  started configs thresholds n (ok s) sizes inc at =
      informed-Reaches configs thresholds n s sizes inc at
  started configs thresholds n (raise e) sizes inc (i, config, bound, found, made, failed) =
      (i, config, omega arith, found, made, failed)

  pub schedule_lem :
      (configs : List (DownsamplerConfig C)) (thresholds : List ℕ) (n : ℕ)
      → validate_threshold configs thresholds ≡ ok tt
      → Reaches configs thresholds
          (below n thresholds)
          (init classes maximum_keys_in_memory configs thresholds >>= informed n)
  unfolding init
  schedule_lem configs thresholds n valid =
      let (sizes, inc) = validate_threshold_lem configs thresholds valid in
      rw valid (
        started configs thresholds n _ sizes inc
          (at_index-Reaches configs thresholds 0 (omega (arith, sizes)) tt))
