-- ===== src/Partition/Cover.antt =====
-- The parts that `get_partition_for_worker` hands out, taken together.
use modyn.Prelude.{
  ltb, leb, leb→le, ltb→le, lt→leb, tests, Bool-cases, length, take, slice, take-all, drop-all,
  take-nil, take-append-slice, Result, ok, raise, ℕ, zero, suc, ◌+◌, ◌-◌, ◌*◌, ◌/◌, ◌%◌, ◌≤◌, ◌<◌,
  min, ◌≡◌, refl, sym, ap, ◌∙◌, inl, inr, List, [], ◌++◌, arith, le_refl,
}
use modyn.Prelude.Int.{ℤ, pos, negsuc}
use modyn.Partition.{subset_size, offset, start_index, get_partition_for_worker}

past_threshold : (w r q : ℕ) → r ≤ w → r * (q + 1) + (w - r) * q ≡ w * q + r
past_threshold w r q h =
    let split : w ≡ r + (w - r) = omega arith in omega (arith, ap (λ (k : ℕ). k * q) split)

offset_eq : (w t n : ℕ) → offset w t n ≡ w * (n / t) + min w (n % t)
unfolding offset
offset_eq w t n = elim (Bool-cases (ltb 0 (n % t))) [
  | inl more ↦ elim (Bool-cases (ltb w (n % t))) [
    | inl below ↦ rw (more, below) (omega (tests, below))
    | inr above ↦
        rw (more, above)
          (omega (tests, above, past_threshold w (n % t) (n / t) (ltb→le w (n % t) above)))
  ]
  | inr even ↦ rw even (omega (tests, even))
]

subset_size_eq : (w t n : ℕ) → subset_size w t n + min w (n % t) ≡ n / t + min (suc w) (n % t)
unfolding subset_size
subset_size_eq w t n = ground arith

offset-suc : (w t n : ℕ) → offset (suc w) t n ≡ offset w t n + subset_size w t n
offset-suc w t n = omega (arith, offset_eq w t n, offset_eq (suc w) t n, subset_size_eq w t n)

offset_total : (t n : ℕ) → 0 < t → offset t t n ≡ n
offset_total t n h = omega (arith, offset_eq t t n)

subset_size_beyond : (w t n : ℕ) → w < t → n ≤ offset w t n → subset_size w t n ≡ 0
subset_size_beyond w t n h k = grind (arith, offset_eq w t n, subset_size_eq w t n)

-- The elements that a caller takes out of `xs` for the answer of `get_partition_for_worker`.
unfoldable pub slice_of {ℓ} : {A : Type ℓ} → List A → Result (ℕ × ℕ) → List A
slice_of xs (ok (start, size)) = slice xs start (start + size)
slice_of xs (raise e) = []

unfoldable pub worker_slice {ℓ} : {A : Type ℓ} → List A → ℕ → ℕ → List A
unfolding slice_of
worker_slice xs t w = slice_of xs (get_partition_for_worker (pos w) t (length xs))

-- The slices of the workers 0 to k - 1, in order.
unfoldable pub worker_slices {ℓ} : {A : Type ℓ} → List A → ℕ → ℕ → List A
worker_slices xs t zero = []
worker_slices xs t (suc k) = worker_slices xs t k ++ worker_slice xs t k

module _ {ℓ} {A : Type ℓ} (xs : List A) (t : ℕ) where
  slice_of_offset :
      (w : ℕ)
      → w < t
      → worker_slice xs t w
        ≡ slice xs (offset w t (length xs)) (offset w t (length xs) + subset_size w t (length xs))
  unfolding worker_slice get_partition_for_worker start_index
  slice_of_offset w h = elim (Bool-cases (leb (length xs) (offset w t (length xs)))) [
    | inl beyond ↦
        let none_left : subset_size w t (length xs) ≡ 0 =
          subset_size_beyond w t (length xs) h (leb→le _ _ beyond) in
        rw
          (
            lt→leb w t h,
            beyond,
            none_left,
            drop-all (offset w t (length xs)) xs (leb→le _ _ beyond),
          )
          (empty_slice (offset w t (length xs)))
    | inr within ↦ rw (lt→leb w t h, within)
  ]
    where
      empty_slice : (i : ℕ) → slice xs 0 (0 + 0) ≡ take (i + 0 - i) []
      empty_slice i = sym (take-nil (i + 0 - i))

  slices_prefix : (k : ℕ) → k ≤ t → worker_slices xs t k ≡ take (offset k t (length xs)) xs
  unfolding worker_slices
  slices_prefix zero h = rw offset_zero
    where
      offset_zero : offset 0 t (length xs) ≡ 0
      offset_zero = omega (arith, offset_eq 0 t (length xs))
  slices_prefix (suc k) h =
      rw (slices_prefix k (omega arith), slice_of_offset k h, offset-suc k t (length xs))
        (take-append-slice xs (offset k t (length xs)) (subset_size k t (length xs)))

  -- For any number of workers above zero, the slices that the workers 0 to t - 1 take of a list by
  -- their start index and subset size are together the whole list: no element is left out, none is
  -- given to two workers, and the order is kept.
  pub worker_slices_cover : 0 < t → worker_slices xs t t ≡ xs
  worker_slices_cover h =
      slices_prefix t (le_refl t)
      ∙ rw (offset_total t (length xs) h) (take-all (length xs) xs (le_refl (length xs)))

module _ (w t n : ℕ) where
  start_within : w < t → start_index w t n + subset_size w t n ≤ n
  unfolding start_index
  start_within h = elim (Bool-cases (leb n (offset w t n))) [
    | inl beyond ↦ rw beyond (omega (arith, subset_size_beyond w t n h (leb→le _ _ beyond)))
    | inr within ↦ rw within (grind (arith, offset_eq w t n, subset_size_eq w t n))
  ]

  size_bounds : (n / t ≤ subset_size w t n) × (subset_size w t n ≤ n / t + 1)
  unfolding subset_size
  size_bounds = ground arith

-- Whenever `get_partition_for_worker` returns for t workers, the worker id, which may be any integer,
-- is one of 0 to t - 1, what it returns lies within the n elements, and the size is n / t or one more,
-- so that two workers' sizes differ by at most one.
pub get_partition_for_worker_bounds :
    (t n : ℕ) (worker_id : ℤ) (start size : ℕ)
    → get_partition_for_worker worker_id t n ≡ ok (start, size)
    → (w : ℕ) × (worker_id ≡ pos w)
      × (w < t)
      × (start + size ≤ n)
      × (n / t ≤ size)
      × (size ≤ n / t + 1)
unfolding get_partition_for_worker
get_partition_for_worker_bounds t n (negsuc k) start size h = cc
get_partition_for_worker_bounds t n (pos w) start size h =
    let (below, within, least, most) = bounds in (w, refl, below, within, least, most)
  where
    bounds : (w < t) × (start + size ≤ n) × (n / t ≤ size) × (size ≤ n / t + 1)
    bounds = ground (arith, start_within w t n, size_bounds w t n)
