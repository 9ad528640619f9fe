-- ===== src/Prelude/Range.antt =====
-- Python's `range(start, stop, step)` for a positive step.
use modyn.Prelude.{
  length, get_elem?, ℕ, zero, suc, ◌+◌, ◌-◌, ◌*◌, ◌/◌, ◌≡◌, refl, ap, some, List, [], ◌∷◌, arith,
}

-- `start, start + step, ...`, `count` numbers.
unfoldable pub steps : ℕ → ℕ → ℕ → List ℕ
steps start step zero = []
steps start step (suc count) = start ∷ steps (start + step) step count

-- `list(range(start, stop, step))`, with the number of entries that the language reference gives.
unfoldable pub range_list : ℕ → ℕ → ℕ → List ℕ
range_list start stop step = steps start step ((stop - start + (step - 1)) / step)

pub length-steps : (start step count : ℕ) → length (steps start step count) ≡ count
unfolding steps
length-steps start step zero = refl
length-steps start step (suc count) = ap suc (length-steps (start + step) step count)

pub get_elem?-steps :
    (start step count k i : ℕ)
    → get_elem? (steps start step count) k ≡ some i
    → i ≡ start + k * step
unfolding steps
get_elem?-steps start step zero k i h = ground arith
get_elem?-steps start step (suc count) zero i h = ground arith
get_elem?-steps start step (suc count) (suc k) i h =
    omega (arith, get_elem?-steps (start + step) step count k i h)
