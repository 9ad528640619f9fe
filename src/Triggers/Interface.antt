-- ===== src/Triggers/Interface.antt =====
-- What the executor uses of a trigger (modyn/supervisor/internal/triggers/trigger.py), and that both
-- triggers provide it.
use modyn.Prelude.{length, Result, ok, ℕ, ◌≤◌, ◌≡◌, List, [], ◌∷◌}
use modyn.Prelude.Int.{ℤ, after}
use modyn.Data.{DataPoint}

-- The indices do not fall, start at `lo` or later, and lie among `n` items.
abbrev pub IsOrdered : ℕ → List ℤ → ℕ → Type 0
IsOrdered lo [] n = Unit {0}
IsOrdered lo (i ∷ is) n = (lo ≤ after i) × (after i ≤ n) × IsOrdered (after i) is n

pub record Trigger : Type 1 where
  pub State : Type 0
  pub inform : State → List DataPoint → Result (List ℤ × State)
  pub IsValid : State → Type 0
  -- On data that is not empty a valid trigger does not raise, and stays valid.
  pub inform_returns :
      (t : State) (d : DataPoint) (ds : List DataPoint)
      → IsValid t
      → (indices : List ℤ) × (t' : State) × (inform t (d ∷ ds) ≡ ok (indices, t'))
        × IsValid t'
        × IsOrdered 0 indices (length (d ∷ ds))
