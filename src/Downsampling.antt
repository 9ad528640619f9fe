-- ===== src/Downsampling.antt =====
-- DownsamplingScheduler (downsampling_scheduler.py of
-- modyn/selector/internal/selector_strategies/downsampling_strategies), with instantiate_downsampler
-- of utils.py beside it and instantiate_class of modyn/utils/utils.py. Which classes the module of
-- the strategies has, and what their `__init__` returns or raises, is a parameter.
pub mod Thresholds
pub mod Schedule
use Prim.Native.String.{String, ◌++◌ as ◌+text◌}
use modyn.Prelude.{
  leb, ◌==◌, if◌then◌else◌, length, get_elem?, mem, value_error, key_error, index_error, Result, ok,
  raise, ◌>>=◌, ℕ, ◌+◌, Bool, true, false, not, ◌&&◌, Option, none, some, List, [], ◌∷◌,
}

-- A configuration: what stands under "strategy", and the whole of it as the classes read it.
pub record DownsamplerConfig (C : Type 0) : Type 0 where
  pub strategy : Option String
  pub options : C

-- The classes with their constructors, by name: `none` for a class that the module does not have.
-- `D` are the downsamplers.
abbrev pub Classes : Type 0 → Type 0 → Type 0
Classes C D = String → Option (C → ℕ → Result D)

pub record Scheduler (C D : Type 0) : Type 0 where
  pub downsampling_configs : List (DownsamplerConfig C)
  pub downsampling_thresholds : List ℕ
  pub downsampler_index : ℕ
  pub maximum_keys_in_memory : ℕ
  pub current_downsampler : D
  pub next_threshold : Option ℕ

-- `sorted(thresholds) == thresholds`, on neighbours.
unfoldable pub is_sorted : List ℕ → Bool
is_sorted [] = true
is_sorted (a ∷ []) = true
is_sorted (a ∷ b ∷ rest) = leb a b && is_sorted (b ∷ rest)

-- The members of `set(thresholds)`.
unfoldable pub members : List ℕ → List ℕ
members [] = []
members (a ∷ rest) = let later = members rest in if mem a later then later else a ∷ later

-- The test of `inform_next_trigger`.
abbrev pub is_due : ℕ → Option ℕ → Bool
is_due next_trigger_id none = false
is_due next_trigger_id (some threshold) = leb threshold next_trigger_id

module _ {C : Type 0} where
  unfoldable pub validate_threshold : List (DownsamplerConfig C) → List ℕ → Result (Unit {0})
  unfolding is_sorted members
  validate_threshold configs thresholds =
      if not (length configs == length thresholds + 1)
      then raise value_error
      else if not (is_sorted thresholds)
      then raise value_error
      else if not (length thresholds == length (members thresholds))
      then raise value_error
      else ok tt

module _ {C D : Type 0} (classes : Classes C D) (maximum_keys_in_memory : ℕ) where
  unfoldable pub construct : Option (C → ℕ → Result D) → C → Result D
  construct none options = raise value_error
  construct (some new) options = new options maximum_keys_in_memory

  -- `instantiate_class` for the module of the strategies
  unfoldable pub instantiate_class : String → C → Result D
  unfolding construct
  instantiate_class class_name options = construct (classes class_name) options

  -- `except ValueError`: also one that a class raises is followed by the second name.
  unfoldable pub or_long_name : String → C → Result D → Result D
  unfolding instantiate_class
  or_long_name name options (ok downsampler) = ok downsampler
  or_long_name name options (raise value_error) =
      instantiate_class (name +text "DownsamplingStrategy") options
  or_long_name name options (raise e) = raise e

  unfoldable pub with_name : C → Option String → Result D
  unfolding instantiate_class or_long_name
  with_name options none = raise key_error
  with_name options (some name) = or_long_name name options (instantiate_class name options)

  unfoldable pub instantiate_downsampler : DownsamplerConfig C → Result D
  unfolding with_name
  instantiate_downsampler config = with_name config.options config.strategy

  -- The downsampler of an index out of range is an IndexError.
  unfoldable pub downsampler_at : Option (DownsamplerConfig C) → Result D
  unfolding instantiate_downsampler
  downsampler_at none = raise index_error
  downsampler_at (some config) = instantiate_downsampler config

  -- `_get_next_downsampler_and_threshold`; `get_elem?` has the last case, where no threshold is left.
  unfoldable pub get_next : List (DownsamplerConfig C) → List ℕ → ℕ → Result (D × Option ℕ)
  unfolding downsampler_at
  get_next configs thresholds index = do
    next_downsampler ← downsampler_at (get_elem? configs index)
    ok (next_downsampler, get_elem? thresholds index)

  -- The scheduler at an index.
  unfoldable pub at_index : List (DownsamplerConfig C) → List ℕ → ℕ → Result (Scheduler C D)
  unfolding get_next
  at_index configs thresholds index = do
    (current, next) ← get_next configs thresholds index
    ok (record {
      downsampling_configs = configs;
      downsampling_thresholds = thresholds;
      downsampler_index = index;
      maximum_keys_in_memory = maximum_keys_in_memory;
      current_downsampler = current;
      next_threshold = next;
    })

  -- `__init__`
  unfoldable pub init : List (DownsamplerConfig C) → List ℕ → Result (Scheduler C D)
  unfolding validate_threshold at_index
  init configs thresholds = do
    valid ← validate_threshold configs thresholds
    at_index configs thresholds 0

unfoldable pub inform_next_trigger :
    {C D : Type 0} → Classes C D → ℕ → Scheduler C D → Result (Scheduler C D)
unfolding at_index
inform_next_trigger classes next_trigger_id s =
    let advanced =
      at_index classes s.maximum_keys_in_memory s.downsampling_configs s.downsampling_thresholds
        (s.downsampler_index + 1) in
    if is_due next_trigger_id s.next_threshold then advanced else ok s
