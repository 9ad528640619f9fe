-- ===== src/Selector/Strategy/Valid.antt =====
-- What the constructors of the strategies guarantee.
use modyn.Selector.Strategy.{unsupported, StrategyConfig, Strategy, has_limit, init_new_data}
use modyn.Prelude.{ok, ℕ, ◌≤◌, ◌<◌, ◌≡◌, ◌≢◌, true, false, Option, none, some, arith}

-- The settings agree with each other.
abbrev pub IsValid : Strategy → Type 0
IsValid s =
    (0 < s.maximum_keys_in_memory)
    × (s.training_set_size_limit ≤ s.maximum_keys_in_memory)
    × (s.reset_after_trigger ≡ true → s.tail_triggers ≡ some 0)
    × (s.reset_after_trigger ≡ false → s.tail_triggers ≢ some 0)
    × (has_limit s ≡ true → s.reset_after_trigger ≡ false → s.limit_reset_strategy ≢ none)
    × (s.limit_reset_strategy ≢ some unsupported)

-- A strategy that NewDataStrategy.__init__ makes holds at least one key in memory and has a limit
-- within that; it resets after a trigger exactly when its tail is 0 triggers; with a limit and
-- without resets it has a mode for the limit, and the mode is a supported one.
pub init_new_data-IsValid :
    (config : StrategyConfig) (pipeline_id maximum_keys insertion_threads : ℕ)
    (last_trigger_id : Option ℕ) (s : Strategy)
    → init_new_data config pipeline_id maximum_keys insertion_threads last_trigger_id ≡ ok s
    → IsValid s
unfolding init_new_data
init_new_data-IsValid config pipeline_id maximum_keys insertion_threads last_trigger_id s h =
    ground arith
