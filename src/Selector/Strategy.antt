-- ===== src/Selector/Strategy.antt =====
-- AbstractSelectionStrategy.__init__ and the state of a new-data strategy.
pub mod Valid
use modyn.Prelude.Int.{ℤ, pos, negsuc}
use modyn.Prelude.{
  ltb, leb, ◌==◌, if◌then◌else◌, value_error, Result, ok, raise, ◌>>=◌, ◌>>◌, guard, ℕ, suc, Bool,
  true, false, not, ◌&&◌, ◌||◌, Option, none, some,
}

-- `limit_reset`, with any other text as `unsupported`.
pub data LimitReset : Type 0 where
  last_x sample_uar unsupported : LimitReset

-- The configuration of the strategy, each key if it is given.
pub record StrategyConfig : Type 0 where
  pub limit : Option ℤ
  pub reset_after_trigger : Option Bool
  pub uses_weights : Option Bool
  pub tail_triggers : Option ℤ
  pub limit_reset : Option LimitReset

-- `training_set_size_limit` is 0 here for any limit that is not positive, which means no limit.
pub record Strategy : Type 0 where
  pub pipeline_id : ℕ
  pub maximum_keys_in_memory : ℕ
  pub insertion_threads : ℕ
  pub next_trigger_id : ℕ
  pub training_set_size_limit : ℕ
  pub reset_after_trigger : Bool
  pub uses_weights : Bool
  pub tail_triggers : Option ℕ
  pub limit_reset_strategy : Option LimitReset

abbrev pub has_limit : Strategy → Bool
has_limit s = ltb 0 s.training_set_size_limit

abbrev required : {A : Type 0} → Option A → Result A
required none = raise value_error
required (some a) = ok a

abbrev size_limit : ℤ → ℕ
size_limit (pos n) = n
size_limit (negsuc n) = 0

abbrev or_false : Option Bool → Bool
or_false none = false
or_false (some b) = b

-- The branches on `tail_triggers`: `none` considers every data point.
unfoldable pub init_tail_triggers : Option ℤ → Bool → Result (Option ℕ)
init_tail_triggers none reset = ok (if reset then some 0 else none)
init_tail_triggers (some (negsuc n)) reset = raise value_error
init_tail_triggers (some (pos n)) reset =
    if (reset && ltb 0 n) || (not reset && (n == 0)) then raise value_error else ok (some n)

-- `last_trigger_id + 1`, or 0 without a trigger in the database.
unfoldable pub next_after : Option ℕ → ℕ
next_after none = 0
next_after (some last_trigger_id) = suc last_trigger_id

unfoldable pub init_strategy : StrategyConfig → ℕ → ℕ → ℕ → Option ℕ → Result Strategy
unfolding init_tail_triggers next_after
init_strategy config pipeline_id maximum_keys_in_memory insertion_threads last_trigger_id = do
  limit ← required config.limit
  reset ← required config.reset_after_trigger
  tail ← init_tail_triggers config.tail_triggers reset
  guard (leb 1 maximum_keys_in_memory) value_error
  guard (leb (size_limit limit) maximum_keys_in_memory) value_error
  ok (record {
    pipeline_id = pipeline_id;
    maximum_keys_in_memory = maximum_keys_in_memory;
    insertion_threads = insertion_threads;
    next_trigger_id = next_after last_trigger_id;
    training_set_size_limit = size_limit limit;
    reset_after_trigger = reset;
    uses_weights = or_false config.uses_weights;
    tail_triggers = tail;
    limit_reset_strategy = none;
  })

abbrev is_supported : LimitReset → Bool
is_supported unsupported = false
is_supported _ = true

-- NewDataStrategy.__init__ after the one above.
unfoldable pub init_new_data : StrategyConfig → ℕ → ℕ → ℕ → Option ℕ → Result Strategy
unfolding init_strategy
init_new_data config pipeline_id maximum_keys_in_memory insertion_threads last_trigger_id = do
  s ← init_strategy config pipeline_id maximum_keys_in_memory insertion_threads last_trigger_id
  elim config.limit_reset [
    | none ↦ if has_limit s && not s.reset_after_trigger then raise value_error else ok s
    | some mode ↦
        if is_supported mode
        then ok (record s { limit_reset_strategy = some mode })
        else raise value_error
  ]
