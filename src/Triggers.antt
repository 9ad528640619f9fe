-- ===== src/Triggers.antt =====
-- The triggers of modyn/supervisor/internal/triggers: `Amount` is amounttrigger.py, `Time` is
-- timetrigger.py with the time strings of modyn/utils/utils.py, and `Interface` is what the executor
-- relies on, with `Instances` for both. A triggering index is an integer, since a time trigger emits -1 where the trigger lies
-- before the first item.
pub mod Amount
pub mod Time
pub mod Interface
pub mod Instances
