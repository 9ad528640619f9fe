-- ===== src/Presampling.antt =====
-- The presampling strategies of modyn/selector/internal/selector_strategies/presampling_strategies:
-- how many samples of a trigger's data are taken, and which.
pub mod FairShare
