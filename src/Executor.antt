-- ===== src/Executor.antt =====
-- The pipeline executor of modyn/supervisor/internal/pipeline_executor/pipeline_executor.py.
pub mod State
pub mod Training
pub mod NewData
pub mod Replay
pub mod Execute
