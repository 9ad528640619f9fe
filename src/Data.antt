-- ===== src/Data.antt =====
-- The data points that the supervisor hands on: the tuples (key, timestamp, label) of
-- modyn/supervisor/internal/grpc_handler.py and of the triggers.
use modyn.Prelude.{ℕ}

pub record DataPoint : Type 0 where
  pub key : ℕ
  pub timestamp : ℕ
  pub label : ℕ
