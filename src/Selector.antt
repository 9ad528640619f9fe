-- ===== src/Selector.antt =====
-- The selector with a new-data strategy on the database backend
-- (modyn/selector/internal/selector_strategies and modyn/selector/internal/storage_backend/database).
pub mod Engine
pub mod Backend
pub mod Strategy
pub mod Trigger
