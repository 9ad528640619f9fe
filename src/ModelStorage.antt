-- ===== src/ModelStorage.antt =====
-- The model storage: `Manager` is model_storage_manager.py with the models that it keeps, and
-- `RunLength` the coding of bytes in weights_difference.py (both below modyn/model_storage/internal).
pub mod Manager
pub mod RunLength
