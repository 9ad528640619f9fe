-- ===== src/Dataset.antt =====
-- `OnlineDataset` of modyn/trainer_server/internal/dataset/online_dataset.py: the samples of a
-- trigger's partitions, fetched ahead by threads while the training reads. Fetching: what one thread
-- fetches and what is read of it. Stream: a thread and its reader, step by step. Prefetch: which
-- threads are started and when.
pub mod KeySources
pub mod Fetching
pub mod Stream
pub mod Prefetch
