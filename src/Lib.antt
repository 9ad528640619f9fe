-- ===== src/Lib.antt =====
-- A verification of the core of Modyn, a platform that trains models on growing data sets.
--
-- The supervisor runs a pipeline: its executor reads new data from the storage, asks a trigger
-- where to train, hands the data to the selector, and on each trigger runs a training whose result
-- goes to the model storage. The selector keeps the samples that it was informed about and computes
-- the training set of a trigger. The model storage keeps models in full or as differences to a
-- parent.
--
-- The files and the code that they model:
--
-- - Prelude, with Tests, Lists, Int, Range and Results: Booleans, lists over native numbers, Python
--   integers and ranges, and exceptions as values. Results has `ok` and `raise`; messages of
--   exceptions are left out.
-- - Partition: `get_partition_for_worker` of modyn/utils/utils.py. Partition/Cover is about the
--   parts of all workers taken together.
-- - Data: the triples (key, timestamp, label).
-- - Triggers: Amount is modyn/supervisor/internal/triggers/amounttrigger.py and Time is
--   timetrigger.py beside it, with the time strings of modyn/utils/utils.py. Interface is what the
--   executor relies on, as a record of an operation and its laws, and Instances fills it for both
--   triggers.
-- - Executor: modyn/supervisor/internal/pipeline_executor/pipeline_executor.py. State has the
--   fields of the executor, the calls that it makes, and a monad of state and exceptions; Training
--   has `_run_training` and `build_evaluation_matrix`; NewData has `_handle_new_data`,
--   `_handle_new_data_batch` and `_handle_triggers_within_batch`; Replay has `replay_data` and
--   `wait_for_new_data`; Execute has `execute`. NewData/Informs is a specification of actions by
--   what they hand to the selector, with a rule for each way to build an action; NewData/Conserved
--   and NewData/Stream apply it.
-- - Stopwatch: modyn/common/benchmark/stopwatch.py.
-- - Selector: Backend is
--   modyn/selector/internal/storage_backend/database/database_storage_backend.py; Strategy and
--   Trigger are abstract_selection_strategy.py and new_data_strategy.py of
--   modyn/selector/internal/selector_strategies. Engine is what they use of libraries.
-- - SelectorService: modyn/selector/selector.py. Cached is about the answers from the cache, Kept
--   about the calls that fill it.
-- - Downsampling: downsampling_scheduler.py and utils.py of
--   modyn/selector/internal/selector_strategies/downsampling_strategies; the classes of the
--   strategies with their constructors are a parameter. Thresholds has the lemmas on increasing
--   numbers.
-- - ModelStorage: Manager is modyn/model_storage/internal/model_storage_manager.py, and RunLength
--   is the coding of bytes in weights_difference.py below it.
-- - SampleStorage: modyn/common/trigger_sample/trigger_sample_storage.py and the routines of
--   modyn/common/trigger_sample/src/trigger_sample_storage.cpp that it calls. Slices, Filters and
--   Sorted have lemmas on lists and on the order of the files; Worker is about reading, Saved about
--   saving.
-- - DatasetWriter: modyn/trainer_server/internal/dataset/local_dataset_writer.py. Ready has its
--   invariant, Written the whole of its calls.
-- - Dataset/KeySources: local_key_source.py and selector_key_source.py of
--   modyn/trainer_server/internal/dataset/key_sources. Local and Workers join the local source to
--   the writer.
-- - Dataset: modyn/trainer_server/internal/dataset/online_dataset.py. Fetching has the container of
--   a partition and the reading of it. Stream is a partition that a thread fetches while the
--   generator reads it, as a step relation; its children are the invariant (Invariant, kept by the
--   steps of Thread and of Generator), Delivery, Serving and Completion, and Unprefetched, which
--   sets fetching without a thread beside it. Prefetch is the scheduling of the threads in an
--   epoch, as a second step relation; Counted and Calls count the threads that are started,
--   Schedule and Kept have its invariant, Started what it says of the partition that is read.
-- - Presampling/FairShare: `get_fair_share` of
--   modyn/selector/internal/selector_strategies/presampling_strategies/abstract_balanced_strategy.py.
--   Picked has the requests that it takes out and keeps, Maximal is about requests that differ;
--   Bounds and Largest are about its result.
-- - Supervisor: modyn/supervisor/internal/supervisor.py, with what it asks in modyn/utils/utils.py
--   and modyn/supervisor/internal/grpc_handler.py before a start; the validation is in the parent,
--   the start of a pipeline in Start and its status in Status, which uses
--   modyn/supervisor/internal/utils/pipeline_info.py. Accepted and Validated describe the
--   configurations, Outcome and Started the answers to a start.
-- - TrainerServer: modyn/trainer_server/internal/grpc/trainer_server_grpc_servicer.py, with what
--   modyn/trainer_server/internal/trainer/pytorch_trainer.py does with its queues. Queues has what
--   the server asks a process, Server the table with `start_training` and `store_final_model`,
--   Answers the status and the newest model; Tables, Valid, Stored, Raised and Calls are about
--   them.
-- - GrpcHandler: `wait_for_training_completion` of modyn/supervisor/internal/grpc_handler.py. Life
--   is a process without its queues, Reading is about what the server reads of it, Checked about
--   its answers, Rounds and Waiting about the loop.
-- - Examples: the theorems at concrete inputs.
--
-- Interleavings. What the online dataset does under a lock is one step, and each yield is one. The
-- two relations are separate: in Stream the callback at the end of a thread is an empty step, and
-- in Prefetch the reading of a partition is one. The answers of the storage to one request are a
-- list, the weights of the keys an association list.
--
-- Files. A directory of trigger samples is a list of files, each known by the numbers in its name;
-- a file that is written takes the place of one of the same name. The files of a partition are read
-- in the order of their names as strings, which is the order of their indices for at most ten
-- files.
--
-- State and calls. The executor is a function of its state, which holds the history of its calls.
-- The other components are a parameter, a Cluster: each answer is a function of all calls so far,
-- so that nothing is assumed of it; calls that fail are left out. The data that the selector was
-- informed about is read off the history. The rows of the metadata database are lists. SQLAlchemy,
-- the random module, processes and floats are the record Engine, with the laws that the
-- documentation of these libraries gives; the strategy behind a selector is the record Service, and
-- the strategies of a model storage policy are the record Strategies, both without laws: the
-- selector and the storage manager take any.
--
-- A process and its server. What the process of a training does while the handler sleeps and while
-- the server waits for a reply is given as lists of actions, so that the theorems are about every
-- interleaving of them. The calls of the server do not overlap.
--
-- Bounds. The recursion of `get_fair_share` is on fuel, of which one per request is enough: each
-- call has fewer requests. The loop of a TimeTrigger runs on fuel, as many rounds as there are
-- seconds up to the last item, and each round goes on by a second or more. `wait_for_new_data` runs
-- until it is interrupted; the number of rounds before the interrupt is an argument, and an
-- interrupt within a round is left out. The reconstruction of a model recurses 1000 deep at most,
-- as Python does by default; a difference to a full model takes two steps. Keys, timestamps and
-- labels are numbers without an upper bound. `int(a / b)` of the source goes through a float, which
-- is the exact quotient for numbers below 2 ** 53.
--
-- Left out: the pipeline log and the times in it, the contents and the writing of evaluation
-- results, gRPC, the C++ storage, the training loop, the transformations of samples, the networks,
-- and of the selector the local backend, the selector manager and the strategies other than the
-- new-data strategy, with the fair share of the balanced ones alone. Of the trainer server the
-- fields of a training that are only passed on, the checksum and the messages are left out, and of
-- the handler the messages on the pipeline's stages.
pub mod Prelude
pub mod Data
pub mod Dataset
pub mod DatasetWriter
pub mod Downsampling
pub mod Executor
pub mod GrpcHandler
pub mod ModelStorage
pub mod Partition
pub mod Presampling
pub mod SampleStorage
pub mod Selector
pub mod SelectorService
pub mod Stopwatch
pub mod Supervisor
pub mod TrainerServer
pub mod Triggers
pub mod Examples
