-- ===== src/DatasetWriter.antt =====
-- `LocalDatasetWriter` of modyn/trainer_server/internal/dataset/local_dataset_writer.py: it gathers
-- samples and stores them as partitions of a trigger. The list of the samples up to
-- `current_sample_index` stands for the array of `maximum_keys_in_memory` entries and for that index;
-- the array is stored only when it is full, or cut at the index.
pub mod Ready
pub mod Written
use modyn.SampleStorage.{File, files_of, save_trigger_samples}
use modyn.Selector.Trigger.{data_lengths}
use modyn.Prelude.{
  ltb, ◌==◌, if◌then◌else◌, length, index_error, Result, ok, ◌>>=◌, ◌>>◌, guard, ℕ, suc, some, List,
  [], ◌∷◌, ◌++◌,
}

pub record Writer {ℓ} (Weight : Type ℓ) : Type ℓ where
  pub pipeline_id : ℕ
  pub trigger_id : ℕ
  pub number_of_workers : ℕ
  pub maximum_keys_in_memory : ℕ
  pub current_file_index : ℕ
  pub output_samples : List (ℕ × Weight)
  pub files : List (File (ℕ × Weight))

module _ {ℓ} {Weight : Type ℓ} where
  -- The constructor, on the files that the directory has.
  unfoldable pub new_writer : ℕ → ℕ → ℕ → ℕ → List (File (ℕ × Weight)) → Writer Weight
  new_writer pipeline_id trigger_id number_of_workers maximum_keys_in_memory files = record {
    pipeline_id = pipeline_id;
    trigger_id = trigger_id;
    number_of_workers = number_of_workers;
    maximum_keys_in_memory = maximum_keys_in_memory;
    current_file_index = 0;
    output_samples = [];
    files = files;
  }

  -- `_samples_ready`, with `_prepare_for_new_file`; the split into files is the selector's.
  unfoldable pub samples_ready : Writer Weight → Writer Weight
  samples_ready s = record s {
    current_file_index = suc s.current_file_index;
    output_samples = [];
    files = files_of (
        save_trigger_samples s.pipeline_id s.trigger_id s.current_file_index s.output_samples
          (data_lengths s.number_of_workers (length s.output_samples)) (some s.files));
  }

  unfoldable pub flush_full : Writer Weight → Writer Weight
  flush_full s = if length s.output_samples == s.maximum_keys_in_memory then samples_ready s else s

  -- `self.output_samples_list[self.current_sample_index] = (sample_id, sample_weight)` and the test.
  unfoldable pub inform_sample : ℕ → Weight → Writer Weight → Result (Writer Weight)
  inform_sample sample_id sample_weight s =
      guard (ltb (length s.output_samples) s.maximum_keys_in_memory) index_error
      >> ok (
          flush_full
            (record s { output_samples = s.output_samples ++ (sample_id, sample_weight) ∷ [] }))

  -- `zip` stops at the shorter list.
  unfoldable pub inform_samples : List ℕ → List Weight → Writer Weight → Result (Writer Weight)
  inform_samples [] ws s = ok s
  inform_samples (k ∷ ks) [] s = ok s
  inform_samples (k ∷ ks) (w ∷ ws) s = inform_sample k w s >>= λ s'. inform_samples ks ws s'

  unfoldable pub finalize : Writer Weight → Writer Weight
  finalize s = if ltb 0 (length s.output_samples) then samples_ready s else s

  -- Calls of `inform_samples`, then `finalize`; the trainer makes one call.
  unfoldable pub write_batches :
      List (List ℕ × List Weight) → Writer Weight → Result (Writer Weight)
  write_batches [] s = ok (finalize s)
  write_batches ((ids, ws) ∷ batches) s = inform_samples ids ws s >>= λ s'. write_batches batches s'
