-- ===== src/Examples/Storing.antt =====
-- Concrete runs of the storage of trigger samples and of the dataset writer.
use modyn.SampleStorage.{
  File, digits_on, digits, name_leb, is_of_trigger, is_of_partition, is_same_name, put_file,
  write_files, save_trigger_samples, insert_file, sort_files, get_matching_files, all_samples,
  get_all_samples, get_trigger_samples,
}
use modyn.SampleStorage.Worker.{workers_samples, workers_samples-all}
use modyn.SampleStorage.Saved.{IsFresh, save-get_trigger_samples}
use modyn.DatasetWriter.{Writer, new_writer, samples_ready, write_batches}
use modyn.DatasetWriter.Ready.{partitions_samples, all_pairs}
use modyn.DatasetWriter.Written.{write_batches-all_pairs}
use modyn.Dataset.KeySources.{keys_of, weights_in}
use modyn.Dataset.KeySources.Workers.{workers_keys, workers_weights, samples_ready-workers_keys}
use modyn.Prelude.{length, ok, ℕ, ◌≤◌, ◌<◌, ◌≡◌, refl, ◌≢◌, some, List, [], ◌∷◌, arith}
use modyn.Prelude.Int.{negsuc}

abbrev file : ℕ → List ℕ → File ℕ
file i xs = record { pipeline_id = 1; trigger_id = 2; partition_id = 0; index = i; samples = xs }

abbrev two_files : List (File ℕ)
two_files = file 0 (10 ∷ 11 ∷ []) ∷ file 1 (12 ∷ []) ∷ []

three_samples : 0 < length (get_all_samples 1 2 0 two_files)
unfolding get_all_samples get_matching_files is_of_partition is_of_trigger sort_files insert_file
    digits digits_on name_leb all_samples
three_samples = omega arith

workers_samples-all_example :
    workers_samples 1 2 0 two_files 2 (length (get_all_samples 1 2 0 two_files)) 2
    ≡ get_trigger_samples 1 2 0 (negsuc 0) (negsuc 0) (negsuc 0) (some two_files)
workers_samples-all_example = workers_samples-all 1 2 0 two_files 2 (omega arith) three_samples

no_files_yet : IsFresh 1 2 1 two_files
unfolding IsFresh is_of_partition is_of_trigger
no_files_yet = refl

save-get_trigger_samples_example :
    (get_trigger_samples 1 2 1
        (negsuc 0)
        (negsuc 0)
        (negsuc 0)
        (save_trigger_samples 1 2 1 (7 ∷ 8 ∷ 9 ∷ []) (2 ∷ 1 ∷ []) (some two_files))
      ≡ ok (7 ∷ 8 ∷ 9 ∷ []))
    × ((q' : ℕ)
        → q' ≢ 1
        → get_trigger_samples 1 2 q'
            (negsuc 0)
            (negsuc 0)
            (negsuc 0)
            (save_trigger_samples 1 2 1 (7 ∷ 8 ∷ 9 ∷ []) (2 ∷ 1 ∷ []) (some two_files))
          ≡ get_trigger_samples 1 2 q' (negsuc 0) (negsuc 0) (negsuc 0) (some two_files))
save-get_trigger_samples_example =
    save-get_trigger_samples 1 2 1 (7 ∷ 8 ∷ 9 ∷ []) (2 ∷ 1 ∷ []) two_files (omega arith) refl
      no_files_yet

-- With eleven files the eleventh is read third, after the names with the indices 0 and 1.
eleven_files :
    get_all_samples {Sample = ℕ} 1 2 0 (
      write_files 1 2 0 0
        (0 ∷ 1 ∷ 2 ∷ 3 ∷ 4 ∷ 5 ∷ 6 ∷ 7 ∷ 8 ∷ 9 ∷ 10 ∷ [])
        (1 ∷ 1 ∷ 1 ∷ 1 ∷ 1 ∷ 1 ∷ 1 ∷ 1 ∷ 1 ∷ 1 ∷ 1 ∷ [])
        [])
    ≡ 0 ∷ 1 ∷ 10 ∷ 2 ∷ 3 ∷ 4 ∷ 5 ∷ 6 ∷ 7 ∷ 8 ∷ 9 ∷ []
unfolding get_all_samples get_matching_files is_of_partition is_of_trigger sort_files insert_file
    digits digits_on name_leb all_samples write_files put_file is_same_name
eleven_files = refl

abbrev batches : List (List ℕ × List ℕ)
batches = (1 ∷ 2 ∷ [], 10 ∷ 20 ∷ []) ∷ (3 ∷ [], 30 ∷ []) ∷ []

no_files : (q : ℕ) → IsFresh {Sample = ℕ × ℕ} 1 2 q []
unfolding IsFresh
no_files q = refl

write_batches-all_pairs_example :
    (s : Writer ℕ) × (write_batches batches (new_writer 1 2 2 2 []) ≡ ok s)
    × (partitions_samples s.pipeline_id s.trigger_id s.files s.current_file_index
        ≡ all_pairs batches)
    × ((q : ℕ)
        → length (get_all_samples s.pipeline_id s.trigger_id q s.files) ≤ s.maximum_keys_in_memory)
write_batches-all_pairs_example =
    write_batches-all_pairs 1 2 2 2 [] batches (omega arith) (omega arith) no_files

abbrev gathered : Writer ℕ
gathered = record {
  pipeline_id = 1;
  trigger_id = 2;
  number_of_workers = 2;
  maximum_keys_in_memory = 4;
  current_file_index = 0;
  output_samples = (5, 50) ∷ (6, 60) ∷ (7, 70) ∷ [];
  files = [];
}

samples_ready-workers_keys_example :
    (workers_keys 1 2 0 (samples_ready gathered).files 0 2 ≡ 5 ∷ 6 ∷ 7 ∷ [])
    × (workers_weights 1 2 0 (samples_ready gathered).files 0 2 ≡ 50 ∷ 60 ∷ 70 ∷ [])
unfolding keys_of weights_in
samples_ready-workers_keys_example = samples_ready-workers_keys gathered (omega arith) (no_files 0)
