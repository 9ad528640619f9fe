-- ===== src/SampleStorage.antt =====
-- `TriggerSampleStorage` of modyn/common/trigger_sample/trigger_sample_storage.py and, below it,
-- modyn/common/trigger_sample/src/trigger_sample_storage.cpp: the samples of a trigger's
-- partitions in the files of a directory. A file is known by the four numbers of its name
-- `{pipeline}_{trigger}_{partition}_{index}.npy`; the header of the file is not modelled. The test
-- that a file does not exist yet looks for the name without `.npy`, which no such file has.
pub mod Slices
pub mod Worker
pub mod Filters
pub mod Sorted
pub mod Saved
use modyn.Partition.{start_index, get_partition_for_worker}
use modyn.Prelude.{
  ltb, leb, ◌==◌, if◌then◌else◌, length, take, drop, slice, filter_by, mem, assertion_error,
  file_not_found, Result, ok, raise, ◌>>=◌, ◌>>◌, guard, ℕ, zero, suc, ◌+◌, ◌-◌, ◌/◌, ◌%◌, Bool,
  true, false, not, ◌&&◌, ◌||◌, Option, none, some, List, [], ◌∷◌, ◌++◌,
}
use modyn.Prelude.Int.{ℤ, pos, negsuc, is_negative}

pub record File {ℓ} (Sample : Type ℓ) : Type ℓ where
  pub pipeline_id : ℕ
  pub trigger_id : ℕ
  pub partition_id : ℕ
  pub index : ℕ
  pub samples : List Sample

-- The decimal digits of a file's index, with fuel for each of them.
unfoldable pub digits_on : ℕ → ℕ → List ℕ
digits_on zero n = n % 10 ∷ []
digits_on (suc fuel) n =
    let rest = digits_on fuel (n / 10) in if ltb n 10 then n ∷ [] else rest ++ n % 10 ∷ []

unfoldable pub digits : ℕ → List ℕ
digits n = digits_on n n

-- `<=` on names that differ in the index: a dot, which follows the index, is before every digit.
unfoldable pub name_leb : List ℕ → List ℕ → Bool
name_leb [] ys = true
name_leb (x ∷ xs) [] = false
name_leb (x ∷ xs) (y ∷ ys) =
    let rest = name_leb xs ys in if ltb x y then true else if x == y then rest else false

module _ {ℓ} {Sample : Type ℓ} where
  -- `file.startswith(f"{pipeline_id}_{trigger_id}_")`
  unfoldable pub is_of_trigger : ℕ → ℕ → File Sample → Bool
  is_of_trigger pipeline_id trigger_id f =
      (f.pipeline_id == pipeline_id) && (f.trigger_id == trigger_id)

  unfoldable pub is_of_partition : ℕ → ℕ → ℕ → File Sample → Bool
  is_of_partition pipeline_id trigger_id partition_id f =
      is_of_trigger pipeline_id trigger_id f && (f.partition_id == partition_id)

  unfoldable pub is_same_name : File Sample → File Sample → Bool
  is_same_name f g =
      is_of_partition f.pipeline_id f.trigger_id f.partition_id g && (g.index == f.index)

  -- A file that is written takes the place of one of the same name.
  unfoldable pub put_file : File Sample → List (File Sample) → List (File Sample)
  put_file f files = f ∷ filter_by (λ g. not (is_same_name f g)) files

  -- `write_files_impl`: consecutive parts of the samples.
  unfoldable pub write_files :
      ℕ → ℕ → ℕ → ℕ → List Sample → List ℕ → List (File Sample) → List (File Sample)
  write_files pipeline_id trigger_id partition_id index samples [] files = files
  write_files pipeline_id trigger_id partition_id index samples (n ∷ data_lengths) files =
      write_files pipeline_id trigger_id partition_id (suc index) (drop n samples) data_lengths (
        put_file
          (record {
            pipeline_id = pipeline_id;
            trigger_id = trigger_id;
            partition_id = partition_id;
            index = index;
            samples = take n samples;
          })
          files)

  -- The directory, which may not be there; saving makes it.
  unfoldable pub files_of : Option (List (File Sample)) → List (File Sample)
  files_of none = []
  files_of (some files) = files

  unfoldable pub save_trigger_samples :
      ℕ → ℕ → ℕ → List Sample → List ℕ → Option (List (File Sample)) → Option (List (File Sample))
  save_trigger_samples pipeline_id trigger_id partition_id trigger_samples data_lengths directory =
      some (
        write_files pipeline_id trigger_id partition_id 0 trigger_samples data_lengths
          (files_of directory))

  unfoldable pub insert_file : File Sample → List (File Sample) → List (File Sample)
  insert_file f [] = f ∷ []
  insert_file f (g ∷ gs) =
      let rest = insert_file f gs in
      if name_leb (digits f.index) (digits g.index) then f ∷ g ∷ gs else g ∷ rest

  unfoldable pub sort_files : List (File Sample) → List (File Sample)
  sort_files [] = []
  sort_files (f ∷ fs) = insert_file f (sort_files fs)

  unfoldable pub get_matching_files : ℕ → ℕ → ℕ → List (File Sample) → List (File Sample)
  get_matching_files pipeline_id trigger_id partition_id files =
      sort_files (filter_by (is_of_partition pipeline_id trigger_id partition_id) files)

  unfoldable pub all_samples : List (File Sample) → List Sample
  all_samples [] = []
  all_samples (f ∷ fs) = f.samples ++ all_samples fs

  -- The body of the loop of `get_worker_samples_impl` for the samples of one file, with what the rest
  -- of the loop reads.
  unfoldable pub worker_step : ℕ → ℕ → ℕ → List Sample → List Sample → List Sample
  worker_step start_index worker_subset_size current_index samples rest =
      let num_samples = length samples in
      let start = (if leb current_index start_index then start_index - current_index else 0) in
      if leb (start_index + worker_subset_size) current_index
      then []
      else if leb (current_index + num_samples) start_index
      then rest
      else if ltb (current_index + num_samples) (start_index + worker_subset_size)
      then slice samples start num_samples ++ rest
      else slice samples start (start_index + worker_subset_size - current_index)

  unfoldable pub worker_loop : ℕ → ℕ → ℕ → List (File Sample) → List Sample
  worker_loop start_index worker_subset_size current_index [] = []
  worker_loop start_index worker_subset_size current_index (f ∷ fs) =
      worker_step start_index worker_subset_size current_index f.samples
        (worker_loop start_index worker_subset_size (current_index + length f.samples) fs)

  unfoldable pub get_all_samples : ℕ → ℕ → ℕ → List (File Sample) → List Sample
  get_all_samples pipeline_id trigger_id partition_id files =
      all_samples (get_matching_files pipeline_id trigger_id partition_id files)

  unfoldable pub get_worker_samples :
      ℕ → ℕ → ℕ → ℤ → ℕ → ℕ → List (File Sample) → Result (List Sample)
  get_worker_samples pipeline_id trigger_id partition_id worker_id total_workers num_samples files =
      get_partition_for_worker worker_id total_workers num_samples >>= λ part.
      ok
        (worker_loop part.0 part.1 0 (get_matching_files pipeline_id trigger_id partition_id files))

  -- The two ways to ask, by the signs of the worker's numbers.
  unfoldable pub get_samples_in : ℕ → ℕ → ℕ → ℤ → ℤ → ℤ → List (File Sample) → Result (List Sample)
  get_samples_in pipeline_id trigger_id partition_id worker_id (pos total) (pos num_samples) files =
      guard (not (is_negative worker_id) || ltb total 2) assertion_error
      >> (if is_negative worker_id && ltb total 2
          then ok (get_all_samples pipeline_id trigger_id partition_id files)
          else guard (ltb 0 num_samples) assertion_error
            >> get_worker_samples pipeline_id trigger_id partition_id worker_id total num_samples
                files)
  get_samples_in pipeline_id trigger_id partition_id worker_id (pos total) (negsuc _) files =
      guard (not (is_negative worker_id) || ltb total 2) assertion_error
      >> (if is_negative worker_id && ltb total 2
          then ok (get_all_samples pipeline_id trigger_id partition_id files)
          else raise assertion_error)
  get_samples_in pipeline_id trigger_id partition_id worker_id (negsuc _) num_samples files =
      guard (is_negative worker_id) assertion_error
      >> ok (get_all_samples pipeline_id trigger_id partition_id files)

  unfoldable pub get_trigger_samples :
      ℕ → ℕ → ℕ → ℤ → ℤ → ℤ → Option (List (File Sample)) → Result (List Sample)
  get_trigger_samples pipeline_id trigger_id partition_id worker_id total num_samples none =
      raise file_not_found
  get_trigger_samples pipeline_id trigger_id partition_id worker_id total num_samples (some files) =
      get_samples_in pipeline_id trigger_id partition_id worker_id total num_samples files

  -- `file.split("_")[2]` of the trigger's files, as a set.
  unfoldable pub partitions_in : List (File Sample) → List ℕ
  partitions_in [] = []
  partitions_in (f ∷ fs) =
      let rest = partitions_in fs in if mem f.partition_id rest then rest else f.partition_id ∷ rest

  unfoldable pub get_files_for_trigger : ℕ → ℕ → List (File Sample) → List (File Sample)
  get_files_for_trigger pipeline_id trigger_id files =
      filter_by (is_of_trigger pipeline_id trigger_id) files

  -- `os.listdir` raises where the directory is not there.
  unfoldable pub get_trigger_num_data_partitions : ℕ → ℕ → Option (List (File Sample)) → Result ℕ
  get_trigger_num_data_partitions pipeline_id trigger_id none = raise file_not_found
  get_trigger_num_data_partitions pipeline_id trigger_id (some files) =
      ok (length (partitions_in (get_files_for_trigger pipeline_id trigger_id files)))

  unfoldable pub clean_trigger_data :
      ℕ → ℕ → Option (List (File Sample)) → Option (List (File Sample))
  clean_trigger_data pipeline_id trigger_id none = none
  clean_trigger_data pipeline_id trigger_id (some files) =
      some (filter_by (λ f. not (is_of_trigger pipeline_id trigger_id f)) files)

  -- `parse_file(get_file_path(...))`: an empty array where the file is not there.
  unfoldable pub parse_file : ℕ → ℕ → ℕ → ℕ → List (File Sample) → List Sample
  parse_file pipeline_id trigger_id partition_id worker_id [] = []
  parse_file pipeline_id trigger_id partition_id worker_id (f ∷ fs) =
      let rest = parse_file pipeline_id trigger_id partition_id worker_id fs in
      if is_of_partition pipeline_id trigger_id partition_id f && (f.index == worker_id)
      then f.samples
      else rest
