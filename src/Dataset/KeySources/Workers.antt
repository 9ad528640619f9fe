-- ===== src/Dataset/KeySources/Workers.antt =====
-- The keys and weights of all workers of a local key source.
use modyn.Dataset.KeySources.{keys_of, weights_in, local_keys_and_weights}
use modyn.Dataset.KeySources.Local.{files_samples, files_samples-write_files, fresh-parse_file}
use modyn.DatasetWriter.{Writer, samples_ready}
use modyn.SampleStorage.{File, files_of, save_trigger_samples, parse_file}
use modyn.SampleStorage.Saved.{IsFresh}
use modyn.Selector.Trigger.{data_lengths}
use modyn.Selector.Trigger.Lengths.{data_lengths_lem}
use modyn.Prelude.{
  length, sum, take-all, ℕ, zero, suc, ◌+◌, ◌-◌, ◌≤◌, ◌<◌, max, ◌≡◌, refl, sym, ap, ◌∙◌, Option,
  none, some, List, [], ◌∷◌, ◌++◌, arith,
}

module _ {ℓ} {Weight : Type ℓ} where
  keys_of-append : (xs ys : List (ℕ × Weight)) → keys_of (xs ++ ys) ≡ keys_of xs ++ keys_of ys
  unfolding keys_of
  keys_of-append [] ys = refl
  keys_of-append ((k, w) ∷ xs) ys = ap (λ l. k ∷ l) (keys_of-append xs ys)

  weights_in-append :
      (xs ys : List (ℕ × Weight)) → weights_in (xs ++ ys) ≡ weights_in xs ++ weights_in ys
  unfolding weights_in
  weights_in-append [] ys = refl
  weights_in-append ((k, w) ∷ xs) ys = ap (λ l. w ∷ l) (weights_in-append xs ys)

  option_list : Option (List Weight) → List Weight
  option_list none = []
  option_list (some ws) = ws

  -- What `n` workers, from the worker `i` on, get for a partition.
  unfoldable pub workers_keys : ℕ → ℕ → ℕ → List (File (ℕ × Weight)) → ℕ → ℕ → List ℕ
  workers_keys p t q files i zero = []
  workers_keys p t q files i (suc n) =
      (local_keys_and_weights p t files i q).0 ++ workers_keys p t q files (suc i) n

  unfoldable pub workers_weights : ℕ → ℕ → ℕ → List (File (ℕ × Weight)) → ℕ → ℕ → List Weight
  unfolding option_list
  workers_weights p t q files i zero = []
  workers_weights p t q files i (suc n) =
      option_list (local_keys_and_weights p t files i q).1 ++ workers_weights p t q files (suc i) n

  workers_keys_lem :
      (p t q : ℕ) (files : List (File (ℕ × Weight))) (i n : ℕ)
      → workers_keys p t q files i n ≡ keys_of (files_samples p t q files i n)
  unfolding workers_keys files_samples local_keys_and_weights keys_of
  workers_keys_lem p t q files i zero = refl
  workers_keys_lem p t q files i (suc n) =
      ap (λ l. keys_of (parse_file p t q i files) ++ l) (workers_keys_lem p t q files (suc i) n)
      ∙ sym (keys_of-append (parse_file p t q i files) (files_samples p t q files (suc i) n))

  workers_weights_lem :
      (p t q : ℕ) (files : List (File (ℕ × Weight))) (i n : ℕ)
      → workers_weights p t q files i n ≡ weights_in (files_samples p t q files i n)
  unfolding workers_weights files_samples local_keys_and_weights weights_in option_list
  workers_weights_lem p t q files i zero = refl
  workers_weights_lem p t q files i (suc n) =
      ap (λ l. weights_in (parse_file p t q i files) ++ l)
        (workers_weights_lem p t q files (suc i) n)
      ∙ sym (weights_in-append (parse_file p t q i files) (files_samples p t q files (suc i) n))

  ready_files :
      (s : Writer Weight)
      → 0 < s.number_of_workers
      → IsFresh s.pipeline_id s.trigger_id s.current_file_index s.files
      → files_samples s.pipeline_id s.trigger_id s.current_file_index
          (samples_ready s).files
          0
          s.number_of_workers
        ≡ s.output_samples
  unfolding samples_ready files_of save_trigger_samples
  ready_files s h f =
      let n = length s.output_samples in
      let (total, few) = data_lengths_lem s.number_of_workers n in
      let sizes = data_lengths s.number_of_workers n in
      ap (files_samples s.pipeline_id s.trigger_id s.current_file_index _ 0) (fits few h)
      ∙ files_samples-write_files s.pipeline_id s.trigger_id s.current_file_index sizes 0
          (s.number_of_workers - length sizes) s.output_samples s.files
          (λ j _. fresh-parse_file s.pipeline_id s.trigger_id s.current_file_index s.files f j)
      ∙ take-all (sum sizes) s.output_samples (omega (arith, total))
    where
      fits : {a w : ℕ} → a ≤ max 1 w → 0 < w → w ≡ a + (w - a)
      fits e h = omega (arith, e, h)

  -- When a writer with one worker or more stores what it has gathered as a partition that has no files
  -- yet, the local key source's workers, as many as the writer's, get together exactly the keys that
  -- were gathered, in order, and their weights.
  pub samples_ready-workers_keys :
      (s : Writer Weight)
      → 0 < s.number_of_workers
      → IsFresh s.pipeline_id s.trigger_id s.current_file_index s.files
      → (workers_keys s.pipeline_id s.trigger_id s.current_file_index
            (samples_ready s).files
            0
            s.number_of_workers
          ≡ keys_of s.output_samples)
        × (workers_weights s.pipeline_id s.trigger_id s.current_file_index
              (samples_ready s).files
              0
              s.number_of_workers
            ≡ weights_in s.output_samples)
  samples_ready-workers_keys s h f = (
    workers_keys_lem s.pipeline_id s.trigger_id s.current_file_index (samples_ready s).files 0
          s.number_of_workers
        ∙ ap keys_of (ready_files s h f),
    workers_weights_lem s.pipeline_id s.trigger_id s.current_file_index (samples_ready s).files 0
          s.number_of_workers
        ∙ ap weights_in (ready_files s h f),
  )
