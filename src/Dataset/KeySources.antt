-- ===== src/Dataset/KeySources.antt =====
-- The key sources of modyn/trainer_server/internal/dataset/key_sources: local_key_source.py reads the
-- file of a worker from the trigger samples, selector_key_source.py asks the selector. The responses
-- of the selector's stub are a parameter.
pub mod Local
pub mod Workers
use modyn.SampleStorage.{File, parse_file}
use modyn.Prelude.{ℕ, Bool, true, false, Option, none, some, List, [], ◌∷◌, ◌++◌}

-- One `SamplesResponse` of the selector.
pub record SamplesResponse {ℓ} (W : Type ℓ) : Type ℓ where
  pub training_samples_subset : List ℕ
  pub training_samples_weights : List W

module _ {ℓ} {Weight : Type ℓ} where
  -- `zip(*tuples_list)`
  unfoldable pub keys_of : List (ℕ × Weight) → List ℕ
  keys_of [] = []
  keys_of ((k, w) ∷ pairs) = k ∷ keys_of pairs

  unfoldable pub weights_in : List (ℕ × Weight) → List Weight
  weights_in [] = []
  weights_in ((k, w) ∷ pairs) = w ∷ weights_in pairs

  -- `LocalKeySource.get_keys_and_weights`
  unfoldable pub local_keys_and_weights :
      ℕ → ℕ → List (File (ℕ × Weight)) → ℕ → ℕ → List ℕ × Option (List Weight)
  local_keys_and_weights pipeline_id trigger_id files worker_id partition_id =
      let tuples_list = parse_file pipeline_id trigger_id partition_id worker_id files in
      (keys_of tuples_list, some (weights_in tuples_list))

  -- `SelectorKeySource.get_keys_and_weights` on the responses, `uses_weights` being known.
  unfoldable pub selector_keys : List (SamplesResponse Weight) → List ℕ
  selector_keys [] = []
  selector_keys (r ∷ responses) = r.training_samples_subset ++ selector_keys responses

  unfoldable pub selector_weights : List (SamplesResponse Weight) → List Weight
  selector_weights [] = []
  selector_weights (r ∷ responses) = r.training_samples_weights ++ selector_weights responses

  unfoldable pub selector_keys_and_weights :
      Bool → List (SamplesResponse Weight) → List ℕ × Option (List Weight)
  selector_keys_and_weights true responses =
      (selector_keys responses, some (selector_weights responses))
  selector_keys_and_weights false responses = (selector_keys responses, none)
