-- ===== src/Examples/Modelling.antt =====
-- Concrete runs of the model storage, of the run-length coding and of the downsampling scheduler.
use modyn.ModelStorage.Manager.{
  TrainedModel, Models, Strategies, Policy, wants_difference, find_model, determine_parent_model_id,
  is_child_of, delete_model, handle_new_model, store_model, load_model,
}
use modyn.ModelStorage.Manager.Stored.{IsValid}
use modyn.ModelStorage.Manager.Loaded.{Loads, store-load}
use modyn.ModelStorage.Manager.Deleted.{delete_model_lem}
use modyn.ModelStorage.RunLength.{encode_bytes, decode_bytes}
use modyn.ModelStorage.RunLength.RoundTrip.{decode-encode}
use modyn.Stopwatch.{same_text}
use modyn.Downsampling.{
  DownsamplerConfig, Classes, validate_threshold, construct, instantiate_class, or_long_name,
  with_name, instantiate_downsampler, init as init_scheduler,
}
use modyn.Downsampling.Schedule.{informed, Reaches, schedule_lem}
use modyn.Prelude.{
  ltb, ◌==◌, if◌then◌else◌, length, drop, any, All, value_error, ok, raise, ◌>>=◌, ℕ, ◌<◌, ◌≡◌,
  refl, true, false, not, ◌||◌, none, some, List, [], ◌∷◌, ◌++◌, arith,
}

-- States that are lists; a difference is stored as the new state after the old one.
abbrev strategies : Strategies (List ℕ) (List ℕ)
strategies = record {
  base_model_state = λ pipeline_id. [];
  store_full = λ s. s;
  load_full = λ base file. file;
  store_incremental = λ s parent. parent ++ s;
  load_incremental = λ parent file. drop (length parent) file;
}

abbrev policy : Policy
policy = record { has_incremental = true; full_model_interval = some 3 }

abbrev first_model : TrainedModel (List ℕ)
first_model = record {
  model_id = 1;
  pipeline_id = 0;
  trigger_id = 0;
  parent_model = none;
  file = 4 ∷ 5 ∷ [];
}

abbrev one_model : Models (List ℕ)
one_model = record { rows = first_model ∷ []; next_id = 2 }

one_model-IsValid : IsValid one_model
one_model-IsValid = (omega arith, ((omega arith, omega arith, refl, tt), tt))

store-load_example :
    (model_id : ℕ) × (models' : Models (List ℕ)) × (store_model strategies policy 0 1
        (6 ∷ 7 ∷ [])
        one_model
      ≡ ok (model_id, models'))
    × ((loaded : List ℕ) × (load_model strategies model_id models' ≡ ok (some loaded))
        × Loads strategies one_model 0 (6 ∷ 7 ∷ []) (some 1) loaded)
    × IsValid models'
    × ((old : ℕ) (row : TrainedModel (List ℕ))
        → find_model old one_model.rows ≡ some row
        → load_model strategies old models' ≡ load_model strategies old one_model)
unfolding wants_difference determine_parent_model_id
store-load_example = store-load strategies policy 0 1 (6 ∷ 7 ∷ []) one_model one_model-IsValid

-- The difference is stored with the first model as its parent.
stored_difference :
    handle_new_model strategies policy 0 1 (6 ∷ 7 ∷ []) one_model.rows
    ≡ ok (some 1, 4 ∷ 5 ∷ 6 ∷ 7 ∷ [])
unfolding handle_new_model
stored_difference = refl

decode-encode_example :
    All (λ b. b < 256) (encode_bytes (9 ∷ 9 ∷ 0 ∷ []))
    × (decode_bytes (encode_bytes (9 ∷ 9 ∷ 0 ∷ [])) ≡ ok (9 ∷ 9 ∷ 0 ∷ []))
decode-encode_example =
    decode-encode (9 ∷ 9 ∷ 0 ∷ []) (omega arith, (omega arith, (omega arith, tt)))

-- Two classes, the second one under its long name only; a downsampler is its ratio.
abbrev classes : Classes ℕ ℕ
classes name =
    if same_text name "NoDownsamplingStrategy" || same_text name "LossDownsamplingStrategy"
    then some (λ ratio keys. if ltb 100 ratio then raise value_error else ok ratio)
    else none

abbrev three_configs : List (DownsamplerConfig ℕ)
three_configs =
    record { strategy = some "NoDownsamplingStrategy"; options = 7 }
    ∷ record { strategy = some "Loss"; options = 8 }
    ∷ record { strategy = some "Unknown"; options = 9 }
    ∷ []

short_name :
    instantiate_downsampler classes 10 (record { strategy = some "Loss"; options = 8 }) ≡ ok 8
unfolding instantiate_downsampler with_name or_long_name instantiate_class construct
short_name = refl

schedule_lem_example :
    Reaches classes 10 three_configs
      (2 ∷ 5 ∷ [])
      1
      (init_scheduler classes 10 three_configs (2 ∷ 5 ∷ []) >>= informed classes 10 4)
unfolding validate_threshold
schedule_lem_example = schedule_lem classes 10 three_configs (2 ∷ 5 ∷ []) 4 refl

delete_model_lem_example :
    ((delete_model 1 one_model).0 ≡ not (any (is_child_of 1) one_model.rows))
    × IsValid (delete_model 1 one_model).1
    × (find_model 1 (delete_model 1 one_model).1.rows
        ≡ (if any (is_child_of 1) one_model.rows then some first_model else none))
    × ((other : ℕ)
        → (other == 1) ≡ false
        → find_model other (delete_model 1 one_model).1.rows ≡ find_model other one_model.rows)
delete_model_lem_example = delete_model_lem 1 one_model first_model one_model-IsValid refl
