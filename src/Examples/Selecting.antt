-- ===== src/Examples/Selecting.antt =====
-- Concrete runs of the stopwatch and of the selector.
use modyn.Selector.Engine.{SampleRow, Engine}
use modyn.Selector.Backend.{persist_samples_impl, processes, get_pipeline_data}
use modyn.Selector.Backend.Spread.{processes-cover}
use modyn.Selector.Strategy.{Strategy, init_new_data}
use modyn.Selector.Strategy.Valid.{IsValid, init_new_data-IsValid}
use modyn.Selector.Trigger.{Stored, Database, data_lengths, wanted, created, trigger}
use modyn.Selector.Trigger.Lengths.{data_lengths_lem}
use modyn.Selector.Trigger.Selected.{stored_keys, IsWhole, trigger-no_limit}
use modyn.Selector.Trigger.Limits.{trigger-two_partitions}
use modyn.Stopwatch.{lookup, Stopwatch, new_stopwatch, start, stop}
use modyn.Stopwatch.Measure.{start-stop}
use modyn.Prelude.Int.{negsuc}
use modyn.Prelude.{
  length, take, count_by, All, concat, sum, length-take, assertion_error, ok, raise, ℕ, ◌+◌, ◌-◌,
  ◌≤◌, ◌<◌, max, ◌≡◌, refl, ap, Bool, true, false, none, some, List, [], ◌∷◌, ◌++◌, arith,
}

start-stop_example :
    (swt' swt'' : Stopwatch) × (start "train" false false 5 new_stopwatch ≡ ok swt')
    × (stop none 9 swt' ≡ ok (9 - 5, swt''))
    × ((again : ℕ) → start "train" false false again swt'' ≡ raise assertion_error)
unfolding lookup new_stopwatch
start-stop_example = start-stop "train" 5 9 new_stopwatch refl refl

-- A cursor that hands out one row at a time, a shuffle that keeps the order, a sample from the front,
-- and processes that commit one after the other.
abbrev singletons : List ℕ → List (List ℕ)
singletons [] = []
singletons (a ∷ xs) = (a ∷ []) ∷ singletons xs

singletons-concat : (xs : List ℕ) → concat (singletons xs) ≡ xs
singletons-concat [] = refl
singletons-concat (a ∷ xs) = ap (λ l. a ∷ l) (singletons-concat xs)

singletons-size : (n : ℕ) (xs : List ℕ) → 0 < n → All (λ part. length part ≤ n) (singletons xs)
singletons-size n [] h = tt
singletons-size n (a ∷ xs) h = (omega arith, singletons-size n xs h)

abbrev engine : Engine
engine = record {
  Weight = ℕ;
  one = 1;
  partitions = λ n xs. singletons xs;
  partitions_concat = λ n xs. singletons-concat xs;
  partitions_size = singletons-size;
  shuffle = λ i j xs. xs;
  shuffle_count = λ i j xs p. refl;
  shuffle_length = λ i j xs. refl;
  sample = λ i j xs k. take k xs;
  sample_length = λ i j xs k h. omega (arith, length-take k xs);
  commit = concat;
  commit_count = λ parts p. refl;
  clock = λ n. n;
}

processes-cover_example :
    concat (processes 0 4 2 (1 ∷ 2 ∷ 3 ∷ []) (7 ∷ 8 ∷ 9 ∷ []) (0 ∷ 1 ∷ 0 ∷ []) 2)
    ≡ persist_samples_impl 0 4 (1 ∷ 2 ∷ 3 ∷ []) (7 ∷ 8 ∷ 9 ∷ []) (0 ∷ 1 ∷ 0 ∷ [])
processes-cover_example =
    processes-cover 0 4 2 (1 ∷ 2 ∷ 3 ∷ []) (7 ∷ 8 ∷ 9 ∷ []) (0 ∷ 1 ∷ 0 ∷ []) refl refl (omega arith)

data_lengths_lem_example : (sum (data_lengths 4 10) ≡ 10) × (length (data_lengths 4 10) ≤ max 1 4)
data_lengths_lem_example = data_lengths_lem 4 10

abbrev resetting : Strategy
resetting = record {
  pipeline_id = 0;
  maximum_keys_in_memory = 2;
  insertion_threads = 2;
  next_trigger_id = 1;
  training_set_size_limit = 0;
  reset_after_trigger = true;
  uses_weights = false;
  tail_triggers = some 0;
  limit_reset_strategy = none;
}

init_new_data-IsValid_example : IsValid resetting
unfolding init_new_data
init_new_data-IsValid_example =
    init_new_data-IsValid
      (record {
        limit = some (negsuc 0);
        reset_after_trigger = some true;
        uses_weights = none;
        tail_triggers = none;
        limit_reset = none;
      })
      0 2 2 (some 0) resetting refl

abbrev sample_row : ℕ → ℕ → SampleRow
sample_row key seen = record {
  pipeline_id = 0;
  sample_key = key;
  timestamp = key;
  label = 0;
  seen_in_trigger_id = seen;
}

abbrev three_samples : Database ℕ
three_samples = record {
  samples = sample_row 7 0 ∷ sample_row 8 1 ∷ sample_row 9 1 ∷ [];
  triggers = [];
  partitions = [];
  stored = [];
}

resetting-IsValid : IsValid resetting
resetting-IsValid = ground arith

trigger-no_limit_example :
    (stored : List (Stored ℕ)) × (db' : Database ℕ) × (trigger engine resetting three_samples
      ≡ (ok ((1, 2, length stored), record resetting { next_trigger_id = 2 }), db'))
    × (db'.stored ≡ [] ++ stored)
    × (db'.samples ≡ three_samples.samples)
    × All (IsWhole engine resetting) stored
    × ((p : ℕ → Bool) → count_by p (stored_keys engine resetting stored) ≡ count_by p (8 ∷ 9 ∷ []))
trigger-no_limit_example = trigger-no_limit engine resetting three_samples resetting-IsValid refl

trigger-two_partitions_example :
    (db' : Database ℕ) × (trigger engine
        (record resetting { training_set_size_limit = 1 })
        three_samples
      ≡ (raise assertion_error, db'))
    × (length db'.stored ≡ 0 + 1)
    × (db'.triggers ≡ created engine (record resetting { training_set_size_limit = 1 }) [])
    × (db'.partitions ≡ [])
unfolding get_pipeline_data wanted
trigger-two_partitions_example =
    trigger-two_partitions engine (record resetting { training_set_size_limit = 1 }) three_samples
      (8 ∷ []) (9 ∷ []) [] refl refl refl refl
