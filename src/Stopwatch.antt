-- ===== src/Stopwatch.antt =====
-- Stopwatch of modyn/common/benchmark/stopwatch.py. The time is an argument of `start` and `stop`.
pub mod Measure
use Prim.Native.String.{String, compare}
use Prim.Native.Nat.{Ordering}
use modyn.Prelude.{
  if◌then◌else◌, assertion_error, Result, ok, raise, ℕ, ◌+◌, ◌-◌, Bool, true, false, not, ◌&&◌,
  ◌||◌, Option, none, some, List, [], ◌∷◌,
}

abbrev pub same_text : String → String → Bool
same_text s t = elim (compare s t) [ Ordering.eq ↦ true | _ ↦ false ]

-- A dictionary from names to numbers.
abbrev pub Measurements : Type 0
Measurements = List (String × ℕ)

unfoldable pub lookup : String → Measurements → Option ℕ
lookup name [] = none
lookup name ((key, value) ∷ entries) =
    let later = lookup name entries in if same_text key name then some value else later

unfoldable pub insert : String → ℕ → Measurements → Measurements
insert name value [] = (name, value) ∷ []
insert name value ((key, old) ∷ entries) =
    let later = (key, old) ∷ insert name value entries in
    if same_text key name then (name, value) ∷ entries else later

unfoldable pub remove : String → Measurements → Measurements
remove name [] = []
remove name ((key, value) ∷ entries) =
    let later = (key, value) ∷ remove name entries in if same_text key name then entries else later

unfoldable pub has : String → Measurements → Bool
has name entries = elim (lookup name entries) [ none ↦ false | some value ↦ true ]

pub record Stopwatch : Type 0 where
  pub measurements : Measurements
  pub running_measurements : Measurements
  pub last_started_measurement : Option String

unfoldable pub new_stopwatch : Stopwatch
new_stopwatch = record {
  measurements = [];
  running_measurements = [];
  last_started_measurement = none;
}

-- `start(name, resume, overwrite)`, with an AssertionError for each of its three tests.
unfoldable pub start : String → Bool → Bool → ℕ → Stopwatch → Result Stopwatch
start name resume overwrite now swt =
    if resume && overwrite
    then raise assertion_error
    else if has name swt.measurements && not (resume || overwrite)
    then raise assertion_error
    else if has name swt.running_measurements
    then raise assertion_error
    else ok (record {
      measurements = if overwrite then insert name 0 swt.measurements else swt.measurements;
      running_measurements = insert name now swt.running_measurements;
      last_started_measurement = some name;
    })

-- `self.measurements.get(name, 0)`
abbrev pub get_or_zero : Option ℕ → ℕ
get_or_zero none = 0
get_or_zero (some n) = n

-- `stop` of a name that is known, and of the last started one. The clock does not go back while a
-- measurement runs; the difference is cut off at 0.
unfoldable pub stop_started : String → ℕ → Stopwatch → Option ℕ → Result (ℕ × Stopwatch)
stop_started name now swt none = raise assertion_error
stop_started name now swt (some started) =
    let total = get_or_zero (lookup name swt.measurements) + now - started in
    ok (
      total,
      record {
        measurements = insert name total swt.measurements;
        running_measurements = remove name swt.running_measurements;
        last_started_measurement = elim swt.last_started_measurement [
          | none ↦ none
          | some last ↦ if same_text name last then none else some last
        ];
      },
    )

unfoldable pub stop_named : String → ℕ → Stopwatch → Result (ℕ × Stopwatch)
unfolding stop_started
stop_named name now swt = stop_started name now swt (lookup name swt.running_measurements)

unfoldable pub stop : Option String → ℕ → Stopwatch → Result (ℕ × Stopwatch)
unfolding stop_named
stop (some name) now swt = stop_named name now swt
stop none now swt = elim swt.last_started_measurement [
  | none ↦ raise assertion_error
  | some name ↦ stop_named name now swt
]
