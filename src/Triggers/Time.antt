-- ===== src/Triggers/Time.antt =====
-- TimeTrigger (modyn/supervisor/internal/triggers/timetrigger.py), and the time strings of
-- modyn/utils/utils.py over the code points of an ASCII text.
pub mod Boundaries
use modyn.Prelude.{
  leb, ◌==◌, if◌then◌else◌, all, value_error, key_error, index_error, stop_iteration, Result, ok,
  raise, ◌>>=◌, ◌>>◌, guard, ℕ, zero, suc, ◌+◌, ◌-◌, ◌*◌, Bool, false, ◌&&◌, Option, none, some,
  List, [], ◌∷◌,
}
use modyn.Prelude.Int.{ℤ, pos, negsuc}
use modyn.Data.{DataPoint}

-- SECONDS_PER_UNIT
unfoldable pub seconds_per_unit : ℕ → Option ℕ
seconds_per_unit unit =
    if unit == b's'
    then some 1
    else if unit == b'm'
    then some 60
    else if unit == b'h'
    then some 3600
    else if unit == b'd'
    then some 86400
    else if unit == b'w'
    then some 604800
    else none

unfoldable pub is_digit : ℕ → Bool
is_digit c = leb b'0' c && leb c b'9'

-- `timestr[:-1]` and `timestr[-1]`; the latter raises on an empty text.
unfoldable pub split_last : List ℕ → Result (List ℕ × ℕ)
split_last [] = raise index_error
split_last (c ∷ []) = ok ([], c)
split_last (c ∷ d ∷ cs) = do (front, last) ← split_last (d ∷ cs); ok (c ∷ front, last)

-- `isdigit()`
unfoldable pub is_digits : List ℕ → Bool
unfolding is_digit
is_digits [] = false
is_digits (c ∷ cs) = all is_digit (c ∷ cs)

-- `validate_timestr`: a known unit, and before it one digit or more.
unfoldable pub validate_timestr : List ℕ → Result Bool
unfolding split_last seconds_per_unit is_digits
validate_timestr timestr = do
  (front, unit) ← split_last timestr
  ok (elim (seconds_per_unit unit) [ none ↦ false | some _ ↦ is_digits front ])

-- `int(text)` on digits.
unfoldable pub parse_int : ℕ → List ℕ → ℕ
parse_int n [] = n
parse_int n (c ∷ cs) = parse_int (n * 10 + (c - b'0')) cs

-- `convert_timestr_to_seconds`; an unknown unit is a KeyError.
unfoldable pub convert_timestr_to_seconds : List ℕ → Result ℕ
unfolding split_last seconds_per_unit parse_int
convert_timestr_to_seconds timestr = do
  (front, unit) ← split_last timestr
  elim (seconds_per_unit unit) [ none ↦ raise key_error | some s ↦ ok (parse_int 0 front * s) ]

pub record TimeTrigger : Type 0 where
  pub trigger_every_s : ℕ
  pub next_trigger_at : Option ℕ

-- `__init__`, on the value of `trigger_every` in the configuration, if there is one.
unfoldable pub init : Option (List ℕ) → Result TimeTrigger
unfolding validate_timestr convert_timestr_to_seconds
init none = raise value_error
init (some timestr) = do
  valid ← validate_timestr timestr
  guard valid value_error
  every ← convert_timestr_to_seconds timestr
  guard (leb 1 every) value_error
  ok (record { trigger_every_s = every; next_trigger_at = none })

-- `next(idx for (idx, (_, timestamp, _)) in enumerate(new_data) if timestamp >= at)`, with `idx`
-- counted from `i`.
unfoldable pub first_from : ℕ → ℕ → List DataPoint → Result ℕ
first_from i at [] = raise stop_iteration
first_from i at (d ∷ ds) = if leb at d.timestamp then ok i else first_from (suc i) at ds

-- idx - 1
unfoldable pub before : ℕ → ℤ
before zero = negsuc 0
before (suc i) = pos i

-- The `while` loop: the indices that it appends, and `next_trigger_at` at its end. The fuel is a
-- bound on its rounds.
unfoldable pub loop : ℕ → ℕ → ℕ → ℕ → List DataPoint → Result (List ℤ × ℕ)
unfolding first_from before
loop zero every max_timestamp next new_data = ok ([], next)
loop (suc fuel) every max_timestamp next new_data =
    let round = do
      idx ← first_from 0 next new_data
      (indices, next') ← loop fuel every max_timestamp (next + every) new_data
      ok (before idx ∷ indices, next')
    in if leb next max_timestamp then round else ok ([], next)

-- `new_data[-1]`
unfoldable pub last : List DataPoint → Result DataPoint
last [] = raise index_error
last (d ∷ []) = ok d
last (d ∷ e ∷ ds) = last (e ∷ ds)

-- From the test on `max_timestamp` on, with `next_trigger_at` set. Each round adds
-- `trigger_every_s`, which is at least 1, so `max_timestamp + 1 - next` rounds are enough.
unfoldable pub inform_from : TimeTrigger → ℕ → List DataPoint → Result (List ℤ × TimeTrigger)
unfolding last
inform_from t next new_data = do
  newest ← last new_data
  (indices, next') ←
      loop (newest.timestamp + 1 - next) t.trigger_every_s newest.timestamp next new_data
  ok (indices, record t { next_trigger_at = some next' })

-- The branch on a `next_trigger_at` that is not set yet.
unfoldable pub inform_first : TimeTrigger → List DataPoint → Result (List ℤ × TimeTrigger)
inform_first t [] = ok ([], t)
inform_first t (d ∷ ds) = inform_from t (d.timestamp + t.trigger_every_s) (d ∷ ds)

unfoldable pub inform : TimeTrigger → List DataPoint → Result (List ℤ × TimeTrigger)
unfolding inform_from inform_first
inform t new_data = elim t.next_trigger_at [
  | some next ↦ inform_from t next new_data
  | none ↦ inform_first t new_data
]
