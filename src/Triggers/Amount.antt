-- ===== src/Triggers/Amount.antt =====
-- DataAmountTrigger (modyn/supervisor/internal/triggers/amounttrigger.py).
pub mod Count
use modyn.Prelude.{
  ltb, if◌then◌else◌, length, value_error, assertion_error, Result, ok, raise, ℕ, ◌+◌, ◌-◌, ◌%◌,
  Option, none, some, List,
}
use modyn.Prelude.Int.{ℤ, pos, negsuc}
use modyn.Prelude.Range.{range_list}
use modyn.Data.{DataPoint}

pub record DataAmountTrigger : Type 0 where
  pub data_points_for_trigger : ℕ
  pub remaining_data_points : ℕ

-- `__init__`, on the value of `data_points_for_trigger` in the configuration, if there is one.
unfoldable pub init : Option ℤ → Result DataAmountTrigger
init none = raise value_error
init (some (negsuc n)) = raise assertion_error
init (some (pos n)) =
    if ltb 0 n
    then ok (record { data_points_for_trigger = n; remaining_data_points = 0 })
    else raise assertion_error

unfoldable pub inform : DataAmountTrigger → List DataPoint → Result (List ℕ × DataAmountTrigger)
inform t new_data =
    if ltb t.remaining_data_points t.data_points_for_trigger
    then (let first_idx = t.data_points_for_trigger - t.remaining_data_points - 1 in
        ok (
          range_list first_idx (length new_data) t.data_points_for_trigger,
          record t {
            remaining_data_points =
                (t.remaining_data_points + length new_data) % t.data_points_for_trigger;
          },
        ))
    else raise assertion_error
