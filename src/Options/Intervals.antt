-- ===== src/Options/Intervals.antt =====
-- The first page of `WagoOptionsFlow` and the page of the poll intervals.
use ha_wago.Base.{Bool, true, false, Option, none, some, if◌then◌else◌}
use ha_wago.Base.Dict.{Dict, merge}
use ha_wago.Python.{FloatText, Value}
use ha_wago.Entry.{Stored}
use ha_wago.Flow.{Converted, as_integers}

-- The menu, the intervals as they are stored, or the form with the values that it suggests and
-- whether it shows that a value is no whole number.
pub data IntervalsAnswer : Type 0 where
  menu : IntervalsAnswer
  stored : Dict Converted → IntervalsAnswer
  intervals_form : (current : Dict Stored) (not_a_whole_number : Bool) → IntervalsAnswer

-- `async_step_intervals`, of an entry with the data and the options.
unfoldable pub async_step_intervals :
    FloatText → (data_of options : Dict Stored) → Option (Dict Value) → IntervalsAnswer
async_step_intervals floats data_of options none = intervals_form (merge data_of options) false
async_step_intervals floats data_of options (some user_input) =
    elim (as_integers floats user_input) [
      | some whole ↦ stored whole
      | none ↦ intervals_form (merge data_of options) true
    ]

-- `async_step_init`: `usable` says whether the entry is loaded and has a module.
unfoldable pub async_step_init :
    FloatText → (usable : Bool) (data_of options : Dict Stored) → IntervalsAnswer
unfolding async_step_intervals
async_step_init floats usable data_of options =
    if usable then menu else async_step_intervals floats data_of options none
