-- ===== src/Entry.antt =====
-- A config entry of custom_components/wago_879/__init__.py, and const.py.
pub mod Migration
pub mod Setup
pub mod OtherMeter
pub mod Guarded
mod Examples
use ha_wago.Base.{
  ℕ, String, Bool, true, false, not, ◌≡◌, Option, none, some, List, [], ◌∷◌, ltb, if◌then◌else◌,
}
use ha_wago.Base.Text.{Text, text_eq}
use ha_wago.Base.Dict.{Dict, lookup, insert, without, merge, or_none}

abbrev pub default_port : ℕ
default_port = 502

abbrev pub default_unit_id : ℕ
default_unit_id = 1

abbrev pub default_measurement_interval : ℕ
default_measurement_interval = 15

abbrev pub default_energy_interval : ℕ
default_energy_interval = 300

abbrev pub interval_fields : List String
interval_fields = "measurement_interval" ∷ "energy_interval" ∷ []

abbrev pub intervals_in_options_minor_version : ℕ
intervals_in_options_minor_version = 2

-- A stored value.
pub data Stored : Type 0 where
  number : ℕ → Stored
  string : Text → Stored

pub record Entry : Type 0 where
  pub title : Text
  pub unique_id : Option Text
  pub data_of : Dict Stored
  pub options : Dict Stored
  pub minor_version : ℕ

-- `int` of a stored value, given what Python reads in a text; none for a `ValueError`.
unfoldable pub stored_int : (Text → Option ℕ) → Stored → Option ℕ
stored_int int (number n) = some n
stored_int int (string t) = int t

-- `entry.options.get(key, entry.data.get(key))`
unfoldable pub stored : Entry → String → Option Stored
stored entry key = or_none (lookup key entry.options) (lookup key entry.data_of)

-- `_setting`
unfoldable pub setting : (Text → Option ℕ) → Entry → String → ℕ → Option ℕ
unfolding stored_int stored
setting int entry key default = elim (stored entry key) [
  | none ↦ some default
  | some value ↦ stored_int int value
]

-- `{key: data.pop(key) for key in fields if key in data}`: what was moved, and what is left.
unfoldable pub pop_all : List String → Dict Stored → Dict Stored → Dict Stored × Dict Stored
pop_all [] moved left = (moved, left)
pop_all (key ∷ keys) moved left = elim (lookup key left) [
  | none ↦ pop_all keys moved left
  | some value ↦ pop_all keys (insert key value moved) (without key left)
]

-- `async_migrate_entry`: whether it worked, and the entry after it.
unfoldable pub async_migrate_entry : Entry → Bool × Entry
unfolding pop_all
async_migrate_entry entry =
    if ltb entry.minor_version intervals_in_options_minor_version
    then (
      true,
      record entry {
        data_of = (pop_all interval_fields [] entry.data_of).1;
        options = merge (pop_all interval_fields [] entry.data_of).0 entry.options;
        minor_version = intervals_in_options_minor_version;
      },
    )
    else (true, entry)
