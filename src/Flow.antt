-- ===== src/Flow.antt =====
-- The parts of custom_components/wago_879/config_flow.py that decide: reading the form, the entry
-- that a found module belongs to, and moving an entry.
pub mod Choice
pub mod Moving
pub mod Probes
pub mod Following
pub mod Discovered
pub mod Cache
pub mod Adding
pub mod Reached
pub mod Added
mod Runs
mod Examples
use ha_wago.Base.{
  ℕ, String, Bool, true, false, not, ◌&&◌, ◌||◌, ◌≡◌, Option, none, some, List, [], ◌∷◌, ◌==◌,
  if◌then◌else◌,
}
use text.Mathlib.Text.{◌==◌ as str_eq}
use ha_wago.Base.Int.{ℤ}
use ha_wago.Base.Text.{Text, text_eq, strip, any_space}
use ha_wago.Base.Lists.{length}
use ha_wago.Base.Dict.{Dict, lookup, merge}
use ha_wago.Base.Outcome.{Outcome, ok, raise}
use ha_wago.Python.{FloatText, Value, to_float, is_integer, to_int}
use ha_wago.Discovery.{FoundModule}
use ha_wago.Entry.{Stored, number, string}
use ha_wago.Entry.Setup.{entry_title}

-- A converted value: the host as typed, or an integer.
pub data Converted : Type 0 where
  as_typed : Value → Converted
  integer : ℤ → Converted

unfoldable pub as_integer : FloatText → Value → Option ℤ
as_integer floats value = elim (to_float floats value) [
  | none ↦ none
  | some x ↦ if is_integer x then some (to_int x) else none
]

unfoldable pub convert : FloatText → String → Value → Option Converted
unfolding as_integer
convert floats key value =
    if str_eq key "host"
    then some (as_typed value)
    else elim (as_integer floats value) [ none ↦ none | some i ↦ some (integer i) ]

-- `_as_integers`
unfoldable pub as_integers : FloatText → Dict Value → Option (Dict Converted)
as_integers floats [] = some []
as_integers floats ((key, value) ∷ user_input) =
    let rest = as_integers floats user_input in
    elim (convert floats key value) [
      | none ↦ none
      | some c ↦ elim rest [ none ↦ none | some converted ↦ some ((key, c) ∷ converted) ]
    ]

unfoldable pub is_empty : Text → Bool
is_empty [] = true
is_empty (c ∷ t) = false

-- `normalised_host`, of the text under the host's key, if the form has one.
unfoldable pub normalised_host : Option Text → Option Text
unfolding is_empty
normalised_host none = none
normalised_host (some typed) =
    let host = strip typed in if is_empty host || any_space host then none else some host

-- A config entry, with the serial of the module that its last setup reached.
pub record FlowEntry : Type 0 where
  pub entry_id : Text
  pub title : Text
  pub unique_id : Option Text
  pub data_of : Dict Stored
  pub module_serial : Option Text
  pub has_listeners : Bool

unfoldable pub has_serial : Text → FlowEntry → Bool
has_serial serial entry = elim entry.module_serial [
  | none ↦ false
  | some known ↦ text_eq known serial
]

unfoldable pub has_host : Text → FlowEntry → Bool
has_host host entry = elim (lookup "host" entry.data_of) [
  | some (string t) ↦ text_eq t host
  | other ↦ false
]

unfoldable pub never_reached : FlowEntry → Bool
never_reached entry = elim entry.module_serial [ none ↦ true | some _ ↦ false ]

-- The first entry that passes the test.
unfoldable pub first_entry : (FlowEntry → Bool) → List FlowEntry → Option FlowEntry
first_entry test [] = none
first_entry test (entry ∷ entries) = if test entry then some entry else first_entry test entries

-- `_entry_of`
unfoldable pub entry_of : List FlowEntry → FoundModule → Option FlowEntry
unfolding has_serial has_host never_reached
entry_of entries found = elim (first_entry (has_serial found.serial_number) entries) [
  | some entry ↦ some entry
  | none ↦ first_entry (λ entry. never_reached entry && has_host found.host entry) entries
]

stored_eq : Stored → Stored → Bool
stored_eq (number a) (number b) = a == b
stored_eq (string s) (string t) = text_eq s t
stored_eq (number a) (string t) = false
stored_eq (string s) (number b) = false

unfoldable pub agrees : Dict Stored → Dict Stored → Bool
unfolding stored_eq
agrees [] d = true
agrees ((k, v) ∷ c) d = elim (lookup k d) [ none ↦ false | some w ↦ stored_eq v w && agrees c d ]

-- Python's `==` of two dictionaries.
unfoldable pub dict_eq : Dict Stored → Dict Stored → Bool
unfolding agrees
dict_eq c d = length c == length d && agrees c d

pub data KeyError : Type 0 where
  key_error : KeyError

pub moved_title : FlowEntry → Outcome KeyError Text
moved_title entry = elim entry.unique_id [
  | none ↦ ok entry.title
  | some serial ↦ elim (lookup "host" entry.data_of) [
    | none ↦ raise key_error
    | some (string host) ↦ ok (entry_title entry.title host serial)
    | some (number n) ↦ ok entry.title
  ]
]

-- `async_move_entry`, of what `async_get_entry` answers: the entry as it is updated and whether a
-- reload is scheduled on top of the listeners', or none where the answer is False.
unfoldable pub async_move_entry :
    Option FlowEntry → (seen changes : Dict Stored) → Outcome KeyError (Option (FlowEntry × Bool))
unfolding moved_title
async_move_entry none seen changes = ok none
async_move_entry (some entry) seen changes =
    if dict_eq entry.data_of seen
    then elim (moved_title entry) [
      | raise e ↦ raise e
      | ok title ↦ ok (
          some (
            record entry { data_of = merge entry.data_of changes; title = title },
            not entry.has_listeners,
          ))
    ]
    else ok none
