-- ===== src/Flow/Adding.antt =====
-- Adding a meter and moving its entry by hand: `_validate`, `async_step_user`,
-- `async_step_reconfigure` and `async_step_discovery_confirm` of
-- custom_components/wago_879/config_flow.py.
use ha_wago.Base.{
  ℕ, String, Bool, true, false, not, Option, none, some, List, [], ◌∷◌, if◌then◌else◌,
}
use ha_wago.Base.Int.{pos, negsuc}
use ha_wago.Base.Text.{Text, codes, text_eq}
use ha_wago.Base.Outcome.{Outcome, ok, raise}
use ha_wago.Base.Dict.{Dict, lookup}
use ha_wago.Python as Python
use ha_wago.Python.{FloatText, Value, absent, boolean, text}
use ha_wago.Discovery.{FoundModule}
use ha_wago.Entry.{
  Stored, number, string, default_port, default_unit_id, default_measurement_interval,
  default_energy_interval, interval_fields,
}
use ha_wago.Entry.Setup.{device_name}
use ha_wago.Flow.{Converted, as_typed, integer, as_integers, normalised_host, FlowEntry, entry_of}
use ha_wago.Flow.Moving.{Entries, move_entry}
use ha_wago.Flow.Probes.{Link, ProbeError, uncaught, probe_serial}
use ha_wago.Flow.Following.{Discovered, Known}

-- The keys of the form's errors.
pub data InvalidForm : Type 0 where
  invalid_host not_a_whole_number : InvalidForm
  not_probed : ProbeError → InvalidForm

-- An entry as `async_create_entry` makes it.
pub record Created : Type 0 where
  pub title : Text
  pub unique_id : Text
  pub data_of : Dict Stored
  pub options : Dict Stored

pub data Answer : Type 0 where
  form : Option InvalidForm → Answer
  created : Created → Answer
  already_configured already_in_progress unique_id_mismatch entry_changed : Answer
  reconfigure_successful : Answer
  confirm_form : (name host : Text) → Answer

-- The exceptions that leave a step. The selectors of the form leave no other text than the host
-- and no number below 0.
pub data AddError : Type 0 where
  key_error value_error probe_error : AddError

abbrev pub connection_fields : List String
connection_fields = "host" ∷ "port" ∷ "unit_id" ∷ []

-- A converted value as it is stored, with the host that was normalised.
unfoldable pub stored_value : Text → Converted → Option Stored
stored_value host (as_typed value) = some (string host)
stored_value host (integer (pos n)) = some (number n)
stored_value host (integer (negsuc n)) = none

unfoldable pub stored_values : Text → Dict Converted → Option (Dict Stored)
unfolding stored_value
stored_values host [] = some []
stored_values host ((key, c) ∷ converted) =
    let rest = stored_values host converted in
    elim (stored_value host c) [
      | none ↦ none
      | some v ↦ elim rest [ none ↦ none | some values ↦ some ((key, v) ∷ values) ]
    ]

-- `{key: user_input[key] for key in fields}`, none for a `KeyError`.
unfoldable pub picked : List String → Dict Stored → Option (Dict Stored)
picked [] values = some []
picked (key ∷ keys) values =
    let rest = picked keys values in
    elim (lookup key values) [
      | none ↦ none
      | some v ↦ elim rest [ none ↦ none | some others ↦ some ((key, v) ∷ others) ]
    ]

unfoldable pub number_at : String → Dict Stored → Option ℕ
number_at key values = elim (lookup key values) [ some (number n) ↦ some n | other ↦ none ]

-- `str(value)`
unfoldable pub str_of : FloatText → Value → Text
str_of floats absent = codes "None"
str_of floats (boolean true) = codes "True"
str_of floats (boolean false) = codes "False"
str_of floats (Python.number x) = floats.show_float x
str_of floats (text s) = s

-- `normalised_host`, of the form.
unfoldable pub typed_host : FloatText → Dict Value → Option Text
unfolding str_of
typed_host floats user_input = elim (lookup "host" user_input) [
  | none ↦ normalised_host none
  | some value ↦ normalised_host (some (str_of floats value))
]

-- The form as it was updated, and the serial number behind it; or its error.
pub data Validated : Type 0 where
  accepted : (values : Dict Stored) (serial : Text) → Validated
  refused : InvalidForm → Validated

module _ {W : Type 0} (entries : Entries W) (known : Known W) (link : Link W)
    (floats : FloatText) where
  unfoldable pub validated : Dict Stored → Outcome ProbeError Text → Outcome AddError Validated
  validated values (ok serial) = ok (accepted values serial)
  validated values (raise uncaught) = raise probe_error
  validated values (raise e) = ok (refused (not_probed e))

  -- The probe of the values that the form has.
  unfoldable pub probed_form : (host : Text) → Dict Stored → W → Outcome AddError Validated × W
  unfolding validated number_at
  probed_form host values w = elim (number_at "port" values) [
    | none ↦ (raise key_error, w)
    | some port ↦ elim (number_at "unit_id" values) [
      | none ↦ (raise key_error, w)
      | some unit_id ↦
          let (r, w') = probe_serial link host port unit_id w in (validated values r, w')
    ]
  ]

  -- `_validate`
  unfoldable pub validate : Dict Value → W → Outcome AddError Validated × W
  unfolding typed_host stored_values probed_form
  validate user_input w = elim (typed_host floats user_input) [
    | none ↦ (ok (refused invalid_host), w)
    | some host ↦ elim (as_integers floats user_input) [
      | none ↦ (ok (refused not_a_whole_number), w)
      | some converted ↦ elim (stored_values host converted) [
        | none ↦ (raise value_error, w)
        | some values ↦ probed_form host values w
      ]
    ]
  ]

  -- The modules that no entry reaches, which the form offers.
  unfoldable pub offered : W → List FoundModule → List FoundModule
  offered w [] = []
  offered w (found ∷ modules) =
      let rest = offered w modules in
      elim (entry_of (known.current_entries w) found) [ none ↦ found ∷ rest | some entry ↦ rest ]

  -- Whether an entry that is not ignored has the unique id.
  unfoldable pub is_configured : Text → W → Bool
  is_configured serial w = elim (known.entry_for_unique_id serial w) [
    | none ↦ false
    | some entry ↦ not (known.is_ignored entry)
  ]

  -- The end of `async_step_user` once the meter has answered.
  unfoldable pub create : Dict Stored → (serial : Text) → W → Outcome AddError Answer
  unfolding picked is_configured
  create values serial w =
      if is_configured serial w
      then ok already_configured
      else (elim (picked connection_fields values) [
        | none ↦ raise key_error
        | some data_of ↦ elim (picked interval_fields values) [
          | none ↦ raise key_error
          | some options ↦ ok (
              created (record {
                title = device_name serial;
                unique_id = serial;
                data_of = data_of;
                options = options;
              }))
        ]
      ])

  -- `async_step_user`, after the search
  unfoldable pub async_step_user : Option (Dict Value) → W → Outcome AddError Answer × W
  unfolding validate create
  async_step_user none w = (ok (form none), w)
  async_step_user (some user_input) w =
      let (r, w') = validate user_input w in
      elim r [
        | raise e ↦ (raise e, w')
        | ok (refused e) ↦ (ok (form (some e)), w')
        | ok (accepted values serial) ↦ (create values serial w', w')
      ]

  -- The end of `async_step_reconfigure` once the meter has answered.
  unfoldable pub reconfigure :
      FlowEntry → Dict Stored → (serial : Text) → W → Outcome AddError Answer × W
  reconfigure entry values serial w =
      let same : Bool = elim entry.unique_id [
        | none ↦ false
        | some known_id ↦ text_eq known_id serial
      ] in
      if known.in_progress serial w
      then (ok already_in_progress, w)
      else if not same
      then (ok unique_id_mismatch, w)
      else (let (moved, w') = move_entry entries entry.entry_id entry.data_of values w in
          (ok (if moved then reconfigure_successful else entry_changed), w'))

  -- `async_step_reconfigure`
  unfoldable pub async_step_reconfigure :
      FlowEntry → Option (Dict Value) → W → Outcome AddError Answer × W
  unfolding reconfigure
  async_step_reconfigure entry none w = (ok (form none), w)
  async_step_reconfigure entry (some user_input) w =
      let (r, w') = validate user_input w in
      elim r [
        | raise e ↦ (raise e, w')
        | ok (refused e) ↦ (ok (form (some e)), w')
        | ok (accepted values serial) ↦ reconfigure entry values serial w'
      ]

-- `async_step_discovery_confirm`
unfoldable pub async_step_discovery_confirm : Discovered → (confirmed : Bool) → Answer
async_step_discovery_confirm found false = confirm_form (device_name found.unique_id) found.host
async_step_discovery_confirm found true = created (record {
  title = device_name found.unique_id;
  unique_id = found.unique_id;
  data_of =
      ("host", string found.host)
      ∷ ("port", number default_port)
      ∷ ("unit_id", number default_unit_id)
      ∷ [];
  options =
      ("measurement_interval", number default_measurement_interval)
      ∷ ("energy_interval", number default_energy_interval)
      ∷ [];
})
