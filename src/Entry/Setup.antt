-- ===== src/Entry/Setup.antt =====
-- `async_setup_entry` and `_async_module` of custom_components/wago_879/__init__.py. What they call
-- in Home Assistant, in the adoption of old entities and over the link is a parameter: `Home`.
use ha_wago.Base.{
  ℕ, String, Bool, true, false, not, Option, none, some, List, [], ◌∷◌, ◌++◌, if◌then◌else◌,
}
use ha_wago.Base.Text.{Text, codes, text_eq}
use ha_wago.Base.Outcome.{Outcome, ok, raise}
use ha_wago.Base.Action.{Action, call, present, return, renamed, ◌>>=◌, ◌>>◌}
use ha_wago.Base.Dict.{Dict, lookup}
use ha_wago.Modbus.{ModbusError}
use ha_wago.Device.Meter.{
  Reading, Meter, MeterUnit, MeterError, modbus_error, unsupported_meter, unsupported_data_type,
  type_error, async_read_identity,
}
use ha_wago.Device.Module as Module
use ha_wago.Logs.{identifier_tail, mask}
use ha_wago.Registers.{module_unit_id}
use ha_wago.Entry.{
  number, string, Entry, setting, default_port, default_unit_id, default_measurement_interval,
  default_energy_interval,
}

-- `device_name` of sensor.py.
unfoldable pub device_name : Text → Text
device_name serial = codes "WAGO " ++ identifier_tail serial

-- `entry_title` of sensor.py.
unfoldable pub entry_title : Text → Text → Text → Text
entry_title current host serial = if text_eq current host then device_name serial else current

-- `str(entry.data["host"])`, none for a `KeyError`.
unfoldable pub host_of : Entry → Option Text
host_of entry = elim (lookup "host" entry.data_of) [
  | none ↦ none
  | some (string t) ↦ some t
  | some (number n) ↦ some (Module.shown (some n))
]

pub data Poller : Type 0 where
  measurements_poller energy_poller : Poller

-- `WagoRuntimeData`, without the pollers that Home Assistant holds.
pub record Runtime : Type 0 where
  pub serial : Text
  pub identity : Dict Reading
  pub module_report : Option Module.Report
  pub module_device_id : Option Text
  pub has_module_api : Bool

-- The exceptions that leave the setup. `adoption_refused` carries the translation key.
pub data SetupError : Type 0 where
  key_error value_error assertion_error format_error not_ready : SetupError
  link_settings_clash unit_refused : Text → SetupError
  meter_not_answering : (host : Text) → ModbusError → SetupError
  meter_unsupported data_type_unsupported : Reading → SetupError
  serial_mismatch : (host found expected : Text) → SetupError
  adoption_refused : Option String → SetupError

-- The calls of the setup, on the state of Home Assistant and of the link. `module_devices` are the
-- ids of the entry's devices that are modules; `get_or_create` is the id that the registry gives
-- the module, and `created` the state with its device.
pub record Home (S : Type 0) : Type 0 where
  pub delete_issue : S → S
  pub create_issue : String → S → S
  pub update_title : Text → S → S
  pub get_unit : (port unit_id : ℕ) → S → Outcome Text (Unit {0}) × S
  pub meter : (unit_id : ℕ) → MeterUnit S
  pub module_unit : Module.ModuleUnit S
  pub adopt : (serial : Text) → S → Outcome (Option String) (Unit {0}) × S
  pub rename : (serial : Text) → S → S
  pub first_refresh : Poller → (name : Text) → (seconds : ℕ) → S → Outcome (Unit {0}) (Unit {0}) × S
  pub module_devices : S → List Text
  pub get_or_create : Module.Report → S → Text
  pub created : Module.Report → S → S
  pub remove_device : Text → S → S
  pub forward : Runtime → S → S

identity_error : Text → MeterError → SetupError
identity_error host (modbus_error e) = meter_not_answering (mask host) e
identity_error host (unsupported_meter code) = meter_unsupported code
identity_error host (unsupported_data_type t) = data_type_unsupported t
identity_error host type_error = format_error

abbrev first : List Text → Option Text
first [] = none
first (id ∷ ids) = some id

-- The id is not that of the module in use.
unfoldable pub is_stale : Option Text → Text → Bool
is_stale none id = true
is_stale (some current) id = not (text_eq id current)

module _ {S : Type 0} (home : Home S) where
  -- `for device in known: if device.id != current: devices.async_remove_device(device.id)`
  unfoldable pub remove_stale : List Text → Option Text → S → S
  unfolding is_stale
  remove_stale [] current s = s
  remove_stale (id ∷ known) current s =
      remove_stale known current (if is_stale current id then home.remove_device id s else s)

  -- `_async_module`
  unfoldable pub async_module : Action SetupError S (Option Module.Report × Option Text)
  unfolding remove_stale
  async_module s =
      let known = home.module_devices s in
      let (r, s1) = Module.async_read home.module_unit s in
      elim r [
        | raise (Module.modbus_error e) ↦ (ok (none, first known), s1)
        | raise Module.type_error ↦ (raise format_error, s1)
        | ok none ↦ (ok (none, none), remove_stale known none s1)
        | ok (some report) ↦
            let current = some (home.get_or_create report s1) in
            (ok (some report, current), remove_stale known current (home.created report s1))
      ]

  abbrev pub title_action : Entry → Text → Action SetupError S Unit
  title_action entry host s = (
    ok tt,
    elim entry.unique_id [
      | none ↦ s
      | some serial ↦ home.update_title (entry_title entry.title host serial) s
    ],
  )

  -- `meter.async_read_identity()` of a new meter object, with the serial number it has afterwards.
  unfoldable pub read_identity : Text → ℕ → Action SetupError S (Dict Reading × Option Text)
  unfolding identity_error
  read_identity host unit_id s =
      let fresh : Meter S = record { link = s; serial_number = none } in
      let (r, meter) = async_read_identity (home.meter unit_id) fresh in
      elim r [
        | ok identity ↦ (ok (identity, meter.serial_number), meter.link)
        | raise e ↦ (raise (identity_error host e), meter.link)
      ]

  -- Refuses a meter that the entry does not belong to.
  unfoldable pub check_serial : Entry → Text → Text → Action SetupError S Unit
  check_serial entry host serial s = elim entry.unique_id [
    | none ↦ (ok tt, s)
    | some expected ↦ (
      if text_eq expected serial
          then ok tt
          else raise (serial_mismatch (mask host) (mask serial) (mask expected)),
      s,
    )
  ]

  -- The adoption, with the repair issue that a refusal raises.
  unfoldable pub adopt_legacy : Text → Action SetupError S Unit
  adopt_legacy serial s =
      let (r, s1) = home.adopt serial s in
      elim r [
        | ok done ↦ (ok tt, s1)
        | raise none ↦ (raise (adoption_refused none), s1)
        | raise (some key) ↦ (raise (adoption_refused (some key)), home.create_issue key s1)
      ]

  module _ (int : Text → Option ℕ) (redact : Text → Text → Text) where
    -- What the setup does once the meter is known to be the entry's.
    unfoldable pub load :
        Entry
        → (port : ℕ) → (identity : Dict Reading) → (serial : Text) → Action SetupError S Runtime
    unfolding adopt_legacy async_module
    load entry port identity serial = do
      adopt_legacy serial
      call (home.rename serial)
      fast ←
          present value_error
            (setting int entry "measurement_interval" default_measurement_interval)
      slow ← present value_error (setting int entry "energy_interval" default_energy_interval)
      renamed (λ _. not_ready)
          (home.first_refresh measurements_poller (mask serial ++ codes " measurements") fast)
      renamed (λ _. not_ready)
          (home.first_refresh energy_poller (mask serial ++ codes " energy") slow)
      renamed unit_refused (home.get_unit port module_unit_id)
      found ← async_module
      let runtime : Runtime = record {
        serial = serial;
        identity = identity;
        module_report = found.0;
        module_device_id = found.1;
        has_module_api = elim found.1 [ none ↦ false | some _ ↦ true ];
      }
      call (home.forward runtime)
      return runtime

    -- `async_setup_entry`
    unfoldable pub async_setup_entry : Entry → Action SetupError S Runtime
    unfolding load check_serial read_identity
    async_setup_entry entry = do
      call home.delete_issue
      host ← present key_error (host_of entry)
      title_action entry host
      port ← present value_error (setting int entry "port" default_port)
      unit_id ← present value_error (setting int entry "unit_id" default_unit_id)
      renamed (λ message. link_settings_clash (redact message host)) (home.get_unit port unit_id)
      read ← read_identity host unit_id
      serial ← present assertion_error read.1
      check_serial entry host serial
      load entry port read.0 serial
