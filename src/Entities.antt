-- ===== src/Entities.antt =====
-- custom_components/wago_879/entity_descriptions.py: what each register becomes in Home Assistant.
pub mod Fields
mod Examples
use ha_wago.Base.{
  ℕ, String, Bool, true, false, not, ◌&&◌, ◌||◌, Option, none, some, List, [], ◌∷◌, ◌++◌,
  if◌then◌else◌,
}
use text.Mathlib.Text.{◌==◌ as str_eq}
use ha_wago.Base.Text.{codes, starts_with, ends_with, is_in}
use ha_wago.Base.Dict.{Dict, lookup}
use ha_wago.Registers.{field_names}
use ha_wago.Registers.Maps.{identity, status, measurements, energy}

-- Which coordinator feeds the entity.
pub data Block : Type 0 where
  measurements_block energy_block identity_block module_block : Block

-- The constants of Home Assistant, by the names that it gives them.
pub data DeviceClass : Type 0 where
  voltage current frequency power reactive_power apparent_power power_factor : DeviceClass
  energy_class reactive_energy enumeration duration : DeviceClass

pub data StateClass : Type 0 where
  measurement total total_increasing : StateClass

pub data PhysicalUnit : Type 0 where
  volt ampere hertz kilo_watt kilo_var kilo_va kilo_watt_hour kilo_var_hour milliseconds :
      PhysicalUnit

pub record Description : Type 0 where
  pub key : String
  pub translation_key : String
  pub block : Block
  pub populated_when_nonzero : Option String
  pub device_class : Option DeviceClass
  pub options : Option (List String)
  pub native_unit_of_measurement : Option PhysicalUnit
  pub state_class : Option StateClass
  pub suggested_display_precision : Option ℕ
  pub diagnostic : Bool
  pub enabled_default : Bool

-- A description with the defaults of Home Assistant.
abbrev plain : String → Block → Description
plain field block = record {
  key = field;
  translation_key = field;
  block = block;
  populated_when_nonzero = none;
  device_class = none;
  options = none;
  native_unit_of_measurement = none;
  state_class = none;
  suggested_display_precision = none;
  diagnostic = false;
  enabled_default = true;
}

abbrev pub legacy_unique_ids : Dict String
legacy_unique_ids =
    ("WagoSpannungL1", "voltage_l1")
    ∷ ("WagoSpannungL2", "voltage_l2")
    ∷ ("WagoSpannungL3", "voltage_l3")
    ∷ ("WagoStromL1", "current_l1")
    ∷ ("WagoStromL2", "current_l2")
    ∷ ("WagoStromL3", "current_l3")
    ∷ ("WagoWirkleistungGesamt", "active_power_total")
    ∷ ("WagoWirkleistungL1", "active_power_l1")
    ∷ ("WagoWirkleistungL2", "active_power_l2")
    ∷ ("WagoWirkleistungL3", "active_power_l3")
    ∷ ("WagoWirkenergieTotal", "active_energy_total")
    ∷ ("WagoWirkenergieBezug", "active_energy_import")
    ∷ ("WagoWirkenergieLieferung", "active_energy_export")
    ∷ []

unfoldable pub contains : List String → String → Bool
contains [] s = false
contains (t ∷ ts) s = str_eq t s || contains ts s

abbrev pub omitted_fields : List String
omitted_fields =
    "serial_number" ∷ "meter_code" ∷ "protocol_version" ∷ "software_version" ∷ "hardware_version"
    ∷ "data_type" ∷ "combination_code" ∷ []

abbrev pub measurement_kinds : List (String × Option DeviceClass × Option PhysicalUnit × ℕ)
measurement_kinds =
    ("voltage", some voltage, some volt, 1)
    ∷ ("current", some current, some ampere, 1)
    ∷ ("frequency", some frequency, some hertz, 2)
    ∷ ("active_power", some power, some kilo_watt, 3)
    ∷ ("reactive_power", some reactive_power, some kilo_var, 3)
    ∷ ("apparent_power", some apparent_power, some kilo_va, 3)
    ∷ ("power_factor", some power_factor, none, 2)
    ∷ []

abbrev pub populated_when_nonzero_of : Dict String
populated_when_nonzero_of =
    ("voltage_avg", "voltage_avg")
    ∷ ("current_avg", "voltage_avg")
    ∷ ("ct_ratio_primary", "ct_ratio_primary")
    ∷ ("ct_ratio_secondary", "ct_ratio_primary")
    ∷ []

-- `next(k for k in kinds if field.startswith(k))` and the entry; none for a `StopIteration`.
unfoldable pub kind_of :
    List (String × Option DeviceClass × Option PhysicalUnit × ℕ)
    → String
    → Option (Option DeviceClass × Option PhysicalUnit × ℕ)
unfolding starts_with
kind_of [] field = none
kind_of ((k, device_class, unit, precision) ∷ kinds) field =
    if starts_with (codes k) (codes field)
    then some (device_class, unit, precision)
    else kind_of kinds field

-- `_measurement`
unfoldable pub measurement_description : String → Option Description
unfolding kind_of lookup
measurement_description field = elim (kind_of measurement_kinds field) [
  | none ↦ none
  | some (device_class, unit, precision) ↦ some (record (plain field measurements_block) {
    populated_when_nonzero = lookup field populated_when_nonzero_of;
    device_class = device_class;
    native_unit_of_measurement = unit;
    state_class = some measurement;
    suggested_display_precision = some precision;
  })
]

-- `any(f"_{q}" in field for q in QUADRANTS)`
unfoldable pub in_quadrant : String → Bool
unfolding is_in
in_quadrant field =
    is_in (codes "_q1") (codes field)
    || is_in (codes "_q2") (codes field)
    || is_in (codes "_q3") (codes field)
    || is_in (codes "_q4") (codes field)

unfoldable pub is_split_counter : String → Bool
unfolding ends_with in_quadrant
is_split_counter field =
    ends_with (codes "_t1") (codes field)
    || ends_with (codes "_t2") (codes field)
    || ends_with (codes "_t3") (codes field)
    || ends_with (codes "_t4") (codes field)
    || in_quadrant field

unfoldable pub is_directed : String → Bool
unfolding is_in in_quadrant
is_directed field =
    is_in (codes "import") (codes field)
    || is_in (codes "export") (codes field)
    || in_quadrant field

-- `_energy`
unfoldable pub energy_description : String → Description
unfolding is_split_counter is_directed starts_with
energy_description field =
    let reactive = starts_with (codes "reactive") (codes field) in
    if str_eq field "tariff"
    then record (plain field energy_block) { diagnostic = true }
    else record (plain field energy_block) {
      device_class = some (if reactive then reactive_energy else energy_class);
      native_unit_of_measurement = some (if reactive then kilo_var_hour else kilo_watt_hour);
      state_class = some (if is_directed field then total_increasing else total);
      suggested_display_precision = some 3;
      enabled_default =
          not (is_split_counter field) && not (starts_with (codes "day_energy") (codes field));
    }

-- `_identity`
unfoldable pub identity_description : String → Description
unfolding lookup contains
identity_description field =
    let amperes = str_eq field "meter_amperes" in
    record (plain field identity_block) {
      diagnostic = true;
      device_class = if amperes then some current else none;
      native_unit_of_measurement = if amperes then some ampere else none;
      populated_when_nonzero = lookup field populated_when_nonzero_of;
      enabled_default =
          contains ("ct_ratio_primary" ∷ "ct_ratio_secondary" ∷ "modbus_id" ∷ []) field;
    }

-- `_status`
unfoldable pub status_description : String → Description
status_description field = record (plain field measurements_block) {
  diagnostic = true;
  enabled_default = str_eq field "current_quadrant";
}

unfoldable pub each : (String → Description) → List String → List Description
each f [] = []
each f (field ∷ fields) = f field ∷ each f fields

unfoldable pub each_measurement : List String → Option (List Description)
unfolding measurement_description
each_measurement [] = some []
each_measurement (field ∷ fields) =
    let rest = each_measurement fields in
    elim (measurement_description field) [
      | none ↦ none
      | some description ↦ elim rest [ none ↦ none | some more ↦ some (description ∷ more) ]
    ]

unfoldable pub kept_identity : List String → List String
unfolding contains
kept_identity [] = []
kept_identity (field ∷ fields) =
    let rest = kept_identity fields in if contains omitted_fields field then rest else field ∷ rest

-- `SENSOR_DESCRIPTIONS`; none if the module could not be imported.
unfoldable pub sensor_descriptions : Option (List Description)
unfolding each_measurement each kept_identity status_description energy_description
    identity_description
sensor_descriptions = elim (each_measurement (field_names measurements)) [
  | none ↦ none
  | some measured ↦ some (
      measured
      ++ each status_description (field_names status)
      ++ each energy_description (field_names energy)
      ++ each identity_description (kept_identity (field_names identity)))
]

-- `_module`
abbrev pub module_description :
    String → Option DeviceClass → Option (List String) → Option PhysicalUnit → Description
module_description field device_class options unit = record (plain field module_block) {
  diagnostic = true;
  device_class = device_class;
  options = options;
  native_unit_of_measurement = unit;
}

abbrev pub module_text_fields : List String
module_text_fields =
    "serial_number" ∷ "firmware_version" ∷ "bootloader_version" ∷ "ip_address" ∷ "netmask"
    ∷ "gateway" ∷ "dns_server_1" ∷ "dns_server_2" ∷ "ntp_server_1" ∷ "ntp_server_2" ∷ "hostname"
    ∷ "baud_rate" ∷ []

unfoldable pub module_sensor_descriptions : List Description
unfolding each
module_sensor_descriptions =
    each (λ field. module_description field none none none) module_text_fields
    ++ module_description "modbus_port" (some enumeration) (some ("rs232" ∷ [])) none
      ∷ module_description "parity" (some enumeration) (some ("even" ∷ "none" ∷ "odd" ∷ [])) none
      ∷ module_description "timeout" (some duration) none (some milliseconds)
      ∷ []
