-- ===== src/Device/Meter.antt =====
-- `WagoMeter` of custom_components/wago_879/wago_879_api/device.py.
pub mod Accepted
pub mod Identity
pub mod Readings
use ha_wago.Base.{
  ℕ, ◌≡◌, String, Bool, true, false, not, ◌&&◌, ◌||◌, Option, none, some, List, [], ◌∷◌, ◌==◌,
  if◌then◌else◌,
}
use ha_wago.Base.Text.{Text}
use ha_wago.Base.Outcome.{Outcome, ok, raise}
use ha_wago.Base.Dict.{Dict, lookup, merge}
use ha_wago.Base.Hex.{hex}
use ha_wago.Python.{Float, nan, infinite, finite}
use ha_wago.Modbus.{ModbusError}
use ha_wago.Registers.{field_names}
use ha_wago.Registers.Maps.{identity, status, measurements, energy}

-- What a field decodes to, or `None`.
pub data Reading : Type 0 where
  missing : Reading
  real : Float → Reading
  whole : ℕ → Reading

-- A component after its update: the value of each attribute.
abbrev pub Component : Type 0
Component = String → Reading

-- `math.isfinite`
unfoldable pub is_finite : Float → Bool
is_finite (finite m e) = true
is_finite _ = false

unfoldable pub usable : Reading → Reading
unfolding is_finite
usable (real x) = if is_finite x then real x else missing
usable other = other

-- `_values`
unfoldable pub values : Component → List String → Dict Reading
unfolding usable
values component [] = []
values component (name ∷ names) = (name, usable (component name)) ∷ values component names

-- The calls of the package: each component is read from the unit as a whole.
pub record MeterUnit (S : Type 0) : Type 0 where
  pub update_identity : S → Outcome ModbusError Component × S
  pub update_measurements : S → Outcome ModbusError Component × S
  pub update_status : S → Outcome ModbusError Component × S
  pub update_energy : S → Outcome ModbusError Component × S

pub data MeterError : Type 0 where
  modbus_error : ModbusError → MeterError
  unsupported_meter unsupported_data_type : Reading → MeterError
  type_error : MeterError

abbrev pub serial_hex_digits : ℕ
serial_hex_digits = 8

-- `values["meter_code"] in SUPPORTED_METER_CODES`
unfoldable pub is_supported : Reading → Bool
is_supported (whole code) = code == 0x1111 || code == 0x1112 || code == 0x1113
is_supported _ = false

-- `values["data_type"] == FLOAT_DATA_TYPE`
unfoldable pub sends_floats : Reading → Bool
sends_floats (whole data_type) = data_type == 1
sends_floats _ = false

pub serial_text : Reading → Outcome MeterError Text
serial_text (whole n) = ok (hex serial_hex_digits n)
serial_text _ = raise type_error

-- `UnsupportedMeter(meter_code)`, whose message formats the code: that raises itself for `None`.
pub refuse_meter : Reading → Outcome MeterError Text
refuse_meter (whole code) = raise (unsupported_meter (whole code))
refuse_meter _ = raise type_error

-- The checks of `async_read_identity` on the block it read: the serial number as text, or the
-- exception.
unfoldable pub check_identity : Component → Outcome MeterError Text
unfolding serial_text refuse_meter usable
check_identity component =
    let meter_code = usable (component "meter_code") in
    let data_type = usable (component "data_type") in
    if not (is_supported meter_code)
    then refuse_meter meter_code
    else if not (sends_floats data_type)
    then raise (unsupported_data_type data_type)
    else serial_text (usable (component "serial_number"))

-- The meter object with the link that it talks over; `serial_number` is its only own state.
pub record Meter (S : Type 0) : Type 0 where
  pub link : S
  pub serial_number : Option Text

module _ {S : Type 0} (unit : MeterUnit S) where
  accept_identity :
      Component → Outcome MeterError Text → Meter S → Outcome MeterError (Dict Reading) × Meter S
  accept_identity component (ok serial) meter =
      (ok (values component (field_names identity)), record meter { serial_number = some serial })
  accept_identity component (raise e) meter = (raise e, meter)

  unfoldable pub async_read_identity : Meter S → Outcome MeterError (Dict Reading) × Meter S
  unfolding accept_identity
  async_read_identity meter =
      let (r, link) = unit.update_identity meter.link in
      let after : Meter S = record meter { link = link } in
      elim r [
        | ok component ↦ accept_identity component (check_identity component) after
        | raise e ↦ (raise (modbus_error e), after)
      ]

  -- The status words of a poll, after the measurements were read.
  add_status : Component → S → Outcome ModbusError (Dict Reading) × S
  add_status read link =
      let (r, link') = unit.update_status link in
      elim r [
        | ok component ↦ (
          ok (
              merge (values read (field_names measurements))
                (values component (field_names status))),
          link',
        )
        | raise e ↦ (raise e, link')
      ]

  unfoldable pub async_update_measurements : S → Outcome ModbusError (Dict Reading) × S
  unfolding add_status
  async_update_measurements link =
      let (r, link') = unit.update_measurements link in
      elim r [ ok component ↦ add_status component link' | raise e ↦ (raise e, link') ]

  unfoldable pub async_update_energy : S → Outcome ModbusError (Dict Reading) × S
  async_update_energy link =
      let (r, link') = unit.update_energy link in
      elim r [
        | ok component ↦ (ok (values component (field_names energy)), link')
        | raise e ↦ (raise e, link')
      ]
