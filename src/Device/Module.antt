-- ===== src/Device/Module.antt =====
-- `WagoModule.async_read` of custom_components/wago_879/wago_879_api/device.py: everything that the
-- module's configuration tool shows.
pub mod Absent
mod Examples
use ha_wago.Base.{
  ℕ, zero, suc, ◌+◌, ◌*◌, ◌/◌, ◌%◌, ◌≡◌, String, Bool, true, false, not, Option, none, some, List,
  [], ◌∷◌, ◌++◌, ◌==◌, ltb, if◌then◌else◌,
}
use ha_wago.Base.Text.{Text, codes}
use ha_wago.Base.Outcome.{Outcome, ok, raise}
use ha_wago.Base.Hex.{hex}
use ha_wago.Modbus.{
  ModbusError, illegal_function, illegal_data_address, gateway_path_unavailable, gateway_target,
}
use ha_wago.Registers.{module_device_type, serial_words}
use ha_wago.Ipv4

abbrev pub baud_rates : List (ℕ × ℕ)
baud_rates =
    (1, 300)
    ∷ (2, 600)
    ∷ (3, 1200)
    ∷ (4, 2400)
    ∷ (5, 4800)
    ∷ (6, 9600)
    ∷ (7, 19200)
    ∷ (8, 38400)
    ∷ (9, 57600)
    ∷ (10, 115200)
    ∷ []

abbrev pub parities : List (ℕ × String)
parities = (1, "even") ∷ (2, "none") ∷ (3, "odd") ∷ []

abbrev pub ports : List (ℕ × String)
ports = (1, "rs232") ∷ []

abbrev pub hex_digits_per_word : ℕ
hex_digits_per_word = 4

unfoldable pub meaning {ℓ} : {T : Type ℓ} → List (ℕ × T) → ℕ → Option T
meaning [] code = none
meaning ((c, t) ∷ table) code = if c == code then some t else meaning table code

-- `_named`
unfoldable pub named {ℓ} : {T : Type ℓ} → List (ℕ × T) → Option ℕ → Option T
unfolding meaning
named table none = none
named table (some code) = meaning table code

decimal_digits : ℕ → ℕ → Text
decimal_digits zero n = (48 + n % 10) ∷ []
decimal_digits (suc fuel) n =
    let front = decimal_digits fuel (n / 10) in
    if ltb n 10 then (48 + n) ∷ [] else front ++ (48 + n % 10) ∷ []

-- Python's `str` of a number or `None`.
pub shown : Option ℕ → Text
unfolding decimal_digits
shown none = codes "None"
shown (some n) = decimal_digits n n

-- `str` of an `IPv4Address` or `None`.
pub shown_address : Option ℕ → Text
shown_address none = codes "None"
shown_address (some a) = Ipv4.format a

-- Python's `bool` of a number or `None`.
pub truth : Option ℕ → Bool
truth none = false
truth (some n) = not (n == 0)

-- The attributes of the three components after their update.
pub record Version : Type 0 where
  pub device_type : Option ℕ
  pub firmware_major : Option ℕ
  pub firmware_minor : Option ℕ
  pub firmware_build : Option ℕ
  pub bootloader_major : Option ℕ
  pub bootloader_minor : Option ℕ
  pub bootloader_build : Option ℕ
  pub serial_number : Option ℕ

pub record Serial : Type 0 where
  pub baud_rate_code : Option ℕ
  pub parity_code : Option ℕ
  pub port_code : Option ℕ
  pub timeout : Option ℕ

pub record Network : Type 0 where
  pub ip_address : Option ℕ
  pub netmask : Option ℕ
  pub gateway : Option ℕ
  pub dhcp : Option ℕ
  pub dns_server_1 : Option ℕ
  pub dns_server_2 : Option ℕ
  pub ntp : Option ℕ
  pub ntp_server_1 : Option ℕ
  pub ntp_server_2 : Option ℕ
  pub hostname : Option Text

-- The dictionary that `async_read` returns.
pub record Report : Type 0 where
  pub serial_number : Text
  pub firmware_version : Text
  pub bootloader_version : Text
  pub dhcp : Bool
  pub ip_address : Text
  pub netmask : Text
  pub gateway : Text
  pub dns_server_1 : Text
  pub dns_server_2 : Text
  pub ntp : Bool
  pub ntp_server_1 : Text
  pub ntp_server_2 : Text
  pub hostname : Option Text
  pub modbus_port : Option String
  pub baud_rate : Option ℕ
  pub parity : Option String
  pub timeout : Option ℕ

pub record ModuleUnit (S : Type 0) : Type 0 where
  pub update_version : S → Outcome ModbusError Version × S
  pub update_settings : S → Outcome ModbusError Serial × S
  pub update_network : S → Outcome ModbusError Network × S

-- `type_error` is Python formatting `None` as a hexadecimal number.
pub data ReadError : Type 0 where
  modbus_error : ModbusError → ReadError
  type_error : ReadError

-- `isinstance(err, NO_MODULE_ANSWERS)`
unfoldable pub no_module_answers : ModbusError → Bool
no_module_answers illegal_function = true
no_module_answers illegal_data_address = true
no_module_answers gateway_path_unavailable = true
no_module_answers gateway_target = true
no_module_answers _ = false

dotted : Option ℕ → Option ℕ → Option ℕ → Text
dotted major minor build = shown major ++ 46 ∷ (shown minor ++ 46 ∷ shown build)

unfoldable pub report : Version → Serial → Network → Outcome ReadError Report
unfolding dotted shown shown_address truth
report version settings network = elim version.serial_number [
  | none ↦ raise type_error
  | some serial ↦ ok (record {
    serial_number = hex (serial_words * hex_digits_per_word) serial;
    firmware_version = dotted version.firmware_major version.firmware_minor version.firmware_build;
    bootloader_version =
        dotted version.bootloader_major version.bootloader_minor version.bootloader_build;
    dhcp = truth network.dhcp;
    ip_address = shown_address network.ip_address;
    netmask = shown_address network.netmask;
    gateway = shown_address network.gateway;
    dns_server_1 = shown_address network.dns_server_1;
    dns_server_2 = shown_address network.dns_server_2;
    ntp = truth network.ntp;
    ntp_server_1 = shown_address network.ntp_server_1;
    ntp_server_2 = shown_address network.ntp_server_2;
    hostname = network.hostname;
    modbus_port = named ports settings.port_code;
    baud_rate = named baud_rates settings.baud_rate_code;
    parity = named parities settings.parity_code;
    timeout = settings.timeout;
  })
]

-- `version.device_type == MODULE_DEVICE_TYPE`
unfoldable pub is_module : Version → Bool
is_module version = elim version.device_type [
  | none ↦ false
  | some code ↦ code == module_device_type
]

some_report : Outcome ReadError Report → Outcome ReadError (Option Report)
some_report (ok r) = ok (some r)
some_report (raise e) = raise e

module _ {S : Type 0} (unit : ModuleUnit S) where
  -- The two blocks that are read after the module named itself.
  unfoldable pub read_blocks : Version → S → Outcome ReadError (Option Report) × S
  unfolding some_report
  read_blocks version s =
      let (settings_read, s1) = unit.update_settings s in
      elim settings_read [
        | raise e ↦ (raise (modbus_error e), s1)
        | ok settings ↦
            let (network_read, s2) = unit.update_network s1 in
            elim network_read [
              | raise e ↦ (raise (modbus_error e), s2)
              | ok network ↦ (some_report (report version settings network), s2)
            ]
      ]

  -- `WagoModule.async_read`
  unfoldable pub async_read : S → Outcome ReadError (Option Report) × S
  unfolding read_blocks
  async_read s =
      let (version_read, s1) = unit.update_version s in
      elim version_read [
        | raise e ↦ (if no_module_answers e then ok none else raise (modbus_error e), s1)
        | ok version ↦ if is_module version then read_blocks version s1 else (ok none, s1)
      ]
