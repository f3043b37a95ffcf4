-- ===== src/Entry/Examples.antt =====
-- An entry of the meter 00001A2B, set up on a link that answers.
use ha_wago.Base.{ℕ, suc, ◌≡◌, ◌⊎◌, refl, false, Option, none, some, [], ◌∷◌, if◌then◌else◌}
use text.Mathlib.Text.{◌==◌ as str_eq}
use ha_wago.Base.Text.{Text, codes, text_eq}
use ha_wago.Base.Int.{pos}
use ha_wago.Base.Outcome.{ok, raise}
use ha_wago.Base.Action.{◌>>=◌}
use ha_wago.Base.Dict.{lookup, or_none}
use ha_wago.Base.Hex.{hex}
use ha_wago.Python.{finite}
use ha_wago.Modbus.{illegal_function, timed_out}
use ha_wago.Registers.{field_names}
use ha_wago.Registers.Maps.{identity}
use ha_wago.Device.Meter.{
  real, whole, Component, MeterUnit, values, usable, is_finite, check_identity, is_supported,
  sends_floats, async_read_identity,
}
use ha_wago.Device.Module.{ModuleUnit, async_read, no_module_answers}
use ha_wago.Entry.{number, string, Entry, setting, stored, stored_int, async_migrate_entry}
use ha_wago.Entry.Migration.{setting-async_migrate_entry}
use ha_wago.Entry.Setup.{
  Home, Runtime, host_of, check_serial, adopt_legacy, async_module, remove_stale, is_stale,
  read_identity, load, async_setup_entry,
}
use ha_wago.Entry.OtherMeter.{async_setup_entry-serial}
use ha_wago.Entry.Guarded.{IsApart, IsGuarded, async_setup_entry-IsGuarded}

abbrev wago : Component
wago name =
    if str_eq name "meter_code"
    then whole 0x1111
    else if str_eq name "data_type"
    then whole 1
    else if str_eq name "serial_number"
    then whole 0x1A2B
    else real (finite (pos 230) 0)

abbrev meter_unit : {S : Type 0} → MeterUnit S
meter_unit = record {
  update_identity = λ s. (ok wago, s);
  update_measurements = λ s. (ok wago, s);
  update_status = λ s. (ok wago, s);
  update_energy = λ s. (ok wago, s);
}

abbrev no_module : {S : Type 0} → ModuleUnit S
no_module = record {
  update_version = λ s. (raise illegal_function, s);
  update_settings = λ s. (raise timed_out, s);
  update_network = λ s. (raise timed_out, s);
}

abbrev home : Home Unit
home = record {
  delete_issue = λ s. s;
  create_issue = λ key s. s;
  update_title = λ title s. s;
  get_unit = λ port unit_id s. (ok tt, s);
  meter = λ unit_id. meter_unit;
  module_unit = no_module;
  adopt = λ serial s. (ok tt, s);
  rename = λ serial s. s;
  first_refresh = λ poller name seconds s. (ok tt, s);
  module_devices = λ s. [];
  get_or_create = λ report s. [];
  created = λ report s. s;
  remove_device = λ id s. s;
  forward = λ runtime s. s;
}

abbrev meter_entry : Text → Entry
meter_entry serial = record {
  title = codes "10.0.0.5";
  unique_id = some serial;
  data_of =
      ("host", string (codes "10.0.0.5"))
      ∷ ("port", number 502)
      ∷ ("measurement_interval", number 20)
      ∷ [];
  options = [];
  minor_version = 1;
}

abbrev no_int : Text → Option ℕ
no_int t = none

abbrev unchanged : Text → Text → Text
unchanged message host = message

setting-async_migrate_entry_example :
    setting no_int
      (async_migrate_entry (meter_entry (codes "00001A2B"))).1
      "measurement_interval"
      15
    ≡ setting no_int (meter_entry (codes "00001A2B")) "measurement_interval" 15
setting-async_migrate_entry_example =
    setting-async_migrate_entry no_int (meter_entry (codes "00001A2B")) "measurement_interval" 15

abbrev loaded : Runtime
loaded = record {
  serial = hex 8 0x1A2B;
  identity = values wago (field_names identity);
  module_report = none;
  module_device_id = none;
  has_module_api = false;
}

setup_loads :
    (async_setup_entry home no_int unchanged (meter_entry (hex 8 0x1A2B)) tt).0 ≡ ok loaded
unfolding async_setup_entry load check_serial adopt_legacy async_module remove_stale read_identity
    host_of setting stored stored_int lookup or_none ◌>>=◌ async_read_identity check_identity
    is_supported sends_floats usable is_finite async_read no_module_answers text_eq hex
setup_loads = refl

async_setup_entry-serial_example :
    ((meter_entry (hex 8 0x1A2B)).unique_id ≡ none)
    ⊎ ((meter_entry (hex 8 0x1A2B)).unique_id ≡ some loaded.serial)
async_setup_entry-serial_example =
    async_setup_entry-serial home no_int unchanged (meter_entry (hex 8 0x1A2B)) tt loaded
      setup_loads

-- The state counts the adoptions, renames, polls, devices and set up platforms.
abbrev counting : Home ℕ
counting = record {
  delete_issue = λ s. s;
  create_issue = λ key s. s;
  update_title = λ title s. s;
  get_unit = λ port unit_id s. (ok tt, s);
  meter = λ unit_id. meter_unit;
  module_unit = no_module;
  adopt = λ serial s. (ok tt, suc s);
  rename = λ serial s. suc s;
  first_refresh = λ poller name seconds s. (ok tt, suc s);
  module_devices = λ s. codes "879" ∷ [];
  get_or_create = λ report s. [];
  created = λ report s. suc s;
  remove_device = λ id s. suc s;
  forward = λ runtime s. suc s;
}

counting-IsApart : IsApart counting (λ s. s)
counting-IsApart = record {
  delete_issue = λ s. refl;
  update_title = λ title s. refl;
  get_unit = λ port unit_id s. refl;
  update_identity = λ unit_id s. refl;
}

-- Both endings are met: the entry's own meter counts to six, another one leaves the count.
own_meter : (async_setup_entry counting no_int unchanged (meter_entry (hex 8 0x1A2B)) 0).1 ≡ 6
unfolding async_setup_entry load check_serial adopt_legacy async_module remove_stale read_identity
    host_of setting stored stored_int lookup or_none ◌>>=◌ async_read_identity check_identity
    is_supported sends_floats usable is_finite async_read no_module_answers text_eq hex is_stale
own_meter = refl

other_meter : (async_setup_entry counting no_int unchanged (meter_entry (codes "00000001")) 0).1 ≡ 0
unfolding async_setup_entry load check_serial adopt_legacy async_module remove_stale read_identity
    host_of setting stored stored_int lookup or_none ◌>>=◌ async_read_identity check_identity
    is_supported sends_floats usable is_finite async_read no_module_answers text_eq hex is_stale
other_meter = refl

async_setup_entry-IsGuarded_example :
    IsGuarded counting no_int unchanged
      (meter_entry (codes "00000001"))
      (λ s. s)
      0
      (async_setup_entry counting no_int unchanged (meter_entry (codes "00000001")) 0)
async_setup_entry-IsGuarded_example =
    async_setup_entry-IsGuarded counting no_int unchanged (meter_entry (codes "00000001")) (λ s. s)
      counting-IsApart 0
