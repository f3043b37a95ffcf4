-- ===== src/Flow/Runs.antt =====
-- A module and a meter that answer at one address, and the flows that reach them.
use ha_wago.Base.{ℕ, ◌≡◌, ◌⊎◌, refl, Bool, true, false, Option, none, some, [], ◌∷◌, if◌then◌else◌}
use text.Mathlib.Text.{◌==◌ as str_eq}
use ha_wago.Base.Int.{pos}
use ha_wago.Base.Text.{Text, codes, strip, is_space, any_space}
use ha_wago.Base.Hex.{hex}
use ha_wago.Base.Dict.{Dict, lookup}
use ha_wago.Base.Outcome.{Outcome, ok, raise}
use ha_wago.Modbus.{timed_out}
use ha_wago.Python as Python
use ha_wago.Python.{FloatText, finite, Value, number, to_float, is_integer, to_int}
use ha_wago.Device.Meter as Meter
use ha_wago.Device.Meter.{
  MeterUnit, Component, async_read_identity, check_identity, is_supported, sends_floats,
}
use ha_wago.Device.Module.{Version, Network, ModuleUnit}
use ha_wago.Discovery.{FoundModule}
use ha_wago.Entry as Entry
use ha_wago.Entry.{Stored, string}
use ha_wago.Entry.Setup.{device_name}
use ha_wago.Flow.{FlowEntry, entry_of, normalised_host, as_integers, convert}
use ha_wago.Flow.Moving.{Entries, move_entry}
use ha_wago.Flow.Probes.{Link, ProbeError, probe_serial}
use ha_wago.Flow.Following.{probed_of, Known, async_step_integration_discovery}
use ha_wago.Flow.Discovered.{IsDiscovered, async_step_integration_discovery_lem}
use ha_wago.Flow.Cache.{AllLasting, IsKept, MayChange, nothing, discovery-remembers}
use ha_wago.Flow.Adding.{
  Created, created, validate, is_configured, async_step_user, async_step_reconfigure,
}
use ha_wago.Flow.Reached.{IsReached}
use ha_wago.Flow.Added.{IsStored, async_step_user-created, async_step_reconfigure_lem}

abbrev version : Version
version = record {
  device_type = some 330;
  firmware_major = some 1;
  firmware_minor = some 2;
  firmware_build = none;
  bootloader_major = some 1;
  bootloader_minor = some 0;
  bootloader_build = some 7;
  serial_number = some 0xABC;
}

abbrev network : Network
network = record {
  ip_address = some 3232235807;
  netmask = some 4294967040;
  gateway = some 3232235777;
  dhcp = some 1;
  dns_server_1 = some 0;
  dns_server_2 = some 0;
  ntp = some 0;
  ntp_server_1 = some 0;
  ntp_server_2 = some 0;
  hostname = none;
}

-- Home Assistant with at most one entry, and what lies behind the link does not change.
abbrev World : Type 0
World = Option FlowEntry

abbrev module_answers : ModuleUnit World
module_answers = record {
  update_version = λ w. (ok version, w);
  update_settings = λ w. (
    ok (record {
      baud_rate_code = some 10;
      parity_code = some 1;
      port_code = some 2;
      timeout = some 500;
    }),
    w,
  );
  update_network = λ w. (ok network, w);
}

abbrev meter : Component
meter name =
    if str_eq name "meter_code"
    then Meter.whole 0x1112
    else if str_eq name "data_type"
    then Meter.whole 1
    else if str_eq name "serial_number"
    then Meter.whole 0x2B3C
    else Meter.missing

abbrev meter_answers : MeterUnit World
meter_answers = record {
  update_identity = λ w. (ok meter, w);
  update_measurements = λ w. (raise timed_out, w);
  update_status = λ w. (raise timed_out, w);
  update_energy = λ w. (raise timed_out, w);
}

abbrev link : Link World
link = record {
  temporary_unit = λ host port unit_id w. (ok tt, w);
  module_unit = λ host port. module_answers;
  meter_unit = λ host port unit_id. meter_answers;
}

abbrev entries : Entries World
entries = record {
  get_entry = λ entry_id w. w;
  update_entry = λ changed w. some changed;
  schedule_reload = λ entry_id w. w;
}

abbrev known : Known World
known = record {
  current_entries = λ w. elim w [ none ↦ [] | some entry ↦ entry ∷ [] ];
  in_progress = λ serial w. false;
  entry_for_unique_id = λ serial w. w;
  is_ignored = λ entry. false;
}

abbrev no_ipv6 : Text → Bool
no_ipv6 t = false

abbrev no_int : Text → Option ℕ
no_int t = none

abbrev found : FoundModule
found = record { serial_number = codes "000000000ABC"; host = codes "192.168.1.31" }

-- The entry has reached the module at another address.
abbrev entry : FlowEntry
entry = record {
  entry_id = codes "1";
  title = codes "192.168.1.20";
  unique_id = some (codes "00002B3C");
  data_of =
      ("host", string (codes "192.168.1.20"))
      ∷ ("port", Entry.number 502)
      ∷ ("unit_id", Entry.number 1)
      ∷ [];
  module_serial = some (codes "000000000ABC");
  has_listeners = true;
}

async_step_integration_discovery_lem_example :
    IsDiscovered entries known link no_ipv6 no_int found []
      (some entry)
      (async_step_integration_discovery entries known link no_ipv6 no_int found []
        (some entry)).world
async_step_integration_discovery_lem_example =
    async_step_integration_discovery_lem entries known link no_ipv6 no_int found [] (some entry)

discovery-remembers_example :
    AllLasting []
    × IsKept []
        (async_step_integration_discovery entries known link no_ipv6 no_int found [] none).probed
    × (((e : FlowEntry) × (entry_of (known.current_entries none) found ≡ some e))
        ⊎ ((r : Outcome ProbeError Text) × (probed_of found.serial_number [] ≡ some r))
        ⊎ MayChange (probe_serial link found.host Entry.default_port Entry.default_unit_id none).0
        ⊎ (probed_of found.serial_number
              (async_step_integration_discovery entries known link no_ipv6 no_int found []
                none).probed
            ≡ some (probe_serial link found.host Entry.default_port Entry.default_unit_id none).0))
discovery-remembers_example =
    discovery-remembers entries known link no_ipv6 no_int [] found none nothing

abbrev floats : FloatText
floats = record { parse_float = λ t. none; show_float = λ x. codes "1.5" }

abbrev form : Dict Value
form =
    ("host", Python.text (codes " 192.168.1.31 "))
    ∷ ("port", number (finite (pos 1004) 1))
    ∷ ("unit_id", number (finite (pos 1) 0))
    ∷ ("measurement_interval", number (finite (pos 30) 1))
    ∷ ("energy_interval", number (finite (pos 300) 0))
    ∷ []

abbrev added : Created
added = record {
  title = device_name (codes "00002B3C");
  unique_id = codes "00002B3C";
  data_of =
      ("host", string (codes "192.168.1.31"))
      ∷ ("port", Entry.number 502)
      ∷ ("unit_id", Entry.number 1)
      ∷ [];
  options = ("measurement_interval", Entry.number 15) ∷ ("energy_interval", Entry.number 300) ∷ [];
}

form_added : (async_step_user entries known link floats (some form) none).0 ≡ ok (created added)
unfolding async_step_user lookup normalised_host strip is_space any_space as_integers convert
    to_float is_integer to_int probe_serial async_read_identity check_identity is_supported
    sends_floats hex
form_added = refl

async_step_user-created_example :
    IsStored entries known link floats added.data_of added.unique_id none
    × (added.title ≡ device_name added.unique_id)
    × (is_configured entries known link floats added.unique_id
          (async_step_user entries known link floats (some form) none).1
        ≡ false)
async_step_user-created_example =
    async_step_user-created entries known link floats form none added form_added

async_step_reconfigure_lem_example :
    ((async_step_reconfigure entries known link floats entry (some form) (some entry)).1
      ≡ (validate entries known link floats form (some entry)).1)
    ⊎ ((values : Dict Stored) × (serial : Text) × (entry.unique_id ≡ some serial)
        × IsReached entries known link floats values serial (some entry)
        × ((async_step_reconfigure entries known link floats entry (some form) (some entry)).1
            ≡ (move_entry entries entry.entry_id entry.data_of values
                (validate entries known link floats form (some entry)).1).1))
async_step_reconfigure_lem_example =
    async_step_reconfigure_lem entries known link floats entry form (some entry)
