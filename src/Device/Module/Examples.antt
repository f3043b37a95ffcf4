-- ===== src/Device/Module/Examples.antt =====
-- A module that answers, and a gateway that is none.
use ha_wago.Base.{ℕ, ◌≡◌, ◌≢◌, ◌↔◌, ◌⊎◌, refl, none, some}
use ha_wago.Base.Text.{codes}
use ha_wago.Base.Outcome.{ok, raise}
use ha_wago.Base.Hex.{hex_value}
use ha_wago.Modbus.{
  ModbusError, illegal_function, illegal_data_address, gateway_path_unavailable, gateway_target,
}
use ha_wago.Device.Module.{
  Version, Serial, Network, Report, ModuleUnit, report, is_module, read_blocks, async_read,
}
use ha_wago.Device.Module.Absent.{async_read-none, async_read-some}

abbrev version : Version
version = record {
  device_type = some 330;
  firmware_major = some 1;
  firmware_minor = some 2;
  firmware_build = none;
  bootloader_major = some 1;
  bootloader_minor = some 0;
  bootloader_build = some 7;
  serial_number = some 0xABC;
}

abbrev serial : Serial
serial = record {
  baud_rate_code = some 10;
  parity_code = some 1;
  port_code = some 2;
  timeout = some 500;
}

abbrev network : Network
network = record {
  ip_address = some 3232235796;
  netmask = some 4294967040;
  gateway = some 3232235777;
  dhcp = some 0;
  dns_server_1 = some 0;
  dns_server_2 = some 0;
  ntp = some 1;
  ntp_server_1 = some 0;
  ntp_server_2 = some 0;
  hostname = some (codes "wago");
}

abbrev answering : ModuleUnit Unit
answering = record {
  update_version = λ s. (ok version, s);
  update_settings = λ s. (ok serial, s);
  update_network = λ s. (ok network, s);
}

abbrev refusing : ModuleUnit Unit
refusing = record {
  update_version = λ s. (raise illegal_function, s);
  update_settings = λ s. (ok serial, s);
  update_network = λ s. (ok network, s);
}

async_read-none_example : ((async_read refusing tt).0 ≡ ok none) ↔ (
    ((e : ModbusError) × ((refusing.update_version tt).0 ≡ raise e)
      × ((e ≡ illegal_function)
          ⊎ (e ≡ illegal_data_address)
          ⊎ (e ≡ gateway_path_unavailable)
          ⊎ (e ≡ gateway_target)))
    ⊎ ((v : Version) × ((refusing.update_version tt).0 ≡ ok v) × (v.device_type ≢ some 330)))
async_read-none_example = async_read-none refusing tt

-- The report of the module that answers, whatever it is.
answered : (m : Report) × ((async_read answering tt).0 ≡ ok (some m))
unfolding async_read is_module read_blocks report
answered = (_, refl)

async_read-some_example :
    (v : Version) × (n : ℕ) × ((answering.update_version tt).0 ≡ ok v)
    × (v.device_type ≡ some 330)
    × (v.serial_number ≡ some n)
    × (hex_value 0 answered.0.serial_number ≡ n)
async_read-some_example = async_read-some answering tt answered.0 answered.1
