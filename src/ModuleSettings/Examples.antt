-- ===== src/ModuleSettings/Examples.antt =====
-- A page opened on a module in 192.168.1.0/24, and what it makes of some input.
use ha_wago.Base.{◌≡◌, ◌↔◌, ◌⊎◌, true, false, none, some, arith}
use ha_wago.Base.Int.{pos}
use ha_wago.Base.Text.{codes}
use ha_wago.Base.Outcome.{ok}
use ha_wago.Addresses.{is_host_address, IsHost, is_host_address_iff}
use ha_wago.Python.{finite, absent, boolean, number, text, FloatText}
use ha_wago.ModuleSettings.{Refused, Form, Settings, Interface, check_network, check_hostname}
use ha_wago.ModuleSettings.Accept.{typed, module_settings}
use ha_wago.ModuleSettings.Outcomes.{IsAllowed}
use ha_wago.ModuleSettings.Labels.{IsHostname, check_hostname_iff}
use ha_wago.ModuleSettings.Network.{FitsNetwork, check_network_iff}
use ha_wago.ModuleSettings.Page.{module_settings_iff}
use ha_wago.ModuleSettings.Safety.{module_settings_total}

abbrev floats : FloatText
floats = record { parse_float = λ t. none; show_float = λ x. codes "1.5" }

abbrev current : Settings
current = record {
  dhcp = false;
  ntp = false;
  ip_address = codes "192.168.1.20";
  gateway = codes "192.168.1.1";
  dns_server_1 = codes "0.0.0.0";
  dns_server_2 = codes "0.0.0.0";
  ntp_server_1 = codes "0.0.0.0";
  ntp_server_2 = codes "0.0.0.0";
  netmask = codes "255.255.255.0";
  hostname = codes "wago-1";
  timeout = pos 500;
}

-- The user moves the module to 192.168.1.30.
abbrev moved : Settings
moved = record current { ip_address = codes "192.168.1.30" }

abbrev form : Form
form = record {
  dhcp = boolean false;
  ntp = absent;
  ip_address = text (codes " 192.168.1.30 ");
  gateway = text (codes "192.168.1.1");
  dns_server_1 = absent;
  dns_server_2 = text (codes "");
  ntp_server_1 = absent;
  ntp_server_2 = absent;
  netmask = text (codes "255.255.255.0");
  hostname = text (codes "wago-1");
  timeout = number (finite (pos 1000) 1);
}

module_settings_iff_example :
    (module_settings floats form current ≡ ok (some moved, none))
    ↔ ((typed floats form ≡ ok moved) × IsAllowed current moved)
module_settings_iff_example = module_settings_iff floats form current moved

module_settings_total_example :
    ((s : Settings) × (module_settings floats form current ≡ ok (some s, none)))
    ⊎ ((e : Refused) × (module_settings floats form current ≡ ok (none, some e)))
module_settings_total_example = module_settings_total floats form current

check_network_iff_example : (check_network moved ≡ ok tt) ↔ ((i : Interface) × FitsNetwork moved i)
check_network_iff_example = check_network_iff moved

check_hostname_iff_example : (check_hostname (codes "wago-1") ≡ ok tt) ↔ IsHostname (codes "wago-1")
check_hostname_iff_example = check_hostname_iff (codes "wago-1")

is_host_address_iff_example : (is_host_address 3232235806 ≡ true) ↔ IsHost 3232235806
is_host_address_iff_example = is_host_address_iff 3232235806 (omega arith)
