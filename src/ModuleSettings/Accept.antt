-- ===== src/ModuleSettings/Accept.antt =====
-- `_settings` and `module_settings` of custom_components/wago_879/module_settings.py.
use ha_wago.Base.{Bool, true, false, not, ◌&&◌, ◌||◌, Option, none, some, ltb, leb, if◌then◌else◌}
use ha_wago.Base.Int.{ℤ, pos, negsuc, int_eq}
use ha_wago.Base.Text.{Text, text_eq}
use ha_wago.Base.Outcome.{Outcome, ok, raise, ◌>>=◌, ◌>>◌, guard}
use ha_wago.Python.{FloatText, truthy, text_of}
use ha_wago.Device.Write.{word_range}
use ha_wago.ModuleSettings.{
  Refused, invalid_timeout, refused, address_value_error, Checked, Form, Settings, unset, address,
  whole_number, check_server, check_hostname, interface, check_network,
}

-- The form's values in the module's types.
unfoldable pub typed : FloatText → Form → Checked Settings
typed floats form = do
  ip_address ← address floats form.ip_address
  gateway ← address floats form.gateway
  dns_server_1 ← address floats form.dns_server_1
  dns_server_2 ← address floats form.dns_server_2
  ntp_server_1 ← address floats form.ntp_server_1
  ntp_server_2 ← address floats form.ntp_server_2
  netmask ← address floats form.netmask
  timeout ← whole_number floats form.timeout
  ok (record {
    dhcp = truthy form.dhcp;
    ntp = truthy form.ntp;
    ip_address = ip_address;
    gateway = gateway;
    dns_server_1 = dns_server_1;
    dns_server_2 = dns_server_2;
    ntp_server_1 = ntp_server_1;
    ntp_server_2 = ntp_server_2;
    netmask = netmask;
    hostname = text_of floats form.hostname;
    timeout = timeout;
  })

abbrev pub when : Bool → Checked Unit → Checked Unit
when b check = if b then check else ok tt

abbrev pub differs : Text → Text → Bool
differs old new = not (text_eq old new)

abbrev pub bool_differs : Bool → Bool → Bool
bool_differs true b = not b
bool_differs false b = b

-- A timeout in `range(1, 0x10000)`.
unfoldable pub in_timeout_range : ℤ → Bool
in_timeout_range (pos n) = leb 1 n && ltb n word_range
in_timeout_range (negsuc n) = false

module _ (current settings : Settings) where
  -- Whether the user changed anything of `NETWORK_FIELDS`.
  unfoldable pub network_changed : Bool
  network_changed =
      bool_differs current.dhcp settings.dhcp
      || differs current.ip_address settings.ip_address
      || differs current.netmask settings.netmask
      || differs current.gateway settings.gateway

  unfoldable pub check_servers : Checked Unit
  check_servers = do
    when (differs current.dns_server_1 settings.dns_server_1) (check_server settings.dns_server_1)
    when (differs current.dns_server_2 settings.dns_server_2) (check_server settings.dns_server_2)
    when (differs current.ntp_server_1 settings.ntp_server_1) (check_server settings.ntp_server_1)
    when (differs current.ntp_server_2 settings.ntp_server_2) (check_server settings.ntp_server_2)

  -- The strict rules, which only what the user changed has to meet.
  unfoldable pub check_changes : Checked Unit
  check_changes = do
    check_servers
    when (differs current.hostname settings.hostname) (check_hostname settings.hostname)
    when (not (int_eq current.timeout settings.timeout))
        (guard (in_timeout_range settings.timeout) (refused invalid_timeout))
    when (differs current.ip_address settings.ip_address && not (text_eq settings.ip_address unset))
        (check_server settings.ip_address)
    when (differs current.netmask settings.netmask)
        (interface unset settings.netmask >>= λ _. ok tt)
    when (network_changed && not settings.dhcp) (check_network settings)

-- `_settings`
unfoldable pub settings_of : FloatText → Form → Settings → Checked Settings
settings_of floats form current = do
  settings ← typed floats form
  check_changes current settings
  ok settings

-- What leaves `module_settings` as an exception.
pub data Crash : Type 0 where
  crash : Crash

unfoldable pub caught : Checked Settings → Outcome Crash (Option Settings × Option Refused)
caught (ok settings) = ok (some settings, none)
caught (raise (refused r)) = ok (none, some r)
caught (raise address_value_error) = raise crash

unfoldable pub module_settings :
    FloatText → Form → Settings → Outcome Crash (Option Settings × Option Refused)
unfolding caught
module_settings floats form current = caught (settings_of floats form current)
