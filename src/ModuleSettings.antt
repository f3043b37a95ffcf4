-- ===== src/ModuleSettings.antt =====
-- custom_components/wago_879/module_settings.py: what the module settings form accepts. A raised
-- `_Refused` is `refused`; an `AddressValueError` that no handler catches is `address_value_error`.
pub mod Accept
pub mod Labels
pub mod Network
pub mod Outcomes
pub mod Page
pub mod Safety
mod Examples
use ha_wago.Base.{
  ℕ, suc, ◌-◌, ◌*◌, ◌≡◌, Bool, true, false, not, ◌&&◌, ◌||◌, Option, none, some, List, [], ◌∷◌, ltb,
  leb, ◌==◌, if◌then◌else◌,
}
use ha_wago.Base.Lists.{length}
use ha_wago.Base.Int.{ℤ, pos, negsuc, int_eq}
use ha_wago.Base.Text.{Text, codes, text_eq, strip, is_digit, is_letter}
use ha_wago.Base.Outcome.{Outcome, ok, raise, ◌>>=◌, ◌>>◌, guard}
use ha_wago.Registers.{hostname_words}
use ha_wago.Ipv4.{parse, format, prefix_of, mask_of, network_address, broadcast_address, in_network}
use ha_wago.Addresses.{is_host_address}
use ha_wago.Python.{
  Float, finite, Value, FloatText, is_integer, to_int, truthy, text_or, text_of, to_float,
}

pub data Refused : Type 0 where
  invalid_address not_a_whole_number invalid_hostname invalid_netmask gateway_outside_network
        invalid_timeout :
      Refused

pub data Error : Type 0 where
  refused : Refused → Error
  address_value_error : Error

abbrev pub Checked : Type 0 → Type 0
Checked A = Outcome Error A

-- The keys of the form, with the values that it sent.
pub record Form : Type 0 where
  pub dhcp : Value
  pub ntp : Value
  pub ip_address : Value
  pub gateway : Value
  pub dns_server_1 : Value
  pub dns_server_2 : Value
  pub ntp_server_1 : Value
  pub ntp_server_2 : Value
  pub netmask : Value
  pub hostname : Value
  pub timeout : Value

-- The same keys as the module reports them.
pub record Settings : Type 0 where
  pub dhcp : Bool
  pub ntp : Bool
  pub ip_address : Text
  pub gateway : Text
  pub dns_server_1 : Text
  pub dns_server_2 : Text
  pub ntp_server_1 : Text
  pub ntp_server_2 : Text
  pub netmask : Text
  pub hostname : Text
  pub timeout : ℤ

abbrev pub unset : Text
unset = codes "0.0.0.0"

abbrev pub hostname_max_length : ℕ
hostname_max_length = hostname_words * 2 - 1

-- `str(IPv4Address(..))` of what was typed, or of `UNSET` for nothing typed.
unfoldable pub address : FloatText → Value → Checked Text
address floats value = elim (parse (text_or (strip (text_of floats value)) unset)) [
  | some a ↦ ok (format a)
  | none ↦ raise (refused invalid_address)
]

unfoldable pub whole_number : FloatText → Value → Checked ℤ
whole_number floats value = elim (to_float floats value) [
  | some x ↦ if is_integer x then ok (to_int x) else raise (refused not_a_whole_number)
  | none ↦ raise (refused not_a_whole_number)
]

-- `IPv4Address(text)` where no handler stands around it.
unfoldable pub address_number : Text → Checked ℕ
address_number text = elim (parse text) [ some a ↦ ok a | none ↦ raise address_value_error ]

unfoldable pub check_server : Text → Checked Unit
unfolding address_number
check_server text =
    if text_eq text unset
    then ok tt
    else do a ← address_number text; guard (is_host_address a) (refused invalid_address)

is_alnum : ℕ → Bool
is_alnum c = is_letter c || is_digit c

-- What may follow inside a label; `ends` says whether the label may end here.
label_from : Bool → Text → Bool
label_from ends [] = ends
label_from ends (c ∷ s) = (is_alnum c || c == 45) && label_from (is_alnum c) s

-- `HOSTNAME.fullmatch`
unfoldable pub hostname_matches : Text → Bool
unfolding is_alnum label_from
hostname_matches [] = false
hostname_matches (c ∷ s) = is_alnum c && label_from true s

unfoldable pub check_hostname : Text → Checked Unit
check_hostname hostname =
    guard (leb (length hostname) hostname_max_length && hostname_matches hostname)
      (refused invalid_hostname)

pub record Interface : Type 0 where
  pub ip : ℕ
  pub prefix : ℕ

mask_prefix : Option ℕ → Option ℕ
mask_prefix (some m) = prefix_of m
mask_prefix none = none

-- `interface.netmask` printed is the netmask as typed, and the prefix is one of 1 to 30.
canonical_prefix : Text → ℕ → Bool
canonical_prefix netmask p = text_eq (format (mask_of p)) netmask && leb 1 p && leb p 30

checked_prefix : Text → Option ℕ → Checked ℕ
checked_prefix netmask none = raise (refused invalid_netmask)
checked_prefix netmask (some p) =
    if canonical_prefix netmask p then ok p else raise (refused invalid_netmask)

-- `_interface`, of the two settings that it reads.
unfoldable pub interface : Text → Text → Checked Interface
unfolding mask_prefix canonical_prefix checked_prefix
interface ip_address netmask = do
  ip ← address_number ip_address
  p ← checked_prefix netmask (mask_prefix (parse netmask))
  ok (record { ip = ip; prefix = p })

at_edge : Interface → ℕ → Bool
at_edge i a = a == network_address i.prefix i.ip || a == broadcast_address i.prefix i.ip

unfoldable pub check_gateway : Interface → Text → Checked Unit
unfolding at_edge
check_gateway i gateway = if text_eq gateway unset then ok tt else do
  g ← address_number gateway
  guard (is_host_address g && not (at_edge i g) && in_network i.prefix i.ip g && not (g == i.ip))
      (refused gateway_outside_network)

unfoldable pub check_network : Settings → Checked Unit
unfolding at_edge
check_network settings = do
  i ← interface settings.ip_address settings.netmask
  guard (is_host_address i.ip && not (at_edge i i.ip)) (refused invalid_address)
  check_gateway i settings.gateway
