-- ===== src/ModuleSettings/Safety.antt =====
-- Nothing but a refusal leaves the checks: the addresses that they read again were printed before.
use ha_wago.Base.{
  ℕ, ◌≡◌, ◌≢◌, ◌⊎◌, inl, inr, refl, Bool, true, false, not, ◌&&◌, Option, none, some, arith,
  Bool-cases,
}
use ha_wago.Base.Int.{int_eq}
use ha_wago.Base.Text.{Text, text_eq}
use ha_wago.Base.Outcome.{Outcome, ok, raise, ◌>>=◌, ◌>>◌, guard}
use ha_wago.Ipv4.{parse}
use ha_wago.Addresses.{is_host_address}
use ha_wago.Python.{FloatText, Value}
use ha_wago.ModuleSettings.{
  Refused, invalid_timeout, refused, address_value_error, Checked, Form, Settings, unset, Interface,
  check_network, check_server, check_hostname, check_gateway, checked_prefix, mask_prefix,
  interface, address, whole_number,
}
use ha_wago.ModuleSettings.Network.{IsAddress, address_number-IsAddress}
use ha_wago.ModuleSettings.Outcomes.{unset-IsAddress}
use ha_wago.ModuleSettings.Page.{IsTyped, typed-IsTyped}
use ha_wago.ModuleSettings.Accept.{
  typed, when, differs, in_timeout_range, network_changed, check_servers, check_changes,
  settings_of, Crash, caught, module_settings,
}

record IsSafe {A : Type 0} (m : Checked A) : Type 0 where
  no_crash : m ≢ raise address_value_error

ok-IsSafe : {A : Type 0} (a : A) → IsSafe (ok a)
ok-IsSafe a = record { no_crash = λ e. cc }

bind-IsSafe :
    {A B : Type 0} (m : Checked A) (f : A → Checked B)
    → IsSafe m
    → ((a : A) → m ≡ ok a → IsSafe (f a))
    → IsSafe (m >>= f)
bind-IsSafe (ok a) f h k = k a refl
bind-IsSafe (raise e) f h k = record { no_crash = λ p. h.no_crash (cc) }

then-IsSafe : (m k : Checked Unit) → IsSafe m → IsSafe k → IsSafe (m >> k)
then-IsSafe m k hm hk = bind-IsSafe m (λ _. k) hm (λ _ _. hk)

when-IsSafe : (b : Bool) (m : Checked Unit) → IsSafe m → IsSafe (when b m)
when-IsSafe true m h = h
when-IsSafe false m h = ok-IsSafe tt

guard-IsSafe : (b : Bool) (r : Refused) → IsSafe (guard b (refused r))
guard-IsSafe b r = record { no_crash = ground arith }

abbrev Printed : Text → Type 0
Printed t = (a : ℕ) × IsAddress t a

check_server-IsSafe : (t : Text) → Printed t → IsSafe (check_server t)
unfolding check_server
check_server-IsSafe t (a, h) = elim (Bool-cases (text_eq t unset)) [
  | inl e ↦ rw e (ok-IsSafe tt)
  | inr e ↦ rw (e, address_number-IsAddress t a h) (guard-IsSafe (is_host_address a) _)
]

checked_prefix-IsSafe : (t : Text) (o : Option ℕ) → IsSafe (checked_prefix t o)
unfolding checked_prefix
checked_prefix-IsSafe t none = record { no_crash = ground arith }
checked_prefix-IsSafe t (some p) = record { no_crash = ground arith }

interface-IsSafe : (t m : Text) → Printed t → IsSafe (interface t m)
unfolding interface
interface-IsSafe t m (a, h) = rw (address_number-IsAddress t a h) (
    bind-IsSafe (checked_prefix m (mask_prefix (parse m))) _ (checked_prefix-IsSafe m _)
      (λ _ _. ok-IsSafe _))

check_gateway-IsSafe : (i : Interface) (t : Text) → Printed t → IsSafe (check_gateway i t)
unfolding check_gateway
check_gateway-IsSafe i t (a, h) = elim (Bool-cases (text_eq t unset)) [
  | inl e ↦ rw e (ok-IsSafe tt)
  | inr e ↦ rw (e, address_number-IsAddress t a h) (guard-IsSafe _ _)
]

check_network-IsSafe :
    (s : Settings) → Printed s.ip_address → Printed s.gateway → IsSafe (check_network s)
unfolding check_network
check_network-IsSafe s ip gateway =
    bind-IsSafe (interface s.ip_address s.netmask) _ (interface-IsSafe s.ip_address s.netmask ip)
      (λ i _.
        then-IsSafe _ (check_gateway i s.gateway) (guard-IsSafe _ _)
          (check_gateway-IsSafe i s.gateway gateway))

check_servers-IsSafe : (current s : Settings) → IsTyped s → IsSafe (check_servers current s)
unfolding check_servers
check_servers-IsSafe current s h =
    then-IsSafe _ _ (when-IsSafe _ _ (check_server-IsSafe s.dns_server_1 h.dns_server_1)) (
      then-IsSafe _ _ (when-IsSafe _ _ (check_server-IsSafe s.dns_server_2 h.dns_server_2)) (
        then-IsSafe _ _ (when-IsSafe _ _ (check_server-IsSafe s.ntp_server_1 h.ntp_server_1))
          (when-IsSafe _ _ (check_server-IsSafe s.ntp_server_2 h.ntp_server_2))))

check_hostname-IsSafe : (t : Text) → IsSafe (check_hostname t)
unfolding check_hostname
check_hostname-IsSafe t = guard-IsSafe _ _

netmask-IsSafe : (t : Text) → IsSafe (◌>>=◌ {B = Unit {0}} (interface unset t) (λ _. ok tt))
netmask-IsSafe t =
    bind-IsSafe (interface unset t) _ (interface-IsSafe unset t (0, unset-IsAddress))
      (λ _ _. ok-IsSafe tt)

check_changes-IsSafe : (current s : Settings) → IsTyped s → IsSafe (check_changes current s)
unfolding check_changes
check_changes-IsSafe current s h = then-IsSafe _ _ (check_servers-IsSafe current s h) (
    then-IsSafe _ _
      (when-IsSafe (differs current.hostname s.hostname) _ (check_hostname-IsSafe s.hostname))
      (then-IsSafe _ _
        (when-IsSafe (not (int_eq current.timeout s.timeout)) _
          (guard-IsSafe (in_timeout_range s.timeout) invalid_timeout))
        (then-IsSafe _ _
          (when-IsSafe (differs current.ip_address s.ip_address && not (text_eq s.ip_address unset))
            _ (check_server-IsSafe s.ip_address h.ip_address))
          (then-IsSafe _ _
            (when-IsSafe (differs current.netmask s.netmask) _ (netmask-IsSafe s.netmask))
            (when-IsSafe (network_changed current s && not s.dhcp) _
              (check_network-IsSafe s h.ip_address h.gateway))))))

address-IsSafe : (floats : FloatText) (v : Value) → IsSafe (address floats v)
unfolding address
address-IsSafe floats v = record { no_crash = ground arith }

whole_number-IsSafe : (floats : FloatText) (v : Value) → IsSafe (whole_number floats v)
unfolding whole_number
whole_number-IsSafe floats v = record { no_crash = ground arith }

typed-IsSafe : (floats : FloatText) (form : Form) → IsSafe (typed floats form)
unfolding typed
typed-IsSafe floats form =
    let at = address-IsSafe floats in
    bind-IsSafe _ _ (at form.ip_address) λ _ _. bind-IsSafe _ _ (at form.gateway) λ _ _.
      bind-IsSafe _ _ (at form.dns_server_1) λ _ _. bind-IsSafe _ _ (at form.dns_server_2) λ _ _.
        bind-IsSafe _ _ (at form.ntp_server_1) λ _ _. bind-IsSafe _ _ (at form.ntp_server_2) λ _ _.
          bind-IsSafe _ _ (at form.netmask)
            λ _ _. bind-IsSafe _ _ (whole_number-IsSafe floats form.timeout) λ _ _. ok-IsSafe _

settings_of-IsSafe :
    (floats : FloatText) (form : Form) (current : Settings)
    → IsSafe (settings_of floats form current)
unfolding settings_of
settings_of-IsSafe floats form current = bind-IsSafe _ _ (typed-IsSafe floats form) λ s e.
    bind-IsSafe _ _ (check_changes-IsSafe current s (typed-IsTyped floats form s e))
      λ _ _. ok-IsSafe _

abbrev Returned : Outcome Crash (Option Settings × Option Refused) → Type 0
Returned r = ((s : Settings) × (r ≡ ok (some s, none))) ⊎ ((e : Refused) × (r ≡ ok (none, some e)))

caught-Returned : (r : Checked Settings) → IsSafe r → Returned (caught r)
unfolding caught
caught-Returned (ok s) h = inl (s, refl)
caught-Returned (raise (refused r)) h = inr (r, refl)
caught-Returned (raise address_value_error) h = absurd (h.no_crash refl)

-- Whatever the form sends and the module holds, `module_settings` returns: either settings and
-- no error, or an error and no settings. No other exception leaves it.
pub module_settings_total :
    (floats : FloatText) (form : Form) (current : Settings)
    → ((s : Settings) × (module_settings floats form current ≡ ok (some s, none)))
      ⊎ ((e : Refused) × (module_settings floats form current ≡ ok (none, some e)))
unfolding module_settings
module_settings_total floats form current =
    caught-Returned (settings_of floats form current) (settings_of-IsSafe floats form current)
