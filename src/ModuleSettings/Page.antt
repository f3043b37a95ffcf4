-- ===== src/ModuleSettings/Page.antt =====
-- The results of `module_settings`: what is written, and that nothing else leaves it.
use ha_wago.Base.{ℕ, ◌≡◌, ◌↔◌, inl, inr, ap, ◌∙◌, none, some, arith, Option-cases}
use ha_wago.Base.Text.{Text, strip}
use ha_wago.Base.Outcome.{ok, raise, >>=-eq-ok}
use ha_wago.Ipv4.{parse, format}
use ha_wago.Ipv4.Laws.{parse-eq-some}
use ha_wago.Python.{FloatText, Value, text_of, text_or}
use ha_wago.ModuleSettings.{
  refused, address_value_error, Checked, Form, Settings, unset, address, whole_number,
}
use ha_wago.ModuleSettings.Network.{IsAddress}
use ha_wago.ModuleSettings.Outcomes.{IsAllowed, check_changes_iff}
use ha_wago.ModuleSettings.Accept.{typed, check_changes, settings_of, caught, module_settings}

-- Every address is in the form that Python prints.
pub record IsTyped (s : Settings) : Type 0 where
  pub ip_address : (a : ℕ) × IsAddress s.ip_address a
  pub gateway : (a : ℕ) × IsAddress s.gateway a
  pub dns_server_1 : (a : ℕ) × IsAddress s.dns_server_1 a
  pub dns_server_2 : (a : ℕ) × IsAddress s.dns_server_2 a
  pub ntp_server_1 : (a : ℕ) × IsAddress s.ntp_server_1 a
  pub ntp_server_2 : (a : ℕ) × IsAddress s.ntp_server_2 a
  pub netmask : (a : ℕ) × IsAddress s.netmask a

address-IsAddress :
    (floats : FloatText) (v : Value) (t : Text) → address floats v ≡ ok t → (a : ℕ) × IsAddress t a
unfolding address
address-IsAddress floats v t h =
    elim (Option-cases (parse (text_or (strip (text_of floats v)) unset))) [
      | inl e ↦ cc
      | inr (a, e) ↦
          let shown : t ≡ format a = ground arith in
          (a, record { shown = shown; below = (parse-eq-some _ a e).1 })
    ]

pub typed-IsTyped :
    (floats : FloatText) (form : Form) (s : Settings) → typed floats form ≡ ok s → IsTyped s
unfolding typed
typed-IsTyped floats form s h =
    let (ip, e1, h1) = >>=-eq-ok (address floats form.ip_address) _ h in
    let (gw, e2, h2) = >>=-eq-ok (address floats form.gateway) _ h1 in
    let (d1, e3, h3) = >>=-eq-ok (address floats form.dns_server_1) _ h2 in
    let (d2, e4, h4) = >>=-eq-ok (address floats form.dns_server_2) _ h3 in
    let (n1, e5, h5) = >>=-eq-ok (address floats form.ntp_server_1) _ h4 in
    let (n2, e6, h6) = >>=-eq-ok (address floats form.ntp_server_2) _ h5 in
    let (nm, e7, h7) = >>=-eq-ok (address floats form.netmask) _ h6 in
    let (tm, e8, h8) = >>=-eq-ok (whole_number floats form.timeout) _ h7 in
    let at : (v : Value) (t u : Text) → address floats v ≡ ok t → t ≡ u → (a : ℕ) × IsAddress u a =
      λ v t u e p. rw p at (address-IsAddress floats v t e) in
    record {
      ip_address = at form.ip_address ip s.ip_address e1 (ground arith);
      gateway = at form.gateway gw s.gateway e2 (ground arith);
      dns_server_1 = at form.dns_server_1 d1 s.dns_server_1 e3 (ground arith);
      dns_server_2 = at form.dns_server_2 d2 s.dns_server_2 e4 (ground arith);
      ntp_server_1 = at form.ntp_server_1 n1 s.ntp_server_1 e5 (ground arith);
      ntp_server_2 = at form.ntp_server_2 n2 s.ntp_server_2 e6 (ground arith);
      netmask = at form.netmask nm s.netmask e7 (ground arith);
    }

caught_iff : (r : Checked Settings) (s : Settings) → (caught r ≡ ok (some s, none)) ↔ (r ≡ ok s)
unfolding caught
caught_iff (ok t) s = ground arith
caught_iff (raise (refused r)) s = ground arith
caught_iff (raise address_value_error) s = ground arith

settings_of_iff :
    (floats : FloatText) (form : Form) (current s : Settings)
    → (settings_of floats form current ≡ ok s)
      ↔ ((typed floats form ≡ ok s) × (check_changes current s ≡ ok tt))
unfolding settings_of
settings_of_iff floats form current s = (
  (λ h.
      let (t, e, h1) = >>=-eq-ok (typed floats form) _ h in
      let (_, c, h2) = >>=-eq-ok (check_changes current t) _ h1 in
      let same : t ≡ s = ground arith in (e ∙ ap ok same, rw same at c)),
  (λ (e, c). rw (e, c)),
)

-- The form is accepted with the settings `s` exactly where its values in the module's types are
-- `s`, and each of them is the one that the module holds or meets the rule of its field.
pub module_settings_iff :
    (floats : FloatText) (form : Form) (current s : Settings)
    → (module_settings floats form current ≡ ok (some s, none))
      ↔ ((typed floats form ≡ ok s) × IsAllowed current s)
unfolding module_settings
module_settings_iff floats form current s =
    let c = caught_iff (settings_of floats form current) s in
    let o = settings_of_iff floats form current s in
    let a = check_changes_iff current s in
    ((λ h. let (e, k) = o.0 (c.0 h) in (e, a.0 k)), (λ (e, k). c.1 (o.1 (e, a.1 k))))
