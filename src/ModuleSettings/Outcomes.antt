-- ===== src/ModuleSettings/Outcomes.antt =====
-- What the page's check lets through.
use ha_wago.Base.{
  ℕ, ◌≤◌, ◌<◌, ◌≡◌, ◌↔◌, ◌⊎◌, inl, inr, refl, sym, Bool, true, false, not, ◌&&◌, arith, Bool-cases,
}
use ha_wago.Base.Int.{ℤ, pos, negsuc, int_eq, int_eq_iff}
use ha_wago.Base.Text.{Text, text_eq, text_eq_iff}
use ha_wago.Base.Outcome.{ok, ◌>>=◌, guard, >>=-eq-ok, guard-eq-ok, >>_iff, guard_iff}
use ha_wago.Ipv4
use ha_wago.Addresses.{IsHost, is_host_address_iff}
use ha_wago.ModuleSettings.{
  invalid_timeout, Error, refused, Checked, Settings, unset, Interface, check_network, check_server,
  check_hostname, address_number, interface,
}
use ha_wago.ModuleSettings.Labels.{IsHostname, check_hostname_iff}
use ha_wago.ModuleSettings.Network.{
  IsAddress, IsNetmask, FitsNetwork, check_network_iff, interface-eq-ok, interface-IsNetmask,
  address_number-eq-ok, address_number-IsAddress,
}
use ha_wago.ModuleSettings.Accept.{
  when, differs, in_timeout_range, network_changed, check_servers, check_changes,
}

-- A server, or nothing in its place.
abbrev pub IsServer : Text → Type 0
IsServer t = (t ≡ unset) ⊎ ((a : ℕ) × IsAddress t a × IsHost a)

check_server_iff : (t : Text) → (check_server t ≡ ok tt) ↔ IsServer t
unfolding check_server
check_server_iff t = elim (Bool-cases (text_eq t unset)) [
  | inl e ↦ ((λ h. inl ((text_eq_iff t unset).0 e)), (λ h. rw e))
  | inr e ↦ (
    (λ h.
        let (a, ea, e') = >>=-eq-ok (address_number t) _ (rw e at h) in
        let known = address_number-eq-ok t a ea in
        inr (a, known, (is_host_address_iff a known.below).0 (guard-eq-ok _ _ e'))),
    (λ h. elim h [
      | inl u ↦ rw ((text_eq_iff t unset).1 u)
      | inr (a, known, host) ↦
          rw (e, address_number-IsAddress t a known, (is_host_address_iff a known.below).1 host)
    ]),
  )
]

abbrev pub InTimeoutRange : ℤ → Type 0
InTimeoutRange (pos n) = (1 ≤ n) × (n < 65536)
InTimeoutRange (negsuc n) = ⊥

in_timeout_range_iff : (t : ℤ) → (in_timeout_range t ≡ true) ↔ InTimeoutRange t
unfolding in_timeout_range
in_timeout_range_iff (pos n) = ground arith
in_timeout_range_iff (negsuc n) = ground arith

module _ (current settings : Settings) where
  abbrev pub SameNetwork : Type 0
  SameNetwork =
      (settings.dhcp ≡ current.dhcp)
      × (settings.ip_address ≡ current.ip_address)
      × (settings.netmask ≡ current.netmask)
      × (settings.gateway ≡ current.gateway)

  -- Each value is the one that the module holds, or it meets the rule of its field.
  pub record IsAllowed : Type 0 where
    pub dns_server_1 :
        (settings.dns_server_1 ≡ current.dns_server_1) ⊎ IsServer settings.dns_server_1
    pub dns_server_2 :
        (settings.dns_server_2 ≡ current.dns_server_2) ⊎ IsServer settings.dns_server_2
    pub ntp_server_1 :
        (settings.ntp_server_1 ≡ current.ntp_server_1) ⊎ IsServer settings.ntp_server_1
    pub ntp_server_2 :
        (settings.ntp_server_2 ≡ current.ntp_server_2) ⊎ IsServer settings.ntp_server_2
    pub hostname : (settings.hostname ≡ current.hostname) ⊎ IsHostname settings.hostname
    pub timeout : (settings.timeout ≡ current.timeout) ⊎ InTimeoutRange settings.timeout
    pub ip_address : (settings.ip_address ≡ current.ip_address) ⊎ IsServer settings.ip_address
    pub netmask : (settings.netmask ≡ current.netmask) ⊎ ((p : ℕ) × IsNetmask settings.netmask p)
    pub network : SameNetwork ⊎ (settings.dhcp ≡ true) ⊎ ((i : Interface) × FitsNetwork settings i)

when_iff : (b : Bool) (m : Checked Unit) → (when b m ≡ ok tt) ↔ ((b ≡ false) ⊎ (m ≡ ok tt))
when_iff true m = ((λ h. inr h), (λ h. elim h [ inl e ↦ cc | inr e ↦ e ]))
when_iff false m = ((λ h. inl refl), (λ h. refl))

differs_iff : (old new : Text) → (differs old new ≡ false) ↔ (new ≡ old)
differs_iff old new = ground (arith, text_eq_iff old new)

-- A check that runs only where the text changed.
when_changed :
    (old new : Text) (m : Checked Unit) {P : Type 0}
    → (m ≡ ok tt) ↔ P
    → (when (differs old new) m ≡ ok tt) ↔ ((new ≡ old) ⊎ P)
when_changed old new m {P} e =
    let w = when_iff (differs old new) m in
    let d = differs_iff old new in
    (
      (λ h. elim (w.0 h) [ inl x ↦ inl (d.0 x) | inr x ↦ inr (e.0 x) ]),
      (λ h. elim h [ inl x ↦ w.1 (inl (d.1 x)) | inr x ↦ w.1 (inr (e.1 x)) ]),
    )

pub unset-IsAddress : IsAddress unset 0
unfolding Ipv4.format Ipv4.octet_text
unset-IsAddress = record { shown = refl; below = omega arith }

IsNetmask-iff :
    (t : Text)
    → (◌>>=◌ {B = Unit {0}} (interface unset t) (λ _. ok tt) ≡ ok tt) ↔ ((p : ℕ) × IsNetmask t p)
IsNetmask-iff t = (
  (λ h.
      let (i, ei, _) = >>=-eq-ok (interface unset t) _ h in
      (i.prefix, (interface-eq-ok unset t i ei).1)),
  (λ (p, hp). rw (interface-IsNetmask unset t 0 p unset-IsAddress hp)),
)

ip_address_iff :
    (old new : Text)
    → (when (differs old new && not (text_eq new unset)) (check_server new) ≡ ok tt)
      ↔ ((new ≡ old) ⊎ IsServer new)
ip_address_iff old new = elim (Bool-cases (text_eq new unset)) [
  | inl u ↦
      let is_unset = (text_eq_iff new unset).0 u in
      ((λ h. inr (inl is_unset)), (λ h. rw u (ground arith)))
  | inr u ↦
      let w = when_changed old new (check_server new) (check_server_iff new) in
      ((λ h. w.0 (ground arith)), (λ h. ground (arith, w.1 h)))
]

timeout_iff :
    (old new : ℤ) (e : Error)
    → (when (not (int_eq old new)) (guard (in_timeout_range new) e) ≡ ok tt)
      ↔ ((new ≡ old) ⊎ InTimeoutRange new)
timeout_iff old new e =
    let w = when_iff (not (int_eq old new)) (guard (in_timeout_range new) e) in
    let g = guard_iff (in_timeout_range new) e in
    let r = in_timeout_range_iff new in
    let q = int_eq_iff old new in
    (
      (λ h. elim (w.0 h) [ inl x ↦ inl (sym (q.0 (ground arith))) | inr x ↦ inr (r.0 (g.0 x)) ]),
      (λ h. elim h [ inl x ↦ w.1 (inl (rw (q.1 (sym x)))) | inr x ↦ w.1 (inr (g.1 (r.1 x))) ]),
    )

IsServer-iff :
    (old new : Text)
    → (when (differs old new) (check_server new) ≡ ok tt) ↔ ((new ≡ old) ⊎ IsServer new)
IsServer-iff old new = when_changed old new (check_server new) (check_server_iff new)

module _ (current settings : Settings) where
  network_changed_iff : (network_changed current settings ≡ false) ↔ SameNetwork current settings
  unfolding network_changed
  network_changed_iff = ground (
    arith,
    differs_iff current.ip_address settings.ip_address,
    differs_iff current.netmask settings.netmask,
    differs_iff current.gateway settings.gateway,
  )

  network_iff :
      (when (network_changed current settings && not settings.dhcp) (check_network settings)
        ≡ ok tt)
      ↔ (SameNetwork current settings
          ⊎ (settings.dhcp ≡ true)
          ⊎ ((i : Interface) × FitsNetwork settings i))
  network_iff =
      let w =
        when_iff (network_changed current settings && not settings.dhcp) (check_network settings) in
      let c = check_network_iff settings in
      let n = network_changed_iff in
      (
        (λ h. elim (w.0 h) [
          | inr x ↦ inr (inr (c.0 x))
          | inl x ↦ elim (Bool-cases (network_changed current settings)) [
            | inl changed ↦ inr (inl (ground arith))
            | inr same ↦ inl (n.0 same)
          ]
        ]),
        (λ h. elim h [
          | inl same ↦ w.1 (inl (rw (n.1 same)))
          | inr (inl dhcp) ↦ w.1 (inl (ground arith))
          | inr (inr fits) ↦ w.1 (inr (c.1 fits))
        ]),
      )

  -- The checks pass exactly where every value is unchanged or meets its rule.
  pub check_changes_iff : (check_changes current settings ≡ ok tt) ↔ IsAllowed current settings
  unfolding check_changes check_servers
  check_changes_iff = (forward, backward)
    where
      forward : check_changes current settings ≡ ok tt → IsAllowed current settings
      forward h =
          let (servers, h1) = (>>_iff (check_servers current settings) _).0 h in
          let (d1, s1) =
            (>>_iff
                (when (differs current.dns_server_1 settings.dns_server_1)
                  (check_server settings.dns_server_1))
                _).0
              servers in
          let (d2, s2) =
            (>>_iff
                (when (differs current.dns_server_2 settings.dns_server_2)
                  (check_server settings.dns_server_2))
                _).0
              s1 in
          let (n1, n2) =
            (>>_iff
                (when (differs current.ntp_server_1 settings.ntp_server_1)
                  (check_server settings.ntp_server_1))
                _).0
              s2 in
          let (name, h2) =
            (>>_iff
                (when (differs current.hostname settings.hostname)
                  (check_hostname settings.hostname))
                _).0
              h1 in
          let (time, h3) =
            (>>_iff
                (when (not (int_eq current.timeout settings.timeout))
                  (guard (in_timeout_range settings.timeout) (refused invalid_timeout)))
                _).0
              h2 in
          let (ip, h4) =
            (>>_iff
                (when
                  (differs current.ip_address settings.ip_address
                    && not (text_eq settings.ip_address unset))
                  (check_server settings.ip_address))
                _).0
              h3 in
          let (mask, net) =
            (>>_iff
                (when (differs current.netmask settings.netmask)
                  (interface unset settings.netmask >>= λ _. ok tt))
                _).0
              h4 in
          record {
            dns_server_1 = (IsServer-iff _ _).0 d1;
            dns_server_2 = (IsServer-iff _ _).0 d2;
            ntp_server_1 = (IsServer-iff _ _).0 n1;
            ntp_server_2 = (IsServer-iff _ _).0 n2;
            hostname = (when_changed _ _ _ (check_hostname_iff settings.hostname)).0 name;
            timeout = (timeout_iff _ _ _).0 time;
            ip_address = (ip_address_iff _ _).0 ip;
            netmask = (when_changed _ _ _ (IsNetmask-iff settings.netmask)).0 mask;
            network = network_iff.0 net;
          }

      backward : IsAllowed current settings → check_changes current settings ≡ ok tt
      backward h = rw (
        (IsServer-iff _ _).1 h.dns_server_1,
        (IsServer-iff _ _).1 h.dns_server_2,
        (IsServer-iff _ _).1 h.ntp_server_1,
        (IsServer-iff _ _).1 h.ntp_server_2,
        (when_changed _ _ _ (check_hostname_iff settings.hostname)).1 h.hostname,
        (timeout_iff _ _ (refused invalid_timeout)).1 h.timeout,
        (ip_address_iff _ _).1 h.ip_address,
        (when_changed _ _ _ (IsNetmask-iff settings.netmask)).1 h.netmask,
        network_iff.1 h.network,
      )
