-- ===== src/ModuleSettings/Network.antt =====
-- What an accepted netmask, address and gateway are.
use ha_wago.Base.{
  ℕ, ◌^◌, ◌≤◌, ◌<◌, ◌≡◌, ◌≢◌, ◌↔◌, ◌⊎◌, inl, inr, sym, ap, true, not, ◌&&◌, Option, none, some,
  arith, Bool-cases, Option-cases,
}
use ha_wago.Base.Text.{Text, text_eq, text_eq_iff, text_eq_refl}
use ha_wago.Base.Outcome.{ok, guard, >>=-eq-ok, guard-eq-ok}
use ha_wago.Ipv4.{parse, format, mask_of, network_address, broadcast_address, in_network}
use ha_wago.Ipv4.Laws.{parse-format, parse-eq-some}
use ha_wago.Ipv4.Masks.{prefix_of-mask_of, format-mask_of-parse}
use ha_wago.Addresses.{is_host_address, IsHost, is_host_address_iff}
use ha_wago.ModuleSettings.{
  Settings, unset, Interface, address_number, canonical_prefix, checked_prefix, mask_prefix,
  interface, at_edge, check_gateway, check_network,
}

-- The text is an address's, in the one form that Python prints.
pub record IsAddress (t : Text) (a : ℕ) : Type 0 where
  pub shown : t ≡ format a
  pub below : a < 2 ^ 32

pub record IsNetmask (t : Text) (p : ℕ) : Type 0 where
  pub shown : t ≡ format (mask_of p)
  pub at_least : 1 ≤ p
  pub at_most : p ≤ 30

pub address_number-eq-ok : (t : Text) (a : ℕ) → address_number t ≡ ok a → IsAddress t a
unfolding address_number
address_number-eq-ok t a h = elim (Option-cases (parse t)) [
  | inl e ↦ cc
  | inr (b, e) ↦
      let (shown, below) = parse-eq-some t b e in
      let same : b ≡ a = ground arith in
      record { shown = rw same at shown; below = rw same at below }
]

pub address_number-IsAddress : (t : Text) (a : ℕ) → IsAddress t a → address_number t ≡ ok a
unfolding address_number
address_number-IsAddress t a h =
    let e : parse t ≡ some a = rw h.shown (parse-format a h.below) in ground arith

checked_prefix-eq-ok :
    (t : Text) (o : Option ℕ) (p : ℕ) → checked_prefix t o ≡ ok p → (o ≡ some p) × IsNetmask t p
unfolding checked_prefix canonical_prefix
checked_prefix-eq-ok t none p h = cc
checked_prefix-eq-ok t (some q) p h =
    let same : q ≡ p = ground arith in
    let shown : text_eq (format (mask_of q)) t ≡ true = ground arith in
    (
      ap some same,
      record {
        shown = rw (← same) (sym ((text_eq_iff _ _).0 shown));
        at_least = ground arith;
        at_most = ground arith;
      },
    )

checked_prefix-IsNetmask :
    (t : Text) (p : ℕ) → IsNetmask t p → checked_prefix t (mask_prefix (parse t)) ≡ ok p
unfolding checked_prefix canonical_prefix mask_prefix
checked_prefix-IsNetmask t p h =
    rw (format-mask_of-parse t p (omega arith) h.shown)
      (rw (prefix_of-mask_of p (omega arith)) (rw h.shown (rw text_eq_refl (ground arith))))

pub interface-eq-ok :
    (ip netmask : Text) (i : Interface)
    → interface ip netmask ≡ ok i
    → IsAddress ip i.ip × IsNetmask netmask i.prefix
unfolding interface
interface-eq-ok ip netmask i h =
    let (a, ea, h') = >>=-eq-ok (address_number ip) _ h in
    let (p, ep, e) = >>=-eq-ok (checked_prefix netmask (mask_prefix (parse netmask))) _ h' in
    let same_ip : a ≡ i.ip = ground arith in
    let same_prefix : p ≡ i.prefix = ground arith in
    (
      rw same_ip at (address_number-eq-ok ip a ea),
      rw same_prefix at ((checked_prefix-eq-ok netmask _ p ep).1),
    )

pub interface-IsNetmask :
    (ip netmask : Text) (a p : ℕ)
    → IsAddress ip a
    → IsNetmask netmask p
    → interface ip netmask ≡ ok (record { ip = a; prefix = p })
unfolding interface
interface-IsNetmask ip netmask a p ha hp =
    rw (address_number-IsAddress ip a ha) (rw (checked_prefix-IsNetmask netmask p hp))

-- A gateway that the host can use: another host of its network.
pub record IsGateway (i : Interface) (t : Text) (g : ℕ) : Type 0 where
  pub address : IsAddress t g
  pub is_host : IsHost g
  pub not_network : g ≢ network_address i.prefix i.ip
  pub not_broadcast : g ≢ broadcast_address i.prefix i.ip
  pub same_network : network_address i.prefix g ≡ network_address i.prefix i.ip
  pub not_self : g ≢ i.ip

abbrev pub HasGateway : Interface → Text → Type 0
HasGateway i t = (t ≡ unset) ⊎ ((g : ℕ) × IsGateway i t g)

pub record FitsNetwork (s : Settings) (i : Interface) : Type 0 where
  pub address : IsAddress s.ip_address i.ip
  pub netmask : IsNetmask s.netmask i.prefix
  pub is_host : IsHost i.ip
  pub not_network : i.ip ≢ network_address i.prefix i.ip
  pub not_broadcast : i.ip ≢ broadcast_address i.prefix i.ip
  pub gateway : HasGateway i s.gateway

check_gateway-eq-ok : (i : Interface) (t : Text) → check_gateway i t ≡ ok tt → HasGateway i t
unfolding check_gateway in_network
check_gateway-eq-ok i t h = elim (Bool-cases (text_eq t unset)) [
  | inl e ↦ inl ((text_eq_iff t unset).0 e)
  | inr e ↦
      let (g, eg, e') = >>=-eq-ok (address_number t) _ (rw e at h) in
      let b = guard-eq-ok _ _ e' in
      let address = address_number-eq-ok t g eg in
      inr (
        g,
        record {
          address = address;
          is_host = (is_host_address_iff g address.below).0 (ground arith);
          not_network = ground arith;
          not_broadcast = ground arith;
          same_network = ground arith;
          not_self = ground arith;
        },
      )
]

check_gateway-HasGateway : (i : Interface) (t : Text) → HasGateway i t → check_gateway i t ≡ ok tt
unfolding check_gateway in_network at_edge
check_gateway-HasGateway i t (inl e) = rw ((text_eq_iff t unset).1 e)
check_gateway-HasGateway i t (inr (g, h)) =
    let host = (is_host_address_iff g h.address.below).1 h.is_host in
    elim (Bool-cases (text_eq t unset)) [
      | inl e ↦ rw e
      | inr e ↦ rw (e, address_number-IsAddress t g h.address, host) (ground arith)
    ]

-- `_check_network` passes exactly where the fixed address is a host's, neither edge of its
-- network, under a netmask of 1 to 30 bits, and the gateway is unset or another such host of
-- that network.
pub check_network_iff :
    (s : Settings) → (check_network s ≡ ok tt) ↔ ((i : Interface) × FitsNetwork s i)
unfolding check_network at_edge
check_network_iff s = (forward, backward)
  where
    forward : check_network s ≡ ok tt → (i : Interface) × FitsNetwork s i
    forward h =
        let (i, ei, h') = >>=-eq-ok (interface s.ip_address s.netmask) _ h in
        let (_, eg, e) = >>=-eq-ok (guard (is_host_address i.ip && not (at_edge i i.ip)) _) _ h' in
        let (address, netmask) = interface-eq-ok s.ip_address s.netmask i ei in
        let b = guard-eq-ok _ _ eg in
        (
          i,
          record {
            address = address;
            netmask = netmask;
            is_host = (is_host_address_iff i.ip address.below).0 (ground arith);
            not_network = ground arith;
            not_broadcast = ground arith;
            gateway = check_gateway-eq-ok i s.gateway e;
          },
        )

    backward : (i : Interface) × FitsNetwork s i → check_network s ≡ ok tt
    backward (i, h) =
        let host = (is_host_address_iff i.ip h.address.below).1 h.is_host in
        rw (interface-IsNetmask s.ip_address s.netmask i.ip i.prefix h.address h.netmask)
          (rw host (rw (check_gateway-HasGateway i s.gateway h.gateway) (ground arith)))
