-- ===== src/Addresses.antt =====
-- custom_components/wago_879/wago_879_api/addresses.py
use ha_wago.Base.{
  ℕ, ◌+◌, ◌*◌, ◌/◌, ◌^◌, ◌≤◌, ◌<◌, ◌≡◌, ◌↔◌, ◌≢◌, Bool, true, not, ◌||◌, arith, ◌==◌,
}

-- 0.0.0.0/8
this_network : ℕ → Bool
this_network address = address / 2 ^ 24 == 0

-- `is_loopback`: 127.0.0.0/8
is_loopback : ℕ → Bool
is_loopback address = address / 2 ^ 24 == 127

-- `is_multicast`: 224.0.0.0/4
is_multicast : ℕ → Bool
is_multicast address = address / 2 ^ 28 == 14

-- `is_link_local`: 169.254.0.0/16
is_link_local : ℕ → Bool
is_link_local address = address / 2 ^ 16 == 169 * 256 + 254

-- `is_reserved`: 240.0.0.0/4
is_reserved : ℕ → Bool
is_reserved address = address / 2 ^ 28 == 15

unfoldable pub is_host_address : ℕ → Bool
unfolding this_network is_loopback is_multicast is_link_local is_reserved
is_host_address address = not (
    this_network address
    || is_loopback address
    || is_multicast address
    || is_link_local address
    || is_reserved address)

-- The addresses from 1.0.0.0 to 223.255.255.255 without 127.0.0.0/8 and 169.254.0.0/16.
pub record IsHost (address : ℕ) : Type 0 where
  pub above_this_network : 1 * 2 ^ 24 ≤ address
  pub below_multicast : address < 224 * 2 ^ 24
  pub no_loopback : address / 2 ^ 24 ≢ 127
  pub no_link_local : address / 2 ^ 16 ≢ 43518

-- Of the addresses of IPv4, `is_host_address` accepts exactly those from 1.0.0.0 to
-- 223.255.255.255 that lie neither in 127.0.0.0/8 nor in 169.254.0.0/16.
pub is_host_address_iff :
    (address : ℕ) → address < 2 ^ 32 → (is_host_address address ≡ true) ↔ IsHost address
unfolding is_host_address
is_host_address_iff address h = ground arith
