-- ===== src/Ipv4.antt =====
-- IPv4 addresses as Python's `ipaddress` reads and prints them, a number below 2 ^ 32 each, and
-- the masks and networks that `module_settings.py` asks it for.
pub mod Laws
pub mod Masks
use ha_wago.Base.{
  ℕ, zero, suc, ◌+◌, ◌-◌, ◌*◌, ◌/◌, ◌%◌, ◌^◌, Bool, true, false, not, ◌&&◌, ◌||◌, Option, none,
  some, List, [], ◌∷◌, ◌++◌, map, ltb, leb, ◌==◌, if◌then◌else◌,
}
use ha_wago.Base.Text.{Text, is_digit, split_on}

abbrev pub address_limit : ℕ
address_limit = 2 ^ 32

-- `str` of a number below 256.
unfoldable pub octet_text : ℕ → Text
octet_text n =
    if ltb n 10
    then (48 + n) ∷ []
    else if ltb n 100
    then (48 + n / 10) ∷ (48 + n % 10) ∷ []
    else (48 + n / 100) ∷ (48 + n / 10 % 10) ∷ (48 + n % 10) ∷ []

-- One part of a dotted address: one to three digits, no leading zero, at most 255.
unfoldable pub octet : Text → Option ℕ
octet (a ∷ []) = if is_digit a then some (a - 48) else none
octet (a ∷ b ∷ []) =
    if is_digit a && is_digit b && not (a == 48) then some ((a - 48) * 10 + (b - 48)) else none
octet (a ∷ b ∷ c ∷ []) =
    let n = (a - 48) * 100 + (b - 48) * 10 + (c - 48) in
    if is_digit a && is_digit b && is_digit c && not (a == 48) && leb n 255 then some n else none
octet _ = none

abbrev pub dot : ℕ
dot = 46

-- `str(IPv4Address(a))`
unfoldable pub format : ℕ → Text
format a =
    octet_text (a / 2 ^ 24 % 256)
    ++ dot
      ∷ (octet_text (a / 2 ^ 16 % 256)
          ++ dot ∷ (octet_text (a / 2 ^ 8 % 256) ++ dot ∷ octet_text (a % 256)))

unfoldable pub from_octets : Option ℕ → Option ℕ → Option ℕ → Option ℕ → Option ℕ
from_octets (some a) (some b) (some c) (some d) = some (a * 2 ^ 24 + b * 2 ^ 16 + c * 2 ^ 8 + d)
from_octets _ _ _ _ = none

unfoldable pub from_parts : List Text → Option ℕ
unfolding octet from_octets
from_parts (a ∷ b ∷ c ∷ d ∷ []) = from_octets (octet a) (octet b) (octet c) (octet d)
from_parts _ = none

-- `int(IPv4Address(text))`, none for an `AddressValueError`.
unfoldable pub parse : Text → Option ℕ
unfolding from_parts
parse text = from_parts (split_on dot text)

-- The number with its first `p` bits of 32 set.
abbrev pub mask_of : ℕ → ℕ
mask_of p = 2 ^ 32 - 2 ^ (32 - p)

find_prefix : ℕ → ℕ → Option ℕ
find_prefix zero m = if m == mask_of 0 then some 0 else none
find_prefix (suc p) m =
    let rest = find_prefix p m in if m == mask_of (suc p) then some (suc p) else rest

or_else : Option ℕ → Option ℕ → Option ℕ
or_else (some p) other = some p
or_else none other = other

-- The prefix length of a netmask, or else of the host mask that the number is.
unfoldable pub prefix_of : ℕ → Option ℕ
unfolding find_prefix or_else
prefix_of m = or_else (find_prefix 32 m) (find_prefix 32 (2 ^ 32 - 1 - m))

-- The network address, the broadcast address, and membership, at a prefix length.
unfoldable pub network_address : ℕ → ℕ → ℕ
network_address p a = a / 2 ^ (32 - p) * 2 ^ (32 - p)

unfoldable pub broadcast_address : ℕ → ℕ → ℕ
unfolding network_address
broadcast_address p a = network_address p a + (2 ^ (32 - p) - 1)

unfoldable pub in_network : ℕ → ℕ → ℕ → Bool
unfolding network_address
in_network p a b = network_address p b == network_address p a
