-- ===== src/Discovery.antt =====
-- custom_components/wago_879/wago_879_api/discovery.py: the search for modules.
pub mod Replies
pub mod Search
mod Examples
use ha_wago.Base.{
  ℕ, zero, suc, ◌+◌, ◌*◌, ◌^◌, Bool, true, false, not, ◌&&◌, ◌||◌, Option, none, some, List, [],
  ◌∷◌, map, ltb, ◌==◌, if◌then◌else◌,
}
use ha_wago.Base.Lists.{length, take, drop, get_or, all}
use ha_wago.Base.Text.{Text, is_digit, is_letter, text_eq}
use ha_wago.Base.Outcome.{Outcome, ok, raise}
use ha_wago.Ipv4.{format}
use ha_wago.Addresses.{is_host_address}

abbrev pub reply_length : ℕ
reply_length = 32

abbrev pub browse_port : ℕ
browse_port = 20000

abbrev pub browse_attempts : ℕ
browse_attempts = 3

-- Seven bytes of 0xFF.
abbrev pub browse_request : List ℕ
browse_request = 255 ∷ 255 ∷ 255 ∷ 255 ∷ 255 ∷ 255 ∷ 255 ∷ []

pub record FoundModule : Type 0 where
  pub serial_number : Text
  pub host : Text

-- `data[first : last]`
abbrev pub slice : ℕ → ℕ → List ℕ → List ℕ
slice first count bytes = take count (drop first bytes)

-- `IPv4Address(bytes)`, of four bytes.
abbrev pub address_of_bytes : List ℕ → ℕ
address_of_bytes bytes =
    get_or bytes 0 0 * 2 ^ 24
    + get_or bytes 1 0 * 2 ^ 16
    + get_or bytes 2 0 * 2 ^ 8
    + get_or bytes 3 0

-- `bytes.decode("ascii")` fails at a byte of 128 or more.
unfoldable pub is_ascii : List ℕ → Bool
is_ascii = all (λ b. ltb b 128)

-- `str.isalnum()` of an ASCII text.
unfoldable pub is_alnum_text : Text → Bool
is_alnum_text [] = false
is_alnum_text (c ∷ s) = all (λ b. is_letter b || is_digit b) (c ∷ s)

unfoldable pub parse_reply : List ℕ → Option FoundModule
unfolding is_ascii is_alnum_text
parse_reply bytes =
    let serial = slice 20 12 bytes in
    let host = address_of_bytes (slice 12 4 bytes) in
    if not (length bytes == reply_length)
    then none
    else if not (is_ascii serial)
    then none
    else if not (is_alnum_text serial) || not (is_host_address host)
    then none
    else some (record { serial_number = serial; host = format host })

-- `_Replies.found`, by serial number in the order of the first reply of each.
abbrev pub Found : Type 0
Found = List (Text × FoundModule)

unfoldable pub store : Text → FoundModule → Found → Found
store serial found [] = (serial, found) ∷ []
store serial found ((s, m) ∷ rest) =
    if text_eq s serial then (serial, found) ∷ rest else (s, m) ∷ store serial found rest

abbrev pub received : Option FoundModule → Found → Found
received (some found) all_found = store found.serial_number found all_found
received none all_found = all_found

unfoldable pub datagram_received : List ℕ → Found → Found
datagram_received bytes = received (parse_reply bytes)

unfoldable pub values : Found → List FoundModule
values [] = []
values ((s, m) ∷ rest) = m ∷ values rest

-- What the search does to its socket, in order.
pub data Action : Type 0 where
  send : (payload : List ℕ) (address : Text) (port : ℕ) → Action
  sleep_gap sleep_wait close : Action

send_all : ℕ → List Text → List Action → List Action
send_all port [] rest = rest
send_all port (address ∷ addresses) rest =
    send browse_request address port ∷ send_all port addresses rest

attempts : ℕ → ℕ → List Text → List Action
attempts zero port addresses = sleep_wait ∷ close ∷ []
attempts (suc n) port addresses = send_all port addresses (sleep_gap ∷ attempts n port addresses)

-- What `async_browse` does once its socket is open.
unfoldable pub browse_actions : ℕ → List Text → List Action
unfolding send_all attempts
browse_actions port addresses = attempts browse_attempts port addresses

-- The modules found from the datagrams that arrived, in their order.
unfoldable pub collect : List (List ℕ) → Found → Found
collect [] found = found
collect (bytes ∷ rest) found = collect rest (datagram_received bytes found)

unfoldable pub browse_result : List (List ℕ) → List FoundModule
browse_result datagrams = values (collect datagrams [])
