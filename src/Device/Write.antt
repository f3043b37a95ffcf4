-- ===== src/Device/Write.antt =====
-- `WagoModule.async_write` and what it needs. The lock makes one call of it a single step, so the
-- model runs one call from the state of the link that it finds.
pub mod Splice
pub mod Effect
pub mod Changes
pub mod Promise
pub mod Answered
use ha_wago.Base.{
  ℕ, ◌+◌, ◌-◌, ◌/◌, ◌%◌, ◌≡◌, Bool, true, false, ◌&&◌, Option, none, some, List, [], ◌∷◌, ◌++◌, leb,
  ltb, ◌==◌, if◌then◌else◌,
}
use ha_wago.Base.Lists.{length, take, drop}
use ha_wago.Base.Text.{Text}
use ha_wago.Base.Outcome.{Outcome, ok, raise}
use ha_wago.Ipv4.{parse}
use ha_wago.Modbus.{ModbusError, ModbusUnit}
use ha_wago.Registers.{
  Field, module_settings_address, module_settings_words, module_network_address,
  module_network_words, module_store_command, module_apply_command,
}
use ha_wago.Registers.Maps.{
  timeout_field, ip_address_field, netmask_field, gateway_field, dhcp_field, dns_server_1_field,
  dns_server_2_field, ntp_server_1_field, ntp_server_2_field, hostname_field, ntp_field,
}

-- One entry of `changes`: a key of `WRITABLE_FIELDS` with its value.
pub data Change : Type 0 where
  timeout : ℕ → Change
  dhcp ntp : Bool → Change
  ip_address netmask gateway dns_server_1 dns_server_2 ntp_server_1 ntp_server_2 : Text → Change
  hostname : Text → Change

-- `WRITABLE_FIELDS[key]`
unfoldable pub field_of : Change → Field
field_of (timeout _) = timeout_field
field_of (dhcp _) = dhcp_field
field_of (ntp _) = ntp_field
field_of (ip_address _) = ip_address_field
field_of (netmask _) = netmask_field
field_of (gateway _) = gateway_field
field_of (dns_server_1 _) = dns_server_1_field
field_of (dns_server_2 _) = dns_server_2_field
field_of (ntp_server_1 _) = ntp_server_1_field
field_of (ntp_server_2 _) = ntp_server_2_field
field_of (hostname _) = hostname_field

pub data WriteError : Type 0 where
  modbus_error : ModbusError → WriteError
  module_not_applied value_error : WriteError

abbrev pub word_range : ℕ
word_range = 0x10000

-- The package's `encode_string`, none where it refuses the text.
abbrev pub StringEncoder : Type 0
StringEncoder = Text → ℕ → Option (List ℕ)

-- `divmod(int(IPv4Address(value)), WORD_RANGE)`
unfoldable pub encode_address : Text → Option (List ℕ)
encode_address value = elim (parse value) [
  | some a ↦ some (a / word_range ∷ a % word_range ∷ [])
  | none ↦ none
]

abbrev bit : Bool → ℕ
bit true = 1
bit false = 0

-- `_encode`, none for the exception of a value that does not fit its field.
unfoldable pub encode : StringEncoder → Change → Option (List ℕ)
unfolding encode_address
encode encode_string (timeout n) = some (n ∷ [])
encode encode_string (dhcp b) = some (bit b ∷ [])
encode encode_string (ntp b) = some (bit b ∷ [])
encode encode_string (ip_address t) = encode_address t
encode encode_string (netmask t) = encode_address t
encode encode_string (gateway t) = encode_address t
encode encode_string (dns_server_1 t) = encode_address t
encode encode_string (dns_server_2 t) = encode_address t
encode encode_string (ntp_server_1 t) = encode_address t
encode encode_string (ntp_server_2 t) = encode_address t
encode encode_string (hostname t) = encode_string t hostname_field.count

-- The blocks read, each under its first address.
abbrev pub Blocks : Type 0
Blocks = List (ℕ × List ℕ)

-- `max(address for address in blocks if address <= field.address)`
unfoldable pub block_start : ℕ → Blocks → ℕ
block_start address [] = 0
block_start address ((start, words) ∷ rest) =
    let best = block_start address rest in
    if leb start address && ltb best start then start else best

-- `words[offset : offset + count] = new`
unfoldable pub splice : List ℕ → ℕ → ℕ → List ℕ → List ℕ
splice words offset count new = take offset words ++ (new ++ drop (offset + count) words)

unfoldable pub update_block : ℕ → ℕ → ℕ → List ℕ → Blocks → Blocks
unfolding splice
update_block start offset count new [] = []
update_block start offset count new ((s, words) ∷ rest) =
    (s, if s == start then splice words offset count new else words)
    ∷ update_block start offset count new rest

-- One round of the loop over `changes`.
unfoldable pub change_block : StringEncoder → Change → Blocks → Option Blocks
change_block encode_string change blocks =
    let field = field_of change in
    let start = block_start field.address blocks in
    elim (encode encode_string change) [
      | some new ↦ some (update_block start (field.address - start) field.count new blocks)
      | none ↦ none
    ]

unfoldable pub change_blocks : StringEncoder → List Change → Blocks → Option Blocks
change_blocks encode_string [] blocks = some blocks
change_blocks encode_string (change ∷ changes) blocks =
    elim (change_block encode_string change blocks) [
      | some blocks' ↦ change_blocks encode_string changes blocks'
      | none ↦ none
    ]

-- Code that uses the link and may raise. What it did to the link before it raised stays done.
abbrev pub Io : Type 0 → Type 0 → Type 0
Io S A = S → Outcome WriteError A × S

module _ {S A : Type 0} where
  -- A call of the package.
  unfoldable pub send : (S → Outcome ModbusError A × S) → Io S A
  send call s =
      let (r, s') = call s in elim r [ ok a ↦ (ok a, s') | raise e ↦ (raise (modbus_error e), s') ]

  unfoldable pub fitting : Option A → Io S A
  fitting (some a) s = (ok a, s)
  fitting none s = (raise value_error, s)

module _ {S A B : Type 0} where
  unfoldable pub continue : Outcome WriteError A → (A → Io S B) → Io S B
  continue (ok a) f s = f a s
  continue (raise e) f s = (raise e, s)

  infixl 5 ◌>>=◌ ◌>>◌
  unfoldable pub ◌>>=◌ : Io S A → (A → Io S B) → Io S B
  unfolding continue
  ◌>>=◌ m f s = let (r, s') = m s in continue r f s'

  abbrev pub ◌>>◌ : Io S A → Io S B → Io S B
  m >> k = m >>= λ _. k

-- `except ModbusError as err: raise ModuleNotApplied from err`
unfoldable pub not_applied : {S : Type 0} → Io S Unit → Io S Unit
not_applied m s =
    let (r, s') = m s in
    elim r [ raise (modbus_error e) ↦ (raise module_not_applied, s') | other ↦ (other, s') ]

module _ {S : Type 0} (unit : ModbusUnit S) where
  -- `for start, words in blocks.items()`
  unfoldable pub write_blocks : Blocks → Io S Unit
  write_blocks [] s = (ok tt, s)
  write_blocks ((start, words) ∷ rest) s =
      (send (unit.write_registers start words) >> write_blocks rest) s

module _ {S : Type 0} (unit : ModbusUnit S) (encode_string : StringEncoder) where
  unfoldable pub async_write : List Change → Io S Unit
  async_write changes = do
    settings ← send (unit.read_holding_registers module_settings_address module_settings_words)
    network ← send (unit.read_holding_registers module_network_address module_network_words)
    blocks ← fitting (
        change_blocks encode_string changes
          ((module_settings_address, settings) ∷ (module_network_address, network) ∷ []))
    write_blocks unit blocks
    send (unit.write_register module_store_command 1)
    not_applied (send (unit.write_register module_apply_command 1))
