-- ===== src/Device/Write/Effect.antt =====
-- What the loop over `changes` does to the two blocks.
use ha_wago.Base.{
  ℕ, ◌+◌, ◌-◌, ◌≤◌, ◌≡◌, ◌⊎◌, refl, ◌∙◌, none, some, List, [], ◌∷◌, arith, leb, if◌then◌else◌,
}
use ha_wago.Base.Lists.{length}
use ha_wago.Base.Text.{Text}
use ha_wago.Registers.{Field}
use ha_wago.Modbus.{overlay}
use ha_wago.Device.Write.{
  Change, timeout, dhcp, ntp, ip_address, netmask, gateway, dns_server_1, dns_server_2,
  ntp_server_1, ntp_server_2, hostname, StringEncoder, field_of, encode, encode_address, Blocks,
  block_start, splice, update_block,
}
use ha_wago.Device.Write.Splice.{length-splice, overlay-splice}

-- The registers after the changes, each word of a change at its field's address.
unfoldable pub after_changes : StringEncoder → List Change → (ℕ → ℕ) → ℕ → ℕ
after_changes enc [] memory = memory
after_changes enc (c ∷ cs) memory = elim (encode enc c) [
  | some words ↦ after_changes enc cs (overlay (field_of c).address words memory)
  | none ↦ memory
]

-- An encoded text fills the field that it is encoded for.
abbrev pub IsFilling : StringEncoder → Type 0
IsFilling enc = (t : Text) (n : ℕ) (words : List ℕ) → enc t n ≡ some words → length words ≡ n

module _ (enc : StringEncoder) (filling : IsFilling enc) where
  length-encode_address :
      (t : Text) (words : List ℕ) → encode_address t ≡ some words → length words ≡ 2
  unfolding encode_address
  length-encode_address t words h = ground arith

  pub length-encode :
      (c : Change) (words : List ℕ) → encode enc c ≡ some words → length words ≡ (field_of c).count
  unfolding encode field_of
  length-encode (timeout n) words h = ground arith
  length-encode (dhcp b) words h = ground arith
  length-encode (ntp b) words h = ground arith
  length-encode (ip_address t) words h = length-encode_address t words h
  length-encode (netmask t) words h = length-encode_address t words h
  length-encode (gateway t) words h = length-encode_address t words h
  length-encode (dns_server_1 t) words h = length-encode_address t words h
  length-encode (dns_server_2 t) words h = length-encode_address t words h
  length-encode (ntp_server_1 t) words h = length-encode_address t words h
  length-encode (ntp_server_2 t) words h = length-encode_address t words h
  length-encode (hostname t) words h = filling t 16 words h

-- Where a field stands: in the settings block of 5 words at 0, or in the network block of 32
-- words at 100.
abbrev pub IsPlaced : Field → Type 0
IsPlaced f = (f.address + f.count ≤ 5) ⊎ ((100 ≤ f.address) × (f.address - 100 + f.count ≤ 32))

pub field_of-IsPlaced : (c : Change) → IsPlaced (field_of c)
unfolding field_of
field_of-IsPlaced (timeout n) = omega arith
field_of-IsPlaced (dhcp b) = omega arith
field_of-IsPlaced (ntp b) = omega arith
field_of-IsPlaced (hostname t) = omega arith
field_of-IsPlaced (ip_address t) = omega arith
field_of-IsPlaced (netmask t) = omega arith
field_of-IsPlaced (gateway t) = omega arith
field_of-IsPlaced (dns_server_1 t) = omega arith
field_of-IsPlaced (dns_server_2 t) = omega arith
field_of-IsPlaced (ntp_server_1 t) = omega arith
field_of-IsPlaced (ntp_server_2 t) = omega arith

abbrev pub two : List ℕ → List ℕ → Blocks
two settings network = (0, settings) ∷ (100, network) ∷ []

pub block_start-two :
    (a : ℕ) (settings network : List ℕ)
    → block_start a (two settings network) ≡ (if leb 100 a then 100 else 0)
unfolding block_start
block_start-two a settings network = ground arith

-- The registers when both blocks are written over `memory`.
abbrev pub over : List ℕ → List ℕ → (ℕ → ℕ) → ℕ → ℕ
over settings network memory = overlay 0 settings (overlay 100 network memory)

-- The blocks after some changes: their lengths, and what writing them does.
pub record Changed (settings network : List ℕ) (effect : (ℕ → ℕ) → ℕ → ℕ) (blocks : Blocks)
    : Type 0 where
  pub new_settings : List ℕ
  pub new_network : List ℕ
  pub shape : blocks ≡ two new_settings new_network
  pub settings_words : length new_settings ≡ 5
  pub network_words : length new_network ≡ 32
  pub same_effect :
      (memory : ℕ → ℕ) (a : ℕ)
      → over new_settings new_network memory a ≡ effect (over settings network memory) a

module _ (settings network : List ℕ) (ls : length settings ≡ 5) (ln : length network ≡ 32) where
  pub update_settings :
      (address : ℕ) (words : List ℕ)
      → address + length words ≤ 5
      → Changed settings network
          (overlay address words)
          (update_block 0 (address - 0) (length words) words (two settings network))
  unfolding update_block
  update_settings address words h = record {
    new_settings = splice settings address (length words) words;
    new_network = network;
    shape = let e : address - 0 ≡ address = omega arith in rw e;
    settings_words = omega (arith, length-splice settings words address (omega arith));
    network_words = ln;
    same_effect = λ memory a.
        overlay-splice 0 address settings words (overlay 100 network memory) a (omega arith)
        ∙ ground arith;
  }

  pub update_network :
      (address : ℕ) (words : List ℕ)
      → 100 ≤ address
      → address - 100 + length words ≤ 32
      → Changed settings network
          (overlay address words)
          (update_block 100 (address - 100) (length words) words (two settings network))
  unfolding update_block
  update_network address words l h = record {
    new_settings = settings;
    new_network = splice network (address - 100) (length words) words;
    shape = refl;
    settings_words = ls;
    network_words = omega (arith, length-splice network words (address - 100) (omega arith));
    same_effect = λ memory a.
        let e : 100 + (address - 100) ≡ address = omega arith in
        let k = rw e at (overlay-splice 100 (address - 100) network words memory a (omega arith)) in
        ground (arith, k);
  }
