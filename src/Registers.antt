-- ===== src/Registers.antt =====
-- custom_components/wago_879/wago_879_api/registers.py: the register maps of the meter and of its
-- module. A component is the list of its fields, in the order of the class body.
pub mod Layout
pub mod Maps
mod Examples
use ha_wago.Base.{
  ℕ, zero, suc, ◌+◌, String, Bool, true, false, Option, none, some, List, [], ◌∷◌, leb,
  if◌then◌else◌,
}
use text.Mathlib.Text.{◌==◌ as str_eq}

-- `FloatField`, `NumberField`, `RawField`, `IPv4Field` and `StringField`.
pub data Kind : Type 0 where
  float number raw ipv4 string : Kind

pub record Field : Type 0 where
  pub name : String
  pub kind : Kind
  pub address : ℕ
  pub count : ℕ

abbrev pub Component : Type 0
Component = List Field

abbrev pub float_words : ℕ
float_words = 2

abbrev pub ipv4_words : ℕ
ipv4_words = 2

abbrev pub hostname_words : ℕ
hostname_words = 16

abbrev pub serial_words : ℕ
serial_words = 3

abbrev pub module_unit_id : ℕ
module_unit_id = 255

-- What the module reports as its device type.
abbrev pub module_device_type : ℕ
module_device_type = 330

abbrev pub module_settings_address : ℕ
module_settings_address = 0x0000

abbrev pub module_settings_words : ℕ
module_settings_words = 5

abbrev pub module_network_address : ℕ
module_network_address = 0x0064

abbrev pub module_network_words : ℕ
module_network_words = 32

abbrev pub module_store_command : ℕ
module_store_command = 0x03F2

abbrev pub module_apply_command : ℕ
module_apply_command = 0x03F1

abbrev pub field_at : String → Kind → ℕ → ℕ → Field
field_at name kind address count = record {
  name = name;
  kind = kind;
  address = address;
  count = count;
}

abbrev pub float_field : String → ℕ → Field
float_field name address = field_at name Kind.float address float_words

abbrev pub number_field : String → ℕ → Field
number_field name address = field_at name Kind.number address 1

abbrev pub ipv4_field : String → ℕ → Field
ipv4_field name address = field_at name Kind.ipv4 address ipv4_words

-- Python's stable `sorted(fields, key=address)`.
insert_field : Field → Component → Component
insert_field f [] = f ∷ []
insert_field f (g ∷ gs) = if leb f.address g.address then f ∷ g ∷ gs else g ∷ insert_field f gs

unfoldable pub sort_fields : Component → Component
unfolding insert_field
sort_fields [] = []
sort_fields (f ∷ fs) = insert_field f (sort_fields fs)

names_of : Component → List String
names_of [] = []
names_of (f ∷ fs) = f.name ∷ names_of fs

-- `_field_names`
unfoldable pub field_names : Component → List String
unfolding sort_fields names_of
field_names component = names_of (sort_fields component)

-- `address_of`; none where Python raises a `KeyError`.
unfoldable pub address_of : Component → String → Option ℕ
address_of [] name = none
address_of (f ∷ fs) name = if str_eq f.name name then some f.address else address_of fs name
