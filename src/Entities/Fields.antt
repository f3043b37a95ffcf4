-- ===== src/Entities/Fields.antt =====
-- What the descriptions of the sensors promise, over the whole tables.
use ha_wago.Base.{
  ◌≡◌, String, refl, Bool, true, false, not, ◌&&◌, ◌||◌, Option, none, some, List, [], ◌∷◌, arith,
  if◌then◌else◌, Option-cases, Bool-cases, inl, inr, ◌++◌,
}
use text.Mathlib.Text.{◌==◌ as str_eq}
use text.Mathlib.TextEquality.{eq_iff}
use ha_wago.Base.Text.{codes, starts_with, ends_with, is_in}
use ha_wago.Base.Dict.{Dict, lookup}
use ha_wago.Registers.{field_names}
use ha_wago.Registers.Maps.{identity, measurements, energy}
use ha_wago.Entities.{
  Description, StateClass, total, total_increasing, legacy_unique_ids, measurement_description,
  kind_of, contains, in_quadrant, is_split_counter, is_directed, energy_description,
  identity_description, status_description, each, each_measurement, kept_identity,
  sensor_descriptions,
}

every : (Description → Bool) → List Description → Bool
every p [] = true
every p (d ∷ ds) = if p d then every p ds else false

every_name : (String → Bool) → List String → Bool
every_name p [] = true
every_name p (k ∷ ks) = if p k then every_name p ks else false

every_target : (String → Bool) → Dict String → Bool
every_target p [] = true
every_target p ((k, v) ∷ d) = if p v then every_target p d else false

-- The description of a key.
abbrev pub find : String → List Description → Option Description
find k [] = none
find k (d ∷ ds) = if str_eq d.key k then some d else find k ds

every-find :
    (p : Description → Bool) (k : String) (ds : List Description) (d : Description)
    → every p ds ≡ true
    → find k ds ≡ some d
    → p d ≡ true
unfolding every
every-find p k [] d h e = cc
every-find p k (c ∷ ds) d h e = ground (arith, every-find p k ds d)

every_name-contains :
    (p : String → Bool) (k : String) (ks : List String)
    → every_name p ks ≡ true
    → contains ks k ≡ true
    → p k ≡ true
unfolding every_name contains
every_name-contains p k [] h e = cc
every_name-contains p k (j ∷ ks) h e = ground (arith, eq_iff j k, every_name-contains p k ks)

every_target-lookup :
    (p : String → Bool) (d : Dict String) (k v : String)
    → every_target p d ≡ true
    → lookup k d ≡ some v
    → p v ≡ true
unfolding every_target lookup
every_target-lookup p [] k v h e = cc
every_target-lookup p ((j, w) ∷ d) k v h e = ground (arith, every_target-lookup p d k v)

-- `SENSOR_DESCRIPTIONS`, empty if there were none.
unfoldable pub described : List Description
unfolding sensor_descriptions
described = elim sensor_descriptions [ none ↦ [] | some ds ↦ ds ]

-- An entity for it exists whatever the meter reports, switched on and no diagnostic.
abbrev always_shown : Option Description → Bool
always_shown (some d) = elim d.populated_when_nonzero [
  | none ↦ d.enabled_default && not d.diagnostic
  | some gate ↦ false
]
always_shown none = false

always_shown_cases :
    (o : Option Description)
    → always_shown o ≡ true
    → (d : Description) × (o ≡ some d)
      × (d.populated_when_nonzero ≡ none)
      × (d.enabled_default ≡ true)
      × (d.diagnostic ≡ false)
always_shown_cases none h = cc
always_shown_cases (some d) h = elim (Option-cases d.populated_when_nonzero) [
  | inl e ↦ (d, refl, e, ground arith, ground arith)
  | inr (g, e) ↦ absurd (ground arith)
]

legacy_table : every_target (λ f. always_shown (find f described)) legacy_unique_ids ≡ true
unfolding every_target described sensor_descriptions each_measurement each kept_identity
    status_description energy_description identity_description measurement_description kind_of
    contains in_quadrant is_split_counter is_directed starts_with ends_with is_in lookup field_names
legacy_table = refl

-- Every sensor of the replaced YAML block has a description whose sensor exists on every meter,
-- enabled by default and not as a diagnostic.
pub described-legacy :
    (old field : String)
    → lookup old legacy_unique_ids ≡ some field
    → (d : Description) × (find field described ≡ some d)
      × (d.populated_when_nonzero ≡ none)
      × (d.enabled_default ≡ true)
      × (d.diagnostic ≡ false)
described-legacy old field h = always_shown_cases _ (
    every_target-lookup (λ f. always_shown (find f described)) legacy_unique_ids old field
      legacy_table h)

abbrev read_at_setup : List String
read_at_setup = field_names identity ++ field_names measurements

abbrev gate_is_read : Description → Bool
gate_is_read d = elim d.populated_when_nonzero [
  | none ↦ true
  | some gate ↦ contains read_at_setup gate
]

gate_table : every gate_is_read described ≡ true
unfolding every described sensor_descriptions each_measurement each kept_identity status_description
    energy_description identity_description measurement_description kind_of contains in_quadrant
    is_split_counter is_directed starts_with ends_with is_in lookup field_names
gate_table = refl

-- A sensor that exists only while another field is not zero waits for a field that the setup
-- reads: one of the identity or of the measurements.
pub described-gate :
    (k gate : String) (d : Description)
    → find k described ≡ some d
    → d.populated_when_nonzero ≡ some gate
    → contains (field_names identity ++ field_names measurements) gate ≡ true
described-gate k gate d h e = ground (arith, every-find gate_is_read k described d gate_table h)

-- The register holds a difference of the two directions, or a day's share.
abbrev pub is_net : String → Bool
is_net field =
    is_in (codes "_total") (codes field) || starts_with (codes "day_energy") (codes field)

abbrev pub class_is : StateClass → Option StateClass → Bool
class_is total_increasing (some total_increasing) = true
class_is total (some total) = true
class_is c o = false

abbrev increasing_or_net : String → Bool
increasing_or_net field =
    str_eq field "tariff"
    || (if is_net field
        then class_is total (energy_description field).state_class
        else class_is total_increasing (energy_description field).state_class)

energy_table : every_name increasing_or_net (field_names energy) ≡ true
unfolding every_name energy_description in_quadrant is_split_counter is_directed starts_with
    ends_with is_in field_names
energy_table = refl

class_is-some : (c : StateClass) (o : Option StateClass) → class_is c o ≡ true → o ≡ some c
class_is-some total_increasing (some total_increasing) h = refl
class_is-some total (some total) h = refl
class_is-some total (some total_increasing) h = cc
class_is-some total (some StateClass.measurement) h = cc
class_is-some total none h = cc
class_is-some total_increasing (some total) h = cc
class_is-some total_increasing (some StateClass.measurement) h = cc
class_is-some total_increasing none h = cc
class_is-some StateClass.measurement o h = cc

-- Every counter of the energy block, which leaves out only the tariff number, is a total that may
-- fall exactly if its name says `_total` or starts with `day_energy`; all others only rise.
pub energy_description-state :
    (field : String)
    → contains (field_names energy) field ≡ true
    → str_eq field "tariff" ≡ false
    → (energy_description field).state_class
      ≡ some (
          if is_in (codes "_total") (codes field) || starts_with (codes "day_energy") (codes field)
          then total
          else total_increasing)
energy_description-state field h e =
    let t = every_name-contains increasing_or_net field (field_names energy) energy_table h in
    elim (Bool-cases (is_net field)) [
      | inl b ↦ ground (arith, class_is-some total (energy_description field).state_class)
      | inr b ↦
          ground (arith, class_is-some total_increasing (energy_description field).state_class)
    ]
