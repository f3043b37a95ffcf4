-- ===== src/Sensors/Legacy.antt =====
-- The sensors of the replaced YAML block are there on every meter.
use ha_wago.Base.{
  String, ◌≡◌, Bool, true, false, ◌||◌, none, some, List, [], ◌∷◌, ◌++◌, arith, Option-cases,
  Bool-cases, inl, inr,
}
use text.Mathlib.Text.{◌==◌ as str_eq}
use ha_wago.Base.Dict.{lookup}
use ha_wago.Entities.{Description, legacy_unique_ids}
use ha_wago.Entities.Fields.{described, find, described-legacy}
use ha_wago.Sensors.{
  Sources, SensorEntity, polled, static, coordinator_for, is_populated, entity_for, meter_entities,
  build_entities,
}

abbrev pub description_of : SensorEntity → Description
description_of (polled poller d serial) = d
description_of (static d serial) = d

-- Some sensor has the key.
pub has_key : String → List SensorEntity → Bool
has_key k [] = false
has_key k (e ∷ es) = str_eq (description_of e).key k || has_key k es

has_key-append :
    (k : String) (es fs : List SensorEntity) → has_key k es ≡ true → has_key k (es ++ fs) ≡ true
unfolding has_key
has_key-append k [] fs h = cc
has_key-append k (e ∷ es) fs h = ground (arith, has_key-append k es fs)

description_of-entity_for :
    (sources : Sources) (d : Description) → description_of (entity_for sources d) ≡ d
unfolding entity_for
description_of-entity_for sources d = elim (Option-cases (coordinator_for d.block)) [
  | inl e ↦ ground arith
  | inr (p, e) ↦ ground arith
]

has_key-meter_entities :
    (sources : Sources) (k : String) (ds : List Description) (d : Description)
    → find k ds ≡ some d
    → d.populated_when_nonzero ≡ none
    → has_key k (meter_entities sources ds) ≡ true
unfolding has_key meter_entities is_populated
has_key-meter_entities sources k [] d h n = cc
has_key-meter_entities sources k (c ∷ ds) d h n = elim (Bool-cases (str_eq c.key k)) [
  | inl b ↦ ground (arith, description_of-entity_for sources c)
  | inr b ↦
      let later = has_key-meter_entities sources k ds d (ground arith) n in
      elim (Bool-cases (is_populated sources c)) [ inl p ↦ ground arith | inr p ↦ ground arith ]
]

-- Whatever the meter reports and whatever module it is reached through, every sensor of the
-- replaced YAML block is one of the sensors that are built.
pub build_entities-legacy :
    (sources : Sources) (old field : String)
    → lookup old legacy_unique_ids ≡ some field
    → has_key field (build_entities sources described) ≡ true
unfolding build_entities
build_entities-legacy sources old field h =
    let (d, found, ungated, _, _) = described-legacy old field h in
    has_key-append field (meter_entities sources described) _
      (has_key-meter_entities sources field described d found ungated)
