-- ===== src/Entities/Examples.antt =====
-- The promises of the descriptions at fields of the meter.
use ha_wago.Base.{◌≡◌, refl, true, false, none, some, ◌++◌}
use ha_wago.Base.Text.{starts_with, ends_with, is_in}
use ha_wago.Base.Dict.{lookup}
use ha_wago.Registers.{field_names}
use ha_wago.Registers.Maps.{identity, measurements, energy}
use ha_wago.Entities.{
  Description, total_increasing, legacy_unique_ids, contains, energy_description,
  sensor_descriptions, each_measurement, each, kept_identity, status_description,
  identity_description, measurement_description, kind_of, in_quadrant, is_split_counter,
  is_directed,
}
use ha_wago.Entities.Fields.{
  described, find, described-legacy, described-gate, energy_description-state,
}

power_known : lookup "WagoWirkleistungGesamt" legacy_unique_ids ≡ some "active_power_total"
unfolding lookup
power_known = refl

described-legacy_example :
    (d : Description) × (find "active_power_total" described ≡ some d)
    × (d.populated_when_nonzero ≡ none)
    × (d.enabled_default ≡ true)
    × (d.diagnostic ≡ false)
described-legacy_example =
    described-legacy "WagoWirkleistungGesamt" "active_power_total" power_known

import_known : contains (field_names energy) "active_energy_import_t1" ≡ true
unfolding contains field_names
import_known = refl

energy_description-state_example :
    (energy_description "active_energy_import_t1").state_class ≡ some total_increasing
unfolding is_in starts_with
energy_description-state_example =
    energy_description-state "active_energy_import_t1" import_known refl

secondary_found :
    find "ct_ratio_secondary" described ≡ some (identity_description "ct_ratio_secondary")
unfolding described sensor_descriptions each_measurement each kept_identity status_description
    energy_description identity_description measurement_description kind_of contains in_quadrant
    is_split_counter is_directed starts_with ends_with is_in lookup field_names
secondary_found = refl

secondary_gate :
    (identity_description "ct_ratio_secondary").populated_when_nonzero ≡ some "ct_ratio_primary"
unfolding identity_description lookup
secondary_gate = refl

described-gate_example :
    contains (field_names identity ++ field_names measurements) "ct_ratio_primary" ≡ true
described-gate_example =
    described-gate "ct_ratio_secondary" "ct_ratio_primary"
      (identity_description "ct_ratio_secondary") secondary_found secondary_gate
