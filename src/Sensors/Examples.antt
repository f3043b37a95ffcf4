-- ===== src/Sensors/Examples.antt =====
-- A meter that left every register empty.
use ha_wago.Base.{◌≡◌, refl, true, none, some, []}
use ha_wago.Base.Text.{codes}
use ha_wago.Base.Dict.{lookup}
use ha_wago.Entities.{legacy_unique_ids}
use ha_wago.Entities.Fields.{described}
use ha_wago.Sensors.{Sources, build_entities}
use ha_wago.Sensors.Legacy.{has_key, build_entities-legacy}

abbrev silent : Sources
silent = record { serial = codes "00001A2B"; identity = []; measured = none; module_report = none }

voltage_known : lookup "WagoSpannungL1" legacy_unique_ids ≡ some "voltage_l1"
unfolding lookup
voltage_known = refl

build_entities-legacy_example : has_key "voltage_l1" (build_entities silent described) ≡ true
build_entities-legacy_example =
    build_entities-legacy silent "WagoSpannungL1" "voltage_l1" voltage_known
