-- ===== src/Sensors.antt =====
-- custom_components/wago_879/sensor.py: which sensors a meter gets, and what feeds them.
pub mod Legacy
mod Examples
use ha_wago.Base.{
  ℕ, String, Bool, true, false, not, ◌==◌, Option, none, some, List, [], ◌∷◌, ◌++◌, if◌then◌else◌,
}
use ha_wago.Base.Text.{Text, codes}
use ha_wago.Base.Int.{pos}
use ha_wago.Base.Dict.{Dict, lookup, merge}
use ha_wago.Python.{Float, finite, nan, infinite}
use ha_wago.Device.Meter.{Reading, missing, real, whole}
use ha_wago.Device.Module as Module
use ha_wago.Entities.{
  Block, measurements_block, energy_block, identity_block, module_block, Description,
  sensor_descriptions, module_sensor_descriptions,
}
use ha_wago.Entry.Setup.{Poller, measurements_poller, energy_poller}

-- What `build_entities` reads of the runtime data: `measured` is `measurements.data`.
pub record Sources : Type 0 where
  pub serial : Text
  pub identity : Dict Reading
  pub measured : Option (Dict Reading)
  pub module_report : Option Module.Report

-- `WagoRuntimeData.coordinator_for`
unfoldable pub coordinator_for : Block → Option Poller
coordinator_for measurements_block = some measurements_poller
coordinator_for energy_block = some energy_poller
coordinator_for identity_block = none
coordinator_for module_block = none

-- A `WagoPolledSensor` or a `WagoStaticSensor`, with the description and the serial number that
-- its unique id is made of.
pub data SensorEntity : Type 0 where
  polled : Poller → Description → Text → SensorEntity
  static : Description → Text → SensorEntity

-- `bool` of a value that was read, or of a key that is missing.
unfoldable pub is_true : Option Reading → Bool
is_true none = false
is_true (some missing) = false
is_true (some (whole n)) = not (n == 0)
is_true (some (real (finite (pos n) e))) = not (n == 0)
is_true (some (real other)) = true

or_empty : Option (Dict Reading) → Dict Reading
or_empty none = []
or_empty (some d) = d

-- `_is_populated`
unfoldable pub is_populated : Sources → Description → Bool
unfolding is_true or_empty
is_populated sources description = elim description.populated_when_nonzero [
  | none ↦ true
  | some gate ↦ is_true (lookup gate (merge sources.identity (or_empty sources.measured)))
]

unfoldable pub entity_for : Sources → Description → SensorEntity
unfolding coordinator_for
entity_for sources description = elim (coordinator_for description.block) [
  | none ↦ static description sources.serial
  | some poller ↦ polled poller description sources.serial
]

-- The loop over `SENSOR_DESCRIPTIONS`.
unfoldable pub meter_entities : Sources → List Description → List SensorEntity
meter_entities sources [] = []
meter_entities sources (d ∷ ds) =
    let rest = meter_entities sources ds in
    if is_populated sources d then entity_for sources d ∷ rest else rest

unfoldable pub module_entities : Text → List Description → List SensorEntity
module_entities serial [] = []
module_entities serial (d ∷ ds) = static d serial ∷ module_entities serial ds

-- `build_entities`, of the descriptions of the meter.
unfoldable pub build_entities : Sources → List Description → List SensorEntity
unfolding meter_entities module_entities
build_entities sources descriptions =
    meter_entities sources descriptions ++ elim sources.module_report [
      | none ↦ []
      | some report ↦ module_entities report.serial_number module_sensor_descriptions
    ]
