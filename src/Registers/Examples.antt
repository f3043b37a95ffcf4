-- ===== src/Registers/Examples.antt =====
-- The layout at one register each.
use ha_wago.Base.{◌≤◌, ◌≡◌, [], ◌∷◌, arith}
use ha_wago.Base.Lists.{length}
use ha_wago.Registers.{Field}
use ha_wago.Registers.Maps.{measurements, energy}
use ha_wago.Registers.Layout.{
  covering, meter_fields, length-covering-meter, covering-measurements, covering-energy,
}

length-covering-meter_example : length (covering meter_fields 0x6048) ≤ 1
length-covering-meter_example = length-covering-meter 0x6048

covering-measurements_example : (f : Field) × (covering measurements 0x5011 ≡ f ∷ [])
covering-measurements_example = covering-measurements 0x5011 (omega arith) (omega arith)

covering-energy_example : (f : Field) × (covering energy 0x6048 ≡ f ∷ [])
covering-energy_example = covering-energy 0x6048 (omega arith) (omega arith)
