-- ===== src/Device/Examples.antt =====
-- Runs of the module and of the meter.
use ha_wago.Base.{
  ℕ, zero, suc, ◌≡◌, ◌↔◌, inl, refl, ap, String, true, none, some, List, [], ◌∷◌, arith,
  if◌then◌else◌,
}
use text.Mathlib.Text.{◌==◌ as str_eq}
use ha_wago.Base.Lists.{length}
use ha_wago.Base.Text.{Text, codes}
use ha_wago.Base.Int.{pos}
use ha_wago.Base.Outcome.{ok, raise}
use ha_wago.Base.Dict.{Dict, lookup, insert, merge}
use ha_wago.Base.Hex.{hex, hex_value}
use ha_wago.Python.{finite}
use ha_wago.Registers.{field_names}
use ha_wago.Registers.Maps.{identity, status, measurements}
use ha_wago.Modbus.{ModbusError, timed_out}
use ha_wago.Modbus.Memory.{Memory, memory_unit, memory_laws}
use ha_wago.Device.Write.{Change, timeout, ip_address, StringEncoder, async_write}
use ha_wago.Device.Write.Effect.{IsFilling}
use ha_wago.Device.Write.Promise.{IsPromised, async_write_promise}
use ha_wago.Device.Meter.{
  Reading, real, whole, Component, usable, values, MeterUnit, MeterError, check_identity, Meter,
  async_read_identity, async_update_measurements, is_finite,
}
use ha_wago.Device.Meter.Accepted.{async_read_identity_iff}
use ha_wago.Device.Meter.Identity.{
  IsWagoMeter, check_identity_iff, async_read_identity_outcomes, check_identity_injective,
}
use ha_wago.Device.Meter.Readings.{contains, async_update_measurements_lem, polls-finite}

pad : ℕ → Text → List ℕ
pad zero t = []
pad (suc n) [] = 0 ∷ pad n []
pad (suc n) (c ∷ t) = c ∷ pad n t

length-pad : (n : ℕ) (t : Text) → length (pad n t) ≡ n
unfolding pad
length-pad zero t = refl
length-pad (suc n) [] = ap suc (length-pad n [])
length-pad (suc n) (c ∷ t) = ap suc (length-pad n t)

abbrev padded : StringEncoder
padded t n = some (pad n t)

padded-IsFilling : IsFilling padded
padded-IsFilling t n words h = let e : pad n t ≡ words = ground arith in rw (← e) (length-pad n t)

abbrev some_changes : List Change
some_changes = timeout 500 ∷ ip_address (codes "10.0.0.5") ∷ []

abbrev blank : Memory
blank a = 7

async_write_promise_example :
    IsPromised memory_unit
      (λ memory a. memory a)
      memory_laws
      padded
      padded-IsFilling
      some_changes
      blank
      (async_write memory_unit padded some_changes blank).0
      (async_write memory_unit padded some_changes blank).1
async_write_promise_example =
    async_write_promise memory_unit (λ memory a. memory a) memory_laws padded padded-IsFilling
      some_changes blank

-- A meter of code 1111 that sends floats.
abbrev wago : Component
wago name =
    if str_eq name "meter_code"
    then whole 0x1111
    else if str_eq name "data_type"
    then whole 1
    else if str_eq name "serial_number"
    then whole 0x1A2B
    else real (finite (pos 230) 0)

wago-IsWagoMeter : IsWagoMeter wago 0x1A2B
wago-IsWagoMeter = record { code = inl refl; floats = refl; serial_number = refl }

abbrev answering : MeterUnit Unit
answering = record {
  update_identity = λ s. (ok wago, s);
  update_measurements = λ s. (ok wago, s);
  update_status = λ s. (ok wago, s);
  update_energy = λ s. (raise timed_out, s);
}

abbrev unread : Meter Unit
unread = record { link = tt; serial_number = none }

check_identity_iff_example :
    (check_identity wago ≡ ok (hex 8 0x1A2B))
    ↔ ((n : ℕ) × IsWagoMeter wago n × (hex 8 0x1A2B ≡ hex 8 n))
check_identity_iff_example = check_identity_iff wago (hex 8 0x1A2B)

wago_checked : check_identity wago ≡ ok (hex 8 0x1A2B)
wago_checked = (check_identity_iff wago _).1 (0x1A2B, wago-IsWagoMeter, refl)

async_read_identity_iff_example :
    (((d : Dict Reading) × ((async_read_identity answering unread).0 ≡ ok d)) ↔ (
      (component : Component) × (n : ℕ) × ((answering.update_identity tt).0 ≡ ok component)
      × IsWagoMeter component n))
    × ((component : Component) (d : Dict Reading)
        → (answering.update_identity tt).0 ≡ ok component
        → (async_read_identity answering unread).0 ≡ ok d
        → ((k : String)
            → lookup k d
              ≡ (if contains (field_names identity) k then some (usable (component k)) else none))
          × ((serial : Text) × ((async_read_identity answering unread).1.serial_number
                ≡ some serial)
              × (lookup "serial_number" d ≡ some (whole (hex_value 0 serial)))))
async_read_identity_iff_example = async_read_identity_iff answering unread

async_read_identity_outcomes_example :
    ((e : MeterError)
      → (async_read_identity answering unread).0 ≡ raise e
      → (async_read_identity answering unread).1.serial_number ≡ none)
    × ((d : Dict Reading)
        → (async_read_identity answering unread).0 ≡ ok d
        → (component : Component) × (n : ℕ) × ((answering.update_identity tt).0 ≡ ok component)
          × IsWagoMeter component n
          × ((async_read_identity answering unread).1.serial_number ≡ some (hex 8 n)))
async_read_identity_outcomes_example = async_read_identity_outcomes answering unread

check_identity_injective_example : wago "serial_number" ≡ wago "serial_number"
check_identity_injective_example =
    check_identity_injective wago wago (hex 8 0x1A2B) wago_checked wago_checked

async_update_measurements_lem_example :
    ((m s : Component)
      → (answering.update_measurements tt).0 ≡ ok m
      → (answering.update_status (answering.update_measurements tt).1).0 ≡ ok s
      → (d : Dict Reading) × ((async_update_measurements answering tt).0 ≡ ok d)
        × ((k : String)
            → lookup k d ≡ (
                if contains (field_names status) k
                then some (usable (s k))
                else if contains (field_names measurements) k
                then some (usable (m k))
                else none)))
    × ((e : ModbusError)
        → (answering.update_measurements tt).0 ≡ raise e
        → async_update_measurements answering tt ≡ (raise e, (answering.update_measurements tt).1))
    × ((m : Component) (e : ModbusError)
        → (answering.update_measurements tt).0 ≡ ok m
        → (answering.update_status (answering.update_measurements tt).1).0 ≡ raise e
        → (async_update_measurements answering tt).0 ≡ raise e)
async_update_measurements_lem_example = async_update_measurements_lem answering tt

polls-finite_example : is_finite (finite (pos 230) 0) ≡ true
unfolding async_update_measurements insert lookup values usable is_finite merge field_names
polls-finite_example = polls-finite answering tt _ "voltage_l1" (finite (pos 230) 0) (inl refl) refl
