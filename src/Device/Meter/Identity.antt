-- ===== src/Device/Meter/Identity.antt =====
-- Which meters `async_read_identity` accepts, and the serial number that it keeps.
use ha_wago.Base.{ℕ, ◌≡◌, ◌⊎◌, ◌↔◌, inl, inr, refl, sym, ap, ◌∙◌, true, some, arith, Bool-cases}
use ha_wago.Base.Text.{Text}
use ha_wago.Base.Outcome.{Outcome, ok, raise}
use ha_wago.Base.Dict.{Dict}
use ha_wago.Base.Hex.{hex, hex_value, hex_value-hex}
use ha_wago.Modbus.{ModbusError}
use ha_wago.Device.Meter.{
  Reading, missing, real, whole, Component, usable, MeterUnit, MeterError, is_supported,
  sends_floats, serial_text, refuse_meter, check_identity, Meter, async_read_identity,
}

-- One of the three meter codes of the register map, set to send floats.
pub record IsWagoMeter (component : Component) (serial : ℕ) : Type 0 where
  pub code :
      (component "meter_code" ≡ whole 0x1111)
      ⊎ (component "meter_code" ≡ whole 0x1112)
      ⊎ (component "meter_code" ≡ whole 0x1113)
  pub floats : component "data_type" ≡ whole 1
  pub serial_number : component "serial_number" ≡ whole serial

is_supported_iff :
    (r : Reading)
    → (is_supported (usable r) ≡ true)
      ↔ ((r ≡ whole 0x1111) ⊎ (r ≡ whole 0x1112) ⊎ (r ≡ whole 0x1113))
unfolding is_supported usable
is_supported_iff missing = ground arith
is_supported_iff (real x) = ground arith
is_supported_iff (whole n) = ground arith

sends_floats_iff : (r : Reading) → (sends_floats (usable r) ≡ true) ↔ (r ≡ whole 1)
unfolding sends_floats usable
sends_floats_iff missing = ground arith
sends_floats_iff (real x) = ground arith
sends_floats_iff (whole n) = ground arith

serial_text_iff :
    (r : Reading) (t : Text)
    → (serial_text (usable r) ≡ ok t) ↔ ((n : ℕ) × (r ≡ whole n) × (t ≡ hex 8 n))
unfolding serial_text usable
serial_text_iff missing t = ((λ h. cc), (λ (n, p, q). cc))
serial_text_iff (real x) t = ((λ h. absurd (ground arith)), (λ (n, p, q). cc))
serial_text_iff (whole n) t = ((λ h. (n, refl, ground arith)), (λ (m, p, q). ground arith))

refuse_meter-not_ok : (r : Reading) (t : Text) → ¬ (refuse_meter r ≡ ok t)
unfolding refuse_meter
refuse_meter-not_ok missing t = ground arith
refuse_meter-not_ok (real x) t = ground arith
refuse_meter-not_ok (whole n) t = ground arith

-- The identity is accepted exactly where the block holds one of the three meter codes, the data
-- type of floats and a serial number, and the serial kept is that number in eight or more
-- hexadecimal digits.
pub check_identity_iff :
    (component : Component) (t : Text)
    → (check_identity component ≡ ok t) ↔ ((n : ℕ) × IsWagoMeter component n × (t ≡ hex 8 n))
unfolding check_identity
check_identity_iff component t =
    let m = is_supported_iff (component "meter_code") in
    let d = sends_floats_iff (component "data_type") in
    let s = serial_text_iff (component "serial_number") t in
    (
      (λ h. elim (Bool-cases (is_supported (usable (component "meter_code")))) [
        | inr no_code ↦
            absurd
              (refuse_meter-not_ok (usable (component "meter_code")) t (ground (arith, no_code, h)))
        | inl code ↦ elim (Bool-cases (sends_floats (usable (component "data_type")))) [
          | inr no_floats ↦ absurd (ground arith)
          | inl floats ↦
              let (n, e, shown) = s.0 (ground arith) in
              (n, record { code = m.0 code; floats = d.0 floats; serial_number = e }, shown)
        ]
      ]),
      (λ (n, h, shown). rw (m.1 h.code, d.1 h.floats) (s.1 (n, h.serial_number, shown))),
    )

module _ {S : Type 0} (unit : MeterUnit S) (meter : Meter S) where
  -- However reading the identity ends: with an exception the serial number known before stays as
  -- it was, and without one the block was answered by a supported meter, whose serial is now kept.
  pub async_read_identity_outcomes :
      ((e : MeterError)
        → (async_read_identity unit meter).0 ≡ raise e
        → (async_read_identity unit meter).1.serial_number ≡ meter.serial_number)
      × ((d : Dict Reading)
          → (async_read_identity unit meter).0 ≡ ok d
          → (component : Component) × (n : ℕ) × ((unit.update_identity meter.link).0 ≡ ok component)
            × IsWagoMeter component n
            × ((async_read_identity unit meter).1.serial_number ≡ some (hex 8 n)))
  unfolding async_read_identity
  async_read_identity_outcomes =
      ((λ e h. ground arith), (λ d h. accepted (unit.update_identity meter.link).0 refl d h))
    where
      accepted :
          (r : Outcome ModbusError Component)
          → (unit.update_identity meter.link).0 ≡ r
          → (d : Dict Reading) → (async_read_identity unit meter).0 ≡ ok d
          → (component : Component) × (n : ℕ) × ((unit.update_identity meter.link).0 ≡ ok component)
            × IsWagoMeter component n
            × ((async_read_identity unit meter).1.serial_number ≡ some (hex 8 n))
      accepted (raise x) e d h = absurd (ground arith)
      accepted (ok component) e d h = by_check (check_identity component) refl
        where
          by_check :
              (c : Outcome MeterError Text)
              → check_identity component ≡ c
              → (component : Component) × (n : ℕ) × ((unit.update_identity meter.link).0
                  ≡ ok component)
                × IsWagoMeter component n
                × ((async_read_identity unit meter).1.serial_number ≡ some (hex 8 n))
          by_check (raise x) k = absurd (ground arith)
          by_check (ok t) k =
              let (n, is_meter, shown) = (check_identity_iff component t).0 k in
              (component, n, e, is_meter, ground arith)

-- Two blocks whose serial texts agree hold the same serial number.
pub check_identity_injective :
    (a b : Component) (t : Text)
    → check_identity a ≡ ok t
    → check_identity b ≡ ok t
    → a "serial_number" ≡ b "serial_number"
check_identity_injective a b t ha hb =
    let (n, is_a, shown_a) = (check_identity_iff a t).0 ha in
    let (m, is_b, shown_b) = (check_identity_iff b t).0 hb in
    let same : n ≡ m =
      sym (hex_value-hex 8 n) ∙ ap (hex_value 0) (sym shown_a ∙ shown_b) ∙ hex_value-hex 8 m in
    is_a.serial_number ∙ ap whole same ∙ sym is_b.serial_number
