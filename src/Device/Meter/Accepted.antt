-- ===== src/Device/Meter/Accepted.antt =====
-- What `async_read_identity` returns, and the serial number that it keeps beside it.
use ha_wago.Base.{ℕ, ◌≡◌, ◌↔◌, ◌∙◌, inl, inr, refl, String, none, some, arith, if◌then◌else◌}
use ha_wago.Base.Text.{Text}
use ha_wago.Base.Outcome.{ok, Outcome-cases}
use ha_wago.Base.Dict.{Dict, lookup}
use ha_wago.Base.Hex.{hex, hex_value, hex_value-hex}
use ha_wago.Registers.{field_names}
use ha_wago.Registers.Maps.{identity}
use ha_wago.Device.Meter.{
  Reading, whole, Component, usable, values, MeterUnit, Meter, check_identity, async_read_identity,
}
use ha_wago.Device.Meter.Identity.{IsWagoMeter, check_identity_iff, async_read_identity_outcomes}
use ha_wago.Device.Meter.Readings.{contains, lookup-values}

-- The value of the serial number among the values of the identity block.
serial_returned :
    (component : Component) (n : ℕ)
    → IsWagoMeter component n
    → lookup "serial_number" (values component (field_names identity))
      ≡ some (whole (hex_value 0 (hex 8 n)))
unfolding contains usable field_names
serial_returned component n h =
    lookup-values component (field_names identity) "serial_number"
    ∙ rw (h.serial_number, hex_value-hex 8 n) refl

module _ {S : Type 0} (unit : MeterUnit S) (meter : Meter S) where
  answered_values :
      (component : Component) (d : Dict Reading)
      → (unit.update_identity meter.link).0 ≡ ok component
      → (async_read_identity unit meter).0 ≡ ok d
      → d ≡ values component (field_names identity)
  unfolding async_read_identity
  answered_values component d e h = elim (Outcome-cases (check_identity component)) [
    | inl (t, k) ↦ ground (arith, e, k, h)
    | inr (x, k) ↦ absurd (ground (arith, e, k, h))
  ]

  accepted :
      (component : Component) (n : ℕ)
      → (unit.update_identity meter.link).0 ≡ ok component
      → IsWagoMeter component n
      → (async_read_identity unit meter).0 ≡ ok (values component (field_names identity))
  unfolding async_read_identity
  accepted component n e h =
      let k = (check_identity_iff component (hex 8 n)).1 (n, h, refl) in ground arith

  -- Reading the identity returns without an exception exactly if the block was answered by a
  -- supported meter. What it returns then has the block's value of each identity field, with a
  -- float that is not finite put as `None`, and no other key; and the serial number that is kept
  -- as text reads, as a hexadecimal number, as the one that is returned.
  pub async_read_identity_iff :
      (((d : Dict Reading) × ((async_read_identity unit meter).0 ≡ ok d)) ↔ (
        (component : Component) × (n : ℕ) × ((unit.update_identity meter.link).0 ≡ ok component)
        × IsWagoMeter component n))
      × ((component : Component) (d : Dict Reading)
          → (unit.update_identity meter.link).0 ≡ ok component
          → (async_read_identity unit meter).0 ≡ ok d
          → ((k : String)
              → lookup k d
                ≡ (if contains (field_names identity) k then some (usable (component k)) else none))
            × ((serial : Text) × ((async_read_identity unit meter).1.serial_number ≡ some serial)
                × (lookup "serial_number" d ≡ some (whole (hex_value 0 serial)))))
  async_read_identity_iff = (
    (
      (λ (d, h).
          let (component, n, e, is_meter, kept) = (async_read_identity_outcomes unit meter).1 d h in
          (component, n, e, is_meter)),
      (λ (component, n, e, is_meter). (_, accepted component n e is_meter)),
    ),
    λ component d e h.
        let same = answered_values component d e h in
        let (c, n, f, is_meter, kept) = (async_read_identity_outcomes unit meter).1 d h in
        (
          (λ k. rw same (lookup-values component (field_names identity) k)),
          (hex 8 n, kept, rw (answered_values c d f h) (serial_returned c n is_meter)),
        ),
  )
