-- ===== src/Device/Meter/Readings.antt =====
-- What a poll of the meter returns for each field.
use text.Mathlib.Text.{◌==◌ as str_eq}
use text.Mathlib.TextEquality.{eq_iff}
use ha_wago.Base.{
  ◌≡◌, ◌⊎◌, inl, inr, refl, ◌∙◌, String, Bool, true, false, ◌||◌, Option, none, some, List, [], ◌∷◌,
  arith, if◌then◌else◌,
}
use ha_wago.Base.Outcome.{Outcome, ok, raise}
use ha_wago.Base.Dict.{Dict, lookup, merge, or_none, lookup-merge}
use ha_wago.Python.{Float}
use ha_wago.Modbus.{ModbusError}
use ha_wago.Registers.{field_names}
use ha_wago.Registers.Maps.{status, measurements, energy}
use ha_wago.Device.Meter.{
  Reading, missing, real, whole, Component, is_finite, usable, values, MeterUnit,
  async_update_measurements, async_update_energy,
}

unfoldable pub contains : List String → String → Bool
contains [] k = false
contains (n ∷ names) k = str_eq n k || contains names k

pub lookup-values :
    (component : Component) (names : List String) (k : String)
    → lookup k (values component names)
      ≡ (if contains names k then some (usable (component k)) else none)
unfolding lookup values contains
lookup-values component [] k = refl
lookup-values component (n ∷ names) k = ground (arith, eq_iff n k, lookup-values component names k)

-- A float that a poll reports is finite.
usable-finite : (r : Reading) (x : Float) → usable r ≡ real x → is_finite x ≡ true
unfolding usable
usable-finite missing x h = cc
usable-finite (real y) x h = ground arith
usable-finite (whole n) x h = cc

reported-finite :
    (component : Component) (names : List String) (k : String) (x : Float)
    → lookup k (values component names) ≡ some (real x)
    → is_finite x ≡ true
reported-finite component names k x h =
    ground (arith, lookup-values component names k, usable-finite (component k) x)

merged-finite :
    (a b : Dict Reading) (k : String) (x : Float)
    → (lookup k a ≡ some (real x) → is_finite x ≡ true)
    → (lookup k b ≡ some (real x) → is_finite x ≡ true)
    → lookup k (merge a b) ≡ some (real x)
    → is_finite x ≡ true
merged-finite a b k x ha hb h = pick (lookup k b) refl
  where
    pick : (o : Option Reading) → lookup k b ≡ o → is_finite x ≡ true
    pick (some v) e = hb (unfold or_none in ground (arith, lookup-merge a b k))
    pick none e = ha (unfold or_none in ground (arith, lookup-merge a b k))

module _ {S : Type 0} (unit : MeterUnit S) (link : S) where
  -- A poll whose two reads are answered returns, for every key, the value of the status word of
  -- that name, or else of the measurement of that name, with a float that is not finite put as
  -- `None`; and it has no other key. A read that is not answered ends the poll with its error.
  pub async_update_measurements_lem :
      ((m s : Component)
        → (unit.update_measurements link).0 ≡ ok m
        → (unit.update_status (unit.update_measurements link).1).0 ≡ ok s
        → (d : Dict Reading) × ((async_update_measurements unit link).0 ≡ ok d)
          × ((k : String)
              → lookup k d ≡ (
                  if contains (field_names status) k
                  then some (usable (s k))
                  else if contains (field_names measurements) k
                  then some (usable (m k))
                  else none)))
      × ((e : ModbusError)
          → (unit.update_measurements link).0 ≡ raise e
          → async_update_measurements unit link ≡ (raise e, (unit.update_measurements link).1))
      × ((m : Component) (e : ModbusError)
          → (unit.update_measurements link).0 ≡ ok m
          → (unit.update_status (unit.update_measurements link).1).0 ≡ raise e
          → (async_update_measurements unit link).0 ≡ raise e)
  unfolding async_update_measurements
  async_update_measurements_lem = (
    (λ m s em es.
        let a = values m (field_names measurements) in
        let b = values s (field_names status) in
        (
          merge a b,
          ground arith,
          λ k.
              lookup-merge a b k
              ∙ (unfold or_none in
                  ground (
                    arith,
                    lookup-values m (field_names measurements) k,
                    lookup-values s (field_names status) k,
                  )),
        )),
    (λ e h. ground arith),
    (λ m e em es. ground arith),
  )

  -- No poll of the measurements or of the energy counters reports a float that is not finite.
  pub polls-finite :
      (d : Dict Reading) (k : String) (x : Float)
      → ((async_update_measurements unit link).0 ≡ ok d)
        ⊎ ((async_update_energy unit link).0 ≡ ok d)
      → lookup k d ≡ some (real x)
      → is_finite x ≡ true
  unfolding async_update_measurements async_update_energy
  polls-finite d k x (inl h) found = first (unit.update_measurements link).0 refl
    where
      first :
          (r : Outcome ModbusError Component)
          → (unit.update_measurements link).0 ≡ r
          → is_finite x ≡ true
      first (raise e) p = absurd (ground arith)
      first (ok m) p = second (unit.update_status (unit.update_measurements link).1).0 refl
        where
          second :
              (r : Outcome ModbusError Component)
              → (unit.update_status (unit.update_measurements link).1).0 ≡ r
              → is_finite x ≡ true
          second (raise e) q = absurd (ground arith)
          second (ok s) q =
              let a = values m (field_names measurements) in
              let b = values s (field_names status) in
              let same : merge a b ≡ d = ground arith in
              merged-finite a b k x (reported-finite m _ k x) (reported-finite s _ k x)
                (rw same found)
  polls-finite d k x (inr h) found = only (unit.update_energy link).0 refl
    where
      only :
          (r : Outcome ModbusError Component) → (unit.update_energy link).0 ≡ r → is_finite x ≡ true
      only (raise e) p = absurd (ground arith)
      only (ok c) p =
          let same : values c (field_names energy) ≡ d = ground arith in
          reported-finite c (field_names energy) k x (rw same found)
