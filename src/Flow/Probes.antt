-- ===== src/Flow/Probes.antt =====
-- What the flows ask over the link before an entry exists: `probe_serial` and
-- `_async_module_answers_at` of custom_components/wago_879/config_flow.py.
use ha_wago.Base.{ℕ, ◌≡◌, refl, Bool, true, false, Option, none, some, arith, inl, inr}
use ha_wago.Base.Text.{Text, text_eq, text_eq_iff}
use ha_wago.Base.Outcome.{Outcome, ok, raise, Outcome-cases}
use ha_wago.Registers.{module_unit_id}
use ha_wago.Device.Meter as Meter
use ha_wago.Device.Meter.{MeterUnit, MeterError, async_read_identity}
use ha_wago.Device.Module as Module
use ha_wago.Device.Module.{ModuleUnit, Report}
use ha_wago.Discovery.{FoundModule}

-- Why `async_get_temporary_unit` gives no unit: the connection failed, or another consumer holds
-- the endpoint with other link settings.
pub data LinkError : Type 0 where
  not_connected settings_clash : LinkError

-- The units of the package, by host, port and unit id, on the state of everything outside.
pub record Link (W : Type 0) : Type 0 where
  pub temporary_unit : Text → ℕ → ℕ → W → Outcome LinkError (Unit {0}) × W
  pub module_unit : Text → ℕ → ModuleUnit W
  pub meter_unit : Text → ℕ → ℕ → MeterUnit W

-- The keys of the form's errors, and an exception that the probe does not catch.
pub data ProbeError : Type 0 where
  cannot_connect unsupported_meter unsupported_data_type link_settings_clash : ProbeError
  uncaught : ProbeError

unfoldable pub link_failure : LinkError → ProbeError
link_failure not_connected = cannot_connect
link_failure settings_clash = link_settings_clash

unfoldable pub identity_failure : MeterError → ProbeError
identity_failure (Meter.modbus_error e) = cannot_connect
identity_failure (Meter.unsupported_meter r) = unsupported_meter
identity_failure (Meter.unsupported_data_type r) = unsupported_data_type
identity_failure Meter.type_error = uncaught

-- Whether the report of a module carries the serial number.
unfoldable pub is_report_of : Text → Option Report → Bool
is_report_of serial none = false
is_report_of serial (some report) = text_eq report.serial_number serial

module _ {W : Type 0} (link : Link W) where
  -- The serial number after `async_read_identity`. It is set where the reading returned.
  unfoldable pub probe_serial : (host : Text) (port unit_id : ℕ) → W → Outcome ProbeError Text × W
  unfolding link_failure identity_failure
  probe_serial host port unit_id w =
      let (opened, w1) = link.temporary_unit host port unit_id w in
      elim opened [
        | raise e ↦ (raise (link_failure e), w1)
        | ok done ↦
            let (identity, meter) =
              async_read_identity (link.meter_unit host port unit_id)
                (record { link = w1; serial_number = none }) in
            elim identity [
              | raise e ↦ (raise (identity_failure e), meter.link)
              | ok d ↦ elim meter.serial_number [
                | none ↦ (raise uncaught, meter.link)
                | some serial ↦ (ok serial, meter.link)
              ]
            ]
      ]

  -- `_async_module_answers_at`
  unfoldable pub module_answers_at : FoundModule → ℕ → W → Outcome ProbeError Bool × W
  unfolding is_report_of
  module_answers_at found port w =
      let (opened, w1) = link.temporary_unit found.host port module_unit_id w in
      elim opened [
        | raise e ↦ (ok false, w1)
        | ok done ↦
            let (read, w2) = Module.async_read (link.module_unit found.host port) w1 in
            elim read [
              | raise (Module.modbus_error e) ↦ (ok false, w2)
              | raise Module.type_error ↦ (raise uncaught, w2)
              | ok report ↦ (ok (is_report_of found.serial_number report), w2)
            ]
      ]

  -- The module at the address of the found one reported the found one's serial number.
  pub record IsThere (found : FoundModule) (port : ℕ) (w : W) : Type 0 where
    pub opened : (link.temporary_unit found.host port module_unit_id w).0 ≡ ok tt
    pub report : Report
    pub read :
        (Module.async_read
          (link.module_unit found.host port)
          (link.temporary_unit found.host port module_unit_id w).1).0
        ≡ ok (some report)
    pub same : report.serial_number ≡ found.serial_number

  pub module_answers_at-IsThere :
      (found : FoundModule) (port : ℕ) (w : W)
      → (module_answers_at found port w).0 ≡ ok true
      → IsThere found port w
  unfolding module_answers_at is_report_of
  module_answers_at-IsThere found port w h =
      elim (Outcome-cases (link.temporary_unit found.host port module_unit_id w).0) [
        | inr (e, k) ↦ absurd (ground (arith, h, k))
        | inl (tt, k) ↦
            go k
              (Module.async_read (link.module_unit found.host port)
                (link.temporary_unit found.host port module_unit_id w).1).0
              refl
      ]
    where
      go :
          (link.temporary_unit found.host port module_unit_id w).0 ≡ ok tt
          → (r : Outcome Module.ReadError (Option Report))
          → (Module.async_read
              (link.module_unit found.host port)
              (link.temporary_unit found.host port module_unit_id w).1).0
            ≡ r
          → IsThere found port w
      go k (raise (Module.modbus_error e)) j = absurd (ground (arith, h, k, j))
      go k (raise Module.type_error) j = absurd (ground (arith, h, k, j))
      go k (ok none) j = absurd (ground (arith, h, k, j))
      go k (ok (some report)) j =
          let b : text_eq report.serial_number found.serial_number ≡ true =
            ground (arith, h, k, j) in
          record {
            opened = k;
            report = report;
            read = j;
            same = (text_eq_iff report.serial_number found.serial_number).0 b;
          }
