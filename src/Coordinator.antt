-- ===== src/Coordinator.antt =====
-- custom_components/wago_879/coordinator.py: the poller of one register block.
pub mod Tolerance
mod Examples
use ha_wago.Base.{
  ℕ, zero, suc, ◌+◌, ◌≡◌, String, Bool, true, false, ◌&&◌, Option, none, some, List, [], ◌∷◌, leb,
  if◌then◌else◌,
}
use ha_wago.Base.Text.{Text, codes}
use ha_wago.Base.Outcome.{Outcome, ok, raise}
use ha_wago.Modbus.{ModbusError, connection_lost}

abbrev pub failed_polls_tolerated : ℕ
failed_polls_tolerated = 3

abbrev pub update_timeout_seconds : ℕ
update_timeout_seconds = 30

-- What a read can raise that `_async_update_data` catches. The package's own timeout is a
-- `ModbusError`; `cycle_timeout` is that of `asyncio.timeout`. A `ModbusError` carries its text.
pub data ReadError : Type 0 where
  modbus : ModbusError → Text → ReadError
  cycle_timeout : ReadError

-- The `UpdateFailed` that is raised, with its translation key and placeholders.
pub data Failure : Type 0 where
  read_timed_out : (poller : Text) (seconds : ℕ) → Failure
  read_failed : (poller error : Text) → Failure
  device_unreachable : (poller error : Text) → Failure

-- `isinstance(err, UNREACHABLE_ERRORS)`
unfoldable pub is_unreachable : ModbusError → Bool
is_unreachable connection_lost = true
is_unreachable _ = false

-- `_failure`, given `redact`.
unfoldable pub failure : (Text → Text → Text) → Text → Text → ReadError → Failure
unfolding is_unreachable
failure redact host poller cycle_timeout = read_timed_out poller update_timeout_seconds
failure redact host poller (modbus e message) =
    let error = redact message host in
    if is_unreachable e then device_unreachable poller error else read_failed poller error

-- A coordinator over values of a type: its counter, and `self.data` of its base class.
pub record Coordinator (D : Type 0) : Type 0 where
  pub name : Text
  pub host : Text
  pub failed_polls : ℕ
  pub value : Option D

module _ {D : Type 0} (redact : Text → Text → Text) where
  pub kept : Coordinator D → ReadError → Option D → Outcome Failure D
  kept c err (some d) =
      if leb c.failed_polls failed_polls_tolerated
      then ok d
      else raise (failure redact c.host c.name err)
  kept c err none = raise (failure redact c.host c.name err)

  -- `_async_update_data`, by what the read did within its time.
  unfoldable pub async_update_data :
      Coordinator D → Outcome ReadError D → Outcome Failure D × Coordinator D
  unfolding kept
  async_update_data c (ok values) = (ok values, record c { failed_polls = 0 })
  async_update_data c (raise err) =
      let failed : Coordinator D = record c { failed_polls = c.failed_polls + 1 } in
      (kept failed err c.value, failed)
