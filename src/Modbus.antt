-- ===== src/Modbus.antt =====
-- What the package `modbus_connection` offers to the program: its errors, and a unit whose holding
-- registers are read and written over a link. The package is not part of the repository, so a unit
-- is a parameter, and `IsRegisters` is what its documentation promises of one.
pub mod Memory
use ha_wago.Base.{ℕ, ◌+◌, ◌-◌, ◌≤◌, ◌<◌, ◌≡◌, ◌⊎◌, ◌≢◌, ◌&&◌, List, ltb, leb, if◌then◌else◌}
use ha_wago.Base.Lists.{length, get_or}
use ha_wago.Base.Outcome.{Outcome, ok}

-- `connection_lost` is `ModbusConnectionError`; a library timeout is a `TimeoutError` as well.
pub data ModbusError : Type 0 where
  illegal_function illegal_data_address gateway_path_unavailable gateway_target : ModbusError
  connection_lost timed_out device_busy device_failure : ModbusError

pub record ModbusUnit (S : Type 0) : Type 0 where
  pub read_holding_registers : ℕ → ℕ → S → Outcome ModbusError (List ℕ) × S
  pub write_registers : ℕ → List ℕ → S → Outcome ModbusError (Unit {0}) × S
  pub write_register : ℕ → ℕ → S → Outcome ModbusError (Unit {0}) × S

-- `words` written from the register `start` on, over what the registers held.
abbrev pub overlay : ℕ → List ℕ → (ℕ → ℕ) → ℕ → ℕ
overlay start words memory a =
    if leb start a && ltb a (start + length words) then get_or words (a - start) 0 else memory a

abbrev pub Outside : ℕ → ℕ → ℕ → Type 0
Outside start count a = (a < start) ⊎ (start + count ≤ a)

-- A read changes no register, and an answered one returns them. A write touches no register but
-- the ones that it names, and an answered one has set those.
pub record IsRegisters {S : Type 0} (unit : ModbusUnit S) (word : S → ℕ → ℕ) : Type 0 where
  pub read_keeps :
      (start count a : ℕ) (s : S) → word (unit.read_holding_registers start count s).1 a ≡ word s a
  pub read_length :
      (start count : ℕ) (s : S) (words : List ℕ)
      → (unit.read_holding_registers start count s).0 ≡ ok words
      → length words ≡ count
  pub read_words :
      (start count i : ℕ) (s : S) (words : List ℕ)
      → (unit.read_holding_registers start count s).0 ≡ ok words
      → i < count
      → get_or words i 0 ≡ word s (start + i)
  pub write_frame :
      (start a : ℕ) (words : List ℕ) (s : S)
      → Outside start (length words) a
      → word (unit.write_registers start words s).1 a ≡ word s a
  pub write_words :
      (start a : ℕ) (words : List ℕ) (s : S)
      → (unit.write_registers start words s).0 ≡ ok tt
      → word (unit.write_registers start words s).1 a ≡ overlay start words (word s) a
  pub write_one_frame :
      (start a value : ℕ) (s : S)
      → a ≢ start
      → word (unit.write_register start value s).1 a ≡ word s a
