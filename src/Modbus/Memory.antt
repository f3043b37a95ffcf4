-- ===== src/Modbus/Memory.antt =====
-- A unit that answers every call from a memory of registers, to run the models on.
use ha_wago.Base.{ℕ, zero, suc, ◌+◌, ◌<◌, ◌≡◌, refl, ap, ◌∙◌, List, [], ◌∷◌, arith}
use ha_wago.Base.Lists.{length, get_or}
use ha_wago.Base.Outcome.{ok}
use ha_wago.Modbus.{ModbusUnit, IsRegisters, overlay}

abbrev pub Memory : Type 0
Memory = ℕ → ℕ

pub words_from : ℕ → ℕ → Memory → List ℕ
words_from start zero memory = []
words_from start (suc n) memory = memory start ∷ words_from (start + 1) n memory

length-words_from : (start n : ℕ) (memory : Memory) → length (words_from start n memory) ≡ n
unfolding words_from
length-words_from start zero memory = refl
length-words_from start (suc n) memory = ap suc (length-words_from (start + 1) n memory)

get_or-words_from :
    (start n i : ℕ) (memory : Memory)
    → i < n
    → get_or (words_from start n memory) i 0 ≡ memory (start + i)
unfolding words_from
get_or-words_from start zero i memory h = elim h [ ]
get_or-words_from start (suc n) zero memory h = ap memory (omega arith)
get_or-words_from start (suc n) (suc i) memory h =
    get_or-words_from (start + 1) n i memory (omega arith) ∙ ap memory (omega arith)

abbrev pub memory_unit : ModbusUnit Memory
memory_unit = record {
  read_holding_registers = λ start n memory. (ok (words_from start n memory), memory);
  write_registers = λ start words memory. (ok tt, overlay start words memory);
  write_register = λ start value memory. (ok tt, overlay start (value ∷ []) memory);
}

pub memory_laws : IsRegisters memory_unit (λ memory a. memory a)
memory_laws = record {
  read_keeps = λ start n a memory. refl;
  read_length = λ start n memory words h.
      let e : words ≡ words_from start n memory = ground arith in
      rw e (length-words_from start n memory);
  read_words = λ start n i memory words h l.
      let e : words ≡ words_from start n memory = ground arith in
      rw e (get_or-words_from start n i memory l);
  write_frame = λ start a words memory o. ground arith;
  write_words = λ start a words memory h. refl;
  write_one_frame = λ start a value memory o. ground arith;
}
