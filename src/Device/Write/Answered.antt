-- ===== src/Device/Write/Answered.antt =====
-- A call of `async_write` over a link that answers.
use ha_wago.Base.{ℕ, ◌≡◌, refl, some, Option, Option-cases, inl, inr, List, [], ◌∷◌, arith}
use ha_wago.Base.Outcome.{Outcome, ok}
use ha_wago.Modbus.{ModbusError, ModbusUnit}
use ha_wago.Device.Write.{
  Change, StringEncoder, Io, encode, send, fitting, ◌>>=◌, not_applied, Blocks, change_block,
  change_blocks, write_blocks, async_write,
}

-- Every call is answered, in every state of the link.
pub record IsAnswering {S : Type 0} (unit : ModbusUnit S) : Type 0 where
  pub reads :
      (start count : ℕ) (s : S)
      → (words : List ℕ) × ((unit.read_holding_registers start count s).0 ≡ ok words)
  pub writes : (start : ℕ) (words : List ℕ) (s : S) → (unit.write_registers start words s).0 ≡ ok tt
  pub commands : (start value : ℕ) (s : S) → (unit.write_register start value s).0 ≡ ok tt

abbrev pub AllEncode : StringEncoder → List Change → Type 0
AllEncode enc [] = Unit
AllEncode enc (c ∷ cs) = ((words : List ℕ) × (encode enc c ≡ some words)) × AllEncode enc cs

change_block-some :
    (enc : StringEncoder) (c : Change) (words : List ℕ) (blocks : Blocks)
    → encode enc c ≡ some words
    → (next : Blocks) × (change_block enc c blocks ≡ some next)
unfolding change_block
change_block-some enc c words blocks e = elim (Option-cases (change_block enc c blocks)) [
  | inl k ↦ absurd (ground arith)
  | inr found ↦ found
]

change_blocks-some :
    (enc : StringEncoder) (cs : List Change) (blocks : Blocks)
    → AllEncode enc cs
    → (after : Blocks) × (change_blocks enc cs blocks ≡ some after)
unfolding change_blocks
change_blocks-some enc [] blocks fits = (blocks, refl)
change_blocks-some enc (c ∷ cs) blocks fits =
    let (next, k) = change_block-some enc c fits.0.0 blocks fits.0.1 in
    let (after, l) = change_blocks-some enc cs next fits.1 in (after, rw (k, change_blocks) l)

bind-ok :
    {S A B : Type 0} (m : Io S A) (f : A → Io S B) (s : S) (a : A) (b : B)
    → (m s).0 ≡ ok a
    → (f a (m s).1).0 ≡ ok b
    → ((m >>= f) s).0 ≡ ok b
unfolding ◌>>=◌
bind-ok m f s a b h k = rw h k

send-ok :
    {S A : Type 0} (call : S → Outcome ModbusError A × S) (s : S) (a : A)
    → (call s).0 ≡ ok a
    → (send call s).0 ≡ ok a
unfolding send
send-ok call s a h = ground arith

module _ {S : Type 0} (unit : ModbusUnit S) (answering : IsAnswering unit) where
  open answering use {reads, writes, commands}

  write_blocks-ok : (blocks : Blocks) (s : S) → (write_blocks unit blocks s).0 ≡ ok tt
  unfolding write_blocks
  write_blocks-ok [] s = refl
  write_blocks-ok ((start, words) ∷ rest) s =
      bind-ok (send (unit.write_registers start words)) (λ _. write_blocks unit rest) s tt tt
        (send-ok (unit.write_registers start words) s tt (writes start words s))
        (write_blocks-ok rest (send (unit.write_registers start words) s).1)

  apply-ok : (s : S) → (not_applied (send (unit.write_register 0x03F1 1)) s).0 ≡ ok tt
  unfolding not_applied send
  apply-ok s = ground (arith, commands 0x03F1 1 s)

  fitting-ok :
      (o : Option Blocks) (s : S) (b : Blocks)
      → o ≡ some b
      → (fitting {S = S} {A = Blocks} o s).0 ≡ ok b
  unfolding fitting
  fitting-ok o s b h = ground arith

  -- A call whose values all fit their fields returns, if the link answers.
  pub async_write-ok :
      (enc : StringEncoder) (changes : List Change) (s : S)
      → AllEncode enc changes
      → (async_write unit enc changes s).0 ≡ ok tt
  unfolding async_write
  async_write-ok enc changes s fits =
      let read1 = unit.read_holding_registers 0 5 in
      let read2 = unit.read_holding_registers 100 32 in
      let s1 : S = (send read1 s).1 in
      let s2 : S = (send read2 s1).1 in
      let (settings, e1) = reads 0 5 s in
      let (network, e2) = reads 100 32 s1 in
      let (blocks, e3) =
        change_blocks-some enc changes ((0, settings) ∷ (100, network) ∷ []) fits in
      let stored = unit.write_register 0x03F2 1 in
      let applied = unit.write_register 0x03F1 1 in
      let fit : Io S Blocks =
        fitting (change_blocks enc changes ((0, settings) ∷ (100, network) ∷ [])) in
      bind-ok (send read1) _ s settings tt (send-ok read1 s settings e1) (
        bind-ok (send read2) _ s1 network tt (send-ok read2 s1 network e2) (
          bind-ok fit _ s2 blocks tt (fitting-ok _ s2 blocks e3) (
            bind-ok (write_blocks unit blocks) _ _ tt tt (write_blocks-ok blocks _) (
              bind-ok (send stored) _ _ tt tt (send-ok stored _ tt (commands 0x03F2 1 _))
                (apply-ok _)))))
