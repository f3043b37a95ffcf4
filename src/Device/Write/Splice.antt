-- ===== src/Device/Write/Splice.antt =====
-- Writing a block with a few words replaced is writing the block and then those words.
use ha_wago.Base.{
  ℕ, zero, suc, ◌+◌, ◌-◌, ◌≤◌, ◌≡◌, ◌∙◌, ◌&&◌, List, [], ◌∷◌, ◌++◌, arith, leb, ltb, if◌then◌else◌,
}
use ha_wago.Base.Lists.{length, take, drop, get_or, length-append, length-take, length-drop}
use ha_wago.Modbus.{overlay}
use ha_wago.Device.Write.{splice}

pub length-splice :
    (words new : List ℕ) (offset : ℕ)
    → offset + length new ≤ length words
    → length (splice words offset (length new) new) ≡ length words
unfolding splice
length-splice words new offset h = omega (
  arith,
  length-append (take offset words) (new ++ drop (offset + length new) words),
  length-append new (drop (offset + length new) words),
  length-take offset words,
  length-drop (offset + length new) words,
)

get_or-front :
    (new words : List ℕ) (i : ℕ)
    → length new ≤ length words
    → get_or (new ++ drop (length new) words) i 0
      ≡ (if ltb i (length new) then get_or new i 0 else get_or words i 0)
get_or-front [] words i h = ground arith
get_or-front (x ∷ new) [] i h = absurd (omega arith)
get_or-front (x ∷ new) (y ∷ words) zero h = ground arith
get_or-front (x ∷ new) (y ∷ words) (suc i) h = ground (arith, get_or-front new words i)

pub get_or-splice :
    (words new : List ℕ) (offset i : ℕ)
    → offset + length new ≤ length words
    → get_or (splice words offset (length new) new) i 0 ≡ (
        if leb offset i && ltb i (offset + length new)
        then get_or new (i - offset) 0
        else get_or words i 0)
unfolding splice
get_or-splice words new zero i h =
    let e : 0 + length new ≡ length new = omega arith in
    rw e (get_or-front new words i (omega arith) ∙ ground arith)
get_or-splice [] new (suc offset) i h = absurd (omega arith)
get_or-splice (x ∷ words) new (suc offset) zero h = ground arith
get_or-splice (x ∷ words) new (suc offset) (suc i) h =
    let e : suc offset + length new ≡ suc (offset + length new) = omega arith in
    let d : suc i - suc offset ≡ i - offset = omega arith in
    rw (e, d) (ground (arith, get_or-splice words new offset i))

pub overlay-splice :
    (start offset : ℕ) (words new : List ℕ) (memory : ℕ → ℕ) (a : ℕ)
    → offset + length new ≤ length words
    → overlay start (splice words offset (length new) new) memory a
      ≡ overlay (start + offset) new (overlay start words memory) a
overlay-splice start offset words new memory a h =
    ground (arith, length-splice words new offset h, get_or-splice words new offset (a - start) h)
