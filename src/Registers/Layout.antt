-- ===== src/Registers/Layout.antt =====
-- What the maps promise together: no register of the meter belongs to two fields, and the fields
-- of the two measured blocks leave no register of their block out.
use ha_wago.Base.{
  ℕ, ◌+◌, ◌≤◌, ◌<◌, ◌≡◌, inl, inr, refl, Bool, ◌&&◌, Option, none, some, [], ◌∷◌, ◌++◌, arith, ltb,
  leb, ◌==◌, if◌then◌else◌, Bool-cases,
}
use ha_wago.Base.Lists.{length}
use ha_wago.Registers.{Field, Component, sort_fields}
use ha_wago.Registers.Maps.{identity, status, measurements, energy}

-- The field reads the register.
abbrev pub covers : ℕ → Field → Bool
covers a f = leb f.address a && ltb a (f.address + f.count)

-- The fields that read a register.
pub covering : Component → ℕ → Component
covering [] a = []
covering (f ∷ fs) a = let rest = covering fs a in if covers a f then f ∷ rest else rest

-- The fields stand one after the other from `start` on; the end of the last.
stacked : (ℕ → ℕ → Bool) → ℕ → Component → Option ℕ
stacked next start [] = some start
stacked next start (f ∷ fs) =
    let rest = stacked next (f.address + f.count) fs in if next start f.address then rest else none

covering-below :
    (fs : Component) (start end a : ℕ)
    → stacked leb start fs ≡ some end
    → a < start
    → covering fs a ≡ []
unfolding stacked covering
covering-below [] start end a h l = refl
covering-below (f ∷ fs) start end a h l =
    ground (arith, covering-below fs (f.address + f.count) end a)

length-covering-le_one :
    (fs : Component) (start end a : ℕ)
    → stacked leb start fs ≡ some end
    → length (covering fs a) ≤ 1
unfolding stacked covering
length-covering-le_one [] start end a h = omega arith
length-covering-le_one (f ∷ fs) start end a h = ground (
  arith,
  covering-below fs (f.address + f.count) end a,
  length-covering-le_one fs (f.address + f.count) end a,
)

stacked_weaken :
    (fs : Component) (start end : ℕ)
    → stacked ◌==◌ start fs ≡ some end
    → stacked leb start fs ≡ some end
unfolding stacked
stacked_weaken [] start end h = h
stacked_weaken (f ∷ fs) start end h = ground (arith, stacked_weaken fs (f.address + f.count) end)

covering_one :
    (fs : Component) (start end a : ℕ)
    → stacked ◌==◌ start fs ≡ some end
    → start ≤ a
    → a < end
    → (f : Field) × (covering fs a ≡ f ∷ [])
unfolding stacked covering
covering_one [] start end a h l u = absurd (ground arith)
covering_one (f ∷ fs) start end a h l u = elim (Bool-cases (covers a f)) [
  | inl e ↦ (
    f,
    ground (
      arith,
      covering-below fs (f.address + f.count) end a,
      stacked_weaken fs (f.address + f.count) end,
    ),
  )
  | inr e ↦
      let (g, eg) = covering_one fs (f.address + f.count) end a (ground arith) (ground arith) u in
      (g, ground arith)
]

-- Every field that the meter is read for.
abbrev pub meter_fields : Component
meter_fields = sort_fields (identity ++ status ++ measurements ++ energy)

meter_stacked : stacked leb 0 meter_fields ≡ some 0x6091
unfolding stacked sort_fields
meter_stacked = refl

-- No register of the meter is read by two fields.
pub length-covering-meter : (a : ℕ) → length (covering meter_fields a) ≤ 1
length-covering-meter a = length-covering-le_one meter_fields 0 0x6091 a meter_stacked

measurements-stacked : stacked ◌==◌ 0x5000 measurements ≡ some 0x5038
unfolding stacked
measurements-stacked = refl

energy-stacked : stacked ◌==◌ 0x6000 energy ≡ some 0x6091
unfolding stacked
energy-stacked = refl

-- Every register from 0x5000 to 0x5037 is read by exactly one measurement field.
pub covering-measurements :
    (a : ℕ) → 0x5000 ≤ a → a ≤ 0x5037 → (f : Field) × (covering measurements a ≡ f ∷ [])
covering-measurements a l u =
    covering_one measurements 0x5000 0x5038 a measurements-stacked l (omega arith)

-- Every register from 0x6000 to 0x6090 is read by exactly one energy field.
pub covering-energy : (a : ℕ) → 0x6000 ≤ a → a ≤ 0x6090 → (f : Field) × (covering energy a ≡ f ∷ [])
covering-energy a l u = covering_one energy 0x6000 0x6091 a energy-stacked l (omega arith)
