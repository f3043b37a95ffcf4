-- ===== src/Options/Holds.antt =====
-- The registers of a field hold a value: how changes set it, and leave others alone.
use ha_wago.Base.{
  ℕ, ◌+◌, ◌-◌, ◌≤◌, ◌<◌, ◌≡◌, ◌⊎◌, inl, inr, ap, ◌∙◌, sym, Bool, true, false, some, List, [], ◌∷◌,
  arith,
}
use mathlib.Core.Path.{subst}
use ha_wago.Base.Lists.{length, get_or}
use ha_wago.Modbus.{overlay}
use ha_wago.Registers.{Field}
use ha_wago.Device.Write.{Change, StringEncoder, encode, field_of}
use ha_wago.Device.Write.Effect.{after_changes}
use ha_wago.Options.Changes.{select}
use ha_wago.Options.Encodes.{Fits, AllFit}

-- The registers of the change's field hold its value.
abbrev pub Holds : StringEncoder → (ℕ → ℕ) → Change → Type 0
Holds enc memory c =
    (ws : List ℕ)
    → encode enc c ≡ some ws
    → (i : ℕ) → i < length ws
    → memory ((field_of c).address + i) ≡ get_or ws i 0

abbrev pub AllHold : StringEncoder → (ℕ → ℕ) → List Change → Type 0
AllHold enc memory [] = Unit
AllHold enc memory (c ∷ cs) = Holds enc memory c × AllHold enc memory cs

-- Two fields share no register.
abbrev pub Apart : Field → Field → Type 0
Apart f g = (f.address + f.count ≤ g.address) ⊎ (g.address + g.count ≤ f.address)

abbrev pub ApartFrom : Change → List Change → Type 0
ApartFrom c [] = Unit
ApartFrom c (d ∷ ds) = Apart (field_of c) (field_of d) × ApartFrom c ds

abbrev pub AllApart : List Change → Type 0
AllApart [] = Unit
AllApart (c ∷ cs) = ApartFrom c cs × AllApart cs

module _ (enc : StringEncoder) where
  Holds-set :
      (c : Change) (ws : List ℕ) (memory : ℕ → ℕ)
      → encode enc c ≡ some ws
      → Holds enc (overlay (field_of c).address ws memory) c
  Holds-set c ws memory e vs k i h =
      let same : ws ≡ vs = ground arith in
      let offset : (field_of c).address + i - (field_of c).address ≡ i = omega arith in
      ground (arith, offset)

  Holds-keep :
      (c d : Change) (memory : ℕ → ℕ)
      → Apart (field_of c) (field_of d)
      → Fits enc c
      → (fit : Fits enc d) → Holds enc memory c
      → Holds enc (overlay (field_of d).address fit.0 memory) c
  Holds-keep c d memory apart (ws, e, l, _) (vs, k, m, _) holds us q i h =
      let same : ws ≡ us = ground arith in
      let long : length us ≡ (field_of c).count = ap length (sym same) ∙ l in
      let old = holds us q i h in ground arith

  after-keep :
      (c : Change) (bs : List Bool) (cs : List Change) (memory : ℕ → ℕ)
      → ApartFrom c cs
      → Fits enc c
      → AllFit enc cs
      → Holds enc memory c
      → Holds enc (after_changes enc (select bs cs) memory) c
  unfolding select after_changes
  after-keep c [] cs memory apart fit fits holds = holds
  after-keep c (b ∷ bs) [] memory apart fit fits holds = holds
  after-keep c (false ∷ bs) (d ∷ cs) memory apart fit fits holds =
      after-keep c bs cs memory apart.1 fit fits.1 holds
  after-keep c (true ∷ bs) (d ∷ cs) memory apart fit fits holds =
      let (vs, k, m, w) = fits.0 in
      rw (k, after_changes)
        (after-keep c bs cs (overlay (field_of d).address vs memory) apart.1 fit fits.1
          (Holds-keep c d memory apart.0 fit (vs, k, m, w) holds))

  -- What the list does not select is held already.
  unfoldable pub Kept : (ℕ → ℕ) → List Bool → List Change → Type 0
  Kept memory [] cs = AllHold enc memory cs
  Kept memory (b ∷ bs) [] = Unit
  Kept memory (true ∷ bs) (c ∷ cs) = Kept memory bs cs
  Kept memory (false ∷ bs) (c ∷ cs) = Holds enc memory c × Kept memory bs cs

  Apart-sym : (f g : Field) → Apart f g → Apart g f
  Apart-sym f g (inl h) = inr h
  Apart-sym f g (inr h) = inl h

  AllHold-keep :
      (d : Change) (cs : List Change) (memory : ℕ → ℕ)
      → ApartFrom d cs
      → AllFit enc cs
      → (fit : Fits enc d) → AllHold enc memory cs
      → AllHold enc (overlay (field_of d).address fit.0 memory) cs
  AllHold-keep d [] memory apart fits fit holds = tt
  AllHold-keep d (c ∷ cs) memory apart fits fit holds = (
    Holds-keep c d memory (Apart-sym (field_of d) (field_of c) apart.0) fits.0 fit holds.0,
    AllHold-keep d cs memory apart.1 fits.1 fit holds.1,
  )

  Kept-keep :
      (d : Change) (bs : List Bool) (cs : List Change) (memory : ℕ → ℕ)
      → ApartFrom d cs
      → AllFit enc cs
      → (fit : Fits enc d) → Kept memory bs cs
      → Kept (overlay (field_of d).address fit.0 memory) bs cs
  unfolding Kept
  Kept-keep d [] cs memory apart fits fit kept = AllHold-keep d cs memory apart fits fit kept
  Kept-keep d (b ∷ bs) [] memory apart fits fit kept = tt
  Kept-keep d (true ∷ bs) (c ∷ cs) memory apart fits fit kept =
      Kept-keep d bs cs memory apart.1 fits.1 fit kept
  Kept-keep d (false ∷ bs) (c ∷ cs) memory apart fits fit kept = (
    Holds-keep c d memory (Apart-sym (field_of d) (field_of c) apart.0) fits.0 fit kept.0,
    Kept-keep d bs cs memory apart.1 fits.1 fit kept.1,
  )

  after_changes_cons :
      (c : Change) (cs : List Change) (ws : List ℕ) (memory : ℕ → ℕ)
      → encode enc c ≡ some ws
      → after_changes enc (c ∷ cs) memory
        ≡ after_changes enc cs (overlay (field_of c).address ws memory)
  unfolding after_changes
  after_changes_cons c cs ws memory e = rw (e, after_changes)

  -- After the selected changes every field holds its value, if the others held theirs before.
  pub after_changes-select :
      (bs : List Bool) (cs : List Change) (memory : ℕ → ℕ)
      → AllApart cs
      → AllFit enc cs
      → Kept memory bs cs
      → AllHold enc (after_changes enc (select bs cs) memory) cs
  unfolding select Kept
  after_changes-select [] cs memory apart fits kept = unfold after_changes in kept
  after_changes-select (b ∷ bs) [] memory apart fits kept = tt
  after_changes-select (false ∷ bs) (c ∷ cs) memory apart fits kept = (
    after-keep c bs cs memory apart.0 fits.0 fits.1 kept.0,
    after_changes-select bs cs memory apart.1 fits.1 kept.1,
  )
  after_changes-select (true ∷ bs) (c ∷ cs) memory apart fits kept =
      let (ws, e, l, w) = fits.0 in
      let set = overlay (field_of c).address ws memory in
      subst (λ m. AllHold enc m (c ∷ cs)) (sym (after_changes_cons c (select bs cs) ws memory e))
        (
          after-keep c bs cs set apart.0 fits.0 fits.1 (Holds-set c ws memory e),
          after_changes-select bs cs set apart.1 fits.1
              (Kept-keep c bs cs memory apart.0 fits.1 (ws, e, l, w) kept),
        )
