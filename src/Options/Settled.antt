-- ===== src/Options/Settled.antt =====
-- A write of a page that was stored leaves every setting of the page in its registers.
use ha_wago.Base.{
  ℕ, ◌+◌, ◌<◌, ◌≡◌, ◌⊎◌, inl, inr, refl, ap, ◌∙◌, sym, Bool, true, false, not, List, [], ◌∷◌, arith,
}
use mathlib.Core.Path.{subst}
use ha_wago.Base.Int.{ℤ, int_eq, int_eq_iff}
use ha_wago.Base.Lists.{length}
use ha_wago.Base.Text.{Text, text_eq_iff}
use ha_wago.Base.Outcome.{ok, raise}
use ha_wago.Modbus.{ModbusUnit, IsRegisters}
use ha_wago.Device.Write as Write
use ha_wago.Device.Write.{
  Change, StringEncoder, WriteError, modbus_error, module_not_applied, value_error, encode,
  field_of, async_write,
}
use ha_wago.Device.Write.Effect.{after_changes, field_of-IsPlaced}
use ha_wago.Device.Write.Promise.{async_write_promise}
use ha_wago.ModuleSettings.{Settings}
use ha_wago.ModuleSettings.Accept.{differs, bool_differs}
use ha_wago.Options.Changes.{timeout_word, all_changes, changed, select}
use ha_wago.Options.Encodes.{IsEncoder, AllFit}
use ha_wago.Options.Holds.{Holds, AllHold, AllApart, Kept, after_changes-select}

pub all_changes-AllApart : (s : Settings) → AllApart (all_changes s)
unfolding field_of
all_changes-AllApart s = omega arith

abbrev pub every_one : List Bool
every_one = true ∷ true ∷ true ∷ true ∷ true ∷ true ∷ true ∷ true ∷ true ∷ true ∷ true ∷ []

pub select-every_one : (s : Settings) → select every_one (all_changes s) ≡ all_changes s
unfolding select
select-every_one s = refl

module _ (enc : StringEncoder) (memory : ℕ → ℕ) where
  Kept-cons :
      (b : Bool) (bs : List Bool) (c : Change) (cs : List Change)
      → (b ≡ false → Holds enc memory c)
      → Kept enc memory bs cs
      → Kept enc memory (b ∷ bs) (c ∷ cs)
  unfolding Kept
  Kept-cons true bs c cs h k = k
  Kept-cons false bs c cs h k = (h refl, k)

  Kept-nil : Kept enc memory [] []
  unfolding Kept
  Kept-nil = tt

  text_kept :
      (field : Text → Change) (old new : Text)
      → Holds enc memory (field old)
      → differs old new ≡ false
      → Holds enc memory (field new)
  text_kept field old new h d =
      let same : old ≡ new = ground (arith, text_eq_iff old new) in
      subst (λ t. Holds enc memory (field t)) same h

  bool_kept :
      (field : Bool → Change) (old new : Bool)
      → Holds enc memory (field old)
      → bool_differs old new ≡ false
      → Holds enc memory (field new)
  bool_kept field true true h d = h
  bool_kept field false false h d = h
  bool_kept field true false h d = cc
  bool_kept field false true h d = cc

  timeout_kept :
      (old new : ℤ)
      → Holds enc memory (Write.timeout (timeout_word old))
      → not (int_eq old new) ≡ false
      → Holds enc memory (Write.timeout (timeout_word new))
  timeout_kept old new h d =
      let same : old ≡ new = (int_eq_iff old new).0 (ground arith) in
      subst (λ t. Holds enc memory (Write.timeout (timeout_word t))) same h

  -- What the settings do not change is held already.
  pub changed-Kept :
      (current s : Settings)
      → AllHold enc memory (all_changes current)
      → Kept enc memory (changed current s) (all_changes s)
  changed-Kept current s h = Kept-cons _ _ _ _ (bool_kept Write.dhcp current.dhcp s.dhcp h.0) (
      Kept-cons _ _ _ _ (bool_kept Write.ntp current.ntp s.ntp h.1.0) (
        Kept-cons _ _ _ _ (text_kept Write.ip_address current.ip_address s.ip_address h.1.1.0) (
          Kept-cons _ _ _ _ (text_kept Write.gateway current.gateway s.gateway h.1.1.1.0) (
            Kept-cons _ _ _ _
              (text_kept Write.dns_server_1 current.dns_server_1 s.dns_server_1 h.1.1.1.1.0)
              (Kept-cons _ _ _ _
                (text_kept Write.dns_server_2 current.dns_server_2 s.dns_server_2 h.1.1.1.1.1.0)
                (Kept-cons _ _ _ _
                  (text_kept Write.ntp_server_1 current.ntp_server_1 s.ntp_server_1 h.1.1.1.1.1.1.0)
                  (Kept-cons _ _ _ _
                    (text_kept Write.ntp_server_2 current.ntp_server_2 s.ntp_server_2
                      h.1.1.1.1.1.1.1.0)
                    (Kept-cons _ _ _ _
                      (text_kept Write.netmask current.netmask s.netmask h.1.1.1.1.1.1.1.1.0)
                      (Kept-cons _ _ _ _
                        (text_kept Write.hostname current.hostname s.hostname h.1.1.1.1.1.1.1.1.1.0)
                        (Kept-cons _ _ _ _
                          (timeout_kept current.timeout s.timeout h.1.1.1.1.1.1.1.1.1.1.0)
                          Kept-nil))))))))))

  pub every_one-Kept : (s : Settings) → Kept enc memory every_one (all_changes s)
  unfolding Kept
  every_one-Kept s = tt

-- Registers that agree outside the two commands hold the same values.
AllHold-same :
    (enc : StringEncoder) (m n : ℕ → ℕ) (cs : List Change)
    → ((a : ℕ) → a < 1000 → m a ≡ n a)
    → AllFit enc cs
    → AllHold enc n cs
    → AllHold enc m cs
AllHold-same enc m n [] same fits h = tt
AllHold-same enc m n (c ∷ cs) same fits h = (
  (λ ws e i l.
      let (vs, k, long, _) = fits.0 in
      let equal : vs ≡ ws = ground arith in
      let count : length ws ≡ (field_of c).count = ap length (sym equal) ∙ long in
      same ((field_of c).address + i)
        (elim (field_of-IsPlaced c) [ inl p ↦ omega arith | inr p ↦ omega arith ])
      ∙ h.0 ws e i l),
  AllHold-same enc m n cs same fits.1 h.1,
)

module _ {S : Type 0} (unit : ModbusUnit S) (word : S → ℕ → ℕ) (registers : IsRegisters unit word)
    (enc : StringEncoder) (laws : IsEncoder enc) where
  -- After a write that was stored every setting is in its registers.
  pub write-AllHold :
      (bs : List Bool) (settings : Settings) (s : S)
      → AllFit enc (all_changes settings)
      → Kept enc (word s) bs (all_changes settings)
      → ((async_write unit enc (select bs (all_changes settings)) s).0 ≡ ok tt)
        ⊎ ((async_write unit enc (select bs (all_changes settings)) s).0 ≡ raise module_not_applied)
      → AllHold enc
          (word (async_write unit enc (select bs (all_changes settings)) s).1)
          (all_changes settings)
  write-AllHold bs settings s fits kept stored =
      let cs = all_changes settings in
      let promise = async_write_promise unit word registers enc laws.filling (select bs cs) s in
      AllHold-same enc (word (async_write unit enc (select bs cs) s).1)
        (after_changes enc (select bs cs) (word s)) cs
        (λ a low.
          promise.stored stored a (λ q. elim q [ inl e ↦ omega arith | inr e ↦ omega arith ]))
        fits (after_changes-select enc bs cs (word s) (all_changes-AllApart settings) fits kept)
