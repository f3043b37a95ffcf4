-- ===== src/Adoption/Ready.antt =====
-- What `_resolve` knows of the list that it answers, and that a turn of the loop keeps it.
use ha_wago.Base.{
  refl, ◌≡◌, ◌≢◌, ◌⊎◌, inl, inr, ◌∙◌, sym, String, Bool, none, some, List, [], ◌∷◌, arith, ap,
  Option-cases, Bool-cases,
}
use ha_wago.Base.Text.{Text, codes, text_eq_iff}
use ha_wago.Base.Dict.{Dict}
use ha_wago.Base.Outcome.{ok, Outcome-cases}
use ha_wago.Adoption.{
  modbus, own, RegistryEntry, Registry, Adoption, is_served, restores_other, resolve_one, resolve,
  unique_id_of,
}
use ha_wago.Adoption.Laws.{owned_of, IsRegistry}
use ha_wago.Adoption.Step.{IsPending, IsAdopted, get_entity_id-injective}

-- No legacy unique id of the table is `u`, and no new one.
abbrev pub LacksOld : Text → Dict String → Type 0
LacksOld u [] = Unit
LacksOld u ((old, field) ∷ table) = (u ≢ codes old) × LacksOld u table

abbrev pub LacksNew : (serial u : Text) → Dict String → Type 0
LacksNew serial u [] = Unit
LacksNew serial u ((old, field) ∷ table) = (u ≢ unique_id_of serial field) × LacksNew serial u table

abbrev pub IsDistinct : (serial : Text) → Dict String → Type 0
IsDistinct serial [] = Unit
IsDistinct serial ((old, field) ∷ table) =
    LacksOld (codes old) table
    × LacksNew serial (unique_id_of serial field) table
    × IsDistinct serial table

module _ {V R : Type 0} (registry : Registry V R) where
  open registry use {get_entity_id, entry_at, deleted_of}

  resolve_one-IsPending :
      (r : R) (old new e : Text) (a : Adoption V)
      → get_entity_id modbus old r ≡ some e
      → resolve_one registry e new r ≡ ok a
      → IsPending registry r old new e × (entry_at e r ≡ some a.legacy) × (a.new_unique_id ≡ new)
  unfolding resolve_one restores_other
  resolve_one-IsPending r old new e a h k = elim (Bool-cases (is_served registry e r)) [
    | inl b ↦ absurd (ground arith)
    | inr b ↦ elim (Option-cases (get_entity_id own new r)) [
      | inr (d, j) ↦ absurd (ground arith)
      | inl free ↦ elim (Option-cases (entry_at e r)) [
        | inl n ↦ absurd (ground arith)
        | inr (x, ex) ↦ elim (Option-cases (deleted_of own new r)) [
          | inl n ↦ (
            record { legacy_id = h; unserved = b; free = free; deleted = inl n },
            ground arith,
            ground arith,
          )
          | inr (d, ed) ↦ (
            record {
              legacy_id = h;
              unserved = b;
              free = free;
              deleted = inr (ground (arith, text_eq_iff d e));
            },
            ground arith,
            ground arith,
          )
        ]
      ]
    ]
  ]

  module _ (serial : Text) where
    -- The legacy entity is not registered, or it heads the list and is pending.
    abbrev pub IsReady : R → Dict String → List (Adoption V) → Type 0
    IsReady r [] adoptions = adoptions ≡ []
    IsReady r ((old, field) ∷ table) adoptions =
        ((get_entity_id modbus (codes old) r ≡ none) × IsReady r table adoptions)
        ⊎ ((a : Adoption V) × (rest : List (Adoption V)) × (adoptions ≡ a ∷ rest)
            × (a.new_unique_id ≡ unique_id_of serial field)
            × IsPending registry r (codes old) a.new_unique_id a.legacy.entity_id
            × (owned_of registry a.legacy.entity_id r ≡ some a.legacy.user_owned)
            × IsReady r table rest)

    owned_of-some :
        (r : R) (e : Text) (x : RegistryEntry V)
        → entry_at e r ≡ some x
        → owned_of registry e r ≡ some x.user_owned
    unfolding owned_of
    owned_of-some r e x h = rw (h, owned_of) refl

    module _ (available : Text → R → Bool) (laws : IsRegistry registry available) where
      pub resolve-IsReady :
          (r : R) (table : Dict String) (adoptions : List (Adoption V))
          → resolve registry table serial r ≡ ok adoptions
          → IsReady r table adoptions
      unfolding resolve
      resolve-IsReady r [] adoptions h = ground arith
      resolve-IsReady r ((old, field) ∷ table) adoptions h =
          elim (Option-cases (get_entity_id modbus (codes old) r)) [
            | inl n ↦ inl (n, resolve-IsReady r table adoptions (ground arith))
            | inr (e, ex) ↦
                elim (Outcome-cases (resolve_one registry e (unique_id_of serial field) r)) [
                  | inr (x, k) ↦ absurd (ground arith)
                  | inl (a, k) ↦ elim (Outcome-cases (resolve registry table serial r)) [
                    | inr (x, j) ↦ absurd (ground arith)
                    | inl (rest, j) ↦
                        let (p, entry, new) =
                          resolve_one-IsPending r (codes old) (unique_id_of serial field) e a ex
                            k in
                        let (x, found, same, _, _) = laws.registered modbus (codes old) e r ex in
                        let legacy : a.legacy.entity_id ≡ e = ground arith in
                        inr (
                          a,
                          rest,
                          ground arith,
                          new,
                          rw (new, legacy) p,
                          ap (λ d. owned_of registry d r) legacy ∙ owned_of-some r e a.legacy entry,
                          resolve-IsReady r table rest j,
                        )
                  ]
                ]
          ]

      pub IsReady-keep :
          (r s : R) (old new e : Text) (table : Dict String) (adoptions : List (Adoption V))
          → IsAdopted registry r s old new e
          → get_entity_id modbus old r ≡ some e
          → LacksOld old table
          → LacksNew serial new table
          → IsReady r table adoptions
          → IsReady s table adoptions
      IsReady-keep r s old new e [] adoptions adopted held lacks_old lacks_new ready = ready
      IsReady-keep r s old new e ((o, f) ∷ table) adoptions adopted held lacks_old lacks_new
            (inl (absent, ready)) =
          inl (
            adopted.others_legacy (codes o) (λ h. lacks_old.0 (sym h)) ∙ absent,
            IsReady-keep r s old new e table adoptions adopted held lacks_old.1 lacks_new.1 ready,
          )
      IsReady-keep r s old new e ((o, f) ∷ table) adoptions adopted held lacks_old lacks_new
            (inr (a, rest, same, is_new, p, owned, ready)) =
          let other_new : a.new_unique_id ≢ new = λ h. lacks_new.0 (sym h ∙ is_new) in
          let other_id : a.legacy.entity_id ≢ e = λ h.
            lacks_old.0
              (get_entity_id-injective registry available laws modbus modbus old (codes o) e r held
                (p.legacy_id ∙ ap some h)).1 in
          inr (
            a,
            rest,
            same,
            is_new,
            record {
              legacy_id = adopted.others_legacy (codes o) (λ h. lacks_old.0 (sym h)) ∙ p.legacy_id;
              unserved = adopted.others_served a.legacy.entity_id other_id ∙ p.unserved;
              free = adopted.others_own a.new_unique_id other_new ∙ p.free;
              deleted = rw (adopted.others_deleted a.new_unique_id other_new) p.deleted;
            },
            adopted.others_owned a.legacy.entity_id other_id ∙ owned,
            IsReady-keep r s old new e table rest adopted held lacks_old.1 lacks_new.1 ready,
          )
