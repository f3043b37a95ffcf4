-- ===== src/Adoption/Refusal.antt =====
-- What `_resolve` refuses for.
use ha_wago.Base.{◌≡◌, String, Bool, some, [], ◌∷◌, arith, Option-cases, Bool-cases, inl, inr}
use ha_wago.Base.Text.{Text, codes}
use ha_wago.Base.Dict.{Dict}
use ha_wago.Base.Outcome.{raise, Outcome-cases}
use ha_wago.Adoption.{
  modbus, own, Registry, AdoptionError, yaml_still_active, unique_id_taken,
  removed_entry_in_the_way, is_served, restores_other, resolve_one, resolve, unique_id_of,
}
use ha_wago.Adoption.Laws.{IsRegistry}

-- The reasons that `_resolve` gives itself.
abbrev pub IsRefusal : AdoptionError → Type 0
IsRefusal yaml_still_active = Unit
IsRefusal unique_id_taken = Unit
IsRefusal removed_entry_in_the_way = Unit
IsRefusal e = ⊥

module _ {V R : Type 0} (registry : Registry V R) (serial : Text) (available : Text → R → Bool)
    (laws : IsRegistry registry available) where
  open registry use {get_entity_id, entry_at}

  refused_as : (e f : AdoptionError) → e ≡ f → IsRefusal f → IsRefusal e
  refused_as e f h k = rw h k

  resolve_one-IsRefusal :
      (r : R) (old new d : Text) (e : AdoptionError)
      → get_entity_id modbus old r ≡ some d
      → resolve_one registry d new r ≡ raise e
      → IsRefusal e
  unfolding resolve_one
  resolve_one-IsRefusal r old new d e h k = elim (Bool-cases (is_served registry d r)) [
    | inl b ↦ refused_as e yaml_still_active (ground arith) tt
    | inr b ↦ elim (Option-cases (get_entity_id own new r)) [
      | inr (x, j) ↦ refused_as e unique_id_taken (ground arith) tt
      | inl free ↦ elim (Bool-cases (restores_other registry new d r)) [
        | inl c ↦ refused_as e removed_entry_in_the_way (ground arith) tt
        | inr c ↦
            let (x, found, _, _, _) = laws.registered modbus old d r h in
            absurd (ground (arith, found))
      ]
    ]
  ]

  pub resolve-IsRefusal :
      (r : R) (table : Dict String) (e : AdoptionError)
      → resolve registry table serial r ≡ raise e
      → IsRefusal e
  unfolding resolve
  resolve-IsRefusal r [] e h = absurd (ground arith)
  resolve-IsRefusal r ((old, field) ∷ table) e h =
      elim (Option-cases (get_entity_id modbus (codes old) r)) [
        | inl n ↦ resolve-IsRefusal r table e (ground arith)
        | inr (d, ed) ↦
            elim (Outcome-cases (resolve_one registry d (unique_id_of serial field) r)) [
              | inr (x, k) ↦
                  refused_as e x (ground arith)
                    (resolve_one-IsRefusal r (codes old) (unique_id_of serial field) d x ed k)
              | inl (a, k) ↦ elim (Outcome-cases (resolve registry table serial r)) [
                | inr (x, j) ↦ refused_as e x (ground arith) (resolve-IsRefusal r table x j)
                | inl (rest, j) ↦ absurd (ground arith)
              ]
            ]
      ]
