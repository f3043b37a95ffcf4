-- ===== src/Renames/Moved.antt =====
-- Which entity ids a rename moves, and where to.
use ha_wago.Base.{
  ◌≡◌, ◌≢◌, ◌⊎◌, inl, inr, refl, ◌∙◌, sym, some, List, [], ◌∷◌, Option-cases, Bool-cases,
}
use ha_wago.Base.Text.{Text, text_eq, text_eq_iff}
use ha_wago.Entry.Setup.{device_name}
use ha_wago.Renames.{
  Registered, Ids, generated_entity_id, rename, async_rename_generated_entity_ids,
}

-- An entity id belongs to one unique id, and an update moves that one alone.
pub record IsIds {R : Type 0} (ids : Ids R) : Type 0 where
  pub alone : (u v e : Text) (r : R) → ids.id_of u r ≡ some e → ids.id_of v r ≡ some e → u ≡ v
  pub moves :
      (u e wanted : Text) (r s : R)
      → ids.update e wanted r ≡ some s
      → ids.id_of u r ≡ some e
      → ids.id_of u s ≡ some wanted
  pub keeps :
      (u e wanted : Text) (r s : R)
      → ids.update e wanted r ≡ some s
      → ids.id_of u r ≢ some e
      → ids.id_of u s ≡ ids.id_of u r

-- No listed entry has the unique id.
abbrev pub IsUnlisted : Text → List Registered → Type 0
IsUnlisted u [] = Unit
IsUnlisted u (x ∷ xs) = (u ≢ x.unique_id) × IsUnlisted u xs

-- The list is what the registry holds, each entry once.
abbrev pub IsListed : {R : Type 0} → Ids R → R → List Registered → Type 0
IsListed ids r [] = Unit
IsListed ids r (x ∷ xs) =
    (ids.id_of x.unique_id r ≡ some x.entity_id) × IsUnlisted x.unique_id xs × IsListed ids r xs

module _ (slugify : Text → Text) {R : Type 0} (ids : Ids R) (laws : IsIds ids)
    (host serial : Text) where
  open ids use {id_of}

  -- The entity id is as it was, or it was generated from the host and is generated from the name.
  abbrev pub IsRenamed : Registered → R → Type 0
  IsRenamed x s =
      (id_of x.unique_id s ≡ some x.entity_id)
      ⊎ ((name : Text) × (x.original_name ≡ some name)
          × (x.entity_id ≡ generated_entity_id slugify x.domain name host)
          × (id_of x.unique_id s
              ≡ some (generated_entity_id slugify x.domain name (device_name serial))))

  abbrev pub AllRenamed : List Registered → R → Type 0
  AllRenamed [] s = Unit
  AllRenamed (x ∷ xs) s = IsRenamed x s × AllRenamed xs s

  record IsOne (x : Registered) (r s : R) : Type 0 where
    renamed : IsRenamed x s
    others : (u : Text) → u ≢ x.unique_id → id_of u s ≡ id_of u r

  rename-IsOne :
      (x : Registered) (r : R)
      → id_of x.unique_id r ≡ some x.entity_id
      → IsOne x r (rename slugify ids host serial x r)
  unfolding rename
  rename-IsOne x r held = elim (Option-cases x.original_name) [
    | inl n ↦ rw (n, rename) (record { renamed = inl held; others = λ u k. refl })
    | inr (name, o) ↦
        elim (Bool-cases (text_eq x.entity_id (generated_entity_id slugify x.domain name host))) [
          | inr b ↦ rw (o, b, rename) (record { renamed = inl held; others = λ u k. refl })
          | inl b ↦
              let wanted = generated_entity_id slugify x.domain name (device_name serial) in
              elim (Option-cases (ids.update x.entity_id wanted r)) [
                | inl n ↦ rw (o, b, n, rename) (record { renamed = inl held; others = λ u k. refl })
                | inr (s, k) ↦
                    let same =
                      (text_eq_iff x.entity_id (generated_entity_id slugify x.domain name host)).0
                        b in
                    rw (o, b, k, rename)
                      (record {
                        renamed = inr (
                          name,
                          refl,
                          same,
                          laws.moves x.unique_id x.entity_id wanted r s k held,
                        );
                        others = λ u n.
                            laws.keeps u x.entity_id wanted r s k
                              (λ e. n (laws.alone u x.unique_id x.entity_id r e held));
                      })
              ]
        ]
  ]

  IsListed-keep :
      (x : Registered) (r s : R) (xs : List Registered)
      → ((u : Text) → u ≢ x.unique_id → id_of u s ≡ id_of u r)
      → IsUnlisted x.unique_id xs
      → IsListed ids r xs
      → IsListed ids s xs
  IsListed-keep x r s [] others unlisted listed = tt
  IsListed-keep x r s (y ∷ xs) others unlisted listed = (
    others y.unique_id (λ e. unlisted.0 (sym e)) ∙ listed.0,
    listed.1,
    IsListed-keep x r s xs others unlisted.1 listed.2,
  )

  rename-others :
      (xs : List Registered) (r : R) (u : Text)
      → IsListed ids r xs
      → IsUnlisted u xs
      → id_of u (async_rename_generated_entity_ids slugify ids host serial xs r) ≡ id_of u r
  unfolding async_rename_generated_entity_ids
  rename-others [] r u listed unlisted = refl
  rename-others (x ∷ xs) r u listed unlisted =
      let one = rename-IsOne x r listed.0 in
      let s = rename slugify ids host serial x r in
      let listed' = IsListed-keep x r s xs one.others listed.1 listed.2 in
      rename-others xs s u listed' unlisted.1 ∙ one.others u unlisted.0

  -- Of the entries that the registry lists, only an entity id that Home Assistant generated from
  -- the meter's host is moved, and only to the one that it generates from the device's name; any
  -- other entity id, also one of an entry that is not listed, stays as it is.
  pub async_rename_generated_entity_ids_lem :
      (xs : List Registered) (r : R)
      → IsListed ids r xs
      → AllRenamed xs (async_rename_generated_entity_ids slugify ids host serial xs r)
        × ((u : Text)
            → IsUnlisted u xs
            → id_of u (async_rename_generated_entity_ids slugify ids host serial xs r) ≡ id_of u r)
  unfolding async_rename_generated_entity_ids
  async_rename_generated_entity_ids_lem [] r listed = (tt, (λ u n. refl))
  async_rename_generated_entity_ids_lem (x ∷ xs) r listed =
      let one = rename-IsOne x r listed.0 in
      let s = rename slugify ids host serial x r in
      let listed' = IsListed-keep x r s xs one.others listed.1 listed.2 in
      let (all, _) = async_rename_generated_entity_ids_lem xs s listed' in
      let stays = rename-others xs s x.unique_id listed' listed.1 in
      (
        (
          elim one.renamed [
            | inl same ↦ inl (stays ∙ same)
            | inr (name, o, generated, moved) ↦ inr (name, o, generated, stays ∙ moved)
          ],
          all,
        ),
        (λ u n. rename-others (x ∷ xs) r u listed n),
      )
