-- ===== src/Adoption/Laws.antt =====
-- What Home Assistant's documentation promises of the registry, as far as the adoption relies on it.
use ha_wago.Base.{◌≡◌, ◌≢◌, ◌⊎◌, Bool, true, false, Option, none, some, ◌++◌}
use ha_wago.Base.Text.{Text, codes}
use ha_wago.Adoption.{
  Platform, modbus, own, RegistryEntry, UserOwned, Keywords, Registry, is_served,
}

-- Two states of Home Assistant in which every unique id has the same entity id, every removed
-- entry restores the same, and the same entities are served.
module _ {V R : Type 0} (registry : Registry V R) where
  pub record IsSameView (r s : R) : Type 0 where
    pub ids :
        (p : Platform) (u : Text) → registry.get_entity_id p u s ≡ registry.get_entity_id p u r
    pub deleted : (u : Text) → registry.deleted_of own u s ≡ registry.deleted_of own u r
    pub served : (d : Text) → is_served registry d s ≡ is_served registry d r

  -- What the user decided of the entity with the entity id.
  unfoldable pub owned_of : Text → R → Option (UserOwned V)
  owned_of e r = elim (registry.entry_at e r) [ none ↦ none | some x ↦ some x.user_owned ]

  -- The new entry has the object id `o`, and no other entry has changed its entity id.
  pub record IsCreated (u o : Text) (r : R) (result : Text × R) : Type 0 where
    pub answer : result.0 ≡ codes "sensor." ++ o
    pub id : registry.get_entity_id own u result.1 ≡ some (codes "sensor." ++ o)
    pub others :
        (p : Platform) (v : Text)
        → (p ≡ modbus) ⊎ (v ≢ u)
        → registry.get_entity_id p v result.1 ≡ registry.get_entity_id p v r
    pub deleted :
        (v : Text) → v ≢ u → registry.deleted_of own v result.1 ≡ registry.deleted_of own v r
    pub served : (d : Text) → is_served registry d result.1 ≡ is_served registry d r
    pub owned : (d : Text) → d ≢ codes "sensor." ++ o → owned_of d result.1 ≡ owned_of d r

  -- A created entry takes the object id that is suggested, if its unique id is not registered, no
  -- removed entry of it restores another entity id, and the entity id that it asks for is
  -- available. A removed entity id that nothing serves is available.
  pub record IsRegistry (available : Text → R → Bool) : Type 0 where
    pub sensor :
        (p : Platform) (u e : Text) (r : R)
        → registry.get_entity_id p u r ≡ some e
        → (o : Text) × (e ≡ codes "sensor." ++ o)
    pub registered :
        (p : Platform) (u e : Text) (r : R)
        → registry.get_entity_id p u r ≡ some e
        → (x : RegistryEntry V) × (registry.entry_at e r ≡ some x)
          × (x.entity_id ≡ e)
          × (x.platform ≡ p)
          × (x.unique_id ≡ u)
    pub remove_gone :
        (p : Platform) (u e : Text) (r : R)
        → registry.get_entity_id p u r ≡ some e
        → registry.get_entity_id p u (registry.remove e r) ≡ none
    pub remove_frees :
        (p : Platform) (u e : Text) (r : R)
        → registry.get_entity_id p u r ≡ some e
        → is_served registry e r ≡ false
        → available e (registry.remove e r) ≡ true
    pub remove_others :
        (p : Platform) (u e : Text) (r : R)
        → registry.get_entity_id p u r ≢ some e
        → registry.get_entity_id p u (registry.remove e r) ≡ registry.get_entity_id p u r
    pub remove_deleted :
        (u e : Text) (r : R)
        → registry.get_entity_id own u r ≢ some e
        → registry.deleted_of own u (registry.remove e r) ≡ registry.deleted_of own u r
    pub remove_states :
        (d e : Text) (r : R)
        → d ≢ e
        → is_served registry d (registry.remove e r) ≡ is_served registry d r
    pub remove_owned :
        (d e : Text) (r : R) → d ≢ e → owned_of d (registry.remove e r) ≡ owned_of d r
    pub update_owned :
        (e : Text) (k : Keywords V) (x : RegistryEntry V) (r : R)
        → registry.entry_at e r ≡ some x
        → owned_of e (registry.update e k r) ≡ some k.user_owned
    pub update_owned_others :
        (d e : Text) (k : Keywords V) (r : R)
        → d ≢ e
        → owned_of d (registry.update e k r) ≡ owned_of d r
    pub update_options_owned :
        (d e domain : Text) (v : V) (r : R)
        → owned_of d (registry.update_options e domain v r) ≡ owned_of d r
    pub creates :
        (u o : Text) (r : R)
        → registry.get_entity_id own u r ≡ none
        → (registry.deleted_of own u r ≡ none)
          ⊎ (registry.deleted_of own u r ≡ some (codes "sensor." ++ o))
        → available (codes "sensor." ++ o) r ≡ true
        → IsCreated u o r (registry.get_or_create own u (some o) r)
    pub updates : (e : Text) (k : Keywords V) (r : R) → IsSameView r (registry.update e k r)
    pub updates_options :
        (e domain : Text) (v : V) (r : R) → IsSameView r (registry.update_options e domain v r)
