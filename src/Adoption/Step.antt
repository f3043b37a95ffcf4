-- ===== src/Adoption/Step.antt =====
-- One turn of the loop of `async_adopt_legacy_entities`.
use ha_wago.Base.{
  ◌≡◌, ◌≢◌, ◌⊎◌, inl, inr, refl, ◌∙◌, sym, Bool, true, false, none, some, List, [], ◌∷◌, ◌++◌, ap,
}
use mathlib.Core.Path.{subst}
use ha_wago.Base.Text.{Text, codes, text_eq_refl}
use ha_wago.Base.Outcome.{ok}
use ha_wago.Adoption.{
  Platform, modbus, own, RegistryEntry, Registry, Adoption, is_served, after_dot, user_settings,
  copy_options, settle, adopt,
}
use ha_wago.Adoption.Laws.{IsSameView, owned_of, IsCreated, IsRegistry}

after_dot_sensor : (o : Text) → after_dot (codes "sensor." ++ o) ≡ some o
unfolding after_dot
after_dot_sensor o = refl

module _ {V R : Type 0} (registry : Registry V R) where
  open registry use {get_entity_id, entry_at, deleted_of, remove, get_or_create}

  -- What `resolve` knows of a legacy entity that it lists.
  pub record IsPending (r : R) (old new e : Text) : Type 0 where
    pub legacy_id : get_entity_id modbus old r ≡ some e
    pub unserved : is_served registry e r ≡ false
    pub free : get_entity_id own new r ≡ none
    pub deleted : (deleted_of own new r ≡ none) ⊎ (deleted_of own new r ≡ some e)

  -- The entity id `e` has gone from `old` to `new`, and nothing else has changed hands.
  pub record IsAdopted (r s : R) (old new e : Text) : Type 0 where
    pub taken : get_entity_id own new s ≡ some e
    pub left : get_entity_id modbus old s ≡ none
    pub others_legacy : (u : Text) → u ≢ old → get_entity_id modbus u s ≡ get_entity_id modbus u r
    pub others_own : (u : Text) → u ≢ new → get_entity_id own u s ≡ get_entity_id own u r
    pub others_deleted : (u : Text) → u ≢ new → deleted_of own u s ≡ deleted_of own u r
    pub others_served : (d : Text) → d ≢ e → is_served registry d s ≡ is_served registry d r
    pub others_owned : (d : Text) → d ≢ e → owned_of registry d s ≡ owned_of registry d r

  module _ (available : Text → R → Bool) (laws : IsRegistry registry available) where
    -- A unique id has an entity id to itself.
    pub get_entity_id-injective :
        (p q : Platform) (u v e : Text) (r : R)
        → get_entity_id p u r ≡ some e
        → get_entity_id q v r ≡ some e
        → (p ≡ q) × (u ≡ v)
    get_entity_id-injective p q u v e r h k =
        let (x, ex, _, px, ux) = laws.registered p u e r h in
        let (y, ey, _, py, uy) = laws.registered q v e r k in
        let same : x ≡ y = cc in
        (sym px ∙ ap (λ z. z.platform) same ∙ py, sym ux ∙ ap (λ z. z.unique_id) same ∙ uy)

    copy_options-IsSameView :
        (e : Text) (options : List (Text × V)) (r : R)
        → IsSameView registry r (copy_options registry e options r)
    unfolding copy_options
    copy_options-IsSameView e [] r = record {
      ids = λ p u. refl;
      deleted = λ u. refl;
      served = λ d. refl;
    }
    copy_options-IsSameView e ((domain, v) ∷ options) r =
        let first = laws.updates_options e domain v r in
        let rest = copy_options-IsSameView e options (registry.update_options e domain v r) in
        record {
          ids = λ p u. rest.ids p u ∙ first.ids p u;
          deleted = λ u. rest.deleted u ∙ first.deleted u;
          served = λ d. rest.served d ∙ first.served d;
        }

    copy_options-owned :
        (d e : Text) (options : List (Text × V)) (r : R)
        → owned_of registry d (copy_options registry e options r) ≡ owned_of registry d r
    unfolding copy_options
    copy_options-owned d e [] r = refl
    copy_options-owned d e ((domain, v) ∷ options) r =
        copy_options-owned d e options (registry.update_options e domain v r)
        ∙ laws.update_options_owned d e domain v r

    -- What the settling leaves to the user's decisions: on the new entry those on the legacy one.
    record IsSettled (a : Adoption V) (r s : R) : Type 0 where
      own_settings :
          (x : RegistryEntry V)
          → entry_at a.legacy.entity_id r ≡ some x
          → owned_of registry a.legacy.entity_id s ≡ some a.legacy.user_owned
      others_owned :
          (d : Text) → d ≢ a.legacy.entity_id → owned_of registry d s ≡ owned_of registry d r

    settle-IsSettled :
        (a : Adoption V) (created : Text) (r : R)
        → created ≡ a.legacy.entity_id
        → IsSettled a r (settle registry a created r).1
    unfolding settle user_settings
    settle-IsSettled a created r h =
        let b = text_eq_refl a.legacy.entity_id in
        let e = a.legacy.entity_id in
        let k = user_settings a.legacy in
        let after = registry.update e k r in
        rw (h, b, settle)
          (record {
            own_settings = λ x held.
                copy_options-owned e e a.legacy.options after ∙ laws.update_owned e k x r held;
            others_owned = λ d n.
                copy_options-owned d e a.legacy.options after ∙ laws.update_owned_others d e k r n;
          })

    settle-IsSameView :
        (a : Adoption V) (created : Text) (r : R)
        → created ≡ a.legacy.entity_id
        → ((settle registry a created r).0 ≡ ok tt)
          × IsSameView registry r (settle registry a created r).1
    unfolding settle
    settle-IsSameView a created r h =
        let b = text_eq_refl a.legacy.entity_id in
        let first = laws.updates created (user_settings a.legacy) r in
        let rest =
          copy_options-IsSameView created a.legacy.options
            (registry.update created (user_settings a.legacy) r) in
        rw (h, b, settle)
          (
            refl,
            record {
              ids = λ p u. rw (← h) (rest.ids p u ∙ first.ids p u);
              deleted = λ u. rw (← h) (rest.deleted u ∙ first.deleted u);
              served = λ d. rw (← h) (rest.served d ∙ first.served d);
            },
          )

    -- The legacy entry removed, and the new one created with its object id.
    abbrev recreated : (new o e : Text) → R → Text × R
    recreated new o e r = get_or_create own new (some o) (remove e r)

    not_of_new :
        (r : R) (old new e u : Text) → IsPending r old new e → get_entity_id own u r ≢ some e
    not_of_new r old new e u pending h =
        let (platforms, _) = get_entity_id-injective modbus own old u e r pending.legacy_id h in cc

    recreated-IsCreated :
        (r : R) (old new e o : Text)
        → IsPending r old new e
        → e ≡ codes "sensor." ++ o
        → IsCreated registry new o (remove e r) (recreated new o e r)
    recreated-IsCreated r old new e o pending h =
        let gone = not_of_new r old new e new pending in
        let free = laws.remove_others own new e r gone ∙ pending.free in
        let same = laws.remove_deleted new e r gone in
        let deleted : (deleted_of own new (remove e r) ≡ none)
            ⊎ (deleted_of own new (remove e r) ≡ some (codes "sensor." ++ o)) =
          elim pending.deleted [ inl n ↦ inl (same ∙ n) | inr k ↦ inr (same ∙ k ∙ ap some h) ] in
        let frees =
          subst (λ d. available d (remove e r) ≡ true) h
            (laws.remove_frees modbus old e r pending.legacy_id pending.unserved) in
        laws.creates new o (remove e r) free deleted frees

    recreated-IsAdopted :
        (r : R) (old new e o : Text)
        → IsPending r old new e
        → e ≡ codes "sensor." ++ o
        → IsAdopted r (recreated new o e r).1 old new e
    recreated-IsAdopted r old new e o pending h =
        let created = recreated-IsCreated r old new e o pending h in
        record {
          taken = created.id ∙ ap some (sym h);
          left =
              created.others modbus old (inl refl)
              ∙ laws.remove_gone modbus old e r pending.legacy_id;
          others_legacy = λ u n.
              created.others modbus u (inl refl)
              ∙ laws.remove_others modbus u e r
                  (λ k. n (get_entity_id-injective modbus modbus u old e r k pending.legacy_id).1);
          others_own = λ u n.
              created.others own u (inr n)
              ∙ laws.remove_others own u e r (not_of_new r old new e u pending);
          others_deleted = λ u n.
              created.deleted u n ∙ laws.remove_deleted u e r (not_of_new r old new e u pending);
          others_served = λ d n. created.served d ∙ laws.remove_states d e r n;
          others_owned = λ d n. created.owned d (λ k. n (k ∙ sym h)) ∙ laws.remove_owned d e r n;
        }

    viewed-IsAdopted :
        (r s t : R) (old new e : Text)
        → IsAdopted r s old new e
        → IsSameView registry s t
        → ((d : Text) → d ≢ e → owned_of registry d t ≡ owned_of registry d s)
        → IsAdopted r t old new e
    viewed-IsAdopted r s t old new e a v owned = record {
      taken = v.ids own new ∙ a.taken;
      left = v.ids modbus old ∙ a.left;
      others_legacy = λ u n. v.ids modbus u ∙ a.others_legacy u n;
      others_own = λ u n. v.ids own u ∙ a.others_own u n;
      others_deleted = λ u n. v.deleted u ∙ a.others_deleted u n;
      others_served = λ d n. v.served d ∙ a.others_served d n;
      others_owned = λ d n. owned d n ∙ a.others_owned d n;
    }

    adopt-eq :
        (r : R) (a : Adoption V) (o : Text)
        → after_dot a.legacy.entity_id ≡ some o
        → adopt registry a r ≡ (
            let made = recreated a.new_unique_id o a.legacy.entity_id r in
            settle registry a made.0 made.1)
    unfolding adopt
    adopt-eq r a o h = rw (h, adopt)

    pub adopt-IsAdopted :
        (r : R) (old : Text) (a : Adoption V)
        → IsPending r old a.new_unique_id a.legacy.entity_id
        → ((adopt registry a r).0 ≡ ok tt)
          × IsAdopted r (adopt registry a r).1 old a.new_unique_id a.legacy.entity_id
          × (owned_of registry a.legacy.entity_id (adopt registry a r).1 ≡ some a.legacy.user_owned)
    adopt-IsAdopted r old a pending =
        let e = a.legacy.entity_id in
        let (o, h) = laws.sensor modbus old e r pending.legacy_id in
        let split = ap after_dot h ∙ after_dot_sensor o in
        let made = recreated a.new_unique_id o e r in
        let adopted = recreated-IsAdopted r old a.new_unique_id e o pending h in
        let created = (recreated-IsCreated r old a.new_unique_id e o pending h).answer ∙ sym h in
        let (done, view) = settle-IsSameView a made.0 made.1 created in
        let settled = settle-IsSettled a made.0 made.1 created in
        let (x, held, _, _, _) = laws.registered own a.new_unique_id e made.1 adopted.taken in
        rw (adopt-eq r a o split) (
          done,
          viewed-IsAdopted r made.1 _ old a.new_unique_id e adopted view settled.others_owned,
          settled.own_settings x held,
        )
