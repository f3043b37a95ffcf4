-- ===== src/Adoption/Examples.antt =====
-- A registry of at most one sensor, which holds a sensor of the YAML block.
use ha_wago.Base.{
  ◌≡◌, ◌≢◌, ◌⊎◌, inl, inr, refl, sym, ◌∙◌, Bool, true, false, ◌&&◌, Option, none, some, [], ◌++◌,
  arith, ap, if◌then◌else◌, Bool-cases,
}
use ha_wago.Base.Text.{Text, codes, text_eq, text_eq_iff, text_eq_refl}
use ha_wago.Base.Outcome.{raise}
use ha_wago.Entities.{legacy_unique_ids}
use ha_wago.Adoption.{
  Platform, modbus, own, RegistryEntry, Registry, AdoptionError, is_served,
  async_adopt_legacy_entities,
}
use ha_wago.Adoption.Laws.{owned_of, IsCreated, IsRegistry}
use ha_wago.Adoption.Refusal.{IsRefusal}
use ha_wago.Adoption.Whole.{IsWhole}
use ha_wago.Adoption.Legacy.{async_adopt_legacy_entities-all_or_nothing}

record Slot : Type 0 where
  platform : Platform
  unique_id : Text
  object_id : Text

abbrev entity_of : Slot → Text
entity_of slot = codes "sensor." ++ slot.object_id

abbrev same_platform : Platform → Platform → Bool
same_platform modbus modbus = true
same_platform own own = true
same_platform p q = false

has_key : Platform → Text → Slot → Bool
has_key p u slot = same_platform slot.platform p && text_eq slot.unique_id u

abbrev entry_in : Slot → RegistryEntry Unit
entry_in slot = record {
  entity_id = entity_of slot;
  platform = slot.platform;
  unique_id = slot.unique_id;
  user_owned = record {
    aliases = tt;
    area_id = tt;
    categories = tt;
    device_class = tt;
    icon = tt;
    labels = tt;
    name = tt;
  };
  disabled_by = none;
  hidden_by = none;
  options = [];
}

id_in : Platform → Text → Option Slot → Option Text
unfolding has_key
id_in p u none = none
id_in p u (some slot) = if has_key p u slot then some (entity_of slot) else none

find_entry : Text → Option Slot → Option (RegistryEntry Unit)
find_entry e none = none
find_entry e (some slot) = if text_eq (entity_of slot) e then some (entry_in slot) else none

take_out : Text → Option Slot → Option Slot
take_out e none = none
take_out e (some slot) = if text_eq (entity_of slot) e then none else some slot

put : Platform → Text → Option Text → Option Slot → Text × Option Slot
put p u (some o) none =
    (codes "sensor." ++ o, some (record { platform = p; unique_id = u; object_id = o }))
put p u o slots = ([], slots)

is_empty : Option Slot → Bool
is_empty none = true
is_empty (some slot) = false

abbrev one_sensor : Registry Unit (Option Slot)
one_sensor = record {
  get_entity_id = id_in;
  entry_at = find_entry;
  deleted_of = λ p u r. none;
  state_of = λ e r. some true;
  remove = take_out;
  get_or_create = put;
  update = λ e k r. r;
  update_options = λ e d v r. r;
}

same_platform_iff : (p q : Platform) → same_platform p q ≡ true → p ≡ q
same_platform_iff modbus modbus h = refl
same_platform_iff own own h = refl
same_platform_iff modbus own h = cc
same_platform_iff own modbus h = cc

id_in-some :
    (p : Platform) (u e : Text) (r : Option Slot)
    → id_in p u r ≡ some e
    → (slot : Slot) × (r ≡ some slot)
      × (e ≡ entity_of slot)
      × (slot.platform ≡ p)
      × (slot.unique_id ≡ u)
unfolding id_in has_key
id_in-some p u e none h = cc
id_in-some p u e (some slot) h = elim (Bool-cases (same_platform slot.platform p)) [
  | inl b ↦ elim (Bool-cases (text_eq slot.unique_id u)) [
    | inl c ↦ (slot, refl, ground arith, same_platform_iff slot.platform p b, (text_eq_iff _ _).0 c)
    | inr c ↦ absurd (ground arith)
  ]
  | inr b ↦ absurd (ground arith)
]

one_sensor-IsRegistry : IsRegistry one_sensor (λ e r. is_empty r)
unfolding id_in find_entry take_out put is_empty has_key is_served owned_of
one_sensor-IsRegistry = record {
  sensor = λ p u e r h. let (slot, _, same, _, _) = id_in-some p u e r h in (slot.object_id, same);
  registered = λ p u e r h.
      let (slot, held, same, platform, unique_id) = id_in-some p u e r h in
      let b = text_eq_refl (entity_of slot) in
      (entry_in slot, rw (held, same, b, find_entry) refl, rw same refl, platform, unique_id);
  remove_gone = λ p u e r h.
      let (slot, held, same, _, _) = id_in-some p u e r h in
      let b = text_eq_refl (entity_of slot) in rw (held, same, b, take_out) refl;
  remove_frees = λ p u e r h served.
      let (slot, held, same, _, _) = id_in-some p u e r h in
      let b = text_eq_refl (entity_of slot) in rw (held, same, b, take_out) refl;
  remove_others = λ p u e r n. others p u e r n;
  remove_deleted = λ u e r n. refl;
  remove_states = λ d e r n. refl;
  remove_owned = λ d e r n. owned_others d e r n;
  update_owned = λ e k x r h. rw (h, owned_of) refl;
  update_owned_others = λ d e k r n. refl;
  update_options_owned = λ d e domain v r. refl;
  creates = λ u o r free deleted h. created u o r h;
  updates = λ e k r. record { ids = λ p u. refl; deleted = λ u. refl; served = λ d. refl };
  updates_options =
      λ e d v r. record { ids = λ p u. refl; deleted = λ u. refl; served = λ d. refl };
}
  where
    others :
        (p : Platform) (u e : Text) (r : Option Slot)
        → id_in p u r ≢ some e
        → id_in p u (take_out e r) ≡ id_in p u r
    others p u e none n = refl
    others p u e (some slot) n = elim (Bool-cases (text_eq (entity_of slot) e)) [
      | inr b ↦ rw (b, take_out) refl
      | inl b ↦ elim (Bool-cases (has_key p u slot)) [
        | inr c ↦ rw (b, c, take_out, id_in) refl
        | inl c ↦
            let same = (text_eq_iff (entity_of slot) e).0 b in
            absurd (n (rw (c, id_in) (ap some same)))
      ]
    ]

    owned_others :
        (d e : Text) (r : Option Slot)
        → d ≢ e
        → owned_of one_sensor d (take_out e r) ≡ owned_of one_sensor d r
    owned_others d e none n = refl
    owned_others d e (some slot) n = elim (Bool-cases (text_eq (entity_of slot) e)) [
      | inr b ↦ rw (b, take_out) refl
      | inl b ↦ elim (Bool-cases (text_eq (entity_of slot) d)) [
        | inl c ↦
            absurd (
              n (sym ((text_eq_iff (entity_of slot) d).0 c) ∙ (text_eq_iff (entity_of slot) e).0 b))
        | inr c ↦ rw (b, c, take_out, owned_of, find_entry) refl
      ]
    ]

    created :
        (u o : Text) (r : Option Slot)
        → is_empty r ≡ true
        → IsCreated one_sensor u o r (put own u (some o) r)
    created u o none h =
        let b = text_eq_refl u in
        record {
          answer = refl;
          id = rw (b, id_in) refl;
          others = λ p v n. other p v n;
          deleted = λ v n. refl;
          served = λ d. refl;
          owned = λ d n. elim (Bool-cases (text_eq (codes "sensor." ++ o) d)) [
            | inl c ↦ absurd (n (sym ((text_eq_iff (codes "sensor." ++ o) d).0 c)))
            | inr c ↦ rw (c, owned_of, find_entry) refl
          ];
        }
      where
        other :
            (p : Platform) (v : Text)
            → (p ≡ modbus) ⊎ (v ≢ u)
            → id_in p v (some (record { platform = own; unique_id = u; object_id = o })) ≡ none
        other modbus v n = refl
        other own v (inl h) = cc
        other own v (inr n) = elim (Bool-cases (text_eq u v)) [
          | inl b ↦ absurd (n (sym ((text_eq_iff u v).0 b)))
          | inr b ↦ rw (b, id_in) refl
        ]
    created u o (some slot) h = cc

-- The voltage sensor of the YAML block.
abbrev voltage : Option Slot
voltage =
    some (record {
      platform = modbus;
      unique_id = codes "WagoSpannungL1";
      object_id = codes "wago_l1";
    })

abbrev serial : Text
serial = codes "00001A2B"

async_adopt_legacy_entities-all_or_nothing_example :
    ((e : AdoptionError) × IsRefusal e
      × (async_adopt_legacy_entities one_sensor serial voltage ≡ (raise e, voltage)))
    ⊎ IsWhole one_sensor serial voltage
        (async_adopt_legacy_entities one_sensor serial voltage)
        legacy_unique_ids
async_adopt_legacy_entities-all_or_nothing_example =
    async_adopt_legacy_entities-all_or_nothing one_sensor (λ e r. is_empty r) one_sensor-IsRegistry
      serial voltage
