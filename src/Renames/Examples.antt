-- ===== src/Renames/Examples.antt =====
-- A registry of one sensor, whose entity id was built from the address.
use ha_wago.Base.{
  ◌≡◌, refl, none, some, [], ◌∷◌, arith, if◌then◌else◌, Bool-cases, inl, inr, ◌∙◌, sym,
}
use ha_wago.Base.Text.{Text, codes, text_eq, text_eq_iff, text_eq_refl}
use ha_wago.Renames.{Registered, Ids, async_rename_generated_entity_ids}
use ha_wago.Renames.Moved.{IsIds, IsUnlisted, AllRenamed, async_rename_generated_entity_ids_lem}

abbrev sensor_id : Text
sensor_id = codes "0000ABCD_voltage_l1"

-- The state is the entity id of the one sensor.
abbrev one_id : Ids Text
one_id = record {
  id_of = λ u r. if text_eq u sensor_id then some r else none;
  update = λ e wanted r. if text_eq e r then some wanted else none;
}

one_id-IsIds : IsIds one_id
one_id-IsIds = record {
  alone =
      λ u v e r h k. let uid = of_sensor u r e h in let vid = of_sensor v r e k in uid ∙ sym vid;
  moves = λ u e wanted r s h k. ground (arith, h, k);
  keeps = λ u e wanted r s h n. elim (Bool-cases (text_eq u sensor_id)) [
    | inr b ↦ rw b refl
    | inl b ↦ elim (Bool-cases (text_eq e r)) [
      | inr c ↦ absurd (ground (arith, h, c))
      | inl c ↦ absurd (n (rw (b, (text_eq_iff e r).0 c) refl))
    ]
  ];
}
  where
    of_sensor :
        (u r e : Text) → (if text_eq u sensor_id then some r else none) ≡ some e → u ≡ sensor_id
    of_sensor u r e h = elim (Bool-cases (text_eq u sensor_id)) [
      | inl b ↦ (text_eq_iff u sensor_id).0 b
      | inr b ↦ absurd (ground (arith, h, b))
    ]

abbrev sensor : Registered
sensor = record {
  unique_id = sensor_id;
  entity_id = codes "sensor.10.0.0.5 Voltage L1";
  domain = codes "sensor";
  original_name = some (codes "Voltage L1");
}

abbrev plain_text : Text → Text
plain_text t = t

async_rename_generated_entity_ids_lem_example :
    AllRenamed plain_text one_id one_id-IsIds (codes "10.0.0.5") (codes "0000ABCD") (sensor ∷ []) (
      async_rename_generated_entity_ids plain_text one_id
        (codes "10.0.0.5")
        (codes "0000ABCD")
        (sensor ∷ [])
        sensor.entity_id)
    × ((u : Text)
        → IsUnlisted u (sensor ∷ [])
        → one_id.id_of u (
            async_rename_generated_entity_ids plain_text one_id
              (codes "10.0.0.5")
              (codes "0000ABCD")
              (sensor ∷ [])
              sensor.entity_id)
          ≡ one_id.id_of u sensor.entity_id)
async_rename_generated_entity_ids_lem_example =
    async_rename_generated_entity_ids_lem plain_text one_id one_id-IsIds (codes "10.0.0.5")
      (codes "0000ABCD") (sensor ∷ []) sensor.entity_id (rw (text_eq_refl sensor_id) refl, tt, tt)
