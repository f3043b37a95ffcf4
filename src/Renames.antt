-- ===== src/Renames.antt =====
-- custom_components/wago_879/entity_id_rename.py: entity ids that were built from the meter's
-- address. `slugify` and the registry of Home Assistant are parameters.
pub mod Moved
mod Examples
use ha_wago.Base.{Bool, true, false, Option, none, some, List, [], ◌∷◌, ◌++◌, if◌then◌else◌}
use ha_wago.Base.Text.{Text, codes, text_eq}
use ha_wago.Entry.Setup.{device_name}

-- An entry of the registry.
pub record Registered : Type 0 where
  pub unique_id : Text
  pub entity_id : Text
  pub domain : Text
  pub original_name : Option Text

-- `async_update_entity` of the entity id, none for a `ValueError`, and the entity id of a unique id.
pub record Ids (R : Type 0) : Type 0 where
  pub id_of : Text → R → Option Text
  pub update : (entity_id new_entity_id : Text) → R → Option R

module _ (slugify : Text → Text) where
  -- `_generated_entity_id`, of an entry with an original name.
  unfoldable pub generated_entity_id : (domain original_name device : Text) → Text
  generated_entity_id domain original_name device =
      domain ++ codes "." ++ slugify (device ++ codes " " ++ original_name)

  module _ {R : Type 0} (ids : Ids R) (host serial : Text) where
    -- The turn of the loop for one entry. The host has been read from the entry's data before.
    unfoldable pub rename : Registered → R → R
    unfolding generated_entity_id
    rename x r = elim x.original_name [
      | none ↦ r
      | some name ↦
          if text_eq x.entity_id (generated_entity_id x.domain name host)
          then elim (ids.update x.entity_id (generated_entity_id x.domain name (device_name serial))
              r) [ none ↦ r | some renamed ↦ renamed ]
          else r
    ]

    -- `async_rename_generated_entity_ids`, of the entries that the registry lists.
    unfoldable pub async_rename_generated_entity_ids : List Registered → R → R
    unfolding rename
    async_rename_generated_entity_ids [] r = r
    async_rename_generated_entity_ids (x ∷ xs) r = async_rename_generated_entity_ids xs (rename x r)
