-- ===== src/Adoption.antt =====
-- custom_components/wago_879/migration.py: taking over the entity ids of the YAML block. Home
-- Assistant's registry and its states are a parameter, `Registry`.
pub mod Laws
pub mod Step
pub mod Ready
pub mod Refusal
mod Examples
pub mod Whole
pub mod Legacy
use ha_wago.Base.{
  String, Bool, true, false, not, ◌&&◌, Option, none, some, List, [], ◌∷◌, ◌++◌, ◌==◌,
  if◌then◌else◌,
}
use ha_wago.Base.Text.{Text, codes, text_eq}
use ha_wago.Base.Outcome.{Outcome, ok, raise}
use ha_wago.Base.Dict.{Dict}
use ha_wago.Entities.{legacy_unique_ids}

-- The platforms of the two blocks: `LEGACY_PLATFORM` and `DOMAIN`, both in the domain of sensors.
pub data Platform : Type 0 where
  modbus own : Platform

-- Who disabled or hid an entity.
pub data Decider : Type 0 where
  user anyone_else : Decider

-- `USER_OWNED_FIELDS`, with values of which nothing is used.
pub record UserOwned (V : Type 0) : Type 0 where
  pub aliases : V
  pub area_id : V
  pub categories : V
  pub device_class : V
  pub icon : V
  pub labels : V
  pub name : V

-- An entry of the registry. `options` are by domain.
pub record RegistryEntry (V : Type 0) : Type 0 where
  pub entity_id : Text
  pub platform : Platform
  pub unique_id : Text
  pub user_owned : UserOwned V
  pub disabled_by : Option Decider
  pub hidden_by : Option Decider
  pub options : List (Text × V)

-- The keywords of an update; a missing one leaves the field of the entry.
pub record Keywords (V : Type 0) : Type 0 where
  pub user_owned : UserOwned V
  pub disabled_by : Option Decider
  pub hidden_by : Option Decider

-- The calls of the registry and of the states. `state_of` tells of a state whether it has the mark
-- of a restored one. `get_or_create` takes the suggested object id, and answers the entity id.
pub record Registry (V R : Type 0) : Type 0 where
  pub get_entity_id : Platform → Text → R → Option Text
  pub entry_at : Text → R → Option (RegistryEntry V)
  pub deleted_of : Platform → Text → R → Option Text
  pub state_of : Text → R → Option Bool
  pub remove : Text → R → R
  pub get_or_create : Platform → Text → Option Text → R → Text × R
  pub update : Text → Keywords V → R → R
  pub update_options : Text → Text → V → R → R

pub data AdoptionError : Type 0 where
  yaml_still_active unique_id_taken removed_entry_in_the_way entity_id_taken : AdoptionError
  key_error index_error : AdoptionError

pub record Adoption (V : Type 0) : Type 0 where
  pub legacy : RegistryEntry V
  pub new_unique_id : Text

-- `x if x is USER`
unfoldable pub if_user : Option Decider → Option Decider
if_user (some user) = some user
if_user other = none

-- `_user_settings`
unfoldable pub user_settings : {V : Type 0} → RegistryEntry V → Keywords V
unfolding if_user
user_settings legacy = record {
  user_owned = legacy.user_owned;
  disabled_by = if_user legacy.disabled_by;
  hidden_by = if_user legacy.hidden_by;
}

-- The text after the first dot, `split(".", 1)[1]`.
unfoldable pub after_dot : Text → Option Text
after_dot [] = none
after_dot (c ∷ t) = if c == 46 then some t else after_dot t

-- `f"{serial}_{field}"`
abbrev pub unique_id_of : Text → String → Text
unique_id_of serial field = serial ++ codes "_" ++ codes field

module _ {V R : Type 0} (registry : Registry V R) where
  open registry use {get_entity_id, entry_at, deleted_of, state_of, remove, get_or_create}

  -- A state without the mark of a restored one.
  unfoldable pub is_served : Text → R → Bool
  is_served entity_id r = elim (state_of entity_id r) [
    | none ↦ false
    | some restored ↦ not restored
  ]

  unfoldable pub restores_other : Text → Text → R → Bool
  restores_other new_unique_id entity_id r = elim (deleted_of own new_unique_id r) [
    | none ↦ false
    | some deleted ↦ not (text_eq deleted entity_id)
  ]

  -- The turn of the loop in `_resolve` for one legacy entity that is registered.
  unfoldable pub resolve_one :
      (entity_id new_unique_id : Text) → R → Outcome AdoptionError (Adoption V)
  unfolding is_served restores_other
  resolve_one entity_id new_unique_id r =
      if is_served entity_id r
      then raise yaml_still_active
      else elim (get_entity_id own new_unique_id r) [
        | some held_by ↦ raise unique_id_taken
        | none ↦
            if restores_other new_unique_id entity_id r
            then raise removed_entry_in_the_way
            else elim (entry_at entity_id r) [
              | none ↦ raise key_error
              | some legacy ↦ ok (record { legacy = legacy; new_unique_id = new_unique_id })
            ]
      ]

  -- `_resolve`
  unfoldable pub resolve :
      Dict String → (serial : Text) → R → Outcome AdoptionError (List (Adoption V))
  unfolding resolve_one
  resolve [] serial r = ok []
  resolve ((legacy_unique_id, field) ∷ rest) serial r =
      let others = resolve rest serial r in
      elim (get_entity_id modbus (codes legacy_unique_id) r) [
        | none ↦ others
        | some entity_id ↦ elim (resolve_one entity_id (unique_id_of serial field) r) [
          | raise e ↦ raise e
          | ok adoption ↦ elim others [
            | raise e ↦ raise e
            | ok adoptions ↦ ok (adoption ∷ adoptions)
          ]
        ]
      ]

  unfoldable pub copy_options : Text → List (Text × V) → R → R
  copy_options entity_id [] r = r
  copy_options entity_id ((domain, options) ∷ rest) r =
      copy_options entity_id rest (registry.update_options entity_id domain options r)

  -- What follows the creation of the new entry: the user's settings, or the way back.
  unfoldable pub settle : Adoption V → (created : Text) → R → Outcome AdoptionError (Unit {0}) × R
  unfolding copy_options user_settings
  settle adoption created r =
      let legacy = adoption.legacy in
      if not (text_eq created legacy.entity_id)
      then (
        raise entity_id_taken,
        (get_or_create modbus legacy.unique_id none (remove created r)).1,
      )
      else (
        ok tt,
        copy_options created legacy.options (registry.update created (user_settings legacy) r),
      )

  -- One turn of the loop in `async_adopt_legacy_entities`.
  unfoldable pub adopt : Adoption V → R → Outcome AdoptionError (Unit {0}) × R
  unfolding after_dot settle
  adopt adoption r =
      let entity_id = adoption.legacy.entity_id in
      elim (after_dot entity_id) [
        | none ↦ (raise index_error, r)
        | some object_id ↦
            let (created, r') =
              get_or_create own adoption.new_unique_id (some object_id) (remove entity_id r) in
            settle adoption created r'
      ]

  unfoldable pub adopt_all : List (Adoption V) → R → Outcome AdoptionError (Unit {0}) × R
  unfolding adopt
  adopt_all [] r = (ok tt, r)
  adopt_all (adoption ∷ rest) r =
      let (result, r') = adopt adoption r in
      elim result [ raise e ↦ (raise e, r') | ok done ↦ adopt_all rest r' ]

  -- `async_adopt_legacy_entities`, of a table from legacy unique ids to fields.
  unfoldable pub adopt_table :
      Dict String → (serial : Text) → R → Outcome AdoptionError (Unit {0}) × R
  unfolding resolve adopt_all
  adopt_table table serial r = elim (resolve table serial r) [
    | raise e ↦ (raise e, r)
    | ok adoptions ↦ adopt_all adoptions r
  ]

  unfoldable pub async_adopt_legacy_entities :
      (serial : Text) → R → Outcome AdoptionError (Unit {0}) × R
  unfolding adopt_table
  async_adopt_legacy_entities serial r = adopt_table legacy_unique_ids serial r
