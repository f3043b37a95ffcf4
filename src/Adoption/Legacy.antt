-- ===== src/Adoption/Legacy.antt =====
-- `async_adopt_legacy_entities`, of the sensors of the replaced YAML block.
use ha_wago.Base.{◌≡◌, ◌≢◌, ◌⊎◌, refl, String, Bool, true, not, ◌&&◌, [], ◌∷◌, ◌++◌, arith}
use ha_wago.Base.Text.{Text, codes, text_eq, text_eq_iff}
use ha_wago.Base.Dict.{Dict}
use ha_wago.Base.Outcome.{raise}
use ha_wago.Entities.{legacy_unique_ids}
use ha_wago.Adoption.{Registry, AdoptionError, unique_id_of, async_adopt_legacy_entities}
use ha_wago.Adoption.Laws.{IsRegistry}
use ha_wago.Adoption.Ready.{LacksOld, LacksNew, IsDistinct}
use ha_wago.Adoption.Refusal.{IsRefusal}
use ha_wago.Adoption.Whole.{IsWhole, adopt_table-IsWhole}

lacks_old : Text → Dict String → Bool
lacks_old u [] = true
lacks_old u ((old, field) ∷ table) = not (text_eq u (codes old)) && lacks_old u table

lacks_field : Text → Dict String → Bool
lacks_field u [] = true
lacks_field u ((old, field) ∷ table) = not (text_eq u (codes field)) && lacks_field u table

distinct : Dict String → Bool
unfolding lacks_old lacks_field
distinct [] = true
distinct ((old, field) ∷ table) =
    lacks_old (codes old) table && lacks_field (codes field) table && distinct table

not-text_eq : (s t : Text) → not (text_eq s t) ≡ true → s ≢ t
not-text_eq s t h e = let (_, k) = text_eq_iff s t in absurd (ground (arith, k e))

lacks_old-LacksOld : (u : Text) (table : Dict String) → lacks_old u table ≡ true → LacksOld u table
unfolding lacks_old
lacks_old-LacksOld u [] h = tt
lacks_old-LacksOld u ((old, field) ∷ table) h =
    (not-text_eq u (codes old) (ground arith), lacks_old-LacksOld u table (ground arith))

append_cancel : (s t u : Text) → s ++ t ≡ s ++ u → t ≡ u
append_cancel [] t u h = h
append_cancel (c ∷ s) t u h = append_cancel s t u (ground arith)

lacks_field-LacksNew :
    (serial : Text) (field : String) (table : Dict String)
    → lacks_field (codes field) table ≡ true
    → LacksNew serial (unique_id_of serial field) table
unfolding lacks_field
lacks_field-LacksNew serial field [] h = tt
lacks_field-LacksNew serial field ((old, other) ∷ table) h = (
  (λ e.
      not-text_eq (codes field) (codes other) (ground arith)
        (append_cancel (serial ++ codes "_") (codes field) (codes other) e)),
  lacks_field-LacksNew serial field table (ground arith),
)

distinct-IsDistinct :
    (serial : Text) (table : Dict String) → distinct table ≡ true → IsDistinct serial table
unfolding distinct
distinct-IsDistinct serial [] h = tt
distinct-IsDistinct serial ((old, field) ∷ table) h = (
  lacks_old-LacksOld (codes old) table (ground arith),
  lacks_field-LacksNew serial field table (ground arith),
  distinct-IsDistinct serial table (ground arith),
)

legacy_distinct : distinct legacy_unique_ids ≡ true
unfolding distinct lacks_old lacks_field text_eq
legacy_distinct = refl

-- The adoption is all or nothing, given the documented behaviour of the registry. It is refused for
-- a legacy entity that is still served, a new unique id that is registered or a removed entry that
-- would restore another entity id, and then nothing has changed. Or else it returns, and every
-- legacy entity id is that of its new unique id and no longer of the legacy one, no other unique id
-- has changed its entity id, and under every entity id stand the fields that the user owns as they
-- stood before.
pub async_adopt_legacy_entities-all_or_nothing :
    {V R : Type 0} (registry : Registry V R) (available : Text → R → Bool)
    (laws : IsRegistry registry available) (serial : Text) (r : R)
    → ((e : AdoptionError) × IsRefusal e
        × (async_adopt_legacy_entities registry serial r ≡ (raise e, r)))
      ⊎ IsWhole registry serial r (async_adopt_legacy_entities registry serial r) legacy_unique_ids
unfolding async_adopt_legacy_entities
async_adopt_legacy_entities-all_or_nothing registry available laws serial r =
    adopt_table-IsWhole registry serial available laws legacy_unique_ids r
      (distinct-IsDistinct serial legacy_unique_ids legacy_distinct)
