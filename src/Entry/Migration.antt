-- ===== src/Entry/Migration.antt =====
-- What the migration of an entry keeps.
use ha_wago.Base.{
  ℕ, String, ◌≡◌, refl, ap, ◌∙◌, Option, none, some, List, [], ◌∷◌, arith, ltb, Option-cases,
  Bool-cases, inl, inr,
}
use text.Mathlib.Text.{◌==◌ as str_eq}
use text.Mathlib.TextEquality.{eq_iff}
use ha_wago.Base.Text.{Text}
use ha_wago.Base.Dict.{
  Dict, lookup, insert, without, or_none, lookup-insert, lookup-without, lookup-merge,
}
use ha_wago.Entry.{
  Stored, Entry, stored, setting, stored_int, pop_all, async_migrate_entry, interval_fields,
}

-- No key is in both.
abbrev Apart : Dict Stored → Dict Stored → Type 0
Apart moved left = (k : String) (v : Stored) → lookup k left ≡ some v → lookup k moved ≡ none

Apart-insert :
    (key : String) (v : Stored) (moved left : Dict Stored)
    → Apart moved left
    → Apart (insert key v moved) (without key left)
Apart-insert key v moved left apart k w h =
    ground (arith, lookup-insert key k v moved, lookup-without key k left, apart k w)

lookup-moved :
    (key k : String) (v : Stored) (moved left : Dict Stored)
    → Apart moved left
    → lookup key left ≡ some v
    → or_none (lookup k (insert key v moved)) (lookup k (without key left))
      ≡ or_none (lookup k moved) (lookup k left)
unfolding or_none
lookup-moved key k v moved left apart h = elim (Bool-cases (str_eq key k)) [
  | inl b ↦
      let same = (eq_iff key k).0 b in
      ground (arith, same, lookup-insert key k v moved, lookup-without key k left, apart key v h)
  | inr b ↦ ground (arith, lookup-insert key k v moved, lookup-without key k left)
]

lookup-pop_all :
    (keys : List String) (moved left : Dict Stored) (k : String)
    → Apart moved left
    → or_none (lookup k (pop_all keys moved left).0) (lookup k (pop_all keys moved left).1)
      ≡ or_none (lookup k moved) (lookup k left)
unfolding pop_all
lookup-pop_all [] moved left k apart = refl
lookup-pop_all (key ∷ keys) moved left k apart = elim (Option-cases (lookup key left)) [
  | inl e ↦ rw (e, pop_all) (lookup-pop_all keys moved left k apart)
  | inr (v, e) ↦
      rw (e, pop_all)
        (lookup-pop_all keys (insert key v moved) (without key left) k
            (Apart-insert key v moved left apart)
          ∙ lookup-moved key k v moved left apart e)
]

or_none_assoc : (a b c : Option Stored) → or_none (or_none a b) c ≡ or_none a (or_none b c)
unfolding or_none
or_none_assoc (some x) b c = refl
or_none_assoc none b c = refl

stored-migrated :
    (entry : Entry) (k : String) → stored (async_migrate_entry entry).1 k ≡ stored entry k
unfolding stored async_migrate_entry lookup or_none
stored-migrated entry k = elim (Bool-cases (ltb entry.minor_version 2)) [
  | inl b ↦
      let popped = pop_all interval_fields [] entry.data_of in
      rw b (
        ap (λ o. or_none o (lookup k popped.1)) (lookup-merge popped.0 entry.options k)
        ∙ or_none_assoc (lookup k entry.options) (lookup k popped.0) (lookup k popped.1)
        ∙ ap (or_none (lookup k entry.options))
            (lookup-pop_all interval_fields [] entry.data_of k (λ j v h. refl)))
  | inr b ↦ rw b refl
]

-- The migration changes what no setting reads: every setting of an entry, the intervals included,
-- has the value that it had before, options set since winning over the data that was moved.
pub setting-async_migrate_entry :
    (int : Text → Option ℕ) (entry : Entry) (key : String) (default : ℕ)
    → setting int (async_migrate_entry entry).1 key default ≡ setting int entry key default
unfolding setting
setting-async_migrate_entry int entry key default =
    ap (λ o. elim o as (λ _. Option ℕ) [ none ↦ some default | some value ↦ stored_int int value ])
      (stored-migrated entry key)
