-- ===== src/Adoption/Whole.antt =====
-- `async_adopt_legacy_entities` over the whole table.
use ha_wago.Base.{
  Bool-cases, arith, ap, ◌≡◌, ◌⊎◌, inl, inr, refl, ◌∙◌, sym, String, Bool, none, List, [], ◌∷◌,
}
use mathlib.Core.Path.{subst}
use ha_wago.Base.Text.{Text, codes, text_eq, text_eq_iff}
use ha_wago.Base.Dict.{Dict}
use ha_wago.Base.Outcome.{Outcome, ok, raise, Outcome-cases}
use ha_wago.Adoption.{
  modbus, own, Registry, AdoptionError, Adoption, resolve, unique_id_of, adopt, adopt_all,
  adopt_table,
}
use ha_wago.Adoption.Laws.{owned_of, IsRegistry}
use ha_wago.Adoption.Ready.{LacksOld, LacksNew, IsDistinct, IsReady, resolve-IsReady, IsReady-keep}
use ha_wago.Adoption.Refusal.{IsRefusal, resolve-IsRefusal}
use ha_wago.Adoption.Step.{IsAdopted, adopt-IsAdopted}

module _ {V R : Type 0} (registry : Registry V R) (serial : Text) where
  open registry use {get_entity_id}

  -- Every entity id of a legacy entity in `r` is, in `s`, that of the new unique id.
  abbrev pub AllTaken : (r s : R) → Dict String → Type 0
  AllTaken r s [] = Unit
  AllTaken r s ((old, field) ∷ table) =
      ((get_entity_id modbus (codes old) r ≡ none)
        ⊎ (get_entity_id own (unique_id_of serial field) s ≡ get_entity_id modbus (codes old) r))
      × (get_entity_id modbus (codes old) s ≡ none)
      × AllTaken r s table

  -- No other unique id is touched.
  pub record IsConfined (r s : R) (table : Dict String) : Type 0 where
    pub legacy : (u : Text) → LacksOld u table → get_entity_id modbus u s ≡ get_entity_id modbus u r
    pub own_ids :
        (u : Text) → LacksNew serial u table → get_entity_id own u s ≡ get_entity_id own u r

  -- What is left by a run that returned.
  pub record IsWhole (r : R) (result : Outcome AdoptionError (Unit {0}) × R) (table : Dict String)
      : Type 0 where
    pub done : result.0 ≡ ok tt
    pub taken : AllTaken r result.1 table
    pub confined : IsConfined r result.1 table
    pub settings : (d : Text) → owned_of registry d result.1 ≡ owned_of registry d r

  adopt_all-eq :
      (r : R) (adoptions rest : List (Adoption V)) (a : Adoption V)
      → adoptions ≡ a ∷ rest
      → (adopt registry a r).0 ≡ ok tt
      → adopt_all registry adoptions r ≡ adopt_all registry rest (adopt registry a r).1
  unfolding adopt_all
  adopt_all-eq r adoptions rest a h k = rw (h, k, adopt_all) refl

  module _ (available : Text → R → Bool) (laws : IsRegistry registry available) where
    AllTaken-before :
        (r s t : R) (old new e : Text) (table : Dict String)
        → IsAdopted registry r s old new e
        → LacksOld old table
        → AllTaken s t table
        → AllTaken r t table
    AllTaken-before r s t old new e [] adopted lacks taken = tt
    AllTaken-before r s t old new e ((o, f) ∷ table) adopted lacks taken = (
      (let same = adopted.others_legacy (codes o) (λ k. lacks.0 (sym k)) in
          elim taken.0 [ inl n ↦ inl (sym same ∙ n) | inr m ↦ inr (m ∙ same) ]),
      taken.1,
      AllTaken-before r s t old new e table adopted lacks.1 taken.2,
    )

    -- A list that is ready is adopted to its end.
    adopt_all-IsWhole :
        (r : R) (table : Dict String) (adoptions : List (Adoption V))
        → IsDistinct serial table
        → IsReady registry serial r table adoptions
        → IsWhole r (adopt_all registry adoptions r) table
    unfolding adopt_all
    adopt_all-IsWhole r [] adoptions distinct ready =
        let nothing : adopt_all registry adoptions r ≡ (ok tt, r) = rw (ready, adopt_all) refl in
        subst (λ q. IsWhole r q []) (sym nothing)
          (record {
            done = refl;
            taken = tt;
            confined = record { legacy = λ u l. refl; own_ids = λ u l. refl };
            settings = λ d. refl;
          })
    adopt_all-IsWhole r ((old, field) ∷ table) adoptions distinct (inl (absent, ready)) =
        let w = adopt_all-IsWhole r table adoptions distinct.2 ready in
        record {
          done = w.done;
          taken = (inl absent, w.confined.legacy (codes old) distinct.0 ∙ absent, w.taken);
          confined = record {
            legacy = λ u l. w.confined.legacy u l.1;
            own_ids = λ u l. w.confined.own_ids u l.1;
          };
          settings = w.settings;
        }
    adopt_all-IsWhole r ((old, field) ∷ table) adoptions distinct
          (inr (a, rest, same, is_new, p, owned, ready)) =
        let s = (adopt registry a r).1 in
        let (first, adopted, settled) = adopt-IsAdopted registry available laws r (codes old) a p in
        let lacks_new : LacksNew serial a.new_unique_id table = rw is_new distinct.1 in
        let kept =
          IsReady-keep registry serial available laws r s (codes old) a.new_unique_id
            a.legacy.entity_id table rest adopted p.legacy_id distinct.0 lacks_new ready in
        let w = adopt_all-IsWhole s table rest distinct.2 kept in
        let moved = w.confined.own_ids a.new_unique_id lacks_new ∙ adopted.taken in
        subst (λ q. IsWhole r q ((old, field) ∷ table))
          (sym (adopt_all-eq r adoptions rest a same first))
          (record {
            done = w.done;
            taken = (
              inr (rw (← is_new) (moved ∙ sym p.legacy_id)),
              w.confined.legacy (codes old) distinct.0 ∙ adopted.left,
              AllTaken-before r s _ (codes old) a.new_unique_id a.legacy.entity_id table adopted
                  distinct.0 w.taken,
            );
            confined = record {
              legacy = λ u l. w.confined.legacy u l.1 ∙ adopted.others_legacy u l.0;
              own_ids =
                  λ u l. w.confined.own_ids u l.1 ∙ adopted.others_own u (λ h. l.0 (h ∙ is_new));
            };
            settings = λ d. w.settings d ∙ (elim (Bool-cases (text_eq d a.legacy.entity_id)) [
              | inl b ↦
                  let e = (text_eq_iff d a.legacy.entity_id).0 b in
                  ap (λ x. owned_of registry x s) e
                  ∙ settled
                  ∙ sym owned
                  ∙ ap (λ x. owned_of registry x r) (sym e)
              | inr b ↦ adopted.others_owned d (λ e.
                  let (_, k) = text_eq_iff d a.legacy.entity_id in absurd (ground (arith, b, k e)))
            ]);
          })

    -- Either an exception, and the registry as it was, or every legacy entity id of the table is
    -- that of its new unique id, and of no other, with what the user decided of it.
    pub adopt_table-IsWhole :
        (table : Dict String) (r : R)
        → IsDistinct serial table
        → ((e : AdoptionError) × IsRefusal e × (adopt_table registry table serial r ≡ (raise e, r)))
          ⊎ IsWhole r (adopt_table registry table serial r) table
    unfolding adopt_table
    adopt_table-IsWhole table r distinct = elim (Outcome-cases (resolve registry table serial r)) [
      | inr (e, h) ↦ inl (
        e,
        resolve-IsRefusal registry serial available laws r table e h,
        rw (h, adopt_table) refl,
      )
      | inl (adoptions, h) ↦
          let w =
            adopt_all-IsWhole r table adoptions distinct
              (resolve-IsReady registry serial available laws r table adoptions h) in
          let same : adopt_table registry table serial r ≡ adopt_all registry adoptions r =
            rw (h, adopt_table) refl in
          inr (subst (λ q. IsWhole r q table) (sym same) w)
    ]
