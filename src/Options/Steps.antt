-- ===== src/Options/Steps.antt =====
-- What one write of a page answers, by what `async_write` made of its changes.
use ha_wago.Base.{◌≡◌, ◌⊎◌, inl, inr, refl, Bool, true, List, [], ◌∷◌, Option-cases}
use ha_wago.Base.Text.{Text}
use ha_wago.Base.Outcome.{Outcome, ok, raise}
use ha_wago.Modbus.{ModbusUnit}
use ha_wago.Device.Write.{
  Change, StringEncoder, WriteError, modbus_error, module_not_applied, value_error, async_write,
}
use ha_wago.ModuleSettings.{Settings}
use ha_wago.Base.Dict.{Dict}
use ha_wago.Entry.{Stored}
use ha_wago.Flow.Moving.{Entries, host_in}
use ha_wago.Options.{
  Page, Answer, finished, blank_form, write_failed_form, refused_form, aborted,
  module_not_confirming, entry_changed, PageError, After, written, write_changes,
}

-- The answers that show the form again.
abbrev pub ShowsForm : Outcome PageError Answer → Type 0
ShowsForm (ok write_failed_form) = Unit
ShowsForm (ok blank_form) = Unit
ShowsForm (ok (refused_form e)) = Unit
ShowsForm r = ⊥

-- The answers that end the page after its settings were stored.
abbrev pub EndsStored : Outcome PageError Answer → Type 0
EndsStored (ok finished) = Unit
EndsStored (ok (aborted module_not_confirming)) = Unit
EndsStored (ok (aborted entry_changed)) = Unit
EndsStored r = ⊥

module _ {S H : Type 0} (unit : ModbusUnit S) (enc : StringEncoder) (entries : Entries H)
    (is_ipv6 : Text → Bool) (meanwhile : H → H) where
  -- What `written` makes of the end of `async_write`.
  pub record IsWritten (r : Outcome WriteError (Unit {0})) (s : S) (after : After S H)
      : Type 0 where
    pub same_link : after.link ≡ s
    pub form : ShowsForm after.answer → after.page.write_failed ≡ true
    pub ends : EndsStored after.answer → (r ≡ ok tt) ⊎ (r ≡ raise module_not_applied)

  written-IsWritten :
      (r : Outcome WriteError (Unit {0})) (entry_id : Text) (seen : Dict Stored) (host : Text)
      (current settings : Settings) (page : Page) (s : S) (h : H)
      → IsWritten r s (
          written unit enc entries is_ipv6 meanwhile r entry_id seen host current settings page s h)
  unfolding written
  written-IsWritten (ok done) entry_id seen host current settings page s h =
      elim (Option-cases (entries.get_entry entry_id h)) [
        | inl e ↦
            rw (e, written)
              (record { same_link = refl; form = λ q. absurd q; ends = λ q. inl refl })
        | inr (entry, e) ↦
            rw (e, written)
              (record { same_link = refl; form = λ q. absurd q; ends = λ q. inl refl })
      ]
  written-IsWritten (raise (modbus_error x)) entry_id seen host current settings page s h = record {
    same_link = refl;
    form = λ q. refl;
    ends = λ q. absurd q;
  }
  written-IsWritten (raise module_not_applied) entry_id seen host current settings page s h =
      record { same_link = refl; form = λ q. absurd q; ends = λ q. inr refl }
  written-IsWritten (raise value_error) entry_id seen host current settings page s h = record {
    same_link = refl;
    form = λ q. absurd q;
    ends = λ q. absurd q;
  }

  -- What `write_changes` makes of some changes: an end without a write only for none of them.
  pub record IsChanged (cs : List Change) (s : S) (after : After S H) : Type 0 where
    pub form : ShowsForm after.answer → after.page.write_failed ≡ true
    pub ends :
        EndsStored after.answer
        → ((cs ≡ []) × (after.link ≡ s))
          ⊎ ((after.link ≡ (async_write unit enc cs s).1)
              × (((async_write unit enc cs s).0 ≡ ok tt)
                  ⊎ ((async_write unit enc cs s).0 ≡ raise module_not_applied)))

  pub write_changes-IsChanged :
      (cs : List Change) (entry_id : Text) (current settings : Settings) (page : Page) (s : S)
      (h : H)
      → IsChanged cs s
          (write_changes unit enc entries is_ipv6 meanwhile cs entry_id current settings page s h)
  unfolding write_changes
  write_changes-IsChanged [] entry_id current settings page s h =
      elim (Option-cases (entries.get_entry entry_id h)) [
        | inl e ↦ rw (e, write_changes) (record { form = λ q. absurd q; ends = λ q. absurd q })
        | inr (entry, e) ↦
            rw (e, write_changes) (record { form = λ q. absurd q; ends = λ q. inl (refl, refl) })
      ]
  write_changes-IsChanged (c ∷ cs) entry_id current settings page s h =
      elim (Option-cases (entries.get_entry entry_id h)) [
        | inl e ↦ rw (e, write_changes) (record { form = λ q. absurd q; ends = λ q. absurd q })
        | inr (entry, e) ↦ elim (Option-cases (host_in entry.data_of)) [
          | inl n ↦ rw (e, n, write_changes) (record { form = λ q. absurd q; ends = λ q. absurd q })
          | inr (host, k) ↦
              let w =
                written-IsWritten (async_write unit enc (c ∷ cs) s).0 entry_id entry.data_of host
                  current settings page (async_write unit enc (c ∷ cs) s).1 (meanwhile h) in
              rw (e, k, write_changes)
                (record { form = w.form; ends = λ q. inr (w.same_link, w.ends q) })
        ]
      ]
