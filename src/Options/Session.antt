-- ===== src/Options/Session.antt =====
-- The page of the module's settings over all of its submissions.
use ha_wago.Base.{
  ℕ, ◌≡◌, ◌⊎◌, inl, inr, refl, ◌∙◌, sym, Bool, true, false, Option, none, some, List, [],
  Bool-cases,
}
use mathlib.Core.Path.{subst}
use ha_wago.Base.Text.{Text}
use ha_wago.Base.Outcome.{Outcome, ok, raise}
use ha_wago.Python.{FloatText}
use ha_wago.Modbus.{ModbusUnit, IsRegisters}
use ha_wago.Device.Write.{StringEncoder}
use ha_wago.ModuleSettings.{Refused, Form, Settings}
use ha_wago.ModuleSettings.Accept.{Crash, crash, module_settings}
use ha_wago.Flow.Moving.{Entries}
use ha_wago.Options.{Page, After, sent, write_changes, page_write, submit}
use ha_wago.Options.Changes.{all_changes, changed, select, changes_of}
use ha_wago.Device.Write.Effect.{after_changes}
use ha_wago.Options.Encodes.{IsEncoder, IsReported, AllFit, module_settings-AllFit}
use ha_wago.Options.Holds.{AllHold, Kept, after_changes-select}
use ha_wago.Options.Steps.{ShowsForm, EndsStored, write_changes-IsChanged}
use ha_wago.Options.Settled.{
  all_changes-AllApart, every_one, select-every_one, every_one-Kept, changed-Kept, write-AllHold,
}

-- A page, and a module that nothing but the page writes: from the moment the module was read, when
-- its registers hold what it reported, over submissions that show the form again.
pub data Session {S H : Type 0} (unit : ModbusUnit S) (word : S → ℕ → ℕ) (enc : StringEncoder)
    (entries : Entries H) (is_ipv6 : Text → Bool) (floats : FloatText) (entry_id : Text)
    (current : Settings) : Page → S → Type 0 where
  opened :
      (page : Page) (s : S)
      → page.write_failed ≡ false
      → AllHold enc (word s) (all_changes current)
      → Session unit word enc entries is_ipv6 floats entry_id current page s
  again :
      (meanwhile : H → H) (form : Option Form) (before page : Page) (t s : S) (h : H)
      → Session unit word enc entries is_ipv6 floats entry_id current before t
      → (after : After S H)
      → after ≡ submit unit enc entries is_ipv6 meanwhile floats entry_id current form before t h
      → ShowsForm after.answer
      → page ≡ after.page
      → s ≡ after.link
      → Session unit word enc entries is_ipv6 floats entry_id current page s

module _ {S H : Type 0} (unit : ModbusUnit S) (word : S → ℕ → ℕ) (registers : IsRegisters unit word)
    (enc : StringEncoder) (laws : IsEncoder enc) (entries : Entries H) (is_ipv6 : Text → Bool)
    (floats : FloatText) (entry_id : Text) (current : Settings) where
  -- All settings are sent, or the registers still hold what the module reported.
  abbrev Known : Page → S → Type 0
  Known page s = (page.write_failed ≡ true) ⊎ AllHold enc (word s) (all_changes current)

  sent-select :
      (settings : Settings) (page : Page) (s : S)
      → Known page s
      → (bs : List Bool) × (sent unit enc entries is_ipv6 (λ (h : H). h) page current settings
          ≡ select bs (all_changes settings))
        × Kept enc (word s) bs (all_changes settings)
  unfolding sent changes_of
  sent-select settings page s (inl failed) =
      (every_one, rw failed (sym (select-every_one settings)), every_one-Kept enc (word s) settings)
  sent-select settings page s (inr held) = elim (Bool-cases page.write_failed) [
    | inl failed ↦ (
      every_one,
      rw failed (sym (select-every_one settings)),
      every_one-Kept enc (word s) settings,
    )
    | inr not_failed ↦
        (changed current settings, rw not_failed, changed-Kept enc (word s) current settings held)
  ]

  -- What a submission of accepted settings leaves: shown again, the page sends everything next
  -- time, and ended, the module holds the settings.
  record IsSettled (settings : Settings) (after : After S H) : Type 0 where
    form : ShowsForm after.answer → after.page.write_failed ≡ true
    ends : EndsStored after.answer → AllHold enc (word after.link) (all_changes settings)

  nothing_sent :
      (settings : Settings) (bs : List Bool) (s : S)
      → AllFit enc (all_changes settings)
      → Kept enc (word s) bs (all_changes settings)
      → select bs (all_changes settings) ≡ []
      → AllHold enc (word s) (all_changes settings)
  unfolding after_changes
  nothing_sent settings bs s fits kept none_left =
      subst (λ cs. AllHold enc (after_changes enc cs (word s)) (all_changes settings)) none_left
        (after_changes-select enc bs (all_changes settings) (word s) (all_changes-AllApart settings)
          fits kept)

  page_write-IsSettled :
      (meanwhile : H → H) (settings : Settings) (page : Page) (s : S) (h : H)
      → Known page s
      → AllFit enc (all_changes settings)
      → IsSettled settings
          (page_write unit enc entries is_ipv6 meanwhile entry_id current settings page s h)
  unfolding page_write
  page_write-IsSettled meanwhile settings page s h known fits =
      let (bs, e, kept) = sent-select settings page s known in
      let cs = select bs (all_changes settings) in
      let w =
        write_changes-IsChanged unit enc entries is_ipv6 meanwhile cs entry_id current settings page
          s h in
      subst
        (λ ds.
          IsSettled settings (
            write_changes unit enc entries is_ipv6 meanwhile ds entry_id current settings page s h))
        (sym e)
        (record {
          form = w.form;
          ends = λ q. elim (w.ends q) [
            | inl (none_left, same) ↦
                subst (λ t. AllHold enc (word t) (all_changes settings)) (sym same)
                  (nothing_sent settings bs s fits kept none_left)
            | inr (same, stored) ↦
                subst (λ t. AllHold enc (word t) (all_changes settings)) (sym same)
                  (write-AllHold unit word registers enc laws bs settings s fits kept stored)
          ];
        })

  -- What the page's form becomes: refused or shown blank it leaves everything as it was, and
  -- accepted it is settled.
  record IsSubmitted (form : Option Form) (page : Page) (s : S) (after : After S H) : Type 0 where
    shows :
        ShowsForm after.answer
        → (after.page.write_failed ≡ true) ⊎ ((after.page ≡ page) × (after.link ≡ s))
    ends :
        EndsStored after.answer
        → (f : Form) × (settings : Settings) × (form ≡ some f)
          × (module_settings floats f current ≡ ok (some settings, none))
          × AllHold enc (word after.link) (all_changes settings)

  submit-IsSubmitted :
      (meanwhile : H → H) (form : Option Form) (page : Page) (s : S) (h : H)
      → IsReported enc current
      → Known page s
      → IsSubmitted form page s
          (submit unit enc entries is_ipv6 meanwhile floats entry_id current form page s h)
  unfolding submit
  submit-IsSubmitted meanwhile none page s h reported known = record {
    shows = λ q. inr (refl, refl);
    ends = λ q. absurd q;
  }
  submit-IsSubmitted meanwhile (some form) page s h reported known =
      go (module_settings floats form current) refl
    where
      after : After S H
      after = submit unit enc entries is_ipv6 meanwhile floats entry_id current (some form) page s h

      go :
          (r : Outcome Crash (Option Settings × Option Refused))
          → module_settings floats form current ≡ r
          → IsSubmitted (some form) page s after
      go (raise crash) e = rw (e, submit) (record { shows = λ q. absurd q; ends = λ q. absurd q })
      go (ok (settings, some error)) e =
          rw (e, submit) (record { shows = λ q. inr (refl, refl); ends = λ q. absurd q })
      go (ok (none, none)) e =
          rw (e, submit) (record { shows = λ q. absurd q; ends = λ q. absurd q })
      go (ok (some settings, none)) e =
          let fits = module_settings-AllFit enc laws floats form current settings reported e in
          let w = page_write-IsSettled meanwhile settings page s h known fits in
          rw (e, submit)
            (record {
              shows = λ q. inl (w.form q);
              ends = λ q. (form, settings, refl, e, w.ends q);
            })

  Session-Known :
      IsReported enc current
      → (page : Page) (s : S) → Session unit word enc entries is_ipv6 floats entry_id current page s
      → Known page s
  Session-Known reported page s (opened p t fresh held) = inr held
  Session-Known reported page s (again meanwhile form before p t u h session after e shown q r) =
      let known = Session-Known reported before t session in
      let w =
        subst (IsSubmitted form before t) (sym e)
          (submit-IsSubmitted meanwhile form before t h reported known) in
      elim (w.shows shown) [
        | inl failed ↦ inl (rw q failed)
        | inr (same_page, same_link) ↦ elim known [
          | inl failed ↦ inl (rw (q, same_page) failed)
          | inr held ↦
              inr
                (subst (λ x. AllHold enc (word x) (all_changes current)) (sym (r ∙ same_link)) held)
        ]
      ]

  -- However often the form was shown again, also after writes that failed halfway: a submission
  -- that ends the page, finished or told that the module did not confirm or that the entry is
  -- gone, was accepted, and every setting of the accepted form is in the registers of its field.
  pub submit-settled :
      (page : Page) (s : S) (h : H) (meanwhile : H → H) (form : Option Form)
      → IsReported enc current
      → Session unit word enc entries is_ipv6 floats entry_id current page s
      → EndsStored
          (submit unit enc entries is_ipv6 meanwhile floats entry_id current form page s h).answer
      → (f : Form) × (settings : Settings) × (form ≡ some f)
        × (module_settings floats f current ≡ ok (some settings, none))
        × AllHold enc
            (word
              (submit unit enc entries is_ipv6 meanwhile floats entry_id current form page s
                h).link)
            (all_changes settings)
  submit-settled page s h meanwhile form reported session =
      let w =
        submit-IsSubmitted meanwhile form page s h reported
          (Session-Known reported page s session) in
      w.ends
