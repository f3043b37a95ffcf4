-- ===== src/Options/Finish.antt =====
-- An accepted form over a link that answers ends the page.
use ha_wago.Base.{◌≡◌, refl, Bool, true, false, none, some, List, [], ◌∷◌, Bool-cases, inl, inr}
use ha_wago.Base.Text.{Text}
use ha_wago.Base.Outcome.{ok}
use ha_wago.Python.{FloatText}
use ha_wago.Modbus.{ModbusUnit}
use ha_wago.Device.Write.{Change, StringEncoder}
use ha_wago.Device.Write.Answered.{IsAnswering, AllEncode, async_write-ok}
use ha_wago.ModuleSettings.{Form, Settings}
use ha_wago.ModuleSettings.Accept.{module_settings}
use ha_wago.Flow.{FlowEntry}
use ha_wago.Flow.Moving.{Entries, host_in}
use ha_wago.Options.{Page, finished, sent, written, write_changes, page_write, submit}
use ha_wago.Options.Changes.{all_changes, changed, select, changes_of}
use ha_wago.Options.Encodes.{IsEncoder, IsReported, AllFit, module_settings-AllFit}

select-AllEncode :
    (enc : StringEncoder) (bs : List Bool) (cs : List Change)
    → AllFit enc cs
    → AllEncode enc (select bs cs)
unfolding select
select-AllEncode enc [] cs fits = tt
select-AllEncode enc (b ∷ bs) [] fits = tt
select-AllEncode enc (true ∷ bs) (c ∷ cs) fits =
    ((fits.0.0, fits.0.1), select-AllEncode enc bs cs fits.1)
select-AllEncode enc (false ∷ bs) (c ∷ cs) fits = select-AllEncode enc bs cs fits.1

pub AllFit-AllEncode : (enc : StringEncoder) (cs : List Change) → AllFit enc cs → AllEncode enc cs
AllFit-AllEncode enc [] fits = tt
AllFit-AllEncode enc (c ∷ cs) fits = ((fits.0.0, fits.0.1), AllFit-AllEncode enc cs fits.1)

module _ {S H : Type 0} (unit : ModbusUnit S) (answering : IsAnswering unit) (enc : StringEncoder)
    (laws : IsEncoder enc) (entries : Entries H) (is_ipv6 : Text → Bool) (meanwhile : H → H)
    (entry_id : Text) (h : H) where
  sent-AllEncode :
      (current settings : Settings) (page : Page)
      → AllFit enc (all_changes settings)
      → AllEncode enc (sent unit enc entries is_ipv6 meanwhile page current settings)
  unfolding sent changes_of
  sent-AllEncode current settings page fits = elim (Bool-cases page.write_failed) [
    | inl failed ↦ rw (failed, sent) (AllFit-AllEncode enc (all_changes settings) fits)
    | inr fresh ↦
        rw (fresh, sent)
          (select-AllEncode enc (changed current settings) (all_changes settings) fits)
  ]

  write_changes-finished :
      (cs : List Change) (current settings : Settings) (page : Page) (s : S)
      (entry later : FlowEntry) (host : Text)
      → AllEncode enc cs
      → entries.get_entry entry_id h ≡ some entry
      → host_in entry.data_of ≡ some host
      → entries.get_entry entry_id (meanwhile h) ≡ some later
      → (write_changes unit enc entries is_ipv6 meanwhile cs entry_id current settings page s
          h).answer
        ≡ ok finished
  unfolding write_changes written
  write_changes-finished [] current settings page s entry later host fits e k l =
      rw (e, write_changes) refl
  write_changes-finished (c ∷ cs) current settings page s entry later host fits e k l =
      let r = async_write-ok unit answering enc (c ∷ cs) s fits in
      rw (e, k, r, l, write_changes, written)

  -- An accepted form ends the page as finished, if the link answers every call and the entry, with
  -- its host, is there before the write and after it.
  pub submit-finished :
      (floats : FloatText) (form : Form) (current settings : Settings) (page : Page) (s : S)
      (entry later : FlowEntry) (host : Text)
      → IsReported enc current
      → module_settings floats form current ≡ ok (some settings, none)
      → entries.get_entry entry_id h ≡ some entry
      → host_in entry.data_of ≡ some host
      → entries.get_entry entry_id (meanwhile h) ≡ some later
      → (submit unit enc entries is_ipv6 meanwhile floats entry_id current
          (some form)
          page
          s
          h).answer
        ≡ ok finished
  unfolding submit page_write
  submit-finished floats form current settings page s entry later host reported accepted e k l =
      let fits = module_settings-AllFit enc laws floats form current settings reported accepted in
      rw (accepted, submit)
        (write_changes-finished (sent unit enc entries is_ipv6 meanwhile page current settings)
          current settings page s entry later host (sent-AllEncode current settings page fits) e k
          l)
