-- ===== src/Options.antt =====
-- `WagoOptionsFlow` of custom_components/wago_879/config_flow.py: the page of the module's settings,
-- from the form that was sent to the registers of the module and the entry that follows it.
pub mod Changes
pub mod Encodes
pub mod Holds
pub mod Settled
pub mod Steps
pub mod Session
pub mod Finish
pub mod Intervals
mod Examples
use ha_wago.Base.{
  ℕ, Bool, true, false, not, ◌&&◌, ◌||◌, Option, none, some, List, [], ◌∷◌, ◌++◌, if◌then◌else◌,
}
use ha_wago.Base.Int.{ℤ, pos, negsuc, int_eq}
use ha_wago.Base.Text.{Text, text_eq}
use ha_wago.Base.Outcome.{Outcome, ok, raise}
use ha_wago.Base.Dict.{Dict}
use ha_wago.Python.{FloatText}
use ha_wago.Modbus.{ModbusError, ModbusUnit}
use ha_wago.Device.Write.{
  Change, StringEncoder, WriteError, modbus_error, module_not_applied, value_error, async_write,
}
use ha_wago.ModuleSettings.{Refused, Form, Settings}
use ha_wago.ModuleSettings.Accept.{differs, bool_differs, Crash, crash, module_settings}
use ha_wago.Entry.{Stored, string}
use ha_wago.Flow.{FlowEntry}
use ha_wago.Flow.Moving.{Entries, is_address, host_in, move_entry}
use ha_wago.Options.Changes.{all_changes, changes_of}

-- The attributes of the flow. `module_values` are the settings that the module reported when the
-- page was opened.
pub record Page : Type 0 where
  pub module_values : Option Settings
  pub write_failed : Bool

abbrev pub new_page : Page
new_page = record { module_values = none; write_failed = false }

-- `module_not_confirming` is the source's reason `module_not_applied`.
pub data Reason : Type 0 where
  module_not_answering module_not_confirming entry_changed : Reason

-- What a step of the flow answers: the end, an abort, or the form again with what it shows as an
-- error. `blank_form` is the form with no error.
pub data Answer : Type 0 where
  finished blank_form write_failed_form : Answer
  refused_form : Refused → Answer
  aborted : Reason → Answer

-- The exceptions that leave a step: no entry or no host under the key, and those of the callees.
pub data PageError : Type 0 where
  no_entry no_host form_crash encode_error : PageError

-- What a step leaves: its answer, and the states of the flow, of the module and of Home Assistant.
pub record After (S H : Type 0) : Type 0 where
  pub answer : Outcome PageError Answer
  pub page : Page
  pub link : S
  pub home : H

module _ {H : Type 0} (entries : Entries H) (is_ipv6 : Text → Bool) where
  -- Whether `_follow_module` moves the entry.
  unfoldable pub follows : (host : Text) (current settings : Settings) → Bool
  follows host current settings =
      let reached_the_module = text_eq host current.ip_address || current.dhcp in
      let moves =
        not settings.dhcp && is_address is_ipv6 host && differs host settings.ip_address in
      moves && reached_the_module

  -- `_follow_module`, after `moved` told whether the entry was moved.
  unfoldable pub reload_unless : Bool → Text → H → H
  reload_unless true entry_id h = h
  reload_unless false entry_id h = elim (entries.get_entry entry_id h) [
    | none ↦ h
    | some entry ↦ entries.schedule_reload entry_id h
  ]

  unfoldable pub follow_module :
      (entry_id : Text) (seen : Dict Stored) (host : Text) (current settings : Settings) → H → H
  unfolding follows reload_unless
  follow_module entry_id seen host current settings h =
      let new_host : Dict Stored = ("host", string settings.ip_address) ∷ [] in
      if follows host current settings
      then (let (moved, h') = move_entry entries entry_id seen new_host h in
          reload_unless moved entry_id h')
      else reload_unless false entry_id h

module _ {S H : Type 0} (unit : ModbusUnit S) (encode_string : StringEncoder) (entries : Entries H)
    (is_ipv6 : Text → Bool) (meanwhile : H → H) where
  -- The changes that are sent: all settings after a write of this page failed.
  unfoldable pub sent : Page → (current settings : Settings) → List Change
  sent page current settings =
      if page.write_failed then all_changes settings else changes_of current settings

  -- What follows `async_write`, while which others changed Home Assistant's state by `meanwhile`.
  unfoldable pub written :
      Outcome WriteError (Unit {0})
      → (entry_id : Text) (seen : Dict Stored) (host : Text) → (current settings : Settings) → Page
      → S
      → H
      → After S H
  unfolding follow_module
  written (ok done) entry_id seen host current settings page s h =
      elim (entries.get_entry entry_id h) [
        | none ↦ record { answer = ok (aborted entry_changed); page = page; link = s; home = h }
        | some entry ↦ record {
          answer = ok finished;
          page = page;
          link = s;
          home = follow_module entries is_ipv6 entry_id seen host current settings h;
        }
      ]
  written (raise (modbus_error e)) entry_id seen host current settings page s h = record {
    answer = ok write_failed_form;
    page = record page { write_failed = true };
    link = s;
    home = h;
  }
  written (raise module_not_applied) entry_id seen host current settings page s h = record {
    answer = ok (aborted module_not_confirming);
    page = page;
    link = s;
    home = follow_module entries is_ipv6 entry_id seen host current settings h;
  }
  written (raise value_error) entry_id seen host current settings page s h = record {
    answer = raise encode_error;
    page = page;
    link = s;
    home = h;
  }

  unfoldable pub write_changes :
      List Change → (entry_id : Text) (current settings : Settings) → Page → S → H → After S H
  write_changes [] entry_id current settings page s h = elim (entries.get_entry entry_id h) [
    | none ↦ record { answer = raise no_entry; page = page; link = s; home = h }
    | some entry ↦ record { answer = ok finished; page = page; link = s; home = h }
  ]
  write_changes (c ∷ cs) entry_id current settings page s h = elim (entries.get_entry entry_id h) [
    | none ↦ record { answer = raise no_entry; page = page; link = s; home = h }
    | some entry ↦ elim (host_in entry.data_of) [
      | none ↦ record { answer = raise no_host; page = page; link = s; home = h }
      | some host ↦
          let (r, s') = async_write unit encode_string (c ∷ cs) s in
          written r entry_id entry.data_of host current settings page s' (meanwhile h)
    ]
  ]

  -- `_async_write`
  unfoldable pub page_write :
      (entry_id : Text) (current settings : Settings) → Page → S → H → After S H
  unfolding sent write_changes written
  page_write entry_id current settings page s h =
      write_changes (sent page current settings) entry_id current settings page s h

  -- The part of `async_step_module` after the module's values are known.
  unfoldable pub submit :
      FloatText → (entry_id : Text) (current : Settings) → Option Form → Page → S → H → After S H
  unfolding page_write
  submit floats entry_id current none page s h = record {
    answer = ok blank_form;
    page = page;
    link = s;
    home = h;
  }
  submit floats entry_id current (some form) page s h = elim (module_settings floats form current) [
    | raise crash ↦ record { answer = raise form_crash; page = page; link = s; home = h }
    | ok (settings, some error) ↦ record {
      answer = ok (refused_form error);
      page = page;
      link = s;
      home = h;
    }
    | ok (none, none) ↦ record { answer = raise form_crash; page = page; link = s; home = h }
    | ok (some settings, none) ↦ page_write entry_id current settings page s h
  ]

  -- `async_step_module`: `usable` says whether the entry is loaded and has a module, and
  -- `read_settings` is what `async_read` reports of the settings, none behind another gateway.
  unfoldable pub async_step_module :
      FloatText
      → (usable : Bool) (read_settings : S → Outcome ModbusError (Option Settings) × S)
      → (entry_id : Text) → Option Form
      → Page
      → S
      → H
      → After S H
  unfolding submit
  async_step_module floats false read_settings entry_id form page s h = record {
    answer = ok (aborted module_not_answering);
    page = page;
    link = s;
    home = h;
  }
  async_step_module floats true read_settings entry_id form page s h = elim page.module_values [
    | some current ↦ submit floats entry_id current form page s h
    | none ↦
        let (r, s') = read_settings s in
        elim r [
          | ok (some current) ↦
              submit floats entry_id current form (record page { module_values = some current }) s'
                h
          | ok none ↦ record {
            answer = ok (aborted module_not_answering);
            page = page;
            link = s';
            home = h;
          }
          | raise e ↦ record {
            answer = ok (aborted module_not_answering);
            page = page;
            link = s';
            home = h;
          }
        ]
  ]
