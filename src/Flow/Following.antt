-- ===== src/Flow/Following.antt =====
-- A module that the search found: `async_step_integration_discovery` and `_async_follow` of
-- custom_components/wago_879/config_flow.py.
use ha_wago.Base.{ℕ, Bool, true, false, ◌&&◌, Option, none, some, List, [], ◌∷◌, if◌then◌else◌}
use ha_wago.Base.Text.{Text, text_eq}
use ha_wago.Base.Outcome.{Outcome, ok, raise}
use ha_wago.Base.Dict.{lookup}
use ha_wago.Discovery.{FoundModule}
use ha_wago.Entry.{string, stored_int, default_port, default_unit_id}
use ha_wago.Entry.Setup.{device_name}
use ha_wago.ModuleSettings.Accept.{differs}
use ha_wago.Flow.{FlowEntry, entry_of}
use ha_wago.Flow.Moving.{Entries, is_address, host_in, move_entry}
use ha_wago.Flow.Probes.{
  Link, ProbeError, unsupported_meter, uncaught, probe_serial, module_answers_at,
}

-- What a step answers. A confirmation form shows the name and the host.
pub data Step : Type 0 where
  already_configured already_in_progress : Step
  not_probed : ProbeError → Step
  confirm_form : (name host : Text) → Step

pub data FlowError : Type 0 where
  key_error value_error probe_error : FlowError

-- `PROBED_METERS`: what the meter behind a module answered, by the module's serial number.
abbrev pub Probed : Type 0
Probed = List (Text × Outcome ProbeError Text)

unfoldable pub probed_of : Text → Probed → Option (Outcome ProbeError Text)
probed_of serial [] = none
probed_of serial ((s, r) ∷ probed) = if text_eq s serial then some r else probed_of serial probed

-- `probed[serial] = r`
unfoldable pub keep : Text → Outcome ProbeError Text → Probed → Probed
keep serial r [] = (serial, r) ∷ []
keep serial r ((s, q) ∷ probed) =
    if text_eq s serial then (serial, r) ∷ probed else (s, q) ∷ keep serial r probed

-- Only what the meter cannot change is remembered.
unfoldable pub is_lasting : Outcome ProbeError Text → Bool
is_lasting (ok serial) = true
is_lasting (raise unsupported_meter) = true
is_lasting (raise e) = false

-- A flow of a discovered module: the attribute `_discovered`, by its host, and the unique id.
pub record Discovered : Type 0 where
  pub host : Text
  pub unique_id : Text

-- What the flows see of Home Assistant, beyond the calls on one entry.
pub record Known (W : Type 0) : Type 0 where
  pub current_entries : W → List FlowEntry
  pub in_progress : Text → W → Bool
  pub entry_for_unique_id : Text → W → Option FlowEntry
  pub is_ignored : FlowEntry → Bool

-- What a step leaves.
pub record Ended (W : Type 0) : Type 0 where
  pub answer : Outcome FlowError Step
  pub probed : Probed
  pub discovered : Option Discovered
  pub world : W

module _ {W : Type 0} (entries : Entries W) (known : Known W) (link : Link W)
    (is_ipv6 : Text → Bool) (int : Text → Option ℕ) where
  -- The entry moves if the module answers at the address that its reply named.
  unfoldable pub move_if_there : FlowEntry → FoundModule → ℕ → W → Outcome FlowError Step × W
  move_if_there entry found port w =
      let (answers, w') = module_answers_at link found port w in
      elim answers [
        | raise e ↦ (raise probe_error, w')
        | ok false ↦ (ok already_configured, w')
        | ok true ↦ (
          ok already_configured,
          (move_entry entries entry.entry_id entry.data_of (("host", string found.host) ∷ []) w').1,
        )
      ]

  -- `_async_follow`
  unfoldable pub async_follow : FlowEntry → FoundModule → W → Outcome FlowError Step × W
  unfolding move_if_there
  async_follow entry found w = elim (host_in entry.data_of) [
    | none ↦ (raise key_error, w)
    | some host ↦
        if differs host found.host && is_address is_ipv6 host
        then elim (lookup "port" entry.data_of) [
          | none ↦ (raise key_error, w)
          | some stored ↦ elim (stored_int int stored) [
            | none ↦ (raise value_error, w)
            | some port ↦ move_if_there entry found port w
          ]
        ]
        else (ok already_configured, w)
  ]

  -- `async_step_discovery_confirm`, when it shows its form.
  abbrev confirm : (serial host : Text) → Step
  confirm serial host = confirm_form (device_name serial) host

  unfoldable pub following : FlowEntry → FoundModule → Probed → W → Ended W
  unfolding async_follow
  following entry found probed w =
      let (answer, w') = async_follow entry found w in
      record { answer = answer; probed = probed; discovered = none; world = w' }

  -- The flow once the meter behind the module is known by its serial number.
  unfoldable pub offer : (serial : Text) → FoundModule → Probed → W → Ended W
  unfolding following
  offer serial found probed w =
      let stays : Ended W = record {
        answer = ok already_in_progress;
        probed = probed;
        discovered = none;
        world = w;
      } in
      if known.in_progress serial w then stays else elim (known.entry_for_unique_id serial w) [
        | none ↦ record stays {
          answer = ok (confirm serial found.host);
          discovered = some (record { host = found.host; unique_id = serial });
        }
        | some entry ↦
            if known.is_ignored entry
            then record stays { answer = ok already_configured }
            else following entry found probed w
      ]

  unfoldable pub after_probe : Outcome ProbeError Text → FoundModule → Probed → W → Ended W
  unfolding offer
  after_probe (ok serial) found probed w = offer serial found probed w
  after_probe (raise uncaught) found probed w = record {
    answer = raise probe_error;
    probed = probed;
    discovered = none;
    world = w;
  }
  after_probe (raise e) found probed w = record {
    answer = ok (not_probed e);
    probed = probed;
    discovered = none;
    world = w;
  }

  abbrev pub remembered : Text → Outcome ProbeError Text → Probed → Probed
  remembered serial r probed = if is_lasting r then keep serial r probed else probed

  -- The search for the meter behind a module that no entry reaches.
  unfoldable pub probe_found : FoundModule → Probed → W → Ended W
  unfolding after_probe
  probe_found found probed w = elim (probed_of found.serial_number probed) [
    | some r ↦ after_probe r found (remembered found.serial_number r probed) w
    | none ↦
        let (r, w') = probe_serial link found.host default_port default_unit_id w in
        after_probe r found (remembered found.serial_number r probed) w'
  ]

  -- `async_step_integration_discovery`
  unfoldable pub async_step_integration_discovery : FoundModule → Probed → W → Ended W
  unfolding probe_found following
  async_step_integration_discovery found probed w =
      elim (entry_of (known.current_entries w) found) [
        | some entry ↦ following entry found probed w
        | none ↦ probe_found found probed w
      ]
