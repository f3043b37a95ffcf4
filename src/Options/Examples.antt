-- ===== src/Options/Examples.antt =====
-- A page opened on a module in 192.168.1.0/24, with an encoder of two characters a word.
use mathlib.Core.Path.{subst}
use ha_wago.Base.{
  ℕ, zero, suc, ◌+◌, ◌*◌, ◌≡◌, inl, inr, refl, ap, sym, Bool, true, false, ◌&&◌, Option, none, some,
  List, [], ◌∷◌, arith, ltb, leb, if◌then◌else◌, Bool-cases,
}
use ha_wago.Base.Lists.{length}
use ha_wago.Base.Text.{Text, codes, split_on, strip, is_space}
use ha_wago.Base.Int.{pos}
use ha_wago.Base.Outcome.{ok}
use ha_wago.Base.Dict.{lookup}
use ha_wago.Ipv4.{parse, format, octet_text}
use ha_wago.Python.{
  FloatText, finite, absent, boolean, number, text, text_or, text_of, to_float, is_integer, to_int,
  truthy,
}
use ha_wago.Modbus.Memory.{Memory, memory_unit, memory_laws}
use ha_wago.ModuleSettings.{Form, Settings, address, whole_number}
use ha_wago.ModuleSettings.Accept.{typed, module_settings}
use ha_wago.ModuleSettings.Labels.{AllInLabel}
use ha_wago.ModuleSettings.Page.{module_settings_iff}
use ha_wago.Device.Write.{StringEncoder}
use ha_wago.Device.Write.Effect.{after_changes}
use ha_wago.Device.Write.Answered.{IsAnswering}
use ha_wago.Entry.{string}
use ha_wago.Flow.{FlowEntry}
use ha_wago.Flow.Moving.{Entries, host_in}
use ha_wago.Options.{After, new_page, finished, submit}
use ha_wago.Options.Changes.{select, all_changes}
use ha_wago.Options.Encodes.{AreWords, IsEncoder, IsReported, AllFit, module_settings-AllFit}
use ha_wago.Options.Holds.{AllHold, after_changes-select}
use ha_wago.Options.Settled.{all_changes-AllApart, every_one, every_one-Kept}
use ha_wago.Options.Steps.{EndsStored}
use ha_wago.Options.Session.{opened, submit-settled}
use ha_wago.Options.Finish.{submit-finished}

pack : ℕ → Text → List ℕ
pack zero t = []
pack (suc n) [] = 0 ∷ pack n []
pack (suc n) (c ∷ []) = (c * 256) ∷ pack n []
pack (suc n) (c ∷ d ∷ t) = (c * 256 + d) ∷ pack n t

is_ascii : Text → Bool
is_ascii [] = true
is_ascii (c ∷ t) = ltb c 128 && is_ascii t

packed : StringEncoder
unfolding pack is_ascii
packed t n = if is_ascii t && leb (length t) 31 then some (pack n t) else none

length-pack : (n : ℕ) (t : Text) → length (pack n t) ≡ n
unfolding pack
length-pack zero t = refl
length-pack (suc n) [] = ap suc (length-pack n [])
length-pack (suc n) (c ∷ []) = ap suc (length-pack n [])
length-pack (suc n) (c ∷ d ∷ t) = ap suc (length-pack n t)

pack-AreWords : (n : ℕ) (t : Text) → is_ascii t ≡ true → AreWords (pack n t)
unfolding pack is_ascii
pack-AreWords zero t h = tt
pack-AreWords (suc n) [] h = (omega arith, pack-AreWords n [] refl)
pack-AreWords (suc n) (c ∷ []) h = (ground arith, pack-AreWords n [] refl)
pack-AreWords (suc n) (c ∷ d ∷ t) h = (ground arith, pack-AreWords n t (ground arith))

AllInLabel-is_ascii : (t : Text) → AllInLabel t → is_ascii t ≡ true
unfolding is_ascii
AllInLabel-is_ascii [] h = refl
AllInLabel-is_ascii (c ∷ t) h = let rest = AllInLabel-is_ascii t h.1 in ground arith

packed-eq-some :
    (t : Text) (n : ℕ) (ws : List ℕ) → packed t n ≡ some ws → (is_ascii t ≡ true) × (ws ≡ pack n t)
unfolding packed
packed-eq-some t n ws h = elim (Bool-cases (is_ascii t)) [
  | inl e ↦ elim (Bool-cases (leb (length t) 31)) [
    | inl k ↦ (e, ground arith)
    | inr k ↦ absurd (ground arith)
  ]
  | inr e ↦ absurd (ground arith)
]

packed-IsEncoder : IsEncoder packed
unfolding packed
packed-IsEncoder = record {
  filling = λ t n ws h. rw (packed-eq-some t n ws h).1 (length-pack n t);
  words = λ t n ws h. let (a, e) = packed-eq-some t n ws h in rw e (pack-AreWords n t a);
  names = λ t h.
      let a = AllInLabel-is_ascii t h.inside in
      let short = h.short in
      let k : leb (length t) 31 ≡ true = ground arith in (pack 16 t, rw (a, k));
}

abbrev floats : FloatText
floats = record { parse_float = λ t. none; show_float = λ x. codes "1.5" }

abbrev reported : Settings
reported = record {
  dhcp = false;
  ntp = false;
  ip_address = codes "192.168.1.20";
  gateway = codes "192.168.1.1";
  dns_server_1 = codes "0.0.0.0";
  dns_server_2 = codes "0.0.0.0";
  ntp_server_1 = codes "0.0.0.0";
  ntp_server_2 = codes "0.0.0.0";
  netmask = codes "255.255.255.0";
  hostname = codes "wago-1";
  timeout = pos 500;
}

-- The user turns NTP on, and changes nothing else.
abbrev wanted : Settings
wanted = record reported { ntp = true }

abbrev form_of : Bool → Form
form_of b = record {
  dhcp = boolean false;
  ntp = boolean b;
  ip_address = text (codes " 192.168.1.20 ");
  gateway = text (codes "192.168.1.1");
  dns_server_1 = absent;
  dns_server_2 = text (codes "");
  ntp_server_1 = absent;
  ntp_server_2 = absent;
  netmask = text (codes "255.255.255.0");
  hostname = text (codes "wago-1");
  timeout = number (finite (pos 1000) 1);
}

form_typed : (b : Bool) → typed floats (form_of b) ≡ ok (record reported { ntp = b })
unfolding typed address parse format split_on text_or strip text_of is_space octet_text whole_number
    to_float is_integer to_int truthy
form_typed b = refl

form_accepted :
    (b : Bool)
    → module_settings floats (form_of b) reported ≡ ok (some (record reported { ntp = b }), none)
form_accepted b =
    (module_settings_iff floats (form_of b) reported (record reported { ntp = b })).1 (
      form_typed b,
      record {
        dns_server_1 = inl refl;
        dns_server_2 = inl refl;
        ntp_server_1 = inl refl;
        ntp_server_2 = inl refl;
        hostname = inl refl;
        timeout = inl refl;
        ip_address = inl refl;
        netmask = inl refl;
        network = inl (refl, refl, refl, refl);
      },
    )

reported-IsReported : IsReported packed reported
unfolding packed is_ascii
reported-IsReported = record {
  name = (pack 16 reported.hostname, refl);
  timeout = (500, refl, omega arith);
}

module_settings-AllFit_example : AllFit packed (all_changes wanted)
module_settings-AllFit_example =
    module_settings-AllFit packed packed-IsEncoder floats (form_of true) reported wanted
      reported-IsReported (form_accepted true)

-- The registers of a module with the settings that it reports.
abbrev registers : Memory
registers = after_changes packed (all_changes reported) (λ a. 0)

opening : AllHold packed registers (all_changes reported)
unfolding select
opening =
    let fits =
      module_settings-AllFit packed packed-IsEncoder floats (form_of false) reported reported
        reported-IsReported (form_accepted false) in
    after_changes-select packed every_one (all_changes reported) (λ a. 0)
      (all_changes-AllApart reported) fits (every_one-Kept packed (λ a. 0) reported)

-- Home Assistant with the one entry of the module.
abbrev entry : FlowEntry
entry = record {
  entry_id = codes "1";
  title = codes "WAGO";
  unique_id = none;
  data_of = ("host", string (codes "192.168.1.20")) ∷ [];
  module_serial = none;
  has_listeners = false;
}

abbrev one_entry : Entries (Option FlowEntry)
one_entry = record {
  get_entry = λ entry_id h. h;
  update_entry = λ changed h. some changed;
  schedule_reload = λ entry_id h. h;
}

abbrev no_ipv6 : Text → Bool
no_ipv6 t = false

abbrev after : After Memory (Option FlowEntry)
after =
    submit memory_unit packed one_entry no_ipv6 (λ h. h) floats (codes "1") reported
      (some (form_of true)) new_page registers (some entry)

entry_host : host_in entry.data_of ≡ some (codes "192.168.1.20")
unfolding host_in lookup
entry_host = refl

memory_answers : IsAnswering memory_unit
memory_answers = record {
  reads = λ start count s. (_, refl);
  writes = λ start words s. refl;
  commands = λ start value s. refl;
}

submit-finished_example : after.answer ≡ ok finished
submit-finished_example =
    submit-finished memory_unit memory_answers packed packed-IsEncoder one_entry no_ipv6 (λ h. h)
      (codes "1") (some entry) floats (form_of true) reported wanted new_page registers entry entry
      (codes "192.168.1.20") reported-IsReported (form_accepted true) refl entry_host refl

submit-settled_example :
    (f : Form) × (settings : Settings) × (some (form_of true) ≡ some f)
    × (module_settings floats f reported ≡ ok (some settings, none))
    × AllHold packed after.link (all_changes settings)
submit-settled_example =
    submit-settled memory_unit (λ memory a. memory a) memory_laws packed packed-IsEncoder one_entry
      no_ipv6 floats (codes "1") reported new_page registers (some entry) (λ h. h)
      (some (form_of true)) reported-IsReported (opened new_page registers refl opening)
      (subst EndsStored (sym submit-finished_example) tt)
