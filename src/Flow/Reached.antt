-- ===== src/Flow/Reached.antt =====
-- A form that was accepted names a meter that answered.
use ha_wago.Base.{
  ℕ, ◌≡◌, inl, inr, refl, String, Option, none, some, [], ◌∷◌, arith, Option-cases, Bool-cases,
}
use text.Mathlib.Text.{◌==◌ as str_eq}
use ha_wago.Base.Text.{Text}
use ha_wago.Base.Outcome.{Outcome, ok, raise}
use ha_wago.Base.Dict.{Dict, lookup}
use ha_wago.Python.{FloatText, Value}
use ha_wago.Entry.{Stored, number, string}
use ha_wago.Flow.{Converted, as_typed, convert, as_integers, normalised_host}
use ha_wago.Flow.Choice.{as_integers_cons}
use ha_wago.Flow.Moving.{Entries}
use ha_wago.Flow.Probes.{
  Link, ProbeError, cannot_connect, unsupported_meter, unsupported_data_type, link_settings_clash,
  uncaught, probe_serial,
}
use ha_wago.Flow.Following.{Known}
use ha_wago.Flow.Adding.{
  stored_value, stored_values, number_at, typed_host, accepted, validated, probed_form, validate,
}

as_integers-host :
    (floats : FloatText) (user_input : Dict Value) (out : Dict Converted) (value : Value)
    → as_integers floats user_input ≡ some out
    → lookup "host" user_input ≡ some value
    → lookup "host" out ≡ some (as_typed value)
unfolding lookup convert
as_integers-host floats [] out value h k = cc
as_integers-host floats ((j, v) ∷ user_input) out value h k =
    let (c, rest, converted, others, same) = as_integers_cons floats j v user_input out h in
    elim (Bool-cases (str_eq j "host")) [
      | inl b ↦ ground arith
      | inr b ↦ ground (arith, as_integers-host floats user_input rest value others)
    ]

stored_values-host :
    (host : Text) (converted : Dict Converted) (values : Dict Stored) (value : Value)
    → stored_values host converted ≡ some values
    → lookup "host" converted ≡ some (as_typed value)
    → lookup "host" values ≡ some (string host)
unfolding lookup stored_values stored_value
stored_values-host host [] values value h k = cc
stored_values-host host ((j, c) ∷ converted) values value h k =
    elim (Option-cases (stored_value host c)) [
      | inl n ↦ absurd (ground arith)
      | inr (v, e) ↦ elim (Option-cases (stored_values host converted)) [
        | inl n ↦ absurd (ground arith)
        | inr (rest, r) ↦ elim (Bool-cases (str_eq j "host")) [
          | inl b ↦ ground arith
          | inr b ↦ ground (arith, stored_values-host host converted rest value r)
        ]
      ]
    ]

typed_host-some :
    (floats : FloatText) (user_input : Dict Value) (host : Text)
    → typed_host floats user_input ≡ some host
    → (value : Value) × (lookup "host" user_input ≡ some value)
unfolding typed_host normalised_host
typed_host-some floats user_input host h = elim (Option-cases (lookup "host" user_input)) [
  | inl n ↦ absurd (ground arith)
  | inr found ↦ found
]

number_at-some :
    (key : String) (values : Dict Stored) (n : ℕ)
    → number_at key values ≡ some n
    → lookup key values ≡ some (number n)
unfolding number_at
number_at-some key values n h = go (lookup key values) refl
  where
    go : (r : Option Stored) → lookup key values ≡ r → lookup key values ≡ some (number n)
    go none e = absurd (ground (arith, h, e))
    go (some (number m)) e = ground (arith, h, e)
    go (some (string t)) e = absurd (ground (arith, h, e))

module _ {W : Type 0} (entries : Entries W) (known : Known W) (link : Link W)
    (floats : FloatText) where
  -- The meter answered at the host, the port and the unit id of the values.
  pub record IsReached (values : Dict Stored) (serial : Text) (w : W) : Type 0 where
    pub host : Text
    pub port : ℕ
    pub unit_id : ℕ
    pub stored_host : lookup "host" values ≡ some (string host)
    pub stored_port : lookup "port" values ≡ some (number port)
    pub stored_unit_id : lookup "unit_id" values ≡ some (number unit_id)
    pub answered : (probe_serial link host port unit_id w).0 ≡ ok serial

  validated-accepted :
      (values vs : Dict Stored) (serial : Text) (r : Outcome ProbeError Text)
      → validated entries known link floats values r ≡ ok (accepted vs serial)
      → (vs ≡ values) × (r ≡ ok serial)
  unfolding validated
  validated-accepted values vs serial (ok s) h = ground arith
  validated-accepted values vs serial (raise uncaught) h = cc
  validated-accepted values vs serial (raise cannot_connect) h = absurd (ground arith)
  validated-accepted values vs serial (raise unsupported_meter) h = absurd (ground arith)
  validated-accepted values vs serial (raise unsupported_data_type) h = absurd (ground arith)
  validated-accepted values vs serial (raise link_settings_clash) h = absurd (ground arith)

  probed_form-IsReached :
      (host : Text) (values vs : Dict Stored) (serial : Text) (w : W)
      → lookup "host" values ≡ some (string host)
      → (probed_form entries known link floats host values w).0 ≡ ok (accepted vs serial)
      → IsReached vs serial w
  unfolding probed_form
  probed_form-IsReached host values vs serial w stored h =
      elim (Option-cases (number_at "port" values)) [
        | inl n ↦ absurd (ground (arith, h, n))
        | inr (port, p) ↦ elim (Option-cases (number_at "unit_id" values)) [
          | inl n ↦ absurd (ground (arith, h, p, n))
          | inr (unit_id, u) ↦
              let r = (probe_serial link host port unit_id w).0 in
              let (same, answered) =
                validated-accepted values vs serial r (ground (arith, h, p, u)) in
              record {
                host = host;
                port = port;
                unit_id = unit_id;
                stored_host = rw same stored;
                stored_port = rw same (number_at-some "port" values port p);
                stored_unit_id = rw same (number_at-some "unit_id" values unit_id u);
                answered = answered;
              }
        ]
      ]

  pub validate-IsReached :
      (user_input : Dict Value) (values : Dict Stored) (serial : Text) (w : W)
      → (validate entries known link floats user_input w).0 ≡ ok (accepted values serial)
      → IsReached values serial w
  unfolding validate
  validate-IsReached user_input values serial w h =
      elim (Option-cases (typed_host floats user_input)) [
        | inl n ↦ absurd (ground (arith, h, n))
        | inr (host, t) ↦ elim (Option-cases (as_integers floats user_input)) [
          | inl n ↦ absurd (ground (arith, h, t, n))
          | inr (converted, c) ↦ elim (Option-cases (stored_values host converted)) [
            | inl n ↦ absurd (ground (arith, h, t, c, n))
            | inr (vs, s) ↦
                let (value, found) = typed_host-some floats user_input host t in
                let typed = as_integers-host floats user_input converted value c found in
                let stored = stored_values-host host converted vs value s typed in
                let reduced : (validate entries known link floats user_input w).0
                    ≡ (probed_form entries known link floats host vs w).0 =
                  rw (t, c, s, validate) refl in
                probed_form-IsReached host vs values serial w stored (rw (← reduced) h)
          ]
        ]
      ]
