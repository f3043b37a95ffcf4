-- ===== src/Flow/Added.antt =====
-- What an entry that was added or moved by hand is known to reach.
use ha_wago.Base.{
  ℕ, ◌≡◌, ◌⊎◌, inl, inr, refl, ◌∙◌, false, some, [], ◌∷◌, arith, Option-cases, Bool-cases,
}
use ha_wago.Base.Text.{Text, text_eq, text_eq_iff}
use ha_wago.Base.Outcome.{Outcome, ok, raise}
use ha_wago.Base.Dict.{Dict}
use ha_wago.Python.{FloatText, Value}
use ha_wago.Entry.{Stored, number, string}
use ha_wago.Entry.Setup.{device_name}
use ha_wago.Flow.{FlowEntry}
use ha_wago.Flow.Moving.{Entries, move_entry}
use ha_wago.Flow.Probes.{Link, probe_serial}
use ha_wago.Flow.Following.{Known}
use ha_wago.Flow.Reached.{IsReached, validate-IsReached}
use ha_wago.Flow.Adding.{
  Created, created, AddError, connection_fields, picked, Validated, accepted, refused, validate,
  is_configured, create, async_step_user, reconfigure, async_step_reconfigure,
}

module _ {W : Type 0} (entries : Entries W) (known : Known W) (link : Link W)
    (floats : FloatText) where
  -- The stored data of an entry: where the meter answered, and nothing else.
  pub record IsStored (data_of : Dict Stored) (serial : Text) (w : W) : Type 0 where
    pub host : Text
    pub port : ℕ
    pub unit_id : ℕ
    pub stored :
        data_of ≡ ("host", string host) ∷ ("port", number port) ∷ ("unit_id", number unit_id) ∷ []
    pub answered : (probe_serial link host port unit_id w).0 ≡ ok serial

  create-IsStored :
      (values : Dict Stored) (serial : Text) (w v : W) (c : Created)
      → IsReached entries known link floats values serial w
      → create entries known link floats values serial v ≡ ok (created c)
      → IsStored c.data_of c.unique_id w
        × (c.unique_id ≡ serial)
        × (c.title ≡ device_name c.unique_id)
        × (is_configured entries known link floats serial v ≡ false)
  unfolding create picked
  create-IsStored values serial w v c reached h =
      elim (Bool-cases (is_configured entries known link floats serial v)) [
        | inl b ↦ absurd (ground (arith, h, b))
        | inr b ↦ elim (Option-cases (picked connection_fields values)) [
          | inl n ↦ absurd (ground (arith, h, b, n))
          | inr (d, e) ↦
              elim (Option-cases
                (picked ("measurement_interval" ∷ "energy_interval" ∷ []) values)) [
                  | inl n ↦ absurd (ground (arith, h, b, e, n))
                  | inr (o, f) ↦
                      let s = reached.stored_host in
                      let p = reached.stored_port in
                      let u = reached.stored_unit_id in
                      let data_same : c.data_of ≡ d = ground (arith, h, b, e, f) in
                      let id_same : c.unique_id ≡ serial = ground (arith, h, b, e, f) in
                      let title_same : c.title ≡ device_name serial = ground (arith, h, b, e, f) in
                      let d_same : d
                          ≡ ("host", string reached.host)
                            ∷ ("port", number reached.port)
                            ∷ ("unit_id", number reached.unit_id)
                            ∷ [] =
                        ground (arith, e, s, p, u) in
                      (
                        record {
                          host = reached.host;
                          port = reached.port;
                          unit_id = reached.unit_id;
                          stored = data_same ∙ d_same;
                          answered = rw id_same reached.answered;
                        },
                        id_same,
                        rw id_same title_same,
                        b,
                      )
                ]
        ]
      ]

  -- An entry that is added by hand stores a host, a port and a unit id at which a meter of WAGO's
  -- answered with the serial number that becomes the entry's unique id and names it, and no entry
  -- that is not ignored had that unique id.
  pub async_step_user-created :
      (user_input : Dict Value) (w : W) (c : Created)
      → (async_step_user entries known link floats (some user_input) w).0 ≡ ok (created c)
      → IsStored c.data_of c.unique_id w
        × (c.title ≡ device_name c.unique_id)
        × (is_configured entries known link floats c.unique_id
              (async_step_user entries known link floats (some user_input) w).1
            ≡ false)
  unfolding async_step_user
  async_step_user-created user_input w c h =
      go (validate entries known link floats user_input w).0 refl
    where
      go :
          (r : Outcome AddError Validated)
          → (validate entries known link floats user_input w).0 ≡ r
          → IsStored c.data_of c.unique_id w
            × (c.title ≡ device_name c.unique_id)
            × (is_configured entries known link floats c.unique_id
                  (async_step_user entries known link floats (some user_input) w).1
                ≡ false)
      go (raise e) k = absurd (ground (arith, h, k))
      go (ok (refused e)) k = absurd (ground (arith, h, k))
      go (ok (accepted values serial)) k =
          let v = (validate entries known link floats user_input w).1 in
          let made : create entries known link floats values serial v ≡ ok (created c) =
            ground (arith, h, k) in
          let reached = validate-IsReached entries known link floats user_input values serial w k in
          let (stored, id_same, title, free) = create-IsStored values serial w v c reached made in
          (stored, title, rw (k, id_same, async_step_user) free)

  -- An entry that is reconfigured by hand is left as it is, or it is moved to values at whose host,
  -- port and unit id the meter answered that the entry is for.
  pub async_step_reconfigure_lem :
      (entry : FlowEntry) (user_input : Dict Value) (w : W)
      → ((async_step_reconfigure entries known link floats entry (some user_input) w).1
          ≡ (validate entries known link floats user_input w).1)
        ⊎ ((values : Dict Stored) × (serial : Text) × (entry.unique_id ≡ some serial)
            × IsReached entries known link floats values serial w
            × ((async_step_reconfigure entries known link floats entry (some user_input) w).1
                ≡ (move_entry entries entry.entry_id entry.data_of values
                    (validate entries known link floats user_input w).1).1))
  unfolding async_step_reconfigure reconfigure
  async_step_reconfigure_lem entry user_input w =
      go (validate entries known link floats user_input w).0 refl
    where
      go :
          (r : Outcome AddError Validated)
          → (validate entries known link floats user_input w).0 ≡ r
          → ((async_step_reconfigure entries known link floats entry (some user_input) w).1
              ≡ (validate entries known link floats user_input w).1)
            ⊎ ((values : Dict Stored) × (serial : Text) × (entry.unique_id ≡ some serial)
                × IsReached entries known link floats values serial w
                × ((async_step_reconfigure entries known link floats entry (some user_input) w).1
                    ≡ (move_entry entries entry.entry_id entry.data_of values
                        (validate entries known link floats user_input w).1).1))
      go (raise e) k = inl (rw (k, async_step_reconfigure) refl)
      go (ok (refused e)) k = inl (rw (k, async_step_reconfigure) refl)
      go (ok (accepted values serial)) k =
          let v = (validate entries known link floats user_input w).1 in
          let reached = validate-IsReached entries known link floats user_input values serial w k in
          elim (Bool-cases (known.in_progress serial v)) [
            | inl b ↦ inl (rw (k, b, async_step_reconfigure, reconfigure) refl)
            | inr b ↦ elim (Option-cases entry.unique_id) [
              | inl n ↦ inl (rw (k, b, n, async_step_reconfigure, reconfigure) refl)
              | inr (known_id, i) ↦ elim (Bool-cases (text_eq known_id serial)) [
                | inr c ↦ inl (rw (k, b, i, c, async_step_reconfigure, reconfigure) refl)
                | inl c ↦
                    let same = (text_eq_iff known_id serial).0 c in
                    inr (
                      values,
                      serial,
                      rw (i, same) refl,
                      reached,
                      rw (k, b, i, c, async_step_reconfigure, reconfigure) refl,
                    )
              ]
            ]
          ]
