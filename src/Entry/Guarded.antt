-- ===== src/Entry/Guarded.antt =====
-- What `async_setup_entry` may have touched before it knows its meter.
use ha_wago.Base.{
  ℕ, ◌≡◌, ◌⊎◌, inl, inr, refl, sym, ap, ◌∙◌, Option, none, some, arith, Option-cases,
}
use mathlib.Core.Path.{subst}
use ha_wago.Base.Text.{Text}
use ha_wago.Base.Outcome.{Outcome, ok, raise, Outcome-cases}
use ha_wago.Base.Dict.{Dict}
use ha_wago.Base.Hex.{hex}
use ha_wago.Base.Action.{Action, present, ◌>>=◌, >>=-cases}
use ha_wago.Device.Meter.{Reading, Component, Meter, check_identity, async_read_identity}
use ha_wago.Device.Meter.Identity.{IsWagoMeter, async_read_identity_outcomes}
use ha_wago.Entry.{Entry, setting, default_port, default_unit_id}
use ha_wago.Entry.OtherMeter.{check_serial-ok}
use ha_wago.Entry.Setup.{
  Home, Runtime, SetupError, host_of, check_serial, load, async_setup_entry, read_identity,
  title_action, key_error, value_error, assertion_error,
}

-- A view of the state that the calls before `load` keep: clearing the repair issue, the title,
-- getting the unit and reading the identity.
pub record IsApart {S A : Type 0} (home : Home S) (view : S → A) : Type 0 where
  pub delete_issue : (s : S) → view (home.delete_issue s) ≡ view s
  pub update_title : (title : Text) (s : S) → view (home.update_title title s) ≡ view s
  pub get_unit : (port unit_id : ℕ) (s : S) → view (home.get_unit port unit_id s).1 ≡ view s
  pub update_identity :
      (unit_id : ℕ) (s : S) → view ((home.meter unit_id).update_identity s).1 ≡ view s

module _ {S : Type 0} (home : Home S) (int : Text → Option ℕ) (redact : Text → Text → Text)
    (entry : Entry) where
  -- At the entry's unit id, from a state with the view of `s`, a meter of WAGO's that sends floats
  -- answered with the serial number.
  pub record IsAnswered {A : Type 0} (view : S → A) (s : S) (serial : Text) : Type 0 where
    pub unit_id : ℕ
    pub asked : setting int entry "unit_id" default_unit_id ≡ some unit_id
    pub before : S
    pub same_view : view before ≡ view s
    pub component : Component
    pub number : ℕ
    pub answer : ((home.meter unit_id).update_identity before).0 ≡ ok component
    pub is_meter : IsWagoMeter component number
    pub shown : serial ≡ hex 8 number

  -- The run raised and kept the view, or it did all that `load` does, from a state that kept the
  -- view, for a meter that answered with the entry's serial number.
  abbrev pub IsGuarded : {A : Type 0} → (S → A) → S → Outcome SetupError Runtime × S → Type 0
  IsGuarded view s result =
      ((e : SetupError) × (result.0 ≡ raise e) × (view result.1 ≡ view s))
      ⊎ ((port : ℕ) × (identity : Dict Reading) × (serial : Text) × (t : S) × (setting int entry
              "port" default_port
            ≡ some port)
          × IsAnswered view s serial
          × ((entry.unique_id ≡ none) ⊎ (entry.unique_id ≡ some serial))
          × (view t ≡ view s)
          × (result ≡ load home int redact entry port identity serial t))

  module _ {A : Type 0} (view : S → A) (apart : IsApart home view) where
    >>=-IsGuarded :
        {B : Type 0} (m : Action SetupError S B) (f : B → Action SetupError S Runtime) (s t : S)
        → view (m t).1 ≡ view s
        → ((x : B) → (m t).0 ≡ ok x → IsGuarded view s (f x (m t).1))
        → IsGuarded view s ((m >>= f) t)
    >>=-IsGuarded m f s t kept rest = elim (>>=-cases m f t) [
      | inl (e, h, same) ↦ subst (IsGuarded view s) (sym same) (inl (e, refl, kept))
      | inr (x, h, same) ↦ subst (IsGuarded view s) (sym same) (rest x h)
    ]

    present-kept :
        {B : Type 0} (e : SetupError) (o : Option B) (t : S) → view (present e o t).1 ≡ view t
    present-kept e none t = refl
    present-kept e (some x) t = refl

    title_action-kept : (host : Text) (t : S) → view (title_action home entry host t).1 ≡ view t
    title_action-kept host t = elim (Option-cases entry.unique_id) [
      | inl n ↦ rw n refl
      | inr (serial, e) ↦ rw e (apart.update_title _ t)
    ]

    check_serial-kept :
        (host serial : Text) (t : S) → view (check_serial home entry host serial t).1 ≡ view t
    unfolding check_serial
    check_serial-kept host serial t = elim (Option-cases entry.unique_id) [
      | inl n ↦ rw n refl
      | inr (expected, e) ↦ rw e refl
    ]

    async_read_identity-link :
        (unit_id : ℕ) (meter : Meter S)
        → (async_read_identity (home.meter unit_id) meter).1.link
          ≡ ((home.meter unit_id).update_identity meter.link).1
    unfolding async_read_identity
    async_read_identity-link unit_id meter =
        elim (Outcome-cases ((home.meter unit_id).update_identity meter.link).0) [
          | inr (e, h) ↦ ground (arith, h)
          | inl (c, h) ↦ elim (Outcome-cases (check_identity c)) [
            | inr (e, k) ↦ ground (arith, h, k)
            | inl (t, k) ↦ ground (arith, h, k)
          ]
        ]

    abbrev fresh : S → Meter S
    fresh t = record { link = t; serial_number = none }

    read_identity-kept :
        (host : Text) (unit_id : ℕ) (t : S) → view (read_identity home host unit_id t).1 ≡ view t
    unfolding read_identity
    read_identity-kept host unit_id t =
        elim (Outcome-cases (async_read_identity (home.meter unit_id) (fresh t)).0) [
          | inl (d, h) ↦
              rw (h, read_identity)
                (ap view (async_read_identity-link unit_id (fresh t))
                  ∙ apart.update_identity unit_id t)
          | inr (e, h) ↦
              rw (h, read_identity)
                (ap view (async_read_identity-link unit_id (fresh t))
                  ∙ apart.update_identity unit_id t)
        ]

    read_identity-IsAnswered :
        (host serial : Text) (unit_id : ℕ) (s t : S) (read : Dict Reading × Option Text)
        → setting int entry "unit_id" default_unit_id ≡ some unit_id
        → view t ≡ view s
        → (read_identity home host unit_id t).0 ≡ ok read
        → read.1 ≡ some serial
        → IsAnswered view s serial
    unfolding read_identity
    read_identity-IsAnswered host serial unit_id s t read asked kept_view h k =
        elim (Outcome-cases (async_read_identity (home.meter unit_id) (fresh t)).0) [
          | inr (e, r) ↦ absurd (ground (arith, h, r))
          | inl (d, r) ↦
              let (c, n, answer, is_meter, kept) =
                (async_read_identity_outcomes (home.meter unit_id) (fresh t)).1 d r in
              record {
                unit_id = unit_id;
                asked = asked;
                before = t;
                same_view = kept_view;
                component = c;
                number = n;
                answer = answer;
                is_meter = is_meter;
                shown = ground (arith, h, r, k, kept);
              }
        ]

    present-ok :
        {B : Type 0} (e : SetupError) (o : Option B) (x : B) (t : S)
        → (present e o t).0 ≡ ok x
        → o ≡ some x
    present-ok e none x t h = absurd (ground (arith, h))
    present-ok e (some y) x t h = ground (arith, h)

    -- Take a view of the state that clearing the repair issue, the entry's title, getting the unit
    -- and reading the identity keep. However the setup ends, it either raised and kept the view,
    -- or a supported meter answered at the entry's unit id with a serial number that is the entry's
    -- unique id, if it has one, and the setup did what `load` does at the entry's port from a state
    -- with the same view. So with any other answer, or none, the setup raises and keeps every such
    -- view.
    pub async_setup_entry-IsGuarded :
        (s : S) → IsGuarded view s (async_setup_entry home int redact entry s)
    unfolding async_setup_entry
    async_setup_entry-IsGuarded s =
        let s1 = home.delete_issue s in
        let k1 = apart.delete_issue s in
        >>=-IsGuarded _ _ s s k1 (λ _ _.
          let s2 = (present key_error (host_of entry) s1).1 in
          let k2 = present-kept key_error (host_of entry) s1 ∙ k1 in
          >>=-IsGuarded _ _ s s1 k2 (λ host _.
            let s3 = (title_action home entry host s2).1 in
            let k3 = title_action-kept host s2 ∙ k2 in
            >>=-IsGuarded _ _ s s2 k3 (λ _ _.
              let port_of = setting int entry "port" default_port in
              let s4 = (present value_error port_of s3).1 in
              let k4 = present-kept value_error port_of s3 ∙ k3 in
              >>=-IsGuarded _ _ s s3 k4 (λ port p.
                let unit_of = setting int entry "unit_id" default_unit_id in
                let s5 = (present value_error unit_of s4).1 in
                let k5 = present-kept value_error unit_of s4 ∙ k4 in
                >>=-IsGuarded _ _ s s4 k5 (λ unit_id q.
                  let s6 = (home.get_unit port unit_id s5).1 in
                  let k6 = apart.get_unit port unit_id s5 ∙ k5 in
                  >>=-IsGuarded _ _ s s5 k6 (λ _ _.
                    let s7 = (read_identity home host unit_id s6).1 in
                    let k7 = read_identity-kept host unit_id s6 ∙ k6 in
                    >>=-IsGuarded _ _ s s6 k7 (λ read r.
                      let s8 = (present assertion_error read.1 s7).1 in
                      let k8 = present-kept assertion_error read.1 s7 ∙ k7 in
                      >>=-IsGuarded _ _ s s7 k8 (λ serial o.
                        let k9 = check_serial-kept host serial s8 ∙ k8 in
                        >>=-IsGuarded _ _ s s8 k9 (λ u c. inr (
                          port,
                          read.0,
                          serial,
                          (check_serial home entry host serial s8).1,
                          present-ok value_error port_of port s3 p,
                          read_identity-IsAnswered host serial unit_id s s6 read
                              (present-ok value_error unit_of unit_id s4 q) k6 r
                              (present-ok assertion_error read.1 serial s7 o),
                          check_serial-ok home int redact entry host serial s8 u c,
                          k9,
                          refl,
                        ))))))))))
