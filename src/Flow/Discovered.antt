-- ===== src/Flow/Discovered.antt =====
-- When a found module moves an entry, and what is remembered of the meters behind found modules.
use ha_wago.Base.{
  ℕ, ◌≡◌, ◌≢◌, ◌⊎◌, inl, inr, refl, Bool, true, false, ◌&&◌, Option, some, [], ◌∷◌, arith,
  Option-cases, Bool-cases,
}
use ha_wago.Base.Text.{Text, text_eq_iff}
use ha_wago.Base.Outcome.{Outcome, ok, raise, Outcome-cases}
use ha_wago.Base.Dict.{lookup}
use ha_wago.Discovery.{FoundModule}
use ha_wago.Entry.{string, stored_int, default_port, default_unit_id}
use ha_wago.ModuleSettings.Accept.{differs}
use ha_wago.Flow.{FlowEntry, entry_of}
use ha_wago.Flow.Moving.{Entries, is_address, host_in, move_entry}
use ha_wago.Flow.Probes.{
  Link, ProbeError, cannot_connect, unsupported_meter, unsupported_data_type, link_settings_clash,
  uncaught, probe_serial, module_answers_at, IsThere, module_answers_at-IsThere,
}
use ha_wago.Flow.Following.{
  Probed, probed_of, Known, move_if_there, async_follow, following, offer, after_probe, remembered,
  probe_found, async_step_integration_discovery,
}

module _ {W : Type 0} (entries : Entries W) (known : Known W) (link : Link W)
    (is_ipv6 : Text → Bool) (int : Text → Option ℕ) where
  -- The entry was moved: it had an address, another than the module's, and the module was there.
  pub record IsMoved (entry : FlowEntry) (found : FoundModule) (w v : W) : Type 0 where
    pub host : Text
    pub port : ℕ
    pub had : host_in entry.data_of ≡ some host
    pub address : is_address is_ipv6 host ≡ true
    pub other : host ≢ found.host
    pub there : IsThere link found port w
    pub moved :
        v
        ≡ (move_entry entries entry.entry_id entry.data_of
            (("host", string found.host) ∷ [])
            (module_answers_at link found port w).1).1

  -- Nothing but the module was asked, if at all, or the entry was moved.
  abbrev pub IsFollowed : FlowEntry → FoundModule → (w v : W) → Type 0
  IsFollowed entry found w v =
      (v ≡ w)
      ⊎ ((port : ℕ) × (v ≡ (module_answers_at link found port w).1))
      ⊎ IsMoved entry found w v

  move_if_there-cases :
      (entry : FlowEntry) (found : FoundModule) (port : ℕ) (w : W)
      → ((move_if_there entries known link is_ipv6 int entry found port w).1
          ≡ (module_answers_at link found port w).1)
        ⊎ (((module_answers_at link found port w).0 ≡ ok true)
            × ((move_if_there entries known link is_ipv6 int entry found port w).1
                ≡ (move_entry entries entry.entry_id entry.data_of
                    (("host", string found.host) ∷ [])
                    (module_answers_at link found port w).1).1))
  unfolding move_if_there
  move_if_there-cases entry found port w =
      elim (Outcome-cases (module_answers_at link found port w).0) [
        | inr (e, h) ↦ inl (rw (h, move_if_there) refl)
        | inl (b, h) ↦ elim (Bool-cases b) [
          | inl answers ↦ inr (rw (h, answers) refl, rw (h, answers, move_if_there) refl)
          | inr silent ↦ inl (rw (h, silent, move_if_there) refl)
        ]
      ]

  async_follow-IsFollowed :
      (entry : FlowEntry) (found : FoundModule) (w : W)
      → IsFollowed entry found w (async_follow entries known link is_ipv6 int entry found w).1
  unfolding async_follow
  async_follow-IsFollowed entry found w = elim (Option-cases (host_in entry.data_of)) [
    | inl n ↦ inl (rw (n, async_follow) refl)
    | inr (host, h) ↦ elim (Bool-cases (differs host found.host && is_address is_ipv6 host)) [
      | inr b ↦ inl (rw (h, b, async_follow) refl)
      | inl b ↦ elim (Option-cases (lookup "port" entry.data_of)) [
        | inl n ↦ inl (rw (h, b, n, async_follow) refl)
        | inr (stored, k) ↦ elim (Option-cases (stored_int int stored)) [
          | inl n ↦ inl (rw (h, b, k, n, async_follow) refl)
          | inr (port, p) ↦ elim (move_if_there-cases entry found port w) [
            | inl same ↦ inr (inl (port, rw (h, b, k, p, async_follow) same))
            | inr (there, moved) ↦ inr (
                inr (record {
                  host = host;
                  port = port;
                  had = h;
                  address = ground (arith, b);
                  other = λ e.
                      let eq = (text_eq_iff host found.host).1 e in absurd (ground (arith, b, eq));
                  there = module_answers_at-IsThere link found port w there;
                  moved = rw (h, b, k, p, async_follow) moved;
                }))
          ]
        ]
      ]
    ]
  ]

  -- The meter behind the module has the serial number, as it answered now or before.
  abbrev pub Answered : FoundModule → Probed → W → Text → Type 0
  Answered found probed w serial =
      (probed_of found.serial_number probed ≡ some (ok serial))
      ⊎ ((probe_serial link found.host default_port default_unit_id w).0 ≡ ok serial)

  -- The entry of a meter that has reached its module, or else of the meter behind the module.
  abbrev pub IsEntryOf : FlowEntry → FoundModule → Probed → (w v : W) → Type 0
  IsEntryOf entry found probed w v =
      (entry_of (known.current_entries w) found ≡ some entry)
      ⊎ ((serial : Text) × Answered found probed w serial
          × (known.entry_for_unique_id serial v ≡ some entry)
          × (known.is_ignored entry ≡ false))

  -- No entry was followed, and at most the meter was asked; or one was.
  abbrev pub IsDiscovered : FoundModule → Probed → (w v : W) → Type 0
  IsDiscovered found probed w v =
      (u : W) × ((u ≡ w) ⊎ (u ≡ (probe_serial link found.host default_port default_unit_id w).1))
      × ((v ≡ u)
          ⊎ ((entry : FlowEntry) × IsEntryOf entry found probed w u × IsFollowed entry found u v))

  after_probe-cases :
      (r : Outcome ProbeError Text) (found : FoundModule) (probed : Probed) (u : W)
      → ((after_probe entries known link is_ipv6 int r found probed u).world ≡ u)
        ⊎ ((serial : Text) × (entry : FlowEntry) × (r ≡ ok serial)
            × (known.entry_for_unique_id serial u ≡ some entry)
            × (known.is_ignored entry ≡ false)
            × IsFollowed entry found u
                (after_probe entries known link is_ipv6 int r found probed u).world)
  unfolding after_probe offer following
  after_probe-cases (raise uncaught) found probed u = inl refl
  after_probe-cases (raise cannot_connect) found probed u = inl refl
  after_probe-cases (raise unsupported_meter) found probed u = inl refl
  after_probe-cases (raise unsupported_data_type) found probed u = inl refl
  after_probe-cases (raise link_settings_clash) found probed u = inl refl
  after_probe-cases (ok serial) found probed u = elim (Bool-cases (known.in_progress serial u)) [
    | inl b ↦ inl (rw (b, offer) refl)
    | inr b ↦ elim (Option-cases (known.entry_for_unique_id serial u)) [
      | inl n ↦ inl (rw (b, n, offer) refl)
      | inr (entry, k) ↦ elim (Bool-cases (known.is_ignored entry)) [
        | inl c ↦ inl (rw (b, k, c, offer) refl)
        | inr c ↦
            inr (
              serial,
              entry,
              refl,
              k,
              c,
              rw (b, k, c, offer) (async_follow-IsFollowed entry found u),
            )
      ]
    ]
  ]

  -- A module that the search found moves an entry only if the entry is the one that has reached
  -- that module or that of the meter behind it, if it had an address of its own and another than
  -- the module's, and if the module answered at its address with its serial number. Whatever else
  -- happens, at most the meter and the module are asked.
  pub async_step_integration_discovery_lem :
      (found : FoundModule) (probed : Probed) (w : W)
      → IsDiscovered found probed w
          (async_step_integration_discovery entries known link is_ipv6 int found probed w).world
  unfolding async_step_integration_discovery following probe_found
  async_step_integration_discovery_lem found probed w =
      elim (Option-cases (entry_of (known.current_entries w) found)) [
        | inr (entry, h) ↦ (
          w,
          inl refl,
          inr (
            entry,
            inl h,
            rw (h, async_step_integration_discovery) (async_follow-IsFollowed entry found w),
          ),
        )
        | inl n ↦ elim (Option-cases (probed_of found.serial_number probed)) [
          | inr (r, h) ↦
              elim (after_probe-cases r found
                (remembered entries known link is_ipv6 int found.serial_number r probed) w) [
                  | inl same ↦ (
                    w,
                    inl refl,
                    inl (rw (n, h, async_step_integration_discovery, probe_found) same),
                  )
                  | inr (serial, entry, e, k, c, followed) ↦ (
                    w,
                    inl refl,
                    inr (
                      entry,
                      inr (serial, inl (rw (h, e) refl), k, c),
                      rw (n, h, async_step_integration_discovery, probe_found) followed,
                    ),
                  )
                ]
          | inl h ↦
              let r = (probe_serial link found.host default_port default_unit_id w).0 in
              let u = (probe_serial link found.host default_port default_unit_id w).1 in
              elim (after_probe-cases r found
                (remembered entries known link is_ipv6 int found.serial_number r probed) u) [
                  | inl same ↦ (
                    u,
                    inr refl,
                    inl (rw (n, h, async_step_integration_discovery, probe_found) same),
                  )
                  | inr (serial, entry, e, k, c, followed) ↦ (
                    u,
                    inr refl,
                    inr (
                      entry,
                      inr (serial, inr e, k, c),
                      rw (n, h, async_step_integration_discovery, probe_found) followed,
                    ),
                  )
                ]
        ]
      ]
