-- ===== src/Flow/Cache.antt =====
-- `PROBED_METERS`: what the flows remember of the meters behind found modules.
use ha_wago.Base.{
  ℕ, ◌≡◌, ◌⊎◌, inl, inr, refl, ◌∙◌, Bool, true, false, Option, none, some, [], ◌∷◌, arith,
  Option-cases, Bool-cases,
}
use ha_wago.Base.Text.{Text, text_eq, text_eq_iff, text_eq_refl}
use ha_wago.Base.Outcome.{Outcome, ok, raise}
use ha_wago.Discovery.{FoundModule}
use ha_wago.Entry.{default_port, default_unit_id}
use ha_wago.Flow.{FlowEntry, entry_of}
use ha_wago.Flow.Moving.{Entries}
use ha_wago.Flow.Probes.{
  Link, ProbeError, cannot_connect, unsupported_meter, unsupported_data_type, link_settings_clash,
  uncaught, probe_serial,
}
use ha_wago.Flow.Following.{
  Probed, probed_of, keep, is_lasting, Known, offer, after_probe, remembered, probe_found,
  async_step_integration_discovery,
}

-- What lasts is a serial number, and that the meter is none of WAGO's.
abbrev pub IsLasting : Outcome ProbeError Text → Type 0
IsLasting r = ((serial : Text) × (r ≡ ok serial)) ⊎ (r ≡ raise unsupported_meter)

-- What may change is that nothing answered, the data type that the meter sends, the settings of
-- the link, and whatever else was raised.
abbrev pub MayChange : Outcome ProbeError Text → Type 0
MayChange r =
    (r ≡ raise cannot_connect)
    ⊎ (r ≡ raise unsupported_data_type)
    ⊎ (r ≡ raise link_settings_clash)
    ⊎ (r ≡ raise uncaught)

-- All that is remembered lasts.
abbrev pub AllLasting : Probed → Type 0
AllLasting [] = Unit
AllLasting ((serial, r) ∷ probed) = IsLasting r × AllLasting probed

is_lasting-IsLasting : (r : Outcome ProbeError Text) → is_lasting r ≡ true → IsLasting r
unfolding is_lasting
is_lasting-IsLasting (ok serial) h = inl (serial, refl)
is_lasting-IsLasting (raise unsupported_meter) h = inr refl
is_lasting-IsLasting (raise cannot_connect) h = absurd (ground (arith, h))
is_lasting-IsLasting (raise unsupported_data_type) h = absurd (ground (arith, h))
is_lasting-IsLasting (raise link_settings_clash) h = absurd (ground (arith, h))
is_lasting-IsLasting (raise uncaught) h = absurd (ground (arith, h))

is_lasting-MayChange : (r : Outcome ProbeError Text) → is_lasting r ≡ false → MayChange r
unfolding is_lasting
is_lasting-MayChange (ok serial) h = absurd (ground (arith, h))
is_lasting-MayChange (raise unsupported_meter) h = absurd (ground (arith, h))
is_lasting-MayChange (raise cannot_connect) h = inl refl
is_lasting-MayChange (raise unsupported_data_type) h = inr (inl refl)
is_lasting-MayChange (raise link_settings_clash) h = inr (inr (inl refl))
is_lasting-MayChange (raise uncaught) h = inr (inr (inr refl))

-- All that `p` remembers is remembered in `q` as well, with the same answer.
abbrev pub IsKept : (p q : Probed) → Type 0
IsKept p q =
    (serial : Text) (r : Outcome ProbeError Text)
    → probed_of serial p ≡ some r
    → probed_of serial q ≡ some r

keep-AllLasting :
    (serial : Text) (r : Outcome ProbeError Text) (probed : Probed)
    → IsLasting r
    → AllLasting probed
    → AllLasting (keep serial r probed)
unfolding keep
keep-AllLasting serial r [] h all = (h, tt)
keep-AllLasting serial r ((s, q) ∷ probed) h all = elim (Bool-cases (text_eq s serial)) [
  | inl b ↦ rw (b, keep) (h, all.1)
  | inr b ↦ rw (b, keep) (all.0, keep-AllLasting serial r probed h all.1)
]

keep-same :
    (serial : Text) (r : Outcome ProbeError Text) (probed : Probed)
    → probed_of serial (keep serial r probed) ≡ some r
unfolding keep probed_of
keep-same serial r [] = rw (text_eq_refl serial) refl
keep-same serial r ((s, q) ∷ probed) =
    ground (arith, keep-same serial r probed, text_eq_refl serial)

keep-other :
    (serial other : Text) (r : Outcome ProbeError Text) (probed : Probed)
    → text_eq serial other ≡ false
    → probed_of other (keep serial r probed) ≡ probed_of other probed
unfolding keep probed_of
keep-other serial other r [] h = rw h refl
keep-other serial other r ((s, q) ∷ probed) h =
    ground (arith, keep-other serial other r probed h, text_eq_iff s serial)

module _ {W : Type 0} (entries : Entries W) (known : Known W) (link : Link W)
    (is_ipv6 : Text → Bool) (int : Text → Option ℕ) where
  -- The cache before a probe's answer is known holds it already, or nothing of the module.
  abbrev Agrees : Text → Outcome ProbeError Text → Probed → Type 0
  Agrees serial r probed = (probed_of serial probed ≡ some r) ⊎ (probed_of serial probed ≡ none)

  -- What a probe's answer makes of the cache.
  record IsCached (serial : Text) (r : Outcome ProbeError Text) (p q : Probed) : Type 0 where
    lasting : AllLasting p → AllLasting q
    keeps : IsKept p q
    caches : is_lasting r ≡ true → probed_of serial q ≡ some r

  remembered-IsCached :
      (serial : Text) (r : Outcome ProbeError Text) (probed : Probed)
      → Agrees serial r probed
      → IsCached serial r probed (remembered entries known link is_ipv6 int serial r probed)
  remembered-IsCached serial r probed agrees = elim (Bool-cases (is_lasting r)) [
    | inr b ↦
        rw b
          (record { lasting = λ all. all; keeps = λ s q h. h; caches = λ h. absurd (ground arith) })
    | inl b ↦ rw b (record {
      lasting = λ all. keep-AllLasting serial r probed (is_lasting-IsLasting r b) all;
      keeps = λ s q h. elim (Bool-cases (text_eq serial s)) [
        | inr c ↦ keep-other serial s r probed c ∙ h
        | inl c ↦
            let same = (text_eq_iff serial s).0 c in
            elim agrees [
              | inl held ↦ ground (arith, keep-same serial r probed)
              | inr lacks ↦ absurd (ground arith)
            ]
      ];
      caches = λ h. keep-same serial r probed;
    })
  ]

  after_probe-probed :
      (r : Outcome ProbeError Text) (found : FoundModule) (probed : Probed) (w : W)
      → (after_probe entries known link is_ipv6 int r found probed w).probed ≡ probed
  unfolding after_probe offer
  after_probe-probed (raise uncaught) found probed w = refl
  after_probe-probed (raise cannot_connect) found probed w = refl
  after_probe-probed (raise unsupported_meter) found probed w = refl
  after_probe-probed (raise unsupported_data_type) found probed w = refl
  after_probe-probed (raise link_settings_clash) found probed w = refl
  after_probe-probed (ok serial) found probed w = elim (Bool-cases (known.in_progress serial w)) [
    | inl b ↦ rw (b, offer) refl
    | inr b ↦ elim (Option-cases (known.entry_for_unique_id serial w)) [
      | inl n ↦ rw (b, n, offer) refl
      | inr (entry, k) ↦ elim (Bool-cases (known.is_ignored entry)) [
        | inl c ↦ rw (b, k, c, offer) refl
        | inr c ↦ rw (b, k, c, offer) refl
      ]
    ]
  ]

  -- The cache of discoveries in any order, from nothing remembered.
  pub data Remembered : Probed → Type 0 where
    nothing : Remembered []
    searched :
        (found : FoundModule) (p q : Probed) (w : W)
        → Remembered p
        → q ≡ (async_step_integration_discovery entries known link is_ipv6 int found p w).probed
        → Remembered q

  probe_found-IsCached :
      (found : FoundModule) (p : Probed) (w : W)
      → (r : Outcome ProbeError Text) × IsCached found.serial_number r p
          (probe_found entries known link is_ipv6 int found p w).probed
        × (probed_of found.serial_number p ≡ none
            → r ≡ (probe_serial link found.host default_port default_unit_id w).0)
  unfolding probe_found
  probe_found-IsCached found p w = elim (Option-cases (probed_of found.serial_number p)) [
    | inr (r, h) ↦
        let c = remembered-IsCached found.serial_number r p (inl h) in
        let same =
          after_probe-probed r found
            (remembered entries known link is_ipv6 int found.serial_number r p) w in
        (r, rw (h, probe_found, same) c, λ n. absurd (ground arith))
    | inl n ↦
        let r = (probe_serial link found.host default_port default_unit_id w).0 in
        let u = (probe_serial link found.host default_port default_unit_id w).1 in
        let c = remembered-IsCached found.serial_number r p (inr n) in
        let same =
          after_probe-probed r found
            (remembered entries known link is_ipv6 int found.serial_number r p) u in
        (r, rw (n, probe_found, same) c, λ n. refl)
  ]

  discovered-cases :
      (found : FoundModule) (p : Probed) (w : W)
      → (((entry_of (known.current_entries w) found) ≡ none)
          × ((async_step_integration_discovery entries known link is_ipv6 int found p w).probed
              ≡ (probe_found entries known link is_ipv6 int found p w).probed))
        ⊎ ((async_step_integration_discovery entries known link is_ipv6 int found p w).probed ≡ p)
  unfolding async_step_integration_discovery
  discovered-cases found p w = elim (Option-cases (entry_of (known.current_entries w) found)) [
    | inl n ↦ inl (n, rw (n, async_step_integration_discovery) refl)
    | inr (entry, h) ↦ inr (rw (h, async_step_integration_discovery) refl)
  ]

  discovered-AllLasting :
      (found : FoundModule) (p : Probed) (w : W)
      → AllLasting p
      → AllLasting
          (async_step_integration_discovery entries known link is_ipv6 int found p w).probed
  discovered-AllLasting found p w all = elim (discovered-cases found p w) [
    | inl (n, e) ↦ rw e ((probe_found-IsCached found p w).1.lasting all)
    | inr e ↦ rw e all
  ]

  Remembered-AllLasting : (p : Probed) → Remembered p → AllLasting p
  Remembered-AllLasting p nothing = tt
  Remembered-AllLasting p (searched found o _ w before e) =
      rw e (discovered-AllLasting found o w (Remembered-AllLasting o before))

  asked_remembered :
      (found : FoundModule) (p : Probed) (w : W)
      → entry_of (known.current_entries w) found ≡ none
      → probed_of found.serial_number p ≡ none
      → is_lasting (probe_serial link found.host default_port default_unit_id w).0 ≡ true
      → probed_of found.serial_number
          (async_step_integration_discovery entries known link is_ipv6 int found p w).probed
        ≡ some (probe_serial link found.host default_port default_unit_id w).0
  unfolding async_step_integration_discovery
  asked_remembered found p w m unknown lasting =
      let (r, cached, asked) = probe_found-IsCached found p w in
      let is_r = asked unknown in
      rw (m, async_step_integration_discovery, ← is_r) (cached.caches (rw is_r lasting))

  -- Over any discoveries, only serial numbers and the answer that a meter is none of WAGO's are
  -- remembered, and what is remembered of a module stays. After a discovery of a module that no
  -- entry reaches, what the meter behind it answered is remembered, unless something was
  -- remembered of the module before, or nothing answered, the meter sends another data type, the
  -- settings of the link clash, or the probe raised an exception that the flows do not expect.
  pub discovery-remembers :
      (p : Probed) (found : FoundModule) (w : W)
      → Remembered p
      → AllLasting p
        × IsKept p
            (async_step_integration_discovery entries known link is_ipv6 int found p w).probed
        × (((entry : FlowEntry) × (entry_of (known.current_entries w) found ≡ some entry))
            ⊎ ((r : Outcome ProbeError Text) × (probed_of found.serial_number p ≡ some r))
            ⊎ MayChange (probe_serial link found.host default_port default_unit_id w).0
            ⊎ (probed_of found.serial_number
                  (async_step_integration_discovery entries known link is_ipv6 int found p w).probed
                ≡ some (probe_serial link found.host default_port default_unit_id w).0))
  discovery-remembers p found w reached =
      let (r, cached, asked) = probe_found-IsCached found p w in
      let answer = (probe_serial link found.host default_port default_unit_id w).0 in
      (
        Remembered-AllLasting p reached,
        elim (discovered-cases found p w) [
          | inl (n, e) ↦ λ s q h. rw e (cached.keeps s q h)
          | inr e ↦ λ s q h. rw e h
        ],
        elim (Option-cases (entry_of (known.current_entries w) found)) [
          | inr (entry, h) ↦ inl (entry, h)
          | inl m ↦ elim (Option-cases (probed_of found.serial_number p)) [
            | inr (q, h) ↦ inr (inl (q, h))
            | inl unknown ↦ elim (Bool-cases (is_lasting answer)) [
              | inr b ↦ inr (inr (inl (is_lasting-MayChange answer b)))
              | inl b ↦ inr (inr (inr (asked_remembered found p w m unknown b)))
            ]
          ]
        ],
      )
