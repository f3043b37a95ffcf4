-- ===== src/Options/Encodes.antt =====
-- Settings that the form accepted fit the registers of their fields.
use ha_wago.Base.{
  ℕ, ◌/◌, ◌%◌, ◌^◌, ◌<◌, ◌≡◌, inl, inr, refl, ◌⊎◌, Bool, true, false, none, some, List, [], ◌∷◌,
  arith, ◌∙◌,
}
use ha_wago.Base.Int.{ℤ, pos, negsuc}
use ha_wago.Base.Text.{Text}
use ha_wago.Base.Lists.{length}
use ha_wago.Base.Outcome.{ok}
use ha_wago.Ipv4.{parse}
use ha_wago.Ipv4.Laws.{parse-format}
use ha_wago.Python.{FloatText}
use ha_wago.Device.Write as Write
use ha_wago.Device.Write.{Change, StringEncoder, encode, encode_address, field_of, word_range}
use ha_wago.Device.Write.Effect.{IsFilling, length-encode}
use ha_wago.ModuleSettings.{Form, Settings}
use ha_wago.ModuleSettings.Labels.{IsHostname}
use ha_wago.ModuleSettings.Network.{IsAddress}
use ha_wago.ModuleSettings.Outcomes.{InTimeoutRange}
use ha_wago.ModuleSettings.Page.{typed-IsTyped, module_settings_iff}
use ha_wago.ModuleSettings.Accept.{module_settings}
use ha_wago.Options.Changes.{timeout_word, all_changes}

abbrev pub AreWords : List ℕ → Type 0
AreWords [] = Unit
AreWords (w ∷ ws) = (w < 2 ^ 16) × AreWords ws

-- What the package documents of `encode_string`: the words fill the field, each is one of 16
-- bits, and a host name fits the field of host names.
pub record IsEncoder (enc : StringEncoder) : Type 0 where
  pub filling : IsFilling enc
  pub words : (t : Text) (n : ℕ) (ws : List ℕ) → enc t n ≡ some ws → AreWords ws
  pub names : (t : Text) → IsHostname t → (ws : List ℕ) × (enc t 16 ≡ some ws)

-- Settings as the module reports them: the name was read from its field, the timeout from a word.
pub record IsReported (enc : StringEncoder) (current : Settings) : Type 0 where
  pub name : (ws : List ℕ) × (enc current.hostname 16 ≡ some ws)
  pub timeout : (n : ℕ) × (current.timeout ≡ pos n) × (n < 2 ^ 16)

-- The value has as many words as its field, each of 16 bits.
abbrev pub Fits : StringEncoder → Change → Type 0
Fits enc c =
    (ws : List ℕ) × (encode enc c ≡ some ws) × (length ws ≡ (field_of c).count) × AreWords ws

abbrev pub AllFit : StringEncoder → List Change → Type 0
AllFit enc [] = Unit
AllFit enc (c ∷ cs) = Fits enc c × AllFit enc cs

encode_address-IsAddress :
    (t : Text) (a : ℕ)
    → IsAddress t a
    → encode_address t ≡ some (a / word_range ∷ a % word_range ∷ [])
unfolding encode_address
encode_address-IsAddress t a h =
    let e : parse t ≡ some a = rw h.shown (parse-format a h.below) in ground arith

module _ (enc : StringEncoder) (laws : IsEncoder enc) where
  with_length : (c : Change) (ws : List ℕ) → encode enc c ≡ some ws → AreWords ws → Fits enc c
  with_length c ws e h = (ws, e, length-encode enc laws.filling c ws e, h)

  address-Fits :
      (c : Change) (t : Text)
      → encode enc c ≡ encode_address t
      → (a : ℕ) × IsAddress t a
      → Fits enc c
  address-Fits c t e (a, h) =
      with_length c _ (e ∙ encode_address-IsAddress t a h) (let below = h.below in omega arith)

  timeout-Fits :
      (current t : ℤ)
      → ((n : ℕ) × (current ≡ pos n) × (n < 2 ^ 16))
      → (t ≡ current) ⊎ InTimeoutRange t
      → Fits enc (Write.timeout (timeout_word t))
  unfolding encode
  timeout-Fits current (pos m) (n, e, h) (inl same) =
      let below : m < 2 ^ 16 = ground arith in with_length _ (m ∷ []) refl (below, tt)
  timeout-Fits current (pos m) reported (inr within) = with_length _ (m ∷ []) refl (within.1, tt)
  timeout-Fits current (negsuc m) (n, e, h) (inl same) = cc
  timeout-Fits current (negsuc m) reported (inr within) = absurd within

  name-Fits :
      (current t : Text)
      → ((ws : List ℕ) × (enc current 16 ≡ some ws))
      → (t ≡ current) ⊎ IsHostname t
      → Fits enc (Write.hostname t)
  unfolding encode
  name-Fits current t (ws, e) (inl same) =
      let k : enc t 16 ≡ some ws = rw same e in
      with_length (Write.hostname t) ws k (laws.words t 16 ws k)
  name-Fits current t reported (inr h) =
      let (ws, e) = laws.names t h in with_length (Write.hostname t) ws e (laws.words t 16 ws e)

  bit-Fits : (b : Bool) → Fits enc (Write.dhcp b) × Fits enc (Write.ntp b)
  unfolding encode
  bit-Fits true = (
    with_length (Write.dhcp true) (1 ∷ []) refl (omega arith, tt),
    with_length (Write.ntp true) (1 ∷ []) refl (omega arith, tt),
  )
  bit-Fits false = (
    with_length (Write.dhcp false) (0 ∷ []) refl (omega arith, tt),
    with_length (Write.ntp false) (0 ∷ []) refl (omega arith, tt),
  )

  -- Every setting of an accepted form has a value of exactly its field's words, each of 16 bits.
  -- The settings that the module reported have a name that encodes and a timeout of one word.
  pub module_settings-AllFit :
      (floats : FloatText) (form : Form) (current s : Settings)
      → IsReported enc current
      → module_settings floats form current ≡ ok (some s, none)
      → AllFit enc (all_changes s)
  unfolding encode
  module_settings-AllFit floats form current s reported h =
      let (e, allowed) = (module_settings_iff floats form current s).0 h in
      let typed = typed-IsTyped floats form s e in
      (
        (bit-Fits s.dhcp).0,
        (
          (bit-Fits s.ntp).1,
          (
            address-Fits (Write.ip_address s.ip_address) s.ip_address refl typed.ip_address,
            (
              address-Fits (Write.gateway s.gateway) s.gateway refl typed.gateway,
              (
                address-Fits (Write.dns_server_1 s.dns_server_1) s.dns_server_1 refl
                    typed.dns_server_1,
                (
                  address-Fits (Write.dns_server_2 s.dns_server_2) s.dns_server_2 refl
                      typed.dns_server_2,
                  (
                    address-Fits (Write.ntp_server_1 s.ntp_server_1) s.ntp_server_1 refl
                        typed.ntp_server_1,
                    (
                      address-Fits (Write.ntp_server_2 s.ntp_server_2) s.ntp_server_2 refl
                          typed.ntp_server_2,
                      (
                        address-Fits (Write.netmask s.netmask) s.netmask refl typed.netmask,
                        (
                          name-Fits current.hostname s.hostname reported.name allowed.hostname,
                          (
                            timeout-Fits current.timeout s.timeout reported.timeout allowed.timeout,
                            tt,
                          ),
                        ),
                      ),
                    ),
                  ),
                ),
              ),
            ),
          ),
        ),
      )
