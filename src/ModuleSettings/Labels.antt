-- ===== src/ModuleSettings/Labels.antt =====
-- The host names that `HOSTNAME.fullmatch` takes, said without a regular expression.
use ha_wago.Base.{ℕ, ◌≤◌, ◌≡◌, ◌↔◌, ◌⊎◌, inl, Bool, true, [], ◌∷◌, arith}
use ha_wago.Base.Lists.{length}
use ha_wago.Base.Text.{Text, is_digit, is_letter}
use ha_wago.Base.Outcome.{ok}
use ha_wago.ModuleSettings.{is_alnum, label_from, hostname_matches, check_hostname}

abbrev IsAlnum : ℕ → Type 0
IsAlnum c = (is_letter c ≡ true) ⊎ (is_digit c ≡ true)

abbrev pub AllInLabel : Text → Type 0
AllInLabel [] = Unit
AllInLabel (c ∷ s) = (IsAlnum c ⊎ (c ≡ 45)) × AllInLabel s

abbrev StartsAlnum : Text → Type 0
StartsAlnum [] = ⊥
StartsAlnum (c ∷ s) = IsAlnum c

abbrev EndsAlnum : Text → Type 0
EndsAlnum [] = ⊥
EndsAlnum (c ∷ []) = IsAlnum c
EndsAlnum (c ∷ d ∷ s) = EndsAlnum (d ∷ s)

-- Letters, digits and hyphens, neither first nor last a hyphen, within the register block less
-- one byte.
pub record IsHostname (s : Text) : Type 0 where
  pub starts : StartsAlnum s
  pub ends : EndsAlnum s
  pub inside : AllInLabel s
  pub short : length s ≤ 31

abbrev EndsWell : Bool → Text → Type 0
EndsWell b [] = b ≡ true
EndsWell b (c ∷ s) = EndsAlnum (c ∷ s)

is_alnum_iff : (c : ℕ) → (is_alnum c ≡ true) ↔ IsAlnum c
unfolding is_alnum
is_alnum_iff c = ground arith

label_from_iff : (b : Bool) (s : Text) → (label_from b s ≡ true) ↔ (EndsWell b s × AllInLabel s)
unfolding label_from
label_from_iff b [] = ((λ h. (h, tt)), (λ h. h.0))
label_from_iff b (c ∷ []) = ground (arith, is_alnum_iff c)
label_from_iff b (c ∷ d ∷ s) = ground (arith, is_alnum_iff c, label_from_iff (is_alnum c) (d ∷ s))

-- A host name is accepted exactly where it has at most 31 characters, all of them letters, digits
-- or hyphens, and begins and ends with a letter or a digit.
pub check_hostname_iff : (s : Text) → (check_hostname s ≡ ok tt) ↔ IsHostname s
unfolding check_hostname hostname_matches
check_hostname_iff [] = ground arith
check_hostname_iff (c ∷ []) = ground (arith, is_alnum_iff c, label_from_iff true [])
check_hostname_iff (c ∷ d ∷ s) =
    let head = is_alnum_iff c in
    let tail = label_from_iff true (d ∷ s) in
    (
      (λ h. record {
        starts = head.0 (ground arith);
        ends = (tail.0 (ground arith)).0;
        inside = (inl (head.0 (ground arith)), (tail.0 (ground arith)).1);
        short = ground arith;
      }),
      (λ h. ground (arith, head.1 h.starts, tail.1 (h.ends, h.inside.1))),
    )
