-- ===== src/Ipv4/Masks.antt =====
-- Netmasks and their prefix lengths.
use ha_wago.Base.{
  ℕ, zero, suc, ◌^◌, ◌≤◌, ◌<◌, ◌≡◌, refl, Bool, true, false, Option, none, some, arith, ◌==◌, ltb,
  ltb→lt,
}
use ha_wago.Base.Tests.{passes_up_to, passes_up_to-lt}
use ha_wago.Base.Text.{Text}
use ha_wago.Ipv4.{format, parse, mask_of, find_prefix, prefix_of}
use ha_wago.Ipv4.Laws.{parse-format}

is_prefix : Option ℕ → ℕ → Bool
is_prefix (some q) p = q == p
is_prefix none p = false

is_prefix→eq : (o : Option ℕ) (p : ℕ) → is_prefix o p ≡ true → o ≡ some p
unfolding is_prefix
is_prefix→eq (some q) p h = ground arith
is_prefix→eq none p h = cc

prefix_table : passes_up_to (λ p. is_prefix (prefix_of (mask_of p)) p) 33 ≡ true
unfolding passes_up_to is_prefix prefix_of
prefix_table = refl

-- The mask of a prefix length has that prefix length.
pub prefix_of-mask_of : (p : ℕ) → p ≤ 32 → prefix_of (mask_of p) ≡ some p
prefix_of-mask_of p h =
    is_prefix→eq _ p
      (passes_up_to-lt (λ q. is_prefix (prefix_of (mask_of q)) q) 33 prefix_table p (omega arith))

bound_table : passes_up_to (λ p. ltb (mask_of p) (2 ^ 32)) 33 ≡ true
unfolding passes_up_to
bound_table = refl

pub mask_of-lt : (p : ℕ) → p ≤ 32 → mask_of p < 2 ^ 32
mask_of-lt p h =
    ltb→lt _ _ (passes_up_to-lt (λ q. ltb (mask_of q) (2 ^ 32)) 33 bound_table p (omega arith))

find_prefix-eq-some : (q m p : ℕ) → find_prefix q m ≡ some p → (p ≤ q) × (m ≡ mask_of p)
unfolding find_prefix
find_prefix-eq-some zero m p h = ground arith
find_prefix-eq-some (suc q) m p h = ground (arith, find_prefix-eq-some q m p)

-- A text whose address has the prefix length `p` and is the mask of `p` prints as that mask.
pub format-mask_of-parse :
    (t : Text) (p : ℕ) → p ≤ 32 → t ≡ format (mask_of p) → parse t ≡ some (mask_of p)
format-mask_of-parse t p h e = rw e (parse-format (mask_of p) (mask_of-lt p h))
