-- ===== src/Base/Hex.antt =====
-- Python's format `0{w}X`: upper case hexadecimal, filled with zeros on the left.
use Prim.Native.Nat.{ℕ, zero, suc, ◌+◌, ◌-◌, ◌*◌, ◌/◌, ◌%◌, ◌^◌, ◌≤◌, ◌<◌}
use mathlib.Core.Path.{◌≡◌, refl, ap, ◌∙◌}
use mathlib.Core.List.{[], ◌∷◌, ◌++◌}
use native.Mathlib.Omega.{arith}
use native.Mathlib.Nat.{pow-suc}
use ha_wago.Base.Tests.{ltb, if◌then◌else◌}
use ha_wago.Base.Lists.{length, length-append}
use ha_wago.Base.Text.{Text}

hex_digit : ℕ → ℕ
hex_digit d = if ltb d 10 then 48 + d else 55 + d

hex_digits : ℕ → ℕ → Text
hex_digits zero n = hex_digit (n % 16) ∷ []
hex_digits (suc fuel) n =
    let front = hex_digits fuel (n / 16) in
    if ltb n 16 then hex_digit (n % 16) ∷ [] else front ++ hex_digit (n % 16) ∷ []

zeros : ℕ → Text
zeros zero = []
zeros (suc n) = 48 ∷ zeros n

-- `f"{n:0{width}X}"`
unfoldable pub hex : ℕ → ℕ → Text
unfolding hex_digit hex_digits zeros
hex width n = let digits = hex_digits n n in zeros (width - length digits) ++ digits

digit_value : ℕ → ℕ
digit_value c = if ltb c 65 then c - 48 else c - 55

-- The number that a text of hexadecimal digits stands for.
pub hex_value : ℕ → Text → ℕ
hex_value n [] = n
hex_value n (c ∷ t) = hex_value (n * 16 + digit_value c) t

hex_value-snoc :
    (n c : ℕ) (t : Text) → hex_value n (t ++ c ∷ []) ≡ hex_value n t * 16 + digit_value c
unfolding hex_value
hex_value-snoc n c [] = refl
hex_value-snoc n c (d ∷ t) = hex_value-snoc (n * 16 + digit_value d) c t

digit_value-hex_digit : (d : ℕ) → d < 16 → digit_value (hex_digit d) ≡ d
unfolding digit_value hex_digit
digit_value-hex_digit d h = ground arith

hex_value-hex_digits : (fuel n : ℕ) → n ≤ fuel → hex_value 0 (hex_digits fuel n) ≡ n
unfolding hex_digits
hex_value-hex_digits zero n h =
    unfold hex_value in omega (arith, digit_value-hex_digit (n % 16) (omega arith))
hex_value-hex_digits (suc fuel) n h = ground (
  arith,
  hex_value-snoc 0 (hex_digit (n % 16)) [],
  hex_value-snoc 0 (hex_digit (n % 16)) (hex_digits fuel (n / 16)),
  digit_value-hex_digit (n % 16),
  hex_value-hex_digits fuel (n / 16),
  zero_value,
)
  where
    zero_value : hex_value 0 [] ≡ 0
    zero_value = unfold hex_value in refl

hex_value-zeros : (k : ℕ) (t : Text) → hex_value 0 (zeros k ++ t) ≡ hex_value 0 t
unfolding zeros hex_value digit_value
hex_value-zeros zero t = refl
hex_value-zeros (suc k) t = hex_value-zeros k t

pub hex_value-hex : (width n : ℕ) → hex_value 0 (hex width n) ≡ n
unfolding hex
hex_value-hex width n =
    hex_value-zeros (width - length (hex_digits n n)) (hex_digits n n)
    ∙ hex_value-hex_digits n n (omega arith)

length-zeros : (k : ℕ) → length (zeros k) ≡ k
unfolding zeros
length-zeros zero = refl
length-zeros (suc k) = ap suc (length-zeros k)

length-hex_digits : (fuel k n : ℕ) → n < 16 ^ suc k → length (hex_digits fuel n) ≤ suc k
unfolding hex_digits
length-hex_digits zero k n h = omega arith
length-hex_digits (suc fuel) zero n h = ground arith
length-hex_digits (suc fuel) (suc k) n h =
    let front = hex_digits fuel (n / 16) in
    ground (
      arith,
      length-append front (hex_digit (n % 16) ∷ []),
      length-hex_digits fuel k (n / 16),
      pow-suc 16 (suc k),
    )

pub length-hex : (k n : ℕ) → n < 16 ^ suc k → length (hex (suc k) n) ≡ suc k
unfolding hex
length-hex k n h = omega (
  arith,
  length-append (zeros (suc k - length (hex_digits n n))) (hex_digits n n),
  length-zeros (suc k - length (hex_digits n n)),
  length-hex_digits n k n h,
)
