-- ===== src/Python.antt =====
-- The values that a form hands over, and what `float`, `str`, `bool` and `or` make of them.
use ha_wago.Base.{ℕ, zero, suc, ◌/◌, ◌%◌, ◌^◌, Bool, true, false, Option, none, some, [], ◌∷◌, ◌==◌}
use ha_wago.Base.Int.{ℤ, pos, negsuc}
use ha_wago.Base.Text.{Text, codes}

-- Every finite binary float is a whole number over a power of two: `finite m e` is m / 2 ^ e.
pub data Float : Type 0 where
  nan infinite : Float
  finite : ℤ → ℕ → Float

-- `None`, or a key that the form lacks, is `absent`.
pub data Value : Type 0 where
  absent : Value
  boolean : Bool → Value
  number : Float → Value
  text : Text → Value

-- Python's reading and printing of floats.
pub record FloatText : Type 0 where
  pub parse_float : Text → Option Float
  pub show_float : Float → Text

unfoldable pub is_integer : Float → Bool
is_integer (finite (pos n) e) = n % 2 ^ e == 0
is_integer (finite (negsuc n) e) = suc n % 2 ^ e == 0
is_integer _ = false

negate : ℕ → ℤ
negate zero = pos 0
negate (suc n) = negsuc n

-- `int(x)`, of a finite float that is whole.
unfoldable pub to_int : Float → ℤ
unfolding negate
to_int (finite (pos n) e) = pos (n / 2 ^ e)
to_int (finite (negsuc n) e) = negate (suc n / 2 ^ e)
to_int _ = pos 0

-- `float(True)` and `float(False)`
abbrev pub of_bool : Bool → Float
of_bool true = finite (pos 1) 0
of_bool false = finite (pos 0) 0

nonempty : Text → Bool
nonempty [] = false
nonempty (c ∷ s) = true

nonzero : Float → Bool
nonzero (finite (pos zero) e) = false
nonzero _ = true

-- `bool(value)`
unfoldable pub truthy : Value → Bool
unfolding nonempty nonzero
truthy absent = false
truthy (boolean b) = b
truthy (number x) = nonzero x
truthy (text s) = nonempty s

or_text : Text → Text → Text
or_text [] other = other
or_text (c ∷ s) other = c ∷ s

-- `s or other`, of two texts.
unfoldable pub text_or : Text → Text → Text
unfolding or_text
text_or = or_text

module _ (floats : FloatText) where
  open floats use {parse_float, show_float}

  -- `str(value or "")`
  unfoldable pub text_of : Value → Text
  text_of absent = []
  text_of (boolean true) = codes "True"
  text_of (boolean false) = []
  text_of (number (finite (pos zero) e)) = []
  text_of (number x) = show_float x
  text_of (text s) = s

  -- `float(value)`, none for a `TypeError` or a `ValueError`.
  unfoldable pub to_float : Value → Option Float
  to_float absent = none
  to_float (boolean b) = some (of_bool b)
  to_float (number x) = some x
  to_float (text s) = parse_float s
