-- ===== src/Flow/Choice.antt =====
-- What the decisions of the flows promise.
use ha_wago.Base.{
  String, ◌≡◌, inl, inr, true, false, some, [], ◌∷◌, arith, Option-cases, Bool-cases,
}
use text.Mathlib.Text.{◌==◌ as str_eq}
use text.Mathlib.TextEquality.{eq_iff}
use ha_wago.Base.Int.{ℤ}
use ha_wago.Base.Text.{Text}
use ha_wago.Base.Dict.{Dict, lookup}
use ha_wago.Python.{FloatText, Value, Float, to_float, is_integer, to_int}
use ha_wago.Flow.{Converted, integer, as_integer, convert, as_integers}

as_integer-eq-some :
    (floats : FloatText) (value : Value) (i : ℤ)
    → as_integer floats value ≡ some i
    → (x : Float) × (to_float floats value ≡ some x) × (is_integer x ≡ true) × (i ≡ to_int x)
unfolding as_integer
as_integer-eq-some floats value i h = elim (Option-cases (to_float floats value)) [
  | inl n ↦ absurd (ground arith)
  | inr (x, e) ↦ elim (Bool-cases (is_integer x)) [
    | inl b ↦ (x, e, b, ground arith)
    | inr b ↦ absurd (ground arith)
  ]
]

convert-eq-some :
    (floats : FloatText) (key : String) (value : Value) (c : Converted)
    → convert floats key value ≡ some c
    → str_eq key "host" ≡ false
    → (x : Float) × (to_float floats value ≡ some x)
      × (is_integer x ≡ true)
      × (c ≡ integer (to_int x))
unfolding convert
convert-eq-some floats key value c h n = elim (Option-cases (as_integer floats value)) [
  | inl e ↦ absurd (ground arith)
  | inr (i, e) ↦
      let (x, ex, w, same) = as_integer-eq-some floats value i e in (x, ex, w, ground arith)
]

pub as_integers_cons :
    (floats : FloatText) (k : String) (v : Value) (user_input : Dict Value) (out : Dict Converted)
    → as_integers floats ((k, v) ∷ user_input) ≡ some out
    → (c : Converted) × (rest : Dict Converted) × (convert floats k v ≡ some c)
      × (as_integers floats user_input ≡ some rest)
      × (out ≡ (k, c) ∷ rest)
unfolding as_integers
as_integers_cons floats k v user_input out h = elim (Option-cases (convert floats k v)) [
  | inl e ↦ absurd (ground arith)
  | inr (c, e) ↦ elim (Option-cases (as_integers floats user_input)) [
    | inl n ↦ absurd (ground arith)
    | inr (rest, r) ↦ (c, rest, e, r, ground arith)
  ]
]

-- An accepted form keeps every number that was entered: under each key but the host's stands the
-- integer that the entered value equals, and a value that is no whole number is never accepted.
pub as_integers-lookup :
    (floats : FloatText) (user_input : Dict Value) (out : Dict Converted) (key : String)
    (value : Value)
    → as_integers floats user_input ≡ some out
    → lookup key user_input ≡ some value
    → str_eq key "host" ≡ false
    → (x : Float) × (to_float floats value ≡ some x)
      × (is_integer x ≡ true)
      × (lookup key out ≡ some (integer (to_int x)))
unfolding lookup
as_integers-lookup floats [] out key value h k n = cc
as_integers-lookup floats ((j, v) ∷ user_input) out key value h k n =
    let (c, rest, converted, accepted, same) = as_integers_cons floats j v user_input out h in
    elim (Bool-cases (str_eq j key)) [
      | inl b ↦
          let jk = (eq_iff j key).0 b in
          let (x, ex, w, cx) = convert-eq-some floats j v c converted (ground (arith, jk)) in
          (x, ground arith, w, ground arith)
      | inr b ↦
          let (x, ex, w, found) =
            as_integers-lookup floats user_input rest key value accepted (ground arith) n in
          (x, ex, w, ground arith)
    ]
