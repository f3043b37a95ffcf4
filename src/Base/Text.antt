-- ===== src/Base/Text.antt =====
-- Text as the list of its code points, with the parts of Python's `str` that the program uses.
use Prim.Native.Nat.{ℕ}
use Prim.Native.Char.{code}
use Prim.Native.String.{String}
use mathlib.Core.Path.{◌≡◌, refl, ap, ◌∙◌}
use mathlib.Core.Logic.{◌↔◌}
use mathlib.Core.Bool.{Bool, true, false, ◌&&◌, ◌||◌}
use mathlib.Core.List.{List, [], ◌∷◌, ◌++◌, reverse}
use native.Mathlib.Omega.{arith}
use ha_wago.Base.Tests.{leb, ◌==◌, if◌then◌else◌, ==_iff}

abbrev pub Text : Type 0
Text = List ℕ

-- The code points of a literal.
abbrev pub codes : String → Text
codes String.[] = []
codes (String.◌∷◌ c s) = code c ∷ codes s

unfoldable pub text_eq : Text → Text → Bool
text_eq [] [] = true
text_eq (a ∷ s) (b ∷ t) = a == b && text_eq s t
text_eq [] (b ∷ t) = false
text_eq (a ∷ s) [] = false

pub text_eq_iff : (s t : Text) → (text_eq s t ≡ true) ↔ (s ≡ t)
unfolding text_eq
text_eq_iff [] [] = ground arith
text_eq_iff (a ∷ s) (b ∷ t) = ground (arith, text_eq_iff s t)
text_eq_iff [] (b ∷ t) = ground arith
text_eq_iff (a ∷ s) [] = ground arith

pub text_eq_refl : (s : Text) → text_eq s s ≡ true
text_eq_refl s = (text_eq_iff s s).1 refl

abbrev pub is_digit : ℕ → Bool
is_digit c = leb 48 c && leb c 57

abbrev pub is_letter : ℕ → Bool
is_letter c = (leb 65 c && leb c 90) || (leb 97 c && leb c 122)

-- The code points for which Python's `str.isspace` holds.
unfoldable pub is_space : ℕ → Bool
is_space c =
    (leb 9 c && leb c 13)
    || (leb 28 c && leb c 32)
    || c == 133
    || c == 160
    || c == 5760
    || (leb 8192 c && leb c 8202)
    || c == 8232
    || c == 8233
    || c == 8239
    || c == 8287
    || c == 12288

unfoldable pub any_space : Text → Bool
any_space [] = false
any_space (c ∷ s) = is_space c || any_space s

unfoldable pub lstrip : Text → Text
lstrip [] = []
lstrip (c ∷ s) = if is_space c then lstrip s else c ∷ s

unfoldable pub rstrip : Text → Text
rstrip s = reverse (lstrip (reverse s))

-- Python's `str.strip()`.
unfoldable pub strip : Text → Text
unfolding lstrip rstrip
strip s = rstrip (lstrip s)

-- `str.startswith`
unfoldable pub starts_with : Text → Text → Bool
starts_with [] s = true
starts_with (c ∷ p) [] = false
starts_with (c ∷ p) (d ∷ s) = c == d && starts_with p s

-- Python's `in` between texts.
unfoldable pub is_in : Text → Text → Bool
unfolding starts_with
is_in p [] = starts_with p []
is_in p (c ∷ s) = starts_with p (c ∷ s) || is_in p s

-- `str.endswith`
unfoldable pub ends_with : Text → Text → Bool
ends_with p s = starts_with (reverse p) (reverse s)

abbrev push : ℕ → List Text → List Text
push c [] = (c ∷ []) ∷ []
push c (w ∷ ws) = (c ∷ w) ∷ ws

-- Python's `str.split` at one character.
unfoldable pub split_on : ℕ → Text → List Text
split_on sep [] = [] ∷ []
split_on sep (c ∷ s) = let rest = split_on sep s in if c == sep then [] ∷ rest else push c rest

-- Python's `str.join` with one character.
unfoldable pub join_with : ℕ → List Text → Text
join_with sep [] = []
join_with sep (w ∷ []) = w
join_with sep (v ∷ w ∷ ws) = v ++ sep ∷ join_with sep (w ∷ ws)

abbrev pub Lacks : ℕ → Text → Type 0
Lacks sep [] = Unit
Lacks sep (c ∷ s) = (c == sep ≡ false) × Lacks sep s

pub split_on-append :
    (sep : ℕ) (w s : Text) → Lacks sep w → split_on sep (w ++ sep ∷ s) ≡ w ∷ split_on sep s
unfolding split_on
split_on-append sep [] s h = rw ((==_iff sep sep).1 refl)
split_on-append sep (c ∷ w) s h = ground (arith, split_on-append sep w s h.1)

pub split_on_whole : (sep : ℕ) (w : Text) → Lacks sep w → split_on sep w ≡ w ∷ []
unfolding split_on
split_on_whole sep [] h = refl
split_on_whole sep (c ∷ w) h = ground (arith, split_on_whole sep w h.1)

join_with-push : (sep c : ℕ) (ws : List Text) → join_with sep (push c ws) ≡ c ∷ join_with sep ws
unfolding join_with
join_with-push sep c [] = refl
join_with-push sep c (w ∷ []) = refl
join_with-push sep c (v ∷ w ∷ ws) = refl

split_on_cons : (sep : ℕ) (s : Text) → (w : Text) × (ws : List Text) × (split_on sep s ≡ w ∷ ws)
unfolding split_on
split_on_cons sep [] = ([], [], refl)
split_on_cons sep (c ∷ s) = go (split_on sep s) (split_on_cons sep s)
  where
    go :
        (r : List Text)
        → (w : Text) × (ws : List Text) × (r ≡ w ∷ ws)
        → (w : Text) × (ws : List Text) × ((if c == sep then [] ∷ r else push c r) ≡ w ∷ ws)
    go [] (w, ws, e) = cc
    go (v ∷ vs) _ = pick (c == sep)
      where
        pick :
            (b : Bool)
            → (w : Text) × (ws : List Text) × ((if b then [] ∷ v ∷ vs else push c (v ∷ vs))
                ≡ w ∷ ws)
        pick true = ([], v ∷ vs, refl)
        pick false = (c ∷ v, vs, refl)

join_step :
    (sep c : ℕ) (r : List Text) (w : Text) (ws : List Text)
    → r ≡ w ∷ ws
    → join_with sep (if c == sep then [] ∷ r else push c r) ≡ c ∷ join_with sep r
unfolding join_with
join_step sep c [] w ws e = cc
join_step sep c (v ∷ []) w ws e = ground arith
join_step sep c (v ∷ u ∷ vs) w ws e = ground arith

pub join_with-split_on : (sep : ℕ) (s : Text) → join_with sep (split_on sep s) ≡ s
unfolding split_on
join_with-split_on sep [] = unfold join_with in refl
join_with-split_on sep (c ∷ s) =
    let (w, ws, e) = split_on_cons sep s in
    join_step sep c (split_on sep s) w ws e ∙ ap (λ t. c ∷ t) (join_with-split_on sep s)
