-- ===== src/Logs/Mask.antt =====
-- What a masked identifier shows.
use ha_wago.Base.{ℕ, ◌-◌, ◌≡◌, ◌≤◌, refl, ap, ◌∙◌, [], ◌∷◌, ◌++◌, arith}
use ha_wago.Base.Text.{Text}
use ha_wago.Base.Lists.{length, drop, length-append}
use ha_wago.Logs.{mask, mask_prefix, identifier_tail}

drop-append : (s u : Text) → drop (length s) (s ++ u) ≡ u
drop-append [] u = refl
drop-append (c ∷ s) u = drop-append s u

identifier_tail-append : (s u : Text) → length u ≡ 4 → identifier_tail (s ++ u) ≡ u
unfolding identifier_tail
identifier_tail-append s u h =
    let cut : length (s ++ u) - 4 ≡ length s = omega (arith, length-append s u) in
    ap (λ n. drop n (s ++ u)) cut ∙ drop-append s u

-- The mask of an identifier of at most four characters is the three dots alone. That of a longer
-- one is the dots and its last four characters, whatever stands before them.
pub mask_shows :
    ((t : Text) → length t ≤ 4 → mask t ≡ mask_prefix)
    × ((c : ℕ) (s u : Text) → length u ≡ 4 → mask ((c ∷ s) ++ u) ≡ mask_prefix ++ u)
unfolding mask
mask_shows = (short, long)
  where
    short : (t : Text) → length t ≤ 4 → mask t ≡ mask_prefix
    short t h = ground arith

    long : (c : ℕ) (s u : Text) → length u ≡ 4 → mask ((c ∷ s) ++ u) ≡ mask_prefix ++ u
    long c s u h = ground (arith, length-append (c ∷ s) u, identifier_tail-append (c ∷ s) u h)
