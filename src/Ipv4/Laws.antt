-- ===== src/Ipv4/Laws.antt =====
-- Reading an address back from its text, and the texts that are read.
use ha_wago.Base.{
  ℕ, ◌+◌, ◌*◌, ◌/◌, ◌%◌, ◌^◌, ◌<◌, ◌≡◌, refl, sym, ap, ◌∙◌, Option, some, List, [], ◌∷◌, ◌++◌,
  arith,
}
use ha_wago.Base.Text.{
  Text, Lacks, split_on, join_with, split_on-append, split_on_whole, join_with-split_on,
}
use ha_wago.Ipv4.{octet_text, octet, dot, format, from_octets, from_parts, parse}

octet-octet_text : (n : ℕ) → n < 256 → octet (octet_text n) ≡ some n
unfolding octet octet_text
octet-octet_text n h = ground arith

Lacks-octet_text : (n : ℕ) → n < 256 → Lacks dot (octet_text n)
unfolding octet_text
Lacks-octet_text n h = ground arith

octet-eq-some : (w : Text) (n : ℕ) → octet w ≡ some n → (w ≡ octet_text n) × (n < 256)
unfolding octet octet_text
octet-eq-some [] n h = ground arith
octet-eq-some (a ∷ []) n h = ground arith
octet-eq-some (a ∷ b ∷ []) n h = ground arith
octet-eq-some (a ∷ b ∷ c ∷ []) n h = ground arith
octet-eq-some (a ∷ b ∷ c ∷ d ∷ w) n h = ground arith

-- Four parts below 256 are the bytes of one number.
bytes_of : ℕ → ℕ → ℕ → ℕ → ℕ
bytes_of a b c d = a * 2 ^ 24 + b * 2 ^ 16 + c * 2 ^ 8 + d

format-bytes_of :
    (a b c d : ℕ)
    → a < 256
    → b < 256
    → c < 256
    → d < 256
    → format (bytes_of a b c d)
      ≡ octet_text a ++ dot ∷ (octet_text b ++ dot ∷ (octet_text c ++ dot ∷ octet_text d))
unfolding format bytes_of
format-bytes_of a b c d ha hb hc hd =
    let n : ℕ = bytes_of a b c d in
    let ea : n / 2 ^ 24 % 256 ≡ a = omega arith in
    let eb : n / 2 ^ 16 % 256 ≡ b = omega arith in
    let ec : n / 2 ^ 8 % 256 ≡ c = omega arith in
    let ed : n % 256 ≡ d = omega arith in rw (ea, eb, ec, ed)

-- An address is read back from its text.
pub parse-format : (a : ℕ) → a < 2 ^ 32 → parse (format a) ≡ some a
unfolding parse format
parse-format a h =
    let small : (n : ℕ) → n % 256 < 256 = λ n. omega arith in
    rw (split_on-append dot _ _ (Lacks-octet_text (a / 2 ^ 24 % 256) (small _))) (
      rw (split_on-append dot _ _ (Lacks-octet_text (a / 2 ^ 16 % 256) (small _))) (
        rw (split_on-append dot _ _ (Lacks-octet_text (a / 2 ^ 8 % 256) (small _))) (
          rw (split_on_whole dot _ (Lacks-octet_text (a % 256) (small _))) (
            rw
              (
                octet-octet_text (a / 2 ^ 24 % 256) (small _),
                octet-octet_text (a / 2 ^ 16 % 256) (small _),
                octet-octet_text (a / 2 ^ 8 % 256) (small _),
                octet-octet_text (a % 256) (small _),
              )
              (unfold from_octets in ap some (omega arith))))))

from_octets-eq-some :
    (oa ob oc od : Option ℕ) (n : ℕ)
    → from_octets oa ob oc od ≡ some n
    → (a : ℕ) × (b : ℕ) × (c : ℕ) × (d : ℕ) × (oa ≡ some a)
      × (ob ≡ some b)
      × (oc ≡ some c)
      × (od ≡ some d)
      × (n ≡ bytes_of a b c d)
unfolding from_octets bytes_of
from_octets-eq-some (some a) (some b) (some c) (some d) n h =
    (a, b, c, d, refl, refl, refl, refl, ground arith)
from_octets-eq-some _ _ _ _ n h = cc

from_parts-eq-some :
    (ws : List Text) (a : ℕ) → from_parts ws ≡ some a → (join_with dot ws ≡ format a) × (a < 2 ^ 32)
unfolding from_parts
from_parts-eq-some [] a h = cc
from_parts-eq-some (u ∷ []) a h = cc
from_parts-eq-some (u ∷ v ∷ []) a h = cc
from_parts-eq-some (u ∷ v ∷ w ∷ []) a h = cc
from_parts-eq-some (u ∷ v ∷ w ∷ x ∷ y ∷ ws) a h = cc
from_parts-eq-some (u ∷ v ∷ w ∷ x ∷ []) n h =
    let (a, b, c, d, ea, eb, ec, ed, e) =
      from_octets-eq-some (octet u) (octet v) (octet w) (octet x) n h in
    let (ua, la) = octet-eq-some u a ea in
    let (vb, lb) = octet-eq-some v b eb in
    let (wc, lc) = octet-eq-some w c ec in
    let (xd, ld) = octet-eq-some x d ed in
    (
      unfold join_with in rw (ua, vb, wc, xd, e, format-bytes_of a b c d la lb lc ld),
      unfold bytes_of in omega arith,
    )

-- A text that is read is the text of its address.
pub parse-eq-some : (t : Text) (a : ℕ) → parse t ≡ some a → (t ≡ format a) × (a < 2 ^ 32)
unfolding parse
parse-eq-some t a h =
    let (e, l) = from_parts-eq-some (split_on dot t) a h in (sym (join_with-split_on dot t) ∙ e, l)
