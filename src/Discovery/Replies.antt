-- ===== src/Discovery/Replies.antt =====
-- Which datagrams describe a module, and what a search returns for those that arrived.
use ha_wago.Base.{
  ℕ, zero, suc, ◌^◌, ◌<◌, ◌≡◌, ◌⊎◌, ◌↔◌, refl, sym, ap, ◌∙◌, Bool, true, not, ◌||◌, Option, none,
  some, List, [], ◌∷◌, arith, ◌==◌, if◌then◌else◌, ==_iff,
}
use ha_wago.Base.Lists.{length, take, drop, get_or, all, length-take, length-drop}
use ha_wago.Base.Text.{Text, is_digit, is_letter}
use ha_wago.Ipv4.{format}
use ha_wago.Addresses.{is_host_address, IsHost, is_host_address_iff}
use ha_wago.Discovery.{FoundModule, slice, address_of_bytes, is_ascii, is_alnum_text, parse_reply}

abbrev All {ℓ} : {A : Type ℓ} → (A → Type 0) → List A → Type 0
All P [] = Unit
All P (x ∷ xs) = P x × All P xs

abbrev IsAlnum : ℕ → Type 0
IsAlnum c = (is_letter c ≡ true) ⊎ (is_digit c ≡ true)

-- A reply of 32 bytes with an address of a host and a serial of twelve letters and digits.
pub record IsReply (bytes : List ℕ) (m : FoundModule) : Type 0 where
  pub whole : length bytes ≡ 32
  pub serial : m.serial_number ≡ slice 20 12 bytes
  pub readable : All IsAlnum (slice 20 12 bytes)
  pub is_host : IsHost (address_of_bytes (slice 12 4 bytes))
  pub host : m.host ≡ format (address_of_bytes (slice 12 4 bytes))

IsAlnum-iff : (t : Text) → (all (λ b. is_letter b || is_digit b) t ≡ true) ↔ All IsAlnum t
IsAlnum-iff [] = ground arith
IsAlnum-iff (c ∷ t) = ground (arith, IsAlnum-iff t)

is_ascii-alnum : (t : Text) → all (λ b. is_letter b || is_digit b) t ≡ true → is_ascii t ≡ true
unfolding is_ascii
is_ascii-alnum [] h = refl
is_ascii-alnum (c ∷ t) h = ground (arith, is_ascii-alnum t)

is_alnum_text_iff :
    (c : ℕ) (t : Text) → is_alnum_text (c ∷ t) ≡ all (λ b. is_letter b || is_digit b) (c ∷ t)
unfolding is_alnum_text
is_alnum_text_iff c t = refl

cons_of_length : (l : List ℕ) → 0 < length l → (c : ℕ) × (t : List ℕ) × (l ≡ c ∷ t)
cons_of_length [] h = absurd (omega arith)
cons_of_length (c ∷ t) h = (c, t, refl)

serial_cons :
    (bytes : List ℕ) → length bytes ≡ 32 → (c : ℕ) × (t : Text) × (slice 20 12 bytes ≡ c ∷ t)
serial_cons bytes h =
    cons_of_length (slice 20 12 bytes)
      (omega (arith, length-take 12 (drop 20 bytes), length-drop 20 bytes))

abbrev IsByte : ℕ → Type 0
IsByte b = b < 256

All-drop : (n : ℕ) (l : List ℕ) → All IsByte l → All IsByte (drop n l)
All-drop zero l h = h
All-drop (suc n) [] h = tt
All-drop (suc n) (c ∷ l) h = All-drop n l h.1

All-take : (n : ℕ) (l : List ℕ) → All IsByte l → All IsByte (take n l)
All-take zero l h = tt
All-take (suc n) [] h = tt
All-take (suc n) (c ∷ l) h = (h.0, All-take n l h.1)

get_or-byte : (l : List ℕ) (i : ℕ) → All IsByte l → get_or l i 0 < 256
get_or-byte [] i h = omega arith
get_or-byte (c ∷ l) zero h = h.0
get_or-byte (c ∷ l) (suc i) h = get_or-byte l i h.1

address_of_bytes-lt : (bytes : List ℕ) → All IsByte bytes → address_of_bytes bytes < 2 ^ 32
address_of_bytes-lt bytes h =
    let b0 = get_or-byte bytes 0 h in
    let b1 = get_or-byte bytes 1 h in
    let b2 = get_or-byte bytes 2 h in let b3 = get_or-byte bytes 3 h in omega arith

abbrev chain : Bool → Bool → Bool → Bool → FoundModule → Option FoundModule
chain a b c d x =
    if not a then none else if not b then none else if not c || not d then none else some x

chain-eq-some :
    (a b c d : Bool) (x m : FoundModule)
    → chain a b c d x ≡ some m
    → (a ≡ true) × (c ≡ true) × (d ≡ true) × (x ≡ m)
chain-eq-some true true true true x m h = (refl, refl, refl, ground arith)
chain-eq-some _ _ _ _ x m h = cc

-- A datagram describes a module exactly where it is a reply: 32 bytes, the serial number twelve
-- letters and digits, the address that of a host.
pub parse_reply_iff :
    (bytes : List ℕ) (m : FoundModule)
    → All IsByte bytes
    → (parse_reply bytes ≡ some m) ↔ IsReply bytes m
unfolding parse_reply
parse_reply_iff bytes m h = (forward, backward)
  where
    address : ℕ
    address = address_of_bytes (slice 12 4 bytes)

    host_iff : (is_host_address address ≡ true) ↔ IsHost address
    host_iff =
        is_host_address_iff address (address_of_bytes-lt _ (All-take 4 _ (All-drop 12 bytes h)))

    forward : parse_reply bytes ≡ some m → IsReply bytes m
    forward e =
        let serial = slice 20 12 bytes in
        let (long, alnum, host, same) =
          chain-eq-some (length bytes == 32) (is_ascii serial) (is_alnum_text serial)
            (is_host_address address) (record { serial_number = serial; host = format address }) m
            e in
        let whole : length bytes ≡ 32 = (==_iff _ _).0 long in
        let (c, t, cons) = serial_cons bytes whole in
        let all_alnum = sym (is_alnum_text_iff c t) ∙ (rw cons at alnum) in
        record {
          whole = whole;
          serial = ap (λ (k : FoundModule). k.serial_number) (sym same);
          readable = rw cons ((IsAlnum-iff (c ∷ t)).0 all_alnum);
          is_host = host_iff.0 host;
          host = ap (λ (k : FoundModule). k.host) (sym same);
        }

    backward : IsReply bytes m → parse_reply bytes ≡ some m
    backward r =
        let (c, t, cons) = serial_cons bytes r.whole in
        let all_alnum = (IsAlnum-iff (c ∷ t)).1 (rw cons at r.readable) in
        let ascii : is_ascii (slice 20 12 bytes) ≡ true =
          rw cons (is_ascii-alnum (c ∷ t) all_alnum) in
        let alnum : is_alnum_text (slice 20 12 bytes) ≡ true =
          rw cons (is_alnum_text_iff c t ∙ all_alnum) in
        let host = host_iff.1 r.is_host in
        let same : record { serial_number = slice 20 12 bytes; host = format address } ≡ m =
          λ i. record { serial_number = sym r.serial i; host = sym r.host i } in
        rw ((==_iff _ _).1 r.whole, ascii, alnum, host) (ap some same)
