-- ===== src/Discovery/Search.antt =====
-- What a search returns for the datagrams that arrived.
use ha_wago.Base.{
  ℕ, ◌≡◌, refl, ap, ◌∙◌, Bool, true, false, Option, none, some, List, [], ◌∷◌, arith, if◌then◌else◌,
}
use ha_wago.Base.Text.{Text, text_eq, text_eq_iff}
use ha_wago.Base.Dict.{or_none}
use ha_wago.Discovery.{
  FoundModule, parse_reply, Found, store, received, datagram_received, values, collect,
  browse_result,
}

find : Text → Found → Option FoundModule
find serial [] = none
find serial ((s, m) ∷ rest) = if text_eq s serial then some m else find serial rest

-- The module of a serial number in a list of modules.
pub find_module : Text → List FoundModule → Option FoundModule
find_module serial [] = none
find_module serial (m ∷ rest) =
    if text_eq m.serial_number serial then some m else find_module serial rest

-- The module that a datagram describes, if it has the serial number.
described : Text → Option FoundModule → Option FoundModule
described serial (some m) = if text_eq m.serial_number serial then some m else none
described serial none = none

-- What the last datagram that describes the serial number says.
pub newest : Text → List (List ℕ) → Option FoundModule
newest serial [] = none
newest serial (bytes ∷ later) = or_none (newest serial later) (described serial (parse_reply bytes))

-- Every module is filed under its own serial number, and no serial number twice.
abbrev IsFiled : Found → Type 0
IsFiled [] = Unit
IsFiled ((s, m) ∷ rest) = (s ≡ m.serial_number) × (find s rest ≡ none) × IsFiled rest

abbrev pub IsDistinct : List FoundModule → Type 0
IsDistinct [] = Unit
IsDistinct (m ∷ rest) = (find_module m.serial_number rest ≡ none) × IsDistinct rest

find-store :
    (k j : Text) (m : FoundModule) (found : Found)
    → find j (store k m found) ≡ (if text_eq k j then some m else find j found)
unfolding find store
find-store k j m [] = refl
find-store k j m ((s, n) ∷ rest) =
    ground (arith, text_eq_iff s k, text_eq_iff k j, text_eq_iff s j, find-store k j m rest)

store-IsFiled :
    (m : FoundModule) (found : Found) → IsFiled found → IsFiled (store m.serial_number m found)
unfolding store
store-IsFiled m [] h = (refl, unfold find in refl, tt)
store-IsFiled m ((s, n) ∷ rest) (own, once, filed) =
    go (text_eq s m.serial_number) refl (store-IsFiled m rest filed)
  where
    go :
        (b : Bool)
        → text_eq s m.serial_number ≡ b
        → IsFiled (store m.serial_number m rest)
        → IsFiled (if b then (m.serial_number, m) ∷ rest else (s, n) ∷ store m.serial_number m rest)
    go true e ih = (refl, rw (← (text_eq_iff s m.serial_number).0 e) once, filed)
    go false e ih = (
      own,
      ground (
        arith,
        find-store m.serial_number s m rest,
        text_eq_iff m.serial_number s,
        text_eq_iff s m.serial_number,
      ),
      ih,
    )

find_module-values :
    (serial : Text) (found : Found)
    → IsFiled found
    → find_module serial (values found) ≡ find serial found
unfolding find_module find values
find_module-values serial [] h = refl
find_module-values serial ((s, m) ∷ rest) (own, once, filed) =
    rw (own, find_module-values serial rest filed)

values-IsDistinct : (found : Found) → IsFiled found → IsDistinct (values found)
unfolding values
values-IsDistinct [] h = tt
values-IsDistinct ((s, m) ∷ rest) (own, once, filed) =
    (find_module-values m.serial_number rest filed ∙ (rw own at once), values-IsDistinct rest filed)

received-IsFiled :
    (o : Option FoundModule) (found : Found) → IsFiled found → IsFiled (received o found)
received-IsFiled (some m) found h = store-IsFiled m found h
received-IsFiled none found h = h

find-received :
    (serial : Text) (o : Option FoundModule) (found : Found)
    → find serial (received o found) ≡ or_none (described serial o) (find serial found)
unfolding described or_none
find-received serial none found = refl
find-received serial (some m) found = find-store m.serial_number serial m found ∙ ground arith

or_none_assoc : (a b c : Option FoundModule) → or_none a (or_none b c) ≡ or_none (or_none a b) c
unfolding or_none
or_none_assoc none b c = refl
or_none_assoc (some m) b c = refl

collect-IsFiled :
    (datagrams : List (List ℕ)) (found : Found) → IsFiled found → IsFiled (collect datagrams found)
unfolding collect datagram_received
collect-IsFiled [] found h = h
collect-IsFiled (bytes ∷ rest) found h =
    collect-IsFiled rest (datagram_received bytes found)
      (received-IsFiled (parse_reply bytes) found h)

find-collect :
    (serial : Text) (datagrams : List (List ℕ)) (found : Found)
    → find serial (collect datagrams found) ≡ or_none (newest serial datagrams) (find serial found)
unfolding collect datagram_received newest
find-collect serial [] found = unfold or_none in refl
find-collect serial (bytes ∷ rest) found =
    find-collect serial rest (datagram_received bytes found)
    ∙ ap (or_none (newest serial rest)) (find-received serial (parse_reply bytes) found)
    ∙ or_none_assoc (newest serial rest) (described serial (parse_reply bytes)) (find serial found)

or_none-none : (o : Option FoundModule) → or_none o none ≡ o
unfolding or_none
or_none-none none = refl
or_none-none (some m) = refl

-- A search returns, for every serial number, what the last datagram that describes a module of
-- that serial says, nothing for a serial that none describes, and no serial number twice.
pub browse_result_lem :
    (datagrams : List (List ℕ))
    → ((serial : Text) → find_module serial (browse_result datagrams) ≡ newest serial datagrams)
      × IsDistinct (browse_result datagrams)
unfolding browse_result
browse_result_lem datagrams =
    let filed = collect-IsFiled datagrams [] tt in
    (
      (λ serial.
          find_module-values serial (collect datagrams []) filed
          ∙ find-collect serial datagrams []
          ∙ (unfold find in or_none-none (newest serial datagrams))),
      values-IsDistinct (collect datagrams []) filed,
    )
