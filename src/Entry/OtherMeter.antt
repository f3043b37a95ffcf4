-- ===== src/Entry/OtherMeter.antt =====
-- No meter loads under an entry that belongs to another one.
use ha_wago.Base.{ℕ, ◌≡◌, ◌⊎◌, inl, inr, Option, none, some, arith, Option-cases}
use ha_wago.Base.Text.{Text, text_eq_iff}
use ha_wago.Base.Outcome.{ok}
use ha_wago.Base.Dict.{Dict}
use ha_wago.Base.Action.{>>=-ok}
use ha_wago.Device.Meter.{Reading}
use ha_wago.Entry.{Entry}
use ha_wago.Entry.Setup.{Home, Runtime, check_serial, load, async_setup_entry}

module _ {S : Type 0} (home : Home S) (int : Text → Option ℕ) (redact : Text → Text → Text)
    (entry : Entry) where
  load-serial :
      (port : ℕ) (identity : Dict Reading) (serial : Text) (s : S) (r : Runtime)
      → (load home int redact entry port identity serial s).0 ≡ ok r
      → r.serial ≡ serial
  unfolding load
  load-serial port identity serial s r h =
      let (_, _, h1) = >>=-ok _ _ s r h in
      let (_, _, h2) = >>=-ok _ _ _ r h1 in
      let (_, _, h3) = >>=-ok _ _ _ r h2 in
      let (_, _, h4) = >>=-ok _ _ _ r h3 in
      let (_, _, h5) = >>=-ok _ _ _ r h4 in
      let (_, _, h6) = >>=-ok _ _ _ r h5 in
      let (_, _, h7) = >>=-ok _ _ _ r h6 in
      let (_, _, h8) = >>=-ok _ _ _ r h7 in let (_, _, h9) = >>=-ok _ _ _ r h8 in ground arith

  pub check_serial-ok :
      (host serial : Text) (s : S) (u : Unit {0})
      → (check_serial home entry host serial s).0 ≡ ok u
      → (entry.unique_id ≡ none) ⊎ (entry.unique_id ≡ some serial)
  unfolding check_serial
  check_serial-ok host serial s u h = elim (Option-cases entry.unique_id) [
    | inl e ↦ inl e
    | inr (expected, e) ↦ inr (ground (arith, text_eq_iff expected serial))
  ]

  -- A setup that succeeds loads the meter that the entry belongs to: the serial number that it
  -- read is the entry's unique id, unless the entry has none.
  pub async_setup_entry-serial :
      (s : S) (r : Runtime)
      → (async_setup_entry home int redact entry s).0 ≡ ok r
      → (entry.unique_id ≡ none) ⊎ (entry.unique_id ≡ some r.serial)
  unfolding async_setup_entry
  async_setup_entry-serial s r h =
      let (_, _, h1) = >>=-ok _ _ s r h in
      let (host, _, h2) = >>=-ok _ _ _ r h1 in
      let (_, _, h3) = >>=-ok _ _ _ r h2 in
      let (port, _, h4) = >>=-ok _ _ _ r h3 in
      let (_, _, h5) = >>=-ok _ _ _ r h4 in
      let (_, _, h6) = >>=-ok _ _ _ r h5 in
      let (read, _, h7) = >>=-ok _ _ _ r h6 in
      let (serial, _, h8) = >>=-ok _ _ _ r h7 in
      let (_, checked, h9) = >>=-ok _ _ _ r h8 in
      let same = load-serial port read.0 serial _ r h9 in
      elim (check_serial-ok host serial _ _ checked) [ inl e ↦ inl e | inr e ↦ inr (ground arith) ]
