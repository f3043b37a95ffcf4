-- ===== src/Coordinator/Tolerance.antt =====
-- What a poller shows after any history of reads. A history has its newest read first.
use ha_wago.Base.{
  ℕ, suc, ◌+◌, ◌≤◌, ◌<◌, ◌≡◌, refl, ap, ◌∙◌, true, false, Option, none, some, List, [], ◌∷◌, arith,
  leb, if◌then◌else◌,
}
use ha_wago.Base.Text.{Text}
use ha_wago.Base.Outcome.{Outcome, ok, raise}
use ha_wago.Coordinator.{ReadError, Failure, failure, Coordinator, kept, async_update_data}

-- What the base class does with the result of `_async_update_data`: it takes new values over, and
-- a raise leaves the values that it has.
pub record BaseClass (D : Type 0) : Type 0 where
  pub store : Option D → Outcome Failure D → Option D
  pub store_ok : (old : Option D) (d : D) → store old (ok d) ≡ some d
  pub store_raise : (old : Option D) (f : Failure) → store old (raise f) ≡ old

module _ {D : Type 0} where
  -- The values of the newest read that returned.
  pub last_values : List (Outcome ReadError D) → Option D
  last_values [] = none
  last_values (ok d ∷ older) = some d
  last_values (raise e ∷ older) = last_values older

  -- The failed reads since then.
  pub failures_in_a_row : List (Outcome ReadError D) → ℕ
  failures_in_a_row [] = 0
  failures_in_a_row (ok d ∷ older) = 0
  failures_in_a_row (raise e ∷ older) = suc (failures_in_a_row older)

module _ {D : Type 0} (base : BaseClass D) (redact : Text → Text → Text) (name host : Text) where
  open base use {store, store_ok, store_raise}

  abbrev pub fresh : Coordinator D
  fresh = record { name = name; host = host; failed_polls = 0; value = none }

  -- A refresh: the update, and what the base class makes of its result.
  unfoldable pub refresh : Coordinator D → Outcome ReadError D → Outcome Failure D × Coordinator D
  unfolding async_update_data
  refresh c read =
      let (result, after) = async_update_data redact c read in
      (result, record after { value = store c.value result })

  unfoldable pub after : List (Outcome ReadError D) → Coordinator D
  after [] = fresh
  after (read ∷ older) = (refresh (after older) read).1

  pub record Follows (history : List (Outcome ReadError D)) (c : Coordinator D) : Type 0 where
    pub same_name : c.name ≡ name
    pub same_host : c.host ≡ host
    pub counted : c.failed_polls ≡ failures_in_a_row history
    pub newest : c.value ≡ last_values history

  store-kept : (c : Coordinator D) (e : ReadError) (o : Option D) → store o (kept redact c e o) ≡ o
  unfolding kept
  store-kept c e none = store_raise none _
  store-kept c e (some d) =
      elim (leb c.failed_polls 3)
        as (λ b.
          store (some d) (if b then ok d else raise (failure redact c.host c.name e)) ≡ some d) [
            | true ↦ store_ok (some d) d
            | false ↦ store_raise (some d) (failure redact c.host c.name e)
          ]

  refresh-Follows :
      (history : List (Outcome ReadError D)) (c : Coordinator D) (read : Outcome ReadError D)
      → Follows history c
      → Follows (read ∷ history) (refresh c read).1
  unfolding refresh last_values failures_in_a_row
  refresh-Follows history c (ok d) h = record {
    same_name = h.same_name;
    same_host = h.same_host;
    counted = refl;
    newest = store_ok c.value d;
  }
  refresh-Follows history c (raise e) h = record {
    same_name = h.same_name;
    same_host = h.same_host;
    counted = omega (arith, h.counted);
    newest = store-kept (record c { failed_polls = c.failed_polls + 1 }) e c.value ∙ h.newest;
  }

  after-Follows : (history : List (Outcome ReadError D)) → Follows history (after history)
  unfolding after
  after-Follows [] =
      unfold failures_in_a_row last_values in
      record { same_name = refl; same_host = refl; counted = refl; newest = refl }
  after-Follows (read ∷ older) = refresh-Follows older (after older) read (after-Follows older)

  shown : List (Outcome ReadError D) → ReadError → Option D → Outcome Failure D
  shown older e (some d) =
      if leb (suc (failures_in_a_row older)) 3 then ok d else raise (failure redact host name e)
  shown older e none = raise (failure redact host name e)

  kept-shown :
      (older : List (Outcome ReadError D)) (c : Coordinator D) (e : ReadError) (o : Option D)
      → c.name ≡ name
      → c.host ≡ host
      → c.failed_polls ≡ suc (failures_in_a_row older)
      → kept redact c e o ≡ shown older e o
  unfolding kept shown
  kept-shown older c e none en eh ef = rw (en, eh)
  kept-shown older c e (some d) en eh ef = rw (en, eh, ef)

  -- After any history, a poll whose read returns shows its values. A poll whose read fails shows
  -- the values of the newest read that returned while it is one of the first three failures since
  -- then; from the fourth on, and as long as no read has returned, it raises that failure.
  pub refresh-after :
      (older : List (Outcome ReadError D))
      → ((d : D) → (refresh (after older) (ok d)).0 ≡ ok d)
        × ((e : ReadError) (d : D)
            → last_values older ≡ some d
            → suc (failures_in_a_row older) ≤ 3
            → (refresh (after older) (raise e)).0 ≡ ok d)
        × ((e : ReadError)
            → 3 < suc (failures_in_a_row older)
            → (refresh (after older) (raise e)).0 ≡ raise (failure redact host name e))
        × ((e : ReadError)
            → last_values older ≡ none
            → (refresh (after older) (raise e)).0 ≡ raise (failure redact host name e))
  refresh-after older = ((λ d. unfold refresh in refl), kept_values, given_up, never_read)
    where
      f : Follows older (after older)
      f = after-Follows older

      failed :
          (e : ReadError) → (refresh (after older) (raise e)).0 ≡ shown older e (last_values older)
      failed e =
          unfold refresh in
          kept-shown older (record (after older) { failed_polls = (after older).failed_polls + 1 })
            e (after older).value f.same_name f.same_host (omega (arith, f.counted))
          ∙ ap (shown older e) f.newest

      kept_values :
          (e : ReadError) (d : D)
          → last_values older ≡ some d
          → suc (failures_in_a_row older) ≤ 3
          → (refresh (after older) (raise e)).0 ≡ ok d
      kept_values e d l h = failed e ∙ rw l (unfold shown in ground arith)

      given_up :
          (e : ReadError)
          → 3 < suc (failures_in_a_row older)
          → (refresh (after older) (raise e)).0 ≡ raise (failure redact host name e)
      given_up e h = failed e ∙ (unfold shown in ground arith)

      never_read :
          (e : ReadError)
          → last_values older ≡ none
          → (refresh (after older) (raise e)).0 ≡ raise (failure redact host name e)
      never_read e l = failed e ∙ rw l (unfold shown in refl)
