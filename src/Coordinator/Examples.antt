-- ===== src/Coordinator/Examples.antt =====
-- A poller after one read and three failures.
use ha_wago.Base.{ℕ, suc, ◌≤◌, ◌<◌, ◌≡◌, refl, Option, none, some, List, [], ◌∷◌}
use ha_wago.Base.Text.{Text, codes}
use ha_wago.Base.Outcome.{Outcome, ok, raise}
use ha_wago.Coordinator.{ReadError, cycle_timeout, Failure, failure}
use ha_wago.Coordinator.Tolerance.{
  BaseClass, last_values, failures_in_a_row, refresh, after, refresh-after,
}

stored : Option ℕ → Outcome Failure ℕ → Option ℕ
stored old (ok d) = some d
stored old (raise f) = old

abbrev base : BaseClass ℕ
unfolding stored
base = record { store = stored; store_ok = λ old d. refl; store_raise = λ old f. refl }

abbrev same_text : Text → Text → Text
same_text message host = message

abbrev history : List (Outcome ReadError ℕ)
history = raise cycle_timeout ∷ raise cycle_timeout ∷ raise cycle_timeout ∷ ok 230 ∷ []

abbrev answer : Outcome ReadError ℕ → Outcome Failure ℕ
answer read =
    (refresh base same_text (codes "energy") (codes "meter")
      (after base same_text (codes "energy") (codes "meter") history) read).0

refresh_after_example :
    ((d : ℕ) → answer (ok d) ≡ ok d)
    × ((e : ReadError) (d : ℕ)
        → last_values history ≡ some d
        → suc (failures_in_a_row history) ≤ 3
        → answer (raise e) ≡ ok d)
    × ((e : ReadError)
        → 3 < suc (failures_in_a_row history)
        → answer (raise e) ≡ raise (failure same_text (codes "meter") (codes "energy") e))
    × ((e : ReadError)
        → last_values history ≡ none
        → answer (raise e) ≡ raise (failure same_text (codes "meter") (codes "energy") e))
refresh_after_example = refresh-after base same_text (codes "energy") (codes "meter") history
