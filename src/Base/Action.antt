-- ===== src/Base/Action.antt =====
-- Code that works on a state of its surroundings and may raise; what it did before it raised stays.
use mathlib.Core.Path.{◌≡◌, refl}
use mathlib.Core.Option.{Option, none, some}
use ha_wago.Base.Outcome.{Outcome, ok, raise, Outcome-cases}
use mathlib.Core.Logic.{◌⊎◌, inl, inr}
use native.Mathlib.Omega.{arith}

abbrev pub Action : Type 0 → Type 0 → Type 0 → Type 0
Action E S A = S → Outcome E A × S

module _ {E S : Type 0} where
  -- A call that cannot fail.
  abbrev pub call : (S → S) → Action E S Unit
  call f s = (ok tt, f s)

  abbrev pub return : {A : Type 0} → A → Action E S A
  return a s = (ok a, s)

  -- A value that may be missing, with the exception that Python raises then.
  abbrev pub present : {A : Type 0} → E → Option A → Action E S A
  present e (some a) s = (ok a, s)
  present e none s = (raise e, s)

  -- `except F as err: raise ...`
  abbrev pub renamed : {F A : Type 0} → (F → E) → Action F S A → Action E S A
  renamed f m s = (elim (m s).0 [ ok a ↦ ok a | raise e ↦ raise (f e) ], (m s).1)

  abbrev follow : {A B : Type 0} → Outcome E A → (A → Action E S B) → S → Outcome E B × S
  follow (ok a) f s = f a s
  follow (raise e) f s = (raise e, s)

  infixl 5 ◌>>=◌ ◌>>◌
  unfoldable pub ◌>>=◌ : {A B : Type 0} → Action E S A → (A → Action E S B) → Action E S B
  ◌>>=◌ m f s = follow (m s).0 f (m s).1

  abbrev pub ◌>>◌ : {A B : Type 0} → Action E S A → Action E S B → Action E S B
  m >> k = m >>= λ _. k

  pub >>=-ok :
      {A B : Type 0} (m : Action E S A) (f : A → Action E S B) (s : S) (y : B)
      → ((m >>= f) s).0 ≡ ok y
      → (x : A) × ((m s).0 ≡ ok x) × ((f x (m s).1).0 ≡ ok y)
  unfolding ◌>>=◌
  >>=-ok m f s y h = elim (Outcome-cases (m s).0) [
    | inl (x, e) ↦ (x, e, ground arith)
    | inr (e, d) ↦ absurd (ground arith)
  ]

  -- A chain ends where its first call raises, or goes on from where it returned.
  pub >>=-cases :
      {A B : Type 0} (m : Action E S A) (f : A → Action E S B) (s : S)
      → ((e : E) × ((m s).0 ≡ raise e) × ((m >>= f) s ≡ (raise e, (m s).1)))
        ⊎ ((x : A) × ((m s).0 ≡ ok x) × ((m >>= f) s ≡ f x (m s).1))
  unfolding ◌>>=◌
  >>=-cases m f s = elim (Outcome-cases (m s).0) [
    | inl (x, e) ↦ inr (x, e, rw e refl)
    | inr (d, e) ↦ inl (d, e, rw e refl)
  ]
