-- ===== src/Base/Outcome.antt =====
-- Results of code that may raise, with the exceptions of type `E`.
use mathlib.Core.Path.{◌≡◌, refl}
use mathlib.Core.Logic.{◌↔◌, ◌⊎◌, inl, inr}
use mathlib.Core.Bool.{Bool, true, false}

pub data Outcome {ℓ κ} (E : Type ℓ) (A : Type κ) : Type (ℓ ⊔ κ) where
  ok : A → Outcome E A
  raise : E → Outcome E A

infixl 5 ◌>>=◌ ◌>>◌
abbrev pub ◌>>=◌ {ℓ κ μ} :
    {E : Type ℓ} {A : Type κ} {B : Type μ} → Outcome E A → (A → Outcome E B) → Outcome E B
ok a >>= f = f a
raise e >>= f = raise e

abbrev pub ◌>>◌ {ℓ μ} : {E : Type ℓ} {B : Type μ} → Outcome E (Unit {0}) → Outcome E B → Outcome E B
m >> k = m >>= λ _. k

-- `if not test: raise e`
abbrev pub guard {ℓ} : {E : Type ℓ} → Bool → E → Outcome E (Unit {0})
guard true e = ok tt
guard false e = raise e

pub Outcome-cases {ℓ κ} :
    {E : Type ℓ} {A : Type κ} (r : Outcome E A) → ((x : A) × (r ≡ ok x)) ⊎ ((e : E) × (r ≡ raise e))
Outcome-cases (ok x) = inl (x, refl)
Outcome-cases (raise e) = inr (e, refl)

-- What a chain that returned says of its parts.
pub guard-eq-ok {ℓ} :
    {E : Type ℓ} (test : Bool) (e : E) {done : Unit {0}} → guard test e ≡ ok done → test ≡ true
guard-eq-ok true _ _ = refl
guard-eq-ok false _ returned = cc

pub >>=-eq-ok {ℓ κ μ} :
    {E : Type ℓ} {A : Type κ} {B : Type μ} (first : Outcome E A) (rest : A → Outcome E B) {y : B}
    → (first >>= rest) ≡ ok y
    → (x : A) × (first ≡ ok x) × (rest x ≡ ok y)
>>=-eq-ok (ok x) rest returned = (x, refl, returned)
>>=-eq-ok (raise e) rest returned = cc

pub >>_iff {ℓ} :
    {E : Type ℓ} (m k : Outcome E (Unit {0})) → ((m >> k) ≡ ok tt) ↔ ((m ≡ ok tt) × (k ≡ ok tt))
>>_iff (ok u) k = ((λ h. (refl, h)), (λ h. h.1))
>>_iff (raise e) k = ((λ h. cc), (λ h. cc))

pub guard_iff {ℓ} : {E : Type ℓ} (b : Bool) (e : E) → (guard b e ≡ ok tt) ↔ (b ≡ true)
guard_iff true e = ((λ h. refl), (λ h. refl))
guard_iff false e = ((λ h. cc), (λ h. cc))
