-- ===== src/Prelude/Results.antt =====
-- Go's `(value, error)` results: a value, or the error that was returned.
use mathlib.Core.Path.{◌≡◌, refl}
use mathlib.Core.Logic.{◌⊎◌, inl, inr}
use mathlib.Core.Bool.{Bool, true, false}

pub data Result {ℓ κ} (E : Type ℓ) (A : Type κ) : Type (ℓ ⊔ κ) where
  ok : A → Result E A
  err : E → Result E A

module _ {ℓ} {E : Type ℓ} where
  infixl 5 ◌>>=◌ ◌>>◌
  abbrev pub ◌>>=◌ {κ μ} : {A : Type κ} {B : Type μ} → Result E A → (A → Result E B) → Result E B
  err failure >>= next = err failure
  ok value >>= next = next value

  abbrev pub ◌>>◌ {κ} : {B : Type κ} → Result E (Unit {0}) → Result E B → Result E B
  first >> second = first >>= λ _. second

  -- `if b { return e }`
  abbrev pub fail_if : Bool → E → Result E (Unit {0})
  fail_if true e = err e
  fail_if false e = ok tt

  -- Of two steps that returned, what the first one returned to the second.
  pub >>=-eq-ok {κ μ} :
      {A : Type κ} {B : Type μ} (first : Result E A) (next : A → Result E B) {out : B}
      → (first >>= next) ≡ ok out
      → (value : A) × (first ≡ ok value) × (next value ≡ ok out)
  >>=-eq-ok (err failure) next returned = absurd (cc)
  >>=-eq-ok (ok value) next returned = (value, refl, returned)

  -- A check that passed, and what follows it.
  pub fail_if-eq-ok {κ} :
      {B : Type κ} (b : Bool) (e : E) (m : Result E B) {x : B}
      → (fail_if b e >> m) ≡ ok x
      → (b ≡ false) × (m ≡ ok x)
  fail_if-eq-ok false e m h = (refl, h)
  fail_if-eq-ok true e m h = absurd (cc)

  pub fail_if-passed : (b : Bool) (e : E) → fail_if b e ≡ ok tt → b ≡ false
  fail_if-passed false e h = refl
  fail_if-passed true e h = absurd (cc)

pub ok-injective {ℓ κ} :
    {E : Type ℓ} {A : Type κ} {a b : A} → ◌≡◌ {A = Result E A} (ok a) (ok b) → a ≡ b
ok-injective e = cc

pub Result-cases {ℓ κ} :
    {E : Type ℓ} {A : Type κ} (r : Result E A) → ((a : A) × (r ≡ ok a)) ⊎ ((e : E) × (r ≡ err e))
Result-cases (ok a) = inl (a, refl)
Result-cases (err e) = inr (e, refl)
