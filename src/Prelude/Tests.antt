-- ===== src/Prelude/Tests.antt =====
-- Boolean tests on the native numbers, and the conditional.
use Prim.Native.Nat.{ℕ, compare, Ordering}
use mathlib.Core.Path.{◌≡◌, refl}
use mathlib.Core.Logic.{◌↔◌, ◌⊎◌, inl, inr}
use mathlib.Core.Bool.{Bool, true, false}
use mathlib.Core.Option.{Option, none, some}
use native.Mathlib.Omega.{arith}

abbrev pub ltb : ℕ → ℕ → Bool
ltb a b = elim (compare a b) [ Ordering.lt ↦ true | _ ↦ false ]

abbrev pub leb : ℕ → ℕ → Bool
leb a b = elim (compare a b) [ Ordering.gt ↦ false | _ ↦ true ]

infix 50 ◌==◌
abbrev pub ◌==◌ : ℕ → ℕ → Bool
a == b = elim (compare a b) [ Ordering.eq ↦ true | _ ↦ false ]

infix 1 if◌then◌else◌
abbrev pub if◌then◌else◌ {ℓ} : {A : Type ℓ} → Bool → A → A → A
if true then x else y = x
if false then x else y = y

pub Bool-cases : (b : Bool) → (b ≡ true) ⊎ (b ≡ false)
Bool-cases true = inl refl
Bool-cases false = inr refl

pub Option-cases {ℓ} : {A : Type ℓ} (o : Option A) → (o ≡ none) ⊎ ((a : A) × (o ≡ some a))
Option-cases none = inl refl
Option-cases (some a) = inr (a, refl)

pub ==_iff : (a b : ℕ) → ((a == b) ≡ true) ↔ (a ≡ b)
==_iff a b = ground arith

-- `reflect.DeepEqual` on a type whose equality is decided.
abbrev pub deep_equal {ℓ} : {A : Type ℓ} → Discrete A → A → A → Bool
deep_equal d a b = elim (d a b) [ yes _ ↦ true | no _ ↦ false ]

pub deep_equal_iff {ℓ} :
    {A : Type ℓ} (d : Discrete A) (a b : A) → (deep_equal d a b ≡ true) ↔ (a ≡ b)
deep_equal_iff {A} d a b = go (d a b)
  where
    go :
        (r : Dec (a ≡ b)) → (◌≡◌ {A = Bool} (elim r [ yes _ ↦ true | no _ ↦ false ]) true) ↔ (a ≡ b)
    go (yes p) = ((λ _. p), (λ _. refl))
    go (no n) = ((λ h. absurd (absurd_of h)), (λ p. absurd (n p)))
      where
        absurd_of : ◌≡◌ {A = Bool} false true → ⊥
        absurd_of h = ground arith

pub some-injective {ℓ} : {A : Type ℓ} {a b : A} → ◌≡◌ {A = Option A} (some a) (some b) → a ≡ b
some-injective e = cc
