-- ===== src/Prelude/Strings.antt =====
-- Text as the list of its bytes: Go's `string`, and what the code takes from package strings.
use Prim.Native.Nat.{ℕ}
use Prim.Native.Char.{code}
use Prim.Native.String.{String}
use mathlib.Core.Path.{◌≡◌, refl}
use mathlib.Core.Logic.{◌≢◌, ◌↔◌}
use mathlib.Core.Bool.{Bool, true, false, ◌&&◌}
use mathlib.Core.List.{List, [], ◌∷◌, ◌++◌}
use native.Mathlib.Omega.{arith}
use native.Mathlib.Decide.{ℕ_discrete}
use aerospike_operator.Prelude.Tests.{◌==◌, if◌then◌else◌}
use aerospike_operator.Prelude.Lists.{All}

abbrev pub Text : Type 0
Text = List ℕ

-- The code points of a literal; these are its bytes, since the literals are ASCII.
abbrev pub codes : String → Text
codes String.[] = []
codes (String.◌∷◌ c s) = code c ∷ codes s

unfoldable pub text_eq : Text → Text → Bool
text_eq [] [] = true
text_eq (x ∷ xs) (y ∷ ys) = (x == y) && text_eq xs ys
text_eq _ _ = false

pub text_eq→≡ : (s t : Text) → text_eq s t ≡ true → s ≡ t
unfolding text_eq
text_eq→≡ [] [] h = refl
text_eq→≡ (x ∷ xs) (y ∷ ys) h = ground (arith, text_eq→≡ xs ys)
text_eq→≡ [] (y ∷ ys) h = absurd (cc)
text_eq→≡ (x ∷ xs) [] h = absurd (cc)

pub text_eq_refl : (s : Text) → text_eq s s ≡ true
unfolding text_eq
text_eq_refl [] = refl
text_eq_refl (x ∷ xs) = ground (arith, text_eq_refl xs)

pub text_eq_iff : (s t : Text) → (text_eq s t ≡ true) ↔ (s ≡ t)
text_eq_iff s t = (text_eq→≡ s t, λ e. rw e (text_eq_refl t))

unfoldable pub Text-discrete : Discrete Text
unfolding ℕ_discrete
Text-discrete = hlevel ℕ_discrete

abbrev pub Lacks : ℕ → Text → Type 0
Lacks b = All (λ c. c ≢ b)

-- `strings.Split(s, sep)` for a separator of one byte.
cons_head : ℕ → List Text → List Text
cons_head c [] = (c ∷ []) ∷ []
cons_head c (part ∷ parts) = (c ∷ part) ∷ parts

unfoldable pub split : ℕ → Text → List Text
unfolding cons_head
split sep [] = [] ∷ []
split sep (c ∷ s) = if c == sep then [] ∷ split sep s else cons_head c (split sep s)

pub split-sep :
    (sep : ℕ) (x rest : Text) → Lacks sep x → split sep (x ++ sep ∷ rest) ≡ x ∷ split sep rest
unfolding split
split-sep sep [] rest h = ground arith
split-sep sep (c ∷ x) rest (h, hs) = ground (arith, split-sep sep x rest hs)

pub split-Lacks : (sep : ℕ) (x : Text) → Lacks sep x → split sep x ≡ x ∷ []
unfolding split
split-Lacks sep [] h = refl
split-Lacks sep (c ∷ x) (h, hs) = ground (arith, split-Lacks sep x hs)
