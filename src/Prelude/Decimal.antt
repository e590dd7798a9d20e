-- ===== src/Prelude/Decimal.antt =====
-- `%d` of package fmt and `Atoi` of package strconv, for Go's 64-bit `int`.
pub mod RoundTrip
use aerospike_operator.Prelude.{
  ℕ, zero, suc, ◌+◌, ◌-◌, ◌*◌, ◌/◌, ◌%◌, ◌^◌, Bool, ◌&&◌, Option, none, some, [], ◌∷◌, Text, ltb,
  leb, ◌≤◌, ◌==◌, if◌then◌else◌, ℤ, pos, negsuc, pos_part, neg_part,
}

-- The digits of `n` in front of `out`. Each round divides by ten, so `n` rounds are enough.
emit : ℕ → ℕ → Text → Text
emit zero n out = out
emit (suc fuel) n out =
    let rest = emit fuel (n / 10) ((b'0' + n % 10) ∷ out) in if n == 0 then out else rest

pub print_ℕ : ℕ → Text
print_ℕ n = if n == 0 then b'0' ∷ [] else emit n n []

unfoldable pub print_ℤ : ℤ → Text
unfolding print_ℕ emit
print_ℤ (pos n) = print_ℕ n
print_ℤ (negsuc n) = b'-' ∷ print_ℕ (suc n)

abbrev pub is_digit : ℕ → Bool
is_digit c = leb b'0' c && leb c b'9'

scan : Text → ℕ → Option ℕ
scan [] n = some n
scan (c ∷ s) n = let rest = scan s (n * 10 + (c - b'0')) in if is_digit c then rest else none

pub parse_ℕ : Text → Option ℕ
parse_ℕ [] = none
parse_ℕ (c ∷ s) = scan (c ∷ s) 0

-- -n, as an integer.
abbrev pub neg_of : ℕ → ℤ
neg_of zero = pos 0
neg_of (suc n) = negsuc n

-- The values of a 64-bit `int`.
abbrev pub InInt : ℤ → Type 0
InInt i = (suc (pos_part i) ≤ 2 ^ 63) × (neg_part i ≤ 2 ^ 63)

non_neg : Option ℕ → Option ℤ
non_neg none = none
non_neg (some n) = if ltb n (2 ^ 63) then some (pos n) else none

non_pos : Option ℕ → Option ℤ
non_pos none = none
non_pos (some n) = if leb n (2 ^ 63) then some (neg_of n) else none

-- A sign, at most one, then one or more digits; a value out of range is an error.
unfoldable pub atoi : Text → Option ℤ
unfolding parse_ℕ scan non_neg non_pos
atoi [] = none
atoi (c ∷ s) =
    if c == b'-'
    then non_pos (parse_ℕ s)
    else if c == b'+'
    then non_neg (parse_ℕ s)
    else non_neg (parse_ℕ (c ∷ s))
