-- ===== src/Prelude/Decimal/RoundTrip.antt =====
-- A decimal print reads back as the integer that was printed, and consists of digits.
use aerospike_operator.Prelude.{
  ℕ, zero, suc, ◌+◌, ◌/◌, ◌%◌, ◌≤◌, ◌<◌, ◌≡◌, refl, ◌≢◌, some, [], ◌∷◌, Text, All, Lacks, arith,
  ◌==◌, inl, inr, ℤ, pos, negsuc, Bool-cases,
}
use aerospike_operator.Prelude.Decimal.{
  emit, print_ℕ, print_ℤ, scan, parse_ℕ, non_neg, non_pos, InInt, atoi,
}

-- Reading the last digit of `n` after the digits before it gives `n`.
scan_last : (n : ℕ) (out : Text) → scan ((b'0' + n % 10) ∷ out) (n / 10) ≡ scan out n
unfolding scan
scan_last n out = ground arith

scan-emit : (fuel n : ℕ) (out : Text) → n ≤ fuel → scan (emit fuel n out) 0 ≡ scan out n
unfolding emit
scan-emit zero zero rest fits = refl
scan-emit zero (suc n) rest fits = elim fits [ ]
scan-emit (suc fuel) n rest fits =
    ground (arith, scan-emit fuel (n / 10) ((b'0' + n % 10) ∷ rest), scan_last n rest)

abbrev pub IsDigit : ℕ → Type 0
IsDigit c = (b'0' ≤ c) × (c ≤ b'9')

emit-IsDigit : (fuel n : ℕ) (out : Text) → All IsDigit out → All IsDigit (emit fuel n out)
unfolding emit
emit-IsDigit zero n out h = h
emit-IsDigit (suc fuel) n out h = elim (Bool-cases (n == 0)) [
  | inl e ↦ ground arith
  | inr e ↦
      let more : All IsDigit ((b'0' + n % 10) ∷ out) = (omega arith, h) in
      ground (arith, emit-IsDigit fuel (n / 10) ((b'0' + n % 10) ∷ out) more)
]

pub print_ℕ-IsDigit : (n : ℕ) → All IsDigit (print_ℕ n)
unfolding print_ℕ
print_ℕ-IsDigit n = ground (arith, emit-IsDigit n n [] tt)

emit-ne-nil : (fuel n : ℕ) (out : Text) → out ≢ [] → emit fuel n out ≢ []
unfolding emit
emit-ne-nil zero n out h = h
emit-ne-nil (suc fuel) n out h = ground (arith, emit-ne-nil fuel (n / 10) ((b'0' + n % 10) ∷ out))

print_ℕ-ne-nil : (n : ℕ) → print_ℕ n ≢ []
unfolding print_ℕ emit
print_ℕ-ne-nil zero = ground arith
print_ℕ-ne-nil (suc n) = ground (arith, emit-ne-nil n (suc n / 10) ((b'0' + suc n % 10) ∷ []))

parse_ℕ-scan : (s : Text) → s ≢ [] → parse_ℕ s ≡ scan s 0
unfolding parse_ℕ
parse_ℕ-scan [] h = absurd (h refl)
parse_ℕ-scan (c ∷ s) h = refl

pub parse_ℕ-print_ℕ : (n : ℕ) → parse_ℕ (print_ℕ n) ≡ some n
unfolding print_ℕ scan
parse_ℕ-print_ℕ n = ground (arith, parse_ℕ-scan (print_ℕ n) (print_ℕ-ne-nil n), scan-emit n n [])

atoi-digits : (s : Text) → All IsDigit s → atoi s ≡ non_neg (parse_ℕ s)
unfolding atoi
atoi-digits [] h = refl
atoi-digits (c ∷ s) (h, hs) = ground arith

print_ℤ-pos : (n : ℕ) → print_ℤ (pos n) ≡ print_ℕ n
unfolding print_ℤ
print_ℤ-pos n = refl

print_ℤ-negsuc : (n : ℕ) → print_ℤ (negsuc n) ≡ b'-' ∷ print_ℕ (suc n)
unfolding print_ℤ
print_ℤ-negsuc n = refl

atoi-minus : (s : Text) → atoi (b'-' ∷ s) ≡ non_pos (parse_ℕ s)
unfolding atoi
atoi-minus s = refl

-- Every value of an `int` is read back from its decimal print.
pub atoi-print_ℤ : (i : ℤ) → InInt i → atoi (print_ℤ i) ≡ some i
unfolding non_neg non_pos
atoi-print_ℤ (pos n) h =
    rw (print_ℤ-pos n, atoi-digits (print_ℕ n) (print_ℕ-IsDigit n), parse_ℕ-print_ℕ n)
      (ground arith)
atoi-print_ℤ (negsuc n) h =
    rw (print_ℤ-negsuc n, atoi-minus (print_ℕ (suc n)), parse_ℕ-print_ℕ (suc n)) (ground arith)

IsDigit-Lacks : (b : ℕ) (s : Text) → b < b'0' → All IsDigit s → Lacks b s
IsDigit-Lacks b [] h hs = tt
IsDigit-Lacks b (c ∷ s) h (hc, hs) = (omega arith, IsDigit-Lacks b s h hs)

-- A printed integer holds no byte below the digits, but for the sign.
pub print_ℤ-Lacks : (b : ℕ) (i : ℤ) → b < b'0' → b ≢ b'-' → Lacks b (print_ℤ i)
unfolding print_ℤ
print_ℤ-Lacks b (pos n) h s = IsDigit-Lacks b (print_ℕ n) h (print_ℕ-IsDigit n)
print_ℤ-Lacks b (negsuc n) h s =
    (omega arith, IsDigit-Lacks b (print_ℕ (suc n)) h (print_ℕ-IsDigit (suc n)))

-- What `Atoi` accepts is in the range of an `int`.
pub atoi-InInt : (s : Text) (i : ℤ) → atoi s ≡ some i → InInt i
unfolding atoi
atoi-InInt [] i h = absurd (cc)
atoi-InInt (c ∷ s) i h = ground arith
