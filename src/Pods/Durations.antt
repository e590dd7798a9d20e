-- ===== src/Pods/Durations.antt =====
-- pkg/utils/time: durations that may be written in days.
use aerospike_operator.Prelude.{
  ◌||◌, ℕ, Bool, false, none, some, [], ◌∷◌, Text, ◌==◌, Result, ok, err, ℤ, if◌then◌else◌,
}
use aerospike_operator.Pods.Platform.{Platform}
use aerospike_operator.Pods.Api.{PodError, parse_error, panic}

-- `strings.Contains(s, "d")`
unfoldable pub has_byte : ℕ → Text → Bool
has_byte b [] = false
has_byte b (c ∷ s) = c == b || has_byte b s

-- `strings.TrimSuffix(s, "d")`, for one byte.
unfoldable pub trim_last : ℕ → Text → Text
trim_last b [] = []
trim_last b (c ∷ []) = if c == b then [] else c ∷ []
trim_last b (c ∷ d ∷ s) = c ∷ trim_last b (d ∷ s)

-- `strings.Replace(s, "d", "h", 1)`, for single bytes.
unfoldable pub replace_first : ℕ → ℕ → Text → Text
replace_first old new [] = []
replace_first old new (c ∷ s) =
    let rest = replace_first old new s in if c == old then new ∷ s else c ∷ rest

module _ (p : Platform) where
  abbrev go_duration : Text → Result PodError ℤ
  go_duration s = elim (p.parse_go_duration s) [ ok d ↦ ok d | err e ↦ err (parse_error e) ]

  -- Where days are mixed with other units, the text of the error is read also if there is none.
  abbrev mixed_duration : Text → Result PodError ℤ
  mixed_duration s = elim (p.parse_go_duration (replace_first b'd' b'h' s)) [
    | ok d ↦ err panic
    | err e ↦ err (parse_error e)
  ]

  unfoldable pub parse_duration : Text → Result PodError ℤ
  parse_duration s =
      if has_byte b'd' s
      then elim (p.parse_float (trim_last b'd' s)) [
        | some v ↦ go_duration (p.print_hours_of_days v)
        | none ↦ mixed_duration s
      ]
      else go_duration s
