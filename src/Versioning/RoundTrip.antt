-- ===== src/Versioning/RoundTrip.antt =====
-- A version is read back from its print, so the print tells versions apart.
use aerospike_operator.Prelude.{
  Result, Result-cases, err, inl, inr, subst, ◌>>=◌, List, ◌≡◌, ap, sym, ◌∙◌, [], ◌∷◌, Text, Lacks,
  split, split-sep, split-Lacks, arith, ok, ok-injective, ℤ, pos,
}
use aerospike_operator.Prelude.Decimal.{print_ℤ, InInt}
use aerospike_operator.Prelude.Decimal.RoundTrip.{atoi-print_ℤ, atoi-InInt, print_ℤ-Lacks}
use aerospike_operator.Versioning.Version.{
  VersionError, Version, IsVersion, parse_part, parse_parts, new_version_from_string,
  version_string,
}

no_dot : (i : ℤ) → Lacks b'.' (print_ℤ i)
no_dot i = print_ℤ-Lacks b'.' i (omega arith) (omega arith)

parse_part-print_ℤ : (i : ℤ) → InInt i → parse_part (print_ℤ i) ≡ ok i
unfolding parse_part
parse_part-print_ℤ i h = rw (atoi-print_ℤ i h, parse_part)

split-version_string :
    (v : Version)
    → split b'.' (version_string v)
      ≡ print_ℤ v.major ∷ print_ℤ v.minor ∷ print_ℤ v.patch ∷ print_ℤ v.revision ∷ []
unfolding version_string
split-version_string v = rw (
  split-sep b'.' (print_ℤ v.major) _ (no_dot v.major),
  split-sep b'.' (print_ℤ v.minor) _ (no_dot v.minor),
  split-sep b'.' (print_ℤ v.patch) _ (no_dot v.patch),
  split-Lacks b'.' (print_ℤ v.revision) (no_dot v.revision),
)

-- Parsing the print of a version, all of whose fields are 64-bit integers, gives the version.
pub new_version_from_string-version_string :
    (v : Version) → IsVersion v → new_version_from_string (version_string v) ≡ ok v
unfolding new_version_from_string parse_parts
new_version_from_string-version_string v h = rw (
  split-version_string v,
  parse_part-print_ℤ v.major h.major_int,
  parse_part-print_ℤ v.minor h.minor_int,
  parse_part-print_ℤ v.patch h.patch_int,
  parse_part-print_ℤ v.revision h.revision_int,
)

-- Two versions in range with one print are one version.
pub version_string-injective :
    (v w : Version) → IsVersion v → IsVersion w → version_string v ≡ version_string w → v ≡ w
version_string-injective v w hv hw e = ok-injective (
    sym (new_version_from_string-version_string v hv)
    ∙ ap new_version_from_string e
    ∙ new_version_from_string-version_string w hw)

parse_part-InInt : (s : Text) (i : ℤ) → parse_part s ≡ ok i → InInt i
unfolding parse_part
parse_part-InInt s i h = ground (arith, atoi-InInt s i)

abbrev InRange : Result VersionError ℤ → Type 0
InRange (ok i) = InInt i
InRange (err e) = Unit

parse_part-InRange : (s : Text) → InRange (parse_part s)
parse_part-InRange s = elim (Result-cases (parse_part s)) [
  | inl (i, e) ↦ rw e (parse_part-InInt s i e)
  | inr (x, e) ↦ rw e tt
]

fields-IsVersion :
    (a b c d : Result VersionError ℤ) (v : Version)
    → InRange a
    → InRange b
    → InRange c
    → InRange d
    → (do
      major ← a
      minor ← b
      patch ← c
      revision ← d
      ok (record { major = major; minor = minor; patch = patch; revision = revision }))
      ≡ ok v
    → IsVersion v
fields-IsVersion (ok a) (ok b) (ok c) (ok d) v ha hb hc hd e =
    subst IsVersion (ok-injective e)
      (record { major_int = ha; minor_int = hb; patch_int = hc; revision_int = hd })
fields-IsVersion (err x) b c d v ha hb hc hd e = absurd (cc)
fields-IsVersion (ok a) (err x) c d v ha hb hc hd e = absurd (cc)
fields-IsVersion (ok a) (ok b) (err x) d v ha hb hc hd e = absurd (cc)
fields-IsVersion (ok a) (ok b) (ok c) (err x) v ha hb hc hd e = absurd (cc)

parse_parts-IsVersion : (parts : List Text) (v : Version) → parse_parts parts ≡ ok v → IsVersion v
unfolding parse_parts
parse_parts-IsVersion (a ∷ b ∷ c ∷ []) v h =
    fields-IsVersion (parse_part a) (parse_part b) (parse_part c) (ok (pos 0)) v
      (parse_part-InRange a) (parse_part-InRange b) (parse_part-InRange c) (omega arith) h
parse_parts-IsVersion (a ∷ b ∷ c ∷ d ∷ []) v h =
    fields-IsVersion (parse_part a) (parse_part b) (parse_part c) (parse_part d) v
      (parse_part-InRange a) (parse_part-InRange b) (parse_part-InRange c) (parse_part-InRange d) h
parse_parts-IsVersion (a ∷ b ∷ c ∷ d ∷ e ∷ r) v h = absurd (cc)
parse_parts-IsVersion (a ∷ b ∷ []) v h = absurd (cc)
parse_parts-IsVersion (a ∷ []) v h = absurd (cc)
parse_parts-IsVersion [] v h = absurd (cc)

-- What is parsed has its fields in the range of a 64-bit integer.
pub new_version_from_string-IsVersion :
    (s : Text) (v : Version) → new_version_from_string s ≡ ok v → IsVersion v
unfolding new_version_from_string
new_version_from_string-IsVersion s v h = parse_parts-IsVersion (split b'.' s) v h
