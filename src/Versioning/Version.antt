-- ===== src/Versioning/Version.antt =====
-- pkg/versioning/version.go and versions.go: the version scheme, its parser and printer, and the
-- list of supported versions. A Go `int` is an integer; `IsVersion` is the range of its 64 bits.
use aerospike_operator.Prelude.{
  Bool, false, ◌||◌, none, some, List, [], ◌∷◌, ◌++◌, Text, codes, text_eq, split, ℤ, pos, Result,
  ok, err, ◌>>=◌,
}
use aerospike_operator.Prelude.Decimal.{print_ℤ, atoi, InInt}

pub record Version : Type 0 where
  pub major : ℤ
  pub minor : ℤ
  pub patch : ℤ
  pub revision : ℤ

-- The range of the four `int` fields.
pub record IsVersion (v : Version) : Type 0 where
  pub major_int : InInt v.major
  pub minor_int : InInt v.minor
  pub patch_int : InInt v.patch
  pub revision_int : InInt v.revision

pub data VersionError : Type 0 where
  invalid_scheme not_an_integer : VersionError

unfoldable pub parse_part : Text → Result VersionError ℤ
parse_part s = elim (atoi s) [ none ↦ err not_an_integer | some d ↦ ok d ]

-- The loop over the parts: a fourth part that is not given stays 0.
unfoldable pub parse_parts : List Text → Result VersionError Version
parse_parts (a ∷ b ∷ c ∷ []) = do
  major ← parse_part a
  minor ← parse_part b
  patch ← parse_part c
  ok (record { major = major; minor = minor; patch = patch; revision = pos 0 })
parse_parts (a ∷ b ∷ c ∷ d ∷ []) = do
  major ← parse_part a
  minor ← parse_part b
  patch ← parse_part c
  revision ← parse_part d
  ok (record { major = major; minor = minor; patch = patch; revision = revision })
parse_parts _ = err invalid_scheme

unfoldable pub new_version_from_string : Text → Result VersionError Version
new_version_from_string s = parse_parts (split b'.' s)

unfoldable pub version_string : Version → Text
version_string v =
    print_ℤ v.major
    ++ b'.' ∷ (print_ℤ v.minor ++ b'.' ∷ (print_ℤ v.patch ++ b'.' ∷ print_ℤ v.revision))

unfoldable pub contains : List Text → Text → Bool
contains [] e = false
contains (a ∷ s) e = text_eq a e || contains s e

abbrev pub aerospike_server_supported_versions : List Text
aerospike_server_supported_versions =
    codes "4.0.0.4"
    ∷ codes "4.0.0.5"
    ∷ codes "4.0.0.6"
    ∷ codes "4.1.0.1"
    ∷ codes "4.1.0.6"
    ∷ codes "4.2.0.3"
    ∷ codes "4.2.0.4"
    ∷ codes "4.2.0.5"
    ∷ codes "4.2.0.10"
    ∷ codes "4.3.0.2"
    ∷ codes "4.3.0.4"
    ∷ codes "4.3.0.6"
    ∷ codes "4.3.0.7"
    ∷ codes "4.3.0.8"
    ∷ codes "4.3.0.10"
    ∷ []

unfoldable pub is_supported : Version → Bool
is_supported v = contains aerospike_server_supported_versions (version_string v)

-- Names what has to unfold for the operations above to run on concrete input.
unfoldable pub running : Unit {0}
unfolding atoi parse_part parse_parts split new_version_from_string print_ℤ version_string text_eq
    contains is_supported
running = tt
