-- ===== src/Examples/Versions.antt =====
-- pkg/versioning on concrete versions; the first runs are those of version_test.go.
use aerospike_operator.Prelude.{
  ◌+◌, ◌≤◌, ◌≡◌, refl, true, false, codes, arith, ok, err, ◌↔◌, pos, negsuc, ◌||◌,
}
use aerospike_operator.Versioning.Version.{
  Version, invalid_scheme, not_an_integer, new_version_from_string, version_string, is_supported,
  running,
}
use aerospike_operator.Versioning.Upgrade.{
  VersionUpgrade, is_downgrade, is_major_upgrade, is_minor_upgrade, is_patch_upgrade,
  is_revision_upgrade, is_valid, get_strategy, default_strategy, to_42xy_strategy,
}
use aerospike_operator.Versioning.RoundTrip.{
  new_version_from_string-version_string, version_string-injective,
}
use aerospike_operator.Versioning.Supported.{version, IsListed, is_supported_iff}
use aerospike_operator.Versioning.Order.{Before, is_valid_iff}
use aerospike_operator.Versioning.Strategy.{
  one_if, kinds_exclusive, is_downgrade-ignores_revision, get_strategy_path,
}

two_parts : new_version_from_string (codes "4.0") ≡ err invalid_scheme
unfolding running
two_parts = refl

five_parts : new_version_from_string (codes "1.2.3.4.5") ≡ err invalid_scheme
unfolding running
five_parts = refl

three_parts : new_version_from_string (codes "4.1.0") ≡ ok (version 4 1 0 0)
unfolding running
three_parts = refl

four_parts : new_version_from_string (codes "4.1.0.1") ≡ ok (version 4 1 0 1)
unfolding running
four_parts = refl

no_number : new_version_from_string (codes "4.x.0.1") ≡ err not_an_integer
unfolding running
no_number = refl

-- The three-part text of a version is not the text that is looked up.
padded : is_supported (version 4 2 0 10) ≡ true
unfolding running
padded = refl

abbrev odd_version : Version
odd_version = record { major = pos 12; minor = negsuc 6; patch = pos 0; revision = pos 345 }

prints : version_string odd_version ≡ codes "12.-7.0.345"
unfolding running
prints = refl

round_trip_example : new_version_from_string (version_string odd_version) ≡ ok odd_version
round_trip_example = new_version_from_string-version_string odd_version (omega arith)

version_string-injective_example : odd_version ≡ odd_version
version_string-injective_example =
    version_string-injective odd_version odd_version (omega arith) (omega arith) refl

parsed : new_version_from_string (codes "4.2.0.3") ≡ ok (version 4 2 0 3)
unfolding running
parsed = refl

is_supported_example : (is_supported (version 4 2 0 4) ≡ true) ↔ IsListed (version 4 2 0 4)
is_supported_example = is_supported_iff (version 4 2 0 4) (omega arith)

abbrev step_up : VersionUpgrade
step_up = record { source = version 4 1 0 6; target = version 4 2 0 3 }

is_valid_example : (is_valid step_up ≡ true) ↔ (
    IsListed (version 4 1 0 6)
    × IsListed (version 4 2 0 3)
    × Before (version 4 1 0 6) (version 4 2 0 3))
is_valid_example = is_valid_iff step_up (omega arith) (omega arith)

kinds_example :
    one_if (is_downgrade step_up)
      + one_if (is_major_upgrade step_up)
      + one_if (is_minor_upgrade step_up)
      + one_if (is_patch_upgrade step_up)
      + one_if (is_revision_upgrade step_up)
    ≤ 1
kinds_example = kinds_exclusive step_up

-- From 4.3.0.10 back to 4.3.0.2 is no downgrade.
revision_example :
    is_downgrade (record { source = version 4 3 0 10; target = version 4 3 0 2 })
    ≡ is_downgrade (record { source = version 4 3 0 0; target = version 4 3 0 0 })
revision_example =
    is_downgrade-ignores_revision (record { source = version 4 3 0 0; target = version 4 3 0 0 })
      (pos 10) (pos 2)

first_leg :
    get_strategy (record { source = version 4 0 0 4; target = version 4 1 0 6 })
    ≡ ok default_strategy
unfolding get_strategy is_valid running
first_leg = refl

second_leg :
    get_strategy (record { source = version 4 1 0 6; target = version 4 3 0 2 })
    ≡ ok to_42xy_strategy
unfolding get_strategy is_valid running
second_leg = refl

get_strategy_path_example :
    get_strategy (record { source = version 4 0 0 4; target = version 4 3 0 2 })
    ≡ ok (record { recreate_persistent_volume_claims = false || true })
get_strategy_path_example =
    get_strategy_path (version 4 0 0 4) (version 4 1 0 6) (version 4 3 0 2) default_strategy
      to_42xy_strategy (omega arith) (omega arith) (omega arith) first_leg second_leg
