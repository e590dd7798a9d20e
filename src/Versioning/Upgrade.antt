-- ===== src/Versioning/Upgrade.antt =====
-- pkg/versioning/upgrade.go and strategy.go: which upgrades are allowed, and how they are done.
use aerospike_operator.Prelude.{
  Bool, true, false, not, ◌&&◌, ◌||◌, ltb_ℤ, eqb_ℤ, pos, Result, ok, err, if◌then◌else◌,
}
use aerospike_operator.Versioning.Version.{Version, is_supported}

pub record VersionUpgrade : Type 0 where
  pub source : Version
  pub target : Version

-- The last disjunct compares the target's revision with itself, as the source does.
unfoldable pub is_downgrade : VersionUpgrade → Bool
is_downgrade vu =
    ltb_ℤ vu.target.major vu.source.major
    || ltb_ℤ vu.target.minor vu.source.minor
    || ltb_ℤ vu.target.patch vu.source.patch
    || ltb_ℤ vu.target.revision vu.target.revision

unfoldable pub is_major_upgrade : VersionUpgrade → Bool
unfolding is_downgrade
is_major_upgrade vu = not (is_downgrade vu) && ltb_ℤ vu.source.major vu.target.major

unfoldable pub is_minor_upgrade : VersionUpgrade → Bool
unfolding is_downgrade is_major_upgrade
is_minor_upgrade vu =
    not (is_downgrade vu) && not (is_major_upgrade vu) && ltb_ℤ vu.source.minor vu.target.minor

unfoldable pub is_patch_upgrade : VersionUpgrade → Bool
unfolding is_downgrade is_major_upgrade is_minor_upgrade
is_patch_upgrade vu =
    not (is_downgrade vu)
    && not (is_major_upgrade vu)
    && not (is_minor_upgrade vu)
    && ltb_ℤ vu.source.patch vu.target.patch

unfoldable pub is_revision_upgrade : VersionUpgrade → Bool
unfolding is_downgrade is_major_upgrade is_minor_upgrade is_patch_upgrade
is_revision_upgrade vu =
    not (is_downgrade vu)
    && not (is_major_upgrade vu)
    && not (is_minor_upgrade vu)
    && not (is_patch_upgrade vu)
    && ltb_ℤ vu.source.revision vu.target.revision

unfoldable pub is_valid : VersionUpgrade → Bool
unfolding is_minor_upgrade is_patch_upgrade is_revision_upgrade
is_valid vu =
    is_supported vu.source
    && is_supported vu.target
    && (is_minor_upgrade vu || is_patch_upgrade vu || is_revision_upgrade vu)

pub record UpgradeStrategy : Type 0 where
  pub recreate_persistent_volume_claims : Bool

abbrev pub default_strategy : UpgradeStrategy
default_strategy = record { recreate_persistent_volume_claims = false }

abbrev pub to_42xy_strategy : UpgradeStrategy
to_42xy_strategy = record { recreate_persistent_volume_claims = true }

pub data UpgradeError : Type 0 where
  cannot_upgrade : Version → Version → UpgradeError

unfoldable pub get_strategy : VersionUpgrade → Result UpgradeError UpgradeStrategy
get_strategy vu =
    if not (is_valid vu)
    then err (cannot_upgrade vu.source vu.target)
    else if eqb_ℤ vu.target.major (pos 4)
        && not (ltb_ℤ (pos 1) vu.source.minor)
        && not (ltb_ℤ vu.target.minor (pos 2))
    then ok to_42xy_strategy
    else ok default_strategy
