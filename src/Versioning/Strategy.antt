-- ===== src/Versioning/Strategy.antt =====
-- The kinds of upgrade, and the strategies along a path of upgrades.
use aerospike_operator.Prelude.{
  ℕ, ◌+◌, ◌≤◌, ◌≡◌, sym, ap, ◌∙◌, Bool, ◌||◌, ◌&&◌, true, arith, ℤ, leb, ok, ok-injective,
  if◌then◌else◌,
}
use aerospike_operator.Versioning.Version.{Version, IsVersion}
use aerospike_operator.Versioning.Upgrade.{
  VersionUpgrade, UpgradeStrategy, is_downgrade, is_major_upgrade, is_minor_upgrade,
  is_patch_upgrade, is_revision_upgrade, is_valid, get_strategy,
}
use aerospike_operator.Versioning.Supported.{IsFour, IsListed-IsFour}
use aerospike_operator.Versioning.Order.{Before, Before-trans, is_valid_iff}

abbrev pub one_if : Bool → ℕ
one_if b = if b then 1 else 0

-- Any pair of versions is of at most one of the five kinds: a downgrade, or a major, minor, patch
-- or revision upgrade.
pub kinds_exclusive :
    (vu : VersionUpgrade)
    → one_if (is_downgrade vu)
        + one_if (is_major_upgrade vu)
        + one_if (is_minor_upgrade vu)
        + one_if (is_patch_upgrade vu)
        + one_if (is_revision_upgrade vu)
      ≤ 1
unfolding is_revision_upgrade
kinds_exclusive vu = ground arith

-- Whatever revisions the two versions have, they do not change whether the pair is a downgrade: a
-- step down in the revision alone is never called one.
pub is_downgrade-ignores_revision :
    (vu : VersionUpgrade) (r s : ℤ)
    → is_downgrade (record {
      source = record vu.source { revision = r };
      target = record vu.target { revision = s };
    })
      ≡ is_downgrade vu
unfolding is_downgrade
is_downgrade-ignores_revision vu r s = ground arith

get_strategy-is_valid :
    (vu : VersionUpgrade) (s : UpgradeStrategy) → get_strategy vu ≡ ok s → is_valid vu ≡ true
unfolding get_strategy
get_strategy-is_valid vu s h = ground arith

abbrev crosses : {v w : Version} → IsFour v → IsFour w → Bool
crosses fv fw = leb fv.m 1 && leb 2 fw.m

get_strategy-crosses :
    (vu : VersionUpgrade) (fv : IsFour vu.source) (fw : IsFour vu.target)
    → is_valid vu ≡ true
    → get_strategy vu ≡ ok (record { recreate_persistent_volume_claims = crosses fv fw })
unfolding get_strategy
get_strategy-crosses vu fv fw h = ground arith

crosses_path :
    (u v w : Version) (fu : IsFour u) (fv : IsFour v) (fw : IsFour w)
    → Before u v
    → Before v w
    → crosses fu fw ≡ (crosses fu fv || crosses fv fw)
crosses_path u v w fu fv fw h k = ground arith

abbrev with_recreate : Bool → UpgradeStrategy
with_recreate b = record { recreate_persistent_volume_claims = b }

join_strategies :
    (s t : UpgradeStrategy) (a b c : Bool)
    → s ≡ with_recreate a
    → t ≡ with_recreate b
    → c ≡ (a || b)
    → with_recreate c
      ≡ with_recreate (s.recreate_persistent_volume_claims || t.recreate_persistent_volume_claims)
join_strategies s t a b c e f g = ground arith

-- For three versions in range: where both upgrades u → v and v → w have a strategy, so has u → w,
-- and it recreates the volume claims exactly when one of the two does.
pub get_strategy_path :
    (u v w : Version) (s t : UpgradeStrategy)
    → IsVersion u
    → IsVersion v
    → IsVersion w
    → get_strategy (record { source = u; target = v }) ≡ ok s
    → get_strategy (record { source = v; target = w }) ≡ ok t
    → get_strategy (record { source = u; target = w })
      ≡ ok (record {
        recreate_persistent_volume_claims =
            s.recreate_persistent_volume_claims || t.recreate_persistent_volume_claims;
      })
get_strategy_path u v w s t hu hv hw e f =
    let uv : VersionUpgrade = record { source = u; target = v } in
    let vw : VersionUpgrade = record { source = v; target = w } in
    let uw : VersionUpgrade = record { source = u; target = w } in
    let (lu, lv, first) = (is_valid_iff uv hu hv).0 (get_strategy-is_valid uv s e) in
    let (_, lw, second) = (is_valid_iff vw hv hw).0 (get_strategy-is_valid vw t f) in
    let fu = IsListed-IsFour u lu in
    let fv = IsListed-IsFour v lv in
    let fw = IsListed-IsFour w lw in
    let es = ok-injective (sym e ∙ get_strategy-crosses uv fu fv (get_strategy-is_valid uv s e)) in
    let et = ok-injective (sym f ∙ get_strategy-crosses vw fv fw (get_strategy-is_valid vw t f)) in
    get_strategy-crosses uw fu fw
      ((is_valid_iff uw hu hw).1 (lu, lw, Before-trans u v w first second))
    ∙ ap ok (join_strategies s t _ _ _ es et (crosses_path u v w fu fv fw first second))
