-- ===== src/Versioning/Order.antt =====
-- The upgrades that `IsValid` admits are the steps up in the order of versions.
use aerospike_operator.Prelude.{◌≡◌, ◌↔◌, ◌⊎◌, sym, ◌∙◌, Bool, ◌||◌, ◌&&◌, refl, true, arith, ◌<ℤ◌}
use aerospike_operator.Versioning.Version.{Version, IsVersion, is_supported}
use aerospike_operator.Versioning.Upgrade.{
  VersionUpgrade, is_minor_upgrade, is_patch_upgrade, is_revision_upgrade, is_valid,
}
use aerospike_operator.Versioning.Supported.{IsListed, is_supported_iff, IsFour, IsListed-IsFour}

-- The lexicographic order of the four fields.
abbrev pub Before : Version → Version → Type 0
Before v w =
    (v.major <ℤ w.major)
    ⊎ ((v.major ≡ w.major)
        × ((v.minor <ℤ w.minor)
            ⊎ ((v.minor ≡ w.minor)
                × ((v.patch <ℤ w.patch) ⊎ ((v.patch ≡ w.patch) × (v.revision <ℤ w.revision))))))

pub Before-irrefl : (v : Version) → ¬ Before v v
Before-irrefl v h = ground arith

pub Before-trans : (u v w : Version) → Before u v → Before v w → Before u w
Before-trans u v w h k = ground arith

valid_shape : VersionUpgrade → Bool
valid_shape vu = is_minor_upgrade vu || is_patch_upgrade vu || is_revision_upgrade vu

Before→shape :
    (vu : VersionUpgrade)
    → IsFour vu.source
    → IsFour vu.target
    → Before vu.source vu.target
    → valid_shape vu ≡ true
unfolding valid_shape is_minor_upgrade is_patch_upgrade is_revision_upgrade
Before→shape vu s t h = ground arith

shape→Before :
    (vu : VersionUpgrade)
    → IsFour vu.source
    → IsFour vu.target
    → valid_shape vu ≡ true
    → Before vu.source vu.target
unfolding valid_shape is_minor_upgrade is_patch_upgrade is_revision_upgrade
shape→Before vu s t h = ground arith

is_valid_parts :
    (vu : VersionUpgrade)
    → is_valid vu ≡ (is_supported vu.source && is_supported vu.target && valid_shape vu)
unfolding is_valid valid_shape
is_valid_parts vu = refl

-- An upgrade between versions in range is valid exactly when both versions are supported and the
-- source comes before the target.
pub is_valid_iff :
    (vu : VersionUpgrade)
    → IsVersion vu.source
    → IsVersion vu.target
    → (is_valid vu ≡ true) ↔ (IsListed vu.source × IsListed vu.target × Before vu.source vu.target)
is_valid_iff vu hs ht = (
  λ v.
      let e : (is_supported vu.source && is_supported vu.target && valid_shape vu) ≡ true =
        sym (is_valid_parts vu) ∙ v in
      let s : IsListed vu.source = (is_supported_iff vu.source hs).0 (ground arith) in
      let t : IsListed vu.target = (is_supported_iff vu.target ht).0 (ground arith) in
      (
        s,
        t,
        shape→Before vu (IsListed-IsFour vu.source s) (IsListed-IsFour vu.target t) (ground arith),
      ),
  λ (s, t, b).
      is_valid_parts vu
      ∙ (let hs' = (is_supported_iff vu.source hs).1 s in
          let ht' = (is_supported_iff vu.target ht).1 t in
          let hb = Before→shape vu (IsListed-IsFour vu.source s) (IsListed-IsFour vu.target t) b in
          ground arith),
)
