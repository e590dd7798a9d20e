-- ===== src/Versioning/Supported.antt =====
-- `IsSupported` decides membership in the list of supported versions.
use aerospike_operator.Prelude.{
  ℕ, ◌≡◌, ◌↔◌, inl, inr, sym, subst, refl, true, List, [], ◌∷◌, Text, text_eq_iff, map, arith, All,
  Occurs, All-Occurs, pos, ◌≤◌,
}
use aerospike_operator.Versioning.Version.{
  Version, IsVersion, contains, version_string, is_supported, running,
  aerospike_server_supported_versions,
}
use aerospike_operator.Versioning.RoundTrip.{version_string-injective}

abbrev pub version : ℕ → ℕ → ℕ → ℕ → Version
version a b c d = record { major = pos a; minor = pos b; patch = pos c; revision = pos d }

-- The versions that the constants of versions.go name.
abbrev pub supported_versions : List Version
supported_versions =
    version 4 0 0 4
    ∷ version 4 0 0 5
    ∷ version 4 0 0 6
    ∷ version 4 1 0 1
    ∷ version 4 1 0 6
    ∷ version 4 2 0 3
    ∷ version 4 2 0 4
    ∷ version 4 2 0 5
    ∷ version 4 2 0 10
    ∷ version 4 3 0 2
    ∷ version 4 3 0 4
    ∷ version 4 3 0 6
    ∷ version 4 3 0 7
    ∷ version 4 3 0 8
    ∷ version 4 3 0 10
    ∷ []

prints : aerospike_server_supported_versions ≡ map version_string supported_versions
unfolding running
prints = refl

pub contains→Occurs : (s : List Text) (e : Text) → contains s e ≡ true → Occurs e s
unfolding contains
contains→Occurs [] e h = absurd (ground arith)
contains→Occurs (a ∷ s) e h = ground (arith, text_eq_iff a e, contains→Occurs s e)

pub Occurs→contains : (s : List Text) (e : Text) → Occurs e s → contains s e ≡ true
unfolding contains
Occurs→contains (a ∷ s) e (inl p) = ground (arith, text_eq_iff a e)
Occurs→contains (a ∷ s) e (inr m) = ground (arith, Occurs→contains s e m)
Occurs→contains [] e m = elim m [ ]

Occurs-map :
    (v : Version) (vs : List Version)
    → Occurs v vs
    → Occurs (version_string v) (map version_string vs)
Occurs-map v (x ∷ vs) (inl e) = inl (rw e)
Occurs-map v (x ∷ vs) (inr m) = inr (Occurs-map v vs m)
Occurs-map v [] m = elim m [ ]

Occurs-unmap :
    (v : Version) (vs : List Version)
    → IsVersion v
    → All IsVersion vs
    → Occurs (version_string v) (map version_string vs)
    → Occurs v vs
Occurs-unmap v (x ∷ vs) hv (hx, hvs) (inl e) = inl (version_string-injective v x hv hx e)
Occurs-unmap v (x ∷ vs) hv (hx, hvs) (inr m) = inr (Occurs-unmap v vs hv hvs m)
Occurs-unmap v [] hv hvs m = elim m [ ]

pub supported_versions-IsVersion : All IsVersion supported_versions
supported_versions-IsVersion = omega arith

-- Being one of the listed versions.
unfoldable pub IsListed : Version → Type 0
IsListed v = Occurs v supported_versions

-- A version in range is supported exactly when it is one of the fifteen listed versions.
pub is_supported_iff : (v : Version) → IsVersion v → (is_supported v ≡ true) ↔ IsListed v
unfolding is_supported IsListed
is_supported_iff v h = (
  λ s. Occurs-unmap v supported_versions h supported_versions-IsVersion (
      subst (Occurs (version_string v)) prints
        (contains→Occurs aerospike_server_supported_versions (version_string v) s)),
  λ m.
      Occurs→contains aerospike_server_supported_versions (version_string v)
        (subst (Occurs (version_string v)) (sym prints) (Occurs-map v supported_versions m)),
)

-- What the supported versions have in common: 4.m.0.r with m at most 3.
pub record IsFour (v : Version) : Type 0 where
  pub is_major : v.major ≡ pos 4
  pub is_patch : v.patch ≡ pos 0
  pub m : ℕ
  pub r : ℕ
  pub is_minor : v.minor ≡ pos m
  pub is_revision : v.revision ≡ pos r
  pub m_bound : m ≤ 3
  pub r_bound : r ≤ 10

four : (m r : ℕ) → m ≤ 3 → r ≤ 10 → IsFour (version 4 m 0 r)
four m r h k = record {
  is_major = refl;
  is_patch = refl;
  m = m;
  r = r;
  is_minor = refl;
  is_revision = refl;
  m_bound = h;
  r_bound = k;
}

supported_versions-IsFour : All IsFour supported_versions
supported_versions-IsFour = (
  four 0 4 (omega arith) (omega arith),
  (
    four 0 5 (omega arith) (omega arith),
    (
      four 0 6 (omega arith) (omega arith),
      (
        four 1 1 (omega arith) (omega arith),
        (
          four 1 6 (omega arith) (omega arith),
          (
            four 2 3 (omega arith) (omega arith),
            (
              four 2 4 (omega arith) (omega arith),
              (
                four 2 5 (omega arith) (omega arith),
                (
                  four 2 10 (omega arith) (omega arith),
                  (
                    four 3 2 (omega arith) (omega arith),
                    (
                      four 3 4 (omega arith) (omega arith),
                      (
                        four 3 6 (omega arith) (omega arith),
                        (
                          four 3 7 (omega arith) (omega arith),
                          (
                            four 3 8 (omega arith) (omega arith),
                            (four 3 10 (omega arith) (omega arith), tt),
                          ),
                        ),
                      ),
                    ),
                  ),
                ),
              ),
            ),
          ),
        ),
      ),
    ),
  ),
)

pub IsListed-IsFour : (v : Version) → IsListed v → IsFour v
unfolding IsListed
IsListed-IsFour v m = All-Occurs IsFour v supported_versions supported_versions-IsFour m
