-- ===== src/Admission/Cluster/Valid.antt =====
-- What validateAerospikeCluster of pkg/admission/cluster.go accepts.
use aerospike_operator.Prelude.{
  ◌+◌, ◌*◌, ◌≤◌, ◌≡◌, ◌↔◌, ◌≢◌, refl, true, Option, none, some, List, [], ◌∷◌, Text, length, ℤ,
  ◌≤ℤ◌, Result, ok, err, Occurs, arith, Result-cases, inl, inr, ◌==◌,
}
use aerospike_operator.Versioning.Version.{Version, new_version_from_string, is_supported}
use aerospike_operator.Versioning.RoundTrip.{new_version_from_string-IsVersion}
use aerospike_operator.Versioning.Supported.{
  IsListed, is_supported_iff, contains→Occurs, Occurs→contains,
}
use aerospike_operator.Api.{
  Kube, AerospikeNamespaceSpec, AerospikeCluster, BackupStorageSpec, AerospikeClusterBackupSpec,
  get_secret, get_secret_key, get_secret_namespace, ApiError, Secret,
}
use aerospike_operator.Admission.Cluster.{
  AdmissionError, parse_version, validate_secret, current_replication_factor,
  validate_each_namespace, validate_backup_secret, validate_aerospike_cluster,
}

abbrev pub Secrets : Type 0
Secrets = Text → Text → Result ApiError Secret

-- The secret that a storage spec names exists and has the field with the credentials.
abbrev pub HasSecret : Secrets → Text → BackupStorageSpec → Type 0
HasSecret secrets namespace storage =
    (secret : Secret) × (secrets (get_secret_namespace storage namespace) (get_secret storage)
      ≡ ok secret)
    × Occurs (get_secret_key storage) secret.data_keys

abbrev pub BackupReady : Secrets → Text → Option AerospikeClusterBackupSpec → Type 0
BackupReady secrets namespace none = Unit
BackupReady secrets namespace (some b) = HasSecret secrets namespace b.storage

-- The conditions on a cluster, stated without the checks.
pub record IsAdmissible {k : Kube} (secrets : Secrets) (c : AerospikeCluster k) : Type 0 where
  pub name_fits : length c.name ≤ 61
  pub seed_fits : 2 * (length c.name + 2) + length c.namespace ≤ 63
  pub version : Version
  pub parsed : new_version_from_string c.spec.version ≡ ok version
  pub listed : IsListed version
  pub ns : AerospikeNamespaceSpec
  pub single : c.spec.namespaces ≡ ns ∷ []
  pub ns_name_fits : length ns.name ≤ 23
  pub replicas_fit : current_replication_factor ns ≤ℤ c.spec.node_count
  pub backup_ready : BackupReady secrets c.namespace c.spec.backup_spec

pub parse_version-eq-ok :
    (s : Text) (v : Version) → parse_version s ≡ ok v → new_version_from_string s ≡ ok v
unfolding parse_version
parse_version-eq-ok s v h = ground arith

pub ok-parse_version :
    (s : Text) (v : Version) → new_version_from_string s ≡ ok v → parse_version s ≡ ok v
unfolding parse_version
ok-parse_version s v h = ground arith

pub validate_secret-HasSecret :
    (secrets : Secrets) (storage : BackupStorageSpec) (namespace : Text)
    → validate_secret secrets storage namespace ≡ ok tt
    → HasSecret secrets namespace storage
unfolding validate_secret
validate_secret-HasSecret secrets storage namespace h =
    elim (Result-cases (secrets (get_secret_namespace storage namespace) (get_secret storage))) [
      | inl (secret, e) ↦
          (secret, e, contains→Occurs secret.data_keys (get_secret_key storage) (ground arith))
      | inr (e, p) ↦ absurd (ground arith)
    ]

pub HasSecret-validate_secret :
    (secrets : Secrets) (storage : BackupStorageSpec) (namespace : Text)
    → HasSecret secrets namespace storage
    → validate_secret secrets storage namespace ≡ ok tt
unfolding validate_secret
HasSecret-validate_secret secrets storage namespace (secret, e, m) =
    ground (arith, Occurs→contains secret.data_keys (get_secret_key storage) m)

-- A single namespace passes exactly when its name and its replicas fit.
each_namespace :
    (n : ℤ) (ns : AerospikeNamespaceSpec)
    → (validate_each_namespace n (ns ∷ []) ≡ ok tt)
      ↔ ((length ns.name ≤ 23) × (current_replication_factor ns ≤ℤ n))
unfolding validate_each_namespace
each_namespace n ns = (λ h. ground arith, λ h. ground arith)

backup_secret :
    (secrets : Secrets) (b : Option AerospikeClusterBackupSpec) (namespace : Text)
    → (validate_backup_secret secrets b namespace ≡ ok tt) ↔ BackupReady secrets namespace b
unfolding validate_backup_secret
backup_secret secrets none namespace = ((λ _. tt), (λ _. refl))
backup_secret secrets (some b) namespace = (
  validate_secret-HasSecret secrets b.storage namespace,
  HasSecret-validate_secret secrets b.storage namespace,
)

one_namespace :
    (l : List AerospikeNamespaceSpec)
    → (length l == 1) ≡ true
    → (ns : AerospikeNamespaceSpec) × (l ≡ ns ∷ [])
one_namespace [] h = absurd (ground arith)
one_namespace (ns ∷ []) h = (ns, refl)
one_namespace (ns ∷ m ∷ r) h = absurd (ground arith)

module _ {k : Kube} (secrets : Secrets) (c : AerospikeCluster k) where
  -- The checks in turn, for a version that was parsed.
  abbrev Passed : Version → Type 0
  Passed v =
      (length c.name ≤ 61)
      × (2 * (length c.name + 2) + length c.namespace ≤ 63)
      × (is_supported v ≡ true)
      × ((length c.spec.namespaces == 1) ≡ true)
      × (validate_each_namespace c.spec.node_count c.spec.namespaces ≡ ok tt)
      × (validate_backup_secret secrets c.spec.backup_spec c.namespace ≡ ok tt)

  validate-Passed :
      (v : Version)
      → parse_version c.spec.version ≡ ok v
      → validate_aerospike_cluster secrets c ≡ ok tt
      → Passed v
  unfolding validate_aerospike_cluster
  validate-Passed v p h = ground arith

  Passed-validate :
      (v : Version)
      → parse_version c.spec.version ≡ ok v
      → Passed v
      → validate_aerospike_cluster secrets c ≡ ok tt
  unfolding validate_aerospike_cluster
  Passed-validate v p h = ground arith

  parse_error-validate :
      (e : AdmissionError)
      → parse_version c.spec.version ≡ err e
      → validate_aerospike_cluster secrets c ≢ ok tt
  unfolding validate_aerospike_cluster
  parse_error-validate e p h = ground arith

  validate-IsAdmissible : validate_aerospike_cluster secrets c ≡ ok tt → IsAdmissible secrets c
  validate-IsAdmissible h = elim (Result-cases (parse_version c.spec.version)) [
    | inl (v, p) ↦
        let (name, seed, supported, count, each, backup) = validate-Passed v p h in
        let parsed = parse_version-eq-ok c.spec.version v p in
        let (ns, single) = one_namespace c.spec.namespaces count in
        let fits = (each_namespace c.spec.node_count ns).0 (rw single at each) in
        record {
          name_fits = name;
          seed_fits = seed;
          version = v;
          parsed = parsed;
          listed =
              (is_supported_iff v (new_version_from_string-IsVersion c.spec.version v parsed)).0
                supported;
          ns = ns;
          single = single;
          ns_name_fits = fits.0;
          replicas_fit = fits.1;
          backup_ready = (backup_secret secrets c.spec.backup_spec c.namespace).0 backup;
        }
    | inr (e, p) ↦ absurd (parse_error-validate e p h)
  ]

  IsAdmissible-validate : IsAdmissible secrets c → validate_aerospike_cluster secrets c ≡ ok tt
  IsAdmissible-validate a =
      Passed-validate a.version (ok-parse_version c.spec.version a.version a.parsed) (
        a.name_fits,
        a.seed_fits,
        (is_supported_iff a.version
              (new_version_from_string-IsVersion c.spec.version a.version a.parsed)).1
            a.listed,
        rw a.single,
        rw a.single ((each_namespace c.spec.node_count a.ns).1 (a.ns_name_fits, a.replicas_fit)),
        (backup_secret secrets c.spec.backup_spec c.namespace).1 a.backup_ready,
      )

-- A cluster passes the validation exactly when its names fit, its version parses to a supported
-- one, it has one namespace whose name and replicas fit, and its backup secret, if it has one, exists
-- with the expected field.
pub validate_aerospike_cluster_iff :
    {k : Kube} (secrets : Secrets) (c : AerospikeCluster k)
    → (validate_aerospike_cluster secrets c ≡ ok tt) ↔ IsAdmissible secrets c
validate_aerospike_cluster_iff secrets c =
    (validate-IsAdmissible secrets c, IsAdmissible-validate secrets c)
