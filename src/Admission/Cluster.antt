-- ===== src/Admission/Cluster.antt =====
-- pkg/admission/cluster.go: which AerospikeCluster resources, and which updates of them, are admitted.
-- The Kubernetes client is the argument `secrets`, which answers `Secrets(namespace).Get(name)`. The
-- deserializer is the argument `decode`. A Go map is visited in an order that the language leaves
-- open: `order` gives the order in which a map with these keys is visited.
pub mod Maps
pub mod Valid
pub mod Unique
pub mod Namespaces
pub mod History
use Maps.{NamespaceMap, namespace_map, lookup, keys, has_key}
use aerospike_operator.Prelude.{
  ℕ, ◌+◌, ◌*◌, Bool, true, false, not, ◌&&◌, ◌||◌, Option, none, some, List, [], ◌∷◌, Text, codes,
  text_eq, length, ltb, ◌==◌, if◌then◌else◌, ltb_ℤ, eqb_ℤ, ℤ, pos, Result, ok, err, ◌>>=◌, ◌>>◌,
  fail_if, deep_equal,
}
use aerospike_operator.Versioning.Version
use aerospike_operator.Versioning.Version.{
  Version, VersionError, new_version_from_string, is_supported, contains,
}
use aerospike_operator.Versioning.Upgrade.{VersionUpgrade, is_valid}
use aerospike_operator.Api.{
  Kube, StorageSpec-discrete, AerospikeNamespaceSpec, AerospikeClusterSpec, AerospikeCluster,
  AerospikeClusterSpec-discrete, BackupStorageSpec, AerospikeClusterBackupSpec, get_secret,
  get_secret_key, get_secret_namespace, ApiError, not_found, Secret,
}

abbrev pub mesh_seed_address_max_length : ℕ
mesh_seed_address_max_length = 63

abbrev pub cluster_name_max_length : ℕ
cluster_name_max_length = 61

abbrev pub namespace_max_name_len : ℕ
namespace_max_name_len = 23

abbrev pub default_namespace_replication_factor : ℤ
default_namespace_replication_factor = pos 2

-- The errors, one constructor for each message.
pub data AdmissionError : Type 0 where
  cluster_name_too_long names_too_long unsupported_version namespace_count : AdmissionError
  namespace_name_too_long replication_factor_too_large : AdmissionError
  secret_not_found secret_lacks_field : AdmissionError
  target_namespace_missing storage_missing status_deleted spec_changed : AdmissionError
  more_than_version_changed no_backup_spec cannot_upgrade : AdmissionError
  namespaces_not_unique namespace_removed : AdmissionError
  replication_factor_changed storage_changed : AdmissionError
  version_error : VersionError → AdmissionError
  api_error : ApiError → AdmissionError
  decode_error : Text → AdmissionError

abbrev pub Check : Type 0
Check = Result AdmissionError (Unit {0})

unfoldable pub parse_version : Text → Result AdmissionError Version
parse_version s = elim (new_version_from_string s) [ ok v ↦ ok v | err e ↦ err (version_error e) ]

-- The secret with the storage credentials exists and has the expected field.
unfoldable pub validate_secret :
    (Text → Text → Result ApiError Secret) → BackupStorageSpec → Text → Check
validate_secret secrets storage fallback_namespace =
    elim (secrets (get_secret_namespace storage fallback_namespace) (get_secret storage)) [
      | err not_found ↦ err secret_not_found
      | err e ↦ err (api_error e)
      | ok secret ↦
          fail_if (not (contains secret.data_keys (get_secret_key storage))) secret_lacks_field
    ]

unfoldable pub current_replication_factor : AerospikeNamespaceSpec → ℤ
current_replication_factor ns = elim ns.replication_factor [
  | some r ↦ r
  | none ↦ default_namespace_replication_factor
]

unfoldable pub validate_each_namespace : ℤ → List AerospikeNamespaceSpec → Check
unfolding current_replication_factor
validate_each_namespace node_count [] = ok tt
validate_each_namespace node_count (ns ∷ rest) = do
  fail_if (ltb namespace_max_name_len (length ns.name)) namespace_name_too_long
  fail_if (ltb_ℤ node_count (current_replication_factor ns)) replication_factor_too_large
  validate_each_namespace node_count rest

unfoldable pub validate_backup_secret :
    (Text → Text → Result ApiError Secret) → Option AerospikeClusterBackupSpec → Text → Check
validate_backup_secret secrets none namespace = ok tt
validate_backup_secret secrets (some backup_spec) namespace =
    validate_secret secrets backup_spec.storage namespace

-- `for name := range oldnss`
unfoldable pub check_none_removed : NamespaceMap → List Text → Check
check_none_removed newnss [] = ok tt
check_none_removed newnss (name ∷ rest) = do
  fail_if (not (has_key name newnss)) namespace_removed
  check_none_removed newnss rest

unfoldable pub replication_factor_differs : Option ℤ → Option ℤ → Bool
replication_factor_differs (some r) (some s) = not (eqb_ℤ r s)
replication_factor_differs _ _ = false

unfoldable pub check_namespace : AerospikeNamespaceSpec → AerospikeNamespaceSpec → Check
unfolding replication_factor_differs
check_namespace old new = do
  fail_if (replication_factor_differs old.replication_factor new.replication_factor)
      replication_factor_changed
  fail_if (not (deep_equal StorageSpec-discrete old.storage new.storage)) storage_changed

unfoldable pub check_found : Option AerospikeNamespaceSpec → Option AerospikeNamespaceSpec → Check
check_found (some old) (some new) = check_namespace old new
check_found _ _ = ok tt

-- `for name := range newnss`
unfoldable pub check_none_changed : NamespaceMap → NamespaceMap → List Text → Check
unfolding check_found
check_none_changed oldnss newnss [] = ok tt
check_none_changed oldnss newnss (name ∷ rest) = do
  check_found (lookup name oldnss) (lookup name newnss)
  check_none_changed oldnss newnss rest

module _ {k : Kube} where
  unfoldable pub validate_aerospike_cluster :
      (Text → Text → Result ApiError Secret) → AerospikeCluster k → Check
  validate_aerospike_cluster secrets cluster = do
    fail_if (ltb cluster_name_max_length (length cluster.name)) cluster_name_too_long
    fail_if
        (ltb mesh_seed_address_max_length
          (2 * (length cluster.name + 2) + length cluster.namespace))
        names_too_long
    version ← parse_version cluster.spec.version
    fail_if (not (is_supported version)) unsupported_version
    fail_if (not (length cluster.spec.namespaces == 1)) namespace_count
    validate_each_namespace cluster.spec.node_count cluster.spec.namespaces
    validate_backup_secret secrets cluster.spec.backup_spec cluster.namespace

  unfoldable pub validate_version : AerospikeCluster k → AerospikeCluster k → Check
  validate_version old new = if text_eq old.spec.version new.spec.version then ok tt else do
    source ← parse_version old.spec.version
    target ← parse_version new.spec.version
    fail_if (not (is_valid (record { source = source; target = target }))) cannot_upgrade

  unfoldable pub validate_namespaces :
      (List Text → List Text) → AerospikeCluster k → AerospikeCluster k → Check
  validate_namespaces order old new =
      let oldnss = namespace_map old.spec.namespaces in
      let newnss = namespace_map new.spec.namespaces in
      do
        fail_if (ltb (length newnss) (length new.spec.namespaces)) namespaces_not_unique
        check_none_removed newnss (order (keys oldnss))
        check_none_changed oldnss newnss (order (keys newnss))

  abbrev pub has_backup_spec : AerospikeClusterSpec k → Bool
  has_backup_spec spec = elim spec.backup_spec [ some _ ↦ true | none ↦ false ]

  unfoldable pub check_version_change : AerospikeCluster k → AerospikeCluster k → Check
  check_version_change old new =
      let tmp = record new.spec { version = old.spec.version } in
      if text_eq old.spec.version new.spec.version then ok tt else do
        fail_if (not (deep_equal AerospikeClusterSpec-discrete old.spec tmp))
            more_than_version_changed
        fail_if (not (has_backup_spec new.spec)) no_backup_spec

  unfoldable pub validate_aerospike_cluster_update :
      (List Text → List Text) → AerospikeCluster k → AerospikeCluster k → Check
  validate_aerospike_cluster_update order old new = do
    check_version_change old new
    validate_version old new
    validate_namespaces order old new

pub data Operation : Type 0 where
  create update delete connect : Operation

abbrev pub is_update : Operation → Bool
is_update update = true
is_update _ = false

-- An admission review: the operation, and the raw bytes of the new and of the old object.
pub record AdmissionReview : Type 0 where
  pub operation : Operation
  pub object : Text
  pub old_object : Text

pub record AdmissionResponse : Type 0 where
  pub allowed : Bool
  pub message : Option AdmissionError

abbrev pub admission_response_from_error : AdmissionError → AdmissionResponse
admission_response_from_error e = record { allowed = false; message = some e }

abbrev pub respond : Check → AdmissionResponse
respond (ok _) = record { allowed = true; message = none }
respond (err e) = admission_response_from_error e

abbrev pub empty_spec : {k : Kube} → AerospikeClusterSpec k
empty_spec = record {
  node_count = pos 0;
  version = [];
  namespaces = [];
  backup_spec = none;
  resources = none;
  node_selector = none;
  tolerations = none;
}

-- `&AerospikeCluster{}`
abbrev pub empty_cluster : {k : Kube} → AerospikeCluster k
empty_cluster = record {
  name = [];
  namespace = [];
  annotations = [];
  spec = empty_spec;
  status = record { spec = empty_spec; conditions = [] };
}

module _ {k : Kube} (decode : Text → Result Text (AerospikeCluster k)) where
  unfoldable pub decode_aerospike_cluster : Text → Result AdmissionError (AerospikeCluster k)
  decode_aerospike_cluster [] = ok empty_cluster
  decode_aerospike_cluster (c ∷ raw) = elim (decode (c ∷ raw)) [
    | ok cluster ↦ ok cluster
    | err e ↦ err (decode_error e)
  ]

  unfoldable pub check_aerospike_cluster :
      (Text → Text → Result ApiError Secret) → (List Text → List Text) → AdmissionReview → Check
  check_aerospike_cluster secrets order ar = do
    new ← decode_aerospike_cluster ar.object
    old ← decode_aerospike_cluster ar.old_object
    validate_aerospike_cluster secrets new
    if is_update ar.operation then validate_aerospike_cluster_update order old new else ok tt

  unfoldable pub admit_aerospike_cluster :
      (Text → Text → Result ApiError Secret)
      → (List Text → List Text)
      → AdmissionReview
      → AdmissionResponse
  admit_aerospike_cluster secrets order ar = respond (check_aerospike_cluster secrets order ar)

-- Names what has to unfold for the operations above to run on concrete input.
unfoldable pub running : Unit {0}
unfolding Version.running is_valid parse_version validate_secret current_replication_factor
    validate_each_namespace validate_backup_secret check_none_removed check_namespace
    check_none_changed namespace_map lookup keys has_key validate_aerospike_cluster validate_version
    validate_namespaces check_version_change validate_aerospike_cluster_update
    decode_aerospike_cluster check_aerospike_cluster admit_aerospike_cluster get_secret
    get_secret_key get_secret_namespace StorageSpec-discrete AerospikeClusterSpec-discrete
running = tt
