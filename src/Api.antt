-- ===== src/Api.antt =====
-- pkg/apis/aerospike/v1alpha2 (cluster.go, backup.go) and common/types.go: the custom resources.
-- A pointer is an option, a `map[string]string` is the list of its entries in the order of the keys,
-- and an int32 is an integer. The types that Kubernetes declares are those of `Kube`. Of a condition
-- the reason, the message and the time are left out: no code reads them.
pub mod Backup
use aerospike_operator.Prelude.{
  ◌≡◌, Bool, true, false, Option, none, some, List, [], ◌∷◌, Text, codes, text_eq, Text-discrete, ℤ,
  ℤ_discrete, ℕ_discrete, if◌then◌else◌, pos,
}

-- corev1.ResourceRequirements and corev1.Toleration, which reflect.DeepEqual compares.
pub record Kube : Type 1 where
  pub Resources : Type 0
  pub resources_discrete : Discrete Resources
  pub Toleration : Type 0
  pub toleration_discrete : Discrete Toleration

pub record StorageSpec : Type 0 where
  pub type : Text
  pub size : Text
  pub storage_class_name : Option Text
  pub persistent_volume_claim_ttl : Option Text
  pub data_in_memory : Option Bool

pub record AerospikeNamespaceSpec : Type 0 where
  pub name : Text
  pub replication_factor : Option ℤ
  pub memory_size : Option Text
  pub default_ttl : Option Text
  pub storage : StorageSpec

pub record BackupStorageSpec : Type 0 where
  pub type : Text
  pub bucket : Text
  pub secret : Text
  pub secret_namespace : Option Text
  pub secret_key : Option Text

abbrev pub default_secret_filename : Text
default_secret_filename = codes "key.json"

-- metav1.NamespaceDefault
abbrev pub namespace_default : Text
namespace_default = codes "default"

unfoldable pub get_secret : BackupStorageSpec → Text
get_secret b = b.secret

unfoldable pub get_secret_key : BackupStorageSpec → Text
get_secret_key b = elim b.secret_key [ some key ↦ key | none ↦ default_secret_filename ]

unfoldable pub get_secret_namespace : BackupStorageSpec → Text → Text
get_secret_namespace b fallback_namespace =
    let namespace : Text = elim b.secret_namespace [ some n ↦ n | none ↦ fallback_namespace ] in
    if text_eq namespace [] then namespace_default else namespace

pub record AerospikeClusterBackupSpec : Type 0 where
  pub ttl : Option Text
  pub storage : BackupStorageSpec

pub record AerospikeClusterSpec (k : Kube) : Type 0 where
  pub node_count : ℤ
  pub version : Text
  pub namespaces : List AerospikeNamespaceSpec
  pub backup_spec : Option AerospikeClusterBackupSpec
  pub resources : Option k.Resources
  pub node_selector : Option (List (Text × Text))
  pub tolerations : Option (List k.Toleration)

-- The condition types of common/types.go; `other` is any further one.
pub data ConditionType : Type 0 where
  backup_failed backup_finished backup_started : ConditionType
  restore_failed restore_finished restore_started : ConditionType
  upgrade_started upgrade_finished upgrade_failed : ConditionType
  auto_backup_started auto_backup_finished auto_backup_failed : ConditionType
  other : Text → ConditionType

pub data ConditionStatus : Type 0 where
  condition_true condition_false condition_unknown : ConditionStatus

pub record Condition : Type 0 where
  pub type : ConditionType
  pub status : ConditionStatus

pub record AerospikeClusterStatus (k : Kube) : Type 0 where
  pub spec : AerospikeClusterSpec k
  pub conditions : List Condition

pub record AerospikeCluster (k : Kube) : Type 0 where
  pub name : Text
  pub namespace : Text
  pub annotations : List (Text × Text)
  pub spec : AerospikeClusterSpec k
  pub status : AerospikeClusterStatus k

unfoldable pub StorageSpec-discrete : Discrete StorageSpec
unfolding ℕ_discrete
StorageSpec-discrete = hlevel ℕ_discrete

unfoldable pub AerospikeNamespaceSpec-discrete : Discrete AerospikeNamespaceSpec
unfolding ℕ_discrete
AerospikeNamespaceSpec-discrete = hlevel ℕ_discrete

unfoldable pub ConditionType-discrete : Discrete ConditionType
unfolding ℕ_discrete
ConditionType-discrete = hlevel ℕ_discrete

unfoldable pub AerospikeClusterSpec-discrete : {k : Kube} → Discrete (AerospikeClusterSpec k)
unfolding ℕ_discrete
AerospikeClusterSpec-discrete {k} = hlevel (ℕ_discrete, k.resources_discrete, k.toleration_discrete)

-- An answer of the Kubernetes API that is an error: `IsNotFound`, `IsAlreadyExists`, or another.
pub data ApiError : Type 0 where
  not_found already_exists : ApiError
  other_error : Text → ApiError

-- A secret: its name and the keys of its data.
pub record Secret : Type 0 where
  pub name : Text
  pub data_keys : List Text
