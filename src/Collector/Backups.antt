-- ===== src/Collector/Backups.antt =====
-- pkg/garbagecollector/asbackups.go and gcs.go: the removal of expired backups with their data.
use aerospike_operator.Prelude.{
  Option, none, some, List, [], ◌∷◌, Text, codes, text_eq, Result, ok, err, ℤ, pos, ltb_ℤ, eqb_ℤ,
  ◌+ℤ◌, if◌then◌else◌,
}
use aerospike_operator.Action.{Action, pure, raise, lift, ask, attempt, ◌>>=◌, ◌>>◌}
use aerospike_operator.Api.{
  Kube, AerospikeCluster, ApiError, BackupStorageSpec, get_secret, get_secret_key,
  get_secret_namespace,
}
use aerospike_operator.Api.Backup.{BackupRestoreObject}
use aerospike_operator.Pods.Platform.{Platform}
use aerospike_operator.Pods.Status.{text_at}
use aerospike_operator.Pods.Api.{PodError, panic, unsupported_storage, from_api, from_client}
use aerospike_operator.Pods.Durations.{parse_duration}
use aerospike_operator.Cloud.Gcs.{
  Cloud, delete_object, get_metadata_object_name, get_backup_object_name,
}

-- What is asked to be deleted: an object of a bucket, or the resource of a backup.
pub data Removal : Type 0 where
  remove_object : Text → Text → Removal
  remove_backup : BackupRestoreObject → Removal

abbrev pub Remove : Type 0 → Type 0 → Type 0
Remove S A = Action S Removal PodError A

-- The calls of the API. `created` is the creation time of an object, `client` the client for
-- credentials.
pub record BackupApi (p : Platform) (S : Type 0) : Type 0 where
  pub get_cluster : Text → Text → S → Result ApiError (AerospikeCluster p.kube) × S
  pub secret_data : Text → Text → S → Result ApiError (List (Text × Text)) × S
  pub client : Text → S → Result Text (Unit {0}) × S
  pub delete_backup : Text → Text → S → Result ApiError (Unit {0}) × S
  pub now : S → ℤ × S
  pub created : BackupRestoreObject → ℤ

abbrev pub storage_type_gcs : Text
storage_type_gcs = codes "gcs"

module _ {k : Kube} where
  -- The TTL of the backup, or else that of its cluster.
  unfoldable pub effective_ttl : BackupRestoreObject → AerospikeCluster k → Option Text
  effective_ttl obj cluster = elim obj.spec.ttl [
    | some ttl ↦ some ttl.value
    | none ↦ elim cluster.spec.backup_spec [ some b ↦ b.ttl | none ↦ none ]
  ]

  -- The backup spec of the cluster is dereferenced without a test.
  unfoldable pub storage_of :
      BackupRestoreObject → AerospikeCluster k → Result PodError BackupStorageSpec
  storage_of obj cluster = elim obj.spec.storage [
    | some storage ↦ ok storage
    | none ↦ elim cluster.spec.backup_spec [ some b ↦ ok b.storage | none ↦ err panic ]
  ]

module _ {p : Platform} {S : Type 0} (api : BackupApi p S) (cloud : Cloud S) where
  abbrev pub erase : Text → Text → Remove S (Unit {0})
  erase bucket object s =
      let (answer, (steps, t)) = delete_object cloud bucket object s in
      (from_client answer, (remove_object bucket object ∷ [], t))

  abbrev pub erase_both : BackupRestoreObject → BackupStorageSpec → Remove S (Unit {0})
  erase_both obj storage = do
    erase storage.bucket (get_metadata_object_name obj.name)
    erase storage.bucket (get_backup_object_name obj.name)

  abbrev pub erase_with :
      BackupRestoreObject → BackupStorageSpec → Result Text (Unit {0}) → Remove S (Unit {0})
  erase_with obj storage client = lift (from_client client) >> erase_both obj storage

  abbrev pub erase_as :
      BackupRestoreObject → BackupStorageSpec → List (Text × Text) → Remove S (Unit {0})
  erase_as obj storage entries =
      ask (api.client (text_at (get_secret_key storage) entries)) >>= erase_with obj storage

  unfoldable pub delete_backup_data_gcs :
      BackupRestoreObject → BackupStorageSpec → Remove S (Unit {0})
  delete_backup_data_gcs obj storage = do
    secret ← ask (api.secret_data (get_secret_namespace storage obj.namespace) (get_secret storage))
    lift (from_api secret) >>= erase_as obj storage

  abbrev pub delete_resource : BackupRestoreObject → Remove S (Unit {0})
  delete_resource obj s =
      let (answer, t) = api.delete_backup obj.namespace obj.name s in
      (from_api answer, (remove_backup obj ∷ [], t))

  -- The error of the removal of the data is logged and dropped.
  abbrev pub remove_all : BackupRestoreObject → BackupStorageSpec → Remove S (Unit {0})
  remove_all obj storage = do
    outcome ← attempt (delete_backup_data_gcs obj storage)
    delete_resource obj

  unfoldable pub remove_expired :
      BackupRestoreObject → AerospikeCluster p.kube → Remove S (Unit {0})
  remove_expired obj cluster = do
    storage ← lift (storage_of obj cluster)
    if text_eq storage.type storage_type_gcs
        then remove_all obj storage
        else raise (unsupported_storage storage.type)

  abbrev pub when_after :
      BackupRestoreObject → AerospikeCluster p.kube → ℤ → ℤ → Remove S (Unit {0})
  when_after obj cluster deadline now =
      if ltb_ℤ deadline now then remove_expired obj cluster else pure tt

  unfoldable pub expire : BackupRestoreObject → AerospikeCluster p.kube → ℤ → Remove S (Unit {0})
  expire obj cluster expiration =
      if eqb_ℤ expiration (pos 0)
      then pure tt
      else ask api.now >>= when_after obj cluster (api.created obj +ℤ expiration)

  unfoldable pub handle_ttl :
      BackupRestoreObject → AerospikeCluster p.kube → Option Text → Remove S (Unit {0})
  handle_ttl obj cluster none = pure tt
  handle_ttl obj cluster (some ttl) = do
    expiration ← lift (parse_duration p ttl)
    expire obj cluster expiration

  unfoldable pub handle_backup : BackupRestoreObject → Remove S (Unit {0})
  handle_backup obj = do
    answer ← ask (api.get_cluster obj.namespace obj.spec.target.cluster)
    cluster ← lift (from_api answer)
    handle_ttl obj cluster (effective_ttl obj cluster)
