-- ===== src/Admission/Backups.antt =====
-- pkg/admission/backups.go: which backups and restores, and which updates of them, are admitted.
-- `clusters` answers `AerospikeClusters(namespace).Get(name)`; the other arguments are those of
-- the cluster's webhook.
pub mod Valid
use aerospike_operator.Prelude.{
  ◌≡◌, Bool, true, false, not, ◌&&◌, ◌||◌, Option, none, some, List, [], ◌∷◌, Text, text_eq,
  ℕ_discrete, Result, ok, err, ◌>>=◌, ◌>>◌, fail_if, deep_equal, if◌then◌else◌,
}
use aerospike_operator.Api.{
  Kube, AerospikeNamespaceSpec, AerospikeCluster, BackupStorageSpec, ApiError, Secret,
}
use aerospike_operator.Api.Backup.{
  OperationType, backup, restore, Pointer, TargetNamespace, BackupSpec, BackupStatus,
  BackupRestoreObject, get_storage, get_target,
}
use aerospike_operator.Admission.Cluster.{
  AdmissionError, api_error, decode_error, target_namespace_missing, storage_missing,
  status_deleted, spec_changed, Check, validate_secret, AdmissionReview, AdmissionResponse,
  is_update, respond,
}

-- The loop of namespaceExists.
unfoldable pub has_namespace : Text → List AerospikeNamespaceSpec → Bool
has_namespace name [] = false
has_namespace name (ns ∷ rest) = text_eq ns.name name || has_namespace name rest

module _ {k : Kube} where
  unfoldable pub namespace_exists : AerospikeCluster k → BackupRestoreObject → Bool
  unfolding has_namespace
  namespace_exists cluster obj = has_namespace (get_target obj).namespace cluster.spec.namespaces

  -- The storage of the object, or else that of the cluster.
  unfoldable pub effective_storage :
      AerospikeCluster k → BackupRestoreObject → Result AdmissionError BackupStorageSpec
  effective_storage cluster obj = elim (get_storage obj) [
    | some storage ↦ ok storage
    | none ↦ elim cluster.spec.backup_spec [ some b ↦ ok b.storage | none ↦ err storage_missing ]
  ]

  unfoldable pub get_cluster :
      (Text → Text → Result ApiError (AerospikeCluster k))
      → BackupRestoreObject
      → Result AdmissionError (AerospikeCluster k)
  get_cluster clusters obj = elim (clusters obj.namespace (get_target obj).cluster) [
    | ok cluster ↦ ok cluster
    | err e ↦ err (api_error e)
  ]

  unfoldable pub validate_backup_restore_obj :
      (Text → Text → Result ApiError (AerospikeCluster k))
      → (Text → Text → Result ApiError Secret)
      → BackupRestoreObject
      → Check
  validate_backup_restore_obj clusters secrets obj = do
    cluster ← get_cluster clusters obj
    fail_if (not (namespace_exists cluster obj)) target_namespace_missing
    storage ← effective_storage cluster obj
    validate_secret secrets storage obj.namespace

-- What DeepEqual compares of a spec: the text of the TTL, and not where it is stored.
abbrev SpecValue : Type 0
SpecValue = TargetNamespace × Option BackupStorageSpec × Option Text

abbrev pub spec_value : BackupSpec → SpecValue
spec_value spec = (spec.target, spec.storage, elim spec.ttl [ some p ↦ some p.value | none ↦ none ])

unfoldable pub SpecValue-discrete : Discrete SpecValue
unfolding ℕ_discrete
SpecValue-discrete = hlevel ℕ_discrete

-- `reflect.DeepEqual(status, AerospikeNamespaceRestoreStatus{})`, for a status whose conditions are
-- absent or not empty: an empty slice that is not nil, which DeepEqual tells from nil, is not modelled.
unfoldable pub is_empty_status : BackupStatus → Bool
is_empty_status status =
    text_eq status.spec.target.cluster []
    && text_eq status.spec.target.namespace []
    && (elim status.spec.storage [ none ↦ true | some _ ↦ false ])
    && (elim status.conditions [ [] ↦ true | _ ∷ _ ↦ false ])

unfoldable pub status_lost : OperationType → BackupRestoreObject → BackupRestoreObject → Bool
unfolding is_empty_status
status_lost backup old obj = false
status_lost restore old obj = not (is_empty_status old.status) && is_empty_status obj.status

unfoldable pub validate_backup_update :
    OperationType → BackupRestoreObject → BackupRestoreObject → Check
validate_backup_update kind old obj = do
  fail_if (status_lost kind old obj) status_deleted
  fail_if (not (deep_equal SpecValue-discrete (spec_value obj.spec) (spec_value old.spec)))
      spec_changed

abbrev empty_object : OperationType → BackupRestoreObject
empty_object kind =
    let spec : BackupSpec = record {
      target = record { cluster = []; namespace = [] };
      storage = none;
      ttl = none;
    } in
    record {
      kind = kind;
      name = [];
      namespace = [];
      spec = spec;
      status = record { spec = spec; conditions = [] };
    }

module _ (kind : OperationType) (decode : Text → Result Text BackupRestoreObject) where
  unfoldable pub decode_object : Text → Result AdmissionError BackupRestoreObject
  decode_object [] = ok (empty_object kind)
  decode_object (c ∷ raw) = elim (decode (c ∷ raw)) [
    | ok obj ↦ ok obj
    | err e ↦ err (decode_error e)
  ]

  unfoldable pub check_update : AdmissionReview → BackupRestoreObject → Check
  unfolding decode_object
  check_update ar obj =
      if is_update ar.operation
      then (do old ← decode_object ar.old_object; validate_backup_update kind old obj)
      else ok tt

module _ {k : Kube} (kind : OperationType) (decode : Text → Result Text BackupRestoreObject)
    (clusters : Text → Text → Result ApiError (AerospikeCluster k))
    (secrets : Text → Text → Result ApiError Secret) where
  unfoldable pub check_backup_restore : AdmissionReview → Check
  check_backup_restore ar = do
    obj ← decode_object kind decode ar.object
    check_update kind decode ar obj
    validate_backup_restore_obj clusters secrets obj

  -- admitAerospikeNamespaceBackup and admitAerospikeNamespaceRestore.
  unfoldable pub admit_backup_restore : AdmissionReview → AdmissionResponse
  admit_backup_restore ar = respond (check_backup_restore ar)
