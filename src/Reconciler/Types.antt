-- ===== src/Reconciler/Types.antt =====
-- What the reconciler of pkg/reconciler asks of Kubernetes, and the errors it returns
-- (pkg/errors/reconciler.go has two of them).
use aerospike_operator.Prelude.{Option, Text, Result}
use aerospike_operator.Run.{Run}
use aerospike_operator.Versioning.Version.{VersionError}
use aerospike_operator.Versioning.Upgrade.{VersionUpgrade}
use aerospike_operator.Api.{Kube, AerospikeCluster, ApiError}
use aerospike_operator.Api.Backup.{BackupRestoreObject}

-- The reasons of the events that the reconciler records (pkg/utils/events/reasons.go).
pub data Reason : Type 0 where
  cluster_auto_backup_started cluster_auto_backup_finished cluster_auto_backup_failed : Reason
  cluster_upgrade_started cluster_upgrade_finished cluster_upgrade_failed : Reason
  validation_error : Reason

-- The parts of a reconciliation that other files define.
pub data Part : Type 0 where
  service config_map network_policy : Part
  pods : Option VersionUpgrade → Part

-- A request to the API, an event, or the start of a part.
pub data Effect (k : Kube) : Type 0 where
  patch : AerospikeCluster k → Effect k
  update_status : AerospikeCluster k → Effect k
  create_backup : BackupRestoreObject → Effect k
  event : Reason → Effect k
  start : Part → Effect k

-- `nil_dereference` is the panic on a nil pointer.
pub data ReconcileError : Type 0 where
  cluster_backup_failed pod_upgrade_failed nil_dereference : ReconcileError
  version_error : VersionError → ReconcileError
  api_error : ApiError → ReconcileError
  failure : Text → ReconcileError

abbrev pub Reconcile : Kube → Type 0 → Type 0
Reconcile k A = Run (Effect k) ReconcileError A

-- The part of corev1.ConfigMap that the reconciler reads.
pub record ConfigMap : Type 0 where
  pub name : Text
  pub hash : Option Text
  pub config : Option Text

-- The answers of the API and of the listers. A patch is given the old and the new object, and
-- answers with the stored one.
pub record Server (k : Kube) : Type 0 where
  pub patch_answer : AerospikeCluster k → AerospikeCluster k → Result ApiError (AerospikeCluster k)
  pub update_status_answer : AerospikeCluster k → Result ApiError (Unit {0})
  pub create_backup_answer : BackupRestoreObject → Result ApiError (Unit {0})
  pub get_backup : Text → Text → Result ApiError BackupRestoreObject
  pub get_storage_class : Text → Result ApiError (Unit {0})

-- The parts of a reconciliation that are given: service.go, configmap.go, networkpolicy.go, pod.go.
-- Their own requests are not listed, only their results.
pub record Parts (k : Kube) : Type 0 where
  pub ensure_service : AerospikeCluster k → Result ReconcileError (Unit {0})
  pub ensure_config_map : AerospikeCluster k → Result ReconcileError ConfigMap
  pub ensure_network_policy : AerospikeCluster k → Result ReconcileError (Unit {0})
  pub ensure_pods :
      AerospikeCluster k → ConfigMap → Option VersionUpgrade → Result ReconcileError (Unit {0})
