-- ===== src/BackupRestore/Types.antt =====
-- What the handler of pkg/backuprestore asks of Kubernetes.
use aerospike_operator.Prelude.{ℕ, Bool, List, Text, Result}
use aerospike_operator.Run.{Run}
use aerospike_operator.Api.{Kube, AerospikeCluster, ConditionStatus, ApiError, Secret}
use aerospike_operator.Api.Backup.{BackupRestoreObject}

-- The reasons of the events (pkg/utils/events/reasons.go).
pub data JobReason : Type 0 where
  job_created job_finished job_failed : JobReason

-- The conditions of a batch.Job: complete, failed, or any other type.
pub data JobConditionType : Type 0 where
  complete failed suspended : JobConditionType

pub record JobCondition : Type 0 where
  pub type : JobConditionType
  pub status : ConditionStatus

-- The fields of the job that depend on the object.
pub record Job : Type 0 where
  pub name : Text
  pub namespace : Text
  pub cluster_label : Text
  pub namespace_label : Text
  pub image : Text
  pub command : List Text
  pub secret_name : Text
  pub backoff_limit : ℕ

-- The copy of a secret in the namespace of the object.
pub record TempSecret : Type 0 where
  pub namespace : Text
  pub generate_name : Text
  pub label : Text × Text
  pub data_keys : List Text

pub data Effect : Type 0 where
  update_status : BackupRestoreObject → Effect
  create_job : Job → Effect
  create_secret : TempSecret → Effect
  delete_secret : Text → Text → Effect
  event : JobReason → Effect

-- `nil_dereference` is the panic on a nil pointer.
pub data HandlerError : Type 0 where
  api_error : ApiError → HandlerError
  field_missing : Text → HandlerError
  nil_dereference : HandlerError

abbrev pub Handle : Type 0 → Type 0
Handle A = Run Effect HandlerError A

-- The answers of the API and of the listers, and two constants of the build: whether debugging is on,
-- and the version of the operator.
pub record Server (k : Kube) : Type 0 where
  pub get_cluster : Text → Text → Result ApiError (AerospikeCluster k)
  pub get_job : Text → Text → Result ApiError (List JobCondition)
  pub get_secret : Text → Text → Result ApiError Secret
  pub list_secrets : BackupRestoreObject → Result ApiError (List Secret)
  pub create_job_answer : Job → Result ApiError (Unit {0})
  pub create_secret_answer : TempSecret → Result ApiError Secret
  pub delete_secret_answer : Text → Text → Result ApiError (Unit {0})
  pub update_status_answer : BackupRestoreObject → Result ApiError (Unit {0})
  pub debug_enabled : Bool
  pub operator_version : Text
