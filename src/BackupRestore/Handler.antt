-- ===== src/BackupRestore/Handler.antt =====
-- pkg/backuprestore/handler.go and status.go: one call of the handler for a backup or restore.
use aerospike_operator.Prelude.{
  Bool, true, false, ◌&&◌, ◌||◌, Option, none, some, List, [], ◌∷◌, ◌++◌, Result, ok, err,
  if◌then◌else◌, deep_equal,
}
use aerospike_operator.Run.{pure, raise, emit, request, lift, ◌>>=◌, ◌>>◌}
use aerospike_operator.Api.{
  Kube, BackupStorageSpec, Condition, ConditionType, ConditionType-discrete, ConditionStatus,
  condition_true, condition_false, condition_unknown, ApiError, not_found, already_exists,
  other_error, Secret,
}
use aerospike_operator.Api.Backup.{
  BackupRestoreObject, OperationType, get_storage, set_storage, get_target, get_conditions,
  set_conditions, failed_condition_type, finished_condition_type, started_condition_type,
  sync_status_with_spec,
}
use aerospike_operator.BackupRestore.Types.{
  job_created, job_finished, job_failed, JobConditionType, complete, failed, suspended,
  JobCondition, update_status, event, HandlerError, api_error, nil_dereference, Handle, Server,
}
use aerospike_operator.BackupRestore.Job.{api, get_job_name, start_job, get_secret, clear_secrets}

abbrev pub is_true : ConditionStatus → Bool
is_true condition_true = true
is_true condition_false = false
is_true condition_unknown = false

-- A condition that ends an operation of this kind.
unfoldable pub ends : OperationType → Condition → Bool
ends kind c =
    (deep_equal ConditionType-discrete c.type (finished_condition_type kind)
      || deep_equal ConditionType-discrete c.type (failed_condition_type kind))
    && is_true c.status

unfoldable pub any_ends : OperationType → List Condition → Bool
any_ends kind [] = false
any_ends kind (c ∷ rest) = let later = any_ends kind rest in if ends kind c then true else later

unfoldable pub is_failed_or_finished : BackupRestoreObject → Bool
is_failed_or_finished obj = any_ends obj.kind (get_conditions obj)

-- The first condition of a job that says that it is complete or has failed.
unfoldable pub job_outcome : List JobCondition → Option JobConditionType
job_outcome [] = none
job_outcome (c ∷ rest) =
    let later = job_outcome rest in
    if is_true c.status
    then elim c.type [ complete ↦ some complete | failed ↦ some failed | suspended ↦ later ]
    else later

abbrev pub add_condition : BackupRestoreObject → ConditionType → BackupRestoreObject
add_condition obj type =
    set_conditions obj (get_conditions obj ++ record { type = type; status = condition_true } ∷ [])

-- What the outcome of the job makes of the object.
unfoldable pub set_outcome :
    BackupRestoreObject → Option JobConditionType → Handle BackupRestoreObject
set_outcome obj none = pure obj
set_outcome obj (some complete) = do
  emit (event job_finished)
  pure (add_condition obj (finished_condition_type obj.kind))
set_outcome obj (some failed) = do
  emit (event job_failed)
  pure (add_condition obj (failed_condition_type obj.kind))
set_outcome obj (some suspended) = pure obj

unfoldable pub maybe_set_conditions :
    BackupRestoreObject → List JobCondition → Handle BackupRestoreObject
maybe_set_conditions obj job = set_outcome obj (job_outcome job)

module _ {k : Kube} (server : Server k) where
  unfoldable pub update : BackupRestoreObject → Handle (Unit {0})
  update obj = request (update_status obj) (api (server.update_status_answer obj))

  unfoldable pub launch_job :
      BackupRestoreObject → BackupStorageSpec → Secret → Handle BackupRestoreObject
  launch_job obj storage secret = do
    start_job server obj storage secret
    emit (event job_created)
    pure (add_condition obj (started_condition_type obj.kind))

  -- The storage of the cluster, which the object takes over. The cluster's backup spec is not tested.
  unfoldable pub inherited_storage : BackupRestoreObject → Result HandlerError BackupStorageSpec
  inherited_storage obj = elim (api (server.get_cluster obj.namespace (get_target obj).cluster)) [
    | err e ↦ err e
    | ok cluster ↦ elim cluster.spec.backup_spec [
      | some b ↦ ok b.storage
      | none ↦ err nil_dereference
    ]
  ]

  unfoldable pub own_or_inherited_storage :
      BackupRestoreObject → Result HandlerError BackupStorageSpec
  own_or_inherited_storage obj =
      let inherited = inherited_storage obj in
      elim (get_storage obj) [ some storage ↦ ok storage | none ↦ inherited ]

  -- What is done by the answer to the lookup of the job.
  unfoldable pub follow_job :
      BackupRestoreObject
      → BackupStorageSpec
      → Result ApiError (List JobCondition)
      → Handle BackupRestoreObject
  follow_job obj storage (ok job) = maybe_set_conditions obj job
  follow_job obj storage (err not_found) = do
    secret ← get_secret server obj storage
    launch_job obj storage secret
  follow_job obj storage (err already_exists) = raise (api_error already_exists)
  follow_job obj storage (err (other_error e)) = raise (api_error (other_error e))

  -- The handling of an object that has ended.
  unfoldable pub clean_up : BackupRestoreObject × Bool → Handle (Unit {0})
  clean_up (synced, true) = do update synced; clear_secrets server synced
  clean_up (synced, false) = clear_secrets server synced

  unfoldable pub proceed : BackupRestoreObject → BackupStorageSpec → Handle (Unit {0})
  proceed obj storage = do
    followed ← follow_job obj storage (server.get_job obj.namespace (get_job_name obj))
    update (sync_status_with_spec followed).0

  unfoldable pub handle : BackupRestoreObject → Handle (Unit {0})
  handle obj = if is_failed_or_finished obj then clean_up (sync_status_with_spec obj) else do
    storage ← lift (own_or_inherited_storage obj)
    proceed (set_storage obj (some storage)) storage
