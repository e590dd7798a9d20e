-- ===== src/Api/Backup.antt =====
-- pkg/apis/aerospike/v1alpha2/backup.go, restore.go and types.go: backups and restores. One record
-- stands for the two Go types, with the type in `kind`: it is what the interface BackupRestoreObject
-- shows of them. A restore has no TTL, so its `ttl` is `none`.
use aerospike_operator.Prelude.{
  Bool, true, false, ◌||◌, ℕ, ◌==◌, Option, none, some, List, Text, codes, ℕ_discrete, deep_equal,
  if◌then◌else◌,
}
use aerospike_operator.Api.{
  BackupStorageSpec, Condition, ConditionType, backup_failed, backup_finished, backup_started,
  restore_failed, restore_finished, restore_started,
}

pub data OperationType : Type 0 where
  backup restore : OperationType

-- A `*string`: `==` on pointers compares addresses, and DeepEqual what they point to.
pub record Pointer : Type 0 where
  pub address : ℕ
  pub value : Text

pub record TargetNamespace : Type 0 where
  pub cluster : Text
  pub namespace : Text

pub record BackupSpec : Type 0 where
  pub target : TargetNamespace
  pub storage : Option BackupStorageSpec
  pub ttl : Option Pointer

pub record BackupStatus : Type 0 where
  pub spec : BackupSpec
  pub conditions : List Condition

pub record BackupRestoreObject : Type 0 where
  pub kind : OperationType
  pub name : Text
  pub namespace : Text
  pub spec : BackupSpec
  pub status : BackupStatus

abbrev pub get_operation_type : BackupRestoreObject → OperationType
get_operation_type obj = obj.kind

abbrev pub operation_name : OperationType → Text
operation_name backup = codes "backup"
operation_name restore = codes "restore"

abbrev pub get_storage : BackupRestoreObject → Option BackupStorageSpec
get_storage obj = obj.spec.storage

abbrev pub set_storage : BackupRestoreObject → Option BackupStorageSpec → BackupRestoreObject
set_storage obj storage = record obj { spec = record obj.spec { storage = storage } }

abbrev pub get_target : BackupRestoreObject → TargetNamespace
get_target obj = obj.spec.target

abbrev pub get_conditions : BackupRestoreObject → List Condition
get_conditions obj = obj.status.conditions

abbrev pub set_conditions : BackupRestoreObject → List Condition → BackupRestoreObject
set_conditions obj conditions = record obj {
  status = record obj.status { conditions = conditions };
}

abbrev pub failed_condition_type : OperationType → ConditionType
failed_condition_type backup = backup_failed
failed_condition_type restore = restore_failed

abbrev pub finished_condition_type : OperationType → ConditionType
finished_condition_type backup = backup_finished
finished_condition_type restore = restore_finished

abbrev pub started_condition_type : OperationType → ConditionType
started_condition_type backup = backup_started
started_condition_type restore = restore_started

unfoldable pub BackupStorageSpec-discrete : Discrete (Option BackupStorageSpec)
unfolding ℕ_discrete
BackupStorageSpec-discrete = hlevel ℕ_discrete

unfoldable pub TargetNamespace-discrete : Discrete TargetNamespace
unfolding ℕ_discrete
TargetNamespace-discrete = hlevel ℕ_discrete

-- `p == q` on two pointers.
abbrev pub same_pointer : Option Pointer → Option Pointer → Bool
same_pointer (some p) (some q) = p.address == q.address
same_pointer none none = true
same_pointer _ _ = false

unfoldable pub sync_storage : BackupRestoreObject → BackupRestoreObject × Bool
sync_storage obj =
    if deep_equal BackupStorageSpec-discrete obj.status.spec.storage obj.spec.storage
    then (obj, false)
    else (
      record obj {
        status = record obj.status { spec = record obj.status.spec { storage = obj.spec.storage } };
      },
      true,
    )

unfoldable pub sync_target : BackupRestoreObject → BackupRestoreObject × Bool
sync_target obj =
    if deep_equal TargetNamespace-discrete obj.status.spec.target obj.spec.target
    then (obj, false)
    else (
      record obj {
        status = record obj.status { spec = record obj.status.spec { target = obj.spec.target } };
      },
      true,
    )

unfoldable pub sync_ttl : BackupRestoreObject → BackupRestoreObject × Bool
sync_ttl obj = if same_pointer obj.status.spec.ttl obj.spec.ttl then (obj, false) else (
  record obj {
    status = record obj.status { spec = record obj.status.spec { ttl = obj.spec.ttl } };
  },
  true,
)

abbrev pub has_ttl : OperationType → Bool
has_ttl backup = true
has_ttl restore = false

-- SyncStatusWithSpec: the object with its new status, and whether something changed. That of a
-- restore has no third test.
unfoldable pub sync_status_with_spec : BackupRestoreObject → BackupRestoreObject × Bool
unfolding sync_storage sync_target sync_ttl
sync_status_with_spec obj =
    let (with_storage, storage_changed) = sync_storage obj in
    let (with_target, target_changed) = sync_target with_storage in
    let (with_ttl, ttl_changed) = sync_ttl with_target in
    if has_ttl obj.kind
    then (with_ttl, storage_changed || target_changed || ttl_changed)
    else (with_target, storage_changed || target_changed)
