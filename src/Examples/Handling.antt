-- ===== src/Examples/Handling.antt =====
-- pkg/backuprestore on a concrete backup, whose job is complete, or not there yet.
use aerospike_operator.Prelude.{
  Occurs, ◌≡◌, refl, true, false, inl, List, [], ◌∷◌, codes, ok, err, All,
}
use aerospike_operator.Api.{
  not_found, ConditionType-discrete, Condition, backup_started, backup_finished, condition_true,
}
use aerospike_operator.Api.Backup.{backup, BackupRestoreObject}
use aerospike_operator.BackupRestore.Types.{update_status, Server, complete}
use aerospike_operator.BackupRestore.Handler.{
  inherited_storage, own_or_inherited_storage, handle, is_failed_or_finished, any_ends, ends,
}
use aerospike_operator.BackupRestore.Conditions.{is, KeepsLifecycle}
use aerospike_operator.BackupRestore.Starts.{handle-KeepsLifecycle, Matches}
use aerospike_operator.BackupRestore.Counts.{starts}
use aerospike_operator.BackupRestore.Handling.{OnlyCleans, handle-OnlyCleans}
use aerospike_operator.Examples.Clusters.{plain}
use aerospike_operator.Examples.Upgrades.{gcs}
use aerospike_operator.BackupRestore.Progress.{handle-ends}
use aerospike_operator.Examples.Backups.{object, clusters, secrets}

abbrev server : Server plain
server = record {
  get_cluster = clusters;
  get_job = λ namespace name. ok (record { type = complete; status = condition_true } ∷ []);
  get_secret = secrets;
  list_secrets = λ o. ok [];
  create_job_answer = λ j. ok tt;
  create_secret_answer = λ s. err not_found;
  delete_secret_answer = λ namespace name. ok tt;
  update_status_answer = λ o. ok tt;
  debug_enabled = false;
  operator_version = codes "0.14.0";
}

abbrev with_conditions : List Condition → BackupRestoreObject
with_conditions l = record object { status = record object.status { conditions = l } }

abbrev started : BackupRestoreObject
started = with_conditions (is backup_started ∷ [])

abbrev finished : BackupRestoreObject
finished = with_conditions (is backup_started ∷ is backup_finished ∷ [])

handle-KeepsLifecycle_example :
    All (KeepsLifecycle backup) (handle server started).1
    × Matches backup (starts backup started.status.conditions) (handle server started).1
handle-KeepsLifecycle_example = handle-KeepsLifecycle server started (inl (refl, tt))

has_finished : is_failed_or_finished finished ≡ true
unfolding is_failed_or_finished any_ends ends ConditionType-discrete
has_finished = refl

handle-OnlyCleans_example : All (OnlyCleans server finished) (handle server finished).1
handle-OnlyCleans_example = handle-OnlyCleans server finished has_finished

not_ended : is_failed_or_finished started ≡ false
unfolding is_failed_or_finished any_ends ends ConditionType-discrete
not_ended = refl

storage_found : own_or_inherited_storage server started ≡ ok gcs.storage
unfolding own_or_inherited_storage inherited_storage
storage_found = refl

handle-ends_example :
    (p : BackupRestoreObject) × Occurs (update_status p) (handle server started).1
    × (p.status.conditions ≡ is backup_started ∷ is backup_finished ∷ [])
    × (is_failed_or_finished p ≡ true)
handle-ends_example =
    handle-ends server started gcs.storage
      (record { type = complete; status = condition_true } ∷ []) complete not_ended storage_found
      refl (inl (refl, refl)) (λ e. absurd (cc))
