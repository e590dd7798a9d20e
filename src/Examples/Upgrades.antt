-- ===== src/Examples/Upgrades.antt =====
-- Reconciliations of pkg/reconciler/cluster.go on a concrete cluster that is upgraded.
use aerospike_operator.Prelude.{
  ◌≡◌, refl, true, none, some, List, [], ◌∷◌, Text, codes, ok, err, pos, Occurs, All,
}
use aerospike_operator.Api.{
  AerospikeCluster, AerospikeClusterBackupSpec, ConditionType, condition_true, backup_finished,
  backup_failed,
}
use aerospike_operator.Api.Backup.{BackupRestoreObject}
use aerospike_operator.Versioning.Upgrade.{VersionUpgrade}
use aerospike_operator.Reconciler.Types.{patch, Server, Parts, cluster_backup_failed}
use aerospike_operator.Reconciler.Status.{
  upgrade_status, upgrade_status_annotation_key, backup_value,
}
use aerospike_operator.Reconciler.Backups.{namespace_backup, is_cluster_backup_finished}
use aerospike_operator.Reconciler.Signals.{
  signal_backup_started, after_backup_started, after_backup_failed, after_upgrade_failed,
}
use aerospike_operator.Reconciler.Cluster.{
  maybe_reconcile, get_upgrade, ensure_parts, fail_upgrade, running,
}
use aerospike_operator.Reconciler.Starts.{starts_pods}
use aerospike_operator.Reconciler.Cleared.{IsCleared, maybe_reconcile-IsCleared}
use aerospike_operator.Reconciler.Upgrades.{maybe_reconcile-failed}
use aerospike_operator.Reconciler.Awaited.{IsDone, maybe_reconcile-awaits}
use aerospike_operator.Reconciler.Finish.{upgraded, ensure_parts-upgraded}
use aerospike_operator.Examples.Clusters.{plain, small}

abbrev pub gcs : AerospikeClusterBackupSpec
gcs = record {
  ttl = none;
  storage = record {
    type = codes "gcs";
    bucket = codes "bucket";
    secret = codes "secret";
    secret_namespace = none;
    secret_key = none;
  };
}

-- From 4.1.0.1 to 4.2.0.3.
abbrev upgrading : List (Text × Text) → AerospikeCluster plain
upgrading annotations = record small {
  annotations = annotations;
  spec = record small.spec { backup_spec = some gcs };
  status = record small.status { spec = record small.spec { version = codes "4.1.0.1" } };
}

abbrev pub before : AerospikeCluster plain
before = upgrading []

abbrev waiting : AerospikeCluster plain
waiting = upgrading ((upgrade_status_annotation_key, backup_value) ∷ [])

abbrev upgrade : VersionUpgrade
upgrade = record {
  source = record { major = pos 4; minor = pos 1; patch = pos 0; revision = pos 1 };
  target = record { major = pos 4; minor = pos 2; patch = pos 0; revision = pos 3 };
}

abbrev backup_with : ConditionType → BackupRestoreObject
backup_with type = record (namespace_backup before gcs (codes "as-ns")) {
  status = record {
    spec = record { target = record { cluster = []; namespace = [] }; storage = none; ttl = none };
    conditions = record { type = type; status = condition_true } ∷ [];
  };
}

-- Every request succeeds, and each backup has one condition.
abbrev server_with : ConditionType → Server plain
server_with type = record {
  patch_answer = λ old new. ok new;
  update_status_answer = λ c. ok tt;
  create_backup_answer = λ o. ok tt;
  get_backup = λ namespace name. ok (backup_with type);
  get_storage_class = λ name. ok tt;
}

abbrev parts : Parts plain
parts = record {
  ensure_service = λ c. ok tt;
  ensure_config_map = λ c. ok (record { name = codes "config"; hash = none; config = none });
  ensure_network_policy = λ c. ok tt;
  ensure_pods = λ c m u. ok tt;
}

pods_started : starts_pods (maybe_reconcile (server_with backup_finished) parts waiting).1 ≡ true
unfolding running starts_pods
pods_started = refl

maybe_reconcile-IsCleared_example : IsCleared (server_with backup_finished) waiting
maybe_reconcile-IsCleared_example =
    maybe_reconcile-IsCleared (server_with backup_finished) waiting parts pods_started

is_upgrade : get_upgrade before ≡ ok (some upgrade)
unfolding running
is_upgrade = refl

waiting_is_upgrade : get_upgrade waiting ≡ ok (some upgrade)
unfolding running
waiting_is_upgrade = refl

not_annotated : upgrade_status before ≡ none
unfolding running
not_annotated = refl

annotated : upgrade_status waiting ≡ some backup_value
unfolding running
annotated = refl

signalled : (signal_backup_started (server_with backup_finished) before).0 ≡ ok tt
unfolding running
signalled = refl

backups_answered :
    All
      (IsDone (server_with backup_finished))
      (maybe_reconcile (server_with backup_finished) parts before).1
unfolding running
backups_answered = (tt, (tt, ((_, refl, refl), tt)))

maybe_reconcile-awaits_example :
    is_cluster_backup_finished (server_with backup_finished) (after_backup_started before) ≡ ok true
maybe_reconcile-awaits_example =
    maybe_reconcile-awaits (server_with backup_finished) (server_with backup_finished) parts before
      upgrade gcs not_annotated is_upgrade refl (λ o. refl) signalled backups_answered

backups_failed :
    is_cluster_backup_finished (server_with backup_failed) waiting ≡ err cluster_backup_failed
unfolding running
backups_failed = refl

maybe_reconcile-failed_example :
    (maybe_reconcile (server_with backup_failed) parts waiting
      ≡ (err cluster_backup_failed, (fail_upgrade (server_with backup_failed) waiting).1))
    × Occurs
        (patch (after_upgrade_failed (after_backup_failed waiting)))
        (fail_upgrade (server_with backup_failed) waiting).1
    × (maybe_reconcile
          (server_with backup_failed)
          parts
          (after_upgrade_failed (after_backup_failed waiting))
        ≡ (ok tt, []))
maybe_reconcile-failed_example =
    maybe_reconcile-failed (server_with backup_failed) parts waiting upgrade annotated
      waiting_is_upgrade backups_failed

parts_succeed : (ensure_parts (server_with backup_finished) parts waiting (some upgrade)).0 ≡ ok tt
unfolding running
parts_succeed = refl

ensure_parts-upgraded_example :
    Occurs
      (patch (upgraded waiting))
      (ensure_parts (server_with backup_finished) parts waiting (some upgrade)).1
    × ((upgraded waiting).status.spec.version ≡ waiting.spec.version)
    × (upgrade_status (upgraded waiting) ≡ none)
    × (get_upgrade (upgraded waiting) ≡ ok none)
ensure_parts-upgraded_example =
    ensure_parts-upgraded (server_with backup_finished) parts waiting upgrade parts_succeed
