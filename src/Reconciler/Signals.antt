-- ===== src/Reconciler/Signals.antt =====
-- pkg/reconciler/upgrades.go: the signals of a backup and of an upgrade. Each appends a condition,
-- most change the annotation, then the resource is patched and an event recorded. What a signal makes
-- of the cluster is a definition of its own, since the code goes on with the changed cluster also
-- where the patch failed.
use aerospike_operator.Run.{emit, ◌>>◌}
use aerospike_operator.Api.{
  Kube, AerospikeCluster, auto_backup_started, auto_backup_finished, auto_backup_failed,
  upgrade_started, upgrade_finished, upgrade_failed,
}
use aerospike_operator.Reconciler.Types.{
  Reason, cluster_auto_backup_started, cluster_auto_backup_finished, cluster_auto_backup_failed,
  cluster_upgrade_started, cluster_upgrade_finished, cluster_upgrade_failed, event, Reconcile,
  Server,
}
use aerospike_operator.Reconciler.Status.{
  append_condition, set_annotation, remove_annotation, upgrade_status_annotation_key, started_value,
  failed_value, backup_value, patch_cluster,
}

module _ {k : Kube} where
  unfoldable pub after_backup_started : AerospikeCluster k → AerospikeCluster k
  after_backup_started cluster =
      set_annotation (append_condition cluster auto_backup_started) upgrade_status_annotation_key
        backup_value

  unfoldable pub after_backup_finished : AerospikeCluster k → AerospikeCluster k
  after_backup_finished cluster = append_condition cluster auto_backup_finished

  unfoldable pub after_backup_failed : AerospikeCluster k → AerospikeCluster k
  after_backup_failed cluster = append_condition cluster auto_backup_failed

  unfoldable pub after_upgrade_started : AerospikeCluster k → AerospikeCluster k
  after_upgrade_started cluster =
      set_annotation (append_condition cluster upgrade_started) upgrade_status_annotation_key
        started_value

  unfoldable pub after_upgrade_failed : AerospikeCluster k → AerospikeCluster k
  after_upgrade_failed cluster =
      set_annotation (append_condition cluster upgrade_failed) upgrade_status_annotation_key
        failed_value

  unfoldable pub after_upgrade_finished : AerospikeCluster k → AerospikeCluster k
  after_upgrade_finished cluster =
      remove_annotation (append_condition cluster upgrade_finished) upgrade_status_annotation_key

  module _ (server : Server k) where
    unfoldable pub signal :
        Reason → AerospikeCluster k → AerospikeCluster k → Reconcile k (Unit {0})
    signal reason old new = do patch_cluster server old new; emit (event reason)

    abbrev pub signal_backup_started : AerospikeCluster k → Reconcile k (Unit {0})
    signal_backup_started cluster =
        signal cluster_auto_backup_started cluster (after_backup_started cluster)

    abbrev pub signal_backup_finished : AerospikeCluster k → Reconcile k (Unit {0})
    signal_backup_finished cluster =
        signal cluster_auto_backup_finished cluster (after_backup_finished cluster)

    abbrev pub signal_backup_failed : AerospikeCluster k → Reconcile k (Unit {0})
    signal_backup_failed cluster =
        signal cluster_auto_backup_failed cluster (after_backup_failed cluster)

    abbrev pub signal_upgrade_started : AerospikeCluster k → Reconcile k (Unit {0})
    signal_upgrade_started cluster =
        signal cluster_upgrade_started cluster (after_upgrade_started cluster)

    abbrev pub signal_upgrade_failed : AerospikeCluster k → Reconcile k (Unit {0})
    signal_upgrade_failed cluster =
        signal cluster_upgrade_failed cluster (after_upgrade_failed cluster)

    abbrev pub signal_upgrade_finished : AerospikeCluster k → Reconcile k (Unit {0})
    signal_upgrade_finished cluster =
        signal cluster_upgrade_finished cluster (after_upgrade_finished cluster)
