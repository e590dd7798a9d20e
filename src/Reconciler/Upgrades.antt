-- ===== src/Reconciler/Upgrades.antt =====
-- The course of an upgrade in MaybeReconcile of pkg/reconciler/cluster.go: its first reconciliation,
-- and a failed backup.
use aerospike_operator.Prelude.{
  ◌≡◌, ◌≢◌, inl, inr, refl, sym, ap, true, false, Option, none, some, List, [], ◌++◌, Text, text_eq,
  text_eq_iff, text_eq_refl, ok, err, Bool-cases, arith, Occurs, ◌∙◌,
}
use mathlib.Core.List.{append-nil}
use aerospike_operator.Prelude.Dict.{lookup-insert_self}
use aerospike_operator.Run.{◌>>=◌}
use aerospike_operator.Api.{Kube, AerospikeCluster, AerospikeClusterBackupSpec}
use aerospike_operator.Api.Backup.{BackupRestoreObject}
use aerospike_operator.Versioning.Upgrade.{VersionUpgrade}
use aerospike_operator.Reconciler.Types.{
  cluster_upgrade_failed, patch, Server, Parts, cluster_backup_failed,
}
use aerospike_operator.Reconciler.Status.{
  upgrade_status, upgrade_status_annotation_key, failed_value, backup_value,
}
use aerospike_operator.Reconciler.Backups.{backup_cluster, is_cluster_backup_finished}
use aerospike_operator.Reconciler.Signals.{
  signal, signal_backup_started, signal_backup_failed, after_backup_started, after_backup_failed,
  after_upgrade_failed,
}
use aerospike_operator.Reconciler.Cluster.{
  continue_with, has_failed, get_upgrade, fail_upgrade, after_check, prepare_upgrade, prepare,
  maybe_reconcile,
}
use aerospike_operator.Reconciler.Requests.{one_more, Occurs-append_right, signal-Occurs}
use aerospike_operator.Reconciler.Requested.{backup_requests, bind-eq, backup_namespaces-requests}

module _ {k : Kube} (server : Server k) where
  backup_not_failed : some backup_value ≢ some failed_value
  backup_not_failed e = ground arith

  after_upgrade_failed-changes : (c : AerospikeCluster k) → c ≢ after_upgrade_failed c
  unfolding after_upgrade_failed
  after_upgrade_failed-changes c e =
      one_more c.status.conditions _ (sym (ap (λ (d : AerospikeCluster k). d.status.conditions) e))

  shows_failed :
      (c : AerospikeCluster k) → upgrade_status (after_upgrade_failed c) ≡ some failed_value
  unfolding after_upgrade_failed
  shows_failed c = lookup-insert_self upgrade_status_annotation_key failed_value c.annotations

  status_failed :
      (c : AerospikeCluster k) → upgrade_status c ≡ some failed_value → has_failed c ≡ true
  unfolding has_failed
  status_failed c e = ground (arith, text_eq_refl failed_value)

  failed_stops :
      (parts : Parts k) (c : AerospikeCluster k)
      → has_failed c ≡ true
      → maybe_reconcile server parts c ≡ (ok tt, [])
  unfolding maybe_reconcile
  failed_stops parts c e = rw e refl

  module _ (parts : Parts k) (cluster : AerospikeCluster k) where
    status_not_failed :
        (status : Option Text)
        → upgrade_status cluster ≡ status
        → status ≢ some failed_value
        → has_failed cluster ≡ false
    unfolding has_failed
    status_not_failed none e n = ground arith
    status_not_failed (some v) e n = elim (Bool-cases (text_eq v failed_value)) [
      | inl t ↦ absurd (n (ap (λ (w : Text). some w) ((text_eq_iff v failed_value).0 t)))
      | inr t ↦ ground arith
    ]

    -- A reconciliation that is part of an upgrade first prepares the upgrade.
    upgrade_begins :
        (u : VersionUpgrade) (status : Option Text)
        → has_failed cluster ≡ false
        → get_upgrade cluster ≡ ok (some u)
        → upgrade_status cluster ≡ status
        → maybe_reconcile server parts cluster
          ≡ (prepare_upgrade server cluster status >>= continue_with server parts (some u))
    unfolding maybe_reconcile prepare
    upgrade_begins u status f g h = rw (f, g, h) refl

    backups_requested :
        (b : AerospikeClusterBackupSpec)
        → cluster.spec.backup_spec ≡ some b
        → ((object : BackupRestoreObject) → server.create_backup_answer object ≡ ok tt)
        → backup_cluster server (after_backup_started cluster)
          ≡ (ok tt, backup_requests (after_backup_started cluster) b cluster.spec.namespaces)
    unfolding backup_cluster after_backup_started
    backups_requested b has_storage all_created =
        backup_namespaces-requests server (after_backup_started cluster) b has_storage all_created
          cluster.spec.namespaces

    prepare_upgrade-requests :
        (b : AerospikeClusterBackupSpec)
        → cluster.spec.backup_spec ≡ some b
        → ((object : BackupRestoreObject) → server.create_backup_answer object ≡ ok tt)
        → (signal_backup_started server cluster).0 ≡ ok tt
        → prepare_upgrade server cluster none ≡ (
          ok none,
          (signal_backup_started server cluster).1
              ++ backup_requests (after_backup_started cluster) b cluster.spec.namespaces,
        )
    unfolding prepare_upgrade
    prepare_upgrade-requests b has_storage all_created signalled =
        bind-eq (signal_backup_started server cluster) _ tt signalled
        ∙ rw
            (
              backups_requested b has_storage all_created,
              append-nil (backup_requests (after_backup_started cluster) b cluster.spec.namespaces),
            )
            refl

    pub first_reconciliation :
        (u : VersionUpgrade) (b : AerospikeClusterBackupSpec)
        → upgrade_status cluster ≡ none
        → get_upgrade cluster ≡ ok (some u)
        → cluster.spec.backup_spec ≡ some b
        → ((object : BackupRestoreObject) → server.create_backup_answer object ≡ ok tt)
        → (signal_backup_started server cluster).0 ≡ ok tt
        → maybe_reconcile server parts cluster ≡ (
          ok tt,
          (signal_backup_started server cluster).1
              ++ backup_requests (after_backup_started cluster) b cluster.spec.namespaces,
        )
    unfolding continue_with signal
    first_reconciliation u b none_yet upgrade has_storage all_created signalled =
        upgrade_begins u none (status_not_failed none none_yet (λ e. cc)) upgrade none_yet
        ∙ rw
            (
              prepare_upgrade-requests b has_storage all_created signalled,
              append-nil (
                  (signal_backup_started server cluster).1
                  ++ backup_requests (after_backup_started cluster) b cluster.spec.namespaces),
            )
            refl

    failed_check :
        is_cluster_backup_finished server cluster ≡ err cluster_backup_failed
        → prepare_upgrade server cluster (some backup_value)
          ≡ (err cluster_backup_failed, (fail_upgrade server cluster).1)
    unfolding prepare_upgrade after_check fail_upgrade
    failed_check failed =
        rw (text_eq_refl backup_value, failed, append-nil (fail_upgrade server cluster).1) refl

    failure_requested :
        Occurs
          (patch (after_upgrade_failed (after_backup_failed cluster)))
          (fail_upgrade server cluster).1
    unfolding fail_upgrade
    failure_requested = Occurs-append_right _ (signal_backup_failed server cluster).1 _ (
        signal-Occurs server cluster_upgrade_failed (after_backup_failed cluster) _
          (after_upgrade_failed-changes (after_backup_failed cluster)))

    -- When a backup for an upgrade has failed, the reconciliation returns that error, starts nothing,
    -- and requests a patch to a cluster whose annotation says that the upgrade has failed. The
    -- reconciliation of that cluster does nothing.
    pub maybe_reconcile-failed :
        (u : VersionUpgrade)
        → upgrade_status cluster ≡ some backup_value
        → get_upgrade cluster ≡ ok (some u)
        → is_cluster_backup_finished server cluster ≡ err cluster_backup_failed
        → (maybe_reconcile server parts cluster
            ≡ (err cluster_backup_failed, (fail_upgrade server cluster).1))
          × Occurs
              (patch (after_upgrade_failed (after_backup_failed cluster)))
              (fail_upgrade server cluster).1
          × (maybe_reconcile server parts (after_upgrade_failed (after_backup_failed cluster))
              ≡ (ok tt, []))
    maybe_reconcile-failed u status upgrade failed = (
      upgrade_begins u (some backup_value)
            (status_not_failed (some backup_value) status backup_not_failed) upgrade status
          ∙ rw (failed_check failed) refl,
      failure_requested,
      failed_stops parts (after_upgrade_failed (after_backup_failed cluster))
          (status_failed _ (shows_failed (after_backup_failed cluster))),
    )
