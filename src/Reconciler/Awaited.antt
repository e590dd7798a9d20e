-- ===== src/Reconciler/Awaited.antt =====
-- The backups that an upgrade waits for in pkg/reconciler/backups.go are those that it has created.
use aerospike_operator.Prelude.{
  ◌≡◌, refl, subst, ap, true, none, some, List, [], ◌∷◌, ◌++◌, Text, ok, All,
}
use aerospike_operator.Api.{
  Kube, AerospikeNamespaceSpec, AerospikeCluster, AerospikeClusterBackupSpec,
}
use aerospike_operator.Api.Backup.{BackupRestoreObject}
use aerospike_operator.Versioning.Upgrade.{VersionUpgrade}
use aerospike_operator.Reconciler.Types.{Effect, create_backup, Server, Parts}
use aerospike_operator.Reconciler.Status.{upgrade_status}
use aerospike_operator.Reconciler.Backups.{
  backup_name_of, namespace_backup, is_finished, is_backup_completed, all_backups_completed,
  is_cluster_backup_finished,
}
use aerospike_operator.Reconciler.Signals.{signal_backup_started, after_backup_started}
use aerospike_operator.Reconciler.Cluster.{get_upgrade, maybe_reconcile}
use aerospike_operator.Reconciler.Requested.{backup_requests}
use aerospike_operator.Reconciler.Upgrades.{first_reconciliation}

All-append_right : {A : Type 0} (P : A → Type 0) (l m : List A) → All P (l ++ m) → All P m
All-append_right P [] m h = h
All-append_right P (x ∷ l) m (_, h) = All-append_right P l m h

module _ {k : Kube} (later : Server k) where
  -- If the request creates a backup, the lister has an object of its namespace and name, and the
  -- conditions of that object say that it has finished.
  abbrev pub IsDone : Effect k → Type 0
  IsDone (create_backup object) =
      (stored : BackupRestoreObject) × (later.get_backup object.namespace object.name ≡ ok stored)
      × (is_finished stored.status.conditions ≡ ok true)
  IsDone e = Unit

  completed :
      (cluster : AerospikeCluster k) (b : AerospikeClusterBackupSpec) (ns : Text)
      → IsDone (create_backup (namespace_backup cluster b ns))
      → is_backup_completed later cluster ns ≡ ok true
  unfolding is_backup_completed namespace_backup
  completed cluster b ns (stored, found, finished) =
      let same : later.get_backup cluster.namespace (backup_name_of cluster ns) ≡ ok stored =
        found in
      rw (is_backup_completed, same) finished

  backup_requests-IsDone :
      (cluster : AerospikeCluster k) (b : AerospikeClusterBackupSpec)
      (l : List AerospikeNamespaceSpec)
      → All IsDone (backup_requests cluster b l)
      → all_backups_completed later cluster l ≡ ok true
  unfolding all_backups_completed
  backup_requests-IsDone cluster b [] h = refl
  backup_requests-IsDone cluster b (ns ∷ l) (done, h) =
      rw (all_backups_completed, completed cluster b ns.name done)
        (backup_requests-IsDone cluster b l h)

  -- Where the first reconciliation of an upgrade has a storage for backups and its requests succeed, and
  -- later each backup that it asked to be created is there and has finished, a later reconciliation of
  -- the cluster that it signalled finds that the backups are finished.
  pub maybe_reconcile-awaits :
      (server : Server k) (parts : Parts k) (cluster : AerospikeCluster k) (u : VersionUpgrade)
      (b : AerospikeClusterBackupSpec)
      → upgrade_status cluster ≡ none
      → get_upgrade cluster ≡ ok (some u)
      → cluster.spec.backup_spec ≡ some b
      → ((object : BackupRestoreObject) → server.create_backup_answer object ≡ ok tt)
      → (signal_backup_started server cluster).0 ≡ ok tt
      → All IsDone (maybe_reconcile server parts cluster).1
      → is_cluster_backup_finished later (after_backup_started cluster) ≡ ok true
  unfolding is_cluster_backup_finished after_backup_started
  maybe_reconcile-awaits server parts cluster u b none_yet upgrade has_storage all_created signalled
        done =
      let log =
        ap (λ m. m.1)
          (first_reconciliation server parts cluster u b none_yet upgrade has_storage all_created
            signalled) in
      backup_requests-IsDone (after_backup_started cluster) b cluster.spec.namespaces (
        All-append_right IsDone (signal_backup_started server cluster).1 _
          (subst (All IsDone) log done))
