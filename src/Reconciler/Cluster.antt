-- ===== src/Reconciler/Cluster.antt =====
-- pkg/reconciler/cluster.go: MaybeReconcile, one reconciliation of a cluster.
use aerospike_operator.Prelude.{
  Bool, true, false, not, ◌&&◌, Option, none, some, [], Text, text_eq, Result, ok, err,
  if◌then◌else◌,
}
use aerospike_operator.Run.{pure, raise, emit, lift, ◌>>=◌, ◌>>◌, on_error, ignore_error}
use aerospike_operator.Prelude.Dict.{lookup, insert, remove}
use aerospike_operator.Versioning.Version
use aerospike_operator.Versioning.Version.{new_version_from_string, Version, VersionError}
use aerospike_operator.Versioning.Upgrade.{VersionUpgrade}
use aerospike_operator.Api.{Kube, AerospikeCluster}
use aerospike_operator.Reconciler.Types.{
  start, service, config_map, network_policy, pods, ConfigMap, Parts, Reconcile, ReconcileError,
  cluster_backup_failed, pod_upgrade_failed, nil_dereference, version_error, Server,
}
use aerospike_operator.Reconciler.Status.{
  sync_status, AerospikeCluster-discrete, AerospikeClusterStatus-discrete, upgrade_status,
  with_spec_status, patch_cluster, failed_value, backup_value,
}
use aerospike_operator.Reconciler.Backups.{
  backup_cluster, backup_namespaces, create_namespace_backup, namespace_backup,
  all_backups_completed, is_backup_completed, is_finished, get_backup_name, without_dots,
  is_cluster_backup_finished,
}
use aerospike_operator.Reconciler.Signals.{
  signal, after_upgrade_failed, after_upgrade_finished, signal_backup_started,
  signal_backup_finished, signal_backup_failed, signal_upgrade_started, signal_upgrade_failed,
  signal_upgrade_finished, after_backup_started, after_backup_finished, after_backup_failed,
  after_upgrade_started,
}
use aerospike_operator.Reconciler.Validation.{
  validate, validate_replication_factor, validate_storage_class,
}

abbrev pub parse_version : Text → Result ReconcileError Version
parse_version s = elim (new_version_from_string s) [ ok v ↦ ok v | err e ↦ err (version_error e) ]

module _ {k : Kube} where
  -- A previous upgrade has failed.
  unfoldable pub has_failed : AerospikeCluster k → Bool
  has_failed cluster = elim (upgrade_status cluster) [
    | none ↦ false
    | some v ↦ text_eq v failed_value
  ]

  -- The upgrade that the reconciliation is part of, if it is.
  unfoldable pub get_upgrade : AerospikeCluster k → Result ReconcileError (Option VersionUpgrade)
  get_upgrade cluster =
      if not (text_eq cluster.status.spec.version [])
        && not (text_eq cluster.spec.version cluster.status.spec.version)
      then elim (parse_version cluster.status.spec.version) [
        | err e ↦ err e
        | ok source ↦ elim (parse_version cluster.spec.version) [
          | err e ↦ err e
          | ok target ↦ ok (some (record { source = source; target = target }))
        ]
      ]
      else ok none

  module _ (server : Server k) where
    -- The signals of a failed backup: errors in signalling are logged, and the second signal starts
    -- from the cluster that the first one changed.
    unfoldable pub fail_upgrade : AerospikeCluster k → Reconcile k (Unit {0})
    fail_upgrade cluster = do
      ignore_error (signal_backup_failed server cluster)
      ignore_error (signal_upgrade_failed server (after_backup_failed cluster))

    -- The backups are finished, and the pods are upgraded next.
    unfoldable pub start_upgrade : AerospikeCluster k → Reconcile k (AerospikeCluster k)
    start_upgrade cluster = do
      signal_backup_finished server cluster
      signal_upgrade_started server (after_backup_finished cluster)
      pure (after_upgrade_started (after_backup_finished cluster))

    -- What follows on the check of the backups. `none` ends the reconciliation.
    unfoldable pub after_check :
        AerospikeCluster k → Result ReconcileError Bool → Reconcile k (Option (AerospikeCluster k))
    after_check cluster (ok true) = do started ← start_upgrade cluster; pure (some started)
    after_check cluster (ok false) = pure none
    after_check cluster (err cluster_backup_failed) = do
      fail_upgrade cluster
      raise cluster_backup_failed
    after_check cluster (err e) = raise e

    -- What an upgrade does before the rest of the reconciliation, by the annotation.
    unfoldable pub prepare_upgrade :
        AerospikeCluster k → Option Text → Reconcile k (Option (AerospikeCluster k))
    prepare_upgrade cluster none = do
      signal_backup_started server cluster
      backup_cluster server (after_backup_started cluster)
      pure none
    prepare_upgrade cluster (some status) =
        let checked = after_check cluster (is_cluster_backup_finished server cluster) in
        if text_eq status backup_value then checked else pure (some cluster)

    unfoldable pub prepare :
        AerospikeCluster k → Option VersionUpgrade → Reconcile k (Option (AerospikeCluster k))
    prepare cluster none = pure (some cluster)
    prepare cluster (some upgrade) = prepare_upgrade cluster (upgrade_status cluster)

    -- The answer to the error of the pods. Signalling reads the versions of the upgrade, which are
    -- behind a nil pointer if there is none.
    unfoldable pub pods_error :
        AerospikeCluster k → Option VersionUpgrade → ReconcileError → Reconcile k (Unit {0})
    pods_error cluster none pod_upgrade_failed = raise nil_dereference
    pods_error cluster (some upgrade) pod_upgrade_failed = do
      ignore_error (signal_upgrade_failed server cluster)
      raise pod_upgrade_failed
    pods_error cluster upgrade e = raise e

    unfoldable pub finish : AerospikeCluster k → Option VersionUpgrade → Reconcile k (Unit {0})
    finish cluster upgrade = do
      patch_cluster server cluster (with_spec_status cluster)
      elim upgrade [
        | none ↦ pure tt
        | some u ↦ signal_upgrade_finished server (with_spec_status cluster)
      ]

    module _ (parts : Parts k) where
      unfoldable pub ensure_pods :
          AerospikeCluster k → ConfigMap → Option VersionUpgrade → Reconcile k (Unit {0})
      ensure_pods cluster config upgrade = do
        emit (start (pods upgrade))
        on_error (lift (parts.ensure_pods cluster config upgrade)) (pods_error cluster upgrade)

      unfoldable pub ensure_parts :
          AerospikeCluster k → Option VersionUpgrade → Reconcile k (Unit {0})
      ensure_parts cluster upgrade = do
        emit (start service)
        lift (parts.ensure_service cluster)
        emit (start config_map)
        config ← lift (parts.ensure_config_map cluster)
        emit (start network_policy)
        lift (parts.ensure_network_policy cluster)
        ensure_pods cluster config upgrade
        finish cluster upgrade

      unfoldable pub reconcile : AerospikeCluster k → Option VersionUpgrade → Reconcile k (Unit {0})
      reconcile cluster upgrade = do
        valid ← validate server cluster
        elim valid [ false ↦ pure tt | true ↦ ensure_parts cluster upgrade ]

      -- The reconciliation goes on with the cluster that is ready, if there is one.
      unfoldable pub continue_with :
          Option VersionUpgrade → Option (AerospikeCluster k) → Reconcile k (Unit {0})
      continue_with upgrade none = pure tt
      continue_with upgrade (some cluster) = reconcile cluster upgrade

      unfoldable pub maybe_reconcile : AerospikeCluster k → Reconcile k (Unit {0})
      maybe_reconcile cluster = if has_failed cluster then pure tt else do
        upgrade ← lift (get_upgrade cluster)
        ready ← prepare cluster upgrade
        continue_with upgrade ready

-- What a test of a whole reconciliation opens.
unfoldable pub running : Unit {0}
unfolding maybe_reconcile continue_with reconcile ensure_parts ensure_pods pods_error finish prepare
    prepare_upgrade after_check start_upgrade fail_upgrade get_upgrade has_failed validate
    validate_replication_factor validate_storage_class signal after_backup_started
    after_backup_finished after_backup_failed after_upgrade_started after_upgrade_failed
    after_upgrade_finished patch_cluster sync_status with_spec_status backup_cluster
    backup_namespaces create_namespace_backup namespace_backup is_cluster_backup_finished
    all_backups_completed is_backup_completed is_finished get_backup_name without_dots
    AerospikeCluster-discrete AerospikeClusterStatus-discrete lookup insert remove Version.running
running = tt
