-- ===== src/Pods/Ensure.antt =====
-- pkg/reconciler/pod.go and upgrades.go: ensurePods, which brings the pods of a cluster to its spec.
use aerospike_operator.Prelude.{
  Option, none, some, List, [], ◌∷◌, ◌++◌, Text, codes, text_eq, Result, ok, err, ℤ, pos, negsuc,
  ltb_ℤ, ℕ, zero, suc, leb, length, if◌then◌else◌,
}
use aerospike_operator.Prelude.Dict.{lookup}
use aerospike_operator.Action.{pure, raise, lift, emit, ask, ◌>>=◌, ◌>>◌, for_each}
use aerospike_operator.Api.{AerospikeCluster}
use aerospike_operator.Versioning.Upgrade.{VersionUpgrade}
use aerospike_operator.Reconciler.Types.{ConfigMap}
use aerospike_operator.Pods.Platform.{Platform, Pod}
use aerospike_operator.Pods.Status.{pod_index, text_at, is_pod_in_failure_state}
use aerospike_operator.Pods.Api.{
  Api, event, node_upgrade_started, node_upgrade_failed, node_upgrade_finished, PodError,
  no_version, failed_to_upgrade, incorrect_cluster_size, PodAction, read, query,
}
use aerospike_operator.Pods.Spec.{hash_of, config_map_hash_annotation}
use aerospike_operator.Pods.Delete.{
  list_cluster_pods, get_pod_with_index, run_info_command_on_pod, remove,
  safe_delete_pod_with_index,
}
use aerospike_operator.Pods.Create.{create_pod_with_index}

-- The indices `current - 1` down to `desired`, for a cluster of `current` pods.
unfoldable pub down_to : ℕ → ℕ → List ℤ
down_to zero desired = []
down_to (suc i) desired = let rest = down_to i desired in if leb desired i then pos i ∷ rest else []

-- The indices -1 down to -n.
unfoldable pub negatives : ℕ → List ℤ
negatives zero = []
negatives (suc n) = negatives n ++ negsuc n ∷ []

unfoldable pub surplus : ℕ → ℤ → List ℤ
surplus current (pos desired) = down_to current desired
surplus current (negsuc n) = down_to current 0 ++ negatives (suc n)

-- The indices from zero up to `desired`, without it.
unfoldable pub up_to : ℕ → List ℤ
up_to zero = []
up_to (suc n) = up_to n ++ pos n ∷ []

abbrev pub wanted : ℤ → List ℤ
wanted (pos desired) = up_to desired
wanted (negsuc n) = []

abbrev pub version_in : Option Text → Result PodError Text
version_in (some version) = ok version
version_in none = err no_version

module _ {p : Platform} where
  unfoldable pub count_running : List (Pod p) → ℕ
  count_running [] = 0
  count_running (pod ∷ rest) =
      let n = count_running rest in if is_pod_in_failure_state pod then n else suc n

  module _ {S : Type 0} (api : Api p S) where
    unfoldable pub get_aerospike_server_version_from_pod : Pod p → PodAction p S Text
    get_aerospike_server_version_from_pod pod = do
      answer ← run_info_command_on_pod api pod (codes "build")
      lift (version_in (lookup (codes "build") answer))

    unfoldable pub safe_restart_pod_with_index :
        AerospikeCluster p.kube → ConfigMap → ℤ → Option VersionUpgrade → PodAction p S (Pod p)
    safe_restart_pod_with_index cluster config_map index upgrade = do
      safe_delete_pod_with_index api cluster index
      create_pod_with_index api cluster config_map index upgrade

    abbrev pub fail_upgrade : Pod p → PodAction p S (Unit {0})
    fail_upgrade pod = do emit (event node_upgrade_failed); raise (failed_to_upgrade pod.name)

    -- The restart of a pod that runs another version, and the test of the version that then runs.
    unfoldable pub upgrade_pod :
        AerospikeCluster p.kube → ConfigMap → ℤ → VersionUpgrade → PodAction p S (Unit {0})
    upgrade_pod cluster config_map index upgrade = do
      emit (event node_upgrade_started)
      new_pod ← safe_restart_pod_with_index cluster config_map index (some upgrade)
      version ← get_aerospike_server_version_from_pod new_pod
      if text_eq version cluster.spec.version
          then emit (event node_upgrade_finished)
          else fail_upgrade new_pod

    unfoldable pub upgrade_found :
        AerospikeCluster p.kube
        → ConfigMap
        → ℤ
        → VersionUpgrade
        → Option (Pod p)
        → PodAction p S (Unit {0})
    upgrade_found cluster config_map index upgrade none = pure tt
    upgrade_found cluster config_map index upgrade (some pod) = do
      version ← get_aerospike_server_version_from_pod pod
      if text_eq version cluster.spec.version
          then pure tt
          else upgrade_pod cluster config_map index upgrade

    unfoldable pub maybe_upgrade_pod_with_index :
        AerospikeCluster p.kube → ConfigMap → ℤ → VersionUpgrade → PodAction p S (Unit {0})
    maybe_upgrade_pod_with_index cluster config_map index upgrade = do
      pod ← get_pod_with_index api cluster index
      upgrade_found cluster config_map index upgrade pod

    -- One round for each tick of the clock before the time is out. In the end the pod is deleted.
    unfoldable pub watch_cluster_size :
        AerospikeCluster p.kube → Pod p → ℕ → PodAction p S (Unit {0})
    watch_cluster_size cluster pod zero = do
      safe_delete_pod_with_index api cluster (pod_index pod)
      raise incorrect_cluster_size
    watch_cluster_size cluster pod (suc n) = do
      pods ← read (api.list_pods cluster.namespace cluster.name)
      size ← query (api.cluster_size pod)
      if ltb_ℤ size (pos (count_running pods)) then watch_cluster_size cluster pod n else pure tt

    unfoldable pub ensure_cluster_size : AerospikeCluster p.kube → Pod p → PodAction p S (Unit {0})
    ensure_cluster_size cluster pod = do n ← ask api.ticks; watch_cluster_size cluster pod n

    unfoldable pub create_missing :
        AerospikeCluster p.kube → ConfigMap → ℤ → PodAction p S (Unit {0})
    create_missing cluster config_map index = do
      pod ← create_pod_with_index api cluster config_map index none
      pure tt

    abbrev pub restart_pod : AerospikeCluster p.kube → ConfigMap → ℤ → PodAction p S (Unit {0})
    restart_pod cluster config_map index = do
      restarted ← safe_restart_pod_with_index cluster config_map index none
      pure tt

    -- A pod that is there and has not failed.
    unfoldable pub update_pod :
        AerospikeCluster p.kube
        → ConfigMap
        → ℤ
        → Option VersionUpgrade
        → Pod p
        → PodAction p S (Unit {0})
    update_pod cluster config_map index (some upgrade) pod =
        maybe_upgrade_pod_with_index cluster config_map index upgrade
    update_pod cluster config_map index none pod =
        if text_eq (hash_of config_map) (text_at config_map_hash_annotation pod.annotations)
        then ensure_cluster_size cluster pod
        else restart_pod cluster config_map index

    abbrev pub replace_pod :
        AerospikeCluster p.kube → ConfigMap → ℤ → Pod p → PodAction p S (Unit {0})
    replace_pod cluster config_map index pod = do
      remove api pod
      create_missing cluster config_map index

    unfoldable pub ensure_found :
        AerospikeCluster p.kube
        → ConfigMap
        → Option VersionUpgrade
        → ℤ
        → Option (Pod p)
        → PodAction p S (Unit {0})
    ensure_found cluster config_map upgrade index none = create_missing cluster config_map index
    ensure_found cluster config_map upgrade index (some pod) =
        if is_pod_in_failure_state pod
        then replace_pod cluster config_map index pod
        else update_pod cluster config_map index upgrade pod

    unfoldable pub ensure_pod :
        AerospikeCluster p.kube → ConfigMap → Option VersionUpgrade → ℤ → PodAction p S (Unit {0})
    ensure_pod cluster config_map upgrade index = do
      pod ← get_pod_with_index api cluster index
      ensure_found cluster config_map upgrade index pod

    unfoldable pub ensure_pods :
        AerospikeCluster p.kube → ConfigMap → Option VersionUpgrade → PodAction p S (Unit {0})
    ensure_pods cluster config_map upgrade = do
      pods ← list_cluster_pods api cluster
      for_each (surplus (length pods) cluster.spec.node_count)
          (safe_delete_pod_with_index api cluster)
      for_each (wanted cluster.spec.node_count) (ensure_pod cluster config_map upgrade)
