-- ===== src/Pods/SafeEnsure.antt =====
-- The code of pkg/reconciler that brings the pods of a cluster to its spec deletes pods safely.
use aerospike_operator.Pods.Ensure.{
  wanted, count_running, version_in, replace_pod, maybe_upgrade_pod_with_index, surplus,
  restart_pod, watch_cluster_size, safe_restart_pod_with_index,
  get_aerospike_server_version_from_pod, ensure_cluster_size, ensure_pod, upgrade_pod, ensure_pods,
  upgrade_found, fail_upgrade, create_missing, ensure_found, update_pod,
}
use aerospike_operator.Pods.Ensure.{wanted}
use aerospike_operator.Pods.Wanted.{rules_of, Fits, Suits}
use aerospike_operator.Pods.Platform.{Claim}
use aerospike_operator.Pods.Api.{create_pod, create_claim}
use aerospike_operator.Pods.Trace.{Safe-creates, Safe-claims}
use aerospike_operator.Prelude.{
  inl, Option, none, some, [], codes, text_eq, Occurs, ℤ, pos, ltb_ℤ, ℕ, zero, suc, length,
}
use aerospike_operator.Action.{pure, emit, ask, for_each}
use aerospike_operator.Api.{AerospikeCluster}
use aerospike_operator.Versioning.Upgrade.{VersionUpgrade}
use aerospike_operator.Reconciler.Types.{ConfigMap}
use aerospike_operator.Pods.Platform.{Platform, Pod}
use aerospike_operator.Pods.Status.{pod_index, text_at, is_pod_in_failure_state}
use aerospike_operator.Pods.Api.{
  Api, event, node_upgrade_started, node_upgrade_failed, node_upgrade_finished,
  incorrect_cluster_size, failed_to_upgrade, read, query,
}
use aerospike_operator.Pods.Spec.{hash_of, config_map_hash_annotation}
use aerospike_operator.Pods.Delete.{
  list_cluster_pods, get_pod_with_index, run_info_command_on_pod, remove,
  safe_delete_pod_with_index,
}
use aerospike_operator.Pods.Create.{create_pod_with_index}
use aerospike_operator.Pods.Trace.{
  Rules, Safe, Leads, Steady, Leads-pure, Leads-raise, Leads-if, Leads-test, Steady->>=,
  Steady-for_each,
}
use aerospike_operator.Pods.Safety.{
  read-Steady, query-Steady, ask-Steady, lift-Steady, event-Steady, remove-Leads,
  list_cluster_pods-Steady, get_pod_with_index-Steady, run_info_command_on_pod-Steady,
  safe_delete_pod_with_index-Steady,
}
use aerospike_operator.Pods.SafeCreate.{create_pod_with_index-Steady}
use aerospike_operator.Prelude.Dict.{lookup}

module _ {p : Platform} {S : Type 0} (R : Rules p) (api : Api p S) where
  version-Steady : (pod : Pod p) → Steady R [] (get_aerospike_server_version_from_pod api pod)
  unfolding get_aerospike_server_version_from_pod
  version-Steady pod =
      Steady->>= R [] (run_info_command_on_pod api pod (codes "build")) _
        (run_info_command_on_pod-Steady R api [] pod (codes "build"))
        (λ answer. lift-Steady R api [] (version_in (lookup (codes "build") answer)))

  module _ (cluster : AerospikeCluster p.kube) where
    watch_cluster_size-Steady :
        (pod : Pod p) (n : ℕ) → Steady R [] (watch_cluster_size api cluster pod n)
    unfolding watch_cluster_size
    watch_cluster_size-Steady pod zero =
        Steady->>= R [] (safe_delete_pod_with_index api cluster (pod_index pod)) _
          (safe_delete_pod_with_index-Steady R api cluster (pod_index pod))
          (λ _. Leads-raise R S [] (λ _. []) incorrect_cluster_size)
    watch_cluster_size-Steady pod (suc n) =
        Steady->>= R [] (read (api.list_pods cluster.namespace cluster.name)) _
          (read-Steady R api [] (api.list_pods cluster.namespace cluster.name))
          (λ pods.
            Steady->>= R [] (query (api.cluster_size pod)) _
              (query-Steady R api [] (api.cluster_size pod))
              (λ size.
                Leads-if R [] (λ _. []) (ltb_ℤ size (pos (count_running pods)))
                  (watch_cluster_size api cluster pod n) (pure tt) (watch_cluster_size-Steady pod n)
                  (Leads-pure R S [] tt)))

    ensure_cluster_size-Steady : (pod : Pod p) → Steady R [] (ensure_cluster_size api cluster pod)
    unfolding ensure_cluster_size
    ensure_cluster_size-Steady pod =
        Steady->>= R [] (ask api.ticks) _ (ask-Steady R api [] api.ticks)
          (watch_cluster_size-Steady pod)

module _ {p : Platform} {S : Type 0} (cluster : AerospikeCluster p.kube) (config_map : ConfigMap)
    (api : Api p S) where
  abbrev R : Rules p
  R = rules_of cluster config_map

  module _ (index : ℤ) (within : Occurs index (wanted cluster.spec.node_count)) where
    restart-Steady :
        (upgrade : Option VersionUpgrade)
        → Steady R [] (safe_restart_pod_with_index api cluster config_map index upgrade)
    unfolding safe_restart_pod_with_index
    restart-Steady upgrade =
        Steady->>= R [] (safe_delete_pod_with_index api cluster index) _
          (safe_delete_pod_with_index-Steady R api cluster index)
          (λ _. create_pod_with_index-Steady cluster config_map api index within upgrade)

    fail_upgrade-Steady : (pod : Pod p) → Steady R [] (fail_upgrade api pod)
    fail_upgrade-Steady pod =
        Steady->>= R [] (emit (event node_upgrade_failed)) _
          (event-Steady R api [] node_upgrade_failed)
          (λ _. Leads-raise R S [] (λ _. []) (failed_to_upgrade pod.name))

    upgrade_pod-Steady :
        (upgrade : VersionUpgrade) → Steady R [] (upgrade_pod api cluster config_map index upgrade)
    unfolding upgrade_pod
    upgrade_pod-Steady upgrade =
        Steady->>= R [] (emit (event node_upgrade_started)) _
          (event-Steady R api [] node_upgrade_started)
          (λ _.
            Steady->>= R []
              (safe_restart_pod_with_index api cluster config_map index (some upgrade)) _
              (restart-Steady (some upgrade))
              (λ pod.
                Steady->>= R [] (get_aerospike_server_version_from_pod api pod) _
                  (version-Steady R api pod)
                  (λ version.
                    Leads-if R [] (λ _. []) (text_eq version cluster.spec.version)
                      (emit (event node_upgrade_finished)) (fail_upgrade api pod)
                      (event-Steady R api [] node_upgrade_finished) (fail_upgrade-Steady pod))))

    upgrade_found-Steady :
        (upgrade : VersionUpgrade) (found : Option (Pod p))
        → Steady R [] (upgrade_found api cluster config_map index upgrade found)
    unfolding upgrade_found
    upgrade_found-Steady upgrade none = Leads-pure R S [] tt
    upgrade_found-Steady upgrade (some pod) =
        Steady->>= R [] (get_aerospike_server_version_from_pod api pod) _ (version-Steady R api pod)
          (λ version.
            Leads-if R [] (λ _. []) (text_eq version cluster.spec.version) (pure tt)
              (upgrade_pod api cluster config_map index upgrade) (Leads-pure R S [] tt)
              (upgrade_pod-Steady upgrade))

    create_missing-Steady : Steady R [] (create_missing api cluster config_map index)
    unfolding create_missing
    create_missing-Steady =
        Steady->>= R [] (create_pod_with_index api cluster config_map index none) _
          (create_pod_with_index-Steady cluster config_map api index within none)
          (λ pod. Leads-pure R S [] tt)

    restart_pod-Steady : Steady R [] (restart_pod api cluster config_map index)
    restart_pod-Steady =
        Steady->>= R [] (safe_restart_pod_with_index api cluster config_map index none) _
          (restart-Steady none) (λ pod. Leads-pure R S [] tt)

    update_pod-Steady :
        (upgrade : Option VersionUpgrade) (pod : Pod p)
        → Steady R [] (update_pod api cluster config_map index upgrade pod)
    unfolding update_pod maybe_upgrade_pod_with_index
    update_pod-Steady (some upgrade) pod =
        Steady->>= R [] (get_pod_with_index api cluster index) _
          (get_pod_with_index-Steady R api [] cluster index) (upgrade_found-Steady upgrade)
    update_pod-Steady none pod =
        Leads-if R [] (λ _. [])
          (text_eq (hash_of config_map) (text_at config_map_hash_annotation pod.annotations))
          (ensure_cluster_size api cluster pod) (restart_pod api cluster config_map index)
          (ensure_cluster_size-Steady R api cluster pod) restart_pod-Steady

    ensure_found-Steady :
        (upgrade : Option VersionUpgrade) (found : Option (Pod p))
        → Steady R [] (ensure_found api cluster config_map upgrade index found)
    unfolding ensure_found
    ensure_found-Steady upgrade none = create_missing-Steady
    ensure_found-Steady upgrade (some pod) =
        Leads-test R [] (λ _. []) (is_pod_in_failure_state pod)
          (replace_pod api cluster config_map index pod)
          (update_pod api cluster config_map index upgrade pod)
          (λ failed.
            Steady->>= R [] (remove api pod) _ (remove-Leads R api [] pod (inl failed))
              (λ _. create_missing-Steady))
          (update_pod-Steady upgrade pod)

    ensure_pod-Steady :
        (upgrade : Option VersionUpgrade)
        → Steady R [] (ensure_pod api cluster config_map upgrade index)
    unfolding ensure_pod
    ensure_pod-Steady upgrade =
        Steady->>= R [] (get_pod_with_index api cluster index) _
          (get_pod_with_index-Steady R api [] cluster index) (ensure_found-Steady upgrade)

  ensure_pods-Steady :
      (upgrade : Option VersionUpgrade) → Steady R [] (ensure_pods api cluster config_map upgrade)
  unfolding ensure_pods
  ensure_pods-Steady upgrade =
      Steady->>= R [] (list_cluster_pods api cluster) _ (list_cluster_pods-Steady R api [] cluster)
        (λ pods.
          Steady->>= R []
            (for_each (surplus (length pods) cluster.spec.node_count)
              (safe_delete_pod_with_index api cluster))
            _
            (Steady-for_each R [] (surplus (length pods) cluster.spec.node_count)
              (safe_delete_pod_with_index api cluster)
              (λ index _. safe_delete_pod_with_index-Steady R api cluster index))
            (λ _.
              Steady-for_each R [] (wanted cluster.spec.node_count)
                (ensure_pod api cluster config_map upgrade)
                (λ index within. ensure_pod-Steady index within upgrade)))

  -- In every run of ensurePods, a pod is deleted only if it is in a failure state, or if since the
  -- last creation or deletion of a pod it was seen to take part in no migrations or to have
  -- finished them. Pods and claims are created only for the indices below the node count, as Fits and
  -- Suits say.
  pub ensure_pods-Safe :
      (upgrade : Option VersionUpgrade) (s : S)
      → Safe (rules_of cluster config_map) [] (ensure_pods api cluster config_map upgrade s).1.0
  unfolding Leads
  ensure_pods-Safe upgrade s = (ensure_pods-Steady upgrade s).0

  -- Every pod that a run of ensurePods asks to be created is for an index below the node count, has the
  -- name of that index, the labels of the cluster, the hash of the config map and the image of the
  -- version in the cluster's spec. Its volumes are the config map, an empty directory and, for each
  -- namespace in order, the volume of a claim. For each namespace it has a device at the path of the
  -- namespace's position, or a mount below the data directory, as the storage type says.
  pub ensure_pods-creates :
      (upgrade : Option VersionUpgrade) (s : S) (pod : Pod p)
      → Occurs (create_pod pod) (ensure_pods api cluster config_map upgrade s).1.0
      → Fits cluster config_map pod
  ensure_pods-creates upgrade s pod o =
      Safe-creates (rules_of cluster config_map) pod []
        (ensure_pods api cluster config_map upgrade s).1.0 (ensure_pods-Safe upgrade s) o

  -- Every volume claim that a run of ensurePods asks to be created is for the pod of an index below the
  -- node count and a namespace of the cluster: it stands in the namespace of the cluster, its name is
  -- generated from the pod and the namespace, its labels name the cluster and the namespace, its
  -- annotation the pod, so that it belongs to that pod, and it has the TTL (0d if none is asked for), the
  -- parsed size, the volume mode and the storage class of the namespace's storage.
  pub ensure_pods-claims :
      (upgrade : Option VersionUpgrade) (s : S) (claim : Claim p)
      → Occurs (create_claim claim) (ensure_pods api cluster config_map upgrade s).1.0
      → Suits cluster config_map claim
  ensure_pods-claims upgrade s claim o =
      Safe-claims (rules_of cluster config_map) claim []
        (ensure_pods api cluster config_map upgrade s).1.0 (ensure_pods-Safe upgrade s) o
