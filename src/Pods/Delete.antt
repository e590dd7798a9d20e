-- ===== src/Pods/Delete.antt =====
-- pkg/reconciler/pod.go and podutils.go: how a pod is found, and how it is deleted once its
-- migrations are finished.
use aerospike_operator.Prelude.{
  Bool, true, false, Option, none, some, List, [], ◌∷◌, ◌++◌, Text, codes, Result, ok, err, ℤ,
  if◌then◌else◌,
}
use aerospike_operator.Prelude.Decimal.{print_ℤ}
use aerospike_operator.Action.{pure, raise, lift, emit, ask, ◌>>=◌, ◌>>◌, for_each}
use aerospike_operator.Api.{
  Kube, AerospikeCluster, ApiError, not_found, already_exists, other_error,
}
use aerospike_operator.Pods.Platform.{
  Platform, Pod, Volume, config_map_source, claim_source, empty_dir,
}
use aerospike_operator.Pods.Status.{text_at, equal_fold, less}
use aerospike_operator.Pods.Api.{
  Api, migrations, migrated, delete_pod, info, event, wait_for_migrations_started,
  wait_for_migrations_finished, PodError, api_error, node_not_found, watch_timeout, PodAction, read,
  write, query, WatchEvent, deleted,
}
use aerospike_operator.Pods.Claims.{signal_unmounted}

abbrev pub node_id_annotation : Text
node_id_annotation = codes "aerospike.travelaudience.com/node-id"

abbrev pub heartbeat_port : Text
heartbeat_port = codes "3002"

module _ {k : Kube} where
  unfoldable pub pod_name_at : AerospikeCluster k → ℤ → Text
  pod_name_at cluster index = cluster.name ++ b'-' ∷ print_ℤ index

  -- `<pod name>.<cluster name>.<namespace>`
  unfoldable pub host_of : AerospikeCluster k → Text → Text
  host_of cluster pod_name = pod_name ++ b'.' ∷ (cluster.name ++ b'.' ∷ cluster.namespace)

-- The node of the pod, among the names of the nodes.
unfoldable pub find_node : Text → List Text → Option Text
find_node id [] = none
find_node id (name ∷ rest) =
    let later = find_node id rest in if equal_fold name id then some name else later

abbrev pub found_node : Option Text → Result PodError Text
found_node (some name) = ok name
found_node none = err node_not_found

abbrev pub tip_clear : Text → Text
tip_clear host = codes "tip-clear:host-port-list=" ++ (host ++ b':' ∷ heartbeat_port)

abbrev pub alumni_reset : Text
alumni_reset = codes "services-alumni-reset"

module _ {p : Platform} where
  -- `!errors.IsNotFound(err)`
  abbrev pub found_pod : Result ApiError (Pod p) → Result PodError (Option (Pod p))
  found_pod (ok pod) = ok (some pod)
  found_pod (err not_found) = ok none
  found_pod (err already_exists) = err (api_error already_exists)
  found_pod (err (other_error e)) = err (api_error (other_error e))

  abbrev pub is_deleted : WatchEvent p → Bool
  is_deleted (deleted _) = true
  is_deleted _ = false

  module _ {S : Type 0} (api : Api p S) where
    unfoldable pub list_cluster_pods : AerospikeCluster p.kube → PodAction p S (List (Pod p))
    list_cluster_pods cluster = do
      pods ← read (api.list_pods cluster.namespace cluster.name)
      pure (api.sort_pods less pods)

    unfoldable pub get_pod_with_index : AerospikeCluster p.kube → ℤ → PodAction p S (Option (Pod p))
    get_pod_with_index cluster index = do
      answer ← ask (api.get_pod cluster.namespace (pod_name_at cluster index))
      lift (found_pod answer)

    abbrev pub node_of : Pod p → PodAction p S Text
    node_of pod = do
      names ← query (api.nodes pod)
      lift (found_node (find_node (text_at node_id_annotation pod.annotations) names))

    unfoldable pub pod_has_migrations_in_progress : Pod p → PodAction p S Bool
    pod_has_migrations_in_progress pod = do
      name ← node_of pod
      answer ← query (api.migration_in_progress pod name)
      emit (migrations pod answer)
      pure answer

    unfoldable pub wait_for_migrations_to_finish_on_pod : Pod p → PodAction p S (Unit {0})
    wait_for_migrations_to_finish_on_pod pod = do
      name ← node_of pod
      query (api.wait_until_migrated pod name)
      emit (migrated pod)

    unfoldable pub run_info_command_on_pod : Pod p → Text → PodAction p S (List (Text × Text))
    run_info_command_on_pod pod command = do
      emit (info pod command)
      query (api.request_info pod command)

    -- The error of a command is logged and dropped.
    abbrev pub try_command : Pod p → Text → PodAction p S (Unit {0})
    try_command pod command = do
      emit (info pod command)
      answer ← ask (api.request_info pod command)
      pure tt

    -- What is run on each pod after the deletion of another. The goroutines are run in order.
    unfoldable pub forget_host : Text → Pod p → PodAction p S (Unit {0})
    forget_host host pod = do try_command pod (tip_clear host); try_command pod alumni_reset

    -- The wait for the event of the deletion.
    unfoldable pub wait_for_deletion : List (WatchEvent p) → PodAction p S (Unit {0})
    wait_for_deletion [] = raise watch_timeout
    wait_for_deletion (e ∷ rest) =
        let later = wait_for_deletion rest in if is_deleted e then pure tt else later

    -- The claims of the volumes are marked as unmounted.
    unfoldable pub unmount : Pod p → Volume → PodAction p S (Unit {0})
    unmount pod volume = elim volume.source [
      | claim_source name ↦ do
        claim ← read (api.get_claim pod.namespace name)
        signal_unmounted api claim
      | config_map_source _ ↦ pure tt
      | empty_dir ↦ pure tt
    ]

    unfoldable pub remove : Pod p → PodAction p S (Unit {0})
    remove pod = do
      for_each pod.spec.volumes (unmount pod)
      write (delete_pod pod) (api.remove_pod pod)
      events ← ask (api.watch pod)
      wait_for_deletion events

    -- Feedback on a wait: the events of the ticker are left out.
    unfoldable pub wait_for_migrations : Pod p → Bool → PodAction p S (Unit {0})
    wait_for_migrations pod false = pure tt
    wait_for_migrations pod true = do
      emit (event wait_for_migrations_started)
      wait_for_migrations_to_finish_on_pod pod
      emit (event wait_for_migrations_finished)

    unfoldable pub safe_delete : AerospikeCluster p.kube → Option (Pod p) → PodAction p S (Unit {0})
    safe_delete cluster none = pure tt
    safe_delete cluster (some pod) = do
      in_progress ← pod_has_migrations_in_progress pod
      wait_for_migrations pod in_progress
      remove pod
      pods ← list_cluster_pods cluster
      for_each pods (forget_host (host_of cluster pod.name))

    unfoldable pub safe_delete_pod_with_index :
        AerospikeCluster p.kube → ℤ → PodAction p S (Unit {0})
    safe_delete_pod_with_index cluster index = do
      pod ← get_pod_with_index cluster index
      safe_delete cluster pod
