-- ===== src/Pods/Safety.antt =====
-- The code of pkg/reconciler/pod.go deletes pods safely.
use aerospike_operator.Prelude.{
  ok-injective, ◌≡◌, ◌⊎◌, inl, inr, refl, sym, subst, Bool, true, false, Option, none, some, List,
  [], ◌∷◌, Text, Result, Occurs, ℤ,
}
use aerospike_operator.Action.{pure, emit, lift, ask, ◌>>=◌, for_each}
use aerospike_operator.Api.{AerospikeCluster, ApiError}
use aerospike_operator.Pods.Platform.{
  Platform, Pod, Claim, Volume, VolumeSource, claim_source, config_map_source, empty_dir,
}
use aerospike_operator.Pods.Status.{less, is_pod_in_failure_state, text_at}
use aerospike_operator.Pods.Api.{
  PodReason, watch_timeout, Api, migrations, migrated, delete_pod, info, event,
  wait_for_migrations_started, wait_for_migrations_finished, PodError, read, write, query,
  WatchEvent,
}
use aerospike_operator.Pods.Claims.{
  signal_unmounted, patch_pvc, set_pvc_annotation, last_unmounted_on_annotation,
}
use aerospike_operator.Pods.Delete.{
  run_info_command_on_pod, pod_name_at, list_cluster_pods, get_pod_with_index, node_of, find_node,
  node_id_annotation, pod_has_migrations_in_progress, wait_for_migrations_to_finish_on_pod,
  forget_host, host_of, wait_for_deletion, unmount, remove, wait_for_migrations, safe_delete,
  safe_delete_pod_with_index, is_deleted, found_pod, found_node, try_command, tip_clear,
  alumni_reset,
}
use aerospike_operator.Pods.Trace.{
  Rules, Safe, Leads, Steady, Leads-pure, Leads-raise, Leads->>=, Leads-if, Steady->>=,
  Steady-for_each,
}

module _ {p : Platform} {S : Type 0} (R : Rules p) (api : Api p S) where
  module _ {A : Type 0} (i : List (Pod p)) where
    pub read-Steady : (call : S → Result ApiError A × S) → Steady R i (read call)
    unfolding Leads
    read-Steady call s = (tt, λ a e log h. h)

    pub query-Steady : (call : S → Result Text A × S) → Steady R i (query call)
    unfolding Leads
    query-Steady call s = (tt, λ a e log h. h)

    pub ask-Steady : (call : S → A × S) → Steady R i (ask call)
    unfolding Leads
    ask-Steady call s = (tt, λ a e log h. h)

    pub lift-Steady : (r : Result PodError A) → Steady R {S = S} i (lift r)
    unfolding Leads
    lift-Steady r s = (tt, λ a e log h. h)

  pub patch_pvc-Steady : (i : List (Pod p)) (old new : Claim p) → Steady R i (patch_pvc api old new)
  unfolding patch_pvc Leads
  patch_pvc-Steady i old new s = (tt, λ a e log h. h)

  signal_unmounted-Steady :
      (i : List (Pod p)) (claim : Claim p) → Steady R i (signal_unmounted api claim)
  unfolding signal_unmounted
  signal_unmounted-Steady i claim = Steady->>= R i (ask api.now) _ (ask-Steady i api.now) (λ now.
      patch_pvc-Steady i claim
        (set_pvc_annotation claim last_unmounted_on_annotation (p.print_time now)))

  unmount-Steady : (i : List (Pod p)) (pod : Pod p) (v : Volume) → Steady R i (unmount api pod v)
  unfolding unmount
  unmount-Steady i pod v = source v.name v.source
    where
      source :
          (name : Text) (s : VolumeSource)
          → Steady R i (unmount api pod (record { name = name; source = s }))
      source name (claim_source c) =
          Steady->>= R i (read (api.get_claim pod.namespace c)) (signal_unmounted api)
            (read-Steady i (api.get_claim pod.namespace c)) (signal_unmounted-Steady i)
      source name (config_map_source c) = Leads-pure R S i tt
      source name empty_dir = Leads-pure R S i tt

  wait_for_deletion-Steady :
      (i : List (Pod p)) (l : List (WatchEvent p)) → Steady R i (wait_for_deletion api l)
  unfolding wait_for_deletion
  wait_for_deletion-Steady i [] = Leads-raise R S i (λ _. i) watch_timeout
  wait_for_deletion-Steady i (e ∷ l) =
      Leads-if R i (λ _. i) (is_deleted e) _ _ (Leads-pure R S i tt) (wait_for_deletion-Steady i l)

  delete_pod-Leads :
      (i : List (Pod p)) (pod : Pod p)
      → (is_pod_in_failure_state pod ≡ true) ⊎ Occurs pod i
      → Leads R i (λ _. []) (write (delete_pod pod) (api.remove_pod pod))
  unfolding Leads
  delete_pod-Leads i pod fit s = ((fit, tt), λ a e log h. (fit, h))

  -- A pod that has failed or was seen idle is deleted safely.
  pub remove-Leads :
      (i : List (Pod p)) (pod : Pod p)
      → (is_pod_in_failure_state pod ≡ true) ⊎ Occurs pod i
      → Leads R i (λ _. []) (remove api pod)
  unfolding remove
  remove-Leads i pod fit =
      Leads->>= R i (λ _. i) (λ _. []) (for_each pod.spec.volumes (unmount api pod)) _
        (Steady-for_each R i pod.spec.volumes (unmount api pod) (λ v _. unmount-Steady i pod v))
        (λ _.
          Leads->>= R i (λ _. []) (λ _. []) (write (delete_pod pod) (api.remove_pod pod)) _
            (delete_pod-Leads i pod fit)
            (λ _.
              Steady->>= R [] (ask (api.watch pod)) _ (ask-Steady [] (api.watch pod))
                (λ events. wait_for_deletion-Steady [] events)))

  module _ (i : List (Pod p)) where
    pub event-Steady : (reason : PodReason) → Steady R {S = S} i (emit (event reason))
    unfolding Leads
    event-Steady reason s = (tt, λ a e log h. h)

    pub info-Steady : (pod : Pod p) (command : Text) → Steady R {S = S} i (emit (info pod command))
    unfolding Leads
    info-Steady pod command s = (tt, λ a e log h. h)

    pub list_cluster_pods-Steady :
        (cluster : AerospikeCluster p.kube) → Steady R i (list_cluster_pods api cluster)
    unfolding list_cluster_pods
    list_cluster_pods-Steady cluster =
        Steady->>= R i (read (api.list_pods cluster.namespace cluster.name)) _
          (read-Steady i (api.list_pods cluster.namespace cluster.name))
          (λ pods. Leads-pure R S i (api.sort_pods less pods))

    pub get_pod_with_index-Steady :
        (cluster : AerospikeCluster p.kube) (index : ℤ)
        → Steady R i (get_pod_with_index api cluster index)
    unfolding get_pod_with_index
    get_pod_with_index-Steady cluster index =
        Steady->>= R i (ask (api.get_pod cluster.namespace (pod_name_at cluster index))) _
          (ask-Steady i (api.get_pod cluster.namespace (pod_name_at cluster index)))
          (λ answer. lift-Steady i (found_pod answer))

    node_of-Steady : (pod : Pod p) → Steady R i (node_of api pod)
    node_of-Steady pod =
        Steady->>= R i (query (api.nodes pod)) _ (query-Steady i (api.nodes pod)) (λ names.
          lift-Steady i (found_node (find_node (text_at node_id_annotation pod.annotations) names)))

    pub run_info_command_on_pod-Steady :
        (pod : Pod p) (command : Text) → Steady R i (run_info_command_on_pod api pod command)
    unfolding run_info_command_on_pod
    run_info_command_on_pod-Steady pod command =
        Steady->>= R i (emit (info pod command)) _ (info-Steady pod command)
          (λ _. query-Steady i (api.request_info pod command))

    try_command-Steady : (pod : Pod p) (command : Text) → Steady R i (try_command api pod command)
    try_command-Steady pod command =
        Steady->>= R i (emit (info pod command)) _ (info-Steady pod command) (λ _.
          Steady->>= R i (ask (api.request_info pod command)) _
            (ask-Steady i (api.request_info pod command)) (λ answer. Leads-pure R S i tt))

    forget_host-Steady : (host : Text) (pod : Pod p) → Steady R i (forget_host api host pod)
    unfolding forget_host
    forget_host-Steady host pod =
        Steady->>= R i (try_command api pod (tip_clear host)) _
          (try_command-Steady pod (tip_clear host)) (λ _. try_command-Steady pod alumni_reset)

  -- The pods that the answer about migrations shows to be idle.
  abbrev idle_after : Pod p → Bool → List (Pod p)
  idle_after pod true = []
  idle_after pod false = pod ∷ []

  asked-Leads :
      (pod : Pod p) (b : Bool)
      → Leads R {S = S} [] (idle_after pod) (emit (migrations pod b) >>= (λ _. pure b))
  unfolding Leads
  asked-Leads pod true s =
      (tt, λ a e log h. subst (λ x. Safe R (idle_after pod x) log) (sym (ok-injective e)) h)
  asked-Leads pod false s =
      (tt, λ a e log h. subst (λ x. Safe R (idle_after pod x) log) (sym (ok-injective e)) h)

  pod_has_migrations_in_progress-Leads :
      (pod : Pod p) → Leads R [] (idle_after pod) (pod_has_migrations_in_progress api pod)
  unfolding pod_has_migrations_in_progress
  pod_has_migrations_in_progress-Leads pod =
      Leads->>= R [] (λ _. []) (idle_after pod) (node_of api pod) _ (node_of-Steady [] pod)
        (λ name.
          Leads->>= R [] (λ _. []) (idle_after pod) (query (api.migration_in_progress pod name)) _
            (query-Steady [] (api.migration_in_progress pod name)) (asked-Leads pod))

  migrated-Leads : (pod : Pod p) → Leads R {S = S} [] (λ _. pod ∷ []) (emit (migrated pod))
  unfolding Leads
  migrated-Leads pod s = (tt, λ a e log h. h)

  wait_for_migrations_to_finish_on_pod-Leads :
      (pod : Pod p) → Leads R [] (λ _. pod ∷ []) (wait_for_migrations_to_finish_on_pod api pod)
  unfolding wait_for_migrations_to_finish_on_pod
  wait_for_migrations_to_finish_on_pod-Leads pod =
      Leads->>= R [] (λ _. []) (λ _. pod ∷ []) (node_of api pod) _ (node_of-Steady [] pod)
        (λ name.
          Leads->>= R [] (λ _. []) (λ _. pod ∷ []) (query (api.wait_until_migrated pod name)) _
            (query-Steady [] (api.wait_until_migrated pod name)) (λ _. migrated-Leads pod))

  wait_for_migrations-Leads :
      (pod : Pod p) (b : Bool)
      → Leads R (idle_after pod b) (λ _. pod ∷ []) (wait_for_migrations api pod b)
  unfolding wait_for_migrations
  wait_for_migrations-Leads pod false = Leads-pure R S (pod ∷ []) tt
  wait_for_migrations-Leads pod true =
      Leads->>= R [] (λ _. []) (λ _. pod ∷ []) (emit (event wait_for_migrations_started)) _
        (event-Steady [] wait_for_migrations_started)
        (λ _.
          Leads->>= R [] (λ _. pod ∷ []) (λ _. pod ∷ [])
            (wait_for_migrations_to_finish_on_pod api pod) _
            (wait_for_migrations_to_finish_on_pod-Leads pod)
            (λ _. event-Steady (pod ∷ []) wait_for_migrations_finished))

  pub safe_delete-Steady :
      (cluster : AerospikeCluster p.kube) (found : Option (Pod p))
      → Steady R [] (safe_delete api cluster found)
  unfolding safe_delete
  safe_delete-Steady cluster none = Leads-pure R S [] tt
  safe_delete-Steady cluster (some pod) =
      Leads->>= R [] (idle_after pod) (λ _. []) (pod_has_migrations_in_progress api pod) _
        (pod_has_migrations_in_progress-Leads pod)
        (λ b.
          Leads->>= R (idle_after pod b) (λ _. pod ∷ []) (λ _. []) (wait_for_migrations api pod b) _
            (wait_for_migrations-Leads pod b)
            (λ _.
              Leads->>= R (pod ∷ []) (λ _. []) (λ _. []) (remove api pod) _
                (remove-Leads (pod ∷ []) pod (inr (inl refl)))
                (λ _.
                  Steady->>= R [] (list_cluster_pods api cluster) _
                    (list_cluster_pods-Steady [] cluster)
                    (λ pods.
                      Steady-for_each R [] pods _
                        (λ q _. forget_host-Steady [] (host_of cluster pod.name) q)))))

  pub safe_delete_pod_with_index-Steady :
      (cluster : AerospikeCluster p.kube) (index : ℤ)
      → Steady R [] (safe_delete_pod_with_index api cluster index)
  unfolding safe_delete_pod_with_index
  safe_delete_pod_with_index-Steady cluster index =
      Steady->>= R [] (get_pod_with_index api cluster index) _
        (get_pod_with_index-Steady [] cluster index) (safe_delete-Steady cluster)
