-- ===== src/Pods/SafeCreate.antt =====
-- The code of pkg/reconciler that creates pods and claims, and deletes no pod but a failed one.
use aerospike_operator.Action.Returns.{Returns-lift}
use aerospike_operator.Pods.Ensure.{wanted}
use aerospike_operator.Pods.Wanted.{rules_of, Fits, Suits, IsClaimOf, claim_for-IsClaimOf}
use aerospike_operator.Pods.Shape.{Shaped, Bare, pod_of-Bare}
use aerospike_operator.Pods.Storage.{add_volumes-Shaped}
use aerospike_operator.Pods.SafeClaims.{get_persistent_volume_claim-Steady}
use aerospike_operator.Pods.Claims.{size_of-eq-ok}
use aerospike_operator.Pods.Trace.{Leads-then}
use aerospike_operator.Prelude.{
  subst, ap, ◌≡◌, inl, inr, refl, Bool, true, false, Option, none, some, List, [], ◌∷◌, Result, ok,
  err, Occurs, ℤ, ℕ, suc,
}
use aerospike_operator.Action.{pure, emit, lift, ask, attempt}
use aerospike_operator.Api.{AerospikeCluster, AerospikeNamespaceSpec}
use aerospike_operator.Versioning.Upgrade.{VersionUpgrade}
use aerospike_operator.Reconciler.Types.{ConfigMap}
use aerospike_operator.Pods.Platform.{Platform, Pod, Claim}
use aerospike_operator.Pods.Status.{is_pod_in_failure_state, is_pod_running_and_ready}
use aerospike_operator.Pods.Api.{
  Api, Effect, create_pod, event, node_started, node_started_failed, PodError, PodAction, write,
  WatchEvent, added, modified, deleted, failure, watch_timeout, watch_error, pod_deleted,
  failed_pod_deleted,
}
use aerospike_operator.Pods.Claims.{
  get_persistent_volume_claim, last_unmounted_on_annotation, post, claim_for,
  create_persistent_volume_claim, signal_mounted, size_of, remove_pvc_annotation,
}
use aerospike_operator.Pods.Spec.{pod_of, add_storage, add_claim}
use aerospike_operator.Pods.Delete.{pod_name_at, list_cluster_pods, remove}
use aerospike_operator.Pods.Create.{
  discard, recreates, mount_or_create, claim_of, add_volumes, inspect, look_at, wait_until_ready,
  report, start_pod, create_pod_with_index,
}
use aerospike_operator.Pods.Trace.{
  Rules, Leads-test, Steady-attempt, Leads, Steady, Leads-pure, Leads-raise, Leads-if, Steady->>=,
}
use aerospike_operator.Pods.Safety.{
  ask-Steady, lift-Steady, event-Steady, patch_pvc-Steady, remove-Leads, list_cluster_pods-Steady,
}

module _ {p : Platform} {S : Type 0} (R : Rules p) (api : Api p S) where
  inspect-Steady : (pod : Pod p) → Steady R [] (inspect api pod)
  unfolding inspect
  inspect-Steady pod =
      Leads-test R [] (λ _. []) (is_pod_in_failure_state pod) (discard api pod)
        (pure (is_pod_running_and_ready pod))
        (λ failed.
          Steady->>= R [] (remove api pod) _ (remove-Leads R api [] pod (inl failed))
            (λ _. Leads-raise R S [] (λ _. []) failed_pod_deleted))
        (Leads-pure R S [] (is_pod_running_and_ready pod))

  look_at-Steady :
      (pod : Pod p) (later : PodAction p S (Pod p))
      → Steady R [] later
      → Steady R [] (look_at api pod later)
  look_at-Steady pod later h =
      Steady->>= R [] (inspect api pod) _ (inspect-Steady pod)
        (λ ready. Leads-if R [] (λ _. []) ready (pure pod) later (Leads-pure R S [] pod) h)

  wait_until_ready-Steady : (l : List (WatchEvent p)) → Steady R [] (wait_until_ready api l)
  unfolding wait_until_ready
  wait_until_ready-Steady [] = Leads-raise R S [] (λ _. []) watch_timeout
  wait_until_ready-Steady (failure ∷ l) = Leads-raise R S [] (λ _. []) watch_error
  wait_until_ready-Steady (deleted pod ∷ l) = Leads-raise R S [] (λ _. []) pod_deleted
  wait_until_ready-Steady (added pod ∷ l) =
      look_at-Steady pod (wait_until_ready api l) (wait_until_ready-Steady l)
  wait_until_ready-Steady (modified pod ∷ l) =
      look_at-Steady pod (wait_until_ready api l) (wait_until_ready-Steady l)

  report-Steady : (outcome : Result PodError (Pod p)) → Steady R [] (report api outcome)
  unfolding report
  report-Steady (ok pod) =
      Steady->>= R [] (emit (event node_started)) _ (event-Steady R api [] node_started)
        (λ _. Leads-pure R S [] pod)
  report-Steady (err e) =
      Steady->>= R [] (emit (event node_started_failed)) _
        (event-Steady R api [] node_started_failed) (λ _. Leads-raise R S [] (λ _. []) e)

module _ {p : Platform} {S : Type 0} (cluster : AerospikeCluster p.kube) (config_map : ConfigMap)
    (api : Api p S) (index : ℤ) (within : Occurs index (wanted cluster.spec.node_count)) where
  abbrev R : Rules p
  R = rules_of cluster config_map

  abbrev Named : Pod p → Type 0
  Named pod = pod.name ≡ pod_name_at cluster index

  post-Steady :
      (i : List (Pod p)) (pod : Pod p) (ns : AerospikeNamespaceSpec) (size : p.Quantity)
      → Named pod
      → Occurs ns cluster.spec.namespaces
      → p.parse_quantity ns.storage.size ≡ some size
      → Steady R i (post api cluster pod ns size)
  unfolding Leads
  post-Steady i pod ns size name o parsed s =
      let fit : Suits cluster config_map (claim_for cluster pod.name ns size) = (
        index,
        ns,
        size,
        within,
        o,
        parsed,
        ap (λ n. claim_for cluster n ns size) name,
        subst (λ n. IsClaimOf p cluster n ns size (claim_for cluster pod.name ns size)) name
            (claim_for-IsClaimOf p cluster pod.name ns size),
      ) in
      ((fit, tt), λ a e log h. (fit, h))

  create_persistent_volume_claim-Steady :
      (i : List (Pod p)) (pod : Pod p) (ns : AerospikeNamespaceSpec)
      → Named pod
      → Occurs ns cluster.spec.namespaces
      → Steady R i (create_persistent_volume_claim api cluster pod ns)
  unfolding create_persistent_volume_claim
  create_persistent_volume_claim-Steady i pod ns name o =
      Leads-then R i (λ _. i) (λ _. i) (λ size. p.parse_quantity ns.storage.size ≡ some size)
        (lift (size_of p ns)) _ (lift-Steady R api i (size_of p ns))
        (Returns-lift S (Effect p) PodError _ (size_of p ns) (size_of-eq-ok p ns))
        (λ size. post-Steady i pod ns size name o)

  mount_or_create-Steady :
      (i : List (Pod p)) (pod : Pod p) (ns : AerospikeNamespaceSpec) (found : Option (Claim p))
      → Named pod
      → Occurs ns cluster.spec.namespaces
      → Steady R i (mount_or_create api cluster pod ns found)
  unfolding mount_or_create signal_mounted
  mount_or_create-Steady i pod ns none name o =
      create_persistent_volume_claim-Steady i pod ns name o
  mount_or_create-Steady i pod ns (some claim) name o =
      Steady->>= R i (signal_mounted api claim) _
        (patch_pvc-Steady R api i claim (remove_pvc_annotation claim last_unmounted_on_annotation))
        (λ _. Leads-pure R S i claim)

  claim_of-Steady :
      (i : List (Pod p)) (pod : Pod p) (recreate : Bool) (ns : AerospikeNamespaceSpec)
      → Named pod
      → Occurs ns cluster.spec.namespaces
      → Steady R i (claim_of api cluster pod recreate ns)
  unfolding claim_of
  claim_of-Steady i pod true ns name o = create_persistent_volume_claim-Steady i pod ns name o
  claim_of-Steady i pod false ns name o =
      Steady->>= R i (get_persistent_volume_claim api cluster pod) _
        (get_persistent_volume_claim-Steady R api i cluster pod)
        (λ found. mount_or_create-Steady i pod ns found name o)

  add_volumes-Steady :
      (i : List (Pod p)) (recreate : Bool) (n : ℕ) (l : List AerospikeNamespaceSpec) (pod : Pod p)
      → Named pod
      → ((ns : AerospikeNamespaceSpec) → Occurs ns l → Occurs ns cluster.spec.namespaces)
      → Steady R i (add_volumes api cluster recreate n l pod)
  unfolding add_volumes
  add_volumes-Steady i recreate n [] pod name o = Leads-pure R S i pod
  add_volumes-Steady i recreate n (ns ∷ l) pod name o =
      Steady->>= R i (claim_of api cluster pod recreate ns) _
        (claim_of-Steady i pod recreate ns name (o ns (inl refl)))
        (λ claim.
          Steady->>= R i (lift (add_storage n ns pod.spec)) _
            (lift-Steady R api i (add_storage n ns pod.spec))
            (λ spec.
              add_volumes-Steady i recreate (suc n) l (record pod { spec = add_claim claim spec })
                name (λ x later. o x (inr later))))

  create_pod-Steady :
      (pod : Pod p)
      → Fits cluster config_map pod
      → Steady R [] (write (create_pod pod) (api.post_pod pod))
  unfolding Leads
  create_pod-Steady pod fit s = ((fit, tt), λ a e log h. (fit, h))

  start_pod-Steady : (pod : Pod p) → Fits cluster config_map pod → Steady R [] (start_pod api pod)
  unfolding start_pod
  start_pod-Steady pod fit =
      Steady->>= R [] (write (create_pod pod) (api.post_pod pod)) _ (create_pod-Steady pod fit)
        (λ created.
          Steady->>= R [] (ask (api.watch created)) _ (ask-Steady R api [] (api.watch created))
            (λ events.
              Steady->>= R [] (attempt (wait_until_ready api events)) (report api)
                (Steady-attempt R (wait_until_ready api events)
                  (wait_until_ready-Steady R api events))
                (report-Steady R api)))

  pub create_pod_with_index-Steady :
      (upgrade : Option VersionUpgrade)
      → Steady R [] (create_pod_with_index api cluster config_map index upgrade)
  unfolding create_pod_with_index
  create_pod_with_index-Steady upgrade =
      Steady->>= R [] (list_cluster_pods api cluster) _ (list_cluster_pods-Steady R api [] cluster)
        (λ pods.
          Leads-then R [] (λ _. []) (λ _. []) (Bare cluster config_map (pod_name_at cluster index))
            (lift (pod_of cluster config_map (pod_name_at cluster index) pods)) _
            (lift-Steady R api [] (pod_of cluster config_map (pod_name_at cluster index) pods))
            (Returns-lift S (Effect p) PodError _
              (pod_of cluster config_map (pod_name_at cluster index) pods)
              (pod_of-Bare cluster config_map (pod_name_at cluster index) pods))
            (λ pod shape.
              Steady->>= R [] (lift (recreates upgrade)) _
                (lift-Steady R api [] (recreates upgrade))
                (λ recreate.
                  Leads-then R [] (λ _. []) (λ _. [])
                    (Shaped cluster config_map (pod_name_at cluster index) cluster.spec.namespaces)
                    (add_volumes api cluster recreate 0 cluster.spec.namespaces pod) (start_pod api)
                    (add_volumes-Steady [] recreate 0 cluster.spec.namespaces pod shape.0.0
                      (λ ns o. o))
                    (add_volumes-Shaped cluster config_map api (pod_name_at cluster index) recreate
                      cluster.spec.namespaces pod shape)
                    (λ made fit. start_pod-Steady made (index, within, fit)))))
