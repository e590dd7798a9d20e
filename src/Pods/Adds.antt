-- ===== src/Pods/Adds.antt =====
-- pkg/reconciler: which pods there are after createPodWithIndex (pod.go), and that the claims do not count.
use aerospike_operator.Prelude.{
  ◌≡◌, refl, subst, ap, ◌∙◌, ℕ, suc, Bool, true, false, Option, none, some, List, [], ◌∷◌, Text,
  Result, ok, err, ℤ, pos, eqb_ℤ, ltb_ℤ, ◌+ℤ◌, if◌then◌else◌,
}
use aerospike_operator.Prelude.Dict.{lookup}
use aerospike_operator.Action.{lift, ask, attempt, ◌>>=◌}
use aerospike_operator.Action.Returns.{Ends, Ends-with, Returns-lift}
use aerospike_operator.Api.{AerospikeCluster, AerospikeNamespaceSpec}
use aerospike_operator.Versioning.Upgrade.{VersionUpgrade}
use aerospike_operator.Reconciler.Types.{ConfigMap}
use aerospike_operator.Pods.Platform.{Platform, Pod, Claim}
use aerospike_operator.Pods.Api.{
  Api, Effect, PodError, PodAction, WatchEvent, added, modified, deleted, failure, read, write,
  from_api-eq-ok, create_pod, create_claim, patch_claim, watch_timeout, watch_error, pod_deleted,
  failed_pod_deleted,
}
use aerospike_operator.Pods.Durations.{parse_duration}
use aerospike_operator.Pods.Status.{is_pod_in_failure_state, is_pod_running_and_ready}
use aerospike_operator.Pods.Claims.{
  pvc_ttl_annotation, last_unmounted_on_annotation, time_of, belongs_to, has_time_left, within_ttl,
  was_unmounted, is_available, filter_available, most_recent, get_persistent_volume_claim, size_of,
  claim_for, create_persistent_volume_claim, signal_mounted, patch_pvc, remove_pvc_annotation,
}
use aerospike_operator.Pods.Spec.{pod_of, add_storage, add_claim}
use aerospike_operator.Pods.Delete.{pod_name_at, list_cluster_pods, remove}
use aerospike_operator.Pods.Create.{
  recreates, mount_or_create, claim_of, add_volumes, inspect, look_at, wait_until_ready, report,
  start_pod, create_pod_with_index,
}
use aerospike_operator.Pods.Shape.{Shaped, Bare, pod_of-Bare}
use aerospike_operator.Pods.Storage.{add_volumes-Shaped}
use aerospike_operator.Pods.Views.{
  Store, Same, Only, Still, Still->>=, Only-after, Only-then, Still-pure, Ends-raise, Ends-if,
  Ends-fail, Still-lift, Still-ask, Still-read, Still-write,
}
use aerospike_operator.Pods.Removes.{list_cluster_pods-Still}

module _ {p : Platform} {S : Type 0} {api : Api p S} (cluster : AerospikeCluster p.kube)
    (store : Store api cluster.namespace) where
  has_time_left-Still :
      (unmounted expiration : ℤ) → Still store (has_time_left {p = p} api unmounted expiration)
  unfolding has_time_left
  has_time_left-Still unmounted expiration =
      Ends-if store (Same store) (eqb_ℤ expiration (pos 0)) _ _ (Still-pure store true) (
        Still->>= store (ask api.now) _ (Still-ask store api.now store.now_keeps)
          (λ now. Still-pure store (ltb_ℤ now (unmounted +ℤ expiration))))

  within_ttl-Still :
      (unmounted : ℤ) (ttl : Option Text) → Still store (within_ttl api unmounted ttl)
  unfolding within_ttl
  within_ttl-Still unmounted none = Still-pure store false
  within_ttl-Still unmounted (some ttl) =
      Still->>= store (lift (parse_duration p ttl)) _ (Still-lift store (parse_duration p ttl))
        (has_time_left-Still unmounted)

  was_unmounted-Still :
      (claim : Claim p) (time : Option Text) → Still store (was_unmounted api claim time)
  unfolding was_unmounted
  was_unmounted-Still claim none = Still-pure store false
  was_unmounted-Still claim (some time) =
      Still->>= store (lift (time_of p time)) _ (Still-lift store (time_of p time))
        (λ unmounted. within_ttl-Still unmounted (lookup pvc_ttl_annotation claim.annotations))

  is_available-Still : (name : Text) (claim : Claim p) → Still store (is_available api name claim)
  unfolding is_available
  is_available-Still name claim =
      Ends-if store (Same store) (belongs_to name claim) _ _
        (was_unmounted-Still claim (lookup last_unmounted_on_annotation claim.annotations))
        (Still-pure store false)

  filter_available-Still :
      (name : Text) (claims : List (Claim p)) → Still store (filter_available api name claims)
  unfolding filter_available
  filter_available-Still name [] = Still-pure store []
  filter_available-Still name (claim ∷ rest) =
      Still->>= store (is_available api name claim) _ (is_available-Still name claim) (λ available.
        Still->>= store (filter_available api name rest) _ (filter_available-Still name rest)
          (λ later. Still-pure store (if available then claim ∷ later else later)))

  get_persistent_volume_claim-Still :
      (pod : Pod p) → Still store (get_persistent_volume_claim api cluster pod)
  unfolding get_persistent_volume_claim
  get_persistent_volume_claim-Still pod =
      Still->>= store (read (api.list_claims cluster.namespace cluster.name)) _
        (Still-read store _ (store.list_claims_keeps cluster.namespace cluster.name))
        (λ claims.
          Still->>= store (filter_available api pod.name claims) _
            (filter_available-Still pod.name claims)
            (λ found. Still-pure store (most_recent api found)))

  create_persistent_volume_claim-Still :
      (pod : Pod p) (ns : AerospikeNamespaceSpec)
      → Still store (create_persistent_volume_claim api cluster pod ns)
  unfolding create_persistent_volume_claim
  create_persistent_volume_claim-Still pod ns =
      Still->>= store (lift (size_of p ns)) _ (Still-lift store (size_of p ns)) (λ size.
        let claim = claim_for cluster pod.name ns size in
        Still-write store (create_claim claim) (api.post_claim claim)
          (store.post_claim_keeps claim))

  mount_or_create-Still :
      (pod : Pod p) (ns : AerospikeNamespaceSpec) (found : Option (Claim p))
      → Still store (mount_or_create api cluster pod ns found)
  unfolding mount_or_create signal_mounted patch_pvc
  mount_or_create-Still pod ns none = create_persistent_volume_claim-Still pod ns
  mount_or_create-Still pod ns (some claim) =
      let new = remove_pvc_annotation claim last_unmounted_on_annotation in
      Still->>= store (signal_mounted api claim) _
        (Still-write store (patch_claim claim new) (api.send_patch claim new)
          (store.send_patch_keeps claim new))
        (λ _. Still-pure store claim)

  claim_of-Still :
      (pod : Pod p) (recreate : Bool) (ns : AerospikeNamespaceSpec)
      → Still store (claim_of api cluster pod recreate ns)
  unfolding claim_of
  claim_of-Still pod true ns = create_persistent_volume_claim-Still pod ns
  claim_of-Still pod false ns =
      Still->>= store (get_persistent_volume_claim api cluster pod) _
        (get_persistent_volume_claim-Still pod) (λ found. mount_or_create-Still pod ns found)

  add_volumes-Still :
      (recreate : Bool) (n : ℕ) (l : List AerospikeNamespaceSpec) (pod : Pod p)
      → Still store (add_volumes api cluster recreate n l pod)
  unfolding add_volumes
  add_volumes-Still recreate n [] pod = Still-pure store pod
  add_volumes-Still recreate n (ns ∷ l) pod =
      Still->>= store (claim_of api cluster pod recreate ns) _ (claim_of-Still pod recreate ns)
        (λ claim.
          Still->>= store (lift (add_storage n ns pod.spec)) _
            (Still-lift store (add_storage n ns pod.spec))
            (λ spec.
              add_volumes-Still recreate (suc n) l (record pod { spec = add_claim claim spec })))

  -- A pod that has failed is removed, and the wait ends with an error.
  inspect-Still : (pod : Pod p) → Still store (inspect api pod)
  unfolding inspect
  inspect-Still pod =
      Ends-if store (Same store) (is_pod_in_failure_state pod) _ _
        (Ends-fail store Bool (Same store) (remove api pod) failed_pod_deleted)
        (Still-pure store (is_pod_running_and_ready pod))

  look_at-Still :
      (pod : Pod p) (later : PodAction p S (Pod p))
      → Still store later
      → Still store (look_at api pod later)
  look_at-Still pod later h =
      Still->>= store (inspect api pod) _ (inspect-Still pod)
        (λ ready. Ends-if store (Same store) ready _ _ (Still-pure store pod) h)

  wait_until_ready-Still :
      (events : List (WatchEvent p)) → Still store (wait_until_ready api events)
  unfolding wait_until_ready
  wait_until_ready-Still [] = Ends-raise store (Pod p) (Same store) watch_timeout
  wait_until_ready-Still (failure ∷ rest) = Ends-raise store (Pod p) (Same store) watch_error
  wait_until_ready-Still (deleted pod ∷ rest) = Ends-raise store (Pod p) (Same store) pod_deleted
  wait_until_ready-Still (added pod ∷ rest) =
      look_at-Still pod (wait_until_ready api rest) (wait_until_ready-Still rest)
  wait_until_ready-Still (modified pod ∷ rest) =
      look_at-Still pod (wait_until_ready api rest) (wait_until_ready-Still rest)

  -- An error that the wait handed on ends the creation.
  reported :
      (r : Result PodError (Pod p)) (s t : S) (pod : Pod p)
      → ((q : Pod p) → r ≡ ok q → Same store s t)
      → (report api r t).0 ≡ ok pod
      → Same store s (report api r t).1.1
  unfolding report
  reported (ok q) s t pod h e = h q refl
  reported (err x) s t pod h e = absurd (cc)

  awaited-Still :
      (events : List (WatchEvent p))
      → Still store (attempt (wait_until_ready api events) >>= report api)
  unfolding Ends
  awaited-Still events s pod e =
      reported (wait_until_ready api events s).0 s (wait_until_ready api events s).1.1 pod
        (λ q found. wait_until_ready-Still events s q found) e

  post_pod-Only :
      (name : Text) (pod : Pod p)
      → pod.name ≡ name
      → pod.namespace ≡ cluster.namespace
      → Ends (Only store name true) (write (create_pod pod) (api.post_pod pod))
  unfolding Ends
  post_pod-Only name pod named space s new e =
      subst (λ n. Only store n true s (api.post_pod pod s).1) named
        (store.posted pod new s space (from_api-eq-ok e))

  start_pod-Only :
      (name : Text) (pod : Pod p)
      → pod.name ≡ name
      → pod.namespace ≡ cluster.namespace
      → Ends (Only store name true) (start_pod api pod)
  unfolding start_pod
  start_pod-Only name pod named space =
      Only-then store name true (write (create_pod pod) (api.post_pod pod)) _
        (post_pod-Only name pod named space)
        (λ created.
          Still->>= store (ask (api.watch created))
            (λ events. attempt (wait_until_ready api events) >>= report api)
            (Still-ask store (api.watch created) (store.watch_keeps created)) awaited-Still)

  module _ (config_map : ConfigMap) where
    after_pod :
        (name : Text) (upgrade : Option VersionUpgrade) (pod : Pod p)
        → Bare cluster config_map name pod
        → Ends (Only store name true) (
            lift (recreates upgrade) >>= λ recreate.
            add_volumes api cluster recreate 0 cluster.spec.namespaces pod >>= start_pod api)
    after_pod name upgrade pod shape =
        Only-after store name true (lift (recreates upgrade)) _
          (Still-lift store (recreates upgrade))
          (λ recreate.
            Ends-with (Same store) (Only store name true) (Only store name true)
              (λ s t u e (at, others). (at, λ o d. others o d ∙ ap (λ v. v o) e))
              (Shaped cluster config_map name cluster.spec.namespaces)
              (add_volumes api cluster recreate 0 cluster.spec.namespaces pod) (start_pod api)
              (add_volumes-Shaped cluster config_map api name recreate cluster.spec.namespaces pod
                shape)
              (add_volumes-Still recreate 0 cluster.spec.namespaces pod)
              (λ made shaped. start_pod-Only name made shaped.0.0 shaped.0.1))

    pub create_pod_with_index-Only :
        (index : ℤ) (upgrade : Option VersionUpgrade)
        → Ends
            (Only store (pod_name_at cluster index) true)
            (create_pod_with_index api cluster config_map index upgrade)
    unfolding create_pod_with_index
    create_pod_with_index-Only index upgrade =
        let name = pod_name_at cluster index in
        Only-after store name true (list_cluster_pods api cluster) _
          (list_cluster_pods-Still cluster store)
          (λ pods.
            Ends-with (Same store) (Only store name true) (Only store name true)
              (λ s t u e (at, others). (at, λ o d. others o d ∙ ap (λ v. v o) e))
              (Bare cluster config_map name) (lift (pod_of cluster config_map name pods)) _
              (Returns-lift S (Effect p) PodError _ (pod_of cluster config_map name pods)
                (pod_of-Bare cluster config_map name pods))
              (Still-lift store (pod_of cluster config_map name pods)) (after_pod name upgrade))
