-- ===== src/Pods/Removes.antt =====
-- pkg/reconciler: which pods there are after safeDeletePodWithIndex (pod.go).
use aerospike_operator.Prelude.{
  ◌≡◌, refl, sym, subst, ap, ◌∙◌, Bool, true, false, Option, none, some, List, [], ◌∷◌, Text,
  Result, ok, err, ℤ, ok-injective,
}
use aerospike_operator.Action.{emit, ask, for_each, ◌>>=◌}
use aerospike_operator.Action.Returns.{Ends, >>=-ends}
use aerospike_operator.Api.{AerospikeCluster, ApiError, not_found, already_exists, other_error}
use aerospike_operator.Pods.Platform.{
  VolumeSource, Platform, Pod, Claim, Volume, claim_source, config_map_source, empty_dir,
}
use aerospike_operator.Pods.Api.{
  patch_claim, Api, PodAction, WatchEvent, read, write, query, from_api-eq-ok, delete_pod, info,
  migrations, migrated, event, watch_timeout, wait_for_migrations_started,
  wait_for_migrations_finished,
}
use aerospike_operator.Pods.Claims.{
  last_unmounted_on_annotation, signal_unmounted, patch_pvc, set_pvc_annotation,
}
use aerospike_operator.Pods.Delete.{
  pod_name_at, host_of, tip_clear, alumni_reset, found_pod, is_deleted, list_cluster_pods,
  get_pod_with_index, node_of, pod_has_migrations_in_progress, wait_for_migrations_to_finish_on_pod,
  run_info_command_on_pod, try_command, forget_host, wait_for_deletion, unmount, remove,
  wait_for_migrations, safe_delete, safe_delete_pod_with_index,
}
use aerospike_operator.Pods.Views.{
  Ends-if, Store, Same, Only, Still, Still->>=, Only-after, Only-then, Still-pure, Ends-raise,
  Still-lift, Still-ask, Still-read, Still-write, Still-query, Still-emit, Still-for_each,
}

module _ {p : Platform} {S : Type 0} {api : Api p S} (cluster : AerospikeCluster p.kube)
    (store : Store api cluster.namespace) where
  pub list_cluster_pods-Still : Still store (list_cluster_pods api cluster)
  unfolding list_cluster_pods
  list_cluster_pods-Still =
      Still->>= store (read (api.list_pods cluster.namespace cluster.name)) _
        (Still-read store _ (store.list_pods_keeps cluster.namespace cluster.name))
        (λ pods. Still-pure store _)

  pub get_pod_with_index-Still : (index : ℤ) → Still store (get_pod_with_index api cluster index)
  unfolding get_pod_with_index
  get_pod_with_index-Still index =
      Still->>= store (ask (api.get_pod cluster.namespace (pod_name_at cluster index))) _
        (Still-ask store _ (store.get_pod_keeps cluster.namespace (pod_name_at cluster index)))
        (λ answer. Still-lift store (found_pod answer))

  node_of-Still : (pod : Pod p) → Still store (node_of api pod)
  node_of-Still pod =
      Still->>= store (query (api.nodes pod)) _ (Still-query store _ (store.nodes_keeps pod))
        (λ names. Still-lift store _)

  pod_has_migrations_in_progress-Still :
      (pod : Pod p) → Still store (pod_has_migrations_in_progress api pod)
  unfolding pod_has_migrations_in_progress
  pod_has_migrations_in_progress-Still pod =
      Still->>= store (node_of api pod) _ (node_of-Still pod) (λ name.
        Still->>= store (query (api.migration_in_progress pod name)) _
          (Still-query store _ (store.migration_keeps pod name))
          (λ answer.
            Still->>= store (emit (migrations pod answer)) _ (Still-emit store _)
              (λ _. Still-pure store answer)))

  wait_for_migrations-Still : (pod : Pod p) (b : Bool) → Still store (wait_for_migrations api pod b)
  unfolding wait_for_migrations wait_for_migrations_to_finish_on_pod
  wait_for_migrations-Still pod false = Still-pure store tt
  wait_for_migrations-Still pod true =
      Still->>= store (emit (event wait_for_migrations_started)) _ (Still-emit store _) (λ _.
        Still->>= store (wait_for_migrations_to_finish_on_pod api pod) _
          (Still->>= store (node_of api pod) _ (node_of-Still pod) (λ name.
            Still->>= store (query (api.wait_until_migrated pod name)) _
              (Still-query store _ (store.wait_keeps pod name))
              (λ _. Still-emit store (migrated pod))))
          (λ _. Still-emit store (event wait_for_migrations_finished)))

  pub run_info_command_on_pod-Still :
      (pod : Pod p) (command : Text) → Still store (run_info_command_on_pod api pod command)
  unfolding run_info_command_on_pod
  run_info_command_on_pod-Still pod command =
      Still->>= store (emit (info pod command)) _ (Still-emit store _)
        (λ _. Still-query store (api.request_info pod command) (store.info_keeps pod command))

  try_command-Still : (pod : Pod p) (command : Text) → Still store (try_command api pod command)
  try_command-Still pod command =
      Still->>= store (emit (info pod command)) _ (Still-emit store _) (λ _.
        Still->>= store (ask (api.request_info pod command)) _
          (Still-ask store _ (store.info_keeps pod command)) (λ _. Still-pure store tt))

  forget_host-Still : (host : Text) (pod : Pod p) → Still store (forget_host api host pod)
  unfolding forget_host
  forget_host-Still host pod =
      Still->>= store (try_command api pod (tip_clear host)) _
        (try_command-Still pod (tip_clear host)) (λ _. try_command-Still pod alumni_reset)

  wait_for_deletion-Still :
      (events : List (WatchEvent p)) → Still store (wait_for_deletion api events)
  unfolding wait_for_deletion
  wait_for_deletion-Still [] = Ends-raise store (Unit {0}) (Same store) watch_timeout
  wait_for_deletion-Still (e ∷ rest) =
      Ends-if store (Same store) (is_deleted e) _ _ (Still-pure store tt)
        (wait_for_deletion-Still rest)

  signal_unmounted-Still : (claim : Claim p) → Still store (signal_unmounted api claim)
  unfolding signal_unmounted patch_pvc
  signal_unmounted-Still claim =
      Still->>= store (ask api.now) _ (Still-ask store api.now store.now_keeps) (λ now.
        let new = set_pvc_annotation claim last_unmounted_on_annotation (p.print_time now) in
        Still-write store (patch_claim claim new) (api.send_patch claim new)
          (store.send_patch_keeps claim new))

  unmount-Still : (pod : Pod p) (v : Volume) → Still store (unmount api pod v)
  unfolding unmount
  unmount-Still pod v = source v.name v.source
    where
      source :
          (name : Text) (s : VolumeSource)
          → Still store (unmount api pod (record { name = name; source = s }))
      source name (claim_source c) =
          Still->>= store (read (api.get_claim pod.namespace c)) (signal_unmounted api)
            (Still-read store (api.get_claim pod.namespace c)
              (store.get_claim_keeps pod.namespace c))
            signal_unmounted-Still
      source name (config_map_source c) = Still-pure store tt
      source name empty_dir = Still-pure store tt

  -- The pod is one of the namespace and has this name.
  abbrev pub IsNamed : Text → Pod p → Type 0
  IsNamed name pod = (pod.name ≡ name) × (pod.namespace ≡ cluster.namespace)

  delete_pod-Only :
      (name : Text) (pod : Pod p)
      → IsNamed name pod
      → Ends (Only store name false) (write (delete_pod pod) (api.remove_pod pod))
  unfolding Ends
  delete_pod-Only name pod (named, space) s u e =
      subst (λ n. Only store n false s (api.remove_pod pod s).1) named
        (store.removed pod s space (from_api-eq-ok e))

  pub remove-Only :
      (name : Text) (pod : Pod p) → IsNamed name pod → Ends (Only store name false) (remove api pod)
  unfolding remove
  remove-Only name pod is =
      Only-after store name false (for_each pod.spec.volumes (unmount api pod)) _
        (Still-for_each store pod.spec.volumes (unmount api pod) (unmount-Still pod))
        (λ _.
          Only-then store name false (write (delete_pod pod) (api.remove_pod pod)) _
            (delete_pod-Only name pod is)
            (λ _.
              Still->>= store (ask (api.watch pod)) (wait_for_deletion api)
                (Still-ask store (api.watch pod) (store.watch_keeps pod)) wait_for_deletion-Still))

  -- The pod that is found has the name, and is there; if none is found, none is there.
  abbrev pub Finds : Text → S → Option (Pod p) → Type 0
  Finds name s none = store.view s name ≡ false
  Finds name s (some pod) = (store.view s name ≡ true) × IsNamed name pod

  found_pod-Finds :
      (name : Text) (s : S) (r : Result ApiError (Pod p)) (x : Option (Pod p))
      → (api.get_pod cluster.namespace name s).0 ≡ r
      → found_pod r ≡ ok x
      → Finds name s x
  found_pod-Finds name s (ok pod) x g e =
      let (there, named, space) = store.found name s pod g in
      subst (Finds name s) (ok-injective e) (there, (named, space))
  found_pod-Finds name s (err not_found) x g e =
      subst (Finds name s) (ok-injective e) (store.missing name s g)
  found_pod-Finds name s (err already_exists) x g e = absurd (cc)
  found_pod-Finds name s (err (other_error t)) x g e = absurd (cc)

  pub get_pod_with_index-Finds :
      (index : ℤ) (s : S) (x : Option (Pod p))
      → (get_pod_with_index api cluster index s).0 ≡ ok x
      → Finds (pod_name_at cluster index) s x
  unfolding get_pod_with_index
  get_pod_with_index-Finds index s x e =
      found_pod-Finds (pod_name_at cluster index) s
        (api.get_pod cluster.namespace (pod_name_at cluster index) s).0 x refl e

  safe_delete-Only :
      (name : Text) (pod : Pod p)
      → IsNamed name pod
      → Ends (Only store name false) (safe_delete api cluster (some pod))
  unfolding safe_delete
  safe_delete-Only name pod is =
      Only-after store name false (pod_has_migrations_in_progress api pod) _
        (pod_has_migrations_in_progress-Still pod)
        (λ b.
          Only-after store name false (wait_for_migrations api pod b) _
            (wait_for_migrations-Still pod b)
            (λ _. Only-then store name false (remove api pod) _ (remove-Only name pod is) (λ _.
              Still->>= store (list_cluster_pods api cluster) _ list_cluster_pods-Still (λ pods.
                Still-for_each store pods (forget_host api (host_of cluster pod.name))
                  (forget_host-Still (host_of cluster pod.name))))))

  Finds-Same :
      (name : Text) (s t : S) (x : Option (Pod p))
      → Same store s t
      → Finds name s x
      → Finds name t x
  Finds-Same name s t none e gone = ap (λ v. v name) e ∙ gone
  Finds-Same name s t (some pod) e (there, is) = (ap (λ v. v name) e ∙ there, is)

  -- What is done with the result of a search for a pod.
  pub Finds-then :
      {A : Type 0} (T : S → S → Type 0) (index : ℤ) (f : Option (Pod p) → PodAction p S A)
      → ((s t u : S) → Same store s t → T t u → T s u)
      → ((x : Option (Pod p)) (s : S) (a : A)
          → Finds (pod_name_at cluster index) s x
          → (f x s).0 ≡ ok a
          → T s (f x s).1.1)
      → Ends T (get_pod_with_index api cluster index >>= f)
  unfolding Ends
  Finds-then T index f compose h s a e =
      let (x, got, done, same) = >>=-ends (get_pod_with_index api cluster index) f s a e in
      let t = (get_pod_with_index api cluster index s).1.1 in
      let still = get_pod_with_index-Still index s x got in
      let finds =
        Finds-Same (pod_name_at cluster index) s t x still
          (get_pod_with_index-Finds index s x got) in
      subst (T s) (sym same) (compose s t _ still (h x t a finds done))

  pub Only-Same :
      (name : Text) (b : Bool) (s t u : S)
      → Same store s t
      → Only store name b t u
      → Only store name b s u
  Only-Same name b s t u e (at, others) = (at, λ o d. others o d ∙ ap (λ v. v o) e)

  deletes :
      (name : Text) (x : Option (Pod p)) (s : S) (u : Unit {0})
      → Finds name s x
      → (safe_delete api cluster x s).0 ≡ ok u
      → Only store name false s (safe_delete api cluster x s).1.1
  unfolding safe_delete Ends
  deletes name none s u gone e = (gone, λ other d. refl)
  deletes name (some pod) s u (there, is) e = safe_delete-Only name pod is s u e

  pub safe_delete_pod_with_index-Only :
      (index : ℤ)
      → Ends
          (Only store (pod_name_at cluster index) false)
          (safe_delete_pod_with_index api cluster index)
  unfolding safe_delete_pod_with_index
  safe_delete_pod_with_index-Only index =
      let name = pod_name_at cluster index in
      Finds-then (Only store name false) index (safe_delete api cluster) (Only-Same name false)
        (deletes name)
