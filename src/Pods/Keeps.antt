-- ===== src/Pods/Keeps.antt =====
-- pkg/reconciler: a round of ensurePods (pod.go, upgrades.go) leaves a pod at its index.
use aerospike_operator.Prelude.{
  ◌≡◌, ◌≢◌, ap, ◌∙◌, ℕ, zero, suc, true, false, Option, none, some, codes, Text, text_eq, ok, ℤ,
  pos, ltb_ℤ,
}
use aerospike_operator.Prelude.Dict.{lookup}
use aerospike_operator.Action.{emit, ask, ◌>>=◌}
use aerospike_operator.Action.Returns.{Ends, Ends->>=}
use aerospike_operator.Api.{AerospikeCluster}
use aerospike_operator.Versioning.Upgrade.{VersionUpgrade}
use aerospike_operator.Reconciler.Types.{ConfigMap}
use aerospike_operator.Pods.Platform.{Platform, Pod}
use aerospike_operator.Pods.Api.{
  Api, event, node_upgrade_started, node_upgrade_failed, node_upgrade_finished,
  incorrect_cluster_size, failed_to_upgrade, PodAction, read, query,
}
use aerospike_operator.Pods.Status.{pod_index, text_at, is_pod_in_failure_state}
use aerospike_operator.Pods.Spec.{hash_of, config_map_hash_annotation}
use aerospike_operator.Pods.Delete.{
  pod_name_at, get_pod_with_index, run_info_command_on_pod, remove, safe_delete_pod_with_index,
}
use aerospike_operator.Pods.Create.{create_pod_with_index}
use aerospike_operator.Pods.Ensure.{
  version_in, count_running, get_aerospike_server_version_from_pod, safe_restart_pod_with_index,
  upgrade_pod, upgrade_found, maybe_upgrade_pod_with_index, watch_cluster_size, ensure_cluster_size,
  create_missing, restart_pod, update_pod, replace_pod, ensure_found, ensure_pod,
}
use aerospike_operator.Pods.Views.{
  Store, Same, Only, Still, Still->>=, Only-after, Only-then, Only-over, Still-pure, Ends-if,
  Ends-fail, Still-lift, Still-ask, Still-read, Still-query, Still-emit,
}
use aerospike_operator.Pods.Removes.{
  IsNamed, Finds, Finds-then, Only-Same, get_pod_with_index-Still, remove-Only,
  run_info_command_on_pod-Still, safe_delete_pod_with_index-Only,
}
use aerospike_operator.Pods.Adds.{create_pod_with_index-Only}

module _ {p : Platform} {S : Type 0} {api : Api p S} (cluster : AerospikeCluster p.kube)
    (store : Store api cluster.namespace) (config_map : ConfigMap) where
  -- Where there was a pod of this name, there is one, and all others are as before.
  abbrev pub Holding : Text → S → S → Type 0
  Holding name s t =
      (store.view s name ≡ true → store.view t name ≡ true)
      × ((other : Text) → other ≢ name → store.view t other ≡ store.view s other)

  Holding-Still :
      {A : Type 0} (name : Text) (m : PodAction p S A) → Still store m → Ends (Holding name) m
  unfolding Ends
  Holding-Still name m h s a e =
      (λ there. ap (λ v. v name) (h s a e) ∙ there, λ o d. ap (λ v. v o) (h s a e))

  Holding-Only :
      {A : Type 0} (name : Text) (m : PodAction p S A)
      → Ends (Only store name true) m
      → Ends (Holding name) m
  unfolding Ends
  Holding-Only name m h s a e = (λ there. (h s a e).0, (h s a e).1)

  Holding->>= :
      {A B : Type 0} (name : Text) (m : PodAction p S A) (f : A → PodAction p S B)
      → Ends (Holding name) m
      → ((a : A) → Ends (Holding name) (f a))
      → Ends (Holding name) (m >>= f)
  Holding->>= name m f h k =
      Ends->>= (Holding name) (Holding name) (Holding name)
        (λ s t u (at, others) (at', others').
          (λ there. at' (at there), λ o d. others' o d ∙ others o d))
        m f h k

  version-Still : (pod : Pod p) → Still store (get_aerospike_server_version_from_pod api pod)
  unfolding get_aerospike_server_version_from_pod
  version-Still pod =
      Still->>= store (run_info_command_on_pod api pod (codes "build")) _
        (run_info_command_on_pod-Still cluster store pod (codes "build"))
        (λ answer. Still-lift store (version_in (lookup (codes "build") answer)))

  restart-Only :
      (index : ℤ) (upgrade : Option VersionUpgrade)
      → Ends
          (Only store (pod_name_at cluster index) true)
          (safe_restart_pod_with_index api cluster config_map index upgrade)
  unfolding safe_restart_pod_with_index
  restart-Only index upgrade =
      Only-over store (pod_name_at cluster index) false true
        (safe_delete_pod_with_index api cluster index) _
        (safe_delete_pod_with_index-Only cluster store index)
        (λ _. create_pod_with_index-Only cluster store config_map index upgrade)

  upgrade_pod-Only :
      (index : ℤ) (upgrade : VersionUpgrade)
      → Ends
          (Only store (pod_name_at cluster index) true)
          (upgrade_pod api cluster config_map index upgrade)
  unfolding upgrade_pod
  upgrade_pod-Only index upgrade =
      let name = pod_name_at cluster index in
      Only-after store name true (emit (event node_upgrade_started)) _
        (Still-emit store (event node_upgrade_started))
        (λ _.
          Only-then store name true
            (safe_restart_pod_with_index api cluster config_map index (some upgrade)) _
            (restart-Only index (some upgrade))
            (λ new.
              Still->>= store (get_aerospike_server_version_from_pod api new) _ (version-Still new)
                (λ version.
                  Ends-if store (Same store) (text_eq version cluster.spec.version) _ _
                    (Still-emit store (event node_upgrade_finished))
                    (Ends-fail store (Unit {0}) (Same store) (emit (event node_upgrade_failed))
                      (failed_to_upgrade new.name)))))

  upgrade_found-Holding :
      (index : ℤ) (upgrade : VersionUpgrade) (found : Option (Pod p))
      → Ends
          (Holding (pod_name_at cluster index))
          (upgrade_found api cluster config_map index upgrade found)
  unfolding upgrade_found
  upgrade_found-Holding index upgrade none =
      Holding-Still (pod_name_at cluster index) _ (Still-pure store tt)
  upgrade_found-Holding index upgrade (some pod) =
      let name = pod_name_at cluster index in
      Holding->>= name (get_aerospike_server_version_from_pod api pod) _
        (Holding-Still name (get_aerospike_server_version_from_pod api pod) (version-Still pod))
        (λ version.
          Ends-if store (Holding name) (text_eq version cluster.spec.version) _ _
            (Holding-Still name _ (Still-pure store tt))
            (Holding-Only name _ (upgrade_pod-Only index upgrade)))

  maybe_upgrade-Holding :
      (index : ℤ) (upgrade : VersionUpgrade)
      → Ends
          (Holding (pod_name_at cluster index))
          (maybe_upgrade_pod_with_index api cluster config_map index upgrade)
  unfolding maybe_upgrade_pod_with_index
  maybe_upgrade-Holding index upgrade =
      let name = pod_name_at cluster index in
      Holding->>= name (get_pod_with_index api cluster index) _
        (Holding-Still name (get_pod_with_index api cluster index)
          (get_pod_with_index-Still cluster store index))
        (upgrade_found-Holding index upgrade)

  watch_cluster_size-Still :
      (pod : Pod p) (n : ℕ) → Still store (watch_cluster_size api cluster pod n)
  unfolding watch_cluster_size
  watch_cluster_size-Still pod zero =
      Ends-fail store (Unit {0}) (Same store)
        (safe_delete_pod_with_index api cluster (pod_index pod)) incorrect_cluster_size
  watch_cluster_size-Still pod (suc n) =
      Still->>= store (read (api.list_pods cluster.namespace cluster.name)) _
        (Still-read store _ (store.list_pods_keeps cluster.namespace cluster.name))
        (λ pods.
          Still->>= store (query (api.cluster_size pod)) _
            (Still-query store (api.cluster_size pod) (store.size_keeps pod))
            (λ size.
              Ends-if store (Same store) (ltb_ℤ size (pos (count_running pods))) _ _
                (watch_cluster_size-Still pod n) (Still-pure store tt)))

  ensure_cluster_size-Still : (pod : Pod p) → Still store (ensure_cluster_size api cluster pod)
  unfolding ensure_cluster_size
  ensure_cluster_size-Still pod =
      Still->>= store (ask api.ticks) _ (Still-ask store api.ticks store.ticks_keeps)
        (watch_cluster_size-Still pod)

  create_missing-Only :
      (index : ℤ)
      → Ends
          (Only store (pod_name_at cluster index) true)
          (create_missing api cluster config_map index)
  unfolding create_missing
  create_missing-Only index =
      Only-then store (pod_name_at cluster index) true
        (create_pod_with_index api cluster config_map index none) _
        (create_pod_with_index-Only cluster store config_map index none) (λ _. Still-pure store tt)

  update_pod-Holding :
      (index : ℤ) (upgrade : Option VersionUpgrade) (pod : Pod p)
      → Ends
          (Holding (pod_name_at cluster index))
          (update_pod api cluster config_map index upgrade pod)
  unfolding update_pod
  update_pod-Holding index (some upgrade) pod = maybe_upgrade-Holding index upgrade
  update_pod-Holding index none pod =
      let name = pod_name_at cluster index in
      Ends-if store (Holding name)
        (text_eq (hash_of config_map) (text_at config_map_hash_annotation pod.annotations)) _ _
        (Holding-Still name (ensure_cluster_size api cluster pod) (ensure_cluster_size-Still pod))
        (Holding-Only name (restart_pod api cluster config_map index) (
          Only-then store name true (safe_restart_pod_with_index api cluster config_map index none)
            _ (restart-Only index none) (λ _. Still-pure store tt)))

  replace_pod-Only :
      (index : ℤ) (pod : Pod p)
      → IsNamed cluster store (pod_name_at cluster index) pod
      → Ends
          (Only store (pod_name_at cluster index) true)
          (replace_pod api cluster config_map index pod)
  replace_pod-Only index pod is =
      Only-over store (pod_name_at cluster index) false true (remove api pod) _
        (remove-Only cluster store (pod_name_at cluster index) pod is)
        (λ _. create_missing-Only index)

  found_some :
      (index : ℤ) (upgrade : Option VersionUpgrade) (pod : Pod p)
      → IsNamed cluster store (pod_name_at cluster index) pod
      → Ends
          (Holding (pod_name_at cluster index))
          (ensure_found api cluster config_map upgrade index (some pod))
  unfolding ensure_found
  found_some index upgrade pod is =
      let name = pod_name_at cluster index in
      Ends-if store (Holding name) (is_pod_in_failure_state pod) _ _
        (Holding-Only name (replace_pod api cluster config_map index pod)
          (replace_pod-Only index pod is))
        (update_pod-Holding index upgrade pod)

  ensures :
      (index : ℤ) (upgrade : Option VersionUpgrade) (x : Option (Pod p)) (s : S) (u : Unit {0})
      → Finds cluster store (pod_name_at cluster index) s x
      → (ensure_found api cluster config_map upgrade index x s).0 ≡ ok u
      → Only store
          (pod_name_at cluster index)
          true
          s
          (ensure_found api cluster config_map upgrade index x s).1.1
  unfolding ensure_found Ends
  ensures index upgrade none s u gone e = create_missing-Only index s u e
  ensures index upgrade (some pod) s u (there, is) e =
      let (at, others) = found_some index upgrade pod is s u e in (at there, others)

  pub ensure_pod-Only :
      (upgrade : Option VersionUpgrade) (index : ℤ)
      → Ends
          (Only store (pod_name_at cluster index) true)
          (ensure_pod api cluster config_map upgrade index)
  unfolding ensure_pod
  ensure_pod-Only upgrade index =
      let name = pod_name_at cluster index in
      Finds-then cluster store (Only store name true) index
        (ensure_found api cluster config_map upgrade index) (Only-Same cluster store name true)
        (ensures index upgrade)
