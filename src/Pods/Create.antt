-- ===== src/Pods/Create.antt =====
-- pkg/reconciler/pod.go: createPodWithIndex, which builds a pod with its volume claims, creates it
-- and waits until it is ready.
use aerospike_operator.Prelude.{
  Bool, true, false, Option, none, some, List, [], ◌∷◌, Result, ok, err, ℤ, ℕ, suc, if◌then◌else◌,
}
use aerospike_operator.Action.{pure, raise, lift, emit, ask, ◌>>=◌, ◌>>◌, attempt}
use aerospike_operator.Api.{AerospikeCluster, AerospikeNamespaceSpec}
use aerospike_operator.Versioning.Upgrade.{VersionUpgrade, get_strategy}
use aerospike_operator.Reconciler.Types.{ConfigMap}
use aerospike_operator.Pods.Platform.{Platform, Pod, Claim}
use aerospike_operator.Pods.Status.{is_pod_in_failure_state, is_pod_running_and_ready}
use aerospike_operator.Pods.Api.{
  Api, create_pod, event, node_started, node_started_failed, PodError, strategy_error,
  watch_timeout, watch_error, pod_deleted, failed_pod_deleted, PodAction, write, WatchEvent, added,
  modified, deleted, failure,
}
use aerospike_operator.Pods.Claims.{
  get_persistent_volume_claim, create_persistent_volume_claim, signal_mounted,
}
use aerospike_operator.Pods.Spec.{pod_of, add_storage, add_claim}
use aerospike_operator.Pods.Delete.{pod_name_at, list_cluster_pods, remove}

-- Whether the upgrade, if there is one, wants new volume claims.
unfoldable pub recreates : Option VersionUpgrade → Result PodError Bool
recreates none = ok false
recreates (some upgrade) = elim (get_strategy upgrade) [
  | ok strategy ↦ ok strategy.recreate_persistent_volume_claims
  | err e ↦ err (strategy_error e)
]

module _ {p : Platform} {S : Type 0} (api : Api p S) where
  -- A claim that is there is marked as mounted; if there is none, one is created.
  unfoldable pub mount_or_create :
      AerospikeCluster p.kube
      → Pod p
      → AerospikeNamespaceSpec
      → Option (Claim p)
      → PodAction p S (Claim p)
  mount_or_create cluster pod ns (some claim) = do signal_mounted api claim; pure claim
  mount_or_create cluster pod ns none = create_persistent_volume_claim api cluster pod ns

  unfoldable pub claim_of :
      AerospikeCluster p.kube → Pod p → Bool → AerospikeNamespaceSpec → PodAction p S (Claim p)
  claim_of cluster pod true ns = create_persistent_volume_claim api cluster pod ns
  claim_of cluster pod false ns = do
    claim ← get_persistent_volume_claim api cluster pod
    mount_or_create cluster pod ns claim

  -- The volumes of the namespaces, which are numbered from `index`.
  unfoldable pub add_volumes :
      AerospikeCluster p.kube
      → Bool
      → ℕ
      → List AerospikeNamespaceSpec
      → Pod p
      → PodAction p S (Pod p)
  add_volumes cluster recreate index [] pod = pure pod
  add_volumes cluster recreate index (ns ∷ rest) pod = do
    claim ← claim_of cluster pod recreate ns
    spec ← lift (add_storage index ns pod.spec)
    add_volumes cluster recreate (suc index) rest (record pod { spec = add_claim claim spec })

  abbrev pub discard : Pod p → PodAction p S Bool
  discard pod = do remove api pod; raise failed_pod_deleted

  -- What the condition of the watch does with a pod that was added or modified.
  unfoldable pub inspect : Pod p → PodAction p S Bool
  inspect pod =
      if is_pod_in_failure_state pod then discard pod else pure (is_pod_running_and_ready pod)

  abbrev pub look_at : Pod p → PodAction p S (Pod p) → PodAction p S (Pod p)
  look_at pod later = do ready ← inspect pod; if ready then pure pod else later

  unfoldable pub wait_until_ready : List (WatchEvent p) → PodAction p S (Pod p)
  wait_until_ready [] = raise watch_timeout
  wait_until_ready (failure ∷ rest) = raise watch_error
  wait_until_ready (deleted pod ∷ rest) = raise pod_deleted
  wait_until_ready (added pod ∷ rest) = look_at pod (wait_until_ready rest)
  wait_until_ready (modified pod ∷ rest) = look_at pod (wait_until_ready rest)

  -- The event on the end of the wait.
  unfoldable pub report : Result PodError (Pod p) → PodAction p S (Pod p)
  report (ok pod) = do emit (event node_started); pure pod
  report (err e) = do emit (event node_started_failed); raise e

  unfoldable pub start_pod : Pod p → PodAction p S (Pod p)
  start_pod pod = do
    created ← write (create_pod pod) (api.post_pod pod)
    events ← ask (api.watch created)
    outcome ← attempt (wait_until_ready events)
    report outcome

  unfoldable pub create_pod_with_index :
      AerospikeCluster p.kube → ConfigMap → ℤ → Option VersionUpgrade → PodAction p S (Pod p)
  create_pod_with_index cluster config_map index upgrade = do
    pods ← list_cluster_pods api cluster
    pod ← lift (pod_of cluster config_map (pod_name_at cluster index) pods)
    recreate ← lift (recreates upgrade)
    with_volumes ← add_volumes cluster recreate 0 cluster.spec.namespaces pod
    start_pod with_volumes
