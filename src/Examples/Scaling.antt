-- ===== src/Examples/Scaling.antt =====
-- ensurePods on a server that stores pods by namespace and name: from no pod to one.
use aerospike_operator.Prelude.{
  ◌≡◌, ◌≢◌, refl, sym, subst, ap, ◌&&◌, ◌||◌, arith, Bool, true, false, none, [], ◌∷◌, length,
  codes, Text, text_eq, text_eq_iff, Result, ok, err, ok-injective, if◌then◌else◌,
}
use aerospike_operator.Api.{ApiError, not_found}
use aerospike_operator.Pods.Platform.{Pod}
use aerospike_operator.Pods.Api.{Api}
use aerospike_operator.Pods.Delete.{list_cluster_pods}
use aerospike_operator.Pods.Ensure.{ensure_pods}
use aerospike_operator.Action.{for_each}
use aerospike_operator.Prelude.Decimal.{print_ℤ}
use aerospike_operator.Pods.Status.{
  any_container_failed, is_pod_in_failure_state, is_pod_running_and_ready,
}
use aerospike_operator.Pods.Claims.{
  create_persistent_volume_claim, filter_available, get_persistent_volume_claim, most_recent,
}
use aerospike_operator.Pods.Sizes.{compute_cpu_request, compute_memory_request}
use aerospike_operator.Pods.Spec.{add_storage, pod_of, spec_of}
use aerospike_operator.Pods.Delete.{get_pod_with_index, pod_name_at}
use aerospike_operator.Pods.Create.{
  add_volumes, claim_of, create_pod_with_index, inspect, mount_or_create, recreates, report,
  start_pod, wait_until_ready,
}
use aerospike_operator.Pods.Ensure.{
  create_missing, down_to, ensure_found, ensure_pod, surplus, up_to,
}
use aerospike_operator.Pods.Views.{Store}
use aerospike_operator.Pods.Scales.{HasPods, ensure_pods-HasPods}
use aerospike_operator.Examples.Pods.{toy, Pods, server, single, config, first_pod}

abbrev is_at : Text → Text → Pod toy → Bool
is_at namespace name pod = text_eq pod.name name && text_eq pod.namespace namespace

unfoldable has : Text → Text → Pods → Bool
has namespace name [] = false
has namespace name (pod ∷ rest) = is_at namespace name pod || has namespace name rest

unfoldable find : Text → Text → Pods → Result ApiError (Pod toy)
find namespace name [] = err not_found
find namespace name (pod ∷ rest) =
    let later = find namespace name rest in if is_at namespace name pod then ok pod else later

unfoldable drop : Text → Text → Pods → Pods
drop namespace name [] = []
drop namespace name (pod ∷ rest) =
    let later = drop namespace name rest in if is_at namespace name pod then later else pod ∷ later

abbrev named_server : Api toy Pods
named_server = record server {
  get_pod = λ namespace name s. (find namespace name s, s);
  remove_pod = λ pod s. (ok tt, drop pod.namespace pod.name s);
}

abbrev StandsAt : Text → Text → Pod toy → Type 0
StandsAt namespace name pod = (pod.name ≡ name) × (pod.namespace ≡ namespace)

is_at-StandsAt :
    (namespace name : Text) (pod : Pod toy)
    → is_at namespace name pod ≡ true
    → StandsAt namespace name pod
is_at-StandsAt namespace name pod e =
    (ground (arith, text_eq_iff pod.name name), ground (arith, text_eq_iff pod.namespace namespace))

first_or_later :
    (P : Pod toy → Type 0) (b h : Bool) (q pod : Pod toy) (later : Result ApiError (Pod toy))
    → (b ≡ true → P q)
    → (later ≡ ok pod → (h ≡ true) × P pod)
    → (if b then ok q else later) ≡ ok pod
    → ((b || h) ≡ true) × P pod
first_or_later P true h q pod later f g e = (refl, subst P (ok-injective e) (f refl))
first_or_later P false h q pod later f g e = g e

find-found :
    (namespace name : Text) (s : Pods) (pod : Pod toy)
    → find namespace name s ≡ ok pod
    → (has namespace name s ≡ true) × StandsAt namespace name pod
unfolding find has
find-found namespace name [] pod e = absurd (cc)
find-found namespace name (q ∷ rest) pod e =
    first_or_later (StandsAt namespace name) (is_at namespace name q) (has namespace name rest) q
      pod (find namespace name rest) (is_at-StandsAt namespace name q)
      (find-found namespace name rest pod) e

find-missing :
    (namespace name : Text) (s : Pods)
    → find namespace name s ≡ err not_found
    → has namespace name s ≡ false
unfolding find has
find-missing namespace name [] e = refl
find-missing namespace name (q ∷ rest) e = ground (arith, find-missing namespace name rest)

has-post :
    (pod : Pod toy) (s : Pods) (namespace : Text)
    → pod.namespace ≡ namespace
    → (has namespace pod.name (pod ∷ s) ≡ true)
      × ((other : Text) → other ≢ pod.name → has namespace other (pod ∷ s) ≡ has namespace other s)
unfolding has
has-post pod s namespace e = (
  ground (arith, text_eq_iff pod.name pod.name, text_eq_iff pod.namespace namespace),
  λ other d. ground (arith, text_eq_iff pod.name other),
)

has-drop :
    (namespace name : Text) (s : Pods)
    → (has namespace name (drop namespace name s) ≡ false)
      × ((other : Text)
          → other ≢ name
          → has namespace other (drop namespace name s) ≡ has namespace other s)
unfolding has drop
has-drop namespace name [] = (refl, λ other d. refl)
has-drop namespace name (q ∷ rest) =
    let (gone, others) = has-drop namespace name rest in
    (
      ground (arith, gone),
      λ other d. ground (arith, others other d, text_eq_iff q.name name, text_eq_iff q.name other),
    )

abbrev named_store : Store named_server single.namespace
named_store = record {
  view = λ s name. has single.namespace name s;
  found = λ name s pod e.
      let (there, stands) = find-found single.namespace name s pod e in (there, stands.0, stands.1);
  missing = λ name s e. find-missing single.namespace name s e;
  posted = λ pod new s space e. has-post pod s single.namespace space;
  removed = λ pod s space e.
      subst
        (λ n.
          (has single.namespace pod.name (drop n pod.name s) ≡ false)
          × ((other : Text)
              → other ≢ pod.name
              → has single.namespace other (drop n pod.name s) ≡ has single.namespace other s))
        (sym space) (has-drop single.namespace pod.name s);
  get_pod_keeps = λ n m s. refl;
  list_pods_keeps = λ n m s. refl;
  watch_keeps = λ pod s. refl;
  get_claim_keeps = λ n m s. refl;
  list_claims_keeps = λ n m s. refl;
  post_claim_keeps = λ c s. refl;
  send_patch_keeps = λ c d s. refl;
  nodes_keeps = λ pod s. refl;
  migration_keeps = λ pod n s. refl;
  wait_keeps = λ pod n s. refl;
  info_keeps = λ pod n s. refl;
  size_keeps = λ pod s. refl;
  ticks_keeps = λ s. refl;
  now_keeps = λ s. refl;
}

no_pods : HasPods single named_store 0 []
unfolding has
no_pods j = ground arith

creates_one : (ensure_pods named_server single config none []).0 ≡ ok tt
unfolding any_container_failed is_pod_running_and_ready is_pod_in_failure_state filter_available
    most_recent get_persistent_volume_claim create_persistent_volume_claim compute_cpu_request
    compute_memory_request spec_of pod_of add_storage pod_name_at list_cluster_pods
    get_pod_with_index recreates mount_or_create claim_of add_volumes inspect wait_until_ready
    report start_pod create_pod_with_index down_to surplus up_to create_missing ensure_found
    ensure_pod ensure_pods for_each print_ℤ text_eq find
creates_one = refl

ensure_pods-HasPods_example :
    HasPods single named_store 1 (ensure_pods named_server single config none []).1.1
unfolding list_cluster_pods
ensure_pods-HasPods_example =
    ensure_pods-HasPods single named_store config none 0 1 [] refl no_pods
      (λ pods e. ap length (ok-injective (sym e))) creates_one

abbrev stray : Pod toy
stray = record first_pod { name = codes "as-cluster-2" }

-- A cluster of one node whose only pod has the index 2 gets a pod of the index 0, and keeps the other.
keeps_stray :
    has single.namespace
      (codes "as-cluster-2")
      (ensure_pods named_server single config none (stray ∷ [])).1.1
    ≡ true
unfolding any_container_failed is_pod_running_and_ready is_pod_in_failure_state filter_available
    most_recent get_persistent_volume_claim create_persistent_volume_claim compute_cpu_request
    compute_memory_request spec_of pod_of add_storage pod_name_at list_cluster_pods
    get_pod_with_index recreates mount_or_create claim_of add_volumes inspect wait_until_ready
    report start_pod create_pod_with_index down_to surplus up_to create_missing ensure_found
    ensure_pod ensure_pods for_each print_ℤ text_eq find has
keeps_stray = refl
