-- ===== src/Examples/Pods.antt =====
-- pkg/reconciler/pod.go and pvc.go on a concrete cluster.
use aerospike_operator.Prelude.{
  add_int, ◌≢◌, arith, ◌≡◌, refl, inl, inr, true, false, none, some, List, [], ◌∷◌, Text, codes,
  text_eq, Result, ok, err, pos, length, if◌then◌else◌,
}
use aerospike_operator.Api.{AerospikeCluster, ApiError, not_found}
use aerospike_operator.Reconciler.Types.{ConfigMap}
use aerospike_operator.Pods.Platform.{
  config_map_source, empty_dir, claim_source, pending, Platform, Pod, Claim, running,
}
use aerospike_operator.Pods.Api.{migrations, Api, delete_pod, WatchEvent, modified, deleted}
use aerospike_operator.Pods.Status.{
  any_container_failed, equal_fold, is_pod_in_failure_state, is_pod_running_and_ready, text_at,
}
use aerospike_operator.Pods.Durations.{has_byte, parse_duration}
use aerospike_operator.Pods.Claims.{
  pod_annotation, pvc_ttl_annotation, last_unmounted_on_annotation, claim_for,
  create_persistent_volume_claim, filter_available, get_persistent_volume_claim, is_available,
  most_recent,
}
use aerospike_operator.Pods.Sizes.{
  compute_cpu_request, compute_memory_request, compute_resource_limits, memory_of, sum_memory,
}
use aerospike_operator.Pods.Spec.{
  config_map_hash_annotation, add_claim, add_storage, blanks, compute_node_id, init_command, join,
  other_hosts, peer_list, pod_of, spec_of,
}
use aerospike_operator.Pods.Delete.{
  host_of, find_node, get_pod_with_index, list_cluster_pods, node_id_annotation,
  pod_has_migrations_in_progress, pod_name_at, remove, safe_delete, safe_delete_pod_with_index,
  wait_for_deletion, wait_for_migrations,
}
use aerospike_operator.Pods.Create.{
  add_volumes, claim_of, create_pod_with_index, inspect, mount_or_create, recreates, report,
  start_pod, wait_until_ready,
}
use aerospike_operator.Pods.Ensure.{
  create_missing, down_to, ensure_found, ensure_pod, ensure_pods, surplus, up_to,
}
use aerospike_operator.Prelude.Dict
use aerospike_operator.Action.{for_each}
use aerospike_operator.Prelude.Decimal.{print_ℤ}
use aerospike_operator.Pods.Trace.{Safe}
use aerospike_operator.Pods.Wanted.{rules_of, Fits, Suits}
use aerospike_operator.Pods.SafeEnsure.{ensure_pods-Safe, ensure_pods-creates, ensure_pods-claims}
use aerospike_operator.Reconciler.Reach.{IsReached, ensure_pods-IsReached}
use aerospike_operator.Asinit.{
  asinit_config, replace_from, starts_with, peer_lines, fields, pieces, without_empty,
}
use aerospike_operator.Asinit.Peers.{fields-peer_list}
use aerospike_operator.Collector.Claims.{
  ClaimApi, handle_claim, collect_since, collect_expired, collect_unmounted, delete_unless_mounted,
  delete,
}
use aerospike_operator.Collector.Reuse.{ExpiredAt, Unused, handle_claim-only, collected-unavailable}
use aerospike_operator.Examples.Clusters.{ns_with, plain, cluster_with}

-- Quantities and durations are not interpreted.
abbrev pub toy : Platform
toy = record {
  kube = plain;
  Quantity = Text;
  parse_quantity = λ s. some s;
  exceeds = λ a b. false;
  is_zero = λ q. false;
  requests_cpu = λ r. none;
  requests_memory = λ r. none;
  has_limits = λ r. false;
  limits_cpu = λ r. none;
  limits_memory = λ r. none;
  Float = Unit {0};
  parse_float = λ s. none;
  print_hours_of_days = λ f. [];
  parse_go_duration = λ s. ok (pos (length s));
  parse_time = λ s. ok (pos (length s));
  print_time = λ t. codes "now";
  md5_hex = λ s. s;
  debug_enabled = false;
  operator_version = codes "test";
}

abbrev pub Pods : Type 0
Pods = List (Pod toy)

abbrev find_pod : Text → Pods → Result ApiError (Pod toy)
find_pod name [] = err not_found
find_pod name (pod ∷ rest) =
    let later = find_pod name rest in if text_eq pod.name name then ok pod else later

abbrev without : Text → Pods → Pods
without name [] = []
without name (pod ∷ rest) =
    let later = without name rest in if text_eq pod.name name then later else pod ∷ later

abbrev ready : Pod toy → Pod toy
ready pod = record pod { status = record pod.status { phase = running; ready = true } }

abbrev follow : Pod toy → Pods → List (WatchEvent toy)
follow pod s = elim (find_pod pod.name s) [
  | ok found ↦ modified (ready found) ∷ []
  | err e ↦ deleted pod ∷ []
]

-- A server whose state is the list of its pods, which starts each pod at once.
abbrev pub server : Api toy Pods
server = record {
  get_pod = λ namespace name s. (find_pod name s, s);
  list_pods = λ namespace cluster s. (ok s, s);
  post_pod = λ pod s. (ok pod, pod ∷ s);
  remove_pod = λ pod s. (ok tt, without pod.name s);
  watch = λ pod s. (follow pod s, s);
  get_claim = λ namespace name s. (err not_found, s);
  list_claims = λ namespace cluster s. (ok [], s);
  post_claim = λ claim s. (ok claim, s);
  send_patch = λ old new s. (ok tt, s);
  nodes = λ pod s. (ok (text_at node_id_annotation pod.annotations ∷ []), s);
  migration_in_progress = λ pod name s. (ok false, s);
  wait_until_migrated = λ pod name s. (ok tt, s);
  request_info = λ pod command s. (ok ((codes "build", codes "4.2.0.3") ∷ []), s);
  cluster_size = λ pod s. (ok (pos (length s)), s);
  ticks = λ s. (2, s);
  now = λ s. (pos 0, s);
  sort_pods = λ less pods. pods;
  sort_claims = λ less claims. claims;
}

abbrev pub single : AerospikeCluster plain
single = cluster_with (codes "4.2.0.3") (pos 1) none

abbrev pub config : ConfigMap
config = record { name = codes "as-cluster"; hash = some (codes "abc"); config = none }

abbrev idle_cluster : AerospikeCluster plain
idle_cluster = cluster_with (codes "4.2.0.3") (pos 0) none

-- The pod that is created for the index 0.
abbrev pub first_pod : Pod toy
first_pod = record {
  name = codes "as-cluster-0";
  namespace = codes "prod";
  labels = (codes "app", codes "aerospike") ∷ (codes "cluster", codes "as-cluster") ∷ [];
  annotations =
      (config_map_hash_annotation, codes "abc") ∷ (node_id_annotation, codes "aas-cluster-0") ∷ [];
  spec = record {
    init_image = codes "quay.io/travelaudience/aerospike-operator-tools:test";
    init_command = init_command (codes "aas-cluster-0") [];
    image = codes "aerospike/aerospike-server:4.2.0.3";
    cpu_request = codes "1";
    memory_request = codes "4Gi";
    limits = record { cpu = none; memory = none };
    volume_mounts =
        (codes "aerospike-conf", codes "/aerospike-conf")
        ∷ (codes "data-ns-as-ns", codes "/opt/aerospike/data/as-ns")
        ∷ [];
    volume_devices = [];
    volumes =
        record {
          name = codes "aerospike-conf-src";
          source = config_map_source (codes "as-cluster");
        }
        ∷ record { name = codes "aerospike-conf"; source = empty_dir }
        ∷ record { name = codes "data-ns-as-ns"; source = claim_source [] }
        ∷ [];
    hostname = codes "as-cluster-0";
    subdomain = codes "as-cluster";
    node_selector = none;
    tolerations = none;
    anti_affinity = some (codes "as-cluster");
  };
  status = record {
    phase = pending;
    ready = false;
    pod_ip = [];
    init_container_statuses = [];
    container_statuses = [];
  };
}

abbrev first_claim : Claim toy
first_claim = claim_for single (codes "as-cluster-0") (ns_with none) (codes "1G")

abbrev bare : Pod toy
bare = record first_pod { spec = record first_pod.spec { volumes = [] } }

ensure_pods-Safe_example :
    Safe
      (rules_of idle_cluster config)
      []
      (ensure_pods server idle_cluster config none (bare ∷ [])).1.0
ensure_pods-Safe_example = ensure_pods-Safe idle_cluster config server none (bare ∷ [])

-- The pod is deleted after its migrations were asked for.
deleted_when_idle :
    (ensure_pods server idle_cluster config none (bare ∷ [])).1.0
    ≡ migrations bare false ∷ delete_pod bare ∷ []
unfolding equal_fold pod_name_at find_node list_cluster_pods get_pod_with_index
    pod_has_migrations_in_progress wait_for_deletion remove wait_for_migrations safe_delete
    safe_delete_pod_with_index down_to surplus up_to ensure_pods for_each print_ℤ Dict.lookup
    text_eq
deleted_when_idle = refl

ensure_pods-creates_example : Fits single config first_pod
unfolding any_container_failed is_pod_running_and_ready is_pod_in_failure_state claim_for
    filter_available most_recent get_persistent_volume_claim create_persistent_volume_claim
    memory_of sum_memory compute_cpu_request compute_memory_request compute_resource_limits join
    compute_node_id other_hosts blanks peer_list spec_of pod_of add_storage add_claim pod_name_at
    list_cluster_pods get_pod_with_index recreates mount_or_create claim_of add_volumes inspect
    wait_until_ready report start_pod create_pod_with_index down_to surplus up_to create_missing
    ensure_found ensure_pod ensure_pods for_each print_ℤ add_int Dict.lookup text_eq
ensure_pods-creates_example =
    ensure_pods-creates single config server none [] first_pod (inr (inl refl))

ensure_pods-IsReached_example : IsReached single first_pod.labels
unfolding any_container_failed is_pod_running_and_ready is_pod_in_failure_state claim_for
    filter_available most_recent get_persistent_volume_claim create_persistent_volume_claim
    memory_of sum_memory compute_cpu_request compute_memory_request compute_resource_limits join
    compute_node_id other_hosts blanks peer_list spec_of pod_of add_storage add_claim pod_name_at
    list_cluster_pods get_pod_with_index recreates mount_or_create claim_of add_volumes inspect
    wait_until_ready report start_pod create_pod_with_index down_to surplus up_to create_missing
    ensure_found ensure_pod ensure_pods for_each print_ℤ add_int Dict.lookup text_eq
ensure_pods-IsReached_example =
    ensure_pods-IsReached server single config none [] first_pod (inr (inl refl))

ensure_pods-claims_example : Suits single config first_claim
unfolding any_container_failed is_pod_running_and_ready is_pod_in_failure_state filter_available
    most_recent get_persistent_volume_claim create_persistent_volume_claim compute_cpu_request
    compute_memory_request spec_of pod_of add_storage pod_name_at list_cluster_pods
    get_pod_with_index recreates mount_or_create claim_of add_volumes inspect wait_until_ready
    report start_pod create_pod_with_index down_to surplus up_to create_missing ensure_found
    ensure_pod ensure_pods for_each print_ℤ text_eq
ensure_pods-claims_example = ensure_pods-claims single config server none [] first_claim (inl refl)

-- A garbage collector whose clock shows 100.
abbrev collector : ClaimApi toy Pods
collector = record {
  get_pod = λ namespace name s. (find_pod name s, s);
  delete_claim = λ namespace name s. (ok tt, s);
  now = λ s. (pos 100, s);
}

abbrev late_server : Api toy Pods
late_server = record server { now = λ s. (pos 100, s) }

abbrev old_claim : Claim toy
old_claim = record first_claim {
  annotations =
      (pod_annotation, codes "as-cluster-0")
      ∷ (pvc_ttl_annotation, codes "5h")
      ∷ (last_unmounted_on_annotation, codes "2018")
      ∷ [];
}

handle_claim-only_example :
    (old_claim ≡ old_claim)
    × ExpiredAt old_claim (pos 100)
    × Unused collector old_claim old_claim []
unfolding handle_claim collect_since collect_expired collect_unmounted delete_unless_mounted delete
    parse_duration has_byte Dict.lookup text_eq
handle_claim-only_example = handle_claim-only collector old_claim old_claim [] (inl refl)

collected-unavailable_example :
    (is_available late_server (codes "as-cluster-0") old_claim []).0 ≢ ok true
unfolding handle_claim collect_since collect_expired collect_unmounted delete_unless_mounted delete
    parse_duration has_byte Dict.lookup text_eq
collected-unavailable_example =
    collected-unavailable collector late_server old_claim (codes "as-cluster-0") [] [] (inl refl)
      (omega arith)

fields-peer_list_example :
    fields b',' (peer_list single (codes "as-cluster-1") (first_pod ∷ []))
    ≡ codes "as-cluster-0.as-cluster.prod" ∷ []
unfolding other_hosts host_of text_eq has_byte
fields-peer_list_example =
    fields-peer_list single (codes "as-cluster-1") (first_pod ∷ []) (refl, tt)

config_of_second_pod :
    asinit_config
      (codes "a1")
      (peer_list single (codes "as-cluster-1") (first_pod ∷ []))
      (codes "node-id __SERVICE__NODE_ID__ __NETWORK__HEARTBEAT__MESH_SEED_ADDRESS_PORT__")
    ≡ codes "node-id a1 mesh-seed-address-port as-cluster-0.as-cluster.prod 3002\n"
unfolding asinit_config replace_from starts_with peer_lines fields pieces without_empty peer_list
    blanks other_hosts host_of join text_eq
config_of_second_pod = refl
