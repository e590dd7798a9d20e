-- ===== src/Pods/Spec.antt =====
-- pkg/reconciler/pod.go: the pod that createPodWithIndex builds, before its volume claims are known.
use aerospike_operator.Prelude.{
  suc, zero, suc, false, Option, none, some, List, [], ◌∷◌, ◌++◌, Text, codes, text_eq, Result, ok,
  err, ℕ, ◌>>=◌, if◌then◌else◌,
}
use aerospike_operator.Api.{AerospikeCluster, AerospikeNamespaceSpec}
use aerospike_operator.Reconciler.Types.{ConfigMap}
use aerospike_operator.Pods.Platform.{
  Platform, Pod, PodSpec, pending, Volume, config_map_source, claim_source, empty_dir, Claim,
  label_app_key, label_app_val, label_cluster_key, label_namespace_key,
}
use aerospike_operator.Pods.Status.{text_at}
use aerospike_operator.Pods.Api.{PodError, unsupported_storage}
use aerospike_operator.Pods.Claims.{get_index_based_device_path}
use aerospike_operator.Pods.Sizes.{
  compute_cpu_request, compute_memory_request, compute_resource_limits,
}
use aerospike_operator.Pods.Delete.{node_id_annotation, host_of}

abbrev pub config_map_hash_annotation : Text
config_map_hash_annotation = codes "aerospike.travelaudience.com/config-map-hash"

abbrev pub initial_config_volume_name : Text
initial_config_volume_name = codes "aerospike-conf-src"

abbrev pub final_config_volume_name : Text
final_config_volume_name = codes "aerospike-conf"

abbrev pub initial_config_file_path : Text
initial_config_file_path = codes "/aerospike-conf-src/aerospike.conf"

abbrev pub final_config_file_path : Text
final_config_file_path = codes "/aerospike-conf/aerospike.conf"

abbrev pub namespace_volume_prefix : Text
namespace_volume_prefix = codes "data-ns"

abbrev pub default_file_path : Text
default_file_path = codes "/opt/aerospike/data/"

-- `strings.Join(peers, ",")`
unfoldable pub join : ℕ → List Text → Text
join sep [] = []
join sep (x ∷ []) = x
join sep (x ∷ y ∷ rest) = x ++ sep ∷ join sep (y ∷ rest)

abbrev pub take : ℕ → Text → Text
take zero s = []
take (suc n) [] = []
take (suc n) (c ∷ s) = c ∷ take n s

-- The letter `a` and the first 15 digits of the hash.
unfoldable pub compute_node_id : Platform → Text → Text
compute_node_id p pod_name = b'a' ∷ take 15 (p.md5_hex pod_name)

abbrev pub tools_image : Platform → Text
tools_image p = codes "quay.io/travelaudience/aerospike-operator-tools:" ++ p.operator_version

unfoldable pub init_command : Text → Text → List Text
init_command node_id peers =
    codes "/usr/local/bin/asinit"
    ∷ codes "--node-id"
    ∷ node_id
    ∷ codes "--peer-list"
    ∷ peers
    ∷ codes "--source-config"
    ∷ initial_config_file_path
    ∷ codes "--target-config"
    ∷ final_config_file_path
    ∷ []

-- The annotation of a config map that has none is empty.
abbrev pub hash_of : ConfigMap → Text
hash_of config_map = elim config_map.hash [ some h ↦ h | none ↦ [] ]

abbrev pub volume_name : Text → Text
volume_name ns = namespace_volume_prefix ++ b'-' ∷ ns

abbrev pub config_volumes : ConfigMap → List Volume
config_volumes config_map =
    record { name = initial_config_volume_name; source = config_map_source config_map.name }
    ∷ record { name = final_config_volume_name; source = empty_dir }
    ∷ []

-- The other pods of the cluster, from whose hosts the pod is kept away, by the name of the cluster.
abbrev pub anti_affinity_of : (p : Platform) → AerospikeCluster p.kube → Option Text
anti_affinity_of p cluster = if p.debug_enabled then none else some cluster.name

module _ {p : Platform} where
  -- The hosts of the other pods. `make([]string, len(pods))` puts an empty one in front for each pod.
  unfoldable pub other_hosts : AerospikeCluster p.kube → Text → List (Pod p) → List Text
  other_hosts cluster pod_name [] = []
  other_hosts cluster pod_name (pod ∷ rest) =
      let later = other_hosts cluster pod_name rest in
      if text_eq pod_name pod.name then later else host_of cluster pod.name ∷ later

  unfoldable pub blanks : List (Pod p) → List Text
  blanks [] = []
  blanks (pod ∷ rest) = [] ∷ blanks rest

  unfoldable pub peer_list : AerospikeCluster p.kube → Text → List (Pod p) → Text
  peer_list cluster pod_name pods = join b',' (blanks pods ++ other_hosts cluster pod_name pods)

  unfoldable pub spec_of :
      AerospikeCluster p.kube → ConfigMap → Text → List (Pod p) → Result PodError (PodSpec p)
  spec_of cluster config_map pod_name pods = do
    cpu_request ← compute_cpu_request p cluster
    memory_request ← compute_memory_request p cluster
    ok (record {
      init_image = tools_image p;
      init_command = init_command (compute_node_id p pod_name) (peer_list cluster pod_name pods);
      image = codes "aerospike/aerospike-server:" ++ cluster.spec.version;
      cpu_request = cpu_request;
      memory_request = memory_request;
      limits = compute_resource_limits p cluster;
      volume_mounts = (final_config_volume_name, codes "/aerospike-conf") ∷ [];
      volume_devices = [];
      volumes = config_volumes config_map;
      hostname = pod_name;
      subdomain = cluster.name;
      node_selector = cluster.spec.node_selector;
      tolerations = cluster.spec.tolerations;
      anti_affinity = anti_affinity_of p cluster;
    })

  unfoldable pub pod_of :
      AerospikeCluster p.kube → ConfigMap → Text → List (Pod p) → Result PodError (Pod p)
  pod_of cluster config_map pod_name pods = do
    spec ← spec_of cluster config_map pod_name pods
    ok (record {
      name = pod_name;
      namespace = cluster.namespace;
      labels = (label_app_key, label_app_val) ∷ (label_cluster_key, cluster.name) ∷ [];
      annotations =
          (config_map_hash_annotation, hash_of config_map)
          ∷ (node_id_annotation, compute_node_id p pod_name)
          ∷ [];
      spec = spec;
      status = record {
        phase = pending;
        ready = false;
        pod_ip = [];
        init_container_statuses = [];
        container_statuses = [];
      };
    })

  -- The storage of a namespace: a device, or a mount.
  unfoldable pub add_storage : ℕ → AerospikeNamespaceSpec → PodSpec p → Result PodError (PodSpec p)
  add_storage index ns spec =
      if text_eq ns.storage.type (codes "device")
      then ok (record spec {
        volume_devices =
            spec.volume_devices ++ (volume_name ns.name, get_index_based_device_path index) ∷ [];
      })
      else if text_eq ns.storage.type (codes "file")
      then ok (record spec {
        volume_mounts =
            spec.volume_mounts ++ (volume_name ns.name, default_file_path ++ ns.name) ∷ [];
      })
      else err (unsupported_storage ns.storage.type)

  unfoldable pub add_claim : Claim p → PodSpec p → PodSpec p
  add_claim claim spec = record spec {
    volumes =
        spec.volumes
        ++ record {
          name = volume_name (text_at label_namespace_key claim.labels);
          source = claim_source claim.name;
        }
          ∷ [];
  }
