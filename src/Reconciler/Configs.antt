-- ===== src/Reconciler/Configs.antt =====
-- pkg/reconciler/configmap.go: the config map of a cluster. The templates of constants.go are rendered by
-- `render`, from the properties of the namespaces, and `hash` is asstrings.Hash.
use aerospike_operator.Prelude.{
  Bool, not, ◌&&◌, ◌||◌, Option, none, some, List, [], ◌∷◌, ◌++◌, Text, codes, text_eq, Result, ok,
  err, ℤ, ℕ, suc, pos, ltb_ℤ, if◌then◌else◌,
}
use aerospike_operator.Prelude.Decimal.{atoi}
use aerospike_operator.Action.{Action, pure, raise, ask, request, ◌>>=◌}
use aerospike_operator.Api.{
  Kube, AerospikeCluster, AerospikeNamespaceSpec, ApiError, not_found, already_exists, other_error,
}
use aerospike_operator.Reconciler.Types.{ConfigMap}
use aerospike_operator.Pods.Durations.{trim_last}
use aerospike_operator.Pods.Spec.{hash_of, default_file_path}
use aerospike_operator.Pods.Claims.{get_index_based_device_path}

abbrev pub default_memory_size : Text
default_memory_size = codes "4G"

-- The map that getNamespaceProps fills: what it has no key for is `none`.
pub record NamespaceProps : Type 0 where
  pub name : Text
  pub replication_factor : Option ℤ
  pub memory_size : Text
  pub default_ttl : Option ℤ
  pub storage_type : Text
  pub storage_size : Option Text
  pub file_path : Option Text
  pub device_path : Option Text
  pub data_in_memory : Option Bool

-- The replication factor, cut to the number of nodes; one that is not positive is left out.
unfoldable pub replication_factor_of : ℤ → Option ℤ → Option ℤ
replication_factor_of node_count none = none
replication_factor_of node_count (some factor) =
    if not (ltb_ℤ node_count factor) && ltb_ℤ (pos 0) factor
    then some factor
    else if ltb_ℤ node_count factor
    then some node_count
    else none

unfoldable pub memory_size_of : Option Text → Text
memory_size_of none = default_memory_size
memory_size_of (some size) = if text_eq size [] then default_memory_size else size

unfoldable pub default_ttl_of : Option Text → Option ℤ
default_ttl_of none = none
default_ttl_of (some ttl) = atoi (trim_last b's' ttl)

module _ {k : Kube} where
  unfoldable pub get_namespace_props :
      AerospikeCluster k → ℕ → AerospikeNamespaceSpec → NamespaceProps
  get_namespace_props cluster index namespace =
      let is_file = text_eq namespace.storage.type (codes "file") in
      record {
        name = namespace.name;
        replication_factor =
            replication_factor_of cluster.spec.node_count namespace.replication_factor;
        memory_size = memory_size_of namespace.memory_size;
        default_ttl = default_ttl_of namespace.default_ttl;
        storage_type = namespace.storage.type;
        storage_size = if is_file then some namespace.storage.size else none;
        file_path = if is_file then some default_file_path else none;
        device_path =
            if not is_file && text_eq namespace.storage.type (codes "device")
            then some (get_index_based_device_path index)
            else none;
        data_in_memory = namespace.storage.data_in_memory;
      }

  -- The properties of the namespaces, which are numbered from `index`.
  unfoldable pub props_from :
      AerospikeCluster k → ℕ → List AerospikeNamespaceSpec → List NamespaceProps
  props_from cluster index [] = []
  props_from cluster index (namespace ∷ rest) =
      get_namespace_props cluster index namespace ∷ props_from cluster (suc index) rest

-- The creation of a config map, and its update.
pub data ConfigEffect : Type 0 where
  create_config update_config : ConfigMap → ConfigEffect

pub record ConfigApi (S : Type 0) : Type 0 where
  pub create : ConfigMap → S → Result ApiError ConfigMap × S
  pub get : Text → Text → S → Result ApiError ConfigMap × S
  pub update : ConfigMap → S → Result ApiError ConfigMap × S
  pub render : List NamespaceProps → Text
  pub hash : Text → Text

abbrev pub config_of : ConfigMap → Text
config_of config_map = elim config_map.config [ some config ↦ config | none ↦ [] ]

abbrev pub Config : Type 0 → Type 0
Config S = Action S ConfigEffect ApiError ConfigMap

module _ {S : Type 0} (api : ConfigApi S) where
  unfoldable pub is_outdated : ConfigMap → ConfigMap → Bool
  is_outdated desired current =
      not (text_eq (api.hash (config_of current)) (hash_of current))
      || not (text_eq (hash_of desired) (hash_of current))

  unfoldable pub update_if_outdated : ConfigMap → ConfigMap → Config S
  update_if_outdated desired current =
      if is_outdated desired current
      then request (update_config desired) (api.update desired)
      else pure current

  abbrev pub update_found : ConfigMap → Result ApiError ConfigMap → Config S
  update_found desired (ok current) = update_if_outdated desired current
  update_found desired (err e) = raise e

module _ {k : Kube} {S : Type 0} (api : ConfigApi S) where
  unfoldable pub build_config : AerospikeCluster k → Text
  build_config cluster = api.render (props_from cluster 0 cluster.spec.namespaces)

  unfoldable pub build_config_map : AerospikeCluster k → ConfigMap
  build_config_map cluster = record {
    name = cluster.name;
    hash = some (api.hash (build_config cluster));
    config = some (build_config cluster);
  }

  unfoldable pub update_config_map : AerospikeCluster k → ConfigMap → Config S
  update_config_map cluster desired =
      ask (api.get cluster.namespace desired.name) >>= update_found api desired

  abbrev pub after_create :
      AerospikeCluster k
      → ConfigMap
      → Result ApiError ConfigMap × (List ConfigEffect × S)
      → Result ApiError ConfigMap × (List ConfigEffect × S)
  after_create cluster desired (err already_exists, (log, t)) =
      let (answer, (more, u)) = update_config_map cluster desired t in (answer, (log ++ more, u))
  after_create cluster desired (err not_found, rest) = (err not_found, rest)
  after_create cluster desired (err (other_error e), rest) = (err (other_error e), rest)
  after_create cluster desired (ok created, rest) = (ok created, rest)

  unfoldable pub ensure_config_map : AerospikeCluster k → Config S
  ensure_config_map cluster s =
      let desired = build_config_map cluster in
      after_create cluster desired (request (create_config desired) (api.create desired) s)
