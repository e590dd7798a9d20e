-- ===== src/Examples/Configs.antt =====
-- pkg/reconciler/configmap.go with a server that keeps one config map.
use aerospike_operator.Prelude.{
  ◌≡◌, ◌≤ℤ◌, ◌<ℤ◌, refl, Option, none, some, List, [], ◌∷◌, Text, codes, text_eq, Result, ok, err,
  pos, arith, ◌++◌,
}
use aerospike_operator.Api.{ApiError, not_found, already_exists}
use aerospike_operator.Reconciler.Types.{ConfigMap}
use aerospike_operator.Reconciler.Configs.{
  NamespaceProps, get_namespace_props, replication_factor_of, ConfigApi, create_config,
  build_config, build_config_map, ensure_config_map, update_config_map, update_if_outdated,
  is_outdated, props_from,
}
use aerospike_operator.Reconciler.Rendering.{
  Echoes, Holds, get_namespace_props-Bounded, ensure_config_map-Holds, ensure_config_map-stable,
}
use aerospike_operator.Examples.Clusters.{ns_with, small}

abbrev Stored : Type 0
Stored = Option ConfigMap

abbrev create_in : ConfigMap → Stored → Result ApiError ConfigMap × Stored
create_in sent none = (ok sent, some sent)
create_in sent (some x) = (err already_exists, some x)

abbrev get_from : Stored → Result ApiError ConfigMap
get_from none = err not_found
get_from (some x) = ok x

-- The configuration is the names of the namespaces, and is its own hash.
abbrev names_of : List NamespaceProps → Text
names_of [] = []
names_of (props ∷ rest) = props.name ++ names_of rest

abbrev store : ConfigApi Stored
store = record {
  create = create_in;
  get = λ namespace name s. (get_from s, s);
  update = λ sent s. (ok sent, some sent);
  render = names_of;
  hash = λ t. t;
}

store-Echoes : Echoes store
store-Echoes = (created, λ sent s x e. cc)
  where
    created :
        (sent : ConfigMap) (s : Stored) (x : ConfigMap) → (create_in sent s).0 ≡ ok x → x ≡ sent
    created sent none x e = cc
    created sent (some y) x e = absurd (cc)

abbrev held : ConfigMap
held = record {
  name = codes "as-cluster";
  hash = some (codes "as-ns");
  config = some (codes "as-ns");
}

get_namespace_props-Bounded_example : (pos 0 <ℤ pos 2) × (pos 2 ≤ℤ pos 2)
unfolding get_namespace_props replication_factor_of
get_namespace_props-Bounded_example =
    get_namespace_props-Bounded small 0 (ns_with (some (pos 3))) (pos 2) (omega arith) refl

ensure_config_map-Holds_example : Holds store (codes "as-ns") held
unfolding ensure_config_map build_config_map build_config update_config_map update_if_outdated
    is_outdated props_from get_namespace_props text_eq
ensure_config_map-Holds_example =
    ensure_config_map-Holds store store-Echoes small
      (some (record held { config = some (codes "other") })) held refl

ensure_config_map-stable_example :
    ((ensure_config_map store small (some held)).0 ≡ ok held)
    × ((ensure_config_map store small (some held)).1.0
        ≡ create_config (build_config_map store small) ∷ [])
unfolding build_config_map build_config props_from get_namespace_props
ensure_config_map-stable_example =
    ensure_config_map-stable store store-Echoes small (some held) held refl refl (refl, refl)
