-- ===== src/Reconciler/Rendering.antt =====
-- What pkg/reconciler/configmap.go makes of the config map of a cluster.
use aerospike_operator.Prelude.{
  ◌&&◌, ◌≡◌, ◌⊎◌, inl, inr, refl, sym, subst, ◌∙◌, Bool, true, false, not, ◌||◌, Option, none, some,
  [], ◌∷◌, Text, text_eq, text_eq_iff, Result, ok, err, ℤ, ℕ, pos, ◌≤ℤ◌, ◌<ℤ◌, ok-injective,
  if◌then◌else◌, arith, ltb_ℤ,
}
use aerospike_operator.Action.{pure, request}
use aerospike_operator.Api.{
  Kube, AerospikeCluster, AerospikeNamespaceSpec, ApiError, not_found, already_exists, other_error,
}
use aerospike_operator.Reconciler.Types.{ConfigMap}
use aerospike_operator.Pods.Spec.{hash_of}
use aerospike_operator.Reconciler.Configs.{
  replication_factor_of, get_namespace_props, create_config, update_config, ConfigApi, config_of,
  is_outdated, update_if_outdated, update_found, build_config, build_config_map, update_config_map,
  after_create, ensure_config_map,
}

chosen :
    (big positive : Bool) (f n factor : ℤ)
    → (if not big && positive then some f else if big then some n else none) ≡ some factor
    → ((big ≡ false) × (positive ≡ true) × (f ≡ factor)) ⊎ ((big ≡ true) × (n ≡ factor))
chosen true positive f n factor e = inr (refl, cc)
chosen false true f n factor e = inl (refl, refl, cc)
chosen false false f n factor e = absurd (cc)

fits : (n f : ℤ) → ltb_ℤ n f ≡ false → ltb_ℤ (pos 0) f ≡ true → (pos 0 <ℤ f) × (f ≤ℤ n)
fits n f small positive = (ground arith, ground arith)

at_most_itself : (n : ℤ) → n ≤ℤ n
at_most_itself n = ground arith

cut :
    (n : ℤ) (o : Option ℤ) (factor : ℤ)
    → pos 0 <ℤ n
    → replication_factor_of n o ≡ some factor
    → (pos 0 <ℤ factor) × (factor ≤ℤ n)
unfolding replication_factor_of
cut n none factor nodes e = absurd (cc)
cut n (some f) factor nodes e = elim (chosen (ltb_ℤ n f) (ltb_ℤ (pos 0) f) f n factor e) [
  | inl (small, positive, same) ↦
      subst (λ x. (pos 0 <ℤ x) × (x ≤ℤ n)) same (fits n f small positive)
  | inr (big, same) ↦ subst (λ x. (pos 0 <ℤ x) × (x ≤ℤ n)) same (nodes, at_most_itself n)
]

module _ {k : Kube} where
  -- Of a cluster that has nodes, the replication factor of a namespace that is rendered is positive and
  -- at most the number of nodes.
  pub get_namespace_props-Bounded :
      (cluster : AerospikeCluster k) (index : ℕ) (ns : AerospikeNamespaceSpec) (factor : ℤ)
      → pos 0 <ℤ cluster.spec.node_count
      → (get_namespace_props cluster index ns).replication_factor ≡ some factor
      → (pos 0 <ℤ factor) × (factor ≤ℤ cluster.spec.node_count)
  unfolding get_namespace_props
  get_namespace_props-Bounded cluster index ns factor nodes e =
      cut cluster.spec.node_count ns.replication_factor factor nodes e

not_outdated :
    (a b c d : Text) → (not (text_eq a b) || not (text_eq c d)) ≡ false → (a ≡ b) × (c ≡ d)
not_outdated a b c d e = ground (arith, text_eq_iff a b, text_eq_iff c d)

up_to_date : (a b c : Text) → a ≡ c → b ≡ c → (not (text_eq a b) || not (text_eq c b)) ≡ false
up_to_date a b c p q = ground (arith, text_eq_iff a b, text_eq_iff c b)

module _ {S : Type 0} (api : ConfigApi S) where
  -- The API answers a creation or an update with the object that it was sent.
  abbrev pub Echoes : Type 0
  Echoes =
      ((sent : ConfigMap) (s : S) (x : ConfigMap) → (api.create sent s).0 ≡ ok x → x ≡ sent)
      × ((sent : ConfigMap) (s : S) (x : ConfigMap) → (api.update sent s).0 ≡ ok x → x ≡ sent)

  -- The config map has the hash of this configuration, and a configuration with that hash.
  abbrev pub Holds : Text → ConfigMap → Type 0
  Holds config x = (hash_of x ≡ api.hash config) × (api.hash (config_of x) ≡ api.hash config)

  module _ (echoes : Echoes) {k : Kube} (cluster : AerospikeCluster k) where
    desired-Holds : Holds (build_config api cluster) (build_config_map api cluster)
    unfolding build_config_map
    desired-Holds = (refl, refl)

    current_kept :
        (current : ConfigMap)
        → Holds (build_config api cluster) current
        → is_outdated api (build_config_map api cluster) current ≡ false
    unfolding is_outdated build_config_map
    current_kept current (same_hash, same_config) =
        up_to_date (api.hash (config_of current)) (hash_of current)
          (api.hash (build_config api cluster)) same_config same_hash

    update_found-Holds :
        (answer : Result ApiError ConfigMap) (s : S) (x : ConfigMap)
        → (update_found api (build_config_map api cluster) answer s).0 ≡ ok x
        → Holds (build_config api cluster) x
    unfolding update_if_outdated is_outdated
    update_found-Holds (err e) s x h = absurd (cc)
    update_found-Holds (ok current) s x h =
        by_test (is_outdated api (build_config_map api cluster) current) refl h
      where
        by_test :
            (b : Bool)
            → is_outdated api (build_config_map api cluster) current ≡ b
            → ((if b
                  then request
                      (update_config (build_config_map api cluster))
                      (api.update (build_config_map api cluster))
                  else pure current)
                s).0
              ≡ ok x
            → Holds (build_config api cluster) x
        by_test true t h =
            subst (Holds (build_config api cluster))
              (sym (echoes.1 (build_config_map api cluster) s x h)) desired-Holds
        by_test false t h =
            let (same_config, same_hash) =
              not_outdated (api.hash (config_of current)) (hash_of current)
                (hash_of (build_config_map api cluster)) (hash_of current) t in
            subst (Holds (build_config api cluster)) (ok-injective h)
              (sym same_hash ∙ desired-Holds.0, same_config ∙ sym same_hash ∙ desired-Holds.0)

    -- Where the API answers with what it is sent, the config map that ensureConfigMap returns has the hash
    -- of the configuration that the cluster asks for, and so does the configuration that it holds.
    pub ensure_config_map-Holds :
        (s : S) (x : ConfigMap)
        → (ensure_config_map api cluster s).0 ≡ ok x
        → Holds (build_config api cluster) x
    unfolding ensure_config_map update_config_map
    ensure_config_map-Holds s x h = go (api.create (build_config_map api cluster) s).0 refl h
      where
        go :
            (r : Result ApiError ConfigMap)
            → (api.create (build_config_map api cluster) s).0 ≡ r
            → (after_create api cluster (build_config_map api cluster) (
              r,
              (
                create_config (build_config_map api cluster) ∷ [],
                (api.create (build_config_map api cluster) s).1,
              ),
            )).0
              ≡ ok x
            → Holds (build_config api cluster) x
        go (ok made) e h =
            subst (Holds (build_config api cluster))
              (sym (echoes.0 (build_config_map api cluster) s x (e ∙ h))) desired-Holds
        go (err not_found) e h = absurd (cc)
        go (err (other_error m)) e h = absurd (cc)
        go (err already_exists) e h = update_found-Holds _ _ x h

    -- Where the stored config map exists and has the hash of the configuration that the cluster asks for, and so
    -- does the configuration that it holds, ensureConfigMap returns it and requests no update.
    pub ensure_config_map-stable :
        (s : S) (current : ConfigMap)
        → (api.create (build_config_map api cluster) s).0 ≡ err already_exists
        → (api.get cluster.namespace
            (build_config_map api cluster).name
            (api.create (build_config_map api cluster) s).1).0
          ≡ ok current
        → Holds (build_config api cluster) current
        → ((ensure_config_map api cluster s).0 ≡ ok current)
          × ((ensure_config_map api cluster s).1.0
              ≡ create_config (build_config_map api cluster) ∷ [])
    unfolding ensure_config_map update_config_map update_if_outdated
    ensure_config_map-stable s current there found holds =
        (rw (there, found, kept) refl, rw (there, found, kept) refl)
      where
        kept : is_outdated api (build_config_map api cluster) current ≡ false
        kept = current_kept current holds
