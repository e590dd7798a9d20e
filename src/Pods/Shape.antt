-- ===== src/Pods/Shape.antt =====
-- The pods that createPodWithIndex of pkg/reconciler/pod.go builds.
use aerospike_operator.Prelude.Dict
use aerospike_operator.Prelude.{
  subst, >>=-eq-ok, ◌≡◌, ◌⊎◌, refl, List, [], ◌∷◌, ◌++◌, Text, codes, text_eq, ok, ℕ, suc,
  ok-injective,
}
use aerospike_operator.Pods.Sizes.{compute_cpu_request, compute_memory_request}
use aerospike_operator.Api.{AerospikeCluster, AerospikeNamespaceSpec}
use aerospike_operator.Reconciler.Types.{ConfigMap}
use aerospike_operator.Pods.Platform.{
  Platform, Pod, PodSpec, Claim, label_app_key, label_app_val, label_cluster_key,
  label_namespace_key, Volume, config_map_source, claim_source, empty_dir,
}
use aerospike_operator.Pods.Status.{text_at}
use aerospike_operator.Pods.Claims.{get_index_based_device_path}
use aerospike_operator.Pods.Spec.{hash_of, config_map_hash_annotation, pod_of, spec_of, volume_name}

-- The volume of a claim, with the name of the namespace that the claim is labelled with.
abbrev pub volume_for : {p : Platform} → Claim p → Volume
volume_for claim = record {
  name = volume_name (text_at label_namespace_key claim.labels);
  source = claim_source claim.name;
}

-- What the namespaces of a cluster add to a pod, where the first has this index: for each, in order, a
-- volume of a claim, and a device with the path of its index or a mount of its own, by its storage type.
abbrev pub Provides :
    Platform
    → ℕ
    → List AerospikeNamespaceSpec
    → List Volume
    → List (Text × Text)
    → List (Text × Text)
    → Type 0
Provides p n [] volumes devices mounts = (volumes ≡ []) × (devices ≡ []) × (mounts ≡ [])
Provides p n (ns ∷ l) volumes devices mounts =
    (claim : Claim p) × (others : List Volume) × (rest : List (Text × Text)) × (volumes
      ≡ volume_for claim ∷ others)
    × (((ns.storage.type ≡ codes "device")
          × (devices ≡ (volume_name ns.name, get_index_based_device_path n) ∷ rest)
          × Provides p (suc n) l others rest mounts)
        ⊎ ((ns.storage.type ≡ codes "file")
            × (mounts ≡ (volume_name ns.name, codes "/opt/aerospike/data/" ++ ns.name) ∷ rest)
            × Provides p (suc n) l others devices rest))

-- The volumes of the configuration, the config map and an empty directory, come first, then these.
abbrev WithConfig : ConfigMap → List Volume → List Volume → Type 0
WithConfig config_map later volumes =
    volumes
    ≡ record { name = codes "aerospike-conf-src"; source = config_map_source config_map.name }
      ∷ record { name = codes "aerospike-conf"; source = empty_dir }
      ∷ later

abbrev WithMount : List (Text × Text) → List (Text × Text) → Type 0
WithMount later mounts = mounts ≡ (codes "aerospike-conf", codes "/aerospike-conf") ∷ later

module _ {p : Platform} (cluster : AerospikeCluster p.kube) (config_map : ConfigMap) where
  -- The pod has this name, the labels by which the cluster finds it, the hash of the config map and the
  -- image of the cluster's version.
  abbrev Identified : Text → Pod p → Type 0
  Identified name pod =
      (pod.name ≡ name)
      × (pod.namespace ≡ cluster.namespace)
      × (pod.labels ≡ (label_app_key, label_app_val) ∷ (label_cluster_key, cluster.name) ∷ [])
      × (text_at config_map_hash_annotation pod.annotations ≡ hash_of config_map)
      × (pod.spec.image ≡ codes "aerospike/aerospike-server:" ++ cluster.spec.version)

  -- A pod without the storage of the namespaces.
  abbrev pub Bare : Text → Pod p → Type 0
  Bare name pod =
      Identified name pod
      × WithConfig config_map [] pod.spec.volumes
      × (pod.spec.volume_devices ≡ [])
      × WithMount [] pod.spec.volume_mounts

  -- A pod with the volumes, the devices and the mounts of these namespaces.
  abbrev pub Shaped : Text → List AerospikeNamespaceSpec → Pod p → Type 0
  Shaped name l pod =
      Identified name pod
      × ((volumes : List Volume) × (mounts : List (Text × Text)) × WithConfig config_map volumes
            pod.spec.volumes
          × WithMount mounts pod.spec.volume_mounts
          × Provides p 0 l volumes pod.spec.volume_devices mounts)

  spec_of-fields :
      (name : Text) (pods : List (Pod p)) (spec : PodSpec p)
      → spec_of cluster config_map name pods ≡ ok spec
      → (spec.image ≡ codes "aerospike/aerospike-server:" ++ cluster.spec.version)
        × WithConfig config_map [] spec.volumes
        × (spec.volume_devices ≡ [])
        × WithMount [] spec.volume_mounts
  unfolding spec_of
  spec_of-fields name pods spec e =
      let (cpu, _, after_cpu) = >>=-eq-ok (compute_cpu_request p cluster) _ e in
      let (memory, _, built) = >>=-eq-ok (compute_memory_request p cluster) _ after_cpu in
      subst
        (λ (x : PodSpec p).
          (x.image ≡ codes "aerospike/aerospike-server:" ++ cluster.spec.version)
          × WithConfig config_map [] x.volumes
          × (x.volume_devices ≡ [])
          × WithMount [] x.volume_mounts)
        (ok-injective built) (refl, refl, refl, refl)

  pub pod_of-Bare :
      (name : Text) (pods : List (Pod p)) (pod : Pod p)
      → pod_of cluster config_map name pods ≡ ok pod
      → Bare name pod
  unfolding pod_of Dict.lookup text_eq
  pod_of-Bare name pods pod e =
      let (spec, found, built) = >>=-eq-ok (spec_of cluster config_map name pods) _ e in
      let (image, volumes, devices, mounts) = spec_of-fields name pods spec found in
      subst (Bare name) (ok-injective built)
        ((refl, refl, refl, refl, image), volumes, devices, mounts)
