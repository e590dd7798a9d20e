-- ===== src/Pods/Wanted.antt =====
-- What the pods and the claims are like that pkg/reconciler/pod.go and pvc.go create.
use aerospike_operator.Prelude.Dict
use aerospike_operator.Prelude.{
  arith, ◌≡◌, ◌≢◌, ◌⊎◌, inl, inr, refl, true, Bool-cases, Option, none, some, [], ◌∷◌, ◌++◌, Text,
  codes, text_eq, text_eq_iff, text_eq_refl, if◌then◌else◌, Occurs, ℤ, if◌then◌else◌,
}
use aerospike_operator.Api.{AerospikeCluster, AerospikeNamespaceSpec}
use aerospike_operator.Reconciler.Types.{ConfigMap}
use aerospike_operator.Pods.Platform.{Platform, Pod, Claim, VolumeMode, block, filesystem}
use aerospike_operator.Pods.Claims.{claim_for, belongs_to, pvc_ttl_annotation, volume_mode_of}
use aerospike_operator.Pods.Shape.{Shaped}
use aerospike_operator.Pods.Delete.{pod_name_at}
use aerospike_operator.Pods.Ensure.{wanted}
use aerospike_operator.Pods.Trace.{Rules}

-- The text that is asked for, or 0d where none is.
abbrev Ttl : Option Text → Text → Type 0
Ttl (some asked) ttl = ttl ≡ asked
Ttl none ttl = ttl ≡ codes "0d"

-- The mode of a volume is that of the storage type, and none where the type is unknown.
abbrev Mode : Text → Option VolumeMode → Type 0
Mode type mode =
    ((type ≡ codes "device") × (mode ≡ some block))
    ⊎ ((type ≡ codes "file") × (mode ≡ some filesystem))
    ⊎ ((type ≢ codes "device") × (type ≢ codes "file") × (mode ≡ none))

-- The class that is asked for, if it is a text that is not empty.
abbrev Class : Option Text → Option Text → Type 0
Class none class = class ≡ none
Class (some []) class = class ≡ none
Class (some (c ∷ name)) class = class ≡ some (c ∷ name)

-- A claim for a pod of this name and the storage of this namespace: it stands in the namespace of the
-- cluster and is named after the two, its labels lead to the cluster and to the namespace, its
-- annotations to the pod, by which the pod finds it again, and it has the TTL, the size, the volume
-- mode and the storage class that the namespace asks for.
abbrev pub IsClaimOf :
    (p : Platform)
    → AerospikeCluster p.kube
    → Text
    → AerospikeNamespaceSpec
    → p.Quantity
    → Claim p
    → Type 0
IsClaimOf p cluster name ns size claim =
    (claim.namespace ≡ cluster.namespace)
    × (claim.generate_name ≡ name ++ b'-' ∷ (ns.name ++ b'-' ∷ []))
    × (claim.labels
        ≡ (codes "app", codes "aerospike")
          ∷ (codes "namespace", ns.name)
          ∷ (codes "cluster", cluster.name)
          ∷ [])
    × (belongs_to name claim ≡ true)
    × ((ttl : Text) × (Dict.lookup pvc_ttl_annotation claim.annotations ≡ some ttl)
        × Ttl ns.storage.persistent_volume_claim_ttl ttl)
    × (claim.size ≡ size)
    × Mode ns.storage.type claim.volume_mode
    × Class ns.storage.storage_class_name claim.storage_class_name

volume_mode_of-Mode : (type : Text) → Mode type (volume_mode_of type)
unfolding volume_mode_of
volume_mode_of-Mode type = elim (Bool-cases (text_eq type (codes "device"))) [
  | inl d ↦ inl ((text_eq_iff type (codes "device")).0 d, rw d refl)
  | inr d ↦ elim (Bool-cases (text_eq type (codes "file"))) [
    | inl f ↦ inr (inl ((text_eq_iff type (codes "file")).0 f, rw (d, f) refl))
    | inr f ↦ inr (
        inr (
          λ e. absurd (ground (arith, (text_eq_iff type (codes "device")).1 e)),
          λ e. absurd (ground (arith, (text_eq_iff type (codes "file")).1 e)),
          rw (d, f) refl,
        ))
  ]
]

chosen-Ttl : (asked : Option Text) → Ttl asked (elim asked [ some ttl ↦ ttl | none ↦ codes "0d" ])
chosen-Ttl none = refl
chosen-Ttl (some asked) = refl

chosen-Class :
    (asked : Option Text)
    → Class asked
        (elim asked [ some class ↦ if text_eq class [] then none else some class | none ↦ none ])
unfolding text_eq
chosen-Class none = refl
chosen-Class (some []) = refl
chosen-Class (some (c ∷ class)) = refl

module _ (p : Platform) (cluster : AerospikeCluster p.kube) (name : Text)
    (ns : AerospikeNamespaceSpec) (size : p.Quantity) where
  pub claim_for-IsClaimOf : IsClaimOf p cluster name ns size (claim_for cluster name ns size)
  unfolding claim_for belongs_to Dict.lookup text_eq
  claim_for-IsClaimOf = (
    refl,
    refl,
    refl,
    text_eq_refl name,
    (_, refl, chosen-Ttl ns.storage.persistent_volume_claim_ttl),
    refl,
    volume_mode_of-Mode ns.storage.type,
    chosen-Class ns.storage.storage_class_name,
  )

module _ {p : Platform} (cluster : AerospikeCluster p.kube) (config_map : ConfigMap) where
  -- A pod for one of the indices below the cluster's node count, with the storage of its namespaces.
  abbrev pub Fits : Pod p → Type 0
  Fits pod =
      (i : ℤ) × Occurs i (wanted cluster.spec.node_count)
      × Shaped cluster config_map (pod_name_at cluster i) cluster.spec.namespaces pod

  -- A claim for such an index and a namespace of the cluster, as the pod of the index needs it.
  abbrev pub Suits : Claim p → Type 0
  Suits claim =
      (i : ℤ) × (ns : AerospikeNamespaceSpec) × (size : p.Quantity) × Occurs i
        (wanted cluster.spec.node_count)
      × Occurs ns cluster.spec.namespaces
      × (p.parse_quantity ns.storage.size ≡ some size)
      × (claim ≡ claim_for cluster (pod_name_at cluster i) ns size)
      × IsClaimOf p cluster (pod_name_at cluster i) ns size claim

  abbrev pub rules_of : Rules p
  rules_of = record { fits = Fits; suits = Suits }
