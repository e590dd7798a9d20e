-- ===== src/Pods/Storage.antt =====
-- The storage that createPodWithIndex of pkg/reconciler/pod.go adds to a pod for each namespace.
use mathlib.Core.List.{append_assoc, append-nil}
use aerospike_operator.Pods.Create.{add_volumes, claim_of}
use aerospike_operator.Action.Returns.{
  Returns, Returns->>=, Returns-any, Returns-pure, Returns-lift, Returns-map,
}
use aerospike_operator.Action.{lift}
use aerospike_operator.Prelude.{
  ◌∙◌, ap, subst, ◌≡◌, ◌⊎◌, inl, inr, refl, sym, Bool, true, false, List, [], ◌∷◌, ◌++◌, Text,
  codes, text_eq, text_eq_iff, ok, err, ℕ, suc, ok-injective, if◌then◌else◌,
}
use aerospike_operator.Api.{AerospikeCluster, AerospikeNamespaceSpec}
use aerospike_operator.Reconciler.Types.{ConfigMap}
use aerospike_operator.Pods.Platform.{Platform, Pod, PodSpec, Claim, Volume}
use aerospike_operator.Pods.Status.{text_at}
use aerospike_operator.Pods.Api.{Effect, Api, PodError}
use aerospike_operator.Pods.Claims.{get_index_based_device_path}
use aerospike_operator.Pods.Spec.{config_map_hash_annotation, add_storage, add_claim, volume_name}
use aerospike_operator.Pods.Shape.{volume_for, Provides, Bare, Shaped}

snoc_append :
    {A : Type 0} (made old new later : List A) (x : A)
    → made ≡ new ++ later
    → new ≡ old ++ x ∷ []
    → made ≡ old ++ x ∷ later
snoc_append made old new later x e f = e ∙ ap (λ l. l ++ later) f ∙ append_assoc old (x ∷ []) later

module _ {p : Platform} where
  -- What the storage of a namespace with this index changes in the spec of a pod.
  abbrev Stored : ℕ → AerospikeNamespaceSpec → PodSpec p → PodSpec p → Type 0
  Stored n ns spec new =
      (new.image ≡ spec.image)
      × (new.volumes ≡ spec.volumes)
      × (((ns.storage.type ≡ codes "device")
            × (new.volume_devices
                ≡ spec.volume_devices ++ (volume_name ns.name, get_index_based_device_path n) ∷ [])
            × (new.volume_mounts ≡ spec.volume_mounts))
          ⊎ ((ns.storage.type ≡ codes "file")
              × (new.volume_devices ≡ spec.volume_devices)
              × (new.volume_mounts
                  ≡ spec.volume_mounts
                    ++ (volume_name ns.name, codes "/opt/aerospike/data/" ++ ns.name) ∷ [])))

  one_of :
      (P : PodSpec p → Type 0) (b c : Bool) (x y new : PodSpec p) (error : PodError)
      → (if b then ok x else if c then ok y else err error) ≡ ok new
      → (b ≡ true → P x)
      → (c ≡ true → P y)
      → P new
  one_of P true c x y new error e h g = subst P (ok-injective e) (h refl)
  one_of P false true x y new error e h g = subst P (ok-injective e) (g refl)
  one_of P false false x y new error e h g = absurd (cc)

  add_storage-Stored :
      (n : ℕ) (ns : AerospikeNamespaceSpec) (spec new : PodSpec p)
      → add_storage n ns spec ≡ ok new
      → Stored n ns spec new
  unfolding add_storage
  add_storage-Stored n ns spec new e =
      one_of (Stored n ns spec) (text_eq ns.storage.type (codes "device"))
        (text_eq ns.storage.type (codes "file")) _ _ new _ e
        (λ d. (refl, refl, inl ((text_eq_iff ns.storage.type (codes "device")).0 d, refl, refl)))
        (λ f. (refl, refl, inr ((text_eq_iff ns.storage.type (codes "file")).0 f, refl, refl)))

  -- What the namespaces, from this index on, change in a pod.
  abbrev Extends : ℕ → List AerospikeNamespaceSpec → Pod p → Pod p → Type 0
  Extends n l pod made =
      (made.name ≡ pod.name)
      × (made.namespace ≡ pod.namespace)
      × (made.labels ≡ pod.labels)
      × (made.annotations ≡ pod.annotations)
      × (made.spec.image ≡ pod.spec.image)
      × ((volumes : List Volume) × (devices : List (Text × Text)) × (mounts : List (Text × Text))
          × (made.spec.volumes ≡ pod.spec.volumes ++ volumes)
          × (made.spec.volume_devices ≡ pod.spec.volume_devices ++ devices)
          × (made.spec.volume_mounts ≡ pod.spec.volume_mounts ++ mounts)
          × Provides p n l volumes devices mounts)

  one_more :
      (n : ℕ) (ns : AerospikeNamespaceSpec) (l : List AerospikeNamespaceSpec) (claim : Claim p)
      (pod made : Pod p) (spec : PodSpec p)
      → Stored n ns pod.spec spec
      → Extends (suc n) l (record pod { spec = add_claim claim spec }) made
      → Extends n (ns ∷ l) pod made
  unfolding add_claim
  one_more n ns l claim pod made spec (image, same, inl (type, devices, mounts))
        (a, b, c, d, kept, (vs, ds, ms, v, dv, mn, rest)) =
      (
        a,
        b,
        c,
        d,
        kept ∙ image,
        (
          _ ∷ vs,
          _ ∷ ds,
          ms,
          snoc_append made.spec.volumes pod.spec.volumes _ vs (volume_for claim) v
              (ap (λ x. x ++ volume_for claim ∷ []) same),
          snoc_append made.spec.volume_devices pod.spec.volume_devices _ ds _ dv devices,
          mn ∙ ap (λ x. x ++ ms) mounts,
          (claim, vs, ds, refl, inl (type, refl, rest)),
        ),
      )
  one_more n ns l claim pod made spec (image, same, inr (type, devices, mounts))
        (a, b, c, d, kept, (vs, ds, ms, v, dv, mn, rest)) =
      (
        a,
        b,
        c,
        d,
        kept ∙ image,
        (
          _ ∷ vs,
          ds,
          _ ∷ ms,
          snoc_append made.spec.volumes pod.spec.volumes _ vs (volume_for claim) v
              (ap (λ x. x ++ volume_for claim ∷ []) same),
          dv ∙ ap (λ x. x ++ ds) devices,
          snoc_append made.spec.volume_mounts pod.spec.volume_mounts _ ms _ mn mounts,
          (claim, vs, ms, refl, inr (type, refl, rest)),
        ),
      )

module _ {p : Platform} {S : Type 0} (cluster : AerospikeCluster p.kube) (config_map : ConfigMap)
    (api : Api p S) where
  add_volumes-Extends :
      (recreate : Bool) (n : ℕ) (l : List AerospikeNamespaceSpec) (pod : Pod p)
      → Returns (Extends n l pod) (add_volumes api cluster recreate n l pod)
  unfolding add_volumes
  add_volumes-Extends recreate n [] pod =
      Returns-pure S (Effect p) PodError (Extends n [] pod) pod (
        refl,
        refl,
        refl,
        refl,
        refl,
        (
          [],
          [],
          [],
          sym (append-nil _),
          sym (append-nil _),
          sym (append-nil _),
          (refl, refl, refl),
        ),
      )
  add_volumes-Extends recreate n (ns ∷ l) pod =
      Returns->>= (λ _. Unit) _ (claim_of api cluster pod recreate ns) _
        (Returns-any (claim_of api cluster pod recreate ns))
        (λ claim _.
          Returns->>= (Stored n ns pod.spec) _ (lift (add_storage n ns pod.spec)) _
            (Returns-lift S (Effect p) PodError _ (add_storage n ns pod.spec)
              (add_storage-Stored n ns pod.spec))
            (λ spec stored.
              Returns-map (Extends (suc n) l (record pod { spec = add_claim claim spec }))
                (Extends n (ns ∷ l) pod)
                (add_volumes api cluster recreate (suc n) l
                  (record pod { spec = add_claim claim spec }))
                (λ made. one_more n ns l claim pod made spec stored)
                (add_volumes-Extends recreate (suc n) l
                  (record pod { spec = add_claim claim spec }))))

  extended :
      (name : Text) (l : List AerospikeNamespaceSpec) (pod made : Pod p)
      → Bare cluster config_map name pod
      → Extends 0 l pod made
      → Shaped cluster config_map name l made
  extended name l pod made ((named, space, labels, hash, image), vols, devs, mnts)
        (a, b, c, d, kept, (vs, ds, ms, v, dv, mn, rest)) =
      (
        (
          a ∙ named,
          b ∙ space,
          c ∙ labels,
          ap (text_at config_map_hash_annotation) d ∙ hash,
          kept ∙ image,
        ),
        (
          vs,
          ms,
          v ∙ ap (λ x. x ++ vs) vols,
          mn ∙ ap (λ x. x ++ ms) mnts,
          subst (λ x. Provides p 0 l vs x ms) (sym (dv ∙ ap (λ x. x ++ ds) devs)) rest,
        ),
      )

  -- The namespaces add their storage to a pod that has none.
  pub add_volumes-Shaped :
      (name : Text) (recreate : Bool) (l : List AerospikeNamespaceSpec) (pod : Pod p)
      → Bare cluster config_map name pod
      → Returns (Shaped cluster config_map name l) (add_volumes api cluster recreate 0 l pod)
  add_volumes-Shaped name recreate l pod bare =
      Returns-map (Extends 0 l pod) (Shaped cluster config_map name l)
        (add_volumes api cluster recreate 0 l pod) (λ made. extended name l pod made bare)
        (add_volumes-Extends recreate 0 l pod)
