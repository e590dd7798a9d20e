-- ===== src/Pods/Claims.antt =====
-- pkg/reconciler/pvc.go: the persistent volume claims of a pod.
use aerospike_operator.Prelude.{
  arith, ◌≡◌, ◌+◌, ℕ, Bool, true, false, Option, none, some, List, [], ◌∷◌, ◌++◌, Text, codes,
  text_eq, Result, ok, err, ℤ, pos, ltb_ℤ, eqb_ℤ, ◌+ℤ◌, if◌then◌else◌,
}
use aerospike_operator.Prelude.Dict
use aerospike_operator.Prelude.Dict.{lookup}
use aerospike_operator.Prelude.Decimal.{print_ℤ}
use aerospike_operator.Action.{pure, lift, ask, ◌>>=◌}
use aerospike_operator.Api.{AerospikeCluster, AerospikeNamespaceSpec}
use aerospike_operator.Pods.Platform.{
  Platform, Pod, Claim, VolumeMode, block, filesystem, label_app_key, label_app_val,
  label_cluster_key, label_namespace_key,
}
use aerospike_operator.Pods.Api.{
  Api, PodError, parse_error, PodAction, read, write, patch_claim, create_claim,
}
use aerospike_operator.Pods.Durations.{parse_duration}

abbrev pub pod_annotation : Text
pod_annotation = codes "aerospike.travelaudience.com/pod-name"

abbrev pub pvc_ttl_annotation : Text
pvc_ttl_annotation = codes "aerospike.travelaudience.com/pvc-ttl"

abbrev pub last_unmounted_on_annotation : Text
last_unmounted_on_annotation = codes "aerospike.travelaudience.com/last-unmounted-on"

abbrev pub default_persistent_volume_claim_ttl : Text
default_persistent_volume_claim_ttl = codes "0d"

abbrev pub default_device_path_prefix : Text
default_device_path_prefix = codes "/dev/xvd"

-- The sum of the byte `a` and the index is printed as a number.
unfoldable pub get_index_based_device_path : ℕ → Text
get_index_based_device_path index = default_device_path_prefix ++ print_ℤ (pos (b'a' + index))

-- volumeModeMap; a type that is not in it gives the empty mode.
unfoldable pub volume_mode_of : Text → Option VolumeMode
volume_mode_of type =
    if text_eq type (codes "device")
    then some block
    else if text_eq type (codes "file")
    then some filesystem
    else none

abbrev pub time_of : Platform → Text → Result PodError ℤ
time_of p s = elim (p.parse_time s) [ ok t ↦ ok t | err e ↦ err (parse_error e) ]

abbrev pub size_of : (p : Platform) → AerospikeNamespaceSpec → Result PodError p.Quantity
size_of p ns = elim (p.parse_quantity ns.storage.size) [
  | some q ↦ ok q
  | none ↦ err (parse_error ns.storage.size)
]

pub size_of-eq-ok :
    (p : Platform) (ns : AerospikeNamespaceSpec) (size : p.Quantity)
    → size_of p ns ≡ ok size
    → p.parse_quantity ns.storage.size ≡ some size
size_of-eq-ok p ns size e = ground arith

module _ {p : Platform} where
  -- fromMostRecent.Less
  abbrev pub more_recent : Claim p → Claim p → Bool
  more_recent a b = ltb_ℤ b.created a.created

  abbrev pub set_pvc_annotation : Claim p → Text → Text → Claim p
  set_pvc_annotation claim key value = record claim {
    annotations = Dict.insert key value claim.annotations;
  }

  abbrev pub remove_pvc_annotation : Claim p → Text → Claim p
  remove_pvc_annotation claim key = record claim { annotations = Dict.remove key claim.annotations }

  abbrev pub first_of : List (Claim p) → Option (Claim p)
  first_of [] = none
  first_of (claim ∷ rest) = some claim

  unfoldable pub belongs_to : Text → Claim p → Bool
  belongs_to pod_name claim = elim (lookup pod_annotation claim.annotations) [
    | some n ↦ text_eq n pod_name
    | none ↦ false
  ]

  -- The claim that is sent to the server, which names it.
  unfoldable pub claim_for :
      AerospikeCluster p.kube → Text → AerospikeNamespaceSpec → p.Quantity → Claim p
  claim_for cluster pod_name ns size = record {
    name = [];
    generate_name = pod_name ++ b'-' ∷ (ns.name ++ b'-' ∷ []);
    namespace = cluster.namespace;
    created = pos 0;
    labels =
        (label_app_key, label_app_val)
        ∷ (label_namespace_key, ns.name)
        ∷ (label_cluster_key, cluster.name)
        ∷ [];
    annotations =
        (pod_annotation, pod_name)
        ∷ (
          pvc_ttl_annotation,
          elim ns.storage.persistent_volume_claim_ttl [
            | some ttl ↦ ttl
            | none ↦ default_persistent_volume_claim_ttl
          ],
        )
        ∷ [];
    size = size;
    volume_mode = volume_mode_of ns.storage.type;
    storage_class_name = elim ns.storage.storage_class_name [
      | some class ↦ if text_eq class [] then none else some class
      | none ↦ none
    ];
  }

  module _ {S : Type 0} (api : Api p S) where
    unfoldable pub patch_pvc : Claim p → Claim p → PodAction p S (Unit {0})
    patch_pvc old new = write (patch_claim old new) (api.send_patch old new)

    unfoldable pub signal_mounted : Claim p → PodAction p S (Unit {0})
    signal_mounted claim =
        patch_pvc claim (remove_pvc_annotation claim last_unmounted_on_annotation)

    unfoldable pub signal_unmounted : Claim p → PodAction p S (Unit {0})
    signal_unmounted claim = do
      now ← ask api.now
      patch_pvc claim (set_pvc_annotation claim last_unmounted_on_annotation (p.print_time now))

    -- A claim that was unmounted at a time has not expired. The clock is read only where it counts.
    unfoldable pub has_time_left : ℤ → ℤ → PodAction p S Bool
    has_time_left unmounted expiration =
        if eqb_ℤ expiration (pos 0)
        then pure true
        else do now ← ask api.now; pure (ltb_ℤ now (unmounted +ℤ expiration))

    -- The time to live that the claim names, if it names one.
    unfoldable pub within_ttl : ℤ → Option Text → PodAction p S Bool
    within_ttl unmounted none = pure false
    within_ttl unmounted (some ttl) = do
      expiration ← lift (parse_duration p ttl)
      has_time_left unmounted expiration

    -- The time at which the claim was unmounted, if it was.
    unfoldable pub was_unmounted : Claim p → Option Text → PodAction p S Bool
    was_unmounted claim none = pure false
    was_unmounted claim (some unmounted_string) = do
      unmounted ← lift (time_of p unmounted_string)
      within_ttl unmounted (lookup pvc_ttl_annotation claim.annotations)

    -- The claim belongs to the pod of this name, was unmounted, and has not expired.
    unfoldable pub is_available : Text → Claim p → PodAction p S Bool
    is_available pod_name claim =
        if belongs_to pod_name claim
        then was_unmounted claim (lookup last_unmounted_on_annotation claim.annotations)
        else pure false

    unfoldable pub filter_available : Text → List (Claim p) → PodAction p S (List (Claim p))
    filter_available pod_name [] = pure []
    filter_available pod_name (claim ∷ rest) = do
      available ← is_available pod_name claim
      later ← filter_available pod_name rest
      pure (if available then claim ∷ later else later)

    -- The most recent claim. An empty list is not sorted.
    unfoldable pub most_recent : List (Claim p) → Option (Claim p)
    most_recent [] = none
    most_recent (claim ∷ rest) = first_of (api.sort_claims more_recent (claim ∷ rest))

    unfoldable pub get_persistent_volume_claim :
        AerospikeCluster p.kube → Pod p → PodAction p S (Option (Claim p))
    get_persistent_volume_claim cluster pod = do
      claims ← read (api.list_claims cluster.namespace cluster.name)
      pod_claims ← filter_available pod.name claims
      pure (most_recent pod_claims)

    abbrev pub post :
        AerospikeCluster p.kube
        → Pod p
        → AerospikeNamespaceSpec
        → p.Quantity
        → PodAction p S (Claim p)
    post cluster pod ns size =
        let claim = claim_for cluster pod.name ns size in
        write (create_claim claim) (api.post_claim claim)

    unfoldable pub create_persistent_volume_claim :
        AerospikeCluster p.kube → Pod p → AerospikeNamespaceSpec → PodAction p S (Claim p)
    create_persistent_volume_claim cluster pod ns = do
      size ← lift (size_of p ns)
      post cluster pod ns size
