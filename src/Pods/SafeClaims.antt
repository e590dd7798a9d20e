-- ===== src/Pods/SafeClaims.antt =====
-- The code of pkg/reconciler/pvc.go that looks for a claim of a pod leaves the pods as they are.
use aerospike_operator.Prelude.{
  ◌+ℤ◌, ltb_ℤ, eqb_ℤ, true, false, Option, none, some, List, [], ◌∷◌, Text, ℤ, pos, if◌then◌else◌,
}
use aerospike_operator.Prelude.Dict.{lookup}
use aerospike_operator.Action.{pure, lift, ask}
use aerospike_operator.Api.{AerospikeCluster}
use aerospike_operator.Pods.Platform.{Platform, Pod, Claim}
use aerospike_operator.Pods.Api.{Api, read}
use aerospike_operator.Pods.Durations.{parse_duration}
use aerospike_operator.Pods.Claims.{
  has_time_left, within_ttl, was_unmounted, is_available, belongs_to, filter_available,
  get_persistent_volume_claim, most_recent, time_of, pvc_ttl_annotation,
  last_unmounted_on_annotation,
}
use aerospike_operator.Pods.Trace.{Rules, Steady, Leads-pure, Leads-if, Steady->>=}
use aerospike_operator.Pods.Safety.{read-Steady, ask-Steady, lift-Steady}

module _ {p : Platform} {S : Type 0} (R : Rules p) (api : Api p S) where
  module _ (i : List (Pod p)) where
    has_time_left-Steady :
        (unmounted expiration : ℤ) → Steady R i (has_time_left api unmounted expiration)
    unfolding has_time_left
    has_time_left-Steady unmounted expiration =
        Leads-if R i (λ _. i) (eqb_ℤ expiration (pos 0)) (pure true) _ (Leads-pure R S i true)
          (Steady->>= R i (ask api.now) _ (ask-Steady R api i api.now)
            (λ now. Leads-pure R S i (ltb_ℤ now (unmounted +ℤ expiration))))

    within_ttl-Steady :
        (unmounted : ℤ) (ttl : Option Text) → Steady R i (within_ttl api unmounted ttl)
    unfolding within_ttl
    within_ttl-Steady unmounted none = Leads-pure R S i false
    within_ttl-Steady unmounted (some ttl) =
        Steady->>= R i (lift (parse_duration p ttl)) _ (lift-Steady R api i (parse_duration p ttl))
          (has_time_left-Steady unmounted)

    was_unmounted-Steady :
        (claim : Claim p) (time : Option Text) → Steady R i (was_unmounted api claim time)
    unfolding was_unmounted
    was_unmounted-Steady claim none = Leads-pure R S i false
    was_unmounted-Steady claim (some time) =
        Steady->>= R i (lift (time_of p time)) _ (lift-Steady R api i (time_of p time))
          (λ unmounted. within_ttl-Steady unmounted (lookup pvc_ttl_annotation claim.annotations))

    is_available-Steady :
        (pod_name : Text) (claim : Claim p) → Steady R i (is_available api pod_name claim)
    unfolding is_available
    is_available-Steady pod_name claim =
        Leads-if R i (λ _. i) (belongs_to pod_name claim) _ (pure false)
          (was_unmounted-Steady claim (lookup last_unmounted_on_annotation claim.annotations))
          (Leads-pure R S i false)

    filter_available-Steady :
        (pod_name : Text) (claims : List (Claim p))
        → Steady R i (filter_available api pod_name claims)
    unfolding filter_available
    filter_available-Steady pod_name [] = Leads-pure R S i []
    filter_available-Steady pod_name (claim ∷ rest) =
        Steady->>= R i (is_available api pod_name claim) _ (is_available-Steady pod_name claim)
          (λ available.
            Steady->>= R i (filter_available api pod_name rest) _
              (filter_available-Steady pod_name rest)
              (λ later. Leads-pure R S i (if available then claim ∷ later else later)))

    pub get_persistent_volume_claim-Steady :
        (cluster : AerospikeCluster p.kube) (pod : Pod p)
        → Steady R i (get_persistent_volume_claim api cluster pod)
    unfolding get_persistent_volume_claim
    get_persistent_volume_claim-Steady cluster pod =
        Steady->>= R i (read (api.list_claims cluster.namespace cluster.name)) _
          (read-Steady R api i (api.list_claims cluster.namespace cluster.name))
          (λ claims.
            Steady->>= R i (filter_available api pod.name claims) _
              (filter_available-Steady pod.name claims)
              (λ found. Leads-pure R S i (most_recent api found)))
