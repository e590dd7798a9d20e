-- ===== src/Collector/Claims.antt =====
-- pkg/garbagecollector/pvcs.go: the removal of expired volume claims.
use aerospike_operator.Prelude.{
  ok-injective, ap, ◌≡◌, ◌||◌, Bool, false, Option, none, some, List, [], ◌∷◌, Text, text_eq,
  Result, ok, err, ℤ, pos, ltb_ℤ, eqb_ℤ, ◌+ℤ◌, if◌then◌else◌,
}
use aerospike_operator.Prelude.Dict.{lookup}
use aerospike_operator.Action.{Action, pure, lift, ask, ◌>>=◌}
use aerospike_operator.Api.{ApiError}
use aerospike_operator.Pods.Platform.{
  Platform, Pod, Claim, Volume, VolumeSource, claim_source, config_map_source, empty_dir,
}
use aerospike_operator.Pods.Api.{PodError, missing_annotation, from_api}
use aerospike_operator.Pods.Durations.{parse_duration}
use aerospike_operator.Pods.Claims.{
  pod_annotation, pvc_ttl_annotation, last_unmounted_on_annotation, time_of,
}
use aerospike_operator.Pods.Delete.{found_pod}

-- The calls of the API, with the state after them.
pub record ClaimApi (p : Platform) (S : Type 0) : Type 0 where
  pub get_pod : Text → Text → S → Result ApiError (Pod p) × S
  pub delete_claim : Text → Text → S → Result ApiError (Unit {0}) × S
  pub now : S → ℤ × S

abbrev pub mounts_claim : Text → VolumeSource → Bool
mounts_claim name (claim_source claim) = text_eq claim name
mounts_claim name (config_map_source _) = false
mounts_claim name empty_dir = false

-- Whether one of the volumes is the claim.
unfoldable pub is_mounted : Text → List Volume → Bool
is_mounted name [] = false
is_mounted name (volume ∷ rest) = mounts_claim name volume.source || is_mounted name rest

abbrev pub annotation_of : Text → List (Text × Text) → Result PodError Text
annotation_of key m = elim (lookup key m) [ some v ↦ ok v | none ↦ err (missing_annotation key) ]

-- The log lists the claims that the API is asked to delete.
abbrev pub Collect : Platform → Type 0 → Type 0
Collect p S = Action S (Claim p) PodError (Unit {0})

pub annotation_of-eq-ok :
    (key : Text) (m : List (Text × Text)) (v : Text)
    → annotation_of key m ≡ ok v
    → lookup key m ≡ some v
annotation_of-eq-ok key m v e = go (lookup key m) e
  where
    go :
        (o : Option Text)
        → ◌≡◌ {A = Result PodError Text}
            (elim o [ some x ↦ ok x | none ↦ err (missing_annotation key) ])
            (ok v)
        → o ≡ some v
    go none h = absurd (cc)
    go (some x) h = ap some (ok-injective h)

module _ {p : Platform} where
  module _ {S : Type 0} (api : ClaimApi p S) where
    unfoldable pub delete : Claim p → Collect p S
    delete claim s =
        let (answer, t) = api.delete_claim claim.namespace claim.name s in
        (from_api answer, (claim ∷ [], t))

    unfoldable pub delete_unless_mounted : Claim p → Option (Pod p) → Collect p S
    delete_unless_mounted claim none = delete claim
    delete_unless_mounted claim (some pod) =
        if is_mounted claim.name pod.spec.volumes then pure tt else delete claim

    unfoldable pub collect_unmounted : Claim p → Collect p S
    collect_unmounted claim = do
      pod_name ← lift (annotation_of pod_annotation claim.annotations)
      answer ← ask (api.get_pod claim.namespace pod_name)
      pod ← lift (found_pod answer)
      delete_unless_mounted claim pod

    abbrev pub when_expired : Claim p → ℤ → ℤ → Collect p S
    when_expired claim deadline now =
        if ltb_ℤ now deadline then pure tt else collect_unmounted claim

    -- A claim without expiration stays.
    unfoldable pub collect_expired : Claim p → ℤ → ℤ → Collect p S
    collect_expired claim unmounted expiration =
        if eqb_ℤ expiration (pos 0)
        then pure tt
        else ask api.now >>= when_expired claim (unmounted +ℤ expiration)

    unfoldable pub collect_since : Claim p → Option Text → Collect p S
    collect_since claim none = pure tt
    collect_since claim (some time) = do
      unmounted ← lift (time_of p time)
      ttl ← lift (annotation_of pvc_ttl_annotation claim.annotations)
      expiration ← lift (parse_duration p ttl)
      collect_expired claim unmounted expiration

    unfoldable pub handle_claim : Claim p → Collect p S
    handle_claim claim = collect_since claim (lookup last_unmounted_on_annotation claim.annotations)
