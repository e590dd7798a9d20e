-- ===== src/Pods/Status.antt =====
-- pkg/reconciler/podutils.go: the index of a pod, and what its status says.
use aerospike_operator.Prelude.{
  ℕ, Bool, true, false, not, ◌&&◌, ◌||◌, Option, none, some, List, [], ◌∷◌, ◌++◌, Text, codes,
  text_eq, leb, ◌==◌, ◌+◌, ℤ, pos, negsuc, ltb_ℤ, eqb_ℤ, if◌then◌else◌,
}
use aerospike_operator.Prelude.Decimal.{atoi}
use aerospike_operator.Prelude.Dict.{lookup}
use aerospike_operator.Pods.Platform.{
  Platform, Pod, Phase, running, failed, ContainerStatus, label_cluster_key,
}

-- `strings.TrimPrefix(s, prefix)`
unfoldable pub trim_prefix : Text → Text → Text
trim_prefix s prefix = elim (strip s prefix) [ some rest ↦ rest | none ↦ s ]
  where
    strip : Text → Text → Option Text
    strip s [] = some s
    strip [] (d ∷ prefix) = none
    strip (c ∷ s) (d ∷ prefix) = let rest = strip s prefix in if c == d then rest else none

-- The value of a map at a key, and the empty string if there is none.
abbrev pub text_at : Text → List (Text × Text) → Text
text_at key m = elim (lookup key m) [ some v ↦ v | none ↦ [] ]

-- `strings.EqualFold` on ASCII.
abbrev pub lower : ℕ → ℕ
lower c = if leb b'A' c && leb c b'Z' then c + 32 else c

unfoldable pub equal_fold : Text → Text → Bool
equal_fold [] [] = true
equal_fold (c ∷ s) (d ∷ t) = let rest = equal_fold s t in lower c == lower d && rest
equal_fold _ _ = false

abbrev pub is_running : Phase → Bool
is_running running = true
is_running _ = false

abbrev pub is_failed : Phase → Bool
is_failed failed = true
is_failed _ = false

unfoldable pub is_image_error : Text → Bool
is_image_error reason =
    text_eq reason (codes "ErrImagePull")
    || text_eq reason (codes "ImageInspectError")
    || text_eq reason (codes "ImagePullBackOff")
    || text_eq reason (codes "RegistryUnavailable")

-- A container that has terminated with an exit code other than zero, or waits for its image.
unfoldable pub is_container_failed : ContainerStatus → Bool
is_container_failed c =
    (elim c.terminated [ some code ↦ not (eqb_ℤ code (pos 0)) | none ↦ false ])
    || (elim c.waiting [ some reason ↦ is_image_error reason | none ↦ false ])

unfoldable pub any_container_failed : List ContainerStatus → Bool
any_container_failed [] = false
any_container_failed (c ∷ rest) = is_container_failed c || any_container_failed rest

module _ {p : Platform} where
  -- What follows the name of the cluster in the name of the pod, and -1 if that is no number.
  unfoldable pub pod_index : Pod p → ℤ
  pod_index pod =
      elim (atoi (trim_prefix pod.name (text_at label_cluster_key pod.labels ++ b'-' ∷ []))) [
        | some i ↦ i
        | none ↦ negsuc 0
      ]

  -- byIndex.Less
  abbrev pub less : Pod p → Pod p → Bool
  less a b = ltb_ℤ (pod_index a) (pod_index b)

  unfoldable pub is_pod_running_and_ready : Pod p → Bool
  is_pod_running_and_ready pod = is_running pod.status.phase && pod.status.ready

  unfoldable pub is_pod_in_failure_state : Pod p → Bool
  is_pod_in_failure_state pod =
      is_failed pod.status.phase
      || any_container_failed (pod.status.init_container_statuses ++ pod.status.container_statuses)
