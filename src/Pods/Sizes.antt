-- ===== src/Pods/Sizes.antt =====
-- pkg/reconciler/pod.go: the cpu and memory that the server of a pod asks for.
use aerospike_operator.Prelude.{
  Option, none, some, List, [], ◌∷◌, ◌++◌, Text, codes, Result, ok, err, ℤ, pos, add_int,
  if◌then◌else◌,
}
use aerospike_operator.Prelude.Decimal.{print_ℤ, atoi}
use aerospike_operator.Api.{AerospikeCluster, AerospikeNamespaceSpec}
use aerospike_operator.Pods.Platform.{Platform, Limits}
use aerospike_operator.Pods.Api.{PodError, panic}
use aerospike_operator.Pods.Durations.{trim_last}

abbrev pub default_cpu_request : ℤ
default_cpu_request = pos 1

abbrev pub default_memory_request_gi : ℤ
default_memory_request_gi = pos 4

-- The memory of a namespace in GiB; a size that does not parse counts as the default.
unfoldable pub memory_of : AerospikeNamespaceSpec → ℤ
memory_of ns = elim ns.memory_size [
  | none ↦ default_memory_request_gi
  | some size ↦ elim (atoi (trim_last b'G' size)) [ some s ↦ s | none ↦ default_memory_request_gi ]
]

-- The loop of computeMemoryRequest, over 64-bit integers.
unfoldable pub sum_memory : ℤ → List AerospikeNamespaceSpec → ℤ
sum_memory sum [] = sum
sum_memory sum (ns ∷ rest) = sum_memory (add_int sum (memory_of ns)) rest

module _ (p : Platform) where
  -- `resource.MustParse`
  abbrev pub must_parse : Text → Result PodError p.Quantity
  must_parse s = elim (p.parse_quantity s) [ some q ↦ ok q | none ↦ err panic ]

  unfoldable pub compute_cpu_request : AerospikeCluster p.kube → Result PodError p.Quantity
  compute_cpu_request cluster =
      let default = must_parse (print_ℤ default_cpu_request) in
      elim cluster.spec.resources [
        | none ↦ default
        | some r ↦ elim (p.requests_cpu r) [ some q ↦ ok q | none ↦ default ]
      ]

  -- The memory that the user requests, if it is more than the computed one.
  abbrev larger_request : Option p.kube.Resources → p.Quantity → p.Quantity
  larger_request none computed = computed
  larger_request (some r) computed = elim (p.requests_memory r) [
    | none ↦ computed
    | some q ↦ if p.exceeds q computed then q else computed
  ]

  unfoldable pub compute_memory_request : AerospikeCluster p.kube → Result PodError p.Quantity
  compute_memory_request cluster =
      elim (must_parse (print_ℤ (sum_memory (pos 0) cluster.spec.namespaces) ++ codes "Gi")) [
        | ok computed ↦ ok (larger_request cluster.spec.resources computed)
        | err e ↦ err e
      ]

  -- A limit that is there and not zero.
  abbrev set_limit : Option p.Quantity → Option p.Quantity
  set_limit none = none
  set_limit (some q) = if p.is_zero q then none else some q

  unfoldable pub compute_resource_limits : AerospikeCluster p.kube → Limits p
  compute_resource_limits cluster = elim cluster.spec.resources [
    | none ↦ record { cpu = none; memory = none }
    | some r ↦
        if p.has_limits r
        then record { cpu = set_limit (p.limits_cpu r); memory = set_limit (p.limits_memory r) }
        else record { cpu = none; memory = none }
  ]
