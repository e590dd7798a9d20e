-- ===== src/Admission/Cluster/Maps.antt =====
-- The map from names to namespace specs that namespaceMap of pkg/admission/cluster.go builds: its
-- entries, each key once.
use aerospike_operator.Prelude.{
  Bool, true, false, Option, none, some, List, [], ◌∷◌, Text, text_eq, if◌then◌else◌,
}
use aerospike_operator.Api.{AerospikeNamespaceSpec}

abbrev pub NamespaceMap : Type 0
NamespaceMap = List (Text × AerospikeNamespaceSpec)

unfoldable pub lookup : Text → NamespaceMap → Option AerospikeNamespaceSpec
lookup name [] = none
lookup name ((key, ns) ∷ m) = if text_eq key name then some ns else lookup name m

unfoldable pub insert : Text → AerospikeNamespaceSpec → NamespaceMap → NamespaceMap
insert name ns [] = (name, ns) ∷ []
insert name ns ((key, other) ∷ m) =
    if text_eq key name then (name, ns) ∷ m else (key, other) ∷ insert name ns m

-- The loop of namespaceMap: a later namespace of the same name replaces an earlier one.
unfoldable pub fill : NamespaceMap → List AerospikeNamespaceSpec → NamespaceMap
unfolding insert
fill res [] = res
fill res (ns ∷ rest) = fill (insert ns.name ns res) rest

unfoldable pub namespace_map : List AerospikeNamespaceSpec → NamespaceMap
unfolding fill
namespace_map namespaces = fill [] namespaces

unfoldable pub keys : NamespaceMap → List Text
keys [] = []
keys ((key, ns) ∷ m) = key ∷ keys m

unfoldable pub has_key : Text → NamespaceMap → Bool
unfolding lookup
has_key name m = elim (lookup name m) [ some _ ↦ true | none ↦ false ]
