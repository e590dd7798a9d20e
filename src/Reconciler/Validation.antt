-- ===== src/Reconciler/Validation.antt =====
-- pkg/reconciler/validation.go: what is validated against the current state of Kubernetes.
use aerospike_operator.Prelude.{
  Bool, true, false, none, some, List, [], ◌∷◌, text_eq, ok, err, ltb_ℤ, ℤ, if◌then◌else◌,
}
use aerospike_operator.Run.{pure, emit, ◌>>=◌, ◌>>◌}
use aerospike_operator.Api.{Kube, AerospikeNamespaceSpec, AerospikeCluster}
use aerospike_operator.Reconciler.Types.{event, validation_error, Reconcile, Server}

abbrev pub too_many_replicas : ℤ → AerospikeNamespaceSpec → Bool
too_many_replicas node_count ns = elim ns.replication_factor [
  | none ↦ false
  | some factor ↦ ltb_ℤ node_count factor
]

module _ {k : Kube} where
  -- The warning on a resource that is not valid.
  abbrev pub reject : Reconcile k Bool
  reject = do emit (event validation_error); pure false

  unfoldable pub validate_replication_factor : ℤ → List AerospikeNamespaceSpec → Reconcile k Bool
  validate_replication_factor node_count [] = pure true
  validate_replication_factor node_count (ns ∷ rest) =
      let later = validate_replication_factor node_count rest in
      if too_many_replicas node_count ns then reject else later

  module _ (server : Server k) where
    abbrev pub has_storage_class : AerospikeNamespaceSpec → Bool
    has_storage_class ns = elim ns.storage.storage_class_name [
      | none ↦ true
      | some name ↦
          if text_eq name []
          then true
          else elim (server.get_storage_class name) [ ok u ↦ true | err e ↦ false ]
    ]

    unfoldable pub validate_storage_class : List AerospikeNamespaceSpec → Reconcile k Bool
    validate_storage_class [] = pure true
    validate_storage_class (ns ∷ rest) =
        let later = validate_storage_class rest in if has_storage_class ns then later else reject

    unfoldable pub validate : AerospikeCluster k → Reconcile k Bool
    validate cluster = do
      replicas_valid ← validate_replication_factor cluster.spec.node_count cluster.spec.namespaces
      elim replicas_valid [
        | false ↦ pure false
        | true ↦ validate_storage_class cluster.spec.namespaces
      ]
