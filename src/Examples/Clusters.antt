-- ===== src/Examples/Clusters.antt =====
-- pkg/admission on concrete clusters.
use aerospike_operator.Prelude.{
  ◌≡◌, ◌↔◌, refl, true, false, Option, none, some, List, [], ◌∷◌, Text, codes, ok, err, ℤ, pos,
  Result, text_eq,
}
use aerospike_operator.Api.{
  Kube, StorageSpec, AerospikeNamespaceSpec, AerospikeClusterSpec, AerospikeCluster, not_found,
}
use aerospike_operator.Admission.Cluster.{
  validate_aerospike_cluster, validate_namespaces, AdmissionReview, create, update,
  admit_aerospike_cluster, empty_cluster, decode_aerospike_cluster, running,
}
use aerospike_operator.Admission.Cluster.Valid.{
  Secrets, IsAdmissible, validate_aerospike_cluster_iff,
}
use aerospike_operator.Admission.Cluster.Namespaces.{Visits, Keeps, validate_namespaces_iff}
use aerospike_operator.Admission.Cluster.Unique.{Unique}
use aerospike_operator.Admission.Cluster.Maps.{namespace_map}
use aerospike_operator.Admission.Cluster.History.{
  Follows, History, created, updated, History-Follows,
}

-- No resource fields are set in these examples.
abbrev pub plain : Kube
plain = record {
  Resources = Unit {0};
  resources_discrete = λ a b. yes refl;
  Toleration = Unit {0};
  toleration_discrete = λ a b. yes refl;
}

abbrev pub file_storage : StorageSpec
file_storage = record {
  type = codes "file";
  size = codes "1G";
  storage_class_name = none;
  persistent_volume_claim_ttl = none;
  data_in_memory = none;
}

abbrev pub ns_with : Option ℤ → AerospikeNamespaceSpec
ns_with factor = record {
  name = codes "as-ns";
  replication_factor = factor;
  memory_size = none;
  default_ttl = none;
  storage = file_storage;
}

abbrev pub cluster_with : Text → ℤ → Option ℤ → AerospikeCluster plain
cluster_with version node_count factor =
    let spec : AerospikeClusterSpec plain = record {
      node_count = node_count;
      version = version;
      namespaces = ns_with factor ∷ [];
      backup_spec = none;
      resources = none;
      node_selector = none;
      tolerations = none;
    } in
    record {
      name = codes "as-cluster";
      namespace = codes "prod";
      annotations = [];
      spec = spec;
      status = record { spec = spec; conditions = [] };
    }

abbrev pub small : AerospikeCluster plain
small = cluster_with (codes "4.2.0.3") (pos 2) (some (pos 2))

abbrev large : AerospikeCluster plain
large = cluster_with (codes "4.2.0.3") (pos 3) (some (pos 2))

abbrev pub no_secrets : Secrets
no_secrets namespace name = err not_found

abbrev pub in_order : List Text → List Text
in_order ks = ks

in_order-Visits : Visits in_order
in_order-Visits ks x = ((λ o. o), (λ o. o))

-- Two raw objects, `s` and `l`.
abbrev pub decode : Text → Result Text (AerospikeCluster plain)
decode raw = elim (text_eq raw (codes "s")) [ true ↦ ok small | false ↦ ok large ]

abbrev pub creation : AdmissionReview
creation = record { operation = create; object = codes "s"; old_object = [] }

abbrev scale_up : AdmissionReview
scale_up = record { operation = update; object = codes "l"; old_object = codes "s" }

admits_creation : (admit_aerospike_cluster decode no_secrets in_order creation).allowed ≡ true
unfolding running
admits_creation = refl

admits_scale_up : (admit_aerospike_cluster decode no_secrets in_order scale_up).allowed ≡ true
unfolding running
admits_scale_up = refl

small_decoded : decode_aerospike_cluster decode (codes "s") ≡ ok small
unfolding running
small_decoded = refl

large_decoded : decode_aerospike_cluster decode (codes "l") ≡ ok large
unfolding running
large_decoded = refl

nothing_decoded : decode_aerospike_cluster decode [] ≡ ok empty_cluster
unfolding running
nothing_decoded = refl

life : History small large
life =
    updated
      (created empty_cluster
        (record {
          decode = decode;
          secrets = no_secrets;
          order = in_order;
          visits = in_order-Visits;
          review = creation;
          new_decoded = small_decoded;
          old_decoded = nothing_decoded;
          allowed = admits_creation;
        })
        refl)
      (record {
        decode = decode;
        secrets = no_secrets;
        order = in_order;
        visits = in_order-Visits;
        review = scale_up;
        new_decoded = large_decoded;
        old_decoded = small_decoded;
        allowed = admits_scale_up;
      })
      refl

History-Follows_example : Follows small large
History-Follows_example = History-Follows life

validate_aerospike_cluster_example :
    (validate_aerospike_cluster no_secrets small ≡ ok tt) ↔ IsAdmissible no_secrets small
validate_aerospike_cluster_example = validate_aerospike_cluster_iff no_secrets small

validate_namespaces_example : (validate_namespaces in_order small large ≡ ok tt) ↔ (
    Unique large.spec.namespaces
    × Keeps (namespace_map small.spec.namespaces) (namespace_map large.spec.namespaces))
validate_namespaces_example = validate_namespaces_iff in_order in_order-Visits small large
