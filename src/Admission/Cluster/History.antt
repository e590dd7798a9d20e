-- ===== src/Admission/Cluster/History.antt =====
-- What holds along the whole life of a cluster: a creation and any updates that the webhook admits.
use aerospike_operator.Prelude.{
  ◌≡◌, ◌⊎◌, inl, inr, refl, sym, subst, ◌∙◌, true, false, some, List, [], ◌∷◌, Text, text_eq,
  text_eq_iff, text_eq_refl, ap, arith, Bool-cases, Result, ok, ok-injective,
}
use aerospike_operator.Versioning.Version.{Version, new_version_from_string}
use aerospike_operator.Versioning.RoundTrip.{new_version_from_string-IsVersion}
use aerospike_operator.Versioning.Upgrade.{is_valid}
use aerospike_operator.Versioning.Order.{Before, Before-trans, is_valid_iff}
use aerospike_operator.Api.{Kube, AerospikeNamespaceSpec, AerospikeCluster}
use aerospike_operator.Admission.Cluster.Maps.{lookup, namespace_map}
use aerospike_operator.Admission.Cluster.Valid.{
  Secrets, IsAdmissible, validate_aerospike_cluster_iff, ok-parse_version,
}
use aerospike_operator.Admission.Cluster.Namespaces.{
  Visits, Compatible, Keeps, validate_namespaces_iff,
}
use aerospike_operator.Admission.Cluster.{
  parse_version, validate_aerospike_cluster, validate_version, validate_namespaces,
  validate_aerospike_cluster_update, AdmissionReview, create, update, decode_aerospike_cluster,
  check_aerospike_cluster, admit_aerospike_cluster,
}

-- A review that the webhook allows, and the objects that it decodes to.
pub record Allowed {k : Kube} (old new : AerospikeCluster k) : Type 0 where
  pub decode : Text → Result Text (AerospikeCluster k)
  pub secrets : Secrets
  pub order : List Text → List Text
  pub visits : Visits order
  pub review : AdmissionReview
  pub new_decoded : decode_aerospike_cluster decode review.object ≡ ok new
  pub old_decoded : decode_aerospike_cluster decode review.old_object ≡ ok old
  pub allowed : (admit_aerospike_cluster decode secrets order review).allowed ≡ true

-- The versions of a cluster and of a later state of it, and their namespaces.
pub record Follows {k : Kube} (c d : AerospikeCluster k) : Type 0 where
  pub source : Version
  pub target : Version
  pub source_parsed : new_version_from_string c.spec.version ≡ ok source
  pub target_parsed : new_version_from_string d.spec.version ≡ ok target
  pub no_downgrade : (source ≡ target) ⊎ Before source target
  pub old_ns : AerospikeNamespaceSpec
  pub new_ns : AerospikeNamespaceSpec
  pub old_single : c.spec.namespaces ≡ old_ns ∷ []
  pub new_single : d.spec.namespaces ≡ new_ns ∷ []
  pub same_name : old_ns.name ≡ new_ns.name
  pub same_storage : old_ns.storage ≡ new_ns.storage

-- A life of a cluster: it is created as `c`, and then updated; each admitted state is the old
-- object of the next update.
pub data History {k : Kube} (c : AerospikeCluster k) : AerospikeCluster k → Type 0 where
  created :
      (nothing : AerospikeCluster k) (a : Allowed nothing c)
      → a.review.operation ≡ create
      → History c c
  updated :
      {d e : AerospikeCluster k}
      → History c d
      → (a : Allowed d e) → a.review.operation ≡ update
      → History c e

lookup_single : (o : AerospikeNamespaceSpec) → lookup o.name (namespace_map (o ∷ [])) ≡ some o
unfolding lookup namespace_map
lookup_single o = ground (arith, text_eq_refl o.name)

lookup_single_some :
    (n : AerospikeNamespaceSpec) (name : Text) (m : AerospikeNamespaceSpec)
    → lookup name (namespace_map (n ∷ [])) ≡ some m
    → (n.name ≡ name) × (m ≡ n)
unfolding lookup namespace_map
lookup_single_some n name m e = ground (arith, text_eq_iff n.name name)

single_kept :
    (o n : AerospikeNamespaceSpec)
    → Keeps (namespace_map (o ∷ [])) (namespace_map (n ∷ []))
    → (o.name ≡ n.name) × Compatible o n
single_kept o n kept =
    let (m, e, c) = kept o.name o (lookup_single o) in
    let (same, is_n) = lookup_single_some n o.name m e in (sym same, subst (Compatible o) is_n c)

module _ {k : Kube} (old new : AerospikeCluster k) where
  Allowed-valid : (a : Allowed old new) → validate_aerospike_cluster a.secrets new ≡ ok tt
  unfolding admit_aerospike_cluster check_aerospike_cluster
  Allowed-valid a = ground arith

  Allowed-update :
      (a : Allowed old new)
      → a.review.operation ≡ update
      → validate_aerospike_cluster_update a.order old new ≡ ok tt
  unfolding admit_aerospike_cluster check_aerospike_cluster
  Allowed-update a u = ground arith

  update_version :
      (order : List Text → List Text)
      → validate_aerospike_cluster_update order old new ≡ ok tt
      → validate_version old new ≡ ok tt
  unfolding validate_aerospike_cluster_update
  update_version order h = ground arith

  update_namespaces :
      (order : List Text → List Text)
      → validate_aerospike_cluster_update order old new ≡ ok tt
      → validate_namespaces order old new ≡ ok tt
  unfolding validate_aerospike_cluster_update
  update_namespaces order h = ground arith

  changed_valid :
      (v w : Version)
      → parse_version old.spec.version ≡ ok v
      → parse_version new.spec.version ≡ ok w
      → text_eq old.spec.version new.spec.version ≡ false
      → validate_version old new ≡ ok tt
      → is_valid (record { source = v; target = w }) ≡ true
  unfolding validate_version
  changed_valid v w ev ew e h = ground arith

  -- The versions of an admitted transition.
  version_up :
      (v w : Version)
      → new_version_from_string old.spec.version ≡ ok v
      → new_version_from_string new.spec.version ≡ ok w
      → validate_version old new ≡ ok tt
      → (v ≡ w) ⊎ Before v w
  version_up v w ev ew h = elim (Bool-cases (text_eq old.spec.version new.spec.version)) [
    | inl e ↦ inl (
        ok-injective (
          sym ev
          ∙ ap new_version_from_string ((text_eq_iff old.spec.version new.spec.version).0 e)
          ∙ ew))
    | inr e ↦
        let hv = new_version_from_string-IsVersion old.spec.version v ev in
        let hw = new_version_from_string-IsVersion new.spec.version w ew in
        let valid =
          changed_valid v w (ok-parse_version old.spec.version v ev)
            (ok-parse_version new.spec.version w ew) e h in
        inr ((is_valid_iff (record { source = v; target = w }) hv hw).0 valid).2
  ]

  -- The namespaces of an admitted transition between clusters of one namespace each.
  namespace_kept :
      (o n : AerospikeNamespaceSpec)
      → old.spec.namespaces ≡ o ∷ []
      → new.spec.namespaces ≡ n ∷ []
      → Keeps (namespace_map old.spec.namespaces) (namespace_map new.spec.namespaces)
      → (o.name ≡ n.name) × Compatible o n
  namespace_kept o n eo en kept = single_kept o n (rw (eo, en) at kept)

-- Not going down composes.
abbrev AtMost : Version → Version → Type 0
AtMost v w = (v ≡ w) ⊎ Before v w

AtMost-trans : (u v w : Version) → AtMost u v → AtMost v w → AtMost u w
AtMost-trans u v w (inl e) h = subst (λ x. AtMost x w) (sym e) h
AtMost-trans u v w (inr b) (inl e) = subst (AtMost u) e (inr b)
AtMost-trans u v w (inr b) (inr c) = inr (Before-trans u v w b c)

Follows-refl :
    {k : Kube} (secrets : Secrets) (c : AerospikeCluster k) → IsAdmissible secrets c → Follows c c
Follows-refl secrets c a = record {
  source = a.version;
  target = a.version;
  source_parsed = a.parsed;
  target_parsed = a.parsed;
  no_downgrade = inl refl;
  old_ns = a.ns;
  new_ns = a.ns;
  old_single = a.single;
  new_single = a.single;
  same_name = refl;
  same_storage = refl;
}

-- One more admitted update.
Follows-update :
    {k : Kube} {c : AerospikeCluster k} (d e : AerospikeCluster k)
    → Follows c d
    → (a : Allowed d e) → a.review.operation ≡ update
    → Follows c e
Follows-update d e f a u =
    let new = (validate_aerospike_cluster_iff a.secrets e).0 (Allowed-valid d e a) in
    let passed = Allowed-update d e a u in
    let up =
      version_up d e f.target new.version f.target_parsed new.parsed
        (update_version d e a.order passed) in
    let (_, kept) =
      (validate_namespaces_iff a.order a.visits d e).0 (update_namespaces d e a.order passed) in
    let (name, compatible) = namespace_kept d e f.new_ns new.ns f.new_single new.single kept in
    record {
      source = f.source;
      target = new.version;
      source_parsed = f.source_parsed;
      target_parsed = new.parsed;
      no_downgrade = AtMost-trans f.source f.target new.version f.no_downgrade up;
      old_ns = f.old_ns;
      new_ns = new.ns;
      old_single = f.old_single;
      new_single = new.single;
      same_name = f.same_name ∙ name;
      same_storage = f.same_storage ∙ compatible.same_storage;
    }

-- A cluster that was created and updated through the webhook: its version, compared field by field,
-- never went down, and its one namespace kept its name and its storage.
pub History-Follows : {k : Kube} {c d : AerospikeCluster k} → History c d → Follows c d
History-Follows {c} (created nothing a u) =
    Follows-refl a.secrets c
      ((validate_aerospike_cluster_iff a.secrets c).0 (Allowed-valid nothing c a))
History-Follows (updated {d} {e} h a u) = Follows-update d e (History-Follows h) a u
