-- ===== src/Admission/Cluster/Namespaces.antt =====
-- What validateNamespaces of pkg/admission/cluster.go accepts, whatever the order of its loops.
use aerospike_operator.Prelude.{
  ◌∙◌, ◌≤◌, ◌≡◌, ◌↔◌, refl, sym, true, false, Option, none, some, List, [], ◌∷◌, Text, text_eq,
  text_eq_iff, arith, length, Bool-cases, Option-cases, inl, inr, Occurs, ℤ, eq_of_parts, ok,
  deep_equal_iff,
}
use aerospike_operator.Api.{Kube, AerospikeNamespaceSpec, AerospikeCluster, StorageSpec-discrete}
use aerospike_operator.Admission.Cluster.Maps.{NamespaceMap, lookup, namespace_map, keys, has_key}
use aerospike_operator.Admission.Cluster.Unique.{Unique, length-namespace_map_iff}
use aerospike_operator.Admission.Cluster.{
  check_none_removed, replication_factor_differs, check_namespace, check_found, check_none_changed,
  validate_namespaces,
}

-- The order visits each key of the map, and nothing else.
abbrev pub Visits : (List Text → List Text) → Type 0
Visits order = (ks : List Text) (x : Text) → Occurs x ks ↔ Occurs x (order ks)

-- An existing namespace keeps its storage, and its replication factor where both name one.
pub record Compatible (old new : AerospikeNamespaceSpec) : Type 0 where
  pub same_storage : old.storage ≡ new.storage
  pub same_factor :
      (r s : ℤ) → old.replication_factor ≡ some r → new.replication_factor ≡ some s → r ≡ s

-- Every old namespace is still there, and compatible.
abbrev pub Keeps : NamespaceMap → NamespaceMap → Type 0
Keeps oldnss newnss =
    (name : Text) (old : AerospikeNamespaceSpec)
    → lookup name oldnss ≡ some old
    → (new : AerospikeNamespaceSpec) × (lookup name newnss ≡ some new) × Compatible old new

module _ (key x : Text) (ns : AerospikeNamespaceSpec) (m : NamespaceMap) where
  has_key_later : text_eq key x ≡ false → has_key x ((key, ns) ∷ m) ≡ true → has_key x m ≡ true
  unfolding has_key
  has_key_later e h = ground arith

  has_key_here : key ≡ x → has_key x ((key, ns) ∷ m) ≡ true
  unfolding has_key
  has_key_here e = ground (arith, text_eq_iff key x)

  has_key_there : has_key x m ≡ true → has_key x ((key, ns) ∷ m) ≡ true
  unfolding has_key
  has_key_there h = ground arith

keys-Occurs : (x : Text) (m : NamespaceMap) → (has_key x m ≡ true) ↔ Occurs x (keys m)
unfolding has_key keys
keys-Occurs x [] = ((λ h. absurd (ground arith)), (λ h. elim h [ ]))
keys-Occurs x ((key, ns) ∷ m) =
    let (to, from) = keys-Occurs x m in
    let same = text_eq_iff key x in
    (
      λ h. elim (Bool-cases (text_eq key x)) [
        | inl e ↦ inl (sym (same.0 e))
        | inr e ↦ inr (to (has_key_later key x ns m e h))
      ],
      λ o. elim o [
        | inl e ↦ has_key_here key x ns m (sym e)
        | inr p ↦ has_key_there key x ns m (from p)
      ],
    )

replication_factor_differs_iff :
    (a b : Option ℤ)
    → (replication_factor_differs a b ≡ false) ↔ ((r s : ℤ) → a ≡ some r → b ≡ some s → r ≡ s)
unfolding replication_factor_differs
replication_factor_differs_iff (some r) (some s) =
    (λ h r' s' e f. ground (arith, eq_of_parts r s), λ h. ground (arith, h r s refl refl))
replication_factor_differs_iff (some r) none = ((λ h r' s' e f. absurd (cc)), (λ h. refl))
replication_factor_differs_iff none b = ((λ h r' s' e f. absurd (cc)), (λ h. refl))

check_namespace_iff :
    (old new : AerospikeNamespaceSpec) → (check_namespace old new ≡ ok tt) ↔ Compatible old new
unfolding check_namespace
check_namespace_iff old new =
    let factor = replication_factor_differs_iff old.replication_factor new.replication_factor in
    let storage = deep_equal_iff StorageSpec-discrete old.storage new.storage in
    (
      λ h. record {
        same_storage = storage.0 (ground arith);
        same_factor = factor.0 (ground arith);
      },
      λ c. let e = storage.1 c.same_storage in let f = factor.1 c.same_factor in ground arith,
    )

check_none_removed_iff :
    (m : NamespaceMap) (l : List Text)
    → (check_none_removed m l ≡ ok tt) ↔ ((x : Text) → Occurs x l → has_key x m ≡ true)
unfolding check_none_removed
check_none_removed_iff m [] = ((λ _ x o. elim o [ ]), (λ _. refl))
check_none_removed_iff m (name ∷ l) =
    let (to, from) = check_none_removed_iff m l in
    (
      λ h x o. elim o [ inl e ↦ rw e (first h) | inr p ↦ to (rest h) x p ],
      λ all. both (all name (inl refl)) (from (λ x p. all x (inr p))),
    )
  where
    first : check_none_removed m (name ∷ l) ≡ ok tt → has_key name m ≡ true
    first h = ground arith

    rest : check_none_removed m (name ∷ l) ≡ ok tt → check_none_removed m l ≡ ok tt
    rest h = ground arith

    both :
        has_key name m ≡ true
        → check_none_removed m l ≡ ok tt
        → check_none_removed m (name ∷ l) ≡ ok tt
    both h k = ground arith

check_none_changed_iff :
    (o m : NamespaceMap) (l : List Text)
    → (check_none_changed o m l ≡ ok tt)
      ↔ ((x : Text) → Occurs x l → check_found (lookup x o) (lookup x m) ≡ ok tt)
unfolding check_none_changed
check_none_changed_iff o m [] = ((λ _ x p. elim p [ ]), (λ _. refl))
check_none_changed_iff o m (name ∷ l) =
    let (to, from) = check_none_changed_iff o m l in
    (
      λ h x p. elim p [ inl e ↦ rw e (first h) | inr q ↦ to (rest h) x q ],
      λ all. both (all name (inl refl)) (from (λ x p. all x (inr p))),
    )
  where
    first :
        check_none_changed o m (name ∷ l) ≡ ok tt
        → check_found (lookup name o) (lookup name m) ≡ ok tt
    first h = ground arith

    rest : check_none_changed o m (name ∷ l) ≡ ok tt → check_none_changed o m l ≡ ok tt
    rest h = ground arith

    both :
        check_found (lookup name o) (lookup name m) ≡ ok tt
        → check_none_changed o m l ≡ ok tt
        → check_none_changed o m (name ∷ l) ≡ ok tt
    both h k = ground arith

has_key-some :
    (x : Text) (m : NamespaceMap) (ns : AerospikeNamespaceSpec)
    → lookup x m ≡ some ns
    → has_key x m ≡ true
unfolding has_key
has_key-some x m ns e = ground arith

has_key-lookup :
    (x : Text) (m : NamespaceMap)
    → has_key x m ≡ true
    → (ns : AerospikeNamespaceSpec) × (lookup x m ≡ some ns)
unfolding has_key
has_key-lookup x m h = ground arith

module _ (oldnss newnss : NamespaceMap) where
  abbrev AllPresent : Type 0
  AllPresent = (x : Text) → Occurs x (keys oldnss) → has_key x newnss ≡ true

  abbrev AllFound : Type 0
  AllFound =
      (x : Text) → Occurs x (keys newnss) → check_found (lookup x oldnss) (lookup x newnss) ≡ ok tt

  found-check_namespace :
      (x : Text) (old new : AerospikeNamespaceSpec)
      → lookup x oldnss ≡ some old
      → lookup x newnss ≡ some new
      → check_found (lookup x oldnss) (lookup x newnss) ≡ check_namespace old new
  unfolding check_found
  found-check_namespace x old new e f = rw (e, f)

  new_name-check_found :
      (x : Text) → lookup x oldnss ≡ none → check_found (lookup x oldnss) (lookup x newnss) ≡ ok tt
  unfolding check_found
  new_name-check_found x e = ground arith

  loops-Keeps : AllPresent → AllFound → Keeps oldnss newnss
  loops-Keeps present found name old e =
      let here = present name ((keys-Occurs name oldnss).0 (has_key-some name oldnss old e)) in
      let (new, f) = has_key-lookup name newnss here in
      let passed = found name ((keys-Occurs name newnss).0 here) in
      (
        new,
        f,
        (check_namespace_iff old new).0 (sym (found-check_namespace name old new e f) ∙ passed),
      )

  Keeps-AllPresent : Keeps oldnss newnss → AllPresent
  Keeps-AllPresent kept x o =
      let (old, e) = has_key-lookup x oldnss ((keys-Occurs x oldnss).1 o) in
      let (new, f, _) = kept x old e in has_key-some x newnss new f

  Keeps-AllFound : Keeps oldnss newnss → AllFound
  Keeps-AllFound kept x _ = elim (Option-cases (lookup x oldnss)) [
    | inl e ↦ new_name-check_found x e
    | inr (old, e) ↦
        let (new, f, c) = kept x old e in
        found-check_namespace x old new e f ∙ (check_namespace_iff old new).1 c
  ]

module _ {k : Kube} (order : List Text → List Text) (visits : Visits order)
    (old new : AerospikeCluster k) where
  abbrev oldnss : NamespaceMap
  oldnss = namespace_map old.spec.namespaces

  abbrev newnss : NamespaceMap
  newnss = namespace_map new.spec.namespaces

  passed_checks :
      validate_namespaces order old new ≡ ok tt
      → (length new.spec.namespaces ≤ length newnss)
        × (check_none_removed newnss (order (keys oldnss)) ≡ ok tt)
        × (check_none_changed oldnss newnss (order (keys newnss)) ≡ ok tt)
  unfolding validate_namespaces
  passed_checks h = ground arith

  checks_pass :
      length new.spec.namespaces ≤ length newnss
      → check_none_removed newnss (order (keys oldnss)) ≡ ok tt
      → check_none_changed oldnss newnss (order (keys newnss)) ≡ ok tt
      → validate_namespaces order old new ≡ ok tt
  unfolding validate_namespaces
  checks_pass a b c = ground arith

  -- In whatever order the maps are visited, the namespaces of an update pass exactly when the new
  -- names are unique and every old namespace is still there with the same storage and, where both
  -- name one, the same replication factor.
  pub validate_namespaces_iff :
      (validate_namespaces order old new ≡ ok tt)
      ↔ (Unique new.spec.namespaces × Keeps oldnss newnss)
  validate_namespaces_iff = (
    λ h.
        let (long, removed, changed) = passed_checks h in
        (
          (length-namespace_map_iff new.spec.namespaces).0 long,
          loops-Keeps oldnss newnss
              (λ x o.
                (check_none_removed_iff newnss (order (keys oldnss))).0 removed x
                  ((visits (keys oldnss) x).0 o))
              (λ x o.
                (check_none_changed_iff oldnss newnss (order (keys newnss))).0 changed x
                  ((visits (keys newnss) x).0 o)),
        ),
    λ (unique, kept).
        checks_pass ((length-namespace_map_iff new.spec.namespaces).1 unique)
          ((check_none_removed_iff newnss (order (keys oldnss))).1
            (λ x o. Keeps-AllPresent oldnss newnss kept x ((visits (keys oldnss) x).1 o)))
          ((check_none_changed_iff oldnss newnss (order (keys newnss))).1
            (λ x o. Keeps-AllFound oldnss newnss kept x ((visits (keys newnss) x).1 o))),
  )
