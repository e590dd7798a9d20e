-- ===== src/Admission/Backups/Valid.antt =====
-- What validateBackupRestoreObj of pkg/admission/backups.go accepts, and that an admitted update
-- leaves the spec as it was.
use aerospike_operator.Prelude.{
  ◌≡◌, ◌↔◌, ◌≢◌, ◌⊎◌, inl, inr, refl, sym, Bool, true, false, ◌||◌, none, some, List, [], ◌∷◌, Text,
  text_eq, text_eq_iff, arith, Occurs, map, Result, ok, err, Result-cases, Option-cases, deep_equal,
  deep_equal_iff,
}
use aerospike_operator.Api.{
  Kube, AerospikeNamespaceSpec, AerospikeCluster, AerospikeClusterBackupSpec, BackupStorageSpec,
  ApiError,
}
use aerospike_operator.Api.Backup.{OperationType, BackupRestoreObject}
use aerospike_operator.Admission.Cluster.{AdmissionError, validate_secret, AdmissionReview, update}
use aerospike_operator.Admission.Cluster.Valid.{
  Secrets, HasSecret, validate_secret-HasSecret, HasSecret-validate_secret,
}
use aerospike_operator.Admission.Backups.{
  has_namespace, namespace_exists, effective_storage, get_cluster, validate_backup_restore_obj,
  spec_value, SpecValue-discrete, validate_backup_update, decode_object, check_update,
  check_backup_restore, admit_backup_restore,
}

abbrev pub names : List AerospikeNamespaceSpec → List Text
names namespaces = map (λ (ns : AerospikeNamespaceSpec). ns.name) namespaces

has_namespace_iff :
    (name : Text) (l : List AerospikeNamespaceSpec)
    → (has_namespace name l ≡ true) ↔ Occurs name (names l)
unfolding has_namespace
has_namespace_iff name [] = ((λ h. absurd (ground arith)), (λ o. elim o [ ]))
has_namespace_iff name (ns ∷ l) =
    let (to, from) = has_namespace_iff name l in
    let same = text_eq_iff ns.name name in
    (
      λ h. first_or_later (text_eq ns.name name) (has_namespace name l) h same.0 to,
      λ o. elim o [
        | inl e ↦ let hit = same.1 (sym e) in ground arith
        | inr p ↦ let later = from p in later_hit (text_eq ns.name name) later
      ],
    )
  where
    first_or_later :
        (a b : Bool)
        → (a || b) ≡ true
        → (a ≡ true → ns.name ≡ name)
        → (b ≡ true → Occurs name (names l))
        → (name ≡ ns.name) ⊎ Occurs name (names l)
    first_or_later true b h f g = inl (sym (f refl))
    first_or_later false b h f g = inr (g h)

    later_hit : (a : Bool) {b : Bool} → b ≡ true → (a || b) ≡ true
    later_hit a e = ground arith

-- The storage that an operation uses: its own, or else that of its cluster.
abbrev pub Uses : {k : Kube} → AerospikeCluster k → BackupRestoreObject → BackupStorageSpec → Type 0
Uses cluster obj storage =
    (obj.spec.storage ≡ some storage)
    ⊎ ((obj.spec.storage ≡ none)
        × ((b : AerospikeClusterBackupSpec) × (cluster.spec.backup_spec ≡ some b)
            × (b.storage ≡ storage)))

-- The conditions on a backup or restore, stated without the checks.
pub record IsRunnable {k : Kube} (clusters : Text → Text → Result ApiError (AerospikeCluster k))
    (secrets : Secrets) (obj : BackupRestoreObject) : Type 0 where
  pub cluster : AerospikeCluster k
  pub found : clusters obj.namespace obj.spec.target.cluster ≡ ok cluster
  pub has_target : Occurs obj.spec.target.namespace (names cluster.spec.namespaces)
  pub storage : BackupStorageSpec
  pub uses : Uses cluster obj storage
  pub secret : HasSecret secrets obj.namespace storage

module _ {k : Kube} (clusters : Text → Text → Result ApiError (AerospikeCluster k))
    (secrets : Secrets) (obj : BackupRestoreObject) where
  effective-Uses :
      (c : AerospikeCluster k) (s : BackupStorageSpec)
      → effective_storage c obj ≡ ok s
      → Uses c obj s
  unfolding effective_storage
  effective-Uses c s h = elim (Option-cases obj.spec.storage) [
    | inl e ↦ elim (Option-cases c.spec.backup_spec) [
      | inl f ↦ absurd (ground arith)
      | inr (b, f) ↦ inr (e, (b, f, ground arith))
    ]
    | inr (t, e) ↦ inl (ground arith)
  ]

  Uses-effective :
      (c : AerospikeCluster k) (s : BackupStorageSpec)
      → Uses c obj s
      → effective_storage c obj ≡ ok s
  unfolding effective_storage
  Uses-effective c s u = ground arith

  storage_exists :
      (c : AerospikeCluster k)
      → get_cluster clusters obj ≡ ok c
      → validate_backup_restore_obj clusters secrets obj ≡ ok tt
      → (namespace_exists c obj ≡ true)
        × ((s : BackupStorageSpec) × (effective_storage c obj ≡ ok s)
            × (validate_secret secrets s obj.namespace ≡ ok tt))
  unfolding validate_backup_restore_obj
  storage_exists c e h = elim (Result-cases (effective_storage c obj)) [
    | inl (s, f) ↦ (ground arith, (s, f, ground arith))
    | inr (x, f) ↦ absurd (ground arith)
  ]

  runs :
      (c : AerospikeCluster k) (s : BackupStorageSpec)
      → get_cluster clusters obj ≡ ok c
      → namespace_exists c obj ≡ true
      → effective_storage c obj ≡ ok s
      → validate_secret secrets s obj.namespace ≡ ok tt
      → validate_backup_restore_obj clusters secrets obj ≡ ok tt
  unfolding validate_backup_restore_obj
  runs c s e f g h = rw (e, f, g) h

  get_cluster-found :
      (c : AerospikeCluster k)
      → get_cluster clusters obj ≡ ok c
      → clusters obj.namespace obj.spec.target.cluster ≡ ok c
  unfolding get_cluster
  get_cluster-found c h = ground arith

  found-get_cluster :
      (c : AerospikeCluster k)
      → clusters obj.namespace obj.spec.target.cluster ≡ ok c
      → get_cluster clusters obj ≡ ok c
  unfolding get_cluster
  found-get_cluster c h = ground arith

  no_cluster :
      (e : AdmissionError)
      → get_cluster clusters obj ≡ err e
      → validate_backup_restore_obj clusters secrets obj ≢ ok tt
  unfolding validate_backup_restore_obj
  no_cluster e p h = ground arith

  namespace_exists_iff :
      (c : AerospikeCluster k)
      → (namespace_exists c obj ≡ true) ↔ Occurs obj.spec.target.namespace (names c.spec.namespaces)
  unfolding namespace_exists
  namespace_exists_iff c = has_namespace_iff obj.spec.target.namespace c.spec.namespaces

  validate-IsRunnable :
      validate_backup_restore_obj clusters secrets obj ≡ ok tt → IsRunnable clusters secrets obj
  validate-IsRunnable h = elim (Result-cases (get_cluster clusters obj)) [
    | inl (c, e) ↦
        let (there, (s, uses, secret)) = storage_exists c e h in
        record {
          cluster = c;
          found = get_cluster-found c e;
          has_target = (namespace_exists_iff c).0 there;
          storage = s;
          uses = effective-Uses c s uses;
          secret = validate_secret-HasSecret secrets s obj.namespace secret;
        }
    | inr (x, e) ↦ absurd (no_cluster x e h)
  ]

  -- A backup or restore passes the validation exactly when its cluster exists and has the target
  -- namespace, a storage is given by the object or else by the cluster, and the secret of that
  -- storage exists with the expected field.
  pub validate_backup_restore_obj_iff :
      (validate_backup_restore_obj clusters secrets obj ≡ ok tt) ↔ IsRunnable clusters secrets obj
  validate_backup_restore_obj_iff = (
    validate-IsRunnable,
    λ r.
        runs r.cluster r.storage (found-get_cluster r.cluster r.found)
          ((namespace_exists_iff r.cluster).1 r.has_target)
          (Uses-effective r.cluster r.storage r.uses)
          (HasSecret-validate_secret secrets r.storage obj.namespace r.secret),
  )

module _ {k : Kube} (kind : OperationType) (decode : Text → Result Text BackupRestoreObject)
    (clusters : Text → Text → Result ApiError (AerospikeCluster k)) (secrets : Secrets)
    (ar : AdmissionReview) (old new : BackupRestoreObject) where
  update_checked :
      ar.operation ≡ update
      → decode_object kind decode ar.object ≡ ok new
      → decode_object kind decode ar.old_object ≡ ok old
      → (admit_backup_restore kind decode clusters secrets ar).allowed ≡ true
      → validate_backup_update kind old new ≡ ok tt
  unfolding admit_backup_restore check_backup_restore check_update
  update_checked u n o h = ground arith

  update_same_spec :
      validate_backup_update kind old new ≡ ok tt
      → deep_equal SpecValue-discrete (spec_value new.spec) (spec_value old.spec) ≡ true
  unfolding validate_backup_update
  update_same_spec h = ground arith

  -- An update of a backup or restore that the webhook admits leaves the target, the storage and the
  -- text of the TTL as they were.
  pub update_keeps_spec :
      ar.operation ≡ update
      → decode_object kind decode ar.object ≡ ok new
      → decode_object kind decode ar.old_object ≡ ok old
      → (admit_backup_restore kind decode clusters secrets ar).allowed ≡ true
      → spec_value new.spec ≡ spec_value old.spec
  update_keeps_spec u n o h =
      (deep_equal_iff SpecValue-discrete (spec_value new.spec) (spec_value old.spec)).0
        (update_same_spec (update_checked u n o h))
