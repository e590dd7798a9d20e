-- ===== src/Reconciler/Cleared.antt =====
-- What must hold of a cluster before MaybeReconcile of pkg/reconciler/cluster.go starts its pods.
use aerospike_operator.Prelude.{
  subst, ◌≡◌, ◌≢◌, ◌⊎◌, inl, inr, refl, Bool, true, false, Option, none, some, List, [], ◌∷◌, Text,
  text_eq_iff, text_eq_refl, ap, Result, ok, err, Result-cases, arith, All, Occurs, if◌then◌else◌,
}
use aerospike_operator.Run.{raise, bind-ok, pure, lift}
use aerospike_operator.Api.{
  Kube, AerospikeNamespaceSpec, AerospikeCluster, Condition, ConditionType, ConditionStatus,
  condition_true, backup_finished,
}
use aerospike_operator.Api.Backup.{BackupRestoreObject}
use aerospike_operator.Versioning.Upgrade.{VersionUpgrade}
use aerospike_operator.Reconciler.Types.{
  failure, api_error, version_error, Reconcile, ReconcileError, Server, Parts,
  cluster_backup_failed, pod_upgrade_failed, nil_dereference, version_error, api_error, failure,
}
use aerospike_operator.Reconciler.Status.{upgrade_status, failed_value, backup_value}
use aerospike_operator.Reconciler.Backups.{
  backup_cluster, backup_name_of, is_finished, is_backup_completed, all_backups_completed,
  is_cluster_backup_finished,
}
use aerospike_operator.Reconciler.Cluster.{
  fail_upgrade, has_failed, get_upgrade, after_check, prepare_upgrade, prepare, continue_with,
  maybe_reconcile,
}
use aerospike_operator.Reconciler.Signals.{signal_backup_started, after_backup_started}
use aerospike_operator.Reconciler.Starts.{if-starts, starts_pods, starts->>=, prepare-quiet}

abbrev finished_condition : Condition
finished_condition = record { type = backup_finished; status = condition_true }

is_finished-Occurs : (l : List Condition) → is_finished l ≡ ok true → Occurs finished_condition l
unfolding is_finished
is_finished-Occurs [] h = absurd (cc)
is_finished-Occurs (c ∷ l) h = decided c.type c.status (is_finished-Occurs l) h
  where
    decided :
        (t : ConditionType) (s : ConditionStatus)
        → (is_finished l ≡ ok true → Occurs finished_condition l)
        → is_finished (record { type = t; status = s } ∷ l) ≡ ok true
        → Occurs finished_condition (record { type = t; status = s } ∷ l)
    decided backup_finished condition_true ih e = inl refl
    decided t s ih e = inr (ih (ground arith))

module _ {k : Kube} (server : Server k) (cluster : AerospikeCluster k) where
  -- The backup that the upgrade of a namespace needs exists, and says that it is finished.
  abbrev pub HasBackup : AerospikeNamespaceSpec → Type 0
  HasBackup ns =
      (object : BackupRestoreObject) × (server.get_backup cluster.namespace
          (backup_name_of cluster ns.name)
        ≡ ok object)
      × Occurs finished_condition object.status.conditions

  is_backup_completed-HasBackup :
      (ns : AerospikeNamespaceSpec)
      → is_backup_completed server cluster ns.name ≡ ok true
      → HasBackup ns
  unfolding is_backup_completed
  is_backup_completed-HasBackup ns h =
      elim (Result-cases (server.get_backup cluster.namespace (backup_name_of cluster ns.name))) [
        | inl (object, e) ↦ (object, e, is_finished-Occurs object.status.conditions (ground arith))
        | inr (x, e) ↦ absurd (ground arith)
      ]

  all_backups_completed-All :
      (l : List AerospikeNamespaceSpec)
      → all_backups_completed server cluster l ≡ ok true
      → All HasBackup l
  unfolding all_backups_completed
  all_backups_completed-All [] h = tt
  all_backups_completed-All (ns ∷ l) h =
      elim (Result-cases (is_backup_completed server cluster ns.name)) [
        | inl (true, e) ↦
            (is_backup_completed-HasBackup ns e, all_backups_completed-All l (ground arith))
        | inl (false, e) ↦ absurd (ground arith)
        | inr (x, e) ↦ absurd (ground arith)
      ]

  cluster_backup-All :
      is_cluster_backup_finished server cluster ≡ ok true → All HasBackup cluster.spec.namespaces
  unfolding is_cluster_backup_finished
  cluster_backup-All h = all_backups_completed-All cluster.spec.namespaces h

  after_check-ready :
      (r : Result ReconcileError Bool) (c : AerospikeCluster k)
      → (after_check server cluster r).0 ≡ ok (some c)
      → r ≡ ok true
  unfolding after_check
  after_check-ready (ok true) c h = refl
  after_check-ready (ok false) c h = absurd (cc)
  after_check-ready (err cluster_backup_failed) c h =
      let (u, e, f) = bind-ok (fail_upgrade server cluster) (λ _. raise cluster_backup_failed) h in
      absurd (cc)
  after_check-ready (err pod_upgrade_failed) c h = absurd (cc)
  after_check-ready (err nil_dereference) c h = absurd (cc)
  after_check-ready (err (version_error e)) c h = absurd (cc)
  after_check-ready (err (api_error e)) c h = absurd (cc)
  after_check-ready (err (failure e)) c h = absurd (cc)

  backup_checked :
      (status : Text)
      → status ≡ backup_value
      → (c : AerospikeCluster k) → (prepare_upgrade server cluster (some status)).0 ≡ ok (some c)
      → (after_check server cluster (is_cluster_backup_finished server cluster)).0 ≡ ok (some c)
  unfolding prepare_upgrade
  backup_checked status e c h =
      let same = (text_eq_iff status backup_value).1 e in
      subst (λ (m : Reconcile k (Option (AerospikeCluster k))). m.0 ≡ ok (some c))
        (ap
          (λ (b : Bool).
            if b
            then after_check server cluster (is_cluster_backup_finished server cluster)
            else pure (some cluster))
          same)
        h

  prepare_upgrade-ready :
      (s : Option Text) (c : AerospikeCluster k)
      → (prepare_upgrade server cluster s).0 ≡ ok (some c)
      → (status : Text) × (s ≡ some status)
        × (status ≡ backup_value → is_cluster_backup_finished server cluster ≡ ok true)
  unfolding prepare_upgrade
  prepare_upgrade-ready none c h =
      let (u, e, f) = bind-ok (signal_backup_started server cluster) _ h in
      let (v, g, i) = bind-ok (backup_cluster server (after_backup_started cluster)) _ f in
      absurd (cc)
  prepare_upgrade-ready (some status) c h = (
    status,
    refl,
    λ e.
        after_check-ready (is_cluster_backup_finished server cluster) c
          (backup_checked status e c h),
  )

  -- What is known of a cluster whose pods are started: no upgrade has failed, and in an upgrade the
  -- annotation is there, and while it says backup every namespace has a finished backup.
  abbrev pub IsCleared : Type 0
  IsCleared =
      (upgrade_status cluster ≢ some failed_value)
      × ((get_upgrade cluster ≡ ok none)
          ⊎ ((status : Text) × (upgrade_status cluster ≡ some status)
              × (status ≡ backup_value → All HasBackup cluster.spec.namespaces)))

  not_failed : has_failed cluster ≡ false → upgrade_status cluster ≢ some failed_value
  unfolding has_failed
  not_failed h e = ground (arith, text_eq_refl failed_value)

  prepare-IsCleared :
      (u : Option VersionUpgrade) (c : AerospikeCluster k)
      → has_failed cluster ≡ false
      → get_upgrade cluster ≡ ok u
      → (prepare server cluster u).0 ≡ ok (some c)
      → IsCleared
  unfolding prepare
  prepare-IsCleared none c f e h = (not_failed f, inl e)
  prepare-IsCleared (some u) c f e h =
      let (status, s, done) = prepare_upgrade-ready (upgrade_status cluster) c h in
      (not_failed f, inr (status, s, λ b. cluster_backup-All (done b)))

  continue-IsCleared :
      (parts : Parts k) (u : Option VersionUpgrade) (r : Option (AerospikeCluster k))
      → has_failed cluster ≡ false
      → get_upgrade cluster ≡ ok u
      → (prepare server cluster u).0 ≡ ok r
      → starts_pods (continue_with server parts u r).1 ≡ true
      → IsCleared
  unfolding continue_with starts_pods
  continue-IsCleared parts u none f e p j = absurd (cc)
  continue-IsCleared parts u (some c) f e p j = prepare-IsCleared u c f e p

  -- A reconciliation that starts the pods of a cluster has found that no upgrade of it has failed.
  -- In an upgrade, that is where the status has a version and the spec has another, the annotation of
  -- an upgrade is there, and if it says backup, each namespace of the spec has a backup for this
  -- upgrade that says it is finished.
  pub maybe_reconcile-IsCleared :
      (parts : Parts k) → starts_pods (maybe_reconcile server parts cluster).1 ≡ true → IsCleared
  unfolding maybe_reconcile starts_pods
  maybe_reconcile-IsCleared parts h =
      let (f, g) = if-starts (has_failed cluster) (pure tt) _ refl h in
      let (u, e, i) = starts->>= (lift (get_upgrade cluster)) _ refl g in
      let (r, p, j) = starts->>= (prepare server cluster u) _ (prepare-quiet server cluster u) i in
      continue-IsCleared parts u r f e p j
