-- ===== src/Reconciler/Starts.antt =====
-- When MaybeReconcile of pkg/reconciler/cluster.go reconciles the pods.
use aerospike_operator.Prelude.{
  ◌≡◌, inl, inr, refl, Bool, true, false, ◌||◌, Option, none, some, List, [], ◌∷◌, ◌++◌, Text,
  text_eq, Result, ok, err, Option-cases, arith, if◌then◌else◌, deep_equal,
}
use aerospike_operator.Run.{ignore_error, ◌>>=◌}
use aerospike_operator.Api.{Kube, AerospikeNamespaceSpec, AerospikeCluster}
use aerospike_operator.Versioning.Upgrade.{VersionUpgrade}
use aerospike_operator.Reconciler.Types.{
  failure, api_error, cluster_auto_backup_started, version_error, cluster_upgrade_started,
  cluster_auto_backup_finished, cluster_upgrade_failed, cluster_auto_backup_failed, Effect, start,
  pods, patch, event, Reason, Reconcile, ReconcileError, Server, cluster_backup_failed,
  pod_upgrade_failed, nil_dereference, version_error, api_error, failure,
}
use aerospike_operator.Reconciler.Status.{
  api, upgrade_status, patch_cluster, sync_status, backup_value, AerospikeCluster-discrete,
}
use aerospike_operator.Reconciler.Backups.{
  create_namespace_backup, backup_namespaces, backup_cluster, is_cluster_backup_finished,
}
use aerospike_operator.Reconciler.Signals.{
  signal_upgrade_failed, signal_backup_failed, signal_backup_started, after_upgrade_failed,
  after_backup_failed, signal_upgrade_started, signal_backup_finished, signal, after_backup_started,
  after_backup_finished,
}
use aerospike_operator.Reconciler.Cluster.{
  fail_upgrade, start_upgrade, after_check, prepare_upgrade, prepare,
}

module _ {k : Kube} where
  abbrev is_pods_start : Effect k → Bool
  is_pods_start (start (pods u)) = true
  is_pods_start e = false

  unfoldable pub starts_pods : List (Effect k) → Bool
  starts_pods [] = false
  starts_pods (e ∷ log) = is_pods_start e || starts_pods log

  starts_pods-append :
      (l m : List (Effect k)) → starts_pods (l ++ m) ≡ (starts_pods l || starts_pods m)
  unfolding starts_pods
  starts_pods-append [] m = refl
  starts_pods-append (e ∷ l) m = let ih = starts_pods-append l m in ground arith

  module _ {A B : Type 0} where
    pub quiet->>= :
        (m : Reconcile k A) (f : A → Reconcile k B)
        → starts_pods m.1 ≡ false
        → ((a : A) → starts_pods (f a).1 ≡ false)
        → starts_pods (m >>= f).1 ≡ false
    quiet->>= (ok a, log) f q r = let s = starts_pods-append log (f a).1 in let t = r a in cc
    quiet->>= (err e, log) f q r = q

    pub starts->>= :
        (m : Reconcile k A) (f : A → Reconcile k B)
        → starts_pods m.1 ≡ false
        → starts_pods (m >>= f).1 ≡ true
        → (a : A) × (m.0 ≡ ok a) × (starts_pods (f a).1 ≡ true)
    starts->>= (ok a, log) f q h = let s = starts_pods-append log (f a).1 in (a, refl, cc)
    starts->>= (err e, log) f q h = absurd (cc)

  module _ {A : Type 0} where
    pub if-starts :
        (b : Bool) (m n : Reconcile k A)
        → starts_pods m.1 ≡ false
        → starts_pods (if b then m else n).1 ≡ true
        → (b ≡ false) × (starts_pods n.1 ≡ true)
    if-starts true m n p q = absurd (cc)
    if-starts false m n p q = (refl, q)

    if_quiet :
        (b : Bool) (m n : Reconcile k A)
        → starts_pods m.1 ≡ false
        → starts_pods n.1 ≡ false
        → starts_pods (if b then m else n).1 ≡ false
    if_quiet true m n p q = p
    if_quiet false m n p q = q

  module _ (server : Server k) where
    sync_status-quiet :
        (stored new : AerospikeCluster k) → starts_pods (sync_status server stored new).1 ≡ false
    unfolding sync_status starts_pods
    sync_status-quiet stored new = ground arith

    pub patch_cluster-quiet :
        (old new : AerospikeCluster k) → starts_pods (patch_cluster server old new).1 ≡ false
    unfolding patch_cluster starts_pods
    patch_cluster-quiet old new =
        if_quiet (deep_equal AerospikeCluster-discrete old new) (ok tt, []) _ refl
          (quiet->>= (api (server.patch_answer old new), patch new ∷ []) _ refl
            (λ stored. sync_status-quiet stored new))

    pub signal-quiet :
        (r : Reason) (old new : AerospikeCluster k)
        → starts_pods (signal server r old new).1 ≡ false
    unfolding signal starts_pods
    signal-quiet r old new =
        quiet->>= (patch_cluster server old new) (λ _. (ok tt, event r ∷ []))
          (patch_cluster-quiet old new) (λ _. refl)

    create-quiet :
        (cluster : AerospikeCluster k) (ns : Text)
        → starts_pods (create_namespace_backup server cluster ns).1 ≡ false
    unfolding create_namespace_backup starts_pods
    create-quiet cluster ns = elim (Option-cases cluster.spec.backup_spec) [
      | inl e ↦ ground arith
      | inr (b, e) ↦ ground arith
    ]

    backup_namespaces-quiet :
        (cluster : AerospikeCluster k) (l : List AerospikeNamespaceSpec)
        → starts_pods (backup_namespaces server cluster l).1 ≡ false
    unfolding backup_namespaces starts_pods
    backup_namespaces-quiet cluster [] = refl
    backup_namespaces-quiet cluster (ns ∷ l) =
        quiet->>= (create_namespace_backup server cluster ns.name) _ (create-quiet cluster ns.name)
          (λ _. backup_namespaces-quiet cluster l)

    fail_upgrade-quiet : (c : AerospikeCluster k) → starts_pods (fail_upgrade server c).1 ≡ false
    unfolding fail_upgrade
    fail_upgrade-quiet c =
        quiet->>= (ignore_error (signal_backup_failed server c))
          (λ _. ignore_error (signal_upgrade_failed server (after_backup_failed c)))
          (signal-quiet cluster_auto_backup_failed c (after_backup_failed c))
          (λ _.
            signal-quiet cluster_upgrade_failed (after_backup_failed c)
              (after_upgrade_failed (after_backup_failed c)))

    start_upgrade-quiet : (c : AerospikeCluster k) → starts_pods (start_upgrade server c).1 ≡ false
    unfolding start_upgrade starts_pods
    start_upgrade-quiet c =
        quiet->>= (signal_backup_finished server c) _
          (signal-quiet cluster_auto_backup_finished c (after_backup_finished c))
          (λ _.
            quiet->>= (signal_upgrade_started server (after_backup_finished c)) _
              (signal-quiet cluster_upgrade_started _ _) (λ _. refl))

    after_check-quiet :
        (c : AerospikeCluster k) (r : Result ReconcileError Bool)
        → starts_pods (after_check server c r).1 ≡ false
    unfolding after_check starts_pods
    after_check-quiet c (ok true) =
        quiet->>= (start_upgrade server c) _ (start_upgrade-quiet c) (λ _. refl)
    after_check-quiet c (ok false) = refl
    after_check-quiet c (err cluster_backup_failed) =
        quiet->>= (fail_upgrade server c) _ (fail_upgrade-quiet c) (λ _. refl)
    after_check-quiet c (err pod_upgrade_failed) = refl
    after_check-quiet c (err nil_dereference) = refl
    after_check-quiet c (err (version_error e)) = refl
    after_check-quiet c (err (api_error e)) = refl
    after_check-quiet c (err (failure e)) = refl

    prepare_upgrade-quiet :
        (c : AerospikeCluster k) (status : Option Text)
        → starts_pods (prepare_upgrade server c status).1 ≡ false
    unfolding prepare_upgrade starts_pods backup_cluster
    prepare_upgrade-quiet c none =
        quiet->>= (signal_backup_started server c) _
          (signal-quiet cluster_auto_backup_started c (after_backup_started c))
          (λ _.
            quiet->>= (backup_cluster server (after_backup_started c)) _
              (backup_namespaces-quiet (after_backup_started c)
                (after_backup_started c).spec.namespaces)
              (λ _. refl))
    prepare_upgrade-quiet c (some status) =
        if_quiet (text_eq status backup_value) _ _
          (after_check-quiet c (is_cluster_backup_finished server c)) refl

    pub prepare-quiet :
        (c : AerospikeCluster k) (u : Option VersionUpgrade)
        → starts_pods (prepare server c u).1 ≡ false
    unfolding prepare starts_pods
    prepare-quiet c none = refl
    prepare-quiet c (some u) = prepare_upgrade-quiet c (upgrade_status c)
