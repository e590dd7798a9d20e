-- ===== src/Reconciler/Finish.antt =====
-- The end of an upgrade in MaybeReconcile of pkg/reconciler/cluster.go.
use aerospike_operator.Prelude.{
  ◌≡◌, ◌≢◌, inr, refl, sym, ap, none, some, text_eq_refl, ok, err, arith, Occurs,
}
use aerospike_operator.Prelude.Dict.{lookup-remove_self}
use aerospike_operator.Run.{lift, ◌>>=◌}
use aerospike_operator.Api.{Kube, AerospikeCluster}
use aerospike_operator.Versioning.Upgrade.{VersionUpgrade}
use aerospike_operator.Reconciler.Types.{
  Effect, patch, cluster_upgrade_finished, Reconcile, Server, Parts,
}
use aerospike_operator.Reconciler.Status.{
  upgrade_status, upgrade_status_annotation_key, with_spec_status, patch_cluster,
}
use aerospike_operator.Reconciler.Signals.{after_upgrade_finished}
use aerospike_operator.Reconciler.Cluster.{get_upgrade, ensure_pods, ensure_parts, finish}
use aerospike_operator.Reconciler.Requests.{Occurs-append_right, signal-Occurs, one_more}

module _ {k : Kube} where
  -- The cluster after an upgrade: its status has the spec, and its annotation is removed.
  abbrev pub upgraded : AerospikeCluster k → AerospikeCluster k
  upgraded cluster = after_upgrade_finished (with_spec_status cluster)

  after_upgrade_finished-changes : (c : AerospikeCluster k) → c ≢ after_upgrade_finished c
  unfolding after_upgrade_finished
  after_upgrade_finished-changes c e =
      one_more c.status.conditions _ (sym (ap (λ (d : AerospikeCluster k). d.status.conditions) e))

  upgraded-get_upgrade : (c : AerospikeCluster k) → get_upgrade (upgraded c) ≡ ok none
  unfolding get_upgrade after_upgrade_finished with_spec_status
  upgraded-get_upgrade c = ground (arith, text_eq_refl c.spec.version)

  upgraded-upgrade_status : (c : AerospikeCluster k) → upgrade_status (upgraded c) ≡ none
  unfolding after_upgrade_finished with_spec_status
  upgraded-upgrade_status c = lookup-remove_self upgrade_status_annotation_key c.annotations

  upgraded-version : (c : AerospikeCluster k) → (upgraded c).status.spec.version ≡ c.spec.version
  unfolding after_upgrade_finished with_spec_status
  upgraded-version c = refl

  module _ {A B : Type 0} where
    -- Of code that returned, what the second step requests.
    through :
        (e : Effect k) {b : B} (m : Reconcile k A) (f : A → Reconcile k B)
        → (m >>= f).0 ≡ ok b
        → ((a : A) → (f a).0 ≡ ok b → Occurs e (f a).1)
        → Occurs e (m >>= f).1
    through e (ok x, log) f h o = Occurs-append_right e log (f x).1 (o x h)
    through e (err x, log) f h o = absurd (cc)

  module _ (server : Server k) (parts : Parts k) (cluster : AerospikeCluster k)
      (u : VersionUpgrade) where
    finish-Occurs :
        (finish server cluster (some u)).0 ≡ ok tt
        → Occurs (patch (upgraded cluster)) (finish server cluster (some u)).1
    unfolding finish
    finish-Occurs h =
        through _ (patch_cluster server cluster (with_spec_status cluster)) _ h (λ _ _.
          signal-Occurs server cluster_upgrade_finished (with_spec_status cluster) _
            (after_upgrade_finished-changes (with_spec_status cluster)))

    finish_reached :
        (ensure_parts server parts cluster (some u)).0 ≡ ok tt
        → Occurs (patch (upgraded cluster)) (ensure_parts server parts cluster (some u)).1
    unfolding ensure_parts
    finish_reached h =
        let wanted : Effect k = patch (upgraded cluster) in
        inr (
          through wanted (lift (parts.ensure_service cluster)) _ h (λ _ h1. inr (
            through wanted (lift (parts.ensure_config_map cluster)) _ h1 (λ config h2. inr (
              through wanted (lift (parts.ensure_network_policy cluster)) _ h2 (λ _ h3.
                through wanted (ensure_pods server parts cluster config (some u)) _ h3
                  (λ _ h4. finish-Occurs h4)))))))

    -- When the parts of an upgrade have all succeeded, a patch is requested to a cluster whose status
    -- has the version of the spec and whose annotation is removed, so that the reconciliation of that
    -- cluster is not part of an upgrade.
    pub ensure_parts-upgraded :
        (ensure_parts server parts cluster (some u)).0 ≡ ok tt
        → Occurs (patch (upgraded cluster)) (ensure_parts server parts cluster (some u)).1
          × ((upgraded cluster).status.spec.version ≡ cluster.spec.version)
          × (upgrade_status (upgraded cluster) ≡ none)
          × (get_upgrade (upgraded cluster) ≡ ok none)
    ensure_parts-upgraded h = (
      finish_reached h,
      upgraded-version cluster,
      upgraded-upgrade_status cluster,
      upgraded-get_upgrade cluster,
    )
