-- ===== src/Collector/Expiry.antt =====
-- pkg/garbagecollector/asbackups.go removes only what belongs to an expired backup.
use aerospike_operator.Prelude.{
  ◌≡◌, ◌⊎◌, inl, inr, refl, Bool, true, false, Option, none, some, Text, text_eq, ok, ℤ, pos, ltb_ℤ,
  eqb_ℤ, ◌+ℤ◌, Occurs, All-Occurs, if◌then◌else◌,
}
use aerospike_operator.Action.{raise, lift, ask, attempt, ◌>>=◌}
use aerospike_operator.Action.Logs.{
  Logs, Logs->>=, Logs-attempt, Occurs-lift, Occurs-unless, Occurs-when,
}
use aerospike_operator.Api.{
  AerospikeCluster, BackupStorageSpec, get_secret, get_secret_key, get_secret_namespace,
}
use aerospike_operator.Api.Backup.{BackupRestoreObject}
use aerospike_operator.Pods.Platform.{Platform}
use aerospike_operator.Pods.Status.{text_at}
use aerospike_operator.Pods.Api.{from_api, from_client, unsupported_storage, from_api-eq-ok}
use aerospike_operator.Pods.Durations.{parse_duration}
use aerospike_operator.Cloud.Gcs.{Cloud, get_metadata_object_name, get_backup_object_name}
use aerospike_operator.Collector.Backups.{
  Removal, remove_object, remove_backup, BackupApi, storage_type_gcs, effective_ttl, storage_of,
  erase, erase_both, erase_with, erase_as, delete_backup_data_gcs, delete_resource, remove_all,
  remove_expired, when_after, expire, handle_ttl, handle_backup,
}

module _ (obj : BackupRestoreObject) where
  -- The resource of the backup, or one of its two objects in its bucket.
  abbrev pub PartOf : BackupStorageSpec → Removal → Type 0
  PartOf storage w =
      (w ≡ remove_object storage.bucket (get_metadata_object_name obj.name))
      ⊎ ((w ≡ remove_object storage.bucket (get_backup_object_name obj.name))
          ⊎ (w ≡ remove_backup obj))

  module _ {p : Platform} {S : Type 0} (api : BackupApi p S) (cloud : Cloud S) where
    erase_both-Logs :
        (storage : BackupStorageSpec) → Logs (PartOf storage) (erase_both api cloud obj storage)
    erase_both-Logs storage =
        Logs->>= (PartOf storage)
          (erase api cloud storage.bucket (get_metadata_object_name obj.name))
          (λ _. erase api cloud storage.bucket (get_backup_object_name obj.name))
          (λ s. (inl refl, tt)) (λ _ s. (inr (inl refl), tt))

    delete_backup_data_gcs-Logs :
        (storage : BackupStorageSpec)
        → Logs (PartOf storage) (delete_backup_data_gcs api cloud obj storage)
    unfolding delete_backup_data_gcs
    delete_backup_data_gcs-Logs storage =
        Logs->>= (PartOf storage)
          (ask (api.secret_data (get_secret_namespace storage obj.namespace) (get_secret storage)))
          (λ secret. lift (from_api secret) >>= erase_as api cloud obj storage) (λ s. tt)
          (λ secret.
            Logs->>= (PartOf storage) (lift (from_api secret)) (erase_as api cloud obj storage)
              (λ s. tt)
              (λ entries.
                Logs->>= (PartOf storage)
                  (ask (api.client (text_at (get_secret_key storage) entries)))
                  (erase_with api cloud obj storage) (λ s. tt)
                  (λ client.
                    Logs->>= (PartOf storage) (lift (from_client client))
                      (λ _. erase_both api cloud obj storage) (λ s. tt)
                      (λ _. erase_both-Logs storage))))

    remove_all-Logs :
        (storage : BackupStorageSpec) → Logs (PartOf storage) (remove_all api cloud obj storage)
    remove_all-Logs storage =
        Logs->>= (PartOf storage) (attempt (delete_backup_data_gcs api cloud obj storage))
          (λ _. delete_resource api cloud obj)
          (Logs-attempt (PartOf storage) (delete_backup_data_gcs api cloud obj storage)
            (delete_backup_data_gcs-Logs storage))
          (λ outcome s. (inr (inr refl), tt))

    -- What is known when something is removed: the storage, whose type is supported.
    abbrev pub Located : AerospikeCluster p.kube → Removal → Type 0
    Located cluster w =
        (storage : BackupStorageSpec) × (storage_of obj cluster ≡ ok storage)
        × (text_eq storage.type storage_type_gcs ≡ true)
        × PartOf storage w

    remove_expired-Located :
        (cluster : AerospikeCluster p.kube) (w : Removal) (s : S)
        → Occurs w (remove_expired api cloud obj cluster s).1.0
        → Located cluster w
    unfolding remove_expired
    remove_expired-Located cluster w s o =
        let (storage, found, o1) = Occurs-lift (storage_of obj cluster) _ w s o in
        let (gcs, o2) = only_if (text_eq storage.type storage_type_gcs) storage o1 in
        (storage, found, gcs, All-Occurs (PartOf storage) w _ (remove_all-Logs storage s) o2)
      where
        only_if :
            (b : Bool) (storage : BackupStorageSpec)
            → Occurs w
                ((if b
                    then remove_all api cloud obj storage
                    else raise (unsupported_storage storage.type))
                  s).1.0
            → (b ≡ true) × Occurs w (remove_all api cloud obj storage s).1.0
        only_if true storage o = (refl, o)
        only_if false storage o = elim o [ ]

    -- The backup, or its cluster, has a TTL that is not zero, and at this time it is over.
    abbrev pub OverAt : AerospikeCluster p.kube → ℤ → Type 0
    OverAt cluster now =
        (ttl : Text) × (expiration : ℤ) × (effective_ttl obj cluster ≡ some ttl)
        × (parse_duration p ttl ≡ ok expiration)
        × (eqb_ℤ expiration (pos 0) ≡ false)
        × (ltb_ℤ (api.created obj +ℤ expiration) now ≡ true)

    handle_ttl-OverAt :
        (cluster : AerospikeCluster p.kube) (found : Option Text) (w : Removal) (s : S)
        → effective_ttl obj cluster ≡ found
        → Occurs w (handle_ttl api cloud obj cluster found s).1.0
        → OverAt cluster (api.now s).0 × Located cluster w
    unfolding handle_ttl expire
    handle_ttl-OverAt cluster none w s e o = elim o [ ]
    handle_ttl-OverAt cluster (some ttl) w s e o =
        let (expiration, parsed, o1) = Occurs-lift (parse_duration p ttl) _ w s o in
        let (some_ttl, o2) =
          Occurs-unless (eqb_ℤ expiration (pos 0)) tt
            (ask api.now >>= when_after api cloud obj cluster (api.created obj +ℤ expiration)) w s
            o1 in
        let (over, o3) =
          Occurs-when (ltb_ℤ (api.created obj +ℤ expiration) (api.now s).0) tt
            (remove_expired api cloud obj cluster) w (api.now s).1 o2 in
        (
          (ttl, expiration, e, parsed, some_ttl, over),
          remove_expired-Located cluster w (api.now s).1 o3,
        )

    -- The removal is of the backup, whose time to live is over.
    abbrev pub Justified : Removal → S → Type 0
    Justified w s =
        (cluster : AerospikeCluster p.kube) × ((api.get_cluster obj.namespace
            obj.spec.target.cluster s).0
          ≡ ok cluster)
        × OverAt cluster (api.now (api.get_cluster obj.namespace obj.spec.target.cluster s).1).0
        × Located cluster w

    -- Whatever the handler of expired backups removes is the resource of the backup it was given or one
    -- of the two objects with its data, in the bucket of the backup's storage or else its cluster's; and
    -- then the TTL of the backup, or else that of its cluster, is not zero and is over when the clock is
    -- read.
    pub handle_backup-only :
        (w : Removal) (s : S) → Occurs w (handle_backup api cloud obj s).1.0 → Justified w s
    unfolding handle_backup
    handle_backup-only w s o =
        let t : S = (api.get_cluster obj.namespace obj.spec.target.cluster s).1 in
        let (cluster, answered, o1) =
          Occurs-lift (from_api (api.get_cluster obj.namespace obj.spec.target.cluster s).0) _ w t
            o in
        let (over, located) = handle_ttl-OverAt cluster (effective_ttl obj cluster) w t refl o1 in
        (cluster, from_api-eq-ok answered, over, located)
