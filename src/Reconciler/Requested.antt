-- ===== src/Reconciler/Requested.antt =====
-- The backups that pkg/reconciler/backups.go asks for in an upgrade.
use aerospike_operator.Prelude.{
  ◌≡◌, refl, ap, some, List, [], ◌∷◌, ◌++◌, map, Text, ok, err, ok-injective,
}
use aerospike_operator.Run.{◌>>=◌}
use aerospike_operator.Api.{
  Kube, AerospikeNamespaceSpec, AerospikeCluster, AerospikeClusterBackupSpec,
}
use aerospike_operator.Api
use aerospike_operator.Api.Backup.{backup, BackupRestoreObject}
use aerospike_operator.Reconciler.Types.{Effect, create_backup, Reconcile, Server}
use aerospike_operator.Reconciler.Backups.{
  get_backup_name, namespace_backup, create_namespace_backup, backup_namespaces,
}
use aerospike_operator.Reconciler.Signals.{after_backup_started}

-- The requests for the backups of the namespaces of a cluster.
abbrev pub backup_requests :
    {k : Kube}
    → AerospikeCluster k
    → AerospikeClusterBackupSpec
    → List AerospikeNamespaceSpec
    → List (Effect k)
backup_requests cluster b l =
    map (λ (ns : AerospikeNamespaceSpec). create_backup (namespace_backup cluster b ns.name)) l

-- A backup of this namespace of the cluster, to the storage of its spec, with the name of the upgrade.
abbrev IsBackupOf :
    {k : Kube}
    → AerospikeCluster k
    → AerospikeClusterBackupSpec
    → Text
    → BackupRestoreObject
    → Type 0
IsBackupOf cluster b ns object =
    (object.kind ≡ backup)
    × (object.namespace ≡ cluster.namespace)
    × (object.name ≡ get_backup_name ns cluster.status.spec.version cluster.spec.version)
    × (object.spec.target.cluster ≡ cluster.name)
    × (object.spec.target.namespace ≡ ns)
    × (object.spec.storage ≡ some b.storage)
    × (object.status.conditions ≡ [])

-- The requests create one such backup for each namespace, in order, and nothing else.
abbrev pub BacksUp :
    {k : Kube}
    → AerospikeCluster k
    → AerospikeClusterBackupSpec
    → List AerospikeNamespaceSpec
    → List (Effect k)
    → Type 0
BacksUp cluster b [] log = log ≡ []
BacksUp {k} cluster b (ns ∷ l) log =
    (object : BackupRestoreObject) × (rest : List (Effect k)) × (log ≡ create_backup object ∷ rest)
    × IsBackupOf cluster b ns.name object
    × BacksUp cluster b l rest

pub backup_requests-BacksUp :
    {k : Kube} (cluster : AerospikeCluster k) (b : AerospikeClusterBackupSpec)
    (l : List AerospikeNamespaceSpec)
    → BacksUp cluster b l (backup_requests (after_backup_started cluster) b l)
unfolding after_backup_started namespace_backup Api.get_secret
backup_requests-BacksUp cluster b [] = refl
backup_requests-BacksUp cluster b (ns ∷ l) =
    (_, _, refl, (refl, refl, refl, refl, refl, refl, refl), backup_requests-BacksUp cluster b l)

module _ {k : Kube} {A B : Type 0} where
  pub bind-eq :
      (m : Reconcile k A) (f : A → Reconcile k B) (a : A)
      → m.0 ≡ ok a
      → (m >>= f) ≡ ((f a).0, m.1 ++ (f a).1)
  bind-eq (ok x, log) f a e = ap (λ (y : A). ((f y).0, log ++ (f y).1)) (ok-injective e)
  bind-eq (err x, log) f a e = absurd (cc)

module _ {k : Kube} (server : Server k) where
  module _ (cluster : AerospikeCluster k) (b : AerospikeClusterBackupSpec)
      (has_storage : cluster.spec.backup_spec ≡ some b)
      (all_created : (object : BackupRestoreObject)
        → server.create_backup_answer object ≡ ok tt) where
    created :
        (ns : Text)
        → create_namespace_backup server cluster ns
          ≡ (ok tt, create_backup (namespace_backup cluster b ns) ∷ [])
    unfolding create_namespace_backup namespace_backup
    created ns = rw (has_storage, all_created (namespace_backup cluster b ns)) refl

    pub backup_namespaces-requests :
        (l : List AerospikeNamespaceSpec)
        → backup_namespaces server cluster l ≡ (ok tt, backup_requests cluster b l)
    unfolding backup_namespaces
    backup_namespaces-requests [] = refl
    backup_namespaces-requests (ns ∷ l) = rw (created ns.name, backup_namespaces-requests l) refl
