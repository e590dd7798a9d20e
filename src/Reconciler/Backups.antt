-- ===== src/Reconciler/Backups.antt =====
-- pkg/reconciler/backups.go: the backups that are made before an upgrade.
use aerospike_operator.Prelude.{
  Bool, true, false, none, some, List, [], ◌∷◌, ◌++◌, Text, codes, Result, ok, err, ◌==◌,
  if◌then◌else◌,
}
use aerospike_operator.Run.{pure, raise, request, ◌>>◌}
use aerospike_operator.Api.{
  Kube, AerospikeNamespaceSpec, AerospikeClusterBackupSpec, AerospikeCluster, Condition,
  condition_true, backup_finished, backup_failed, get_secret,
}
use aerospike_operator.Api.Backup.{backup, BackupRestoreObject, BackupSpec}
use aerospike_operator.Reconciler.Types.{
  create_backup, ReconcileError, cluster_backup_failed, nil_dereference, Reconcile, Server,
}
use aerospike_operator.Reconciler.Status.{api}

-- `strings.Replace(version, ".", "", -1)`
unfoldable pub without_dots : Text → Text
without_dots [] = []
without_dots (c ∷ s) = let rest = without_dots s in if c == b'.' then rest else c ∷ rest

unfoldable pub get_backup_name : Text → Text → Text → Text
unfolding without_dots
get_backup_name ns source_version target_version =
    ns
    ++ (b'-'
        ∷ (without_dots source_version
            ++ (b'-' ∷ (without_dots target_version ++ codes "-upgrade"))))

-- The first condition that says finished or failed decides.
unfoldable pub is_finished : List Condition → Result ReconcileError Bool
is_finished [] = ok false
is_finished (c ∷ rest) = elim c.status [
  | condition_true ↦ elim c.type [
    | backup_finished ↦ ok true
    | backup_failed ↦ err cluster_backup_failed
    | _ ↦ is_finished rest
  ]
  | _ ↦ is_finished rest
]

module _ {k : Kube} where
  abbrev pub backup_name_of : AerospikeCluster k → Text → Text
  backup_name_of cluster ns = get_backup_name ns cluster.status.spec.version cluster.spec.version

  -- The backup of a namespace that is created. The address of the copied TTL is not modelled: 0.
  unfoldable pub namespace_backup :
      AerospikeCluster k → AerospikeClusterBackupSpec → Text → BackupRestoreObject
  namespace_backup cluster b ns =
      let spec : BackupSpec = record {
        target = record { cluster = cluster.name; namespace = ns };
        storage = some (record {
          type = b.storage.type;
          bucket = b.storage.bucket;
          secret = get_secret b.storage;
          secret_namespace = b.storage.secret_namespace;
          secret_key = b.storage.secret_key;
        });
        ttl = elim b.ttl [ some v ↦ some (record { address = 0; value = v }) | none ↦ none ];
      } in
      record {
        kind = backup;
        name = backup_name_of cluster ns;
        namespace = cluster.namespace;
        spec = spec;
        status = record {
          spec = record {
            target = record { cluster = []; namespace = [] };
            storage = none;
            ttl = none;
          };
          conditions = [];
        };
      }

  module _ (server : Server k) where
    unfoldable pub create_namespace_backup : AerospikeCluster k → Text → Reconcile k (Unit {0})
    create_namespace_backup cluster ns = elim cluster.spec.backup_spec [
      | none ↦ raise nil_dereference
      | some b ↦
          let object = namespace_backup cluster b ns in
          request (create_backup object) (api (server.create_backup_answer object))
    ]

    unfoldable pub backup_namespaces :
        AerospikeCluster k → List AerospikeNamespaceSpec → Reconcile k (Unit {0})
    backup_namespaces cluster [] = pure tt
    backup_namespaces cluster (ns ∷ rest) = do
      create_namespace_backup cluster ns.name
      backup_namespaces cluster rest

    unfoldable pub backup_cluster : AerospikeCluster k → Reconcile k (Unit {0})
    backup_cluster cluster = backup_namespaces cluster cluster.spec.namespaces

    unfoldable pub is_backup_completed : AerospikeCluster k → Text → Result ReconcileError Bool
    is_backup_completed cluster ns =
        elim (server.get_backup cluster.namespace (backup_name_of cluster ns)) [
          | ok object ↦ is_finished object.status.conditions
          | err e ↦ api (err e)
        ]

    unfoldable pub all_backups_completed :
        AerospikeCluster k → List AerospikeNamespaceSpec → Result ReconcileError Bool
    all_backups_completed cluster [] = ok true
    all_backups_completed cluster (ns ∷ rest) =
        let later = all_backups_completed cluster rest in
        elim (is_backup_completed cluster ns.name) [
          | ok true ↦ later
          | ok false ↦ ok false
          | err e ↦ err e
        ]

    unfoldable pub is_cluster_backup_finished : AerospikeCluster k → Result ReconcileError Bool
    is_cluster_backup_finished cluster = all_backups_completed cluster cluster.spec.namespaces
