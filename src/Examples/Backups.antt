-- ===== src/Examples/Backups.antt =====
-- pkg/admission/backups.go on a concrete backup.
use aerospike_operator.Prelude.{◌≡◌, ◌↔◌, refl, true, none, [], ◌∷◌, Text, codes, Result, ok}
use aerospike_operator.Api.{AerospikeCluster, ApiError}
use aerospike_operator.Api.Backup.{backup, BackupRestoreObject}
use aerospike_operator.Admission.Cluster
use aerospike_operator.Admission.Cluster.{AdmissionReview, update, Check}
use aerospike_operator.Admission.Cluster.Valid.{Secrets}
use aerospike_operator.Admission.Backups.{
  spec_value, validate_backup_restore_obj, decode_object, admit_backup_restore,
  check_backup_restore, check_update, validate_backup_update, status_lost, get_cluster,
  namespace_exists, has_namespace, effective_storage, SpecValue-discrete,
}
use aerospike_operator.Admission.Backups.Valid.{
  IsRunnable, validate_backup_restore_obj_iff, update_keeps_spec,
}
use aerospike_operator.Examples.Clusters.{plain}
use aerospike_operator.Examples.Upgrades.{before}

abbrev pub object : BackupRestoreObject
object = record {
  kind = backup;
  name = codes "backup-1";
  namespace = codes "prod";
  spec = record {
    target = record { cluster = codes "as-cluster"; namespace = codes "as-ns" };
    storage = none;
    ttl = none;
  };
  status = record {
    spec = record { target = record { cluster = []; namespace = [] }; storage = none; ttl = none };
    conditions = [];
  };
}

abbrev pub clusters : Text → Text → Result ApiError (AerospikeCluster plain)
clusters namespace name = ok before

abbrev pub secrets : Secrets
secrets namespace name = ok (record { name = name; data_keys = codes "key.json" ∷ [] })

validate_backup_restore_obj_example :
    (validate_backup_restore_obj clusters secrets object ≡ ok tt)
    ↔ IsRunnable clusters secrets object
validate_backup_restore_obj_example = validate_backup_restore_obj_iff clusters secrets object

accepted : validate_backup_restore_obj clusters secrets object ≡ ok tt
unfolding validate_backup_restore_obj get_cluster namespace_exists has_namespace effective_storage
    Cluster.running
accepted = refl

abbrev decode : Text → Result Text BackupRestoreObject
decode raw = ok object

abbrev resync : AdmissionReview
resync = record { operation = update; object = codes "o"; old_object = codes "o" }

decoded : decode_object backup decode (codes "o") ≡ ok object
unfolding decode_object
decoded = refl

admitted : (admit_backup_restore backup decode clusters secrets resync).allowed ≡ true
unfolding admit_backup_restore check_backup_restore check_update validate_backup_update status_lost
    decode_object SpecValue-discrete validate_backup_restore_obj get_cluster namespace_exists
    has_namespace effective_storage Cluster.running
admitted = refl

update_keeps_spec_example : spec_value object.spec ≡ spec_value object.spec
update_keeps_spec_example =
    update_keeps_spec backup decode clusters secrets resync object object refl decoded decoded
      admitted
