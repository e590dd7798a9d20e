-- ===== src/Examples/Storage.antt =====
-- cmd/backup and pkg/garbagecollector/asbackups.go on a storage that works.
use aerospike_operator.Prelude.{
  Result, ◌∷◌, List, ◌++◌, ◌≡◌, ◌≢◌, refl, inl, inr, ◌&&◌, Option, none, some, [], Text, codes,
  text_eq, text_eq_iff, ok, err, pos, if◌then◌else◌, arith,
}
use aerospike_operator.Api.Backup.{BackupRestoreObject}
use aerospike_operator.Cloud.Gcs.{Cloud, get_object, delete_object}
use aerospike_operator.Cloud.Backup.{Options}
use aerospike_operator.Pods.Durations.{parse_duration, has_byte}
use aerospike_operator.Action.{pure}
use aerospike_operator.Asinit.{pieces}
use aerospike_operator.Pods.Api.{PodError}
use aerospike_operator.Collector.Queue.{Queue}
use aerospike_operator.Collector.Backups.{
  Removal, BackupApi, remove_backup, handle_backup, handle_ttl, expire, remove_expired, storage_of,
  effective_ttl, delete_backup_data_gcs,
}
use aerospike_operator.Collector.Expiry.{Justified, handle_backup-only}
use aerospike_operator.Examples.Backups.{object}
use aerospike_operator.Examples.Upgrades.{gcs, before}
use aerospike_operator.Examples.Pods.{toy}
use aerospike_operator.Cloud.RoundTrip.{Reliable, Restores, do_restore-do_backup}

-- The objects of the buckets.
abbrev pub Disk : Type 0
Disk = Text → Text → Option Text

abbrev put : Text → Text → Text → Disk → Disk
put bucket object bytes disk b o =
    if text_eq b bucket && text_eq o object then some bytes else disk b o

-- Nothing is packed, and every process writes the same.
abbrev pub disk_cloud : Cloud Disk
disk_cloud = record {
  credentials = λ path s. (ok tt, s);
  attrs = λ bucket s. (ok tt, s);
  write = λ bucket object bytes s. ((ok tt, ok tt), put bucket object bytes s);
  read = λ bucket object s.
      (elim (s bucket object) [ some bytes ↦ ok bytes | none ↦ err (codes "missing") ], s);
  erase = λ bucket object s. (ok tt, s);
  gzip = λ bytes. bytes;
  gunzip = λ bytes. ok bytes;
  encode = λ n. n;
  decode = λ n. ok n;
  start = λ command s. (ok (codes "records"), s);
  close = λ s. (ok tt, s);
  wait = λ s. (ok tt, s);
}

put-same :
    (bucket object bytes : Text) (s : Disk) → put bucket object bytes s bucket object ≡ some bytes
put-same bucket object bytes s =
    ground (arith, text_eq_iff bucket bucket, text_eq_iff object object)

put-other :
    (bucket object bytes other : Text) (s : Disk)
    → other ≢ object
    → put bucket object bytes s bucket other ≡ s bucket other
put-other bucket object bytes other s d = ground (arith, text_eq_iff other object)

abbrev disk_works : Reliable disk_cloud
disk_works = record {
  contents = λ s. s;
  credentials_ok = λ path s. (s, refl, refl);
  attrs_ok = λ bucket s. (s, refl, refl);
  write_ok = λ bucket object bytes s. (
    put bucket object bytes s,
    refl,
    put-same bucket object bytes s,
    λ other. put-other bucket object bytes other s,
  );
  read_ok = λ bucket object bytes s there. (s, rw (there) refl, refl);
  start_ok = λ command s. (codes "records", s, refl, refl);
  close_ok = λ s. (s, refl, refl);
  wait_ok = λ s. (s, refl, refl);
  gunzip-gzip = λ bytes. refl;
  decode-encode = λ n. refl;
}

abbrev options : Options
options = record {
  bucket_name = codes "bucket";
  name = codes "nightly";
  secret_path = codes "/secret/key.json";
  host = codes "as-cluster";
  port = pos 3000;
  namespace = codes "as-ns";
}

do_restore-do_backup_example : Restores disk_cloud options (codes "copy") (λ b o. none)
do_restore-do_backup_example =
    do_restore-do_backup disk_cloud disk_works options (codes "copy") (λ b o. none)

abbrev nightly : BackupRestoreObject
nightly = record object {
  spec = record object.spec {
    storage = some (gcs.storage);
    ttl = some (record { address = 0; value = codes "5h" });
  };
}

abbrev backups : BackupApi toy Disk
backups = record {
  get_cluster = λ namespace name s. (ok before, s);
  secret_data = λ namespace name s. (ok [], s);
  client = λ credentials s. (ok tt, s);
  delete_backup = λ namespace name s. (ok tt, s);
  now = λ s. (pos 100, s);
  created = λ o. pos 0;
}

handle_backup-only_example :
    Justified nightly backups disk_cloud (remove_backup nightly) (λ b o. none)
unfolding handle_backup handle_ttl expire remove_expired storage_of effective_ttl
    delete_backup_data_gcs delete_object get_object parse_duration has_byte text_eq
handle_backup-only_example =
    handle_backup-only nightly backups disk_cloud (remove_backup nightly) (λ b o. none)
      (inr (inr (inl refl)))

abbrev split_at : List Text → Result Text (Text × Text)
split_at (namespace ∷ name ∷ []) = ok (namespace, name)
split_at (name ∷ []) = ok ([], name)
split_at _ = err (codes "unexpected key format")

-- Every claim is kept.
abbrev queue : Queue Disk Removal PodError BackupRestoreObject (Unit {0})
queue = record {
  get_backup = λ namespace name s. (ok nightly, s);
  get_claim = λ namespace name s. (ok tt, s);
  handle_backup = handle_backup backups disk_cloud;
  handle_claim = λ claim. pure tt;
  key_of = λ namespace name. namespace ++ b'/' ∷ name;
  split_key = λ key. split_at (pieces b'/' key);
}
