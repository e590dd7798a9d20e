-- ===== src/Cloud/Backup.antt =====
-- cmd/backup/main.go: a backup runs asbackup and stores its output, and a restore feeds it to asrestore.
use aerospike_operator.Prelude.{List, [], ◌∷◌, ◌++◌, Text, codes, ℤ}
use aerospike_operator.Prelude.Decimal.{print_ℤ}
use aerospike_operator.Action.{emit, lift, ◌>>=◌, ◌>>◌}
use aerospike_operator.Cloud.Gcs.{
  Cloud, launched, Program, get_metadata_object_name, get_backup_object_name, call, get_object,
  store, transfer_to_gcs, transfer_from_gcs,
}

-- The flags of both commands.
pub record Options : Type 0 where
  pub bucket_name : Text
  pub name : Text
  pub secret_path : Text
  pub host : Text
  pub port : ℤ
  pub namespace : Text

unfoldable pub asbackup : Options → List Text
asbackup o =
    codes "asbackup"
    ∷ codes "-h"
    ∷ o.host
    ∷ codes "-p"
    ∷ print_ℤ o.port
    ∷ codes "-n"
    ∷ o.namespace
    ∷ codes "-o"
    ∷ codes "-"
    ∷ codes "-c"
    ∷ codes "-v"
    ∷ []

-- The namespace of the backup is restored into that of the options.
unfoldable pub asrestore : Options → Text → List Text
asrestore o from =
    codes "asrestore"
    ∷ codes "-h"
    ∷ o.host
    ∷ codes "-p"
    ∷ print_ℤ o.port
    ∷ codes "-i"
    ∷ codes "-"
    ∷ codes "-n"
    ∷ (from ++ b',' ∷ o.namespace)
    ∷ codes "-v"
    ∷ []

module _ {S : Type 0} (cloud : Cloud S) where
  unfoldable pub dump_metadata : Options → Program S (Unit {0})
  dump_metadata o = do
    get_object cloud o.bucket_name
    store cloud o.bucket_name (get_metadata_object_name o.name) (cloud.encode o.namespace)

  unfoldable pub read_metadata : Options → Program S Text
  read_metadata o = do
    get_object cloud o.bucket_name
    bytes ← call (cloud.read o.bucket_name (get_metadata_object_name o.name))
    lift (cloud.decode bytes)

  unfoldable pub launch : List Text → Program S Text
  launch command = do emit (launched command); call (cloud.start command)

  unfoldable pub do_backup : Options → Program S (Unit {0})
  do_backup o = do
    call (cloud.credentials o.secret_path)
    dump_metadata o
    output ← launch (asbackup o)
    transfer_to_gcs cloud output o.bucket_name (get_backup_object_name o.name)
    call cloud.wait

  unfoldable pub do_restore : Options → Program S (Unit {0})
  do_restore o = do
    call (cloud.credentials o.secret_path)
    from ← read_metadata o
    output ← launch (asrestore o from)
    transfer_from_gcs cloud o.bucket_name (get_backup_object_name o.name)
    call cloud.close
    call cloud.wait
