-- ===== src/BackupRestore/Job.antt =====
-- pkg/backuprestore/job.go and secret.go: the job of a backup or restore, and its secret.
use aerospike_operator.Prelude.{
  ℕ, Bool, true, false, List, [], ◌∷◌, ◌++◌, Text, codes, text_eq, Result, ok, err, if◌then◌else◌,
}
use aerospike_operator.Run.{pure, raise, request, lift, ◌>>=◌, ◌>>◌}
use aerospike_operator.Api.{
  Kube, BackupStorageSpec, ApiError, Secret, get_secret_key, get_secret_namespace,
}
use aerospike_operator.Api
use aerospike_operator.Api.Backup.{BackupRestoreObject, operation_name}
use aerospike_operator.BackupRestore.Types.{
  Job, TempSecret, create_job, create_secret, delete_secret, HandlerError, api_error, field_missing,
  Handle, Server,
}

abbrev pub api : {A : Type 0} → Result ApiError A → Result HandlerError A
api (ok a) = ok a
api (err e) = err (api_error e)

unfoldable pub has_field : Text → List Text → Bool
has_field key [] = false
has_field key (k ∷ rest) = let later = has_field key rest in if text_eq k key then true else later

unfoldable pub get_job_name : BackupRestoreObject → Text
get_job_name obj = obj.name ++ (b'-' ∷ operation_name obj.kind)

abbrev pub job_backoff_limit : ℕ
job_backoff_limit = 3

-- `%t`
abbrev pub print_bool : Bool → Text
print_bool true = codes "true"
print_bool false = codes "false"

module _ {k : Kube} (server : Server k) where
  -- The job for an object with this storage and secret.
  unfoldable pub job_of : BackupRestoreObject → BackupStorageSpec → Secret → Job
  job_of obj storage secret = record {
    name = get_job_name obj;
    namespace = obj.namespace;
    cluster_label = obj.spec.target.cluster;
    namespace_label = obj.spec.target.namespace;
    image = codes "quay.io/travelaudience/aerospike-operator-tools:" ++ server.operator_version;
    command =
        codes "backup"
        ∷ operation_name obj.kind
        ∷ (codes "-debug=" ++ print_bool server.debug_enabled)
        ∷ (codes "-bucket-name=" ++ storage.bucket)
        ∷ (codes "-name=" ++ obj.name)
        ∷ (codes "-secret-path=/secret/" ++ get_secret_key storage)
        ∷ (codes "-host=" ++ (obj.spec.target.cluster ++ (b'.' ∷ obj.namespace)))
        ∷ (codes "-namespace=" ++ obj.spec.target.namespace)
        ∷ [];
    secret_name = secret.name;
    backoff_limit = job_backoff_limit;
  }

  unfoldable pub start_job : BackupRestoreObject → BackupStorageSpec → Secret → Handle (Unit {0})
  start_job obj storage secret =
      if has_field (get_secret_key storage) secret.data_keys
      then request (create_job (job_of obj storage secret))
          (api (server.create_job_answer (job_of obj storage secret)))
      else raise (field_missing (get_secret_key storage))

  unfoldable pub temp_secret : Secret → BackupRestoreObject → TempSecret
  temp_secret secret obj = record {
    namespace = obj.namespace;
    generate_name = secret.name ++ codes "-";
    label = (operation_name obj.kind, obj.name);
    data_keys = secret.data_keys;
  }

  unfoldable pub create_temp_secret : Secret → BackupRestoreObject → Handle Secret
  create_temp_secret secret obj =
      request (create_secret (temp_secret secret obj))
        (api (server.create_secret_answer (temp_secret secret obj)))

  -- Whether the secret stands in the namespace of the object decides if it is copied.
  unfoldable pub usable_secret : Bool → Secret → BackupRestoreObject → Handle Secret
  usable_secret true secret obj = pure secret
  usable_secret false secret obj = create_temp_secret secret obj

  unfoldable pub get_secret : BackupRestoreObject → BackupStorageSpec → Handle Secret
  get_secret obj storage =
      let namespace = get_secret_namespace storage obj.namespace in
      do
        secret ← lift (api (server.get_secret namespace (Api.get_secret storage)))
        usable_secret (text_eq namespace obj.namespace) secret obj

  unfoldable pub delete_secrets : Text → List Secret → Handle (Unit {0})
  delete_secrets namespace [] = pure tt
  delete_secrets namespace (s ∷ rest) = do
    request (delete_secret namespace s.name) (api (server.delete_secret_answer namespace s.name))
    delete_secrets namespace rest

  unfoldable pub clear_secrets : BackupRestoreObject → Handle (Unit {0})
  clear_secrets obj = do
    secrets ← lift (api (server.list_secrets obj))
    delete_secrets obj.namespace secrets
