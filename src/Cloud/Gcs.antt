-- ===== src/Cloud/Gcs.antt =====
-- pkg/backuprestore/gcs/gcs.go and utils.go: objects in a bucket, and their names.
use aerospike_operator.Prelude.{List, [], ◌++◌, Text, codes, Result}
use aerospike_operator.Action.{Action, emit, lift, ◌>>=◌, ◌>>◌}

-- The library of the cloud storage, the codecs, and the processes that the program starts. `write`
-- gives two answers, to the writing and to the closing of the writer; `start` gives what the process
-- writes to its standard output.
pub record Cloud (S : Type 0) : Type 0 where
  pub credentials : Text → S → Result Text (Unit {0}) × S
  pub attrs : Text → S → Result Text (Unit {0}) × S
  pub write : Text → Text → Text → S → (Result Text (Unit {0}) × Result Text (Unit {0})) × S
  pub read : Text → Text → S → Result Text Text × S
  pub erase : Text → Text → S → Result Text (Unit {0}) × S
  pub gzip : Text → Text
  pub gunzip : Text → Result Text Text
  pub encode : Text → Text
  pub decode : Text → Result Text Text
  pub start : List Text → S → Result Text Text × S
  pub close : S → Result Text (Unit {0}) × S
  pub wait : S → Result Text (Unit {0}) × S

-- The start of a process, and what is written to its standard input.
pub data Step : Type 0 where
  launched : List Text → Step
  fed : Text → Step

abbrev pub Program : Type 0 → Type 0 → Type 0
Program S A = Action S Step Text A

unfoldable pub get_metadata_object_name : Text → Text
get_metadata_object_name name = name ++ codes ".json"

unfoldable pub get_backup_object_name : Text → Text
get_backup_object_name name = name ++ codes ".asb.gz"

module _ {S : Type 0} where
  abbrev pub call : {A : Type 0} → (S → Result Text A × S) → Program S A
  call c s = let (answer, t) = c s in (answer, ([], t))

  module _ (cloud : Cloud S) where
    -- The handle of an object, after a look at its bucket.
    unfoldable pub get_object : Text → Program S (Unit {0})
    get_object bucket = call (cloud.attrs bucket)

    -- The writer is closed when the function returns, and the answer to that is dropped.
    unfoldable pub store : Text → Text → Text → Program S (Unit {0})
    store bucket object bytes s =
        let ((written, closed), t) = cloud.write bucket object bytes s in (written, ([], t))

    unfoldable pub delete_object : Text → Text → Program S (Unit {0})
    delete_object bucket object = do get_object bucket; call (cloud.erase bucket object)

    unfoldable pub transfer_to_gcs : Text → Text → Text → Program S (Unit {0})
    transfer_to_gcs bytes bucket object = do
      get_object bucket
      store bucket object (cloud.gzip bytes)

    -- The object is unpacked into the standard input of the process.
    unfoldable pub transfer_from_gcs : Text → Text → Program S (Unit {0})
    transfer_from_gcs bucket object = do
      get_object bucket
      packed ← call (cloud.read bucket object)
      bytes ← lift (cloud.gunzip packed)
      emit (fed bytes)
