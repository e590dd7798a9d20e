-- ===== src/Cloud/RoundTrip.antt =====
-- What a backup stores is what a restore reads.
use aerospike_operator.Prelude.{
  ap, ◌∙◌, ◌≡◌, ◌≢◌, refl, Option, some, List, [], ◌∷◌, Text, Result, ok,
}
use aerospike_operator.Action.{prepend, emit, lift, ◌>>=◌, ◌>>◌}
use aerospike_operator.Cloud.Gcs.{
  Cloud, Step, launched, fed, Program, get_metadata_object_name, get_backup_object_name, call,
  get_object, store, transfer_to_gcs, transfer_from_gcs,
}
use aerospike_operator.Cloud.Backup.{
  Options, asbackup, asrestore, dump_metadata, read_metadata, launch, do_backup, do_restore,
}

-- A storage and processes that work: every call is answered, an object has what was last written to
-- it, no other call changes it, and what is packed can be unpacked.
pub record Reliable {S : Type 0} (cloud : Cloud S) : Type 0 where
  pub contents : S → Text → Text → Option Text
  pub credentials_ok :
      (path : Text) (s : S)
      → (t : S) × (cloud.credentials path s ≡ (ok tt, t)) × (contents t ≡ contents s)
  pub attrs_ok :
      (bucket : Text) (s : S)
      → (t : S) × (cloud.attrs bucket s ≡ (ok tt, t)) × (contents t ≡ contents s)
  pub write_ok :
      (bucket object bytes : Text) (s : S)
      → (t : S) × (cloud.write bucket object bytes s ≡ ((ok tt, ok tt), t))
        × (contents t bucket object ≡ some bytes)
        × ((other : Text) → other ≢ object → contents t bucket other ≡ contents s bucket other)
  pub read_ok :
      (bucket object bytes : Text) (s : S)
      → contents s bucket object ≡ some bytes
      → (t : S) × (cloud.read bucket object s ≡ (ok bytes, t)) × (contents t ≡ contents s)
  pub start_ok :
      (command : List Text) (s : S)
      → (output : Text) × (t : S) × (cloud.start command s ≡ (ok output, t))
        × (contents t ≡ contents s)
  pub close_ok : (s : S) → (t : S) × (cloud.close s ≡ (ok tt, t)) × (contents t ≡ contents s)
  pub wait_ok : (s : S) → (t : S) × (cloud.wait s ≡ (ok tt, t)) × (contents t ≡ contents s)
  pub gunzip-gzip : (bytes : Text) → cloud.gunzip (cloud.gzip bytes) ≡ ok bytes
  pub decode-encode : (namespace : Text) → cloud.decode (cloud.encode namespace) ≡ ok namespace

names_differ : (name : Text) → get_metadata_object_name name ≢ get_backup_object_name name
unfolding get_metadata_object_name get_backup_object_name
names_differ [] e = absurd (cc)
names_differ (c ∷ name) e = names_differ name (cc)

module _ {S A B : Type 0} where
  -- Two runs, one after the other.
  run-then :
      (m : Program S A) (f : A → Program S B) {s t : S} {a : A} {log : List Step}
      → m s ≡ (ok a, (log, t))
      → (m >>= f) s ≡ prepend log (f a t)
  run-then m f {t = t} {a = a} {log = log} e = rw (e) refl

  run-call :
      (c : S → Result Text A × S) (f : A → Program S B) {s t : S} {a : A}
      → c s ≡ (ok a, t)
      → (call c >>= f) s ≡ f a t
  run-call c f e = rw (e) refl

module _ {S : Type 0} (cloud : Cloud S) where
  -- A backup in this state runs asbackup and ends well, and a restore into the namespace then runs
  -- asrestore with the namespace of the backup, feeds it what asbackup wrote, and ends well.
  abbrev pub Restores : Options → Text → S → Type 0
  Restores o target s =
      (output : Text) × (t : S) × (end : S) × (do_backup cloud o s
        ≡ (ok tt, (launched (asbackup o) ∷ [], t)))
      × ((u v : S) × (cloud.start (asbackup o) u ≡ (ok output, v)))
      × (do_restore cloud (record o { namespace = target }) t ≡ (
        ok tt,
        (launched (asrestore (record o { namespace = target }) o.namespace) ∷ fed output ∷ [], end),
      ))

module _ {S : Type 0} (cloud : Cloud S) (R : Reliable cloud) where
  stored :
      (bucket object bytes : Text) (s : S)
      → (t : S) × ((get_object cloud bucket >> store cloud bucket object bytes) s
          ≡ (ok tt, ([], t)))
        × (R.contents t bucket object ≡ some bytes)
        × ((other : Text) → other ≢ object → R.contents t bucket other ≡ R.contents s bucket other)
  unfolding get_object store
  stored bucket object bytes s =
      let (u, asked, same) = R.attrs_ok bucket s in
      let (t, written, there, others) = R.write_ok bucket object bytes u in
      (
        t,
        rw (asked, written) refl,
        there,
        λ other d. others other d ∙ ap (λ m. m bucket other) same,
      )

  fetched :
      {A : Type 0} (bucket object bytes : Text) (s : S) (f : Text → Program S A)
      → R.contents s bucket object ≡ some bytes
      → (t : S) × ((get_object cloud bucket >> (call (cloud.read bucket object) >>= f)) s
          ≡ f bytes t)
        × (R.contents t ≡ R.contents s)
  unfolding get_object
  fetched bucket object bytes s f there =
      let (u, asked, same) = R.attrs_ok bucket s in
      let (t, found, still) =
        R.read_ok bucket object bytes u (ap (λ m. m bucket object) same ∙ there) in
      (t, rw (asked, found) refl, still ∙ same)

  -- A backup runs asbackup, and a later restore of the same object hands on what it wrote.
  backed_up :
      (o : Options) (s : S)
      → (output : Text) × (t : S) × (do_backup cloud o s ≡ (ok tt, (launched (asbackup o) ∷ [], t)))
        × (R.contents t o.bucket_name (get_metadata_object_name o.name)
            ≡ some (cloud.encode o.namespace))
        × (R.contents t o.bucket_name (get_backup_object_name o.name) ≡ some (cloud.gzip output))
        × ((u v : S) × (cloud.start (asbackup o) u ≡ (ok output, v)))
  unfolding do_backup dump_metadata launch transfer_to_gcs
  backed_up o s =
      let (s1, signed, same1) = R.credentials_ok o.secret_path s in
      let (s2, dumped, meta, others2) =
        stored o.bucket_name (get_metadata_object_name o.name) (cloud.encode o.namespace) s1 in
      let (output, s3, started, same3) = R.start_ok (asbackup o) s2 in
      let (s4, sent, packed, others4) =
        stored o.bucket_name (get_backup_object_name o.name) (cloud.gzip output) s3 in
      let (s5, waited, same5) = R.wait_ok s4 in
      (
        output,
        s5,
        rw (signed, dumped, started, sent, waited) refl,
        ap (λ m. m o.bucket_name (get_metadata_object_name o.name)) same5
            ∙ others4 (get_metadata_object_name o.name) (names_differ o.name)
            ∙ ap (λ m. m o.bucket_name (get_metadata_object_name o.name)) same3
            ∙ meta,
        ap (λ m. m o.bucket_name (get_backup_object_name o.name)) same5 ∙ packed,
        (s2, s3, started),
      )

  restored :
      (o : Options) (namespace output : Text) (s : S)
      → R.contents s o.bucket_name (get_metadata_object_name o.name) ≡ some (cloud.encode namespace)
      → R.contents s o.bucket_name (get_backup_object_name o.name) ≡ some (cloud.gzip output)
      → (t : S) × (do_restore cloud o s
          ≡ (ok tt, (launched (asrestore o namespace) ∷ fed output ∷ [], t)))
  unfolding do_restore read_metadata launch transfer_from_gcs
  restored o namespace output s meta packed =
      let (s1, signed, same1) = R.credentials_ok o.secret_path s in
      let (s2, known, same2) =
        fetched o.bucket_name (get_metadata_object_name o.name) (cloud.encode namespace) s1
          (λ b. lift (cloud.decode b))
          (ap (λ m. m o.bucket_name (get_metadata_object_name o.name)) same1 ∙ meta) in
      let (printed, s3, started, same3) = R.start_ok (asrestore o namespace) s2 in
      let (s4, fetched_data, same4) =
        fetched o.bucket_name (get_backup_object_name o.name) (cloud.gzip output) s3
          (λ b. lift (cloud.gunzip b) >>= λ bytes. emit (fed bytes))
          (ap (λ m. m o.bucket_name (get_backup_object_name o.name)) (same3 ∙ same2 ∙ same1)
            ∙ packed) in
      let (s5, closed, same5) = R.close_ok s4 in
      let (s6, waited, same6) = R.wait_ok s5 in
      (
        s6,
        rw
            (
              signed,
              known,
              R.decode-encode namespace,
              started,
              fetched_data,
              R.gunzip-gzip output,
              closed,
              waited,
            )
            refl,
      )

  -- Where storage and processes work, a backup ends without error, and a restore under the same name,
  -- into whatever namespace, runs asrestore with the namespace of the backup and feeds it what asbackup
  -- wrote.
  pub do_restore-do_backup : (o : Options) (target : Text) (s : S) → Restores cloud o target s
  do_restore-do_backup o target s =
      let (output, t, ran, meta, packed, wrote) = backed_up o s in
      let (end, again) =
        restored (record o { namespace = target }) o.namespace output t meta packed in
      (output, t, end, ran, wrote, again)
