-- ===== src/Admission/Serving.antt =====
-- pkg/admission/webhook.go: what the server answers, and that it checks what the webhooks are registered for.
use aerospike_operator.Prelude.{
  ◌≡◌, refl, sym, subst, ap, ◌∙◌, inl, inr, Occurs, Bool, true, false, Option, none, some, List, [],
  ◌∷◌, Text, codes, text_eq, Result, ok, err, if◌then◌else◌,
}
use aerospike_operator.Api.{AerospikeCluster, Kube, ApiError, Secret}
use aerospike_operator.Api.Backup.{BackupRestoreObject, backup, restore}
use aerospike_operator.Startup.Platform.{Resources, clusters, backups, restores}
use aerospike_operator.Admission.Cluster.{
  decode_error, Check, AdmissionReview, AdmissionResponse, admission_response_from_error, respond,
  check_aerospike_cluster, admit_aerospike_cluster,
}
use aerospike_operator.Admission.Backups.{check_backup_restore, admit_backup_restore}
use aerospike_operator.Admission.Server.{
  path_of, healthz_path, plural_of, Webhook, webhook_of, webhooks_of,
}

-- A body that is absent or cannot be read is empty.
pub record HttpRequest : Type 0 where
  pub body : Option (Result Text Text)
  pub content_type : Text

pub record AdmissionRequest : Type 0 where
  pub uid : Text
  pub review : AdmissionReview

pub record Answer : Type 0 where
  pub uid : Text
  pub response : AdmissionResponse

-- `panicked` is a nil dereference, which net/http catches: the connection is closed.
pub data Reply : Type 0 where
  unsupported_media_type healthy no_such_path panicked nothing : Reply
  written : Answer → Reply

abbrev pub body_of : HttpRequest → Text
body_of http = elim http.body [ none ↦ [] | some (ok bytes) ↦ bytes | some (err e) ↦ [] ]

-- The decoder: an error or none, and the request that the review then has. `marshals` says that
-- json.Marshal and the writing of the result have no error.
module _ (decode : Text → Result Text (Unit {0}) × Option AdmissionRequest)
    (marshals : Answer → Bool) where
  abbrev pub answer : AdmissionRequest → AdmissionResponse → Reply
  answer r response =
      let a : Answer = record { uid = r.uid; response = response } in
      if marshals a then written a else nothing

  abbrev pub answer_review :
      (AdmissionReview → AdmissionResponse)
      → Result Text (Unit {0}) × Option AdmissionRequest
      → Reply
  answer_review admit (outcome, none) = panicked
  answer_review admit (ok u, some r) = answer r (admit r.review)
  answer_review admit (err e, some r) = answer r (admission_response_from_error (decode_error e))

  unfoldable pub handle_review : (AdmissionReview → AdmissionResponse) → HttpRequest → Reply
  handle_review admit http =
      if text_eq http.content_type (codes "application/json")
      then answer_review admit (decode (body_of http))
      else unsupported_media_type

written-injective : {a b : Answer} → written a ≡ written b → a ≡ b
written-injective e = cc

no_error : false ≡ true → ⊥
no_error e = cc

registered :
    (namespace ca_bundle : Text) (w : Webhook)
    → Occurs w (webhooks_of namespace ca_bundle)
    → (j : Resources) × (w ≡ webhook_of namespace ca_bundle j)
registered namespace ca_bundle w (inl e) = (clusters, e)
registered namespace ca_bundle w (inr (inl e)) = (backups, e)
registered namespace ca_bundle w (inr (inr (inl e))) = (restores, e)
registered namespace ca_bundle w (inr (inr (inr absent))) = elim absent [ ]

module _ {k : Kube} (decode : Text → Result Text (Unit {0}) × Option AdmissionRequest)
    (marshals : Answer → Bool) (decode_cluster : Text → Result Text (AerospikeCluster k))
    (decode_object : Text → Result Text BackupRestoreObject)
    (lister : Text → Text → Result ApiError (AerospikeCluster k))
    (secrets : Text → Text → Result ApiError Secret) (order : List Text → List Text) where
  -- The checks of pkg/admission/cluster.go and backups.go.
  abbrev pub check : Resources → AdmissionReview → Check
  check clusters = check_aerospike_cluster decode_cluster secrets order
  check backups = check_backup_restore backup decode_object lister secrets
  check restores = check_backup_restore restore decode_object lister secrets

  abbrev pub admit : Resources → AdmissionReview → AdmissionResponse
  admit clusters = admit_aerospike_cluster decode_cluster secrets order
  admit backups = admit_backup_restore backup decode_object lister secrets
  admit restores = admit_backup_restore restore decode_object lister secrets

  unfoldable pub serve : Text → HttpRequest → Reply
  serve path http =
      if text_eq path (path_of clusters)
      then handle_review decode marshals (admit clusters) http
      else if text_eq path (path_of backups)
      then handle_review decode marshals (admit backups) http
      else if text_eq path (path_of restores)
      then handle_review decode marshals (admit restores) http
      else if text_eq path healthz_path
      then healthy
      else no_such_path

  serve-path_of :
      (j : Resources) (http : HttpRequest)
      → serve (path_of j) http ≡ handle_review decode marshals (admit j) http
  unfolding serve text_eq
  serve-path_of clusters http = refl
  serve-path_of backups http = refl
  serve-path_of restores http = refl

  admit-check : (j : Resources) (ar : AdmissionReview) → admit j ar ≡ respond (check j ar)
  unfolding admit_aerospike_cluster admit_backup_restore
  admit-check clusters ar = refl
  admit-check backups ar = refl
  admit-check restores ar = refl

  -- The request that the review has was checked, and the answer has its UID.
  abbrev pub IsChecked : Resources → HttpRequest → Answer → Type 0
  IsChecked j http a =
      (r : AdmissionRequest) × ((decode (body_of http)).1 ≡ some r)
      × (a.uid ≡ r.uid)
      × (check j r.review ≡ ok tt)

  allowed-check : (c : Check) → (respond c).allowed ≡ true → c ≡ ok tt
  allowed-check (ok u) e = refl
  allowed-check (err x) e = absurd (cc)

  answer-written :
      (r : AdmissionRequest) (response : AdmissionResponse) (b : Bool) (a : Answer)
      → (if b then written (record { uid = r.uid; response = response }) else nothing) ≡ written a
      → a ≡ record { uid = r.uid; response = response }
  answer-written r response true a e = written-injective (sym e)
  answer-written r response false a e = absurd (cc)

  allowed_answer :
      (j : Resources) (x : Result Text (Unit {0}) × Option AdmissionRequest) (a : Answer)
      → answer_review decode marshals (admit j) x ≡ written a
      → a.response.allowed ≡ true
      → (r : AdmissionRequest) × (x.1 ≡ some r) × (a.uid ≡ r.uid) × (check j r.review ≡ ok tt)
  allowed_answer j (outcome, none) a e allowed = absurd (cc)
  allowed_answer j (ok u, some r) a e allowed =
      let same = answer-written r (admit j r.review) _ a e in
      (
        r,
        refl,
        ap (λ (b : Answer). b.uid) same,
        allowed-check (check j r.review) (
            subst (λ (b : AdmissionResponse). b.allowed ≡ true)
              (ap (λ (b : Answer). b.response) same ∙ admit-check j r.review) allowed),
      )
  allowed_answer j (err x, some r) a e allowed =
      let same = answer-written r (admission_response_from_error (decode_error x)) _ a e in
      absurd (no_error (subst (λ (b : Answer). b.response.allowed ≡ true) same allowed))

  allowed-IsChecked :
      (j : Resources) (b : Bool) (http : HttpRequest) (a : Answer)
      → (if b
          then answer_review decode marshals (admit j) (decode (body_of http))
          else unsupported_media_type)
        ≡ written a
      → a.response.allowed ≡ true
      → IsChecked j http a
  allowed-IsChecked j true http a e allowed = allowed_answer j (decode (body_of http)) a e allowed
  allowed-IsChecked j false http a e allowed = absurd (cc)

  serve-IsChecked :
      (j : Resources) (http : HttpRequest) (a : Answer)
      → serve (path_of j) http ≡ written a
      → a.response.allowed ≡ true
      → IsChecked j http a
  unfolding handle_review
  serve-IsChecked j http a e allowed =
      allowed-IsChecked j (text_eq http.content_type (codes "application/json")) http a
        (sym (serve-path_of j http) ∙ e) allowed

  -- At the path of each webhook that is registered, the server allows only what passed the check of the
  -- resources that the webhook is registered for, and answers with the UID of the request that it checked.
  pub serve-webhooks :
      (namespace ca_bundle : Text) (w : Webhook) (http : HttpRequest) (a : Answer)
      → Occurs w (webhooks_of namespace ca_bundle)
      → serve w.path http ≡ written a
      → a.response.allowed ≡ true
      → (j : Resources) × (w.resources ≡ plural_of j ∷ []) × IsChecked j http a
  serve-webhooks namespace ca_bundle w http a o e allowed =
      let (j, is) = registered namespace ca_bundle w o in
      (
        j,
        ap (λ (v : Webhook). v.resources) is,
        serve-IsChecked j http a
            (subst (λ path. serve path http ≡ written a) (ap (λ (v : Webhook). v.path) is) e)
            allowed,
      )
