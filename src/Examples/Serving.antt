-- ===== src/Examples/Serving.antt =====
-- pkg/admission/webhook.go: the server on the creation of a cluster.
use aerospike_operator.Prelude.{
  ◌≡◌, refl, inl, true, Option, none, some, [], ◌∷◌, Text, codes, text_eq, Result, ok, err,
}
use aerospike_operator.Api.{not_found}
use aerospike_operator.Startup.Platform.{Resources, clusters}
use aerospike_operator.Admission.Cluster.{running}
use aerospike_operator.Admission.Server.{path_of, plural_of, webhook_of}
use aerospike_operator.Admission.Serving.{
  HttpRequest, AdmissionRequest, Answer, Reply, written, panicked, handle_review, serve, IsChecked,
  serve-webhooks,
}
use aerospike_operator.Examples.Clusters.{decode, creation, in_order, no_secrets}
use aerospike_operator.Examples.Backups.{object}

-- Every body is the review of the same creation, but for an empty one, which is no review.
abbrev decode_review : Text → Result Text (Unit {0}) × Option AdmissionRequest
decode_review [] = (err (codes "no review"), none)
decode_review (c ∷ body) = (ok tt, some (record { uid = codes "42"; review = creation }))

abbrev post_review : HttpRequest
post_review = record { body = some (ok (codes "review")); content_type = codes "application/json" }

abbrev serve_small : Text → HttpRequest → Reply
serve_small =
    serve decode_review (λ a. true) decode (λ raw. ok object) (λ namespace name. err not_found)
      no_secrets in_order

abbrev admitted : Answer
admitted = record { uid = codes "42"; response = record { allowed = true; message = none } }

allows_creation : serve_small (path_of clusters) post_review ≡ written admitted
unfolding running serve handle_review text_eq
allows_creation = refl

serve-webhooks_example :
    (j : Resources) × (plural_of clusters ∷ [] ≡ plural_of j ∷ [])
    × IsChecked decode_review
        (λ a. true)
        decode
        (λ raw. ok object)
        (λ namespace name. err not_found)
        no_secrets
        in_order
        j
        post_review
        admitted
serve-webhooks_example =
    serve-webhooks decode_review (λ a. true) decode (λ raw. ok object)
      (λ namespace name. err not_found) no_secrets in_order (codes "ops") (codes "ca")
      (webhook_of (codes "ops") (codes "ca") clusters) post_review admitted (inl refl)
      allows_creation refl

-- A body that is no review is not answered.
panics :
    serve_small (path_of clusters) (record { body = none; content_type = codes "application/json" })
    ≡ panicked
unfolding serve handle_review text_eq
panics = refl
