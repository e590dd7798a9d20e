-- ===== src/Admission/Server.antt =====
-- pkg/admission/webhook.go: the registration of the webhooks, and the handling of their requests.
use aerospike_operator.Prelude.{
  ℕ, Bool, true, false, List, [], ◌∷◌, ◌++◌, Text, codes, Result, ok, err, if◌then◌else◌,
}
use aerospike_operator.Action.{Action, pure, raise, ask, request, ◌>>=◌, ◌>>◌}
use aerospike_operator.Api.{ApiError, not_found, already_exists, other_error}
use aerospike_operator.Startup.Platform.{Resources, clusters, backups, restores}
use aerospike_operator.Startup.Convert.{crd_name}

abbrev pub path_of : Resources → Text
path_of clusters = codes "/admission/reviews/aerospikeclusters"
path_of backups = codes "/admission/reviews/aerospikenamespacebackups"
path_of restores = codes "/admission/reviews/aerospikenamespacerestores"

abbrev pub healthz_path : Text
healthz_path = codes "/healthz"

-- The names of the custom resources in the API.
abbrev pub plural_of : Resources → Text
plural_of clusters = codes "aerospikeclusters"
plural_of backups = codes "aerospikenamespacebackups"
plural_of restores = codes "aerospikenamespacerestores"

abbrev pub service_name : Text
service_name = codes "aerospike-operator"

abbrev pub group_name : Text
group_name = codes "aerospike.travelaudience.com"

-- The policies, the side effects and the timeout, which are the same for each webhook, are one field each.
pub record Webhook : Type 0 where
  pub name : Text
  pub operations : List Text
  pub api_groups : List Text
  pub api_versions : List Text
  pub resources : List Text
  pub service : Text
  pub namespace : Text
  pub path : Text
  pub ca_bundle : Text
  pub failure_policy : Text
  pub match_policy : Text
  pub timeout_seconds : ℕ
  pub side_effects : Text
  pub review_versions : List Text

abbrev pub webhook_of : Text → Text → Resources → Webhook
webhook_of namespace ca_bundle k = record {
  name = crd_name k;
  operations = codes "CREATE" ∷ codes "UPDATE" ∷ [];
  api_groups = group_name ∷ group_name ∷ [];
  api_versions = codes "v1alpha2" ∷ codes "v1alpha1" ∷ [];
  resources = plural_of k ∷ [];
  service = service_name;
  namespace = namespace;
  path = path_of k;
  ca_bundle = ca_bundle;
  failure_policy = codes "Fail";
  match_policy = codes "Exact";
  timeout_seconds = 30;
  side_effects = codes "None";
  review_versions = codes "v1beta1" ∷ [];
}

abbrev pub webhooks_of : Text → Text → List Webhook
webhooks_of namespace ca_bundle =
    webhook_of namespace ca_bundle clusters
    ∷ webhook_of namespace ca_bundle backups
    ∷ webhook_of namespace ca_bundle restores
    ∷ []

-- The certificate and the private key, in PEM.
pub record TlsSecret : Type 0 where
  pub certificate : Text
  pub private_key : Text

pub data ServerEffect : Type 0 where
  create_secret : TlsSecret → ServerEffect
  create_webhooks update_webhooks : List Webhook → ServerEffect

pub data ServerError : Type 0 where
  server_api : ApiError → ServerError
  tls_error : Text → ServerError

-- `generate` makes a key and signs a certificate for the name of the service; `key_pair` is tls.X509KeyPair.
pub record ServerApi (S : Type 0) : Type 0 where
  pub generate : Text → S → Result Text TlsSecret × S
  pub key_pair : TlsSecret → Result Text (Unit {0})
  pub post_secret : TlsSecret → S → Result ApiError (Unit {0}) × S
  pub get_tls_secret : S → Result ApiError TlsSecret × S
  pub post_webhooks : List Webhook → S → Result ApiError (Unit {0}) × S
  pub get_webhooks : S → Result ApiError (List Webhook) × S
  pub put_webhooks : List Webhook → S → Result ApiError (Unit {0}) × S
  pub same_webhooks : List Webhook → List Webhook → Bool

module _ {S : Type 0} (api : ServerApi S) (namespace : Text) where
  abbrev pub Registering : Type 0 → Type 0
  Registering A = Action S ServerEffect ServerError A

  abbrev pub or_api_error : {A : Type 0} → Result ApiError A → Registering A
  or_api_error (ok a) = pure a
  or_api_error (err e) = raise (server_api e)

  abbrev pub or_tls_error : {A : Type 0} → Result Text A → Registering A
  or_tls_error (ok a) = pure a
  or_tls_error (err e) = raise (tls_error e)

  -- A secret that exists is used instead of the new one.
  abbrev pub after_secret : TlsSecret → Result ApiError (Unit {0}) → Registering TlsSecret
  after_secret new (ok u) = pure new
  after_secret new (err not_found) = raise (server_api not_found)
  after_secret new (err already_exists) = ask api.get_tls_secret >>= or_api_error
  after_secret new (err (other_error e)) = raise (server_api (other_error e))

  -- A request whose error the code looks at.
  abbrev pub try_post :
      ServerEffect → (S → Result ApiError (Unit {0}) × S) → Registering (Result ApiError (Unit {0}))
  try_post w call = request w (λ s. let (answer, t) = call s in (ok answer, t))

  abbrev pub store_secret : TlsSecret → Registering TlsSecret
  store_secret new = try_post (create_secret new) (api.post_secret new) >>= after_secret new

  abbrev pub service_host : Text
  service_host = service_name ++ b'.' ∷ (namespace ++ codes ".svc")

  unfoldable pub ensure_tls_secret : Registering TlsSecret
  ensure_tls_secret = ask (api.generate service_host) >>= or_tls_error >>= store_secret

  abbrev pub update_webhooks_unless_same : List Webhook → List Webhook → Registering (Unit {0})
  update_webhooks_unless_same wanted current =
      if api.same_webhooks current wanted
      then pure tt
      else try_post (update_webhooks wanted) (api.put_webhooks wanted) >>= or_api_error

  abbrev pub after_webhooks : List Webhook → Result ApiError (Unit {0}) → Registering (Unit {0})
  after_webhooks wanted (ok u) = pure tt
  after_webhooks wanted (err not_found) = raise (server_api not_found)
  after_webhooks wanted (err already_exists) =
      ask api.get_webhooks >>= or_api_error >>= update_webhooks_unless_same wanted
  after_webhooks wanted (err (other_error e)) = raise (server_api (other_error e))

  unfoldable pub ensure_webhook_config : Text → Registering (Unit {0})
  ensure_webhook_config ca_bundle =
      let wanted = webhooks_of namespace ca_bundle in
      try_post (create_webhooks wanted) (api.post_webhooks wanted) >>= after_webhooks wanted

  abbrev pub register_if : Bool → TlsSecret → Registering (Unit {0})
  register_if true secret = ensure_webhook_config secret.certificate
  register_if false secret = pure tt

  -- The certificate that the server then uses is that of the secret.
  abbrev pub use_secret : Bool → TlsSecret → Registering TlsSecret
  use_secret enabled secret =
      or_tls_error (api.key_pair secret) >> register_if enabled secret >> pure secret

  unfoldable pub register : Bool → Registering TlsSecret
  register enabled = ensure_tls_secret >>= use_secret enabled
