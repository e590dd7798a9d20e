-- ===== src/Startup/Platform.antt =====
-- The objects that the start of the operator reads and writes, and the API that stores them.
use aerospike_operator.Prelude.{◌≡◌, ap, ok-injective, ℕ, Bool, Option, List, Text, Result, ok, err}
use aerospike_operator.Action.{Action, request}
use aerospike_operator.Api.{ApiError}

-- pkg/apis/aerospike: the three kinds of resource.
pub data Resources : Type 0 where
  clusters backups restores : Resources

-- What a custom resource holds besides its annotations; what a definition says of its resources; and
-- the webhooks of a configuration and the data of a secret.
pub record Startup : Type 1 where
  pub Body : Type 0
  pub Spec : Type 0
  pub Webhooks : Type 0
  pub Certificate : Type 0

pub record Condition : Type 0 where
  pub established : Bool
  pub is_true : Bool

module _ (p : Startup) where
  pub record Resource : Type 0 where
    pub annotations : List (Text × Text)
    pub body : p.Body

  pub record Crd : Type 0 where
    pub name : Text
    pub spec : p.Spec
    pub conditions : List Condition
    pub stored_versions : List Text

  -- The requests, in the order in which they are sent.
  pub data Effect : Type 0 where
    create_crd update_crd update_status : Crd → Effect
    update_resource : Resources → Resource → Effect
    watch_crd : Crd → Effect
    get_endpoints start_controllers : Effect

  pub data StartError : Type 0 where
    api_error : ApiError → StartError
    no_events : Text → StartError
    timed_out : StartError

  pub record StartApi (S : Type 0) : Type 0 where
    pub post_crd : Crd → S → Result ApiError (Unit {0}) × S
    pub get_crd : Text → S → Result ApiError Crd × S
    pub put_crd : Crd → S → Result ApiError (Unit {0}) × S
    pub put_status : Crd → S → Result ApiError (Unit {0}) × S
    pub list : Resources → S → Result ApiError (List Resource) × S
    pub put_resource : Resources → Resource → S → Result ApiError (Unit {0}) × S
    pub same_spec : p.Spec → p.Spec → Bool
    -- watch.UntilWithSync: the last event that was seen, which is one that the condition accepts.
    pub until : Text → (Crd → Bool) → S → Result ApiError (Option Crd) × S
    -- The number of subsets of the endpoints of the service.
    pub subsets : S → Result ApiError ℕ × S
    -- How long the ticker waits, in nanoseconds, until it sends.
    pub until_tick : S → ℕ × S

  abbrev pub Starting : Type 0 → Type 0 → Type 0
  Starting S A = Action S Effect StartError A

module _ {p : Startup} where
  abbrev pub from_api : {A : Type 0} → Result ApiError A → Result (StartError p) A
  from_api (ok a) = ok a
  from_api (err e) = err (api_error e)

  pub from_api-eq-ok : {A : Type 0} (x : Result ApiError A) {a : A} → from_api x ≡ ok a → x ≡ ok a
  from_api-eq-ok (ok b) e = ap ok (ok-injective e)
  from_api-eq-ok (err x) e = absurd (cc)

module _ {p : Startup} {S : Type 0} where
  abbrev pub send : {A : Type 0} → Effect p → (S → Result ApiError A × S) → Starting p S A
  send w call = request w (λ s. let (answer, t) = call s in (from_api answer, t))

  -- A request whose error the code looks at.
  abbrev pub try_send :
      {A : Type 0} → Effect p → (S → Result ApiError A × S) → Starting p S (Result ApiError A)
  try_send w call = request w (λ s. let (answer, t) = call s in (ok answer, t))
