-- ===== src/Pods/Api.antt =====
-- What the code on pods asks of Kubernetes and of Aerospike, what it logs, and the errors it returns.
use aerospike_operator.Prelude.{
  ◌≡◌, ap, ok-injective, ℕ, Bool, List, [], ◌∷◌, Text, Result, ok, err, ℤ,
}
use aerospike_operator.Action.{Action}
use aerospike_operator.Api.{ApiError}
use aerospike_operator.Versioning.Upgrade.{UpgradeError}
use aerospike_operator.Pods.Platform.{Platform, Pod, Claim}

pub data PodReason : Type 0 where
  node_starting node_started node_started_failed : PodReason
  wait_for_migrations_started wait_for_migrations_finished : PodReason
  node_upgrade_started node_upgrade_failed node_upgrade_finished : PodReason

-- What is done, and of the migrations also what was answered: `migrations pod b` is the answer to
-- whether the pod takes part in migrations, `migrated pod` the end of the wait for them.
pub data Effect (p : Platform) : Type 0 where
  migrations : Pod p → Bool → Effect p
  migrated : Pod p → Effect p
  delete_pod create_pod : Pod p → Effect p
  patch_claim : Claim p → Claim p → Effect p
  create_claim : Claim p → Effect p
  info : Pod p → Text → Effect p
  event : PodReason → Effect p

-- `panic` is a panic of a library function on its argument.
pub data PodError : Type 0 where
  api_error : ApiError → PodError
  client_error missing_annotation : Text → PodError
  node_not_found no_version no_events watch_timeout watch_error : PodError
  pod_deleted failed_pod_deleted incorrect_cluster_size : PodError
  failed_to_upgrade : Text → PodError
  unsupported_storage : Text → PodError
  strategy_error : UpgradeError → PodError
  parse_error : Text → PodError
  panic : PodError

pub data WatchEvent (p : Platform) : Type 0 where
  added modified deleted : Pod p → WatchEvent p
  failure : WatchEvent p

-- The answers of the API, of the listers and of the Aerospike nodes, each with the state after it.
-- `watch` gives the events that UntilWithSync hands to the condition before the time is out, `ticks`
-- the number of seconds before the timer of ensureClusterSize, and `sort_pods` and `sort_claims`
-- are sort.Sort.
pub record Api (p : Platform) (S : Type 0) : Type 0 where
  pub get_pod : Text → Text → S → Result ApiError (Pod p) × S
  pub list_pods : Text → Text → S → Result ApiError (List (Pod p)) × S
  pub post_pod : Pod p → S → Result ApiError (Pod p) × S
  pub remove_pod : Pod p → S → Result ApiError (Unit {0}) × S
  pub watch : Pod p → S → List (WatchEvent p) × S
  pub get_claim : Text → Text → S → Result ApiError (Claim p) × S
  pub list_claims : Text → Text → S → Result ApiError (List (Claim p)) × S
  pub post_claim : Claim p → S → Result ApiError (Claim p) × S
  pub send_patch : Claim p → Claim p → S → Result ApiError (Unit {0}) × S
  pub nodes : Pod p → S → Result Text (List Text) × S
  pub migration_in_progress : Pod p → Text → S → Result Text Bool × S
  pub wait_until_migrated : Pod p → Text → S → Result Text (Unit {0}) × S
  pub request_info : Pod p → Text → S → Result Text (List (Text × Text)) × S
  pub cluster_size : Pod p → S → Result Text ℤ × S
  pub ticks : S → ℕ × S
  pub now : S → ℤ × S
  pub sort_pods : (Pod p → Pod p → Bool) → List (Pod p) → List (Pod p)
  pub sort_claims : (Claim p → Claim p → Bool) → List (Claim p) → List (Claim p)

abbrev pub PodAction : Platform → Type 0 → Type 0 → Type 0
PodAction p S A = Action S (Effect p) PodError A

module _ {A : Type 0} where
  abbrev pub from_api : Result ApiError A → Result PodError A
  from_api (ok a) = ok a
  from_api (err e) = err (api_error e)

  pub from_api-eq-ok : {r : Result ApiError A} {a : A} → from_api r ≡ ok a → r ≡ ok a
  from_api-eq-ok {r = ok b} e = ap ok (ok-injective e)
  from_api-eq-ok {r = err x} e = absurd (cc)

  abbrev pub from_client : Result Text A → Result PodError A
  from_client (ok a) = ok a
  from_client (err e) = err (client_error e)

  module _ {p : Platform} {S : Type 0} where
    -- A call of the API that reads, and one that changes something.
    abbrev pub read : (S → Result ApiError A × S) → PodAction p S A
    read call s = let (r, t) = call s in (from_api r, ([], t))

    abbrev pub write : Effect p → (S → Result ApiError A × S) → PodAction p S A
    write e call s = let (r, t) = call s in (from_api r, (e ∷ [], t))

    -- A call of an Aerospike node.
    abbrev pub query : (S → Result Text A × S) → PodAction p S A
    query call s = let (r, t) = call s in (from_client r, ([], t))
