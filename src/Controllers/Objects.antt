-- ===== src/Controllers/Objects.antt =====
-- pkg/controller/cluster.go, backup.go and restore.go, which have one shape, and the events of
-- garbagecollector.go: the keys that an event puts on the queue, and what is done with a key.
use aerospike_operator.Prelude.{Option, none, some, Text, text_eq, Result, ok, err, if◌then◌else◌}
use aerospike_operator.Action.{Action, pure, raise, ask, emit, ◌>>=◌}
use aerospike_operator.Api.{ApiError, not_found, already_exists, other_error}
use aerospike_operator.Controllers.Worker.{added, reported, expected_object, no_key, Working}

-- What an informer sends: an object, or what is known of an object that is gone, or something else.
pub data Event (O : Type 0) : Type 0 where
  object : O → Event O
  tombstone : Option O → Event O
  unknown : Event O

pub record OwnerReference : Type 0 where
  pub kind : Text
  pub name : Text

-- `lister_failed` is an error of a lister, `handler_failed` one of MaybeReconcile or Handle.
pub data ObjectError (E : Type 0) : Type 0 where
  lister_failed : ApiError → ObjectError E
  handler_failed : E → ObjectError E

-- The lister of a kind of resource `A` and the handler of a resource; and, of apimachinery and client-go,
-- the accessors of an object, GetControllerOf, MetaNamespaceKeyFunc and SplitMetaNamespaceKey.
pub record Kind (S W E O A : Type 0) : Type 0 where
  pub kind : Text
  pub get : Text → Text → S → Result ApiError A × S
  pub handle : A → Action S W E (Unit {0})
  pub namespace_of : O → Text
  pub resource_version : O → Text
  pub controller_of : O → Option OwnerReference
  pub key_of : A → Result Text Text
  pub split_key : Text → Result Text (Text × Text)

abbrev pub object_of : {O : Type 0} → Event O → Option O
object_of (object o) = some o
object_of (tombstone t) = t
object_of unknown = none

module _ {S W E O A : Type 0} (c : Kind S W E O A) where
  abbrev pub handled : Action S W E (Unit {0}) → Action S W (ObjectError E) (Unit {0})
  handled m s =
      let (answer, rest) = m s in
      (elim answer [ ok u ↦ ok u | err e ↦ err (handler_failed e) ], rest)

  -- What has been deleted meanwhile is not handled.
  abbrev pub handle_if_found : Result ApiError A → Action S W (ObjectError E) (Unit {0})
  handle_if_found (ok a) = handled (c.handle a)
  handle_if_found (err not_found) = pure tt
  handle_if_found (err already_exists) = raise (lister_failed already_exists)
  handle_if_found (err (other_error e)) = raise (lister_failed (other_error e))

  -- A key that client-go cannot split is dropped.
  abbrev pub process_name : Result Text (Text × Text) → Action S W (ObjectError E) (Unit {0})
  process_name (ok (namespace, name)) = ask (c.get namespace name) >>= handle_if_found
  process_name (err e) = pure tt

  unfoldable pub process_key : Text → Action S W (ObjectError E) (Unit {0})
  process_key k = process_name (c.split_key k)

  abbrev pub add_key : Result Text Text → Working S O W E (Unit {0})
  add_key (ok k) = emit (added k)
  add_key (err e) = emit (reported (no_key e))

  unfoldable pub enqueue : A → Working S O W E (Unit {0})
  enqueue a = add_key (c.key_of a)

  -- An owner that the lister does not give is ignored.
  abbrev pub enqueue_found : Result ApiError A → Working S O W E (Unit {0})
  enqueue_found (ok a) = enqueue a
  enqueue_found (err e) = pure tt

  abbrev pub enqueue_owner : O → Option OwnerReference → Working S O W E (Unit {0})
  enqueue_owner o none = pure tt
  enqueue_owner o (some r) =
      if text_eq r.kind c.kind
      then ask (c.get (c.namespace_of o) r.name) >>= enqueue_found
      else pure tt

  abbrev pub handle_known : Option O → Working S O W E (Unit {0})
  handle_known none = emit (reported expected_object)
  handle_known (some o) = enqueue_owner o (c.controller_of o)

  unfoldable pub handle_object : Event O → Working S O W E (Unit {0})
  handle_object e = handle_known (object_of e)

  -- Two versions of an object differ in their resource version; a resync sends the same one.
  unfoldable pub handle_update : O → O → Working S O W E (Unit {0})
  handle_update old new =
      if text_eq (c.resource_version new) (c.resource_version old)
      then pure tt
      else handle_object (object new)
