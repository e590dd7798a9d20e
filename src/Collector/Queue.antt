-- ===== src/Collector/Queue.antt =====
-- pkg/controller/garbagecollector.go: the keys of the garbage collector's queue.
use aerospike_operator.Prelude.{
  List, [], ◌∷◌, ◌++◌, Text, codes, text_eq, Result, ok, err, if◌then◌else◌,
}
use aerospike_operator.Action.{Action, pure, raise, ask, ◌>>=◌}
use aerospike_operator.Api.{ApiError, not_found, already_exists, other_error}
use aerospike_operator.Asinit.{pieces}

abbrev pub asnb_prefix : Text
asnb_prefix = codes "asnb"

abbrev pub pvc_prefix : Text
pvc_prefix = codes "pvc"

-- `lister_error` is an error of a lister, `handler_error` one of a handler.
pub data QueueError (E : Type 0) : Type 0 where
  invalid_key invalid_prefix : QueueError E
  lister_error : ApiError → QueueError E
  handler_error : E → QueueError E

-- The listers and the handlers, for backups `B` and claims `C`, and the keys of client-go.
pub record Queue (S W E B C : Type 0) : Type 0 where
  pub get_backup : Text → Text → S → Result ApiError B × S
  pub get_claim : Text → Text → S → Result ApiError C × S
  pub handle_backup : B → Action S W E (Unit {0})
  pub handle_claim : C → Action S W E (Unit {0})
  pub key_of : Text → Text → Text
  pub split_key : Text → Result Text (Text × Text)

module _ {S W E B C : Type 0} (q : Queue S W E B C) where
  abbrev pub Processing : Type 0
  Processing = Action S W (QueueError E) (Unit {0})

  abbrev pub from_handler : Action S W E (Unit {0}) → Processing
  from_handler m s =
      let (answer, rest) = m s in
      (elim answer [ ok u ↦ ok u | err e ↦ err (handler_error e) ], rest)

  -- What has been deleted meanwhile is not handled.
  abbrev pub handle_found :
      {A : Type 0} → (A → Action S W E (Unit {0})) → Result ApiError A → Processing
  handle_found handler (ok a) = from_handler (handler a)
  handle_found handler (err not_found) = pure tt
  handle_found handler (err already_exists) = raise (lister_error already_exists)
  handle_found handler (err (other_error e)) = raise (lister_error (other_error e))

  unfoldable pub process_kind : Text → Text → Text → Processing
  process_kind prefix namespace name =
      if text_eq prefix asnb_prefix
      then ask (q.get_backup namespace name) >>= handle_found q.handle_backup
      else if text_eq prefix pvc_prefix
      then ask (q.get_claim namespace name) >>= handle_found q.handle_claim
      else raise invalid_prefix

  -- A key that client-go cannot split is dropped.
  abbrev pub process_split : Text → Result Text (Text × Text) → Processing
  process_split prefix (ok (namespace, name)) = process_kind prefix namespace name
  process_split prefix (err e) = pure tt

  abbrev pub process_pieces : List Text → Processing
  process_pieces (prefix ∷ key ∷ []) = process_split prefix (q.split_key key)
  process_pieces _ = raise invalid_key

  unfoldable pub process_queue_item : Text → Processing
  process_queue_item prefixed_key = process_pieces (pieces b':' prefixed_key)

  unfoldable pub prefixed : Text → Text → Text → Text
  prefixed prefix namespace name = prefix ++ b':' ∷ q.key_of namespace name
