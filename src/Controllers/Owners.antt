-- ===== src/Controllers/Owners.antt =====
-- pkg/controller/cluster.go, backup.go and restore.go: from the event of an object to its owner's handling.
use aerospike_operator.Prelude.{◌≡◌, some, Text, ok}
use aerospike_operator.Action.{ask, ◌>>=◌}
use aerospike_operator.Controllers.Objects.{
  Event, OwnerReference, Kind, object_of, process_key, handle_if_found,
}

module _ {S W E O A : Type 0} (c : Kind S W E O A) where
  -- The object of the event is controlled by a resource of the kind, which exists and has the key.
  abbrev pub Owns : O → OwnerReference → A → S → Text → Type 0
  Owns o r a s k =
      (c.controller_of o ≡ some r)
      × (r.kind ≡ c.kind)
      × ((c.get (c.namespace_of o) r.name s).0 ≡ ok a)
      × (c.key_of a ≡ ok k)

  -- The processing of the key looks up the owner and hands it to the handler.
  abbrev pub Processes : Text → Text → Text → Type 0
  Processes k namespace name = process_key c k ≡ (ask (c.get namespace name) >>= handle_if_found c)

  abbrev pub IsOwnersKey : Event O → S → Text → Type 0
  IsOwnersKey e s k =
      (o : O) × (r : OwnerReference) × (a : A) × (object_of e ≡ some o)
      × Owns o r a s k
      × Processes k (c.namespace_of o) r.name
