-- ===== src/Collector/Events.antt =====
-- pkg/controller/garbagecollector.go: what the events of backups and claims put on the collector's queue.
use aerospike_operator.Prelude.{
  ◌≡◌, refl, sym, ap, ◌∙◌, Bool, true, false, Option, none, some, some-injective, ◌∷◌, ◌++◌, Text,
  codes, text_eq, text_eq_iff, Result, ok, err, ok-injective, if◌then◌else◌, Occurs, inl, inr, ◌↔◌,
}
use aerospike_operator.Action.{pure, emit}
use aerospike_operator.Controllers.Worker.{Work, Working, added, reported, no_key}
use aerospike_operator.Controllers.Objects.{Event, object, tombstone, unknown, OwnerReference}
use aerospike_operator.Collector.Queue.{pvc_prefix}

abbrev pub cluster_kind : Text
cluster_kind = codes "AerospikeCluster"

-- MetaNamespaceKeyFunc gives the key.
module _ {S O W E : Type 0} where
  unfoldable pub enqueue_with_prefix : Result Text Text → Text → Working S O W E (Unit {0})
  enqueue_with_prefix (ok key) prefix = emit (added (prefix ++ b':' ∷ key))
  enqueue_with_prefix (err e) prefix = emit (reported (no_key e))

  abbrev pub enqueue_controlled :
      Option OwnerReference → Result Text Text → Working S O W E (Unit {0})
  enqueue_controlled none key = pure tt
  enqueue_controlled (some owner) key =
      if text_eq owner.kind cluster_kind then enqueue_with_prefix key pvc_prefix else pure tt

  module _ (controller_of : O → Option OwnerReference) (key_of : O → Result Text Text) where
    -- Of a claim that is gone, nothing is put on the queue.
    unfoldable pub handle_claim_event : Event O → Working S O W E (Unit {0})
    handle_claim_event (object o) = enqueue_controlled (controller_of o) (key_of o)
    handle_claim_event (tombstone o) = pure tt
    handle_claim_event unknown = pure tt

module _ {O : Type 0} (controller_of : O → Option OwnerReference)
    (key_of : O → Result Text Text) where
  -- The object of the event is controlled by a cluster, and this is its key with the prefix of claims.
  abbrev pub IsClaimsKey : Event O → Text → Type 0
  IsClaimsKey (object o) entry =
      (owner : OwnerReference) × (controller_of o ≡ some owner)
      × (owner.kind ≡ cluster_kind)
      × ((key : Text) × (key_of o ≡ ok key) × (entry ≡ pvc_prefix ++ b':' ∷ key))
  IsClaimsKey (tombstone o) entry = ⊥
  IsClaimsKey unknown entry = ⊥

module _ (S O W E : Type 0) where
  controlled_iff :
      (b : Bool) (k : Result Text Text) (entry : Text) (s : S)
      → Occurs {A = Work O W E}
          (added entry)
          ((if b then enqueue_with_prefix k pvc_prefix else pure tt) s).1.0
        ↔ ((b ≡ true) × ((key : Text) × (k ≡ ok key) × (entry ≡ pvc_prefix ++ b':' ∷ key)))
  unfolding enqueue_with_prefix
  controlled_iff true (ok key) entry s = (
    λ o. elim o [ inl e ↦ (refl, (key, refl, cc)) | inr absent ↦ elim absent [ ] ],
    λ (_, (j, e, same)).
        inl (ap added (same ∙ ap (λ l. pvc_prefix ++ b':' ∷ l) (sym (ok-injective e)))),
  )
  controlled_iff true (err x) entry s = (
    λ o. elim o [ inl e ↦ absurd (cc) | inr absent ↦ elim absent [ ] ],
    λ (_, (j, e, same)). absurd (cc),
  )
  controlled_iff false k entry s = (λ o. elim o [ ], λ (e, h). absurd (cc))

  owned_iff :
      (x : Option OwnerReference) (k : Result Text Text) (entry : Text) (s : S)
      → Occurs {A = Work O W E} (added entry) (enqueue_controlled x k s).1.0 ↔ (
          (owner : OwnerReference) × (x ≡ some owner)
          × (owner.kind ≡ cluster_kind)
          × ((key : Text) × (k ≡ ok key) × (entry ≡ pvc_prefix ++ b':' ∷ key)))
  owned_iff none k entry s = (λ o. elim o [ ], λ (owner, e, same, h). absurd (cc))
  owned_iff (some r) k entry s =
      let (to, from) = controlled_iff (text_eq r.kind cluster_kind) k entry s in
      (
        λ o. let (b, h) = to o in (r, refl, (text_eq_iff r.kind cluster_kind).0 b, h),
        λ (owner, e, same, h). from (
          (text_eq_iff r.kind cluster_kind).1
              (ap (λ (x : OwnerReference). x.kind) (some-injective e) ∙ same),
          h,
        ),
      )

  module _ (controller_of : O → Option OwnerReference) (key_of : O → Result Text Text) where
    -- The event of a claim puts a key on the queue exactly when a cluster controls the claim.
    pub handle_claim_event-IsClaimsKey :
        (e : Event O) (entry : Text) (s : S)
        → Occurs {A = Work O W E} (added entry) (handle_claim_event controller_of key_of e s).1.0
          ↔ IsClaimsKey controller_of key_of e entry
    unfolding handle_claim_event
    handle_claim_event-IsClaimsKey (object o) entry s =
        owned_iff (controller_of o) (key_of o) entry s
    handle_claim_event-IsClaimsKey (tombstone o) entry s = (λ o. elim o [ ], λ h. absurd h)
    handle_claim_event-IsClaimsKey unknown entry s = (λ o. elim o [ ], λ h. absurd h)
