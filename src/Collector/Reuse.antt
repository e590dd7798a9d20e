-- ===== src/Collector/Reuse.antt =====
-- A claim that pkg/garbagecollector/pvcs.go deletes is not one that pkg/reconciler/pvc.go takes again.
use aerospike_operator.Prelude.{
  if◌then◌else◌, ◌≢◌, ap, ◌∙◌, ok-injective, ◌≡◌, ◌⊎◌, inl, inr, refl, sym, subst, Bool, true,
  false, Option, none, some, Text, Result, ok, ℤ, pos, ltb_ℤ, eqb_ℤ, ◌+ℤ◌, ◌≤ℤ◌, Occurs, arith,
}
use aerospike_operator.Prelude.Dict.{lookup}
use aerospike_operator.Action.{pure, ask, ◌>>=◌}
use aerospike_operator.Action.Returns.{lift->>=-eq-ok}
use aerospike_operator.Action.Logs.{Occurs-lift, Occurs-unless}
use aerospike_operator.Pods.Platform.{Platform, Pod, Claim}
use aerospike_operator.Pods.Api.{PodAction, Effect, PodError, Api}
use aerospike_operator.Pods.Durations.{parse_duration}
use aerospike_operator.Pods.Claims.{
  pod_annotation, pvc_ttl_annotation, last_unmounted_on_annotation, time_of, is_available,
  was_unmounted, within_ttl, has_time_left, belongs_to,
}
use aerospike_operator.Pods.Delete.{found_pod}
use aerospike_operator.Collector.Claims.{
  ClaimApi, is_mounted, annotation_of, annotation_of-eq-ok, delete, delete_unless_mounted,
  collect_unmounted, when_expired, collect_expired, collect_since, handle_claim,
}

both : {b : Bool} → b ≡ false → b ≡ true → ⊥
both f t = cc

not_yet : (n m z : ℤ) → ltb_ℤ n z ≡ false → n ≤ℤ m → ltb_ℤ m z ≡ true → ⊥
not_yet n m z late le early = ground arith

module _ {p : Platform} where
  -- The claim says that it was unmounted at this time, and for how long it is kept.
  abbrev pub UnmountedAt : Claim p → ℤ → Type 0
  UnmountedAt claim time =
      (text : Text) × (lookup last_unmounted_on_annotation claim.annotations ≡ some text)
      × (time_of p text ≡ ok time)

  abbrev pub KeptFor : Claim p → ℤ → Type 0
  KeptFor claim ttl =
      (text : Text) × (lookup pvc_ttl_annotation claim.annotations ≡ some text)
      × (parse_duration p text ≡ ok ttl)

  -- The claim has an expiration that is reached at this time.
  abbrev pub ExpiredAt : Claim p → ℤ → Type 0
  ExpiredAt claim now =
      (time : ℤ) × (ttl : ℤ) × UnmountedAt claim time
      × KeptFor claim ttl
      × (eqb_ℤ ttl (pos 0) ≡ false)
      × (ltb_ℤ now (time +ℤ ttl) ≡ false)

  -- The claim was unmounted, and has no expiration or one that is not reached.
  abbrev pub AvailableAt : Claim p → ℤ → Type 0
  AvailableAt claim now =
      (time : ℤ) × (ttl : ℤ) × UnmountedAt claim time
      × KeptFor claim ttl
      × ((eqb_ℤ ttl (pos 0) ≡ true) ⊎ (ltb_ℤ now (time +ℤ ttl) ≡ true))

  module _ {S : Type 0} (gc : ClaimApi p S) (claim c : Claim p) where
    -- The pod of the claim, if there is one, does not mount it.
    abbrev pub Unused : S → Type 0
    Unused s =
        (name : Text) × (lookup pod_annotation claim.annotations ≡ some name)
        × ((pod : Pod p)
            → (gc.get_pod claim.namespace name s).0 ≡ ok pod
            → is_mounted claim.name pod.spec.volumes ≡ false)

    delete-only : (s : S) → Occurs c (delete gc claim s).1.0 → c ≡ claim
    unfolding delete
    delete-only s (inl e) = e
    delete-only s (inr o) = elim o [ ]

    delete_unless_mounted-only :
        (found : Option (Pod p)) (s : S)
        → Occurs c (delete_unless_mounted gc claim found s).1.0
        → (c ≡ claim)
          × ((pod : Pod p) → found ≡ some pod → is_mounted claim.name pod.spec.volumes ≡ false)
    unfolding delete_unless_mounted
    delete_unless_mounted-only none s o = (delete-only s o, λ pod e. absurd (cc))
    delete_unless_mounted-only (some other) s o =
        let (free, o1) =
          Occurs-unless (is_mounted claim.name other.spec.volumes) tt (delete gc claim) c s o in
        (
          delete-only s o1,
          λ pod e.
              let same : other ≡ pod = cc in
              subst (λ (q : Pod p). is_mounted claim.name q.spec.volumes ≡ false) same free,
        )

    collect_unmounted-Unused :
        (s : S) → Occurs c (collect_unmounted gc claim s).1.0 → (c ≡ claim) × Unused s
    unfolding collect_unmounted
    collect_unmounted-Unused s o =
        let (name, found, o1) =
          Occurs-lift (annotation_of pod_annotation claim.annotations) _ c s o in
        let (pod, seen, o2) =
          Occurs-lift (found_pod (gc.get_pod claim.namespace name s).0)
            (delete_unless_mounted gc claim) c (gc.get_pod claim.namespace name s).1 o1 in
        let (same, free) =
          delete_unless_mounted-only pod (gc.get_pod claim.namespace name s).1 o2 in
        (
          same,
          (
            name,
            annotation_of-eq-ok pod_annotation claim.annotations name found,
            λ q e. free q (ok-injective (sym seen ∙ ap found_pod e)),
          ),
        )

    collect_expired-ExpiredAt :
        (time ttl : ℤ) (s : S)
        → Occurs c (collect_expired gc claim time ttl s).1.0
        → (eqb_ℤ ttl (pos 0) ≡ false)
          × (ltb_ℤ (gc.now s).0 (time +ℤ ttl) ≡ false)
          × (c ≡ claim)
          × Unused (gc.now s).1
    unfolding collect_expired
    collect_expired-ExpiredAt time ttl s o =
        let (some_ttl, o1) =
          Occurs-unless (eqb_ℤ ttl (pos 0)) tt (ask gc.now >>= when_expired gc claim (time +ℤ ttl))
            c s o in
        let (late, o2) =
          Occurs-unless (ltb_ℤ (gc.now s).0 (time +ℤ ttl)) tt (collect_unmounted gc claim) c
            (gc.now s).1 o1 in
        let (same, unused) = collect_unmounted-Unused (gc.now s).1 o2 in
        (some_ttl, late, same, unused)

    collect_since-only :
        (found : Option Text) (s : S)
        → lookup last_unmounted_on_annotation claim.annotations ≡ found
        → Occurs c (collect_since gc claim found s).1.0
        → (c ≡ claim) × ExpiredAt claim (gc.now s).0 × Unused (gc.now s).1
    unfolding collect_since
    collect_since-only none s e o = elim o [ ]
    collect_since-only (some text) s e o =
        let (time, at, o1) = Occurs-lift (time_of p text) _ c s o in
        let (ttl_text, kept, o2) =
          Occurs-lift (annotation_of pvc_ttl_annotation claim.annotations) _ c s o1 in
        let (ttl, for, o3) = Occurs-lift (parse_duration p ttl_text) _ c s o2 in
        let (some_ttl, late, same, unused) = collect_expired-ExpiredAt time ttl s o3 in
        (
          same,
          (
            time,
            ttl,
            (text, e, at),
            (ttl_text, annotation_of-eq-ok _ _ ttl_text kept, for),
            some_ttl,
            late,
          ),
          unused,
        )

    -- A claim that the garbage collector's handler asks to delete is the one it was given. The claim
    -- has an expiration, which is reached when the clock is read, and its pod, if it is there, does
    -- not mount it.
    pub handle_claim-only :
        (s : S)
        → Occurs c (handle_claim gc claim s).1.0
        → (c ≡ claim) × ExpiredAt claim (gc.now s).0 × Unused (gc.now s).1
    unfolding handle_claim
    handle_claim-only s o =
        collect_since-only (lookup last_unmounted_on_annotation claim.annotations) s refl o

  module _ {S : Type 0} (api : Api p S) where
    has_time_left-eq-ok :
        (time ttl : ℤ) (s : S)
        → (has_time_left api time ttl s).0 ≡ ok true
        → (eqb_ℤ ttl (pos 0) ≡ true) ⊎ (ltb_ℤ (api.now s).0 (time +ℤ ttl) ≡ true)
    unfolding has_time_left
    has_time_left-eq-ok time ttl s = go (eqb_ℤ ttl (pos 0)) (λ now. ltb_ℤ now (time +ℤ ttl))
      where
        go :
            (b : Bool) (c : ℤ → Bool)
            → ◌≡◌ {A = Result PodError Bool}
                ((if b then pure true else (ask api.now >>= λ now. pure {W = Effect p} (c now)))
                  s).0
                (ok true)
            → (b ≡ true) ⊎ (c (api.now s).0 ≡ true)
        go true c e = inl refl
        go false c e = inr (ok-injective e)

    within_ttl-eq-ok :
        (claim : Claim p) (time : ℤ) (found : Option Text) (s : S)
        → lookup pvc_ttl_annotation claim.annotations ≡ found
        → (within_ttl api time found s).0 ≡ ok true
        → (ttl : ℤ) × KeptFor claim ttl
          × ((eqb_ℤ ttl (pos 0) ≡ true) ⊎ (ltb_ℤ (api.now s).0 (time +ℤ ttl) ≡ true))
    unfolding within_ttl
    within_ttl-eq-ok claim time none s f e = absurd (cc)
    within_ttl-eq-ok claim time (some text) s f e =
        let (ttl, for, e1) = lift->>=-eq-ok (parse_duration p text) _ s true e in
        (ttl, (text, f, for), has_time_left-eq-ok time ttl s e1)

    was_unmounted-eq-ok :
        (claim : Claim p) (found : Option Text) (s : S)
        → lookup last_unmounted_on_annotation claim.annotations ≡ found
        → (was_unmounted api claim found s).0 ≡ ok true
        → AvailableAt claim (api.now s).0
    unfolding was_unmounted
    was_unmounted-eq-ok claim none s f e = absurd (cc)
    was_unmounted-eq-ok claim (some text) s f e =
        let (time, at, e1) = lift->>=-eq-ok (time_of p text) _ s true e in
        let (ttl, kept, left) =
          within_ttl-eq-ok claim time (lookup pvc_ttl_annotation claim.annotations) s refl e1 in
        (time, ttl, (text, f, at), kept, left)

    is_available-eq-ok :
        (claim : Claim p) (name : Text) (s : S)
        → (is_available api name claim s).0 ≡ ok true
        → AvailableAt claim (api.now s).0
    unfolding is_available
    is_available-eq-ok claim name s e =
        was_unmounted-eq-ok claim (lookup last_unmounted_on_annotation claim.annotations) s refl (
          then_of (was_unmounted api claim (lookup last_unmounted_on_annotation claim.annotations))
            (belongs_to name claim) e)
      where
        then_of :
            (m : PodAction p S Bool) (b : Bool)
            → ((if b then m else pure false) s).0 ≡ ok true
            → (m s).0 ≡ ok true
        then_of m true h = h
        then_of m false h = absurd (cc)

  expired-unavailable :
      (claim : Claim p) (n m : ℤ) → ExpiredAt claim n → n ≤ℤ m → AvailableAt claim m → ⊥
  expired-unavailable claim n m (time, ttl, (u, u1, u2), (k, k1, k2), some_ttl, late) le
        (time', ttl', (v, v1, v2), (l, l1, l2), left) =
      let same_time : time ≡ time' = cc in
      let same_ttl : ttl ≡ ttl' = cc in
      elim left [
        | inl none_set ↦ both some_ttl (subst (λ x. eqb_ℤ x (pos 0) ≡ true) (sym same_ttl) none_set)
        | inr early ↦
            not_yet n m (time' +ℤ ttl')
              (subst (λ x. ltb_ℤ n x ≡ false)
                (ap (λ x. x +ℤ ttl) same_time ∙ ap (λ x. time' +ℤ x) same_ttl) late)
              le early
      ]

  -- A claim that the garbage collector asks to delete is, from then on, never taken as the volume of a
  -- new pod: isAvailable is not true of it when the clock shows no earlier time.
  pub collected-unavailable :
      {S T : Type 0} (gc : ClaimApi p S) (api : Api p T) (claim : Claim p) (name : Text) (s : S)
      (t : T)
      → Occurs claim (handle_claim gc claim s).1.0
      → (gc.now s).0 ≤ℤ (api.now t).0
      → (is_available api name claim t).0 ≢ ok true
  collected-unavailable gc api claim name s t o later e =
      let (same, expired, unused) = handle_claim-only gc claim claim s o in
      expired-unavailable claim (gc.now s).0 (api.now t).0 expired later
        (is_available-eq-ok api claim name t e)
