-- ===== src/Startup/Converting.antt =====
-- pkg/crd/converters/v1alpha2: a version is dropped after all that is stored in it has been stored again.
use aerospike_operator.Prelude.{
  ◌≡◌, refl, sym, subst, ap, ◌∙◌, ℕ, Option, none, some, List, [], ◌∷◌, ◌++◌, Text, Result, ok, err,
  Occurs, All, All-Occurs, inl, inr,
}
use aerospike_operator.Prelude.Dict.{lookup}
use aerospike_operator.Action.{for_each, and_then}
use aerospike_operator.Action.Logs.{Logs, Logs-for_each}
use aerospike_operator.Api.{ApiError}
use aerospike_operator.Startup.Platform.{
  Startup, Resources, Resource, Crd, Effect, update_status, update_resource, StartError, StartApi,
  Starting, from_api-eq-ok, send,
}
use aerospike_operator.Startup.Convert.{
  converted_from_annotation_key, crd_name, index_from, mark, drop_version, convert_unless,
  convert_resource, convert_listed, convert_stored, convert_crd, convert_kind,
}

update_status-injective : {p : Startup} {a b : Crd p} → update_status a ≡ update_status b → a ≡ b
update_status-injective e = cc

module _ {p : Startup} {S : Type 0} (api : StartApi p S) (k : Resources) where
  -- The updates of the resources that do not say that they were converted.
  abbrev pending_one : Resource p → Option Text → List (Effect p)
  pending_one r (some from) = []
  pending_one r none = update_resource k (mark r) ∷ []

  abbrev pub pending : List (Resource p) → List (Effect p)
  pending [] = []
  pending (r ∷ rs) =
      pending_one r (lookup converted_from_annotation_key r.annotations) ++ pending rs

  abbrev IsUpdate : Effect p → Type 0
  IsUpdate (update_resource j r) = Unit
  IsUpdate _ = ⊥

  unless-IsUpdate :
      (r : Resource p) (from : Option Text) → Logs IsUpdate (convert_unless api k r from)
  unless-IsUpdate r (some from) s = tt
  unless-IsUpdate r none s = (tt, tt)

  after_one :
      (x : Result (StartError p) (Unit {0}) × (List (Effect p) × S)) (first : List (Effect p))
      (rs : List (Resource p))
      → x.1.0 ≡ first
      → ((t : S)
          → (for_each rs (convert_resource api k) t).0 ≡ ok tt
          → (for_each rs (convert_resource api k) t).1.0 ≡ pending rs)
      → (and_then x.0 x.1.0 x.1.1 (λ _. for_each rs (convert_resource api k))).0 ≡ ok tt
      → (and_then x.0 x.1.0 x.1.1 (λ _. for_each rs (convert_resource api k))).1.0
        ≡ first ++ pending rs
  after_one (ok u, (log, t)) first rs l h e = rw (l, h t e) refl
  after_one (err x, (log, t)) first rs l h e = absurd (cc)

  unless-log :
      (r : Resource p) (from : Option Text) (s : S)
      → (convert_unless api k r from s).1.0 ≡ pending_one r from
  unless-log r (some from) s = refl
  unless-log r none s = refl

  for_each-pending :
      (rs : List (Resource p)) (s : S)
      → (for_each rs (convert_resource api k) s).0 ≡ ok tt
      → (for_each rs (convert_resource api k) s).1.0 ≡ pending rs
  unfolding for_each
  for_each-pending [] s e = refl
  for_each-pending (r ∷ rs) s e =
      after_one (convert_resource api k r s) _ rs
        (unless-log r (lookup converted_from_annotation_key r.annotations) s) (for_each-pending rs)
        e

  only_last :
      (new : Crd p) (w : Effect p) (log : List (Effect p))
      → All IsUpdate log
      → Occurs (update_status new) (log ++ w ∷ [])
      → update_status new ≡ w
  only_last new w [] a (inl e) = e
  only_last new w [] a (inr absent) = elim absent [ ]
  only_last new w (x ∷ log) (px, a) (inl e) = absurd (subst IsUpdate (sym e) px)
  only_last new w (x ∷ log) (px, a) (inr o) = only_last new w log a o

  abbrev Run : Type 0
  Run = Result (StartError p) (Unit {0}) × (List (Effect p) × S)

  -- The run ends with the update of this status, if it returns no error.
  abbrev pub EndsWith : Crd p → Run → Type 0
  EndsWith new run =
      run.0 ≡ ok tt
      → (t : S) × ((api.put_status new t).0 ≡ ok tt) × (run.1.1 ≡ (api.put_status new t).1)

  -- The definition without the version is put in its status, after the updates that were pending.
  abbrev pub Drops : ℕ → Crd p → List (Resource p) → Crd p → Run → Type 0
  Drops i crd rs new run =
      (new ≡ drop_version i crd)
      × (run.1.0 ≡ pending rs ++ update_status new ∷ [])
      × EndsWith new run

  abbrev put : ℕ → Crd p → Starting p S (Unit {0})
  put i crd = send (update_status (drop_version i crd)) (api.put_status (drop_version i crd))

  drops :
      (i : ℕ) (crd new : Crd p) (rs : List (Resource p)) (x : Run)
      → All IsUpdate x.1.0
      → (x.0 ≡ ok tt → x.1.0 ≡ pending rs)
      → Occurs (update_status new) (and_then x.0 x.1.0 x.1.1 (λ _. put i crd)).1.0
      → Drops i crd rs new (and_then x.0 x.1.0 x.1.1 (λ _. put i crd))
  drops i crd new rs (ok u, (log, t)) a l o =
      let same = only_last new (update_status (drop_version i crd)) log a o in
      let n = update_status-injective same in
      (
        n,
        ap (λ w. log ++ w ∷ []) (sym same) ∙ ap (λ l'. l' ++ update_status new ∷ []) (l refl),
        λ e. (
          t,
          subst (λ c. (api.put_status c t).0 ≡ ok tt) (sym n) (from_api-eq-ok _ e),
          ap (λ c. (api.put_status c t).1) (sym n),
        ),
      )
  drops i crd new rs (err x, (log, t)) a l o =
      absurd (All-Occurs IsUpdate (update_status new) log a o)

  -- What the run read: the definition, where the version stands in it, and the resources.
  abbrev pub HasDropped : S → Crd p → Run → Type 0
  HasDropped s new run =
      (crd : Crd p) × (i : ℕ) × (rs : List (Resource p)) × ((api.get_crd (crd_name k) s).0 ≡ ok crd)
      × (index_from 0 none crd.stored_versions ≡ some i)
      × ((api.list k (api.get_crd (crd_name k) s).1).0 ≡ ok rs)
      × Drops i crd rs new run

  listed :
      (i : ℕ) (crd new : Crd p) (x : Result ApiError (List (Resource p))) (s : S)
      → Occurs (update_status new) (convert_listed api k i crd x s).1.0
      → (rs : List (Resource p)) × (x ≡ ok rs) × Drops i crd rs new (convert_listed api k i crd x s)
  listed i crd new (ok rs) s o = (
    rs,
    refl,
    drops i crd new rs (for_each rs (convert_resource api k) s)
        (Logs-for_each IsUpdate rs (convert_resource api k)
          (λ r. unless-IsUpdate r (lookup converted_from_annotation_key r.annotations)) s)
        (for_each-pending rs s) o,
  )
  listed i crd new (err e) s o = elim o [ ]

  stored :
      (crd new : Crd p) (x : Option ℕ) (s : S)
      → Occurs (update_status new) (convert_stored api k crd x s).1.0
      → (i : ℕ) × (rs : List (Resource p)) × (x ≡ some i)
        × ((api.list k s).0 ≡ ok rs)
        × Drops i crd rs new (convert_stored api k crd x s)
  stored crd new (some i) s o =
      let (answer, t) = api.list k s in
      let (rs, e, d) = listed i crd new answer t o in (i, rs, refl, e, d)
  stored crd new none s o = elim o [ ]

  read :
      (new : Crd p) (x : Result ApiError (Crd p)) (s : S)
      → Occurs (update_status new) (convert_crd api k x s).1.0
      → (crd : Crd p) × (i : ℕ) × (rs : List (Resource p)) × (x ≡ ok crd)
        × (index_from 0 none crd.stored_versions ≡ some i)
        × ((api.list k s).0 ≡ ok rs)
        × Drops i crd rs new (convert_crd api k x s)
  read new (ok crd) s o =
      let (i, rs, e, l, d) = stored crd new (index_from 0 none crd.stored_versions) s o in
      (crd, i, rs, refl, e, l, d)
  read new (err e) s o = elim o [ ]

  pub convert_kind-HasDropped :
      (s : S) (new : Crd p)
      → Occurs (update_status new) (convert_kind api k s).1.0
      → HasDropped s new (convert_kind api k s)
  unfolding convert_kind
  convert_kind-HasDropped s new o =
      let (answer, t) = api.get_crd (crd_name k) s in read new answer t o
