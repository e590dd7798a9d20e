-- ===== src/Startup/Again.antt =====
-- pkg/crd/converters/v1alpha2: the conversion is done once.
use aerospike_operator.Prelude.{
  ok-injective, inr, inl, ◌≡◌, refl, sym, subst, ap, ◌∙◌, ℕ, suc, ◌+◌, ◌≤◌, arith, Bool-cases,
  Option, none, some, some-injective, List, [], ◌∷◌, Text, text_eq, Result, ok, err, Occurs,
  if◌then◌else◌,
}
use aerospike_operator.Api.{ApiError}
use aerospike_operator.Startup.Platform.{Startup, Resources, Crd, update_status, StartApi}
use aerospike_operator.Startup.Convert.{
  v1alpha1, crd_name, index_from, without, drop_version, convert_crd, convert_kind,
}
use aerospike_operator.Startup.Converting.{HasDropped, convert_kind-HasDropped}

-- How often the version is stored.
unfoldable pub count : List Text → ℕ
count [] = 0
count (v ∷ vs) = (if text_eq v v1alpha1 then 1 else 0) + count vs

index_from-absent :
    (i : ℕ) (idx : Option ℕ) (vs : List Text) → count vs ≡ 0 → index_from i idx vs ≡ idx
unfolding index_from count
index_from-absent i idx [] e = refl
index_from-absent i idx (v ∷ vs) e = elim (Bool-cases (text_eq v v1alpha1)) [
  | inl same ↦ absurd (ground arith)
  | inr other ↦ rw other (index_from-absent (suc i) idx vs (ground arith))
]

-- A version that is stored once is not found again when it is dropped.
once :
    (n m : ℕ) (vs : List Text)
    → count vs ≤ 1
    → index_from n none vs ≡ some m
    → (i : ℕ) × (m ≡ n + i) × (count (without i vs) ≡ 0)
unfolding index_from count without
once n m [] c e = absurd (cc)
once n m (v ∷ vs) c e = elim (Bool-cases (text_eq v v1alpha1)) [
  | inl same ↦
      let none_left : count vs ≡ 0 = ground arith in
      let found : some n ≡ some m =
        sym (index_from-absent (suc n) (some n) vs none_left) ∙ rw same at e in
      (0, omega (arith, some-injective found), none_left)
  | inr other ↦
      let (i, at_i, gone) = once (suc n) m vs (ground arith) (rw other at e) in
      (suc i, omega (arith, at_i), ground arith)
]

module _ {p : Startup} {S : Type 0} (api : StartApi p S) (k : Resources) where
  -- A definition without the version in its status needs no request.
  read-absent :
      (x : Result ApiError (Crd p)) (s : S) (c : Crd p)
      → x ≡ ok c
      → count c.stored_versions ≡ 0
      → (convert_crd api k x s).1.0 ≡ []
  read-absent (ok d) s c e n =
      let absent =
        index_from-absent 0 none d.stored_versions
          (subst (λ c'. count c'.stored_versions ≡ 0) (sym (ok-injective e)) n) in
      rw absent refl
  read-absent (err x) s c e n = absurd (cc)

  module _ (names : (n : Text) (s : S) (c : Crd p) → (api.get_crd n s).0 ≡ ok c → c.name ≡ n)
      (stored_once : (n : Text) (s : S) (c : Crd p)
        → (api.get_crd n s).0 ≡ ok c
        → count c.stored_versions ≤ 1)
      (keeps : (c : Crd p) (s : S)
        → (api.put_status c s).0 ≡ ok tt
        → (d : Crd p) × ((api.get_crd c.name (api.put_status c s).1).0 ≡ ok d)
          × (d.stored_versions ≡ c.stored_versions)) where
    again :
        (s t : S) (new crd : Crd p) (i : ℕ)
        → (api.get_crd (crd_name k) s).0 ≡ ok crd
        → index_from 0 none crd.stored_versions ≡ some i
        → new ≡ drop_version i crd
        → (api.put_status new t).0 ≡ ok tt
        → (convert_kind api k (api.put_status new t).1).1.0 ≡ []
    unfolding convert_kind
    again s t new crd i g x n e =
        let (d, reads, same) = keeps new t e in
        let (j, at_j, gone) = once 0 i crd.stored_versions (stored_once (crd_name k) s crd g) x in
        let name : new.name ≡ crd_name k = ap (λ c. c.name) n ∙ names (crd_name k) s crd g in
        let none_left : count d.stored_versions ≡ 0 =
          ap count same
          ∙ ap (λ c. count c.stored_versions) n
          ∙ ap (λ m. count (without m crd.stored_versions)) (omega (arith, at_j))
          ∙ gone in
        read-absent (api.get_crd (crd_name k) (api.put_status new t).1).0 _ d
          (subst (λ m. (api.get_crd m (api.put_status new t).1).0 ≡ ok d) name reads) none_left

    -- Where the API gives the definition that is asked for, keeps a status that was put, and stores v1alpha1
    -- at most once: if the conversion of a kind asks
    -- to drop v1alpha1 from the definition, it has asked before, in order, for an update of every resource
    -- that did not say that it was converted, and of nothing else; and if it then returns without an error,
    -- the next conversion requests nothing.
    pub convert_kind-once :
        (s : S) (new : Crd p)
        → Occurs (update_status new) (convert_kind api k s).1.0
        → HasDropped api k s new (convert_kind api k s)
          × ((convert_kind api k s).0 ≡ ok tt
              → (convert_kind api k (convert_kind api k s).1.1).1.0 ≡ [])
    convert_kind-once s new o =
        let (crd, i, rs, g, x, l, (n, log, ends)) = convert_kind-HasDropped api k s new o in
        (
          (crd, i, rs, g, x, l, (n, log, ends)),
          λ done.
              let (t, put, final) = ends done in
              subst (λ s'. (convert_kind api k s').1.0 ≡ []) (sym final)
                (again s t new crd i g x n put),
        )
