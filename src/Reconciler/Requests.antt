-- ===== src/Reconciler/Requests.antt =====
-- Which requests the code of pkg/reconciler makes: those of two steps, and the patch of a changed
-- cluster.
use aerospike_operator.Prelude.{
  ◌≡◌, ◌≢◌, inl, inr, refl, Bool, true, false, List, [], ◌∷◌, ◌++◌, Result, ok, err, Occurs,
  if◌then◌else◌, deep_equal, deep_equal_iff,
}
use aerospike_operator.Run.{pure, request, ◌>>=◌}
use aerospike_operator.Api.{Kube, AerospikeCluster, Condition, ApiError}
use aerospike_operator.Reconciler.Types.{Effect, patch, Reason, Reconcile, ReconcileError, Server}
use aerospike_operator.Reconciler.Status.{
  api, patch_cluster, sync_status, AerospikeCluster-discrete,
}
use aerospike_operator.Reconciler.Signals.{signal}

module _ {ℓ} {A : Type ℓ} where
  pub Occurs-append_left : (a : A) (l m : List A) → Occurs a l → Occurs a (l ++ m)
  Occurs-append_left a [] m o = absurd (elim o [ ])
  Occurs-append_left a (x ∷ l) m (inl e) = inl e
  Occurs-append_left a (x ∷ l) m (inr o) = inr (Occurs-append_left a l m o)

  pub Occurs-append_right : (a : A) (l m : List A) → Occurs a m → Occurs a (l ++ m)
  Occurs-append_right a [] m o = o
  Occurs-append_right a (x ∷ l) m o = inr (Occurs-append_right a l m o)

pub one_more : (l : List Condition) (c : Condition) → (l ++ c ∷ []) ≢ l
one_more [] c e = absurd (cc)
one_more (d ∷ l) c e = one_more l c (cc)

module _ {k : Kube} (server : Server k) where
  pub then-Occurs :
      {A B : Type 0} (m : Reconcile k A) (f : A → Reconcile k B) (e : Effect k)
      → Occurs e m.1
      → Occurs e (m >>= f).1
  then-Occurs (ok a, log) f e o = Occurs-append_left e log (f a).1 o
  then-Occurs (err x, log) f e o = o

  -- The patch of a changed object is requested, whatever the answers are.
  patch-Occurs :
      (old new : AerospikeCluster k)
      → old ≢ new
      → Occurs (patch new) (patch_cluster server old new).1
  unfolding patch_cluster
  patch-Occurs old new n =
      changed (deep_equal AerospikeCluster-discrete old new)
        (deep_equal_iff AerospikeCluster-discrete old new).0 (server.patch_answer old new)
    where
      changed :
          (same : Bool)
          → (same ≡ true → old ≡ new)
          → (answer : Result ApiError (AerospikeCluster k))
          → Occurs
              (patch new)
              (if same
                then pure {E = ReconcileError} tt
                else do stored ← request (patch new) (api answer); sync_status server stored new).1
      changed true same answer = absurd (n (same refl))
      changed false same (ok stored) = inl refl
      changed false same (err e) = inl refl

  pub signal-Occurs :
      (r : Reason) (old new : AerospikeCluster k)
      → old ≢ new
      → Occurs (patch new) (signal server r old new).1
  unfolding signal
  signal-Occurs r old new n =
      then-Occurs (patch_cluster server old new) _ (patch new) (patch-Occurs old new n)
