-- ===== src/Pods/Views.antt =====
-- Which pods of a cluster there are, as the API of Kubernetes tells it, and what leaves that as it is.
use aerospike_operator.Prelude.{
  ◌≡◌, ◌≢◌, refl, ap, ◌∙◌, Bool, true, false, List, [], ◌∷◌, Text, Result, ok, err, if◌then◌else◌,
}
use aerospike_operator.Action.{pure, raise, lift, emit, ask, for_each, ◌>>=◌}
use aerospike_operator.Action.Returns.{Ends, Ends->>=, >>=-returned}
use aerospike_operator.Api.{ApiError, not_found}
use aerospike_operator.Pods.Platform.{Platform, Pod, Claim}
use aerospike_operator.Pods.Api.{Api, Effect, PodError, PodAction, read, write, query}

-- `view` tells which names the pods of the namespace have. What the calls of the API do to it: a pod is
-- there once its creation is accepted, and until its removal is; no other call changes that.
pub record Store {p : Platform} {S : Type 0} (api : Api p S) (namespace : Text) : Type 0 where
  pub view : S → Text → Bool
  pub found :
      (name : Text) (s : S) (pod : Pod p)
      → (api.get_pod namespace name s).0 ≡ ok pod
      → (view s name ≡ true) × (pod.name ≡ name) × (pod.namespace ≡ namespace)
  pub missing :
      (name : Text) (s : S) → (api.get_pod namespace name s).0 ≡ err not_found → view s name ≡ false
  pub posted :
      (pod new : Pod p) (s : S)
      → pod.namespace ≡ namespace
      → (api.post_pod pod s).0 ≡ ok new
      → (view (api.post_pod pod s).1 pod.name ≡ true)
        × ((other : Text) → other ≢ pod.name → view (api.post_pod pod s).1 other ≡ view s other)
  pub removed :
      (pod : Pod p) (s : S)
      → pod.namespace ≡ namespace
      → (api.remove_pod pod s).0 ≡ ok tt
      → (view (api.remove_pod pod s).1 pod.name ≡ false)
        × ((other : Text) → other ≢ pod.name → view (api.remove_pod pod s).1 other ≡ view s other)
  pub get_pod_keeps : (n m : Text) (s : S) → view (api.get_pod n m s).1 ≡ view s
  pub list_pods_keeps : (n m : Text) (s : S) → view (api.list_pods n m s).1 ≡ view s
  pub watch_keeps : (pod : Pod p) (s : S) → view (api.watch pod s).1 ≡ view s
  pub get_claim_keeps : (n m : Text) (s : S) → view (api.get_claim n m s).1 ≡ view s
  pub list_claims_keeps : (n m : Text) (s : S) → view (api.list_claims n m s).1 ≡ view s
  pub post_claim_keeps : (c : Claim p) (s : S) → view (api.post_claim c s).1 ≡ view s
  pub send_patch_keeps : (c d : Claim p) (s : S) → view (api.send_patch c d s).1 ≡ view s
  pub nodes_keeps : (pod : Pod p) (s : S) → view (api.nodes pod s).1 ≡ view s
  pub migration_keeps :
      (pod : Pod p) (n : Text) (s : S) → view (api.migration_in_progress pod n s).1 ≡ view s
  pub wait_keeps :
      (pod : Pod p) (n : Text) (s : S) → view (api.wait_until_migrated pod n s).1 ≡ view s
  pub info_keeps : (pod : Pod p) (n : Text) (s : S) → view (api.request_info pod n s).1 ≡ view s
  pub size_keeps : (pod : Pod p) (s : S) → view (api.cluster_size pod s).1 ≡ view s
  pub ticks_keeps : (s : S) → view (api.ticks s).1 ≡ view s
  pub now_keeps : (s : S) → view (api.now s).1 ≡ view s

module _ {p : Platform} {S : Type 0} {api : Api p S} {namespace : Text}
    (store : Store api namespace) where
  abbrev pub Same : S → S → Type 0
  Same s t = store.view t ≡ store.view s

  -- All but this name are as before, and this one is, or is not.
  abbrev pub Only : Text → Bool → S → S → Type 0
  Only name b s t =
      (store.view t name ≡ b)
      × ((other : Text) → other ≢ name → store.view t other ≡ store.view s other)

  abbrev pub Still : {A : Type 0} → PodAction p S A → Type 0
  Still m = Ends Same m

  pub Still->>= :
      {A B : Type 0} (m : PodAction p S A) (f : A → PodAction p S B)
      → Still m
      → ((a : A) → Still (f a))
      → Still (m >>= f)
  Still->>= m f h k = Ends->>= Same Same Same (λ s t u e d. d ∙ e) m f h k

  -- Before and after a change, what leaves the view as it is.
  pub Only-after :
      {A B : Type 0} (name : Text) (b : Bool) (m : PodAction p S A) (f : A → PodAction p S B)
      → Still m
      → ((a : A) → Ends (Only name b) (f a))
      → Ends (Only name b) (m >>= f)
  Only-after name b m f h k =
      Ends->>= Same (Only name b) (Only name b)
        (λ s t u e (at, others). (at, λ o d. others o d ∙ ap (λ v. v o) e)) m f h k

  pub Only-then :
      {A B : Type 0} (name : Text) (b : Bool) (m : PodAction p S A) (f : A → PodAction p S B)
      → Ends (Only name b) m
      → ((a : A) → Still (f a))
      → Ends (Only name b) (m >>= f)
  Only-then name b m f h k =
      Ends->>= (Only name b) Same (Only name b)
        (λ s t u (at, others) e. (ap (λ v. v name) e ∙ at, λ o d. ap (λ v. v o) e ∙ others o d)) m f
        h k

  -- The later change of a name is the one that counts.
  pub Only-over :
      {A B : Type 0} (name : Text) (b c : Bool) (m : PodAction p S A) (f : A → PodAction p S B)
      → Ends (Only name b) m
      → ((a : A) → Ends (Only name c) (f a))
      → Ends (Only name c) (m >>= f)
  Only-over name b c m f h k =
      Ends->>= (Only name b) (Only name c) (Only name c)
        (λ s t u (at, others) (now, later). (now, λ o d. later o d ∙ others o d)) m f h k

  module _ {A : Type 0} where
    pub Still-pure : (a : A) → Still (pure a)
    unfolding Ends
    Still-pure a s b e = refl

    pub Still-lift : (r : Result PodError A) → Still (lift r)
    unfolding Ends
    Still-lift r s b e = refl

    pub Still-ask :
        (call : S → A × S) → ((s : S) → store.view (call s).1 ≡ store.view s) → Still (ask call)
    unfolding Ends
    Still-ask call h s b e = h s

    pub Still-read :
        (call : S → Result ApiError A × S)
        → ((s : S) → store.view (call s).1 ≡ store.view s)
        → Still (read call)
    unfolding Ends
    Still-read call h s b e = h s

    pub Still-write :
        (w : Effect p) (call : S → Result ApiError A × S)
        → ((s : S) → store.view (call s).1 ≡ store.view s)
        → Still (write w call)
    unfolding Ends
    Still-write w call h s b e = h s

    pub Still-query :
        (call : S → Result Text A × S)
        → ((s : S) → store.view (call s).1 ≡ store.view s)
        → Still (query call)
    unfolding Ends
    Still-query call h s b e = h s

  pub Ends-raise :
      (A : Type 0) (R : S → S → Type 0) (x : PodError)
      → Ends R (raise {S = S} {W = Effect p} {A = A} x)
  unfolding Ends
  Ends-raise A R x s b e = absurd (cc)

  pub Still-emit : (w : Effect p) → Still (emit w)
  unfolding Ends
  Still-emit w s b e = refl

  pub Still-for_each :
      {X : Type 0} (xs : List X) (body : X → PodAction p S (Unit {0}))
      → ((x : X) → Still (body x))
      → Still (for_each xs body)
  unfolding for_each
  Still-for_each [] body h = Still-pure tt
  Still-for_each (x ∷ xs) body h =
      Still->>= (body x) (λ _. for_each xs body) (h x) (λ _. Still-for_each xs body h)

  pub Ends-if :
      {A : Type 0} (R : S → S → Type 0) (b : Bool) (m n : PodAction p S A)
      → Ends R m
      → Ends R n
      → Ends R (if b then m else n)
  Ends-if R true m n h g = h
  Ends-if R false m n h g = g

  -- What follows an error does not count.
  pub Ends-fail :
      {A : Type 0} (B : Type 0) (R : S → S → Type 0) (m : PodAction p S A) (x : PodError)
      → Ends R (m >>= λ _. raise {A = B} x)
  unfolding Ends
  Ends-fail B R m x s b e = let (a, one, two) = >>=-returned m _ s b e in absurd (cc)
