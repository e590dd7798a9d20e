-- ===== src/Pods/Trace.antt =====
-- When a log shows that pods are deleted safely.
use aerospike_operator.Prelude.{
  if◌then◌else◌, ◌≡◌, ◌⊎◌, inl, inr, refl, sym, subst, Bool, true, false, List, [], ◌∷◌, ◌++◌,
  Result, ok, err, Occurs,
}
use mathlib.Core.List.{append_assoc}
use aerospike_operator.Action.Returns.{Returns}
use aerospike_operator.Action.{attempt, pure, raise, and_then, ◌>>=◌, for_each}
use aerospike_operator.Pods.Platform.{Platform, Pod, Claim}
use aerospike_operator.Pods.Status.{is_pod_in_failure_state}
use aerospike_operator.Pods.Api.{
  Effect, migrations, migrated, delete_pod, create_pod, patch_claim, create_claim, info, event,
  PodError, PodAction,
}

-- What the pods and the claims that are created must be like.
pub record Rules (p : Platform) : Type 1 where
  pub fits : Pod p → Type 0
  pub suits : Claim p → Type 0

module _ {p : Platform} (R : Rules p) where
  -- The pods and claims that are created follow the rules, and
  -- a pod is deleted only if it is in a failure state, or if since the last change to the pods it was
  -- seen to have no migrations or to have finished them. `idle` are the pods seen so.
  abbrev pub Safe : List (Pod p) → List (Effect p) → Type 0
  Safe idle [] = Unit
  Safe idle (migrations pod true ∷ log) = Safe idle log
  Safe idle (migrations pod false ∷ log) = Safe (pod ∷ idle) log
  Safe idle (migrated pod ∷ log) = Safe (pod ∷ idle) log
  Safe idle (delete_pod pod ∷ log) =
      ((is_pod_in_failure_state pod ≡ true) ⊎ Occurs pod idle) × Safe [] log
  Safe idle (create_pod pod ∷ log) = R.fits pod × Safe [] log
  Safe idle (patch_claim old new ∷ log) = Safe idle log
  Safe idle (create_claim claim ∷ log) = R.suits claim × Safe idle log
  Safe idle (info pod command ∷ log) = Safe idle log
  Safe idle (event reason ∷ log) = Safe idle log

  pub Safe-more :
      (i j : List (Pod p)) (log : List (Effect p))
      → ((pod : Pod p) → Occurs pod i → Occurs pod j)
      → Safe i log
      → Safe j log
  Safe-more i j [] more h = tt
  Safe-more i j (migrations pod true ∷ log) more h = Safe-more i j log more h
  Safe-more i j (migrations pod false ∷ log) more h =
      Safe-more (pod ∷ i) (pod ∷ j) log
        (λ q o. elim o [ inl e ↦ inl e | inr later ↦ inr (more q later) ]) h
  Safe-more i j (migrated pod ∷ log) more h =
      Safe-more (pod ∷ i) (pod ∷ j) log
        (λ q o. elim o [ inl e ↦ inl e | inr later ↦ inr (more q later) ]) h
  Safe-more i j (delete_pod pod ∷ log) more (h, rest) =
      (elim h [ inl failed ↦ inl failed | inr o ↦ inr (more pod o) ], rest)
  Safe-more i j (create_pod pod ∷ log) more h = h
  Safe-more i j (patch_claim old new ∷ log) more h = Safe-more i j log more h
  Safe-more i j (create_claim claim ∷ log) more (fit, h) = (fit, Safe-more i j log more h)
  Safe-more i j (info pod command ∷ log) more h = Safe-more i j log more h
  Safe-more i j (event reason ∷ log) more h = Safe-more i j log more h

  pub Safe-append :
      (i : List (Pod p)) (first rest : List (Effect p))
      → Safe i first
      → Safe [] rest
      → Safe i (first ++ rest)
  Safe-append i [] rest h g = Safe-more [] i rest (λ pod o. elim o [ ]) g
  Safe-append i (migrations pod true ∷ first) rest h g = Safe-append i first rest h g
  Safe-append i (migrations pod false ∷ first) rest h g = Safe-append (pod ∷ i) first rest h g
  Safe-append i (migrated pod ∷ first) rest h g = Safe-append (pod ∷ i) first rest h g
  Safe-append i (delete_pod pod ∷ first) rest (fit, h) g = (fit, Safe-append [] first rest h g)
  Safe-append i (create_pod pod ∷ first) rest (fit, h) g = (fit, Safe-append [] first rest h g)
  Safe-append i (patch_claim old new ∷ first) rest h g = Safe-append i first rest h g
  Safe-append i (create_claim claim ∷ first) rest (fit, h) g = (fit, Safe-append i first rest h g)
  Safe-append i (info pod command ∷ first) rest h g = Safe-append i first rest h g
  Safe-append i (event reason ∷ first) rest h g = Safe-append i first rest h g

  pub Safe-creates :
      (pod : Pod p) (i : List (Pod p)) (log : List (Effect p))
      → Safe i log
      → Occurs (create_pod pod) log
      → R.fits pod
  Safe-creates pod i [] h o = elim o [ ]
  Safe-creates pod i (migrations q true ∷ log) h o = elim o [
    | inl e ↦ absurd (cc)
    | inr later ↦ Safe-creates pod i log h later
  ]
  Safe-creates pod i (migrations q false ∷ log) h o = elim o [
    | inl e ↦ absurd (cc)
    | inr later ↦ Safe-creates pod (q ∷ i) log h later
  ]
  Safe-creates pod i (migrated q ∷ log) h o = elim o [
    | inl e ↦ absurd (cc)
    | inr later ↦ Safe-creates pod (q ∷ i) log h later
  ]
  Safe-creates pod i (delete_pod q ∷ log) (fit, h) o = elim o [
    | inl e ↦ absurd (cc)
    | inr later ↦ Safe-creates pod [] log h later
  ]
  Safe-creates pod i (create_pod q ∷ log) (fit, h) o = elim o [
    | inl e ↦ subst R.fits (sym (cc)) fit
    | inr later ↦ Safe-creates pod [] log h later
  ]
  Safe-creates pod i (patch_claim old new ∷ log) h o = elim o [
    | inl e ↦ absurd (cc)
    | inr later ↦ Safe-creates pod i log h later
  ]
  Safe-creates pod i (create_claim c ∷ log) (fit, h) o = elim o [
    | inl e ↦ absurd (cc)
    | inr later ↦ Safe-creates pod i log h later
  ]
  Safe-creates pod i (info q command ∷ log) h o = elim o [
    | inl e ↦ absurd (cc)
    | inr later ↦ Safe-creates pod i log h later
  ]
  Safe-creates pod i (event reason ∷ log) h o = elim o [
    | inl e ↦ absurd (cc)
    | inr later ↦ Safe-creates pod i log h later
  ]

  pub Safe-claims :
      (claim : Claim p) (i : List (Pod p)) (log : List (Effect p))
      → Safe i log
      → Occurs (create_claim claim) log
      → R.suits claim
  Safe-claims claim i [] h o = elim o [ ]
  Safe-claims claim i (migrations q true ∷ log) h o = elim o [
    | inl e ↦ absurd (cc)
    | inr later ↦ Safe-claims claim i log h later
  ]
  Safe-claims claim i (migrations q false ∷ log) h o = elim o [
    | inl e ↦ absurd (cc)
    | inr later ↦ Safe-claims claim (q ∷ i) log h later
  ]
  Safe-claims claim i (migrated q ∷ log) h o = elim o [
    | inl e ↦ absurd (cc)
    | inr later ↦ Safe-claims claim (q ∷ i) log h later
  ]
  Safe-claims claim i (delete_pod q ∷ log) (fit, h) o = elim o [
    | inl e ↦ absurd (cc)
    | inr later ↦ Safe-claims claim [] log h later
  ]
  Safe-claims claim i (create_pod q ∷ log) (fit, h) o = elim o [
    | inl e ↦ absurd (cc)
    | inr later ↦ Safe-claims claim [] log h later
  ]
  Safe-claims claim i (patch_claim old new ∷ log) h o = elim o [
    | inl e ↦ absurd (cc)
    | inr later ↦ Safe-claims claim i log h later
  ]
  Safe-claims claim i (create_claim c ∷ log) (fit, h) o = elim o [
    | inl e ↦ subst R.suits (sym (cc)) fit
    | inr later ↦ Safe-claims claim i log h later
  ]
  Safe-claims claim i (info q command ∷ log) h o = elim o [
    | inl e ↦ absurd (cc)
    | inr later ↦ Safe-claims claim i log h later
  ]
  Safe-claims claim i (event reason ∷ log) h o = elim o [
    | inl e ↦ absurd (cc)
    | inr later ↦ Safe-claims claim i log h later
  ]

  module _ {S : Type 0} where
    -- From pods `i` seen idle, the action's log is safe, and the pods `j` are seen idle if it returns.
    unfoldable pub Leads :
        {A : Type 0} → List (Pod p) → (A → List (Pod p)) → PodAction p S A → Type 0
    Leads {A} i j m =
        (s : S)
        → Safe i (m s).1.0
          × ((a : A)
              → (m s).0 ≡ ok a
              → (log : List (Effect p)) → Safe (j a) log
              → Safe i ((m s).1.0 ++ log))

    module _ {A : Type 0} where
      -- Where fewer pods are known to be idle afterwards.
      pub Leads-less :
          (i : List (Pod p)) (j : A → List (Pod p)) (m : PodAction p S A)
          → Leads i j m
          → Leads i (λ _. []) m
      unfolding Leads
      Leads-less i j m h s =
          ((h s).0, λ a e log k. (h s).1 a e log (Safe-more [] (j a) log (λ pod o. elim o [ ]) k))

      -- Where more pods are known to be idle before.
      pub Leads-more :
          (i : List (Pod p)) (j : A → List (Pod p)) (m : PodAction p S A)
          → Leads [] j m
          → Leads i j m
      unfolding Leads
      Leads-more i j m h s = (
        Safe-more [] i (m s).1.0 (λ pod o. elim o [ ]) (h s).0,
        λ a e log k. Safe-more [] i ((m s).1.0 ++ log) (λ pod o. elim o [ ]) ((h s).1 a e log k),
      )

    module _ {A B : Type 0} (i : List (Pod p)) (j : A → List (Pod p)) (k : B → List (Pod p)) where
      after :
          (r : Result PodError A × (List (Effect p) × S)) (f : A → PodAction p S B)
          → (Safe i r.1.0
              × ((a : A)
                  → r.0 ≡ ok a
                  → (log : List (Effect p)) → Safe (j a) log
                  → Safe i (r.1.0 ++ log)))
          → ((a : A) → r.0 ≡ ok a → Leads (j a) k (f a))
          → Safe i (and_then r.0 r.1.0 r.1.1 f).1.0
            × ((b : B)
                → (and_then r.0 r.1.0 r.1.1 f).0 ≡ ok b
                → (log : List (Effect p)) → Safe (k b) log
                → Safe i ((and_then r.0 r.1.0 r.1.1 f).1.0 ++ log))
      unfolding Leads
      after (ok a, (first, t)) f (h, cont) g = (
        cont a refl (f a t).1.0 (g a refl t).0,
        λ b e log q.
            subst (Safe i) (sym (append_assoc first (f a t).1.0 log))
              (cont a refl ((f a t).1.0 ++ log) ((g a refl t).1 b e log q)),
      )
      after (err x, (first, t)) f (h, cont) g = (h, λ b e log q. absurd (cc))

      pub Leads->>= :
          (m : PodAction p S A) (f : A → PodAction p S B)
          → Leads i j m
          → ((a : A) → Leads (j a) k (f a))
          → Leads i k (m >>= f)
      unfolding Leads
      Leads->>= m f h g s = after (m s) f (h s) (λ a _. g a)

      -- Where what follows relies on a property of the value.
      pub Leads-then :
          (P : A → Type 0) (m : PodAction p S A) (f : A → PodAction p S B)
          → Leads i j m
          → Returns P m
          → ((a : A) → P a → Leads (j a) k (f a))
          → Leads i k (m >>= f)
      unfolding Leads Returns
      Leads-then P m f h r g s = after (m s) f (h s) (λ a e. g a (r s a e))

    -- An action that leaves the pods seen idle as they are.
    abbrev pub Steady : {A : Type 0} → List (Pod p) → PodAction p S A → Type 0
    Steady i m = Leads i (λ _. i) m

    pub Steady->>= :
        {A B : Type 0} (i : List (Pod p)) (m : PodAction p S A) (f : A → PodAction p S B)
        → Steady i m
        → ((a : A) → Steady i (f a))
        → Steady i (m >>= f)
    Steady->>= i = Leads->>= i (λ _. i) (λ _. i)

    -- What is safe when it fails may be followed by what is safe from the start.
    pub Steady-attempt : {A : Type 0} (m : PodAction p S A) → Steady [] m → Steady [] (attempt m)
    unfolding Leads
    Steady-attempt m h s = ((h s).0, λ a e log g. Safe-append [] (m s).1.0 log (h s).0 g)

    pub Steady-for_each :
        {X : Type 0} (i : List (Pod p)) (xs : List X) (body : X → PodAction p S (Unit {0}))
        → ((x : X) → Occurs x xs → Steady i (body x))
        → Steady i (for_each xs body)
    unfolding for_each Leads
    Steady-for_each i [] body h s = (tt, λ a e log q. q)
    Steady-for_each i (x ∷ xs) body h s =
        Steady->>= i (body x) (λ _. for_each xs body) (h x (inl refl))
          (λ _. Steady-for_each i xs body (λ y o. h y (inr o))) s

    module _ {A : Type 0} (i : List (Pod p)) (j : A → List (Pod p)) where
      pub Leads-test :
          (b : Bool) (m n : PodAction p S A)
          → (b ≡ true → Leads i j m)
          → Leads i j n
          → Leads i j (if b then m else n)
      Leads-test true m n h g = h refl
      Leads-test false m n h g = g

      pub Leads-if :
          (b : Bool) (m n : PodAction p S A)
          → Leads i j m
          → Leads i j n
          → Leads i j (if b then m else n)
      Leads-if true m n h g = h
      Leads-if false m n h g = g

  module _ (S : Type 0) {A : Type 0} where
    pub Leads-pure : (i : List (Pod p)) (a : A) → Leads {S = S} i (λ _. i) (pure a)
    unfolding Leads
    Leads-pure i a s = (tt, λ b e log h. h)

    -- An action with an empty log.
    pub Leads-raise :
        (i : List (Pod p)) (j : A → List (Pod p)) (e : PodError) → Leads {S = S} i j (raise e)
    unfolding Leads
    Leads-raise i j e s = (tt, λ b e log h. absurd (cc))
