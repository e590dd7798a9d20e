-- ===== src/Action/Logs.antt =====
-- What the logs of an action's runs have in common.
use aerospike_operator.Prelude.{
  Bool, true, false, if◌then◌else◌, Occurs, ◌≡◌, refl, List, [], ◌∷◌, ◌++◌, inl, inr, Result, ok,
  err, All, All-append,
}
use aerospike_operator.Action.{attempt, and_then, Action, pure, lift, ◌>>=◌, for_each}

Occurs-append :
    {W : Type 0} (w : W) (xs ys : List W) → Occurs w (xs ++ ys) → ¬ Occurs w xs → Occurs w ys
Occurs-append w [] ys o h = o
Occurs-append w (x ∷ xs) ys (inl e) h = absurd (h (inl e))
Occurs-append w (x ∷ xs) ys (inr o) h = Occurs-append w xs ys o (λ i. h (inr i))

module _ {S W E : Type 0} where
  -- Every entry of every log has the property.
  abbrev pub Logs : {A : Type 0} → (W → Type 0) → Action S W E A → Type 0
  Logs P m = (s : S) → All P (m s).1.0

  module _ {A B : Type 0} (P : W → Type 0) where
    after :
        (r : Result E A × (List W × S)) (f : A → Action S W E B)
        → All P r.1.0
        → ((a : A) → Logs P (f a))
        → All P (and_then r.0 r.1.0 r.1.1 f).1.0
    after (ok a, (log, t)) f q g = All-append P log (f a t).1.0 q (g a t)
    after (err e, (log, t)) f q g = q

    pub Logs->>= :
        (m : Action S W E A) (f : A → Action S W E B)
        → Logs P m
        → ((a : A) → Logs P (f a))
        → Logs P (m >>= f)
    Logs->>= m f h g s = after (m s) f (h s) g

  after_Occurs :
      {A B : Type 0} (r : Result E A × (List W × S)) (f : A → Action S W E B) (w : W)
      → ¬ Occurs w r.1.0
      → Occurs w (and_then r.0 r.1.0 r.1.1 f).1.0
      → (a : A) × (r.0 ≡ ok a) × Occurs w (f a r.1.1).1.0
  after_Occurs (ok a, (log, t)) f w h o = (a, refl, Occurs-append w log (f a t).1.0 o h)
  after_Occurs (err e, (log, t)) f w h o = absurd (h o)

  pub Logs-for_each :
      {X : Type 0} (P : W → Type 0) (xs : List X) (body : X → Action S W E (Unit {0}))
      → ((x : X) → Logs P (body x))
      → Logs P (for_each xs body)
  unfolding for_each
  Logs-for_each P [] body h s = tt
  Logs-for_each P (x ∷ xs) body h s =
      Logs->>= P (body x) (λ _. for_each xs body) (h x) (λ _. Logs-for_each P xs body h) s

  -- An entry of the log of what follows a result that was at hand.
  pub Occurs-lift :
      {A B : Type 0} (r : Result E A) (f : A → Action S W E B) (w : W) (s : S)
      → Occurs w ((lift r >>= f) s).1.0
      → (a : A) × (r ≡ ok a) × Occurs w (f a s).1.0
  Occurs-lift (ok a) f w s o = (a, refl, o)
  Occurs-lift (err e) f w s o = elim o [ ]

  -- An entry of the log of what runs only if a test fails.
  pub Occurs-unless :
      {A : Type 0} (b : Bool) (a : A) (m : Action S W E A) (w : W) (s : S)
      → Occurs w ((if b then pure a else m) s).1.0
      → (b ≡ false) × Occurs w (m s).1.0
  Occurs-unless true a m w s o = elim o [ ]
  Occurs-unless false a m w s o = (refl, o)

  -- An entry of the log of what runs only if a test succeeds.
  pub Occurs-when :
      {A : Type 0} (b : Bool) (a : A) (m : Action S W E A) (w : W) (s : S)
      → Occurs w ((if b then m else pure a) s).1.0
      → (b ≡ true) × Occurs w (m s).1.0
  Occurs-when true a m w s o = (refl, o)
  Occurs-when false a m w s o = elim o [ ]

  -- An action that handed on the error of another has the same log.
  pub Logs-attempt :
      {A : Type 0} (P : W → Type 0) (m : Action S W E A) → Logs P m → Logs P (attempt m)
  Logs-attempt P m h s = h s

  -- An entry of the log of an action that comes from what follows its first part, which returned.
  pub Occurs->>= :
      {A B : Type 0} (m : Action S W E A) (f : A → Action S W E B) (w : W) (s : S)
      → ¬ Occurs w (m s).1.0
      → Occurs w ((m >>= f) s).1.0
      → (a : A) × ((m s).0 ≡ ok a) × Occurs w (f a (m s).1.1).1.0
  Occurs->>= m f w s h o = after_Occurs (m s) f w h o
