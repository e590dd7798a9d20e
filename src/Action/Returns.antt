-- ===== src/Action/Returns.antt =====
-- What the values that an action returns have in common.
use aerospike_operator.Prelude.{
  ap, ◌∙◌, [], ◌∷◌, ◌++◌, ◌≡◌, refl, sym, subst, List, Result, ok, err, ok-injective,
}
use aerospike_operator.Action.{for_each, and_then, Action, pure, lift, ◌>>=◌}

module _ {S W E : Type 0} where
  -- Whatever the state, a value that the action returns has the property.
  unfoldable pub Returns : {A : Type 0} → (A → Type 0) → Action S W E A → Type 0
  Returns {A} P m = (s : S) (a : A) → (m s).0 ≡ ok a → P a

  module _ {A B : Type 0} (P : A → Type 0) (Q : B → Type 0) where
    after :
        (r : Result E A × (List W × S)) (f : A → Action S W E B)
        → ((a : A) → r.0 ≡ ok a → P a)
        → ((a : A) → P a → Returns Q (f a))
        → (b : B) → (and_then r.0 r.1.0 r.1.1 f).0 ≡ ok b
        → Q b
    unfolding Returns
    after (ok a, (log, t)) f h g b e = g a (h a refl) t b e
    after (err x, (log, t)) f h g b e = absurd (cc)

    pub Returns->>= :
        (m : Action S W E A) (f : A → Action S W E B)
        → Returns P m
        → ((a : A) → P a → Returns Q (f a))
        → Returns Q (m >>= f)
    unfolding Returns
    Returns->>= m f h g s = after (m s) f (h s) g

  pub Returns-any : {A : Type 0} (m : Action S W E A) → Returns (λ _. Unit) m
  unfolding Returns
  Returns-any m s a e = tt

  pub Returns-map :
      {A : Type 0} (P Q : A → Type 0) (m : Action S W E A)
      → ((a : A) → P a → Q a)
      → Returns P m
      → Returns Q m
  unfolding Returns
  Returns-map P Q m f h s a e = f a (h s a e)

module _ (S W E : Type 0) {A : Type 0} (P : A → Type 0) where
  pub Returns-pure : (a : A) → P a → Returns {S = S} {W = W} {E = E} P (pure a)
  unfolding Returns
  Returns-pure a h s b e = subst P (ok-injective e) h

  pub Returns-lift :
      (r : Result E A) → ((a : A) → r ≡ ok a → P a) → Returns {S = S} {W = W} P (lift r)
  unfolding Returns
  Returns-lift r h s a e = h a e

module _ {S W E : Type 0} where
  -- What follows a result that was at hand, and returned a value.
  pub lift->>=-eq-ok :
      {A B : Type 0} (r : Result E A) (f : A → Action S W E B) (s : S) (b : B)
      → ((lift r >>= f) s).0 ≡ ok b
      → (a : A) × (r ≡ ok a) × ((f a s).0 ≡ ok b)
  lift->>=-eq-ok (ok a) f s b e = (a, refl, e)
  lift->>=-eq-ok (err x) f s b e = absurd (cc)

  after-eq-ok :
      {A B : Type 0} (r : Result E A × (List W × S)) (f : A → Action S W E B) (b : B)
      → (and_then r.0 r.1.0 r.1.1 f).0 ≡ ok b
      → (a : A) × (r.0 ≡ ok a) × ((f a r.1.1).0 ≡ ok b)
  after-eq-ok (ok a, (log, t)) f b e = (a, refl, e)
  after-eq-ok (err x, (log, t)) f b e = absurd (cc)

  -- Of two actions that returned, what the first one returned to the second.
  pub >>=-returned :
      {A B : Type 0} (m : Action S W E A) (f : A → Action S W E B) (s : S) (b : B)
      → ((m >>= f) s).0 ≡ ok b
      → (a : A) × ((m s).0 ≡ ok a) × ((f a (m s).1.1).0 ≡ ok b)
  >>=-returned m f s b e = after-eq-ok (m s) f b e

  after-ends :
      {A B : Type 0} (r : Result E A × (List W × S)) (f : A → Action S W E B) (b : B)
      → (and_then r.0 r.1.0 r.1.1 f).0 ≡ ok b
      → (a : A) × (r.0 ≡ ok a)
        × ((f a r.1.1).0 ≡ ok b)
        × ((and_then r.0 r.1.0 r.1.1 f).1.1 ≡ (f a r.1.1).1.1)
  after-ends (ok a, (log, t)) f b e = (a, refl, e, refl)
  after-ends (err x, (log, t)) f b e = absurd (cc)

  -- The same, with the state in which the second action ends.
  pub >>=-ends :
      {A B : Type 0} (m : Action S W E A) (f : A → Action S W E B) (s : S) (b : B)
      → ((m >>= f) s).0 ≡ ok b
      → (a : A) × ((m s).0 ≡ ok a)
        × ((f a (m s).1.1).0 ≡ ok b)
        × (((m >>= f) s).1.1 ≡ (f a (m s).1.1).1.1)
  >>=-ends m f s b e = after-ends (m s) f b e

  -- If the action returns a value, the relation holds between the state before and the one after.
  unfoldable pub Ends : {A : Type 0} → (S → S → Type 0) → Action S W E A → Type 0
  Ends {A} R m = (s : S) (a : A) → (m s).0 ≡ ok a → R s (m s).1.1

  module _ {A B : Type 0} (R Q T : S → S → Type 0)
      (compose : (s t u : S) → R s t → Q t u → T s u) where
    pub Ends-with :
        (P : A → Type 0) (m : Action S W E A) (f : A → Action S W E B)
        → Returns P m
        → Ends R m
        → ((a : A) → P a → Ends Q (f a))
        → Ends T (m >>= f)
    unfolding Ends Returns
    Ends-with P m f h g k s b e =
        let (a, one, two, same) = >>=-ends m f s b e in
        subst (T s) (sym same) (compose s (m s).1.1 _ (g s a one) (k a (h s a one) (m s).1.1 b two))

    pub Ends->>= :
        (m : Action S W E A) (f : A → Action S W E B)
        → Ends R m
        → ((a : A) → Ends Q (f a))
        → Ends T (m >>= f)
    unfolding Ends
    Ends->>= m f g k s b e =
        let (a, one, two, same) = >>=-ends m f s b e in
        subst (T s) (sym same) (compose s (m s).1.1 _ (g s a one) (k a (m s).1.1 b two))

module _ {S W E : Type 0} where
  after-returned :
      {A B : Type 0} (r : Result E A × (List W × S)) (f : A → Action S W E B) (a : A)
      → r.0 ≡ ok a
      → ((and_then r.0 r.1.0 r.1.1 f).0 ≡ (f a r.1.1).0)
        × ((and_then r.0 r.1.0 r.1.1 f).1.1 ≡ (f a r.1.1).1.1)
  after-returned (ok b, (log, t)) f a e =
      (ap (λ c. (f c t).0) (ok-injective e), ap (λ c. (f c t).1.1) (ok-injective e))
  after-returned (err x, (log, t)) f a e = absurd (cc)

  -- A loop over a list with one more element.
  pub for_each-snoc :
      {X : Type 0} (xs : List X) (y : X) (body : X → Action S W E (Unit {0})) (s : S)
      → (for_each (xs ++ y ∷ []) body s).0 ≡ ok tt
      → ((for_each xs body s).0 ≡ ok tt)
        × ((body y (for_each xs body s).1.1).0 ≡ ok tt)
        × ((for_each (xs ++ y ∷ []) body s).1.1 ≡ (body y (for_each xs body s).1.1).1.1)
  unfolding for_each
  for_each-snoc [] y body s e =
      let (u, one, two, same) = >>=-ends (body y) (λ _. pure tt) s tt e in (refl, one, same)
  for_each-snoc (x ∷ xs) y body s e =
      let (u, one, two, same) = >>=-ends (body x) (λ _. for_each (xs ++ y ∷ []) body) s tt e in
      let (a, b, c) = for_each-snoc xs y body (body x s).1.1 two in
      let (value, state) = after-returned (body x s) (λ _. for_each xs body) u one in
      (
        value ∙ a,
        subst (λ t. (body y t).0 ≡ ok tt) (sym state) b,
        same ∙ c ∙ ap (λ t. (body y t).1.1) (sym state),
      )
