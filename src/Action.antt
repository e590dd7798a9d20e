-- ===== src/Action.antt =====
-- Go code that works on a state that others change too, such as what Kubernetes stores: a function
-- from the state to a result, the log of what was done, in order, and the new state. Each call of the
-- API takes the state and gives it back, so its answers may change from call to call.
pub mod Logs
pub mod Returns
use aerospike_operator.Prelude.{◌≡◌, refl, Bool, List, [], ◌∷◌, ◌++◌, Result, ok, err}

-- `S` is the type of states, `W` that of log entries, `E` that of errors.
abbrev pub Action : Type 0 → Type 0 → Type 0 → Type 0 → Type 0
Action S W E A = S → Result E A × (List W × S)

module _ {S W E : Type 0} where
  abbrev pub pure : {A : Type 0} → A → Action S W E A
  pure a s = (ok a, ([], s))

  abbrev pub raise : {A : Type 0} → E → Action S W E A
  raise e s = (err e, ([], s))

  abbrev pub emit : W → Action S W E (Unit {0})
  emit w s = (ok tt, (w ∷ [], s))

  abbrev pub lift : {A : Type 0} → Result E A → Action S W E A
  lift r s = (r, ([], s))

  -- A call that the log does not list.
  abbrev pub ask : {A : Type 0} → (S → A × S) → Action S W E A
  ask call s = let (a, t) = call s in (ok a, ([], t))

  abbrev pub prepend : {A : Type 0} → List W → Result E A × (List W × S) → Result E A × (List W × S)
  prepend log (r, (more, s)) = (r, (log ++ more, s))

  infixl 5 ◌>>=◌ ◌>>◌
  abbrev pub and_then :
      {A B : Type 0} → Result E A → List W → S → (A → Action S W E B) → Result E B × (List W × S)
  and_then (ok a) log s f = prepend log (f a s)
  and_then (err e) log s f = (err e, (log, s))

  abbrev pub ◌>>=◌ : {A B : Type 0} → Action S W E A → (A → Action S W E B) → Action S W E B
  ◌>>=◌ m f s = let (r, (log, t)) = m s in and_then r log t f

  abbrev pub ◌>>◌ : {A B : Type 0} → Action S W E A → Action S W E B → Action S W E B
  m >> n = m >>= λ _. n

  -- A request, which the log lists, and its answer.
  abbrev pub request : {A : Type 0} → W → (S → Result E A × S) → Action S W E A
  request w call s = let (r, t) = call s in (r, (w ∷ [], t))

  -- `for _, x := range xs { if err := body(x); err != nil { return err } }`
  unfoldable pub for_each :
      {X : Type 0} → List X → (X → Action S W E (Unit {0})) → Action S W E (Unit {0})
  for_each [] body = pure tt
  for_each (x ∷ xs) body = do body x; for_each xs body

  -- The error is handed on, as the log's reader needs to see it.
  abbrev pub attempt : {A : Type 0} → Action S W E A → Action S W E (Result E A)
  attempt m s = let (r, rest) = m s in (ok r, rest)
