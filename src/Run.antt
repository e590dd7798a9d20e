-- ===== src/Run.antt =====
-- Go code that calls the Kubernetes API: its result, and the requests and events that it made, in
-- order. What the API answers is fixed by the arguments of the code, so there is no other state. What
-- was requested before an error stays requested.
use aerospike_operator.Prelude.{All, All-append}
use aerospike_operator.Prelude.{◌≡◌, refl, List, [], ◌∷◌, ◌++◌, Result, ok, err}

-- `W` is the type of requests and events, `E` that of errors.
abbrev pub Run : Type 0 → Type 0 → Type 0 → Type 0
Run W E A = Result E A × List W

module _ {W E : Type 0} where
  abbrev pub pure : {A : Type 0} → A → Run W E A
  pure a = (ok a, [])

  abbrev pub raise : {A : Type 0} → E → Run W E A
  raise e = (err e, [])

  abbrev pub emit : W → Run W E (Unit {0})
  emit w = (ok tt, w ∷ [])

  -- A request and its answer.
  abbrev pub request : {A : Type 0} → W → Result E A → Run W E A
  request w answer = (answer, w ∷ [])

  abbrev pub lift : {A : Type 0} → Result E A → Run W E A
  lift r = (r, [])

  infixl 5 ◌>>=◌ ◌>>◌
  abbrev pub and_then : {A B : Type 0} → Result E A → List W → (A → Run W E B) → Run W E B
  and_then (ok a) log f = let (r, more) = f a in (r, log ++ more)
  and_then (err e) log f = (err e, log)

  abbrev pub ◌>>=◌ : {A B : Type 0} → Run W E A → (A → Run W E B) → Run W E B
  m >>= f = let (r, log) = m in and_then r log f

  abbrev pub ◌>>◌ : {A B : Type 0} → Run W E A → Run W E B → Run W E B
  m >> n = m >>= λ _. n

  -- `if err := m; err != nil { handler }`
  abbrev pub recover : {A : Type 0} → Result E A → List W → (E → Run W E A) → Run W E A
  recover (ok a) log handler = (ok a, log)
  recover (err e) log handler = let (r, more) = handler e in (r, log ++ more)

  abbrev pub on_error : {A : Type 0} → Run W E A → (E → Run W E A) → Run W E A
  on_error m handler = let (r, log) = m in recover r log handler

  -- The error is logged and dropped.
  abbrev pub ignore_error : {A : Type 0} → Run W E A → Run W E (Unit {0})
  ignore_error m = let (r, log) = m in (ok tt, log)

  -- Code that returned a value, in two steps.
  pub bind-ok :
      {A B : Type 0} (m : Run W E A) (f : A → Run W E B) {b : B}
      → (m >>= f).0 ≡ ok b
      → (a : A) × (m.0 ≡ ok a) × ((f a).0 ≡ ok b)
  bind-ok (err e, log) next returned = absurd (cc)
  bind-ok (ok a, log) next returned = (a, refl, returned)

  -- What holds of all requests of two steps.
  pub bind-All :
      {A B : Type 0} (P : W → Type 0) (m : Run W E A) (f : A → Run W E B)
      → All P m.1
      → ((a : A) → m.0 ≡ ok a → All P (f a).1)
      → All P (m >>= f).1
  bind-All P (ok a, log) f h g = All-append P log (f a).1 h (g a refl)
  bind-All P (err e, log) f h g = h
