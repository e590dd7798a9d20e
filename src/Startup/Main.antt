-- ===== src/Startup/Main.antt =====
-- cmd/operator/main.go: what `run` does before it starts the controllers.
use aerospike_operator.Prelude.{
  subst, ◌≡◌, ℕ, ◌<◌, ◌≤◌, Bool, true, false, List, [], ◌∷◌, Option, none, some, Text, ok, Occurs,
  All, All-Occurs,
}
use aerospike_operator.Action.{pure, emit, for_each, ◌>>=◌, ◌>>◌}
use aerospike_operator.Action.Logs.{Logs, Logs->>=, Occurs->>=}
use aerospike_operator.Action.Returns.{>>=-returned}
use aerospike_operator.Startup.Platform.{
  from_api-eq-ok, Startup, Crd, start_controllers, StartApi, Starting, send, watch_crd,
}
use aerospike_operator.Startup.Registry.{
  is_crd_established, register_crd, check_last, await_crd, register_and_await, register_crds,
}
use aerospike_operator.Startup.Ready.{wait_ready, wait_ready-IsAnswered, IsAnswered}
use aerospike_operator.Startup.Convert.{convert_resources}
use aerospike_operator.Startup.Quiet.{NotStart, register-NotStart, wait-NotStart, convert-NotStart}

module _ {p : Startup} {S : Type 0} (api : StartApi p S) (crds : List (Crd p)) where
  abbrev pub convert_and_start : Bool → Starting p S (Unit {0})
  convert_and_start true = convert_resources api >> emit start_controllers
  convert_and_start false = pure tt

  -- With fuel for the rounds of WaitReady. An error ends the program.
  unfoldable pub run : ℕ → Starting p S (Unit {0})
  run fuel = register_crds api crds >> wait_ready api fuel >>= convert_and_start

  -- Some answer of the API said that the definition was established.
  abbrev pub WasEstablished : Crd p → Type 0
  WasEstablished crd =
      (s : S) × (last : Crd p) × ((api.until crd.name is_crd_established s).0 ≡ ok (some last))
      × (is_crd_established last ≡ true)

  abbrev pub WasReady : Type 0
  WasReady = (s : S) × (n : ℕ) × ((api.subsets s).0 ≡ ok n) × (0 < n)

  abbrev pub WasConverted : Type 0
  WasConverted = (s : S) × ((convert_resources api s).0 ≡ ok tt)

  -- A loop that returned has returned for each element.
  each_returned :
      (xs : List (Crd p)) (body : Crd p → Starting p S (Unit {0})) (s : S)
      → (for_each xs body s).0 ≡ ok tt
      → All (λ x. (t : S) × ((body x t).0 ≡ ok tt)) xs
  unfolding for_each
  each_returned [] body s e = tt
  each_returned (x ∷ xs) body s e =
      let (u, one, rest) = >>=-returned (body x) (λ _. for_each xs body) s tt e in
      ((s, one), each_returned xs body _ rest)

  quiet :
      {A : Type 0} (m : Starting p S A) (s : S)
      → Logs NotStart m
      → ¬ Occurs start_controllers (m s).1.0
  quiet m s h o = All-Occurs NotStart start_controllers (m s).1.0 (h s) o

  module _
      (accepts : (n : Text) (f : Crd p → Bool) (s : S) (last : Crd p)
        → (api.until n f s).0 ≡ ok (some last)
        → f last ≡ true)
      (each_second : (s : S) → (api.until_tick s).0 ≤ 1000000000) where
    last_established :
        (crd : Crd p) (s : S) (x : Option (Crd p)) (t : S)
        → (api.until crd.name is_crd_established s).0 ≡ ok x
        → (check_last api crd x t).0 ≡ ok tt
        → WasEstablished crd
    last_established crd s (some last) t e f =
        (s, last, e, accepts crd.name is_crd_established s last e)
    last_established crd s none t e f = absurd (cc)

    awaited : (crd : Crd p) (s : S) → (await_crd api crd s).0 ≡ ok tt → WasEstablished crd
    unfolding await_crd
    awaited crd s e =
        let (x, sent, checked) =
          >>=-returned (send (watch_crd crd) (api.until crd.name is_crd_established))
            (check_last api crd) s tt e in
        last_established crd s x _ (from_api-eq-ok _ sent) checked

    registered :
        (xs : List (Crd p))
        → All (λ x. (t : S) × ((register_and_await api x t).0 ≡ ok tt)) xs
        → All WasEstablished xs
    registered [] h = tt
    registered (x ∷ xs) ((t, e), h) =
        let (u, one, two) = >>=-returned (register_crd api x) (λ _. await_crd api x) t tt e in
        (awaited x _ two, registered xs h)

    started :
        (b : Bool) (s t : S)
        → IsAnswered api (ok b)
        → Occurs start_controllers (convert_and_start b s).1.0
        → WasReady × WasConverted
    started true s t ready o =
        let (u, done, rest) =
          Occurs->>= (convert_resources api) (λ _. emit start_controllers) start_controllers s
            (quiet (convert_resources api) s (convert-NotStart api crds)) o in
        (ready, (s, done))
    started false s t ready o = elim o [ ]

    -- Where UntilWithSync gives only an event that its condition accepts and the ticker sends each second:
    -- `run` starts the controllers only after each definition was seen established, endpoints of the
    -- operator's service were seen, and the conversion of the resources returned without an error.
    pub run-starts :
        (fuel : ℕ) (s : S)
        → Occurs start_controllers (run fuel s).1.0
        → All WasEstablished crds × WasReady × WasConverted
    unfolding run register_crds
    run-starts fuel s o =
        let (ready, waited, end) =
          Occurs->>= (register_crds api crds >> wait_ready api fuel) convert_and_start
            start_controllers s
            (quiet (register_crds api crds >> wait_ready api fuel) s (
              Logs->>= NotStart (register_crds api crds) (λ _. wait_ready api fuel)
                (register-NotStart api crds) (λ _. wait-NotStart api crds fuel)))
            o in
        let (u, listed, w) =
          >>=-returned (register_crds api crds) (λ _. wait_ready api fuel) s ready waited in
        let (now, done) =
          started ready _ s
            (subst (IsAnswered api) w (wait_ready-IsAnswered api each_second fuel _)) end in
        (registered crds (each_returned crds (register_and_await api) s listed), now, done)
