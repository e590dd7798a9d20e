-- ===== src/Startup/Ready.antt =====
-- pkg/admission/webhook.go: the operator waits for the endpoints of its own service.
use aerospike_operator.Prelude.{
  refl, ◌≡◌, ℕ, zero, suc, ◌≤◌, ◌<◌, arith, ltb, Bool, true, false, Result, ok, err, if◌then◌else◌,
}
use aerospike_operator.Action.{pure, raise, ask, ◌>>=◌}
use aerospike_operator.Api.{ApiError}
use aerospike_operator.Startup.Platform.{
  no_events, api_error, Startup, get_endpoints, StartError, timed_out, StartApi, Starting, send,
}

-- In nanoseconds.
abbrev pub wh_ready_timeout : ℕ
wh_ready_timeout = 30000000000

-- `len(endpoints.Subsets) == 0` is false.
abbrev pub any_subset : ℕ → Bool
any_subset zero = false
any_subset (suc n) = true

module _ {p : Startup} {S : Type 0} (api : StartApi p S) where
  unfoldable pub is_ready : Starting p S Bool
  is_ready = send get_endpoints api.subsets >>= λ n. pure (any_subset n)

  abbrev pub unless_ready : Starting p S Bool → Bool → Starting p S Bool
  unless_ready rest true = pure true
  unless_ready rest false = rest

  -- `select`: the ticker sends after `delay`, and the timer, which each round starts anew, after the timeout.
  abbrev pub select : Starting p S Bool → ℕ → Starting p S Bool
  select rest delay =
      if ltb delay wh_ready_timeout then is_ready >>= unless_ready rest else raise timed_out

  -- The loop on fuel: `false` means that the fuel ran out.
  unfoldable pub wait_ready : ℕ → Starting p S Bool
  wait_ready zero = pure false
  wait_ready (suc fuel) = ask api.until_tick >>= select (wait_ready fuel)

  -- The outcome of waiting: the rounds go on, or an answer about the endpoints ended them.
  abbrev pub IsAnswered : Result (StartError p) Bool → Type 0
  IsAnswered (ok false) = Unit
  IsAnswered (ok true) = (t : S) × (n : ℕ) × ((api.subsets t).0 ≡ ok n) × (0 < n)
  IsAnswered (err (api_error e)) = (t : S) × ((api.subsets t).0 ≡ err e)
  IsAnswered (err (no_events name)) = ⊥
  IsAnswered (err timed_out) = ⊥

  after_check :
      (answer : Result ApiError ℕ × S) (t : S) (rest : Starting p S Bool)
      → (api.subsets t).0 ≡ answer.0
      → ((s : S) → IsAnswered (rest s).0)
      → IsAnswered
          (((send get_endpoints (λ _. answer) >>= λ n. pure (any_subset n)) >>= unless_ready rest)
            t).0
  after_check (ok zero, s) t rest e h = h s
  after_check (ok (suc n), s) t rest e h = (t, suc n, e, omega arith)
  after_check (err x, s) t rest e h = (t, e)

  module _ (each_second : (s : S) → (api.until_tick s).0 ≤ 1000000000) where
    -- Where the ticker sends each second, WaitReady never times out, as each round starts the timer anew:
    -- however many rounds it runs, it ends only with an answer that has endpoints or is an error.
    pub wait_ready-IsAnswered : (fuel : ℕ) (s : S) → IsAnswered (wait_ready fuel s).0
    unfolding wait_ready is_ready
    wait_ready-IsAnswered zero s = tt
    wait_ready-IsAnswered (suc fuel) s =
        let in_time : ltb (api.until_tick s).0 wh_ready_timeout ≡ true =
          ground (arith, each_second s) in
        rw in_time (
          after_check (api.subsets (api.until_tick s).1) _ (wait_ready fuel) refl
            (wait_ready-IsAnswered fuel))
