-- ===== src/Controllers/Shutdown.antt =====
-- pkg/controller/generic.go: a worker of a queue that is shut down.
use aerospike_operator.Prelude.{
  Bool, Text, Bool, false, ◌≡◌, refl, ap, ℕ, zero, suc, ◌<◌, ◌≤◌, arith, true, Option, none, some,
  Result, ok, err, List,
}
use aerospike_operator.Controllers.Worker.{
  Working, Item, key, other, Work, WorkError, Controller, again, process_item, process_got,
  process_next_work_item, run_worker,
}
use aerospike_operator.Controllers.Items.{
  AllDone, AllDone-append, process_got-some, process_got-key,
}
use aerospike_operator.Action.{and_then, ◌>>=◌}

module _ {S O W E : Type 0} where
  -- The worker returns, and every item that it got was given back by Done.
  abbrev pub Stopped : Result (WorkError E) Bool × (List (Work O W E) × S) → Type 0
  Stopped run = (run.0 ≡ ok true) × AllDone none run.1.0

module _ {S O W E : Type 0} (c : Controller S O W E) (left : S → ℕ)
    (drains : (i : Item O) (s t : S) → c.get s ≡ (some i, t) → left t < left s)
    (keeps : (k : Text) (s : S) → left (c.sync_handler k s).1.1 ≤ left s) where
  process_got-left : (i : Item O) (s : S) → left (process_got c (some i) s).1.1 ≤ left s
  unfolding process_item
  process_got-left (key k) s = rw (process_got-key c k s) (keeps k s)
  process_got-left (other o) s = omega arith

  after :
      (x : Result (WorkError E) Bool × (List (Work O W E) × S)) (rest : Working S O W E Bool)
      → Stopped x
      → Stopped (rest x.1.1)
      → Stopped (and_then x.0 x.1.0 x.1.1 (again rest))
  after (ok true, (log, t)) rest (e, h) (r, g) = (r, AllDone-append none log (rest t).1.0 h g)
  after (ok false, (log, t)) rest (e, h) g = absurd (cc)
  after (err x, (log, t)) rest (e, h) g = absurd (cc)

  step :
      (fuel : ℕ) (answer : Option (Item O) × S)
      → ((i : Item O)
          → answer.0 ≡ some i
          → Stopped (run_worker c fuel (process_got c (some i) answer.1).1.1))
      → Stopped ((process_got c answer.0 >>= again (run_worker c fuel)) answer.1)
  unfolding AllDone
  step fuel (none, t) h = (refl, tt)
  step fuel (some i, t) h =
      let once = process_got-some c i t in
      after (process_got c (some i) t) (run_worker c fuel) (once.0, once.1.0) (h i refl)

  -- Once a queue is shut down, it takes no new item, and Get hands out those that are left. A worker of
  -- such a queue with n items left returns after at most n + 1 rounds, and calls Done for each item it got.
  pub run_worker-stops : (fuel : ℕ) (s : S) → left s < fuel → Stopped (run_worker c fuel s)
  unfolding run_worker process_next_work_item
  run_worker-stops zero s h = absurd (omega arith)
  run_worker-stops (suc fuel) s h = step fuel (c.get s) (λ i e. run_worker-stops fuel _ (
      omega (
        arith,
        drains i s (c.get s).1 (ap (λ x. (x, (c.get s).1)) e),
        process_got-left i (c.get s).1,
      )))
