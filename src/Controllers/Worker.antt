-- ===== src/Controllers/Worker.antt =====
-- pkg/controller/generic.go: the worker that takes items off the work queue. The queue is client-go's.
use aerospike_operator.Prelude.{
  ℕ, zero, suc, Bool, true, false, Option, none, some, [], ◌∷◌, ◌++◌, map, Text, Result, ok, err,
}
use aerospike_operator.Action.{Action, pure, ask, emit, attempt, ◌>>=◌, ◌>>◌}

-- What comes off the queue is a string or, by mistake, something else.
pub data Item (O : Type 0) : Type 0 where
  key : Text → Item O
  other : O → Item O

-- `no_key` is an error of MetaNamespaceKeyFunc.
pub data WorkError (E : Type 0) : Type 0 where
  expected_string expected_object : WorkError E
  no_key : Text → WorkError E
  error_syncing : Text → E → WorkError E

-- The calls of the queue (Get, Done, Forget, AddRateLimited), of runtime.HandleError, and those that
-- the handler of an item makes.
pub data Work (O W E : Type 0) : Type 0 where
  got done forgotten : Item O → Work O W E
  added : Text → Work O W E
  reported : WorkError E → Work O W E
  within : W → Work O W E

-- `get` waits for an item, and gives none once the queue is shut down and empty.
pub record Controller (S O W E : Type 0) : Type 0 where
  pub get : S → Option (Item O) × S
  pub sync_handler : Text → Action S W E (Unit {0})

abbrev pub Working : Type 0 → Type 0 → Type 0 → Type 0 → Type 0 → Type 0
Working S O W E = Action S (Work O W E) (WorkError E)

abbrev pub syncing : {E : Type 0} → Text → Result E (Unit {0}) → Result (WorkError E) (Unit {0})
syncing k (ok u) = ok u
syncing k (err e) = err (error_syncing k e)

module _ {S O W E : Type 0} where
  -- `defer`
  abbrev pub finally : Working S O W E (Unit {0}) → Work O W E → Working S O W E (Unit {0})
  finally m w s = let (r, (log, t)) = m s in (r, (log ++ w ∷ [], t))

  abbrev pub report : Result (WorkError E) (Unit {0}) → Working S O W E Bool
  report (ok u) = pure true
  report (err e) = emit (reported e) >> pure true

  abbrev pub again : Working S O W E Bool → Bool → Working S O W E Bool
  again rest true = rest
  again rest false = pure true

module _ {S O W E : Type 0} (c : Controller S O W E) where
  abbrev pub sync : Text → Working S O W E (Unit {0})
  sync k s = let (r, (log, t)) = c.sync_handler k s in (syncing k r, (map within log, t))

  unfoldable pub process_item : Item O → Working S O W E (Unit {0})
  process_item (key k) = sync k >> emit (forgotten (key k))
  process_item (other o) = emit (forgotten (other o)) >> emit (reported expected_string)

  abbrev pub process_got : Option (Item O) → Working S O W E Bool
  process_got none = pure false
  process_got (some item) =
      emit (got item) >> attempt (finally (process_item item) (done item)) >>= report

  unfoldable pub process_next_work_item : Working S O W E Bool
  process_next_work_item = ask c.get >>= process_got

  -- `for c.processNextWorkItem() {}` on fuel: `false` means that the fuel ran out.
  unfoldable pub run_worker : ℕ → Working S O W E Bool
  run_worker zero = pure false
  run_worker (suc fuel) = process_next_work_item >>= again (run_worker fuel)
