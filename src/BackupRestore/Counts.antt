-- ===== src/BackupRestore/Counts.antt =====
-- How often pkg/backuprestore/handler.go records a start, and how many jobs it creates.
use aerospike_operator.Prelude.{
  ◌∙◌, ◌≡◌, refl, ap, List, [], ◌∷◌, ◌++◌, ok, err, All, All-append, Absent, ℕ, suc, ◌+◌, arith,
  if◌then◌else◌, deep_equal,
}
use aerospike_operator.Run.{◌>>=◌}
use aerospike_operator.Api.{Condition, ConditionType, ConditionType-discrete}
use aerospike_operator.Api.Backup.{
  BackupRestoreObject, OperationType, backup, restore, failed_condition_type,
  finished_condition_type, started_condition_type,
}
use aerospike_operator.BackupRestore.Types.{
  Effect, update_status, delete_secret, create_job, create_secret, event, Handle,
}
use aerospike_operator.BackupRestore.Handler.{add_condition}
use aerospike_operator.BackupRestore.Conditions.{is}

-- How many conditions say that the operation has started.
unfoldable pub starts : OperationType → List Condition → ℕ
starts kind [] = 0
starts kind (c ∷ rest) =
    let later = starts kind rest in
    if deep_equal ConditionType-discrete c.type (started_condition_type kind)
    then suc later
    else later

-- How many requests create a job.
abbrev pub jobs : List Effect → ℕ
jobs [] = 0
jobs (create_job job ∷ log) = suc (jobs log)
jobs (e ∷ log) = jobs log

-- A request to update the status says so often that the operation has started.
abbrev pub StartedTimes : OperationType → ℕ → Effect → Type 0
StartedTimes kind n (update_status p) = starts kind p.status.conditions ≡ n
StartedTimes kind n e = Unit

-- A request that updates no status.
abbrev pub NoUpdate : Effect → Type 0
NoUpdate (update_status p) = Absent
NoUpdate e = Unit

pub jobs-append : (l m : List Effect) → jobs (l ++ m) ≡ jobs l + jobs m
jobs-append [] m = omega arith
jobs-append (create_job job ∷ l) m = let rest = jobs-append l m in omega arith
jobs-append (update_status p ∷ l) m = jobs-append l m
jobs-append (create_secret s ∷ l) m = jobs-append l m
jobs-append (delete_secret a b ∷ l) m = jobs-append l m
jobs-append (event r ∷ l) m = jobs-append l m

-- Code that creates this number of jobs if it returns, and updates no status.
abbrev pub Makes : {A : Type 0} → ℕ → Handle A → Type 0
Makes {A} n m = ((a : A) → m.0 ≡ ok a → jobs m.1 ≡ n) × All NoUpdate m.1

pub Makes-bind :
    {A B : Type 0} (j n : ℕ) (m : Handle A) (f : A → Handle B)
    → Makes j m
    → ((a : A) → m.0 ≡ ok a → Makes n (f a))
    → Makes (j + n) (m >>= f)
Makes-bind j n (ok a, log) f (made, quiet) next = (
  λ b e.
      let first = made a refl in
      let second = (next a refl).0 b e in jobs-append log (f a).1 ∙ (omega arith),
  All-append NoUpdate log (f a).1 quiet (next a refl).1,
)
Makes-bind j n (err e, log) f (made, quiet) next = (λ b returned. absurd (cc), quiet)

starts-last :
    (kind : OperationType) (l : List Condition) (t : ConditionType)
    → starts kind (l ++ is t ∷ []) ≡ starts kind l + starts kind (is t ∷ [])
unfolding starts
starts-last kind [] t = omega arith
starts-last kind (c ∷ l) t = let rest = starts-last kind l t in ground arith

pub started_counts :
    (kind : OperationType) → starts kind (is (started_condition_type kind) ∷ []) ≡ 1
unfolding starts ConditionType-discrete
started_counts backup = refl
started_counts restore = refl

pub finished_counts :
    (kind : OperationType) → starts kind (is (finished_condition_type kind) ∷ []) ≡ 0
unfolding starts ConditionType-discrete
finished_counts backup = refl
finished_counts restore = refl

pub failed_counts : (kind : OperationType) → starts kind (is (failed_condition_type kind) ∷ []) ≡ 0
unfolding starts ConditionType-discrete
failed_counts backup = refl
failed_counts restore = refl

abbrev pub times : BackupRestoreObject → ℕ
times o = starts o.kind o.status.conditions

pub add_condition-times :
    (o : BackupRestoreObject) (t : ConditionType) (n : ℕ)
    → starts o.kind (is t ∷ []) ≡ n
    → times (add_condition o t) ≡ times o + n
add_condition-times o t n e = starts-last o.kind o.status.conditions t ∙ ap (λ m. times o + m) e
