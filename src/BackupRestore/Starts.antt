-- ===== src/BackupRestore/Starts.antt =====
-- Handle of pkg/backuprestore/handler.go records that an operation has started when it creates its job.
use aerospike_operator.Prelude.{
  ◌∙◌, ◌≡◌, inl, inr, refl, sym, subst, ap, Bool, true, false, Option, none, some, List, [], ◌∷◌,
  ◌++◌, text_eq, Result, ok, err, ok-injective, All, All-append, Bool-cases, ℕ, ◌+◌, arith,
}
use aerospike_operator.Run.{lift, ◌>>=◌, bind-ok}
use aerospike_operator.Api.{
  Kube, BackupStorageSpec, Condition, ConditionType, ConditionType-discrete, ApiError, not_found,
  already_exists, other_error, Secret, get_secret_namespace, get_secret_key,
}
use aerospike_operator.Api
use aerospike_operator.Api.Backup.{
  BackupRestoreObject, OperationType, set_storage, sync_status_with_spec,
}
use aerospike_operator.BackupRestore.Types.{
  JobConditionType, complete, failed, suspended, JobCondition, Effect, update_status, delete_secret,
  create_job, create_secret, event, Handle, Server, HandlerError,
}
use aerospike_operator.BackupRestore.Job.{
  api, has_field, start_job, get_secret, create_temp_secret, usable_secret, get_job_name,
}
use aerospike_operator.BackupRestore.Handler.{
  is_failed_or_finished, job_outcome, set_outcome, maybe_set_conditions, update, launch_job,
  follow_job, proceed, handle, own_or_inherited_storage,
}
use aerospike_operator.BackupRestore.Conditions.{Lifecycle, KeepsLifecycle, sync-Same}
use aerospike_operator.BackupRestore.Handling.{
  running_handle, handle-in_order, OnlyCleans, handle-OnlyCleans,
}
use aerospike_operator.BackupRestore.Counts.{
  Makes, Makes-bind, NoUpdate, StartedTimes, add_condition-times, failed_counts, finished_counts,
  jobs, jobs-append, started_counts, starts, times,
}

-- The number of jobs that the answer to the lookup of the job calls for.
abbrev due : Result ApiError (List JobCondition) → ℕ
due (ok job) = 0
due (err e) = 1

-- What a step returns has the kind of the object, and this number of further starts.
abbrev Adds : BackupRestoreObject → ℕ → BackupRestoreObject → Type 0
Adds o n p = (p.kind ≡ o.kind) × (times p ≡ times o + n)

module _ {k : Kube} (server : Server k) (o : BackupRestoreObject) (s : BackupStorageSpec) where
  returned :
      (n : ℕ) (q p : BackupRestoreObject)
      → ◌≡◌ {A = Result HandlerError BackupRestoreObject} (ok q) (ok p)
      → Adds o n q
      → Adds o n p
  returned n q p e g = subst (Adds o n) (ok-injective e) g

  set_outcome-Makes : (r : Option JobConditionType) → Makes 0 (set_outcome o r)
  unfolding set_outcome
  set_outcome-Makes none = (λ p e. refl, tt)
  set_outcome-Makes (some complete) = (λ p e. refl, (tt, tt))
  set_outcome-Makes (some failed) = (λ p e. refl, (tt, tt))
  set_outcome-Makes (some suspended) = (λ p e. refl, tt)

  set_outcome-Adds :
      (r : Option JobConditionType) (p : BackupRestoreObject)
      → (set_outcome o r).0 ≡ ok p
      → Adds o 0 p
  unfolding set_outcome
  set_outcome-Adds none p e = returned 0 o p e (refl, omega arith)
  set_outcome-Adds (some complete) p e =
      returned 0 _ p e (refl, add_condition-times o _ 0 (finished_counts o.kind))
  set_outcome-Adds (some failed) p e =
      returned 0 _ p e (refl, add_condition-times o _ 0 (failed_counts o.kind))
  set_outcome-Adds (some suspended) p e = returned 0 o p e (refl, omega arith)

  usable_secret-Makes : (b : Bool) (secret : Secret) → Makes 0 (usable_secret server b secret o)
  unfolding usable_secret create_temp_secret
  usable_secret-Makes true secret = (λ a e. refl, tt)
  usable_secret-Makes false secret = (λ a e. refl, (tt, tt))

  get_secret-Makes : Makes 0 (get_secret server o s)
  unfolding get_secret
  get_secret-Makes =
      Makes-bind 0 0
        (lift (api (server.get_secret (get_secret_namespace s o.namespace) (Api.get_secret s)))) _
        (λ a e. refl, tt)
        (λ secret _.
          usable_secret-Makes (text_eq (get_secret_namespace s o.namespace) o.namespace) secret)

  start_job-Makes : (secret : Secret) → Makes 1 (start_job server o s secret)
  unfolding start_job
  start_job-Makes secret = elim (Bool-cases (has_field (get_secret_key s) secret.data_keys)) [
    | inl e ↦ rw e (λ a f. refl, (tt, tt))
    | inr e ↦ rw e (λ a f. absurd (cc), tt)
  ]

  launch_job-Makes : (secret : Secret) → Makes 1 (launch_job server o s secret)
  unfolding launch_job
  launch_job-Makes secret =
      Makes-bind 1 0 (start_job server o s secret) _ (start_job-Makes secret)
        (λ _ _. (λ a e. refl, (tt, tt)))

  follow_job-Makes :
      (job : Result ApiError (List JobCondition)) → Makes (due job) (follow_job server o s job)
  unfolding follow_job maybe_set_conditions
  follow_job-Makes (ok job) = set_outcome-Makes (job_outcome job)
  follow_job-Makes (err not_found) =
      Makes-bind 0 1 (get_secret server o s) _ get_secret-Makes (λ a _. launch_job-Makes a)
  follow_job-Makes (err already_exists) = (λ a e. absurd (cc), tt)
  follow_job-Makes (err (other_error x)) = (λ a e. absurd (cc), tt)

  launch_job-Adds :
      (secret : Secret) (p : BackupRestoreObject)
      → (launch_job server o s secret).0 ≡ ok p
      → Adds o 1 p
  unfolding launch_job
  launch_job-Adds secret p q =
      let (_, _, r) = bind-ok (start_job server o s secret) _ q in
      returned 1 _ p r (refl, add_condition-times o _ 1 (started_counts o.kind))

  follow_job-Adds :
      (job : Result ApiError (List JobCondition)) (p : BackupRestoreObject)
      → (follow_job server o s job).0 ≡ ok p
      → Adds o (due job) p
  unfolding follow_job maybe_set_conditions
  follow_job-Adds (ok job) p q = set_outcome-Adds (job_outcome job) p q
  follow_job-Adds (err not_found) p q =
      let (secret, _, r) = bind-ok (get_secret server o s) _ q in launch_job-Adds secret p r
  follow_job-Adds (err already_exists) p q = absurd (cc)
  follow_job-Adds (err (other_error x)) p q = absurd (cc)

-- Code that updates no status requests no wrong number of starts.
quiet-StartedTimes :
    (kind : OperationType) (n : ℕ) (log : List Effect)
    → All NoUpdate log
    → All (StartedTimes kind n) log
quiet-StartedTimes kind n [] h = tt
quiet-StartedTimes kind n (create_job job ∷ log) (_, h) = (tt, quiet-StartedTimes kind n log h)
quiet-StartedTimes kind n (update_status p ∷ log) (h, _) = elim h [ ]
quiet-StartedTimes kind n (create_secret s ∷ log) (_, h) = (tt, quiet-StartedTimes kind n log h)
quiet-StartedTimes kind n (delete_secret a b ∷ log) (_, h) = (tt, quiet-StartedTimes kind n log h)
quiet-StartedTimes kind n (event r ∷ log) (_, h) = (tt, quiet-StartedTimes kind n log h)

-- Code whose updates say that the operation has started once more for each job that it creates.
abbrev pub Matches : OperationType → ℕ → List Effect → Type 0
Matches kind n log = All (StartedTimes kind (n + jobs log)) log

module _ {k : Kube} (server : Server k) (kind : OperationType) (n due_jobs : ℕ) where
  last_update :
      (p : BackupRestoreObject) (log : List Effect)
      → p.kind ≡ kind
      → times p ≡ n + due_jobs
      → jobs log ≡ due_jobs
      → All NoUpdate log
      → Matches kind n (log ++ update_status (sync_status_with_spec p).0 ∷ [])
  last_update p log same counted made quiet =
      let total : n + jobs (log ++ update_status (sync_status_with_spec p).0 ∷ []) ≡ n + due_jobs =
        ap (λ m. n + m)
          (jobs-append log (update_status (sync_status_with_spec p).0 ∷ []) ∙ (omega arith)) in
      let conditions = (sync-Same p).1 in
      let right : starts kind (sync_status_with_spec p).0.status.conditions ≡ n + due_jobs =
        ap (starts kind) conditions
        ∙ (ap (λ x. starts x p.status.conditions) (sym same) ∙ counted) in
      All-append (StartedTimes kind _) log _ (quiet-StartedTimes kind _ log quiet)
        (right ∙ sym total, tt)

  then_update :
      (m : Handle BackupRestoreObject)
      → Makes due_jobs m
      → ((p : BackupRestoreObject) → m.0 ≡ ok p → (p.kind ≡ kind) × (times p ≡ n + due_jobs))
      → Matches kind n (m >>= λ p. update server (sync_status_with_spec p).0).1
  unfolding update
  then_update (ok p, log) (made, quiet) counted =
      let (same, number) = counted p refl in last_update p log same number (made p refl) quiet
  then_update (err e, log) (made, quiet) counted = quiet-StartedTimes kind _ log quiet

-- A log that only cleans up creates no job and keeps the number of starts.
cleans-Matches :
    {k : Kube} (server : Server k) (o : BackupRestoreObject) (log : List Effect)
    → All (OnlyCleans server o) log
    → (jobs log ≡ 0) × All (StartedTimes o.kind (times o)) log
cleans-Matches server o [] h = (refl, tt)
cleans-Matches server o (create_job job ∷ log) (h, _) = elim h [ ]
cleans-Matches server o (update_status p ∷ log) (same, h) =
    let (none_made, rest) = cleans-Matches server o log h in
    (none_made, (ap (starts o.kind) same, rest))
cleans-Matches server o (create_secret s ∷ log) (h, _) = elim h [ ]
cleans-Matches server o (delete_secret a b ∷ log) (_, h) =
    let (none_made, rest) = cleans-Matches server o log h in (none_made, (tt, rest))
cleans-Matches server o (event r ∷ log) (h, _) = elim h [ ]

module _ {k : Kube} (server : Server k) (o : BackupRestoreObject) where
  proceed-Matches :
      (p : BackupRestoreObject) (s : BackupStorageSpec)
      → p.kind ≡ o.kind
      → times p ≡ times o
      → Matches o.kind (times o) (proceed server p s).1
  unfolding proceed
  proceed-Matches p s same number =
      let job = server.get_job p.namespace (get_job_name p) in
      then_update server o.kind (times o) (due job) (follow_job server p s job)
        (follow_job-Makes server p s job)
        (λ q e.
          let (kind, added) = follow_job-Adds server p s job q e in
          (kind ∙ same, added ∙ ap (λ m. m + due job) number))

  ended-Matches : is_failed_or_finished o ≡ true → Matches o.kind (times o) (handle server o).1
  ended-Matches e =
      let (none_made, rest) =
        cleans-Matches server o (handle server o).1 (handle-OnlyCleans server o e) in
      subst (λ m. All (StartedTimes o.kind m) (handle server o).1) (omega arith) rest

  running-Matches : is_failed_or_finished o ≡ false → Matches o.kind (times o) (handle server o).1
  running-Matches e =
      subst (λ (m : Handle (Unit {0})). Matches o.kind (times o) m.1)
        (sym (running_handle server o e)) (found_storage (own_or_inherited_storage server o))
    where
      found_storage :
          (r : Result HandlerError BackupStorageSpec)
          → Matches o.kind (times o) (lift r >>= λ s. proceed server (set_storage o (some s)) s).1
      found_storage (err e) = tt
      found_storage (ok s) = proceed-Matches (set_storage o (some s)) s refl refl

  -- Where the conditions of a backup or restore are any number of starts and then at most one end,
  -- finished or failed, so are those of each request of its handling to update its status. Such a
  -- request has one start more than before for each job that the same handling creates, and where that
  -- creates none, no further start.
  pub handle-KeepsLifecycle :
      Lifecycle o.kind o.status.conditions
      → All (KeepsLifecycle o.kind) (handle server o).1
        × Matches o.kind (starts o.kind o.status.conditions) (handle server o).1
  handle-KeepsLifecycle h = (
    handle-in_order server o h,
    elim (Bool-cases (is_failed_or_finished o)) [
      | inl e ↦ ended-Matches e
      | inr e ↦ running-Matches e
    ],
  )
