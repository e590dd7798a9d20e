-- ===== src/BackupRestore/Handling.antt =====
-- Handle of pkg/backuprestore/handler.go keeps the conditions in order.
use aerospike_operator.Prelude.{
  ◌≡◌, inl, inr, refl, sym, subst, ap, Bool, true, false, Option, none, some, List, [], ◌∷◌, Text,
  text_eq, Result, ok, err, ok-injective, All, Absent, Bool-cases,
}
use aerospike_operator.Run.{request, lift, ◌>>=◌, bind-All, bind-ok}
use aerospike_operator.Api.{
  Kube, BackupStorageSpec, Condition, ConditionType, condition_true, ApiError, not_found,
  already_exists, other_error, Secret, get_secret_namespace, get_secret_key,
}
use aerospike_operator.Api
use aerospike_operator.Api.Backup.{
  BackupRestoreObject, OperationType, set_storage, failed_condition_type, finished_condition_type,
  started_condition_type, sync_status_with_spec,
}
use aerospike_operator.BackupRestore.Types.{
  JobConditionType, complete, failed, suspended, JobCondition, Effect, update_status, delete_secret,
  Handle, Server, HandlerError,
}
use aerospike_operator.BackupRestore.Job.{
  api, has_field, start_job, get_secret, delete_secrets, clear_secrets, create_temp_secret,
  usable_secret, get_job_name,
}
use aerospike_operator.BackupRestore.Handler.{
  any_ends, is_failed_or_finished, job_outcome, set_outcome, maybe_set_conditions, update,
  launch_job, follow_job, clean_up, proceed, handle, add_condition, own_or_inherited_storage,
}
use aerospike_operator.BackupRestore.Conditions.{
  Lifecycle, KeepsLifecycle, Lifecycle-add, update-Keeps, update-same, is,
}

module _ {k : Kube} (server : Server k) (P : Effect → Type 0)
    (deletes : (namespace name : Text) → P (delete_secret namespace name)) where
  delete_secrets-All :
      (namespace : Text) (l : List Secret) → All P (delete_secrets server namespace l).1
  unfolding delete_secrets
  delete_secrets-All namespace [] = tt
  delete_secrets-All namespace (s ∷ l) =
      bind-All P
        (request (delete_secret namespace s.name)
          (api (server.delete_secret_answer namespace s.name)))
        _ (deletes namespace s.name, tt) (λ _ _. delete_secrets-All namespace l)

  clear_secrets-All : (o : BackupRestoreObject) → All P (clear_secrets server o).1
  unfolding clear_secrets
  clear_secrets-All o =
      bind-All P (lift (api (server.list_secrets o))) _ tt
        (λ secrets _. delete_secrets-All o.namespace secrets)

  clean_up-All :
      (r : BackupRestoreObject × Bool) → All P (update server r.0).1 → All P (clean_up server r).1
  unfolding clean_up
  clean_up-All (o, true) h = bind-All P (update server o) _ h (λ _ _. clear_secrets-All o)
  clean_up-All (o, false) h = clear_secrets-All o

module _ {k : Kube} (server : Server k) (kind : OperationType) where
  usable_secret-Keeps :
      (b : Bool) (s : Secret) (o : BackupRestoreObject)
      → All (KeepsLifecycle kind) (usable_secret server b s o).1
  unfolding usable_secret create_temp_secret
  usable_secret-Keeps true s o = tt
  usable_secret-Keeps false s o = (tt, tt)

  get_secret-Keeps :
      (o : BackupRestoreObject) (s : BackupStorageSpec)
      → All (KeepsLifecycle kind) (get_secret server o s).1
  unfolding get_secret
  get_secret-Keeps o s =
      bind-All (KeepsLifecycle kind)
        (lift (api (server.get_secret (get_secret_namespace s o.namespace) (Api.get_secret s)))) _
        tt
        (λ secret _.
          usable_secret-Keeps (text_eq (get_secret_namespace s o.namespace) o.namespace) secret o)

  start_job-Keeps :
      (o : BackupRestoreObject) (s : BackupStorageSpec) (secret : Secret)
      → All (KeepsLifecycle kind) (start_job server o s secret).1
  unfolding start_job
  start_job-Keeps o s secret = elim (Bool-cases (has_field (get_secret_key s) secret.data_keys)) [
    | inl e ↦ rw e (tt, tt)
    | inr e ↦ rw e tt
  ]

  -- What is known of an object that a step returns.
  abbrev Good : BackupRestoreObject → Type 0
  Good p = (p.kind ≡ kind) × Lifecycle kind p.status.conditions

  returned :
      (o p : BackupRestoreObject)
      → ◌≡◌ {A = Result HandlerError BackupRestoreObject} (ok o) (ok p)
      → Good o
      → Good p
  returned o p e g = subst Good (ok-injective e) g

  module _ (o : BackupRestoreObject) (e : o.kind ≡ kind)
      (n : any_ends kind o.status.conditions ≡ false) (h : Lifecycle kind o.status.conditions) where
    added-Good : (t : ConditionType) → Lifecycle kind (is t ∷ []) → Good (add_condition o t)
    added-Good t a = (e, Lifecycle-add kind o.status.conditions t n h a)

    finished-Good : Good (add_condition o (finished_condition_type o.kind))
    finished-Good =
        added-Good _
          (inr (inl (ap (λ (x : OperationType). is (finished_condition_type x)) e), refl))

    failed-Good : Good (add_condition o (failed_condition_type o.kind))
    failed-Good =
        added-Good _ (inr (inr (ap (λ (x : OperationType). is (failed_condition_type x)) e), refl))

    started-Good : Good (add_condition o (started_condition_type o.kind))
    started-Good =
        added-Good _ (inl (ap (λ (x : OperationType). is (started_condition_type x)) e, tt))

    set_outcome-Good :
        (r : Option JobConditionType) (p : BackupRestoreObject)
        → (set_outcome o r).0 ≡ ok p
        → Good p
    unfolding set_outcome
    set_outcome-Good none p q = returned o p q (e, h)
    set_outcome-Good (some complete) p q = returned _ p q finished-Good
    set_outcome-Good (some failed) p q = returned _ p q failed-Good
    set_outcome-Good (some suspended) p q = returned o p q (e, h)

    launch_job-Good :
        (s : BackupStorageSpec) (secret : Secret) (p : BackupRestoreObject)
        → (launch_job server o s secret).0 ≡ ok p
        → Good p
    unfolding launch_job
    launch_job-Good s secret p q =
        let (_, _, r) = bind-ok (start_job server o s secret) _ q in returned _ p r started-Good

    follow_job-Good :
        (s : BackupStorageSpec) (job : Result ApiError (List JobCondition))
        (p : BackupRestoreObject)
        → (follow_job server o s job).0 ≡ ok p
        → Good p
    unfolding follow_job maybe_set_conditions
    follow_job-Good s (ok job) p q = set_outcome-Good (job_outcome job) p q
    follow_job-Good s (err not_found) p q =
        let (secret, _, r) = bind-ok (get_secret server o s) _ q in launch_job-Good s secret p r
    follow_job-Good s (err already_exists) p q = absurd (cc)
    follow_job-Good s (err (other_error x)) p q = absurd (cc)

  set_outcome-Keeps :
      (o : BackupRestoreObject) (r : Option JobConditionType)
      → All (KeepsLifecycle kind) (set_outcome o r).1
  unfolding set_outcome
  set_outcome-Keeps o none = tt
  set_outcome-Keeps o (some complete) = (tt, tt)
  set_outcome-Keeps o (some failed) = (tt, tt)
  set_outcome-Keeps o (some suspended) = tt

  launch_job-Keeps :
      (o : BackupRestoreObject) (s : BackupStorageSpec) (secret : Secret)
      → All (KeepsLifecycle kind) (launch_job server o s secret).1
  unfolding launch_job
  launch_job-Keeps o s secret =
      bind-All (KeepsLifecycle kind) (start_job server o s secret) _ (start_job-Keeps o s secret)
        (λ _ _. (tt, tt))

  follow_job-Keeps :
      (o : BackupRestoreObject) (s : BackupStorageSpec) (job : Result ApiError (List JobCondition))
      → All (KeepsLifecycle kind) (follow_job server o s job).1
  unfolding follow_job maybe_set_conditions
  follow_job-Keeps o s (ok job) = set_outcome-Keeps o (job_outcome job)
  follow_job-Keeps o s (err not_found) =
      bind-All (KeepsLifecycle kind) (get_secret server o s) _ (get_secret-Keeps o s)
        (λ secret _. launch_job-Keeps o s secret)
  follow_job-Keeps o s (err already_exists) = tt
  follow_job-Keeps o s (err (other_error x)) = tt

  proceed-Keeps :
      (o : BackupRestoreObject) (s : BackupStorageSpec)
      → o.kind ≡ kind
      → any_ends kind o.status.conditions ≡ false
      → Lifecycle kind o.status.conditions
      → All (KeepsLifecycle kind) (proceed server o s).1
  unfolding proceed
  proceed-Keeps o s e n h =
      bind-All (KeepsLifecycle kind)
        (follow_job server o s (server.get_job o.namespace (get_job_name o))) _
        (follow_job-Keeps o s _)
        (λ p q. let (g, l) = follow_job-Good o e n h s _ p q in update-Keeps server kind p g l)

module _ {k : Kube} (server : Server k) (o : BackupRestoreObject) where
  ended_handle :
      is_failed_or_finished o ≡ true → handle server o ≡ clean_up server (sync_status_with_spec o)
  unfolding handle
  ended_handle e = rw e refl

  pub running_handle :
      is_failed_or_finished o ≡ false
      → handle server o ≡ (
          lift (own_or_inherited_storage server o) >>= λ s.
          proceed server (set_storage o (some s)) s)
  unfolding handle
  running_handle e = rw e refl

  running_any : is_failed_or_finished o ≡ false → any_ends o.kind o.status.conditions ≡ false
  unfolding is_failed_or_finished
  running_any e = e

  -- The handling of an object whose conditions are in order asks for no others.
  pub handle-in_order :
      Lifecycle o.kind o.status.conditions → All (KeepsLifecycle o.kind) (handle server o).1
  handle-in_order h = elim (Bool-cases (is_failed_or_finished o)) [
    | inl e ↦
        subst (λ (m : Handle (Unit {0})). All (KeepsLifecycle o.kind) m.1) (sym (ended_handle e))
          (clean_up-All server (KeepsLifecycle o.kind) (λ _ _. tt) (sync_status_with_spec o)
            (update-Keeps server o.kind o refl h))
    | inr e ↦
        subst (λ (m : Handle (Unit {0})). All (KeepsLifecycle o.kind) m.1) (sym (running_handle e))
          (bind-All (KeepsLifecycle o.kind) (lift (own_or_inherited_storage server o)) _ tt
            (λ s _. proceed-Keeps server o.kind (set_storage o (some s)) s refl (running_any e) h))
  ]

  -- What the handling of an object that has ended may request.
  abbrev pub OnlyCleans : Effect → Type 0
  OnlyCleans (update_status p) = p.status.conditions ≡ o.status.conditions
  OnlyCleans (delete_secret namespace name) = Unit
  OnlyCleans e = Absent

  -- The handling of a backup or restore that has finished or failed creates no job and no secret, and
  -- records no event: it deletes secrets, and may update the status with the same conditions.
  pub handle-OnlyCleans : is_failed_or_finished o ≡ true → All OnlyCleans (handle server o).1
  handle-OnlyCleans e =
      subst (λ (m : Handle (Unit {0})). All OnlyCleans m.1) (sym (ended_handle e))
        (clean_up-All server OnlyCleans (λ _ _. tt) (sync_status_with_spec o)
          (update-same server OnlyCleans o (λ _ same. same)))
