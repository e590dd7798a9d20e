-- ===== src/BackupRestore/Progress.antt =====
-- Handle of pkg/backuprestore/handler.go takes over the outcome of the job.
use aerospike_operator.Prelude.{
  Absent, ◌⊎◌, ◌∙◌, ◌≡◌, ◌≢◌, inl, inr, refl, sym, subst, ap, true, false, some, List, [], ◌∷◌,
  ◌++◌, ok, arith, Occurs,
}
use aerospike_operator.Api.{condition_true, Kube, BackupStorageSpec, Condition, ConditionType}
use aerospike_operator.Api.Backup.{
  BackupRestoreObject, OperationType, set_storage, failed_condition_type, finished_condition_type,
  sync_status_with_spec,
}
use aerospike_operator.BackupRestore.Types.{
  JobConditionType, complete, failed, suspended, JobCondition, update_status, Handle, Server,
}
use aerospike_operator.BackupRestore.Job.{get_job_name}
use aerospike_operator.BackupRestore.Handler.{
  any_ends, is_failed_or_finished, job_outcome, set_outcome, maybe_set_conditions, update,
  follow_job, proceed, handle, add_condition, own_or_inherited_storage,
}
use aerospike_operator.BackupRestore.Conditions.{is, IsEnd, end-ends, sync-Same}
use aerospike_operator.BackupRestore.Handling.{running_handle}

-- A condition of a job that says neither that it is complete nor that it has failed.
abbrev pub IsOpen : JobCondition → Type 0
IsOpen c = (c.type ≡ suspended) ⊎ (c.status ≢ condition_true)

-- The first condition of the job that tells how it ended tells this end.
abbrev pub Tells : JobConditionType → List JobCondition → Type 0
Tells t [] = Absent
Tells t (c ∷ rest) = ((c.type ≡ t) × (c.status ≡ condition_true)) ⊎ (IsOpen c × Tells t rest)

Tells-outcome :
    (t : JobConditionType) (job : List JobCondition)
    → t ≢ suspended
    → Tells t job
    → job_outcome job ≡ some t
unfolding job_outcome
Tells-outcome t [] n h = elim h [ ]
Tells-outcome complete (c ∷ rest) n (inl h) = ground arith
Tells-outcome failed (c ∷ rest) n (inl h) = ground arith
Tells-outcome suspended (c ∷ rest) n (inl h) = absurd (n refl)
Tells-outcome t (c ∷ rest) n (inr (inl e, h)) = let later = Tells-outcome t rest n h in ground arith
Tells-outcome t (c ∷ rest) n (inr (inr e, h)) = let later = Tells-outcome t rest n h in ground arith

any_ends-last :
    (kind : OperationType) (l : List Condition) (c : Condition)
    → IsEnd kind c
    → any_ends kind (l ++ c ∷ []) ≡ true
unfolding any_ends
any_ends-last kind [] c e = let last = end-ends kind c e in ground arith
any_ends-last kind (d ∷ l) c e = let later = any_ends-last kind l c e in ground arith

ended_after_sync :
    (o : BackupRestoreObject)
    → is_failed_or_finished o ≡ true
    → is_failed_or_finished (sync_status_with_spec o).0 ≡ true
unfolding is_failed_or_finished
ended_after_sync o e =
    let (kind, conditions) = sync-Same o in
    ap (λ (k : OperationType). any_ends k (sync_status_with_spec o).0.status.conditions) kind
    ∙ (ap (any_ends o.kind) conditions ∙ e)

-- The condition that the outcome of a job leads to.
abbrev pub end_of : OperationType → JobConditionType → ConditionType
end_of kind complete = finished_condition_type kind
end_of kind failed = failed_condition_type kind
end_of kind suspended = failed_condition_type kind

end_of-IsEnd : (kind : OperationType) (t : JobConditionType) → IsEnd kind (is (end_of kind t))
end_of-IsEnd kind complete = inl refl
end_of-IsEnd kind failed = inr refl
end_of-IsEnd kind suspended = inr refl

add_condition-ended :
    (o : BackupRestoreObject) (t : JobConditionType)
    → is_failed_or_finished (add_condition o (end_of o.kind t)) ≡ true
unfolding is_failed_or_finished
add_condition-ended o t =
    any_ends-last o.kind o.status.conditions (is (end_of o.kind t)) (end_of-IsEnd o.kind t)

module _ {k : Kube} (server : Server k) (o : BackupRestoreObject) (s : BackupStorageSpec)
    (job : List JobCondition) where
  proceed-Occurs :
      (t : JobConditionType)
      → t ≢ suspended
      → server.get_job o.namespace (get_job_name o) ≡ ok job
      → job_outcome job ≡ some t
      → Occurs
          (update_status (sync_status_with_spec (add_condition o (end_of o.kind t))).0)
          (proceed server o s).1
  unfolding proceed follow_job maybe_set_conditions set_outcome update
  proceed-Occurs complete n e f = rw (e, f) (inr (inl refl))
  proceed-Occurs failed n e f = rw (e, f) (inr (inl refl))
  proceed-Occurs suspended n e f = absurd (n refl)

module _ {k : Kube} (server : Server k) (o : BackupRestoreObject) (s : BackupStorageSpec)
    (job : List JobCondition) (t : JobConditionType) where
  proceed_outcome :
      t ≢ suspended
      → server.get_job o.namespace (get_job_name o) ≡ ok job
      → job_outcome job ≡ some t
      → Occurs
          (update_status
            (sync_status_with_spec (add_condition (set_storage o (some s)) (end_of o.kind t))).0)
          (proceed server (set_storage o (some s)) s).1
  unfolding get_job_name
  proceed_outcome n e f = proceed-Occurs server (set_storage o (some s)) s job t n e f

  handle-proceed :
      is_failed_or_finished o ≡ false
      → own_or_inherited_storage server o ≡ ok s
      → handle server o ≡ proceed server (set_storage o (some s)) s
  handle-proceed e f = running_handle server o e ∙ rw f refl

  -- Where a backup or restore has not ended, a storage is found for it, and its job exists and tells
  -- that it is complete, its handling requests a status that has one condition more: that the operation
  -- has finished. Where the job tells that it has failed, that one condition is that the operation has
  -- failed. With either, the operation has ended.
  pub handle-ends :
      is_failed_or_finished o ≡ false
      → own_or_inherited_storage server o ≡ ok s
      → server.get_job o.namespace (get_job_name o) ≡ ok job
      → Tells t job
      → t ≢ suspended
      → (p : BackupRestoreObject) × Occurs (update_status p) (handle server o).1
        × (p.status.conditions ≡ o.status.conditions ++ is (end_of o.kind t) ∷ [])
        × (is_failed_or_finished p ≡ true)
  handle-ends running storage found outcome ended = (
    (sync_status_with_spec (add_condition (set_storage o (some s)) (end_of o.kind t))).0,
    subst
        (λ (m : Handle (Unit {0})).
          Occurs
            (update_status
              (sync_status_with_spec (add_condition (set_storage o (some s)) (end_of o.kind t))).0)
            m.1)
        (sym (handle-proceed running storage))
        (proceed_outcome ended found (Tells-outcome t job ended outcome)),
    (sync-Same (add_condition (set_storage o (some s)) (end_of o.kind t))).1,
    ended_after_sync _ (add_condition-ended (set_storage o (some s)) t),
  )
