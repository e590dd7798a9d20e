-- ===== src/BackupRestore/Conditions.antt =====
-- The conditions of a backup or restore over the calls of Handle of pkg/backuprestore/handler.go.
use aerospike_operator.Prelude.{
  subst, ap, ◌∙◌, ◌≡◌, ◌≢◌, ◌⊎◌, inl, inr, refl, sym, Bool, true, false, ◌||◌, List, [], ◌∷◌, ◌++◌,
  arith, All, if◌then◌else◌, deep_equal, deep_equal_iff,
}
use aerospike_operator.Api.{ConditionType-discrete, Kube, Condition, ConditionType, condition_true}
use aerospike_operator.Api.Backup.{
  BackupStorageSpec-discrete, same_pointer, TargetNamespace-discrete, sync_storage, sync_target,
  sync_ttl, BackupRestoreObject, OperationType, failed_condition_type, finished_condition_type,
  started_condition_type, has_ttl, sync_status_with_spec,
}
use aerospike_operator.BackupRestore.Types.{Effect, update_status, Server}
use aerospike_operator.BackupRestore.Handler.{is_true, any_ends, ends, update}

abbrev pub is : ConditionType → Condition
is type = record { type = type; status = condition_true }

-- The operation has ended, in one of two ways.
abbrev pub IsEnd : OperationType → Condition → Type 0
IsEnd kind c = (c ≡ is (finished_condition_type kind)) ⊎ (c ≡ is (failed_condition_type kind))

-- The conditions of an operation: any number of starts, and then at most one end.
abbrev pub Lifecycle : OperationType → List Condition → Type 0
Lifecycle kind [] = Unit
Lifecycle kind (c ∷ rest) =
    ((c ≡ is (started_condition_type kind)) × Lifecycle kind rest) ⊎ (IsEnd kind c × (rest ≡ []))

-- Each request to update the status of an object of this kind has such conditions.
abbrev pub KeepsLifecycle : OperationType → Effect → Type 0
KeepsLifecycle kind (update_status obj) = (obj.kind ≡ kind) × Lifecycle kind obj.status.conditions
KeepsLifecycle kind e = Unit

pub end-ends : (kind : OperationType) (c : Condition) → IsEnd kind c → ends kind c ≡ true
unfolding ends
end-ends kind c (inl e) =
    let same =
      (deep_equal_iff ConditionType-discrete c.type (finished_condition_type kind)).1
        (ap (λ (d : Condition). d.type) e) in
    let holds = ap (λ (d : Condition). is_true d.status) e in ground arith
end-ends kind c (inr e) =
    let same =
      (deep_equal_iff ConditionType-discrete c.type (failed_condition_type kind)).1
        (ap (λ (d : Condition). d.type) e) in
    let holds = ap (λ (d : Condition). is_true d.status) e in ground arith

ended_before :
    (kind : OperationType) (c : Condition) (l : List Condition)
    → IsEnd kind c
    → any_ends kind (c ∷ l) ≢ false
unfolding any_ends
ended_before kind c l e n = let ended = end-ends kind c e in ground arith

pub Lifecycle-add :
    (kind : OperationType) (l : List Condition) (t : ConditionType)
    → any_ends kind l ≡ false
    → Lifecycle kind l
    → Lifecycle kind (is t ∷ [])
    → Lifecycle kind (l ++ is t ∷ [])
unfolding any_ends
Lifecycle-add kind [] t n h a = a
Lifecycle-add kind (c ∷ l) t n (inl (s, h)) a = inl (s, Lifecycle-add kind l t (ground arith) h a)
Lifecycle-add kind (c ∷ l) t n (inr (e, h)) a = absurd (ended_before kind c l e n)

-- A change of an object that leaves its kind and its conditions.
abbrev Same : BackupRestoreObject → BackupRestoreObject → Type 0
Same o p = (o.kind ≡ p.kind) × (o.status.conditions ≡ p.status.conditions)

if_Same :
    (b : Bool) (o p : BackupRestoreObject)
    → Same p o
    → Same (if◌then◌else◌ {A = BackupRestoreObject × Bool} b (o, false) (p, true)).0 o
if_Same true o p h = (refl, refl)
if_Same false o p h = h

if_Same_pair :
    (b : Bool) (o : BackupRestoreObject) (x y : BackupRestoreObject × Bool)
    → Same x.0 o
    → Same y.0 o
    → Same (if◌then◌else◌ {A = BackupRestoreObject × Bool} b x y).0 o
if_Same_pair true o x y h g = h
if_Same_pair false o x y h g = g

sync_storage-Same : (o : BackupRestoreObject) → Same (sync_storage o).0 o
unfolding sync_storage
sync_storage-Same o =
    if_Same (deep_equal BackupStorageSpec-discrete o.status.spec.storage o.spec.storage) o _
      (refl, refl)

sync_target-Same : (o : BackupRestoreObject) → Same (sync_target o).0 o
unfolding sync_target
sync_target-Same o =
    if_Same (deep_equal TargetNamespace-discrete o.status.spec.target o.spec.target) o _
      (refl, refl)

sync_ttl-Same : (o : BackupRestoreObject) → Same (sync_ttl o).0 o
unfolding sync_ttl
sync_ttl-Same o = if_Same (same_pointer o.status.spec.ttl o.spec.ttl) o _ (refl, refl)

Same-trans : (a b c : BackupRestoreObject) → Same a b → Same b c → Same a c
Same-trans a b c (p, q) (r, s) = (p ∙ r, q ∙ s)

pub sync-Same : (o : BackupRestoreObject) → Same (sync_status_with_spec o).0 o
unfolding sync_status_with_spec
sync-Same o =
    let p = (sync_storage o).0 in
    let q = (sync_target p).0 in
    let r = (sync_ttl q).0 in
    let with_target = Same-trans q p o (sync_target-Same p) (sync_storage-Same o) in
    if_Same_pair (has_ttl o.kind) o (r, (sync_storage o).1 || (sync_target p).1 || (sync_ttl q).1)
      (q, (sync_storage o).1 || (sync_target p).1) (Same-trans r q o (sync_ttl-Same q) with_target)
      with_target

-- An update of the status of an object with such conditions.
pub update-Keeps :
    {k : Kube} (server : Server k) (kind : OperationType) (o : BackupRestoreObject)
    → o.kind ≡ kind
    → Lifecycle kind o.status.conditions
    → All (KeepsLifecycle kind) (update server (sync_status_with_spec o).0).1
unfolding update
update-Keeps server kind o e h =
    let (same_kind, same) = sync-Same o in
    ((same_kind ∙ e, subst (Lifecycle kind) (sym same) h), tt)

pub update-same :
    {k : Kube} (server : Server k) (P : Effect → Type 0) (o : BackupRestoreObject)
    → ((p : BackupRestoreObject) → p.status.conditions ≡ o.status.conditions → P (update_status p))
    → All P (update server (sync_status_with_spec o).0).1
unfolding update
update-same server P o f = (f _ (sync-Same o).1, tt)
