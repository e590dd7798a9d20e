-- ===== src/Examples/Startup.antt =====
-- The start of the operator on a cluster with one resource that is stored as v1alpha1.
use aerospike_operator.Prelude.{
  subst, sym, text_eq, ok-injective, ◌≡◌, refl, subst, sym, ok-injective, text_eq, inl, inr, ap,
  ◌≤◌, Bool, true, false, Option, some, some-injective, List, [], ◌∷◌, Text, codes, Result, ok, err,
  Occurs, All, arith,
}
use aerospike_operator.Action.{for_each}
use aerospike_operator.Prelude.Dict.{lookup}
use aerospike_operator.Startup.Registry.{any_established, register_crd, await_crd, register_crds}
use aerospike_operator.Api.{ApiError, already_exists, other_error}
use aerospike_operator.Startup.Platform.{
  Startup, clusters, Resource, Crd, update_status, start_controllers, StartApi,
}
use aerospike_operator.Startup.Convert.{
  index_from, v1alpha1, crd_name, drop_version, index_from, without, convert_kind,
  convert_resources,
}
use aerospike_operator.Startup.Converting.{HasDropped}
use aerospike_operator.Startup.Again.{count, convert_kind-once}
use aerospike_operator.Startup.Ready.{is_ready, wait_ready, IsAnswered, wait_ready-IsAnswered}
use aerospike_operator.Startup.Main.{run, WasEstablished, WasReady, WasConverted, run-starts}
use native.Mathlib.Decide.{dec_le}

abbrev small : Startup
small = record { Body = Text; Spec = Text; Webhooks = Text; Certificate = Text }

-- The stored versions, with v1alpha1 at most once.
abbrev Stored : Type 0
Stored = (vs : List Text) × (count vs ≤ 1)

abbrev put_versions :
    (vs : List Text) → Dec (count vs ≤ 1) → Stored → Result ApiError (Unit {0}) × Stored
put_versions vs (yes h) s = (ok tt, (vs, h))
put_versions vs (no h) s = (err (other_error (codes "invalid")), s)

abbrev definition : Text → Stored → Crd small
definition n s = record {
  name = n;
  spec = codes "schema";
  conditions = record { established = true; is_true = true } ∷ [];
  stored_versions = s.0;
}

abbrev first_resource : Resource small
first_resource = record { annotations = []; body = codes "as-cluster" }

abbrev if_accepted : Crd small → Bool → Result ApiError (Option (Crd small))
if_accepted c true = ok (some c)
if_accepted c false = err (other_error (codes "timed out"))

abbrev stored_api : StartApi small Stored
stored_api = record {
  post_crd = λ c s. (err already_exists, s);
  get_crd = λ n s. (ok (definition n s), s);
  put_crd = λ c s. (ok tt, s);
  put_status = λ c s. put_versions c.stored_versions (dec_le (count c.stored_versions) 1) s;
  list = λ k s. (ok (first_resource ∷ []), s);
  put_resource = λ k r s. (ok tt, s);
  same_spec = λ a b. true;
  until = λ n f s. (if_accepted (definition n s) (f (definition n s)), s);
  subsets = λ s. (ok 1, s);
  until_tick = λ s. (1000000000, s);
}

accepted :
    (c last : Crd small) (f : Crd small → Bool) (b : Bool)
    → f c ≡ b
    → if_accepted c b ≡ ok (some last)
    → f last ≡ true
accepted c last f true e h = subst (λ d. f d ≡ true) (some-injective (ok-injective h)) e
accepted c last f false e h = absurd (cc)

put_kept :
    (vs : List Text) (d : Dec (count vs ≤ 1)) (s : Stored)
    → (put_versions vs d s).0 ≡ ok tt
    → (put_versions vs d s).1.0 ≡ vs
put_kept vs (yes h) s e = refl
put_kept vs (no h) s e = absurd (cc)

old_versions : count (v1alpha1 ∷ codes "v1alpha2" ∷ []) ≤ 1
unfolding count text_eq
old_versions = omega arith

abbrev old_storage : Stored
old_storage = (v1alpha1 ∷ codes "v1alpha2" ∷ [], old_versions)

abbrev dropped : Crd small
dropped = drop_version 0 (definition (crd_name clusters) old_storage)

drops_old : Occurs (update_status dropped) (convert_kind stored_api clusters old_storage).1.0
unfolding convert_kind index_from for_each lookup text_eq
drops_old = inr (inl refl)

convert_kind-once_example :
    HasDropped stored_api clusters old_storage dropped
      (convert_kind stored_api clusters old_storage)
    × ((convert_kind stored_api clusters old_storage).0 ≡ ok tt
        → (convert_kind stored_api clusters (convert_kind stored_api clusters old_storage).1.1).1.0
          ≡ [])
convert_kind-once_example =
    convert_kind-once stored_api clusters (λ n s c e. ap (λ c. c.name) (ok-injective (sym e)))
      (λ n s c e. subst (λ c'. count c'.stored_versions ≤ 1) (ok-injective e) s.1)
      (λ c s e. (
        definition c.name (stored_api.put_status c s).1,
        refl,
        put_kept c.stored_versions (dec_le (count c.stored_versions) 1) s e,
      ))
      old_storage dropped drops_old

wait_ready-IsAnswered_example : IsAnswered stored_api (wait_ready stored_api 3 old_storage).0
wait_ready-IsAnswered_example = wait_ready-IsAnswered stored_api (λ s. omega arith) 3 old_storage

abbrev one_definition : List (Crd small)
one_definition = definition (crd_name clusters) old_storage ∷ []

starts : Occurs start_controllers (run stored_api one_definition 2 old_storage).1.0
unfolding run register_crds register_crd await_crd any_established wait_ready is_ready
    convert_resources convert_kind index_from for_each lookup text_eq without count dec_le
starts = inr (inr (inr (inr (inr (inl refl)))))

run-starts_example :
    All (WasEstablished stored_api one_definition) one_definition
    × WasReady stored_api one_definition
    × WasConverted stored_api one_definition
run-starts_example =
    run-starts stored_api one_definition
      (λ n f s last e. accepted (definition n s) last f (f (definition n s)) refl e)
      (λ s. omega arith) 2 old_storage starts
