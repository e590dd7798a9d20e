-- ===== src/Startup/Quiet.antt =====
-- Nothing but the end of `run` (cmd/operator/main.go) starts the controllers.
use aerospike_operator.Prelude.{
  ℕ, zero, suc, ltb, Bool, true, false, List, Option, none, some, Text, Result, ok, err,
  if◌then◌else◌,
}
use aerospike_operator.Prelude.Dict.{lookup}
use aerospike_operator.Action.{pure, raise, ask, for_each, ◌>>=◌, ◌>>◌}
use aerospike_operator.Action.Logs.{Logs, Logs->>=, Logs-for_each}
use aerospike_operator.Api.{ApiError, not_found, already_exists, other_error}
use aerospike_operator.Startup.Platform.{
  Startup, Resources, Resource, clusters, backups, restores, Crd, Effect, create_crd, update_crd,
  update_status, watch_crd, get_endpoints, timed_out, start_controllers, StartApi, Starting, send,
  try_send,
}
use aerospike_operator.Startup.Registry.{
  is_crd_established, update_if_differs, after_create, register_crd, check_last, await_crd,
  register_and_await, register_crds,
}
use aerospike_operator.Startup.Ready.{
  is_ready, unless_ready, select, wait_ready, any_subset, wh_ready_timeout,
}
use aerospike_operator.Startup.Convert.{
  converted_from_annotation_key, crd_name, index_from, drop_version, convert_unless,
  convert_resource, convert_listed, convert_stored, convert_crd, convert_kind, convert_resources,
}

module _ {p : Startup} where
  abbrev pub NotStart : Effect p → Type 0
  NotStart start_controllers = ⊥
  NotStart _ = Unit

module _ {p : Startup} {S : Type 0} (api : StartApi p S) (crds : List (Crd p)) where
  differs-NotStart :
      (b : Bool) (crd : Crd p)
      → Logs NotStart (if b then pure tt else send (update_crd crd) (api.put_crd crd))
  differs-NotStart true crd = λ s. tt
  differs-NotStart false crd = λ s. (tt, tt)

  update-NotStart :
      (crd : Crd p) (x : Result ApiError (Crd p)) → Logs NotStart (update_if_differs api crd x)
  update-NotStart crd (ok d) =
      differs-NotStart (api.same_spec d.spec crd.spec) (record d { spec = crd.spec })
  update-NotStart crd (err e) = λ s. tt

  after_create-NotStart :
      (crd : Crd p) (x : Result ApiError (Unit {0})) → Logs NotStart (after_create api crd x)
  after_create-NotStart crd (ok u) = λ s. tt
  after_create-NotStart crd (err not_found) = λ s. tt
  after_create-NotStart crd (err already_exists) =
      Logs->>= NotStart (ask (api.get_crd crd.name)) (update_if_differs api crd) (λ s. tt)
        (update-NotStart crd)
  after_create-NotStart crd (err (other_error e)) = λ s. tt

  check_last-NotStart : (crd : Crd p) (x : Option (Crd p)) → Logs NotStart (check_last api crd x)
  check_last-NotStart crd (some last) = λ s. tt
  check_last-NotStart crd none = λ s. tt

  register_and_await-NotStart : (crd : Crd p) → Logs NotStart (register_and_await api crd)
  unfolding register_crd await_crd
  register_and_await-NotStart crd =
      Logs->>= NotStart (register_crd api crd) (λ _. await_crd api crd)
        (Logs->>= NotStart (try_send (create_crd crd) (api.post_crd crd)) (after_create api crd)
          (λ s. (tt, tt)) (after_create-NotStart crd))
        (λ _.
          Logs->>= NotStart (send (watch_crd crd) (api.until crd.name is_crd_established))
            (check_last api crd) (λ s. (tt, tt)) (check_last-NotStart crd))

  pub register-NotStart : Logs NotStart (register_crds api crds)
  unfolding register_crds
  register-NotStart =
      Logs-for_each NotStart crds (register_and_await api) register_and_await-NotStart

  select-NotStart :
      (b : Bool) (rest : Starting p S Bool)
      → Logs NotStart rest
      → Logs NotStart (if b then is_ready api >>= unless_ready api rest else raise timed_out)
  unfolding is_ready
  select-NotStart true rest h =
      Logs->>= NotStart (is_ready api) (unless_ready api rest)
        (Logs->>= NotStart (send get_endpoints api.subsets) (λ n. pure (any_subset n))
          (λ s. (tt, tt)) (λ n s. tt))
        (λ b. elim b as (λ c. Logs NotStart (unless_ready api rest c)) [
          | true ↦ λ s. tt
          | false ↦ h
        ])
  select-NotStart false rest h = λ s. tt

  pub wait-NotStart : (fuel : ℕ) → Logs NotStart (wait_ready api fuel)
  unfolding wait_ready
  wait-NotStart zero = λ s. tt
  wait-NotStart (suc fuel) =
      Logs->>= NotStart (ask api.until_tick) (select api (wait_ready api fuel)) (λ s. tt)
        (λ delay.
          select-NotStart (ltb delay wh_ready_timeout) (wait_ready api fuel) (wait-NotStart fuel))

  unless-NotStart :
      (k : Resources) (r : Resource p) (from : Option Text)
      → Logs NotStart (convert_unless api k r from)
  unless-NotStart k r (some from) = λ s. tt
  unless-NotStart k r none = λ s. (tt, tt)

  listed-NotStart :
      (k : Resources) (i : ℕ) (crd : Crd p) (x : Result ApiError (List (Resource p)))
      → Logs NotStart (convert_listed api k i crd x)
  listed-NotStart k i crd (err e) = λ s. tt
  listed-NotStart k i crd (ok rs) =
      Logs->>= NotStart (for_each rs (convert_resource api k))
        (λ _. send (update_status (drop_version i crd)) (api.put_status (drop_version i crd)))
        (Logs-for_each NotStart rs (convert_resource api k)
          (λ r. unless-NotStart k r (lookup converted_from_annotation_key r.annotations)))
        (λ _ s. (tt, tt))

  stored-NotStart :
      (k : Resources) (crd : Crd p) (x : Option ℕ) → Logs NotStart (convert_stored api k crd x)
  stored-NotStart k crd none = λ s. tt
  stored-NotStart k crd (some i) =
      Logs->>= NotStart (ask (api.list k)) (convert_listed api k i crd) (λ s. tt)
        (listed-NotStart k i crd)

  crd-NotStart : (k : Resources) (x : Result ApiError (Crd p)) → Logs NotStart (convert_crd api k x)
  crd-NotStart k (err e) = λ s. tt
  crd-NotStart k (ok crd) = stored-NotStart k crd (index_from 0 none crd.stored_versions)

  kind-NotStart : (k : Resources) → Logs NotStart (convert_kind api k)
  unfolding convert_kind
  kind-NotStart k =
      Logs->>= NotStart (ask (api.get_crd (crd_name k))) (convert_crd api k) (λ s. tt)
        (crd-NotStart k)

  pub convert-NotStart : Logs NotStart (convert_resources api)
  unfolding convert_resources
  convert-NotStart =
      Logs->>= NotStart (convert_kind api clusters)
        (λ _. convert_kind api backups >> convert_kind api restores) (kind-NotStart clusters)
        (λ _.
          Logs->>= NotStart (convert_kind api backups) (λ _. convert_kind api restores)
            (kind-NotStart backups) (λ _. kind-NotStart restores))
