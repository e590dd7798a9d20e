-- ===== src/Startup/Registry.antt =====
-- pkg/crd/registry.go: the definitions of the custom resources are created or updated, and awaited.
use aerospike_operator.Prelude.{
  Bool, false, ◌&&◌, ◌||◌, Option, none, some, List, [], ◌∷◌, Result, ok, err, if◌then◌else◌,
}
use aerospike_operator.Action.{pure, raise, ask, for_each, ◌>>=◌, ◌>>◌}
use aerospike_operator.Api.{ApiError, not_found, already_exists, other_error}
use aerospike_operator.Startup.Platform.{
  Startup, Crd, Condition, create_crd, update_crd, watch_crd, api_error, no_events, StartApi,
  Starting, send, try_send,
}

unfoldable pub any_established : List Condition → Bool
any_established [] = false
any_established (c ∷ cs) = (c.established && c.is_true) || any_established cs

module _ {p : Startup} where
  abbrev pub is_crd_established : Crd p → Bool
  is_crd_established crd = any_established crd.conditions

  module _ {S : Type 0} (api : StartApi p S) where
    -- An error of Get is not returned.
    abbrev pub update_if_differs : Crd p → Result ApiError (Crd p) → Starting p S (Unit {0})
    update_if_differs crd (err e) = pure tt
    update_if_differs crd (ok d) =
        if api.same_spec d.spec crd.spec
        then pure tt
        else send (update_crd (record d { spec = crd.spec }))
            (api.put_crd (record d { spec = crd.spec }))

    abbrev pub after_create : Crd p → Result ApiError (Unit {0}) → Starting p S (Unit {0})
    after_create crd (ok u) = pure tt
    after_create crd (err not_found) = raise (api_error not_found)
    after_create crd (err already_exists) = ask (api.get_crd crd.name) >>= update_if_differs crd
    after_create crd (err (other_error e)) = raise (api_error (other_error e))

    unfoldable pub register_crd : Crd p → Starting p S (Unit {0})
    register_crd crd = try_send (create_crd crd) (api.post_crd crd) >>= after_create crd

    abbrev pub check_last : Crd p → Option (Crd p) → Starting p S (Unit {0})
    check_last crd (some last) = pure tt
    check_last crd none = raise (no_events crd.name)

    unfoldable pub await_crd : Crd p → Starting p S (Unit {0})
    await_crd crd = send (watch_crd crd) (api.until crd.name is_crd_established) >>= check_last crd

    abbrev pub register_and_await : Crd p → Starting p S (Unit {0})
    register_and_await crd = register_crd crd >> await_crd crd

    -- `crds` are those of crds.go.
    unfoldable pub register_crds : List (Crd p) → Starting p S (Unit {0})
    register_crds crds = for_each crds register_and_await
