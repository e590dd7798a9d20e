-- ===== src/Startup/Convert.antt =====
-- pkg/crd/converters/v1alpha2: what is stored as v1alpha1 is stored again as v1alpha2. The three kinds of
-- resource have one function each in the source, which differ in the kind only.
use aerospike_operator.Prelude.{
  ℕ, zero, suc, Option, none, some, List, [], ◌∷◌, Text, codes, text_eq, Result, ok, err,
  if◌then◌else◌,
}
use aerospike_operator.Prelude.Dict.{lookup, insert}
use aerospike_operator.Action.{pure, ask, for_each, ◌>>=◌, ◌>>◌}
use aerospike_operator.Api.{ApiError}
use aerospike_operator.Startup.Platform.{
  Startup, Resources, clusters, backups, restores, Resource, Crd, update_status, update_resource,
  StartApi, Starting, send,
}

abbrev pub converted_from_annotation_key : Text
converted_from_annotation_key = codes "aerospike.travelaudience.com/converted-from"

abbrev pub v1alpha1 : Text
v1alpha1 = codes "v1alpha1"

-- crd.AerospikeClusterCRDName and the names of the other two
abbrev pub crd_name : Resources → Text
crd_name clusters = codes "aerospikeclusters.aerospike.travelaudience.com"
crd_name backups = codes "aerospikenamespacebackups.aerospike.travelaudience.com"
crd_name restores = codes "aerospikenamespacerestores.aerospike.travelaudience.com"

-- `idx`: the loop goes on after a match, so that the last one counts.
unfoldable pub index_from : ℕ → Option ℕ → List Text → Option ℕ
index_from i idx [] = idx
index_from i idx (v ∷ vs) = index_from (suc i) (if text_eq v v1alpha1 then some i else idx) vs

-- `append(s[:idx], s[idx+1:]...)`
unfoldable pub without : ℕ → List Text → List Text
without i [] = []
without zero (v ∷ vs) = vs
without (suc i) (v ∷ vs) = v ∷ without i vs

module _ {p : Startup} where
  abbrev pub mark : Resource p → Resource p
  mark r = record r { annotations = insert converted_from_annotation_key v1alpha1 r.annotations }

  abbrev pub drop_version : ℕ → Crd p → Crd p
  drop_version i crd = record crd { stored_versions = without i crd.stored_versions }

  module _ {S : Type 0} (api : StartApi p S) (k : Resources) where
    abbrev pub convert_unless : Resource p → Option Text → Starting p S (Unit {0})
    convert_unless r (some from) = pure tt
    convert_unless r none = send (update_resource k (mark r)) (api.put_resource k (mark r))

    abbrev pub convert_resource : Resource p → Starting p S (Unit {0})
    convert_resource r = convert_unless r (lookup converted_from_annotation_key r.annotations)

    abbrev pub convert_listed :
        ℕ → Crd p → Result ApiError (List (Resource p)) → Starting p S (Unit {0})
    convert_listed i crd (err e) = pure tt
    convert_listed i crd (ok items) =
        for_each items convert_resource
        >> send (update_status (drop_version i crd)) (api.put_status (drop_version i crd))

    abbrev pub convert_stored : Crd p → Option ℕ → Starting p S (Unit {0})
    convert_stored crd none = pure tt
    convert_stored crd (some i) = ask (api.list k) >>= convert_listed i crd

    -- An error of Get or List is not returned.
    abbrev pub convert_crd : Result ApiError (Crd p) → Starting p S (Unit {0})
    convert_crd (err e) = pure tt
    convert_crd (ok crd) = convert_stored crd (index_from 0 none crd.stored_versions)

    unfoldable pub convert_kind : Starting p S (Unit {0})
    convert_kind = ask (api.get_crd (crd_name k)) >>= convert_crd

  unfoldable pub convert_resources : {S : Type 0} → StartApi p S → Starting p S (Unit {0})
  convert_resources api = do
    convert_kind api clusters
    convert_kind api backups
    convert_kind api restores
