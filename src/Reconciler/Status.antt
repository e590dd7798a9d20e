-- ===== src/Reconciler/Status.antt =====
-- pkg/reconciler/status.go: conditions, annotations, and the patch of the resource.
use aerospike_operator.Prelude.{
  Option, [], ◌∷◌, ◌++◌, Text, codes, ℕ_discrete, Result, ok, err, deep_equal, if◌then◌else◌,
}
use aerospike_operator.Prelude.Dict
use aerospike_operator.Run.{pure, request, ◌>>=◌}
use aerospike_operator.Api.{
  Kube, ConditionType, condition_true, AerospikeClusterStatus, AerospikeCluster, ApiError,
}
use aerospike_operator.Reconciler.Types.{
  patch, update_status, ReconcileError, api_error, Reconcile, Server,
}

abbrev pub upgrade_status_annotation_key : Text
upgrade_status_annotation_key = codes "aerospike.travelaudience.com/upgrade-status"

-- The values of the annotation.
abbrev pub started_value : Text
started_value = codes "started"

abbrev pub failed_value : Text
failed_value = codes "failed"

abbrev pub backup_value : Text
backup_value = codes "backup"

unfoldable pub AerospikeClusterStatus-discrete : {k : Kube} → Discrete (AerospikeClusterStatus k)
unfolding ℕ_discrete
AerospikeClusterStatus-discrete {k} =
    hlevel (ℕ_discrete, k.resources_discrete, k.toleration_discrete)

unfoldable pub AerospikeCluster-discrete : {k : Kube} → Discrete (AerospikeCluster k)
unfolding ℕ_discrete
AerospikeCluster-discrete {k} = hlevel (ℕ_discrete, k.resources_discrete, k.toleration_discrete)

abbrev pub api : {A : Type 0} → Result ApiError A → Result ReconcileError A
api (ok a) = ok a
api (err e) = err (api_error e)

module _ {k : Kube} where
  abbrev pub append_condition : AerospikeCluster k → ConditionType → AerospikeCluster k
  append_condition cluster type = record cluster {
    status = record cluster.status {
      conditions =
          cluster.status.conditions ++ record { type = type; status = condition_true } ∷ [];
    };
  }

  abbrev pub set_annotation : AerospikeCluster k → Text → Text → AerospikeCluster k
  set_annotation cluster key value = record cluster {
    annotations = Dict.insert key value cluster.annotations;
  }

  abbrev pub remove_annotation : AerospikeCluster k → Text → AerospikeCluster k
  remove_annotation cluster key = record cluster {
    annotations = Dict.remove key cluster.annotations;
  }

  -- The upgrade status that the annotations of a cluster show.
  abbrev pub upgrade_status : AerospikeCluster k → Option Text
  upgrade_status cluster = Dict.lookup upgrade_status_annotation_key cluster.annotations

  -- updateStatus: the status takes over the four fields of the spec.
  unfoldable pub with_spec_status : AerospikeCluster k → AerospikeCluster k
  with_spec_status cluster = record cluster {
    status = record cluster.status {
      spec = record cluster.status.spec {
        backup_spec = cluster.spec.backup_spec;
        namespaces = cluster.spec.namespaces;
        node_count = cluster.spec.node_count;
        version = cluster.spec.version;
      };
    };
  }

  module _ (server : Server k) where
    -- The comparison is of the modelled fields: a status that differs from the new one in the time, the
    -- reason or the message of a condition alone is not sent here, where the code sends it.
    unfoldable pub sync_status : AerospikeCluster k → AerospikeCluster k → Reconcile k (Unit {0})
    sync_status stored new =
        if deep_equal AerospikeClusterStatus-discrete stored.status new.status
        then pure tt
        else let object = record stored { status = new.status } in
          request (update_status object) (api (server.update_status_answer object))

    -- Nothing is sent where nothing changed. The status is a subresource: if the answer to the patch
    -- does not have the new status, a second request sets it.
    unfoldable pub patch_cluster : AerospikeCluster k → AerospikeCluster k → Reconcile k (Unit {0})
    patch_cluster old new = if deep_equal AerospikeCluster-discrete old new then pure tt else do
      stored ← request (patch new) (api (server.patch_answer old new))
      sync_status stored new
