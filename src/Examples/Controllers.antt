-- ===== src/Examples/Controllers.antt =====
-- pkg/controller on a queue with a key that fails, and on a pod that a cluster controls.
use aerospike_operator.Prelude.{
  ◌<◌, ◌≡◌, refl, Option, none, some, List, [], ◌∷◌, ◌++◌, length, true, ◌&&◌, Text, codes, text_eq,
  ap, Result, ok, err, if◌then◌else◌, arith,
}
use aerospike_operator.Action.{pure}
use aerospike_operator.Asinit.{pieces}
use aerospike_operator.Api.{not_found}
use aerospike_operator.Controllers.Worker.{
  Item, key, other, Controller, added, process_next_work_item, run_worker,
}
use aerospike_operator.Controllers.Items.{HandlesOnce, process_next_work_item-once}
use aerospike_operator.Controllers.Shutdown.{Stopped, run_worker-stops}
use aerospike_operator.Controllers.Objects.{Kind, object, enqueue, handle_object}

-- The items that are left.
abbrev Left : Type 0
Left = List (Item Text)

abbrev take_item : Left → Option (Item Text) × Left
take_item [] = (none, [])
take_item (i ∷ s) = (some i, s)

-- The key `bad` fails.
abbrev worker : Controller Left Text Text Text
worker = record {
  get = take_item;
  sync_handler = λ k s. (if text_eq k (codes "bad") then err (codes "failed") else ok tt, ([], s));
}

abbrev three_items : Left
three_items = key (codes "bad") ∷ other (codes "odd") ∷ key (codes "prod/as-cluster") ∷ []

process_next_work_item-once_example :
    ((process_next_work_item worker three_items).0 ≡ ok true)
    × HandlesOnce worker
        (key (codes "bad"))
        (other (codes "odd") ∷ key (codes "prod/as-cluster") ∷ [])
        (process_next_work_item worker three_items).1.0
process_next_work_item-once_example =
    process_next_work_item-once worker (key (codes "bad")) three_items
      (other (codes "odd") ∷ key (codes "prod/as-cluster") ∷ []) refl

take_item-shorter : (i : Item Text) (s t : Left) → take_item s ≡ (some i, t) → length t < length s
take_item-shorter i [] t e = absurd (cc)
take_item-shorter i (j ∷ s) t e = omega (arith, ap (λ x. length x.1) e)

run_worker-stops_example : Stopped (run_worker worker 4 three_items)
run_worker-stops_example =
    run_worker-stops worker length take_item-shorter (λ k s. omega arith) 4 three_items
      (omega arith)

abbrev cluster_name : Text × Text
cluster_name = (codes "prod", codes "as-cluster")

abbrev split_at : List Text → Result Text (Text × Text)
split_at (namespace ∷ name ∷ []) = ok (namespace, name)
split_at _ = err (codes "unexpected key format")

-- There is one cluster, whose namespace and name stand for it. A pod is its namespace.
abbrev clusters : Kind (Unit {0}) Text Text Text (Text × Text)
clusters = record {
  kind = codes "AerospikeCluster";
  get = λ namespace name s. (
    if text_eq namespace cluster_name.0 && text_eq name cluster_name.1
        then ok cluster_name
        else err not_found,
    s,
  );
  handle = λ a. pure tt;
  namespace_of = λ o. o;
  resource_version = λ o. o;
  controller_of = λ o. some (record { kind = codes "AerospikeCluster"; name = codes "as-cluster" });
  key_of = λ a. ok (a.0 ++ b'/' ∷ a.1);
  split_key = λ k. split_at (pieces b'/' k);
}

-- The event puts the cluster's key on the queue.
enqueues :
    (handle_object clusters (object (codes "prod")) tt).1.0 ≡ added (codes "prod/as-cluster") ∷ []
unfolding handle_object enqueue text_eq
enqueues = refl
