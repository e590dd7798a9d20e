-- ===== src/Reconciler/Network.antt =====
-- pkg/reconciler/service.go and networkpolicy.go: the service of a cluster, and who may connect to its pods.
-- The references to the owner are left out.
use aerospike_operator.Prelude.{ℕ, List, [], ◌∷◌, Text, codes, Result, ok, err}
use aerospike_operator.Action.{Action, request, attempt, pure, raise, ◌>>=◌}
use aerospike_operator.Api.{
  AerospikeCluster, Kube, ApiError, not_found, already_exists, other_error,
}
use aerospike_operator.Pods.Platform.{label_app_key, label_app_val, label_cluster_key}

abbrev pub service_port : ℕ
service_port = 3000

abbrev pub fabric_port : ℕ
fabric_port = 3001

abbrev pub heartbeat_port_number : ℕ
heartbeat_port_number = 3002

abbrev pub info_port : ℕ
info_port = 3003

abbrev pub asprom_port : ℕ
asprom_port = 9145

pub data Protocol : Type 0 where
  tcp udp : Protocol

-- A selector by labels. No peers are all peers.
pub record Rule : Type 0 where
  pub peers : List (List (Text × Text))
  pub ports : List (Protocol × ℕ)

pub record NetworkPolicy : Type 0 where
  pub name : Text
  pub namespace : Text
  pub labels : List (Text × Text)
  pub pod_selector : List (Text × Text)
  pub ingress : List Rule
  pub egress : List Rule

pub record Service : Type 0 where
  pub name : Text
  pub namespace : Text
  pub labels : List (Text × Text)
  pub selector : List (Text × Text)
  pub ports : List (Text × ℕ)
  pub cluster_ip : Text

module _ {k : Kube} (cluster : AerospikeCluster k) where
  abbrev pub cluster_labels : List (Text × Text)
  cluster_labels = (label_app_key, label_app_val) ∷ (label_cluster_key, cluster.name) ∷ []

  abbrev pub between_pods : Rule
  between_pods = record {
    peers = cluster_labels ∷ [];
    ports = (tcp, fabric_port) ∷ (tcp, heartbeat_port_number) ∷ [];
  }

  abbrev pub open_ports : Rule
  open_ports = record {
    peers = [];
    ports = (tcp, service_port) ∷ (tcp, info_port) ∷ (tcp, asprom_port) ∷ [];
  }

  abbrev pub name_lookup : Rule
  name_lookup = record { peers = []; ports = (tcp, 53) ∷ (udp, 53) ∷ [] }

  abbrev pub policy_of : NetworkPolicy
  policy_of = record {
    name = cluster.name;
    namespace = cluster.namespace;
    labels = cluster_labels;
    pod_selector = cluster_labels;
    ingress = between_pods ∷ open_ports ∷ [];
    egress = between_pods ∷ name_lookup ∷ [];
  }

  abbrev pub service_of : Service
  service_of = record {
    name = cluster.name;
    namespace = cluster.namespace;
    labels = cluster_labels;
    selector = cluster_labels;
    ports =
        (codes "service", service_port)
        ∷ (codes "heartbeat", heartbeat_port_number)
        ∷ (codes "prometheus", asprom_port)
        ∷ [];
    cluster_ip = codes "None";
  }

-- What is there already is kept as it is.
abbrev pub unless_exists :
    {S W : Type 0} → Result ApiError (Unit {0}) → Action S W ApiError (Unit {0})
unless_exists (ok u) = pure tt
unless_exists (err already_exists) = pure tt
unless_exists (err not_found) = raise not_found
unless_exists (err (other_error e)) = raise (other_error e)

pub data NetworkEffect : Type 0 where
  create_service : Service → NetworkEffect
  create_policy : NetworkPolicy → NetworkEffect

module _ {S : Type 0} {k : Kube} where
  unfoldable pub ensure_service :
      (Service → S → Result ApiError (Unit {0}) × S)
      → AerospikeCluster k
      → Action S NetworkEffect ApiError (Unit {0})
  ensure_service post cluster =
      attempt (request (create_service (service_of cluster)) (post (service_of cluster)))
      >>= unless_exists

  unfoldable pub ensure_network_policy :
      (NetworkPolicy → S → Result ApiError (Unit {0}) × S)
      → AerospikeCluster k
      → Action S NetworkEffect ApiError (Unit {0})
  ensure_network_policy post cluster =
      attempt (request (create_policy (policy_of cluster)) (post (policy_of cluster)))
      >>= unless_exists
