-- ===== src/Reconciler/Reach.antt =====
-- pkg/reconciler: who reaches the pods that ensurePods creates, where the network policy of the cluster
-- (networkpolicy.go) is in force.
use aerospike_operator.Prelude.{
  ◌≡◌, refl, sym, subst, ◌↔◌, ◌⊎◌, inl, arith, ℕ, ◌==◌, Bool, true, false, ◌&&◌, ◌||◌, Option, none,
  some, List, [], ◌∷◌, Text, text_eq, text_eq_refl, Occurs,
}
use aerospike_operator.Prelude.Dict.{lookup}
use aerospike_operator.Api.{AerospikeCluster, Kube}
use aerospike_operator.Versioning.Upgrade.{VersionUpgrade}
use aerospike_operator.Reconciler.Types.{ConfigMap}
use aerospike_operator.Pods.Platform.{Platform, Pod}
use aerospike_operator.Pods.Api.{Api, create_pod}
use aerospike_operator.Pods.Ensure.{ensure_pods}
use aerospike_operator.Pods.SafeEnsure.{ensure_pods-creates}
use aerospike_operator.Reconciler.Network.{
  Protocol, tcp, udp, Rule, cluster_labels, policy_of, service_of,
}

abbrev same_protocol : Protocol → Protocol → Bool
same_protocol tcp tcp = true
same_protocol udp udp = true
same_protocol _ _ = false

abbrev has_value : Text → Option Text → Bool
has_value v none = false
has_value v (some w) = text_eq w v

-- How Kubernetes reads a selector and a policy: all labels of the selector are there; one of the rules has
-- the peer, or names no peers, and has the port.
unfoldable pub selects : List (Text × Text) → List (Text × Text) → Bool
selects [] labels = true
selects ((key, v) ∷ rest) labels = has_value v (lookup key labels) && selects rest labels

abbrev any_peer : List (List (Text × Text)) → List (Text × Text) → Bool
any_peer [] labels = false
any_peer (peer ∷ rest) labels = selects peer labels || any_peer rest labels

abbrev has_peer : List (List (Text × Text)) → List (Text × Text) → Bool
has_peer [] labels = true
has_peer (peer ∷ rest) labels = any_peer (peer ∷ rest) labels

abbrev has_port : List (Protocol × ℕ) → Protocol → ℕ → Bool
has_port [] protocol port = false
has_port ((q, n) ∷ rest) protocol port =
    (same_protocol q protocol && n == port) || has_port rest protocol port

unfoldable pub admits : List Rule → List (Text × Text) → Protocol → ℕ → Bool
admits [] labels protocol port = false
admits (r ∷ rest) labels protocol port =
    (has_peer r.peers labels && has_port r.ports protocol port) || admits rest labels protocol port

tcp_ports :
    (b : Bool) (port : ℕ)
    → ((((b || false) && ((3001 == port) || ((3002 == port) || false)))
          || ((((3000 == port) || ((3003 == port) || ((9145 == port) || false)))) || false))
        ≡ true)
      ↔ (((b ≡ true) × ((port ≡ 3001) ⊎ (port ≡ 3002)))
          ⊎ ((port ≡ 3000) ⊎ (port ≡ 3003) ⊎ (port ≡ 9145)))
tcp_ports b port = (λ h. ground arith, λ h. ground arith)

module _ {k : Kube} (cluster : AerospikeCluster k) where
  -- The pods of the cluster are selected by its labels.
  labels-selected : selects (cluster_labels cluster) (cluster_labels cluster) ≡ true
  unfolding selects lookup text_eq
  labels-selected = rw (text_eq_refl cluster.name) refl

  -- Whoever connects, by TCP, the ports 3000, 3003 and 9145 are open, and 3001 and 3002 to pods of the cluster.
  abbrev pub MayConnect : List (Text × Text) → Protocol → ℕ → Type 0
  MayConnect labels protocol port =
      (protocol ≡ tcp)
      × (((selects (cluster_labels cluster) labels ≡ true) × ((port ≡ 3001) ⊎ (port ≡ 3002)))
          ⊎ ((port ≡ 3000) ⊎ (port ≡ 3003) ⊎ (port ≡ 9145)))

  ingress_iff :
      (labels : List (Text × Text)) (protocol : Protocol) (port : ℕ)
      → (admits (policy_of cluster).ingress labels protocol port ≡ true)
        ↔ MayConnect labels protocol port
  unfolding admits
  ingress_iff labels tcp port =
      let (to, from) = tcp_ports (selects (cluster_labels cluster) labels) port in
      (λ h. (refl, to h), λ h. from h.1)
  ingress_iff labels udp port = (λ h. absurd (ground arith), λ h. absurd (cc))

  egress-between :
      (labels : List (Text × Text)) (port : ℕ)
      → selects (cluster_labels cluster) labels ≡ true
      → (port ≡ 3001) ⊎ (port ≡ 3002)
      → admits (policy_of cluster).egress labels tcp port ≡ true
  unfolding admits
  egress-between labels port selected between = ground arith

  -- The service and the policy select the pod; connections to it are admitted as MayConnect says; and it
  -- may connect to the ports 3001 and 3002 of a pod like itself.
  abbrev pub IsReached : List (Text × Text) → Type 0
  IsReached labels =
      (selects (service_of cluster).selector labels ≡ true)
      × (selects (policy_of cluster).pod_selector labels ≡ true)
      × ((source : List (Text × Text)) (protocol : Protocol) (port : ℕ)
          → (admits (policy_of cluster).ingress source protocol port ≡ true)
            ↔ MayConnect source protocol port)
      × ((port : ℕ)
          → (port ≡ 3001) ⊎ (port ≡ 3002)
          → (admits (policy_of cluster).egress labels tcp port ≡ true)
            × (admits (policy_of cluster).ingress labels tcp port ≡ true))

  labels-IsReached : IsReached (cluster_labels cluster)
  labels-IsReached = (
    labels-selected,
    labels-selected,
    ingress_iff,
    λ port between. (
      egress-between (cluster_labels cluster) port labels-selected between,
      (ingress_iff (cluster_labels cluster) tcp port).1 (refl, inl (labels-selected, between)),
    ),
  )

module _ {p : Platform} {S : Type 0} (api : Api p S) (cluster : AerospikeCluster p.kube)
    (config_map : ConfigMap) where
  -- With selectors and policies read as Kubernetes documents them, the service and the policy of the cluster
  -- select every pod that ensurePods creates; the policy admits to it, by TCP, everyone on the ports 3000,
  -- 3003 and 9145, the pods of the cluster on 3001 and 3002 too, and nothing else; and it lets the pods of
  -- the cluster connect to each other on 3001 and 3002.
  pub ensure_pods-IsReached :
      (upgrade : Option VersionUpgrade) (s : S) (pod : Pod p)
      → Occurs (create_pod pod) (ensure_pods api cluster config_map upgrade s).1.0
      → IsReached cluster pod.labels
  ensure_pods-IsReached upgrade s pod o =
      let (i, within, ((named, space, labels, hash, image), storage)) =
        ensure_pods-creates cluster config_map api upgrade s pod o in
      subst (IsReached cluster) (sym labels) (labels-IsReached cluster)
