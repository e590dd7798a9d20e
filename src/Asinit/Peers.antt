-- ===== src/Asinit/Peers.antt =====
-- The peers that the reconciler gives to asinit are those that it finds.
use aerospike_operator.Prelude.{
  ◌≡◌, refl, ap, ◌∙◌, Bool, true, false, List, [], ◌∷◌, ◌++◌, Text, text_eq, ℕ, ◌==◌, ◌||◌,
  if◌then◌else◌, All, arith,
}
use aerospike_operator.Api.{AerospikeCluster}
use aerospike_operator.Pods.Platform.{Platform, Pod}
use aerospike_operator.Pods.Durations.{has_byte}
use aerospike_operator.Pods.Spec.{join, other_hosts, blanks, peer_list}
use aerospike_operator.Pods.Delete.{host_of}
use aerospike_operator.Asinit.{pieces, without_empty, fields}

or_false : (a b : Bool) → (a || b) ≡ false → (a ≡ false) × (b ≡ false)
or_false false b h = (refl, h)
or_false true b h = absurd (cc)

same_byte : (c : ℕ) → (c == c) ≡ true
same_byte c = ground arith

module _ (sep : ℕ) where
  pub pieces-last : (w : Text) → has_byte sep w ≡ false → pieces sep w ≡ w ∷ []
  unfolding pieces has_byte
  pieces-last [] h = refl
  pieces-last (c ∷ w) h =
      let (differs, later) = or_false (c == sep) (has_byte sep w) h in
      rw (differs, pieces-last w later) refl

  pub pieces-append :
      (w rest : Text) → has_byte sep w ≡ false → pieces sep (w ++ sep ∷ rest) ≡ w ∷ pieces sep rest
  unfolding pieces has_byte
  pieces-append [] rest h = rw (same_byte sep) refl
  pieces-append (c ∷ w) rest h =
      let (differs, later) = or_false (c == sep) (has_byte sep w) h in
      rw (differs, pieces-append w rest later) refl

  abbrev pub Lacking : List Text → Type 0
  Lacking l = All (λ w. has_byte sep w ≡ false) l

  pieces-join : (w : Text) (l : List Text) → Lacking (w ∷ l) → pieces sep (join sep (w ∷ l)) ≡ w ∷ l
  unfolding join
  pieces-join w [] (h, rest) = pieces-last w h
  pieces-join w (v ∷ l) (h, rest) =
      pieces-append w (join sep (v ∷ l)) h ∙ ap (λ x. w ∷ x) (pieces-join v l rest)

  fields-join : (l : List Text) → Lacking l → fields sep (join sep l) ≡ without_empty l
  unfolding fields pieces join without_empty
  fields-join [] h = refl
  fields-join (w ∷ l) h = ap without_empty (pieces-join w l h)

module _ {p : Platform} (cluster : AerospikeCluster p.kube) where
  -- The pods whose hosts have no comma.
  abbrev pub Plain : List (Pod p) → Type 0
  Plain pods = All (λ (pod : Pod p). has_byte b',' (host_of cluster pod.name) ≡ false) pods

  without_empty-other_hosts :
      (name : Text) (pods : List (Pod p))
      → without_empty (other_hosts cluster name pods) ≡ other_hosts cluster name pods
  unfolding other_hosts host_of without_empty
  without_empty-other_hosts name [] = refl
  without_empty-other_hosts name (pod ∷ pods) =
      one (text_eq name pod.name) (without_empty-other_hosts name pods)
    where
      full :
          (a b : Text) (l : List Text)
          → without_empty ((a ++ b'.' ∷ b) ∷ l) ≡ (a ++ b'.' ∷ b) ∷ without_empty l
      full [] b l = refl
      full (c ∷ a) b l = refl

      one :
          (b : Bool)
          → without_empty (other_hosts cluster name pods) ≡ other_hosts cluster name pods
          → without_empty (
              if b
              then other_hosts cluster name pods
              else host_of cluster pod.name ∷ other_hosts cluster name pods)
            ≡ (if b
                then other_hosts cluster name pods
                else host_of cluster pod.name ∷ other_hosts cluster name pods)
      one true later = later
      one false later =
          full pod.name (cluster.name ++ b'.' ∷ cluster.namespace) (other_hosts cluster name pods)
          ∙ ap (λ l. host_of cluster pod.name ∷ l) later

  blanks-Lacking :
      (pods : List (Pod p)) (l : List Text) → Lacking b',' l → Lacking b',' (blanks pods ++ l)
  unfolding blanks has_byte
  blanks-Lacking [] l h = h
  blanks-Lacking (pod ∷ pods) l h = (refl, blanks-Lacking pods l h)

  hosts-Lacking :
      (name : Text) (pods : List (Pod p))
      → Plain pods
      → Lacking b',' (other_hosts cluster name pods)
  unfolding other_hosts
  hosts-Lacking name [] h = tt
  hosts-Lacking name (pod ∷ pods) (h, rest) =
      one (text_eq name pod.name) (hosts-Lacking name pods rest)
    where
      one :
          (b : Bool)
          → Lacking b',' (other_hosts cluster name pods)
          → Lacking b',' (
              if b
              then other_hosts cluster name pods
              else host_of cluster pod.name ∷ other_hosts cluster name pods)
      one true later = later
      one false later = (h, later)

  without_empty-blanks :
      (pods : List (Pod p)) (l : List Text) → without_empty (blanks pods ++ l) ≡ without_empty l
  unfolding blanks without_empty
  without_empty-blanks [] l = refl
  without_empty-blanks (pod ∷ pods) l = without_empty-blanks pods l

  -- Where no host of a pod has a comma, the fields that asinit finds in the list of peers are the hosts of the other
  -- pods, in order, in spite of the empty strings in front of the list.
  pub fields-peer_list :
      (name : Text) (pods : List (Pod p))
      → Plain pods
      → fields b',' (peer_list cluster name pods) ≡ other_hosts cluster name pods
  unfolding peer_list
  fields-peer_list name pods h =
      fields-join b',' (blanks pods ++ other_hosts cluster name pods)
        (blanks-Lacking pods (other_hosts cluster name pods) (hosts-Lacking name pods h))
      ∙ without_empty-blanks pods (other_hosts cluster name pods)
      ∙ without_empty-other_hosts name pods
