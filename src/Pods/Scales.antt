-- ===== src/Pods/Scales.antt =====
-- pkg/reconciler/pod.go: ensurePods brings the cluster from one number of pods to another.
use aerospike_operator.Prelude.{
  ◌≡◌, ◌≢◌, refl, sym, subst, ap, ◌∙◌, ℕ, zero, suc, ◌≤◌, ltb, leb, arith, ℕ_discrete, Bool, true,
  false, ◌||◌, Option, some-injective, List, [], ◌∷◌, ◌++◌, length, Text, Result, ok, ℤ, pos,
  if◌then◌else◌,
}
use aerospike_operator.Prelude.Decimal.{parse_ℕ, print_ℕ, print_ℤ}
use aerospike_operator.Prelude.Decimal.RoundTrip.{parse_ℕ-print_ℕ}
use aerospike_operator.Action.{for_each, ◌>>◌}
use aerospike_operator.Action.Returns.{Ends, >>=-ends, for_each-snoc}
use aerospike_operator.Api.{AerospikeCluster, Kube}
use aerospike_operator.Versioning.Upgrade.{VersionUpgrade}
use aerospike_operator.Reconciler.Types.{ConfigMap}
use aerospike_operator.Pods.Platform.{Platform, Pod}
use aerospike_operator.Pods.Api.{Api, Effect, PodError}
use aerospike_operator.Pods.Delete.{pod_name_at, list_cluster_pods, safe_delete_pod_with_index}
use aerospike_operator.Pods.Ensure.{down_to, surplus, up_to, wanted, ensure_pod, ensure_pods}
use aerospike_operator.Pods.Views.{Store, Only}
use aerospike_operator.Pods.Removes.{list_cluster_pods-Still, safe_delete_pod_with_index-Only}
use aerospike_operator.Pods.Keeps.{ensure_pod-Only}

drop_prefix : (xs ys zs : Text) → xs ++ ys ≡ xs ++ zs → ys ≡ zs
drop_prefix [] ys zs e = e
drop_prefix (x ∷ xs) ys zs e = drop_prefix xs ys zs (cc)

tail_of : {x : ℕ} {ys zs : Text} → x ∷ ys ≡ x ∷ zs → ys ≡ zs
tail_of e = cc

-- Two indices have two names.
pod_name_at-injective :
    {k : Kube} (cluster : AerospikeCluster k) (i j : ℕ)
    → pod_name_at cluster (pos i) ≡ pod_name_at cluster (pos j)
    → i ≡ j
unfolding pod_name_at print_ℤ
pod_name_at-injective cluster i j e =
    let same : print_ℕ i ≡ print_ℕ j =
      tail_of (drop_prefix cluster.name (b'-' ∷ print_ℕ i) (b'-' ∷ print_ℕ j) e) in
    some-injective (sym (parse_ℕ-print_ℕ i) ∙ ap parse_ℕ same ∙ parse_ℕ-print_ℕ j)

irreflexive : (i : ℕ) → false ≡ ltb i i
irreflexive i = ground arith

or_below : (b : Bool) (i : ℕ) → true ≡ (b || ltb i (suc i))
or_below b i = ground arith

or_none : (b : Bool) (j : ℕ) → b ≡ (b || ltb j 0)
or_none b j = ground arith

or_fewer : (j m k : ℕ) → m ≤ k → (ltb j m || ltb j k) ≡ ltb j k
or_fewer j m k few = ground arith

down_at : (i j : ℕ) (b : Bool) → j ≢ i → b ≡ ltb j (suc i) → b ≡ ltb j i
down_at i j b d e = ground arith

up_at : (i j : ℕ) (b c : Bool) → j ≢ i → b ≡ (c || ltb j i) → b ≡ (c || ltb j (suc i))
up_at i j b c d e = ground arith

module _ {p : Platform} {S : Type 0} {api : Api p S} (cluster : AerospikeCluster p.kube)
    (store : Store api cluster.namespace) where
  abbrev name_at : ℕ → Text
  name_at j = pod_name_at cluster (pos j)

  -- The pods of the cluster are those of the indices below this number.
  abbrev pub HasPods : ℕ → S → Type 0
  HasPods n s = (j : ℕ) → store.view s (name_at j) ≡ ltb j n

  other_name : (i j : ℕ) → j ≢ i → name_at j ≢ name_at i
  other_name i j d e = d (pod_name_at-injective cluster j i e)

  -- The pod of the highest index is gone.
  one_less : (i : ℕ) (s t : S) → HasPods (suc i) s → Only store (name_at i) false s t → HasPods i t
  one_less i s t has (at, others) j = elim (ℕ_discrete j i) [
    | yes e ↦ subst (λ k. store.view t (name_at k) ≡ ltb k i) (sym e) (at ∙ irreflexive i)
    | no d ↦ down_at i j _ d (others (name_at j) (other_name i j d) ∙ has j)
  ]

  module _ (config_map : ConfigMap) (upgrade : Option VersionUpgrade) where
    abbrev removes : List ℤ → S → Result PodError (Unit {0}) × (List (Effect p) × S)
    removes l s = for_each l (safe_delete_pod_with_index api cluster) s

    abbrev LeavesAtMost : ℕ → List ℤ → S → Type 0
    LeavesAtMost k l s = (m : ℕ) × (m ≤ k) × HasPods m (removes l s).1.1

    down_from :
        (i k : ℕ) (b : Bool) (rest : List ℤ) (s : S)
        → leb k i ≡ b
        → HasPods (suc i) s
        → ((t : S) → HasPods i t → (removes rest t).0 ≡ ok tt → LeavesAtMost k rest t)
        → (removes (if b then pos i ∷ rest else []) s).0 ≡ ok tt
        → LeavesAtMost k (if b then pos i ∷ rest else []) s
    unfolding for_each Ends
    down_from i k true rest s b has later e =
        let (u, one, two, same) =
          >>=-ends (safe_delete_pod_with_index api cluster (pos i))
            (λ _. for_each rest (safe_delete_pod_with_index api cluster)) s tt e in
        let t = (safe_delete_pod_with_index api cluster (pos i) s).1.1 in
        let (m, few, left) =
          later t
            (one_less i s t has (safe_delete_pod_with_index-Only cluster store (pos i) s u one))
            two in
        (m, few, subst (HasPods m) (sym same) left)
    down_from i k false rest s b has later e = (suc i, ground arith, has)

    -- Pods are removed from the highest index, down to the wanted number if there are more.
    down :
        (n k : ℕ) (s : S)
        → HasPods n s
        → (removes (down_to n k) s).0 ≡ ok tt
        → LeavesAtMost k (down_to n k) s
    unfolding down_to for_each
    down zero k s has e = (0, omega arith, has)
    down (suc i) k s has e = down_from i k (leb k i) (down_to i k) s refl has (down i k) e

    -- There is a pod of each index below one of the two numbers.
    abbrev HasEither : ℕ → ℕ → S → Type 0
    HasEither m k s = (j : ℕ) → store.view s (name_at j) ≡ (ltb j m || ltb j k)

    one_more :
        (m i : ℕ) (s t : S)
        → HasEither m i s
        → Only store (name_at i) true s t
        → HasEither m (suc i) t
    one_more m i s t has (at, others) j = elim (ℕ_discrete j i) [
      | yes e ↦
          subst (λ k. store.view t (name_at k) ≡ (ltb k m || ltb k (suc i))) (sym e)
            (at ∙ or_below (ltb i m) i)
      | no d ↦ up_at i j _ (ltb j m) d (others (name_at j) (other_name i j d) ∙ has j)
    ]

    -- Each index from the lowest gets a pod.
    up :
        (m k : ℕ) (s : S)
        → HasPods m s
        → (for_each (up_to k) (ensure_pod api cluster config_map upgrade) s).0 ≡ ok tt
        → HasEither m k (for_each (up_to k) (ensure_pod api cluster config_map upgrade) s).1.1
    unfolding up_to for_each Ends
    up m zero s has e = λ j. has j ∙ or_none (ltb j m) j
    up m (suc i) s has e =
        let (before, last, same) =
          for_each-snoc (up_to i) (pos i) (ensure_pod api cluster config_map upgrade) s e in
        let t = (for_each (up_to i) (ensure_pod api cluster config_map upgrade) s).1.1 in
        subst (HasEither m (suc i)) (sym same) (
          one_more m i t _ (up m i s has before)
            (ensure_pod-Only cluster store config_map upgrade (pos i) t tt last))

    abbrev removes_and_ensures : ℕ → ℤ → S → Result PodError (Unit {0}) × (List (Effect p) × S)
    removes_and_ensures n c s =
        (for_each (surplus n c) (safe_delete_pod_with_index api cluster)
            >> for_each (wanted c) (ensure_pod api cluster config_map upgrade))
          s

    scales :
        (n k : ℕ) (s : S)
        → HasPods n s
        → (removes_and_ensures n (pos k) s).0 ≡ ok tt
        → HasPods k (removes_and_ensures n (pos k) s).1.1
    unfolding surplus
    scales n k s has e =
        let (u, one, two, same) =
          >>=-ends (for_each (down_to n k) (safe_delete_pod_with_index api cluster))
            (λ _. for_each (up_to k) (ensure_pod api cluster config_map upgrade)) s tt e in
        let (m, few, left) = down n k s has one in
        let all = up m k (removes (down_to n k) s).1.1 left two in
        subst (HasPods k) (sym same) (λ j. all j ∙ or_fewer j m k few)

    -- On a store that keeps the pods whose creation it accepts until it accepts their removal, and that no one
    -- else changes: where the
    -- pods of the cluster are those of the first n indices, and the lister gives as many, ensurePods that
    -- returns without an error leaves the pods of exactly the first k indices, for the node count k.
    pub ensure_pods-HasPods :
        (n k : ℕ) (s : S)
        → cluster.spec.node_count ≡ pos k
        → HasPods n s
        → ((pods : List (Pod p)) → (list_cluster_pods api cluster s).0 ≡ ok pods → length pods ≡ n)
        → (ensure_pods api cluster config_map upgrade s).0 ≡ ok tt
        → HasPods k (ensure_pods api cluster config_map upgrade s).1.1
    unfolding ensure_pods Ends
    ensure_pods-HasPods n k s count has listed e =
        let (pods, got, rest, same) =
          >>=-ends (list_cluster_pods api cluster)
            (λ pods. removes_and_ensures (length pods) cluster.spec.node_count) s tt e in
        let t = (list_cluster_pods api cluster s).1.1 in
        let still = list_cluster_pods-Still cluster store s pods got in
        let has_still : HasPods n t = λ j. ap (λ v. v (name_at j)) still ∙ has j in
        subst (HasPods k) (sym same) (
          subst
            (λ c.
              (removes_and_ensures (length pods) c t).0 ≡ ok tt
              → HasPods k (removes_and_ensures (length pods) c t).1.1)
            (sym count)
            (subst
              (λ l.
                (removes_and_ensures l (pos k) t).0 ≡ ok tt
                → HasPods k (removes_and_ensures l (pos k) t).1.1)
              (sym (listed pods got)) (scales n k t has_still))
            rest)
