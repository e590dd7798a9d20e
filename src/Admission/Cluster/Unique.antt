-- ===== src/Admission/Cluster/Unique.antt =====
-- The map of namespaces has as many entries as the list only if the names are unique.
use aerospike_operator.Prelude.{
  if◌then◌else◌, ◌+◌, ◌≤◌, ◌≡◌, ◌≢◌, ◌↔◌, refl, false, ◌||◌, some, List, [], ◌∷◌, Text, text_eq,
  text_eq_iff, arith, length, All, Bool-cases, inl, inr,
}
use aerospike_operator.Api.{AerospikeNamespaceSpec}
use aerospike_operator.Admission.Cluster.Maps.{
  NamespaceMap, lookup, insert, fill, namespace_map, has_key,
}

-- No two namespaces share a name.
abbrev pub Unique : List AerospikeNamespaceSpec → Type 0
Unique [] = Unit
Unique (ns ∷ rest) = All (λ other. other.name ≢ ns.name) rest × Unique rest

pub lookup-insert :
    (k j : Text) (ns : AerospikeNamespaceSpec) (m : NamespaceMap)
    → lookup j (insert k ns m) ≡ (if text_eq k j then some ns else lookup j m)
unfolding lookup insert
lookup-insert k j ns [] = refl
lookup-insert k j ns ((i, other) ∷ m) =
    ground (arith, text_eq_iff k j, text_eq_iff i k, text_eq_iff i j, lookup-insert k j ns m)

has_key-insert :
    (k j : Text) (ns : AerospikeNamespaceSpec) (m : NamespaceMap)
    → has_key j (insert k ns m) ≡ (text_eq k j || has_key j m)
unfolding has_key
has_key-insert k j ns m = ground (arith, lookup-insert k j ns m)

length-insert :
    (k : Text) (ns : AerospikeNamespaceSpec) (m : NamespaceMap)
    → length (insert k ns m) ≡ (if has_key k m then length m else length m + 1)
unfolding insert has_key
length-insert k ns [] = omega arith
length-insert k ns ((i, other) ∷ m) = ground (arith, length-insert k ns m)

-- Each name is new when it is inserted.
abbrev Fresh : NamespaceMap → List AerospikeNamespaceSpec → Type 0
Fresh m [] = Unit
Fresh m (ns ∷ rest) = (has_key ns.name m ≡ false) × Fresh (insert ns.name ns m) rest

length-fill-le :
    (m : NamespaceMap) (l : List AerospikeNamespaceSpec) → length (fill m l) ≤ length m + length l
unfolding fill
length-fill-le m [] = omega arith
length-fill-le m (ns ∷ rest) =
    ground (arith, length-insert ns.name ns m, length-fill-le (insert ns.name ns m) rest)

length-fill-Fresh :
    (m : NamespaceMap) (l : List AerospikeNamespaceSpec)
    → length m + length l ≤ length (fill m l)
    → Fresh m l
unfolding fill
length-fill-Fresh m [] h = tt
length-fill-Fresh m (ns ∷ rest) h = elim (Bool-cases (has_key ns.name m)) [
  | inl e ↦
      absurd (ground (arith, length-insert ns.name ns m, length-fill-le (insert ns.name ns m) rest))
  | inr e ↦
      (e, length-fill-Fresh (insert ns.name ns m) rest (ground (arith, length-insert ns.name ns m)))
]

Fresh-length-fill :
    (m : NamespaceMap) (l : List AerospikeNamespaceSpec)
    → Fresh m l
    → length m + length l ≤ length (fill m l)
unfolding fill
Fresh-length-fill m [] h = omega arith
Fresh-length-fill m (ns ∷ rest) (e, h) =
    ground (arith, length-insert ns.name ns m, Fresh-length-fill (insert ns.name ns m) rest h)

abbrev NewIn : NamespaceMap → List AerospikeNamespaceSpec → Type 0
NewIn m = All (λ ns. has_key ns.name m ≡ false)

NewIn-insert :
    (k : AerospikeNamespaceSpec) (m : NamespaceMap) (l : List AerospikeNamespaceSpec)
    → NewIn (insert k.name k m) l ↔ (NewIn m l × All (λ other. other.name ≢ k.name) l)
NewIn-insert k m [] = ((λ _. (tt, tt)), (λ _. tt))
NewIn-insert k m (ns ∷ l) =
    let law = has_key-insert k.name ns.name k m in
    let same = text_eq_iff k.name ns.name in
    let (to, from) = NewIn-insert k m l in
    (
      λ (e, h).
          let (new, distinct) = to h in ((ground arith, new), ((λ p. ground arith), distinct)),
      λ ((e, h), (d, hd)). (NewIn_step k.name ns.name k m e d, from (h, hd)),
    )
  where
    NewIn_step :
        (k j : Text) (ns : AerospikeNamespaceSpec) (m : NamespaceMap)
        → has_key j m ≡ false
        → j ≢ k
        → has_key j (insert k ns m) ≡ false
    NewIn_step k j ns m e d = ground (arith, has_key-insert k j ns m, text_eq_iff k j)

Fresh-iff :
    (m : NamespaceMap) (l : List AerospikeNamespaceSpec) → Fresh m l ↔ (NewIn m l × Unique l)
Fresh-iff m [] = ((λ _. (tt, tt)), (λ _. tt))
Fresh-iff m (ns ∷ l) =
    let (to, from) = Fresh-iff (insert ns.name ns m) l in
    let (split, join) = NewIn-insert ns m l in
    (
      λ (e, h).
          let (new, unique) = to h in
          let (old, distinct) = split new in ((e, old), (distinct, unique)),
      λ ((e, new), (distinct, unique)). (e, from (join (new, distinct), unique)),
    )

NewIn-empty : (l : List AerospikeNamespaceSpec) → NewIn [] l
unfolding has_key
NewIn-empty [] = tt
NewIn-empty (ns ∷ l) = (refl, NewIn-empty l)

-- The map is as long as the list exactly when the names are unique.
pub length-namespace_map_iff :
    (l : List AerospikeNamespaceSpec) → (length l ≤ length (namespace_map l)) ↔ Unique l
unfolding namespace_map
length-namespace_map_iff l = (
  λ h. ((Fresh-iff [] l).0 (length-fill-Fresh [] l (omega arith))).1,
  λ u. omega (arith, Fresh-length-fill [] l ((Fresh-iff [] l).1 (NewIn-empty l, u))),
)
