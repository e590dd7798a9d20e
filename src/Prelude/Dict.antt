-- ===== src/Prelude/Dict.antt =====
-- A Go `map[string]V`: its entries, looked up by the first that has the key.
use aerospike_operator.Prelude.{
  ◌≡◌, refl, Option, none, some, List, [], ◌∷◌, Text, text_eq, text_eq_iff, arith, if◌then◌else◌,
}

module _ {ℓ} {V : Type ℓ} where
  unfoldable pub lookup : Text → List (Text × V) → Option V
  lookup k [] = none
  lookup k ((j, v) ∷ m) = if text_eq j k then some v else lookup k m

  unfoldable pub insert : Text → V → List (Text × V) → List (Text × V)
  insert k v [] = (k, v) ∷ []
  insert k v ((j, w) ∷ m) = if text_eq j k then (k, v) ∷ m else (j, w) ∷ insert k v m

  -- `delete(m, k)`
  unfoldable pub remove : Text → List (Text × V) → List (Text × V)
  remove k [] = []
  remove k ((j, w) ∷ m) = let rest = remove k m in if text_eq j k then rest else (j, w) ∷ rest

  pub lookup-insert_self :
      (k : Text) (v : V) (m : List (Text × V)) → lookup k (insert k v m) ≡ some v
  unfolding lookup insert
  lookup-insert_self k v [] = ground (arith, text_eq_iff k k)
  lookup-insert_self k v ((j, w) ∷ m) =
      ground (arith, text_eq_iff k k, text_eq_iff j k, lookup-insert_self k v m)

  pub lookup-remove_self : (k : Text) (m : List (Text × V)) → lookup k (remove k m) ≡ none
  unfolding lookup remove
  lookup-remove_self k [] = refl
  lookup-remove_self k ((j, w) ∷ m) = ground (arith, text_eq_iff j k, lookup-remove_self k m)
