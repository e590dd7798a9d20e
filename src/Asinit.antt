-- ===== src/Asinit.antt =====
-- cmd/asinit/main.go, which runs in the init container of a pod: the node id and the peers are put
-- in the place of two marks of the configuration.
pub mod Peers
use aerospike_operator.Prelude.{
  Bool, true, false, List, [], ◌∷◌, ◌++◌, Text, codes, ℕ, zero, suc, ◌==◌, ◌-◌, length,
  if◌then◌else◌, ◌&&◌,
}

abbrev pub service_node_id_value : Text
service_node_id_value = codes "__SERVICE__NODE_ID__"

abbrev pub heartbeat_addresses_value : Text
heartbeat_addresses_value = codes "__NETWORK__HEARTBEAT__MESH_SEED_ADDRESS_PORT__"

abbrev pub push : ℕ → List Text → List Text
push c [] = (c ∷ []) ∷ []
push c (word ∷ rest) = (c ∷ word) ∷ rest

-- The pieces of a text between separators, and those that are not empty: `strings.FieldsFunc`.
unfoldable pub pieces : ℕ → Text → List Text
pieces sep [] = [] ∷ []
pieces sep (c ∷ s) = let rest = pieces sep s in if c == sep then [] ∷ rest else push c rest

unfoldable pub without_empty : List Text → List Text
without_empty [] = []
without_empty ([] ∷ rest) = without_empty rest
without_empty ((c ∷ word) ∷ rest) = (c ∷ word) ∷ without_empty rest

unfoldable pub fields : ℕ → Text → List Text
fields sep s = without_empty (pieces sep s)

-- The lines of the configuration for the peers.
unfoldable pub peer_lines : List Text → Text
peer_lines [] = []
peer_lines (peer ∷ rest) =
    (codes "mesh-seed-address-port " ++ (peer ++ codes " 3002\n")) ++ peer_lines rest

unfoldable pub starts_with : Text → Text → Bool
starts_with [] s = true
starts_with (d ∷ old) [] = false
starts_with (d ∷ old) (c ∷ s) = let rest = starts_with old s in c == d && rest

-- `strings.Replace(s, old, new, -1)` for an `old` that is not empty; `skip` bytes are part of one that was found.
unfoldable pub replace_from : ℕ → Text → Text → Text → Text
replace_from skip old new [] = []
replace_from (suc skip) old new (c ∷ s) = replace_from skip old new s
replace_from zero old new (c ∷ s) =
    let found = new ++ replace_from (length old - 1) old new s in
    let kept = c ∷ replace_from zero old new s in if starts_with old (c ∷ s) then found else kept

unfoldable pub asinit_config : Text → Text → Text → Text
asinit_config node_id peer_list input =
    let cfg = replace_from 0 service_node_id_value node_id input in
    replace_from 0 heartbeat_addresses_value (peer_lines (fields b',' peer_list)) cfg
