-- ===== src/Merkle/Index.antt =====
-- Node indices (`utils` of src/merkle.rs). The root is 0, and depth `d` begins at 2 ^ d - 1. An
-- index is a `u64`, and a height is a const generic of the program (32 in the service).
use zkc_state.Prelude.{
  ℕ, zero, suc, ◌+◌, ◌-◌, ◌/◌, ◌%◌, Bool, List, [], ◌∷◌, ltb, leb, ◌==◌, if◌then◌else◌, not,
}
use zkc_state.Prelude.Words.{add_u64, sub_u64, pow_u64}
use zkc_state.Outcome.{Outcome, ok, err, panic, ◌>>=◌, ◌>>◌, assert}
use zkc_state.Hash.{zeros32}
use zkc_state.Merkle.Error.{MerkleError, MerkleErrorCode, invalid_leaf_index, invalid_index}

-- The generated enum of proto/kvpair.proto, without its default.
pub data NodeType : Type 0 where
  node_unspecified node_leaf node_non_leaf node_invalid : NodeType

abbrev pub node_type_eq : NodeType → NodeType → Bool
node_type_eq a b = elim a [
  | node_unspecified ↦ elim b [ node_unspecified ↦ Bool.true | _ ↦ Bool.false ]
  | node_leaf ↦ elim b [ node_leaf ↦ Bool.true | _ ↦ Bool.false ]
  | node_non_leaf ↦ elim b [ node_non_leaf ↦ Bool.true | _ ↦ Bool.false ]
  | node_invalid ↦ elim b [ node_invalid ↦ Bool.true | _ ↦ Bool.false ]
]

-- The digits below the first one of a number in base 2. A `u64` has at most 63 of them.
unfoldable pub log2_loop : ℕ → ℕ → ℕ
log2_loop zero n = 0
log2_loop (suc fuel) n = let rest = log2_loop fuel (n / 2) in if ltb n 2 then 0 else suc rest

-- `u64::ilog2`, which panics at 0
unfoldable pub ilog2 : {E : Type 0} → ℕ → Outcome E ℕ
unfolding log2_loop
ilog2 n = if n == 0 then panic else ok (log2_loop 63 n)

unfoldable pub get_offset : {E : Type 0} → ℕ → Outcome E ℕ
get_offset index = do
  height ← ilog2 (add_u64 index 1)
  let full = sub_u64 (pow_u64 height) 1
  ok (sub_u64 index full)

unfoldable pub get_node_type : ℕ → ℕ → NodeType
get_node_type index height =
    if leb (sub_u64 (pow_u64 (height + 1)) 1) index
    then node_invalid
    else if leb (sub_u64 (pow_u64 height) 1) index
    then node_leaf
    else node_non_leaf

abbrev pub error_at : ℕ → MerkleErrorCode → MerkleError
error_at index code = record { source = record { bytes = zeros32 }; index = index; code = code }

unfoldable pub boundary_check : ℕ → ℕ → Outcome MerkleError (Unit {0})
boundary_check index height =
    if node_type_eq (get_node_type index height) node_invalid
    then err (error_at index invalid_index)
    else ok tt

unfoldable pub leaf_check : ℕ → ℕ → Outcome MerkleError (Unit {0})
leaf_check index height =
    if not (node_type_eq (get_node_type index height) node_leaf)
    then err (error_at index invalid_leaf_index)
    else ok tt

unfoldable pub get_sibling_index : ℕ → ℕ
get_sibling_index index = if index % 2 == 1 then add_u64 index 1 else sub_u64 index 1

-- The loop of `get_path`, by the rounds left. `p` and the path that is built are its variables.
unfoldable pub get_path_loop : ℕ → ℕ → ℕ → List ℕ → ℕ × List ℕ
get_path_loop zero height p path = (p, path)
get_path_loop (suc round) height p path =
    let i = add_u64 (sub_u64 (pow_u64 height) 1) p in
    get_path_loop round (height - 1) (p / 2) (i ∷ path)

unfoldable pub get_path : ℕ → ℕ → Outcome MerkleError (List ℕ)
unfolding get_path_loop
get_path index height = do
  leaf_check index height
  depth ← ilog2 (add_u64 index 1)
  let full = sub_u64 (pow_u64 depth) 1
  let (p, path) = get_path_loop depth depth (sub_u64 index full) []
  assert (p == 0)
  ok path
