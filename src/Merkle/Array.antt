-- ===== src/Merkle/Array.antt =====
-- `MerkleAsArray` (the tests of src/merkle.rs): a tree of height 6 of numbers, each inner node the
-- sum of its children, in an array by index. Indices of 127 or more would panic.
pub mod Reads
pub mod Beside
pub mod Climb
pub mod Sums
use zkc_state.Prelude.{ℕ, ◌+◌, Bool, leb, ◌&&◌, ltb, ◌==◌, if◌then◌else◌, some, length}
use zkc_state.Prelude.Words.{add_u64, u64_mod}
use zkc_state.Outcome.{Outcome, ok, panic}
use zkc_state.Action.{Action, ◌>>=◌, ◌>>◌, pure, lift}
use zkc_state.Hash.{Bytes}
use zkc_state.Merkle.Error.{MerkleError}
use zkc_state.Merkle.Index.{boundary_check, leaf_check}
use zkc_state.Merkle.Node.{MerkleNode, MerkleTree}
use zkc_state.Kvpair.Bson.{of_le_bytes}

pub record MerkleU64Node : Type 0 where
  pub value : ℕ
  pub index : ℕ

-- `data`: the element at each index below 127.
abbrev pub MerkleAsArray : Type 0
MerkleAsArray = ℕ → ℕ

abbrev pub updated : ℕ → ℕ → MerkleAsArray → MerkleAsArray
updated i x a j = if j == i then x else a j

unfoldable pub element : ℕ → Action MerkleError MerkleAsArray ℕ
element i a = if ltb i 127 then (ok (a i), a) else (panic, a)

unfoldable pub set_element : ℕ → ℕ → Action MerkleError MerkleAsArray (Unit {0})
set_element i x a = if ltb i 127 then (ok tt, updated i x a) else (panic, a)

unfoldable pub set_value : MerkleU64Node → Bytes → Outcome MerkleError MerkleU64Node
set_value n bytes = if length bytes == 8 then ok (record n { value = of_le_bytes bytes }) else panic

abbrev pub u64_node : MerkleNode ℕ MerkleU64Node
u64_node = record {
  hash = λ n. n.value;
  index = λ n. n.index;
  set = set_value;
  left = λ n. some 0;
  right = λ n. some 0;
}

abbrev pub new_array : MerkleAsArray
new_array i = 0

unfoldable pub node_in : ℕ → Action MerkleError MerkleAsArray MerkleU64Node
unfolding element
node_in index = do
  lift (boundary_check index 6)
  value ← element index
  pure (record { value = value; index = index })

unfoldable pub set_node : ℕ → ℕ → Action MerkleError MerkleAsArray (Unit {0})
unfolding set_element
set_node index hash = lift (boundary_check index 6) >> set_element index hash

unfoldable pub set_leaf_value : MerkleU64Node → Action MerkleError MerkleAsArray (Unit {0})
unfolding set_element
set_leaf_value leaf = lift (leaf_check leaf.index 6) >> set_element leaf.index leaf.value

-- `a + b`, which panics where it overflows if the build has `checks`, as that of the tests has, and
-- else wraps.
unfoldable pub add_values : Bool → ℕ → ℕ → Outcome MerkleError ℕ
add_values checks x y = if checks && leb u64_mod (x + y) then panic else ok (add_u64 x y)

abbrev pub merkle_as_array : Bool → MerkleTree ℕ MerkleU64Node MerkleAsArray
merkle_as_array checks = record {
  node = u64_node;
  eq = λ x y. x == y;
  hash = add_values checks;
  set_parent = λ index hash left right. set_node index hash;
  set_leaf = set_leaf_value;
  get_node_with_hash = λ index hash. node_in index;
  get_root_hash = λ a. a 0;
  update_root_hash = λ hash a. a;
}
