-- ===== src/Tests/Array.antt =====
-- The law of `MerkleAsArray` at the array of the test `test_merkle_path` (src/merkle.rs).
use zkc_state.Prelude.{ℕ, ◌%◌, ◌^◌, ◌<◌, ◌≡◌, ◌≢◌, refl, arith, true, inr}
use zkc_state.Outcome.{ok}
use zkc_state.Merkle.Node.{MerkleProof}
use zkc_state.Merkle.Bounds.{node_at}
use zkc_state.Merkle.Tree.{set_leaf_with_proof}
use zkc_state.Merkle.Array.{MerkleAsArray, merkle_as_array, new_array}
use zkc_state.Merkle.Array.Sums.{Summed, LeavesFit, leaves_sum, set_leaf_array}

set_leaf_array_example :
    (proof : MerkleProof ℕ) × (a' : MerkleAsArray) × (set_leaf_with_proof
        (merkle_as_array true)
        6
        (record { value = 2; index = node_at 6 3 })
        new_array
      ≡ (ok proof, a'))
    × (proof.root ≡ (merkle_as_array true).get_root_hash a')
    × (proof.root ≡ leaves_sum a' 6 0 0 % 2 ^ 64)
    × Summed a'
    × LeavesFit a'
    × (a' (node_at 6 3) ≡ 2)
    × ((j : ℕ) → j < 64 → j ≢ 3 → a' (node_at 6 j) ≡ new_array (node_at 6 j))
set_leaf_array_example =
    set_leaf_array true 3 2 new_array (omega arith) (omega arith) (λ i low. refl)
      (λ j low. omega arith) (inr (omega arith))
