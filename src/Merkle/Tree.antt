-- ===== src/Merkle/Tree.antt =====
-- The provided methods of the trait `MerkleTree` (src/merkle.rs), at a height `D`.
use zkc_state.Prelude.{ℕ, ◌/◌, ◌%◌, Bool, List, [], ◌∷◌, ◌==◌, length, if◌then◌else◌}
use zkc_state.Outcome
use zkc_state.Outcome.{Outcome, ok, assert}
use zkc_state.Action.{Action, ◌>>=◌, ◌>>◌, pure, lift, gets}
use zkc_state.Hash.{Bytes}
use zkc_state.Merkle.Error.{MerkleError}
use zkc_state.Merkle.Index
use zkc_state.Merkle.Node.{MerkleProof, MerkleTree}
use zkc_state.Merkle.Walk.{descend, climb}

module _ {H N S : Type 0} (tree : MerkleTree H N S) (D : ℕ) where
  open tree use {node}

  -- `try_into().unwrap()` into an array of `D` indices
  unfoldable pub get_path : ℕ → Outcome MerkleError (List ℕ)
  get_path index =
      Outcome.◌>>=◌ (Index.get_path index D)
        λ path. Outcome.◌>>◌ (assert (length path == D)) (ok path)

  unfoldable pub get_leaf_with_proof : ℕ → Action MerkleError S (N × MerkleProof H)
  unfolding get_path
  get_leaf_with_proof index = do
    lift (Index.leaf_check index D)
    paths ← lift (get_path index)
    hash ← gets tree.get_root_hash
    acc_node ← tree.get_node_with_hash 0 hash
    walked ← descend node tree.get_node_with_hash paths 0 acc_node
    root ← gets tree.get_root_hash
    pure (
      walked.0,
      record { source = node.hash walked.0; root = root; assist = walked.1; index = index },
    )

  unfoldable pub set_leaf_with_proof : N → Action MerkleError S (MerkleProof H)
  set_leaf_with_proof leaf = do
    found ← get_leaf_with_proof (node.index leaf)
    p ← lift (Index.get_offset (node.index leaf))
    tree.set_leaf leaf
    hash ← climb tree.hash tree.set_parent (found.1).assist D p (node.hash leaf)
    update hash
    pure (record {
      source = node.hash leaf;
      root = hash;
      assist = (found.1).assist;
      index = (found.1).index;
    })
    where
      update : H → Action MerkleError S (Unit {0})
      update hash s = (ok tt, tree.update_root_hash hash s)

  unfoldable pub update_leaf_data_with_proof : ℕ → Bytes → Action MerkleError S (MerkleProof H)
  unfolding get_leaf_with_proof set_leaf_with_proof
  update_leaf_data_with_proof index bytes = do
    found ← get_leaf_with_proof index
    leaf ← lift (node.set found.0 bytes)
    set_leaf_with_proof leaf

  -- The fold of `verify_proof`, from the first element of `assist` on.
  unfoldable pub fold_assist : List H → ℕ → H → Outcome MerkleError H
  fold_assist [] p acc = ok acc
  fold_assist (x ∷ assist) p acc =
      Outcome.◌>>=◌ (if p % 2 == 1 then tree.hash x acc else tree.hash acc x)
        λ hash. fold_assist assist (p / 2) hash

  unfoldable pub verify_proof : MerkleProof H → Outcome MerkleError Bool
  unfolding fold_assist
  verify_proof proof = Outcome.◌>>=◌ (Index.get_offset proof.index) λ p.
      Outcome.◌>>=◌ (fold_assist proof.assist p proof.source) λ hash. ok (tree.eq proof.root hash)
