-- ===== src/Merkle/Walk.antt =====
-- The two loops over the levels of the tree. src/merkle.rs and src/service.rs hold the same loops,
-- over different ways to read and to write a node, so those are parameters here.
use zkc_state.Prelude.{ℕ, zero, suc, ◌/◌, ◌%◌, List, [], ◌∷◌, ◌==◌, get_elem?, if◌then◌else◌}
use zkc_state.Prelude.Words.{add_u64, sub_u64, mul_u64, pow_u64}
use zkc_state.Outcome.{Outcome, assert, unwrap}
use zkc_state.Action.{Action, ◌>>=◌, ◌>>◌, pure, lift}
use zkc_state.Merkle.Index.{get_sibling_index}
use zkc_state.Merkle.Node.{MerkleNode}

module _ {E S H N : Type 0} (node : MerkleNode H N) (fetch : ℕ → H → Action E S N) where
  -- The hash of the child that is next on the path, and that of its sibling.
  unfoldable pub child_hashes : ℕ → ℕ → N → Action E S (H × H)
  child_hashes acc child acc_node =
      let is_left_child = mul_u64 (add_u64 acc 1) 2 == add_u64 child 1 in
      let is_right_child = mul_u64 (add_u64 acc 1) 2 == child in
      if is_left_child
      then (do
        l ← lift (unwrap (node.left acc_node))
        r ← lift (unwrap (node.right acc_node))
        pure (l, r))
      else (do
        lift (assert is_right_child)
        r ← lift (unwrap (node.right acc_node))
        l ← lift (unwrap (node.left acc_node))
        pure (r, l))

  -- From the top: the node at the end of the path, and the siblings' hashes.
  unfoldable pub descend : List ℕ → ℕ → N → Action E S (N × List H)
  unfolding child_hashes
  descend [] acc acc_node = pure (acc_node, [])
  descend (child ∷ paths) acc acc_node = do
    hashes ← child_hashes acc child acc_node
    sibling_node ← fetch (get_sibling_index child) hashes.1
    child_node ← fetch child hashes.0
    rest ← descend paths child child_node
    pure (rest.0, node.hash sibling_node ∷ rest.1)

module _ {E S H : Type 0} (hash_of : H → H → Outcome E H)
    (store_parent : ℕ → H → H → H → Action E S (Unit {0})) (assist : List H) where
  -- From the leaf, by the number of levels above: hash with the sibling and write the parent.
  unfoldable pub climb : ℕ → ℕ → H → Action E S H
  climb zero p hash = pure hash
  climb (suc depth) p cur_hash = do
    sibling ← lift (unwrap (get_elem? assist depth))
    let left = if p % 2 == 1 then sibling else cur_hash
    let right = if p % 2 == 1 then cur_hash else sibling
    hash ← lift (hash_of left right)
    let index = sub_u64 (add_u64 (p / 2) (pow_u64 depth)) 1
    store_parent index hash left right
    climb depth (p / 2) hash
