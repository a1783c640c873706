-- ===== src/Merkle/Array/Reads.antt =====
-- Reading in `MerkleAsArray`: a call at an index of the tree succeeds, and the walk to a leaf returns
-- what the array has beside it.
use mathlib.Core.List.{append-nil, append_assoc}
use zkc_state.Prelude.{
  ℕ, zero, suc, ◌+◌, ◌*◌, ◌/◌, ◌%◌, ◌^◌, ◌≤◌, ◌<◌, ◌≡◌, refl, List, [], ◌∷◌, ◌++◌, arith, length,
  length-append, Bool, true, false, not, ◌==◌,
}
use zkc_state.Prelude.Words.{two_pow-suc, one-le-two_pow, two_pow_mono}
use zkc_state.Outcome.{ok}
use zkc_state.Merkle.Index.{boundary_check, leaf_check, get_node_type}
use zkc_state.Merkle.Bounds.{node_at}
use zkc_state.Merkle.Path.{ancestors}
use zkc_state.Merkle.Walk.{descend}
use zkc_state.Merkle.Spec.{turn, turn-parity}
use zkc_state.Merkle.Descend.{child_hashes_lem, sibling-node_at}
use zkc_state.Merkle.Array.{
  MerkleAsArray, MerkleU64Node, u64_node, updated, element, set_element, node_in, set_node,
  set_leaf_value,
}

abbrev pub node_here : MerkleAsArray → ℕ → MerkleU64Node
node_here a i = record { value = a i; index = i }

pub node_in_lem : (i : ℕ) (a : MerkleAsArray) → i < 127 → node_in i a ≡ (ok (node_here a i), a)
unfolding node_in element boundary_check get_node_type
node_in_lem i a inside = ground arith

pub set_node_lem : (i x : ℕ) (a : MerkleAsArray) → i < 127 → set_node i x a ≡ (ok tt, updated i x a)
unfolding set_node set_element boundary_check get_node_type
set_node_lem i x a inside = ground arith

pub set_leaf_value_lem :
    (i x : ℕ) (a : MerkleAsArray)
    → 63 ≤ i
    → i < 127
    → set_leaf_value (record { value = x; index = i }) a ≡ (ok tt, updated i x a)
unfolding set_leaf_value set_element leaf_check get_node_type
set_leaf_value_lem i x a low inside = ground arith

-- The node beside the one above `k`.
abbrev pub beside : ℕ → ℕ → ℕ
beside m k = node_at (suc m) (2 * (k / 2) + turn (not (k % 2 == 1)))

-- What the array has beside the way to the node `k` of depth `m`, from the top.
unfoldable pub assist_of : MerkleAsArray → ℕ → ℕ → List ℕ
assist_of a zero k = []
assist_of a (suc m) k = assist_of a m (k / 2) ++ a (beside m k) ∷ []

pub length-assist_of : (a : MerkleAsArray) (m k : ℕ) → length (assist_of a m k) ≡ m
unfolding assist_of
length-assist_of a zero k = refl
length-assist_of a (suc m) k = omega (
  arith,
  length-append (assist_of a m (k / 2)) (a (beside m k) ∷ []),
  length-assist_of a m (k / 2),
)

module _ (a : MerkleAsArray) where
  step_down :
      (m q : ℕ) (b : Bool) (rest : List ℕ) (n : MerkleU64Node) (ys : List ℕ)
      → m ≤ 5
      → q < 2 ^ m
      → 2 ^ m ≤ 32
      → descend u64_node
          (λ i h. node_in i)
          rest
          (node_at (suc m) (2 * q + turn b))
          (node_here a (node_at (suc m) (2 * q + turn b)))
          a
        ≡ (ok (n, ys), a)
      → descend u64_node
          (λ i h. node_in i)
          (node_at (suc m) (2 * q + turn b) ∷ rest)
          (node_at m q)
          (node_here a (node_at m q))
          a
        ≡ (ok (n, a (node_at (suc m) (2 * q + turn (not b))) ∷ ys), a)
  unfolding descend
  step_down m q true rest n ys small inside bound e =
      rw
        (child_hashes_lem (λ x y. 0) u64_node (λ i h. node_in i) m q true
          (node_here a (node_at m q)) 0 0 a (omega arith) inside refl refl)
        (rw (sibling-node_at m q true (omega arith) inside) (
          rw
            (node_in_lem (node_at (suc m) (2 * q + 0)) a
              (omega (arith, two_pow-suc m, one-le-two_pow m)))
            (rw
              (node_in_lem (node_at (suc m) (2 * q + 1)) a
                (omega (arith, two_pow-suc m, one-le-two_pow m)))
              (rw e refl))))
  step_down m q false rest n ys small inside bound e =
      rw
        (child_hashes_lem (λ x y. 0) u64_node (λ i h. node_in i) m q false
          (node_here a (node_at m q)) 0 0 a (omega arith) inside refl refl)
        (rw (sibling-node_at m q false (omega arith) inside) (
          rw
            (node_in_lem (node_at (suc m) (2 * q + 1)) a
              (omega (arith, two_pow-suc m, one-le-two_pow m)))
            (rw
              (node_in_lem (node_at (suc m) (2 * q + 0)) a
                (omega (arith, two_pow-suc m, one-le-two_pow m)))
              (rw e refl))))

  -- The walk to the node `k` of depth `m`, and what is left of the way from there.
  walk_down :
      (m k : ℕ) (rest : List ℕ) (n : MerkleU64Node) (ys : List ℕ)
      → m ≤ 6
      → k < 2 ^ m
      → descend u64_node (λ i h. node_in i) rest (node_at m k) (node_here a (node_at m k)) a
        ≡ (ok (n, ys), a)
      → descend u64_node (λ i h. node_in i) (ancestors m k ++ rest) 0 (node_here a 0) a
        ≡ (ok (n, assist_of a m k ++ ys), a)
  unfolding ancestors assist_of
  walk_down zero k rest n ys small inside e = let top : node_at 0 k ≡ 0 = omega arith in rw top at e
  walk_down (suc m) k rest n ys small inside e =
      let half : k / 2 < 2 ^ m = omega (arith, two_pow-suc m) in
      let step =
        step_down m (k / 2) (k % 2 == 1) rest n ys (omega arith) half
          (omega (arith, two_pow_mono m 5 (omega arith))) (rw (turn-parity k) e) in
      rw (append_assoc (ancestors m (k / 2)) (node_at (suc m) k ∷ []) rest) (
        rw (append_assoc (assist_of a m (k / 2)) (a (beside m k) ∷ []) ys) (
          walk_down m (k / 2) (node_at (suc m) k ∷ rest) n (a (beside m k) ∷ ys) (omega arith) half
            (rw (turn-parity k) at step)))

  pub descend_array :
      (k : ℕ)
      → k < 64
      → descend u64_node (λ i h. node_in i) (ancestors 6 k) 0 (node_here a 0) a
        ≡ (ok (node_here a (node_at 6 k), assist_of a 6 k), a)
  unfolding descend
  descend_array k inside =
      rw (← append-nil (ancestors 6 k), ← append-nil (assist_of a 6 k))
        (walk_down 6 k [] (node_here a (node_at 6 k)) [] (omega arith) (omega arith) refl)
