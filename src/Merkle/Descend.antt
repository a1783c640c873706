-- ===== src/Merkle/Descend.antt =====
-- The walk from the top, in a state that holds a tree: it ends at the node on the way, with the
-- hashes of the siblings, and changes nothing.
use mathlib.Core.Path.{subst}
use zkc_state.Prelude.{
  ℕ, suc, ◌+◌, ◌*◌, ◌^◌, ◌≤◌, ◌<◌, ◌≡◌, refl, Bool, true, false, not, length, [], ◌∷◌, some, arith,
  ◌==◌, ==_iff, ≢→==,
}
use zkc_state.Prelude.Words.{add_u64, mul_u64, two_pow-suc, one-le-two_pow, two_pow-le}
use zkc_state.Outcome.{ok}
use zkc_state.Action.{Action}
use zkc_state.Merkle.Index.{get_sibling_index}
use zkc_state.Merkle.Node.{MerkleNode}
use zkc_state.Merkle.Bounds.{node_at}
use zkc_state.Merkle.Walk.{child_hashes, descend}
use zkc_state.Merkle.Spec.{
  pick, Tree, leaf, node, Turns, turn, root, siblings, subtree, way_down, end_of,
}

pub sibling-node_at :
    (d q : ℕ) (b : Bool)
    → suc d ≤ 62
    → q < 2 ^ d
    → get_sibling_index (node_at (suc d) (2 * q + turn b)) ≡ node_at (suc d) (2 * q + turn (not b))
unfolding get_sibling_index
sibling-node_at d q true small h =
    ground (arith, two_pow-suc d, one-le-two_pow d, two_pow-le (suc d) small)
sibling-node_at d q false small h =
    ground (arith, two_pow-suc d, one-le-two_pow d, two_pow-le (suc d) small)

-- What bounds the indices next to the node `q` of depth `d`.
index_bounds :
    (d q : ℕ)
    → suc d ≤ 62
    → q < 2 ^ d
    → (2 ^ suc d ≡ 2 * 2 ^ d) × (1 ≤ 2 ^ d) × (2 ^ suc d ≤ 2 ^ 62) × (q < 2 ^ d)
index_bounds d q small h = (two_pow-suc d, one-le-two_pow d, two_pow-le (suc d) small, h)

pub end-in-range : (d q : ℕ) (b : Bool) → q < 2 ^ d → 2 * q + turn b < 2 ^ suc d
end-in-range d q true h = omega (arith, two_pow-suc d)
end-in-range d q false h = omega (arith, two_pow-suc d)

module _ {E S H N : Type 0} (combine : H → H → H) (ops : MerkleNode H N)
    (fetch : ℕ → H → Action E S N) where
  pub child_hashes_lem :
      (d q : ℕ) (b : Bool) (a : N) (l r : H) (s : S)
      → suc d ≤ 62
      → q < 2 ^ d
      → ops.left a ≡ some l
      → ops.right a ≡ some r
      → child_hashes ops fetch (node_at d q) (node_at (suc d) (2 * q + turn b)) a s
        ≡ (ok (pick b l r, pick (not b) l r), s)
  unfolding child_hashes
  child_hashes_lem d q true a l r s small h el er =
      let not_left : (mul_u64 (add_u64 (node_at d q) 1) 2
            == add_u64 (node_at (suc d) (2 * q + 1)) 1)
          ≡ false =
        ≢→== _ _ (omega (arith, index_bounds d q small h)) in
      let to_right : (mul_u64 (add_u64 (node_at d q) 1) 2 == node_at (suc d) (2 * q + 1)) ≡ true =
        (==_iff _ _).1 (omega (arith, index_bounds d q small h)) in
      rw (not_left, to_right, el, er)
  child_hashes_lem d q false a l r s small h el er =
      let to_left : (mul_u64 (add_u64 (node_at d q) 1) 2 == add_u64 (node_at (suc d) (2 * q + 0)) 1)
          ≡ true =
        (==_iff _ _).1 (omega (arith, index_bounds d q small h)) in
      rw (to_left, el, er)

  -- The node `a` is the one that the tree has there, and the nodes below it can be fetched.
  abbrev pub Stored : S → Tree H → ℕ → ℕ → N → Type 0
  Stored s (leaf h) d q a = ops.hash a ≡ h
  Stored s (node l r) d q a =
      (ops.hash a ≡ combine (root combine l) (root combine r))
      × (ops.left a ≡ some (root combine l))
      × (ops.right a ≡ some (root combine r))
      × ((c : N) × (fetch (node_at (suc d) (2 * q + 0)) (root combine l) s ≡ (ok c, s))
          × Stored s l (suc d) (2 * q + 0) c)
      × ((c : N) × (fetch (node_at (suc d) (2 * q + 1)) (root combine r) s ≡ (ok c, s))
          × Stored s r (suc d) (2 * q + 1) c)

  -- The tree can be fetched from its top.
  abbrev pub Held : S → Tree H → ℕ → ℕ → Type 0
  Held s t d q = (a : N) × (fetch (node_at d q) (root combine t) s ≡ (ok a, s)) × Stored s t d q a

  pub Stored-hash :
      (s : S) (t : Tree H) (d q : ℕ) (a : N) → Stored s t d q a → ops.hash a ≡ root combine t
  Stored-hash s (leaf h) d q a st = st
  Stored-hash s (node l r) d q a st = st.0

  -- In a state that holds a tree, the walk along a way in it returns the node where the way ends, as
  -- it is fetched there, and the hashes beside it.
  pub descend_lem :
      (bs : Turns) (t u : Tree H) (d q : ℕ) (a : N) (s : S)
      → subtree bs t ≡ some u
      → d + length bs ≤ 62
      → q < 2 ^ d
      → fetch (node_at d q) (root combine t) s ≡ (ok a, s)
      → Stored s t d q a
      → (c : N) × (descend ops fetch (way_down d q bs) (node_at d q) a s
          ≡ (ok (c, siblings combine bs t), s))
        × (fetch (node_at (d + length bs) (end_of q bs)) (root combine u) s ≡ (ok c, s))
        × Stored s u (d + length bs) (end_of q bs) c
  unfolding descend way_down
  descend_lem [] t u d q a s e small h f st =
      let z : d + 0 ≡ d = omega arith in
      let same : t ≡ u = cc in
      (
        a,
        refl,
        rw z (subst (λ x. fetch (node_at d q) (root combine x) s ≡ (ok a, s)) same f),
        rw z (subst (λ x. Stored s x d q a) same st),
      )
  descend_lem (b ∷ bs) (leaf x) u d q a s e small h f st = absurd (cc)
  descend_lem (true ∷ bs) (node l r) u d q a s e small h f (_, el, er, (cl, fl, sl), (cr, fr, sr)) =
      let sib = sibling-node_at d q true (omega arith) h in
      let level : d + suc (length bs) ≡ suc d + length bs = omega arith in
      let hashes =
        child_hashes_lem d q true a (root combine l) (root combine r) s (omega arith) h el er in
      let (c, walked, fetched, held) =
        descend_lem bs r u (suc d) (2 * q + 1) cr s e (omega arith) (end-in-range d q true h) fr
          sr in
      (
        c,
        rw (hashes, sib, fl, fr, walked, Stored-hash s l (suc d) (2 * q + 0) cl sl),
        rw level fetched,
        rw level held,
      )
  descend_lem (false ∷ bs) (node l r) u d q a s e small h f
        (_, el, er, (cl, fl, sl), (cr, fr, sr)) =
      let sib = sibling-node_at d q false (omega arith) h in
      let level : d + suc (length bs) ≡ suc d + length bs = omega arith in
      let hashes =
        child_hashes_lem d q false a (root combine l) (root combine r) s (omega arith) h el er in
      let (c, walked, fetched, held) =
        descend_lem bs l u (suc d) (2 * q + 0) cl s e (omega arith) (end-in-range d q false h) fl
          sl in
      (
        c,
        rw (hashes, sib, fr, fl, walked, Stored-hash s r (suc d) (2 * q + 1) cr sr),
        rw level fetched,
        rw level held,
      )
