-- ===== src/Merkle/Path.antt =====
-- `get_path` returns the nodes from just below the root down to the leaf.
use mathlib.Core.List.{append-nil, append_assoc}
use zkc_state.Prelude.{
  ℕ, zero, suc, ◌-◌, ◌/◌, ◌^◌, ◌≤◌, ◌<◌, ◌≡◌, refl, ap, ◌∙◌, List, [], ◌∷◌, ◌++◌, arith, length,
  length-append, ◌≢◌,
}
use zkc_state.Prelude.Words.{add_u64, sub_u64, pow_u64, two_pow-suc, one-le-two_pow, two_pow_mono}
use zkc_state.Outcome.{ok, err}
use zkc_state.Merkle.Error.{invalid_leaf_index}
use zkc_state.Merkle.Index.{node_leaf, get_node_type, leaf_check, get_path_loop, get_path, error_at}
use zkc_state.Merkle.Bounds.{node_at, get_node_type_lem, ilog2-node_at, full-node_at}

-- The nodes on the way to the node `k` of depth `d`, the root left out, from the top. The parent of
-- the node `k` is the node `k / 2` of the depth above.
unfoldable pub ancestors : ℕ → ℕ → List ℕ
ancestors zero k = []
ancestors (suc d) k = ancestors d (k / 2) ++ node_at (suc d) k ∷ []

pub length-ancestors : (d k : ℕ) → length (ancestors d k) ≡ d
unfolding ancestors
length-ancestors zero k = refl
length-ancestors (suc d) k = omega (
  arith,
  length-append (ancestors d (k / 2)) (node_at (suc d) k ∷ []),
  length-ancestors d (k / 2),
)

get_path_loop_lem :
    (d k : ℕ) (path : List ℕ)
    → d ≤ 63
    → k < 2 ^ d
    → get_path_loop d d k path ≡ (0, ancestors d k ++ path)
unfolding get_path_loop ancestors
get_path_loop_lem zero k path hd hk = ap (λ p. (p, path)) (omega arith)
get_path_loop_lem (suc d) k path hd hk =
    let here : add_u64 (sub_u64 (pow_u64 (suc d)) 1) k ≡ node_at (suc d) k =
      omega (arith, one-le-two_pow (suc d), two_pow_mono (suc d) 63 hd) in
    let above : suc d - 1 ≡ d = omega arith in
    rw (here, above)
      (get_path_loop_lem d (k / 2) (node_at (suc d) k ∷ path) (omega arith)
          (omega (arith, two_pow-suc d))
        ∙ ap (λ l. (0, l)) (simp append_assoc))

pub leaf_check-leaf : (h k : ℕ) → h ≤ 62 → k < 2 ^ h → leaf_check (node_at h k) h ≡ ok tt
unfolding leaf_check
leaf_check-leaf h k small inside = rw (
    (get_node_type_lem (node_at h k) h small).1.1
      (omega (arith, one-le-two_pow h), omega (arith, one-le-two_pow h, two_pow-suc h)))

pub leaf_check_rejects :
    (i h : ℕ) → get_node_type i h ≢ node_leaf → leaf_check i h ≡ err (error_at i invalid_leaf_index)
unfolding leaf_check
leaf_check_rejects i h no_leaf = ground arith

-- At a leaf of a tree of height 62 or less, `get_path` returns the nodes on the way down to it,
-- the root left out, and its assertion holds.
pub get_path-leaf : (h k : ℕ) → h ≤ 62 → k < 2 ^ h → get_path (node_at h k) h ≡ ok (ancestors h k)
unfolding get_path
get_path-leaf h k small inside =
    let small' : h ≤ 63 = omega arith in
    rw (leaf_check-leaf h k small inside, ilog2-node_at h k small' inside)
      (rw (full-node_at h k small' inside, get_path_loop_lem h k [] small' inside)
        (ap ok (append-nil _)))

-- At any index that is no leaf it returns the error `invalid_leaf_index` with that index.
pub get_path_rejects :
    (i h : ℕ) → get_node_type i h ≢ node_leaf → get_path i h ≡ err (error_at i invalid_leaf_index)
unfolding get_path
get_path_rejects i h no_leaf = rw (leaf_check_rejects i h no_leaf)
