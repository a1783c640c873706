-- ===== src/Merkle/Climb.antt =====
-- The walk from the leaf, in a state that holds a tree: it writes the nodes of the changed tree,
-- keeps those that were there, and returns the new root.
use zkc_state.Prelude.{
  ℕ, suc, ◌+◌, ◌*◌, ◌/◌, ◌%◌, ◌^◌, ◌≤◌, ◌<◌, ◌≡◌, Bool, true, false, not, List, [], ◌∷◌, some,
  arith, ◌==◌, length, get_elem?,
}
use mathlib.Core.Path.{subst}
use zkc_state.Prelude.Words.{add_u64, sub_u64, pow_u64, two_pow-suc, one-le-two_pow, two_pow-le}
use zkc_state.Outcome.{Outcome, ok}
use zkc_state.Action.{Action}
use zkc_state.Merkle.Node.{MerkleNode}
use zkc_state.Merkle.Bounds.{node_at}
use zkc_state.Merkle.Walk.{climb}
use zkc_state.Merkle.Spec.{Tree, leaf, node, Turns, turn, pick, above, root, subtree, end_of}
use zkc_state.Merkle.Snoc.{graft}
use zkc_state.Merkle.Descend.{Stored, Held}

pub index_of_parent :
    (m k : ℕ) → m ≤ 62 → k < 2 ^ suc m → sub_u64 (add_u64 (k / 2) (pow_u64 m)) 1 ≡ node_at m (k / 2)
index_of_parent m k small inside =
    omega (arith, two_pow-suc m, one-le-two_pow m, two_pow-le m small)

module _ {E S H : Type 0} (hash_of : H → H → Outcome E H)
    (store_parent : ℕ → H → H → H → Action E S (Unit {0})) (combine : H → H → H) where
  -- One level: from the sibling's hash and the written parent.
  pub climb_step :
      (assist : List H) (m k : ℕ) (b : Bool) (h x : H) (s s' : S)
      → m ≤ 62
      → k < 2 ^ suc m
      → (k % 2 == 1) ≡ b
      → get_elem? assist m ≡ some x
      → hash_of (pick b h x) (pick (not b) h x) ≡ ok (above combine b x h)
      → store_parent (node_at m (k / 2)) (above combine b x h) (pick b h x) (pick (not b) h x) s
        ≡ (ok tt, s')
      → climb hash_of store_parent assist (suc m) k h s
        ≡ climb hash_of store_parent assist m (k / 2) (above combine b x h) s'
  unfolding climb
  climb_step assist m k true h x s s' small inside eb ex eh es =
      rw (ex, eb, eh) (rw (index_of_parent m k small inside) (rw es))
  climb_step assist m k false h x s s' small inside eb ex eh es =
      rw (ex, eb, eh) (rw (index_of_parent m k small inside) (rw es))

module _ {E S H N : Type 0} (combine : H → H → H) (ops : MerkleNode H N)
    (fetch : ℕ → H → Action E S N) where
  -- Whatever could be fetched before can be fetched after, with the same record.
  abbrev pub Extends : S → S → Type 0
  Extends s s' = (j : ℕ) (h : H) (a : N) → fetch j h s ≡ (ok a, s) → fetch j h s' ≡ (ok a, s')

  pub Stored-mono :
      {s s' : S} (t : Tree H) (d q : ℕ) (a : N)
      → Extends s s'
      → Stored combine ops fetch s t d q a
      → Stored combine ops fetch s' t d q a
  Stored-mono (leaf h) d q a x st = st
  Stored-mono (node l r) d q a x (e, el, er, (cl, fl, sl), (cr, fr, sr)) = (
    e,
    el,
    er,
    (cl, x _ _ cl fl, Stored-mono l (suc d) (2 * q + 0) cl x sl),
    (cr, x _ _ cr fr, Stored-mono r (suc d) (2 * q + 1) cr x sr),
  )

  pub Held_mono :
      {s s' : S} (t : Tree H) (d q : ℕ)
      → Extends s s'
      → Held combine ops fetch s t d q
      → Held combine ops fetch s' t d q
  Held_mono t d q x (a, f, st) = (a, x _ _ a f, Stored-mono t d q a x st)

  -- A subtree of a tree that is held is held where the way to it ends.
  pub Held-subtree :
      {s : S} (bs : Turns) (t u : Tree H) (d q : ℕ)
      → subtree bs t ≡ some u
      → Held combine ops fetch s t d q
      → Held combine ops fetch s u (d + length bs) (end_of q bs)
  Held-subtree {s} [] t u d q e held =
      let z : d + 0 ≡ d = omega arith in
      let same : t ≡ u = cc in rw z (subst (λ x. Held combine ops fetch s x d q) same held)
  Held-subtree (b ∷ bs) (leaf h) u d q e held = absurd (cc)
  Held-subtree (true ∷ bs) (node l r) u d q e (a, f, (_, _, _, hl, hr)) =
      let level : d + suc (length bs) ≡ suc d + length bs = omega arith in
      rw level (Held-subtree bs r u (suc d) (2 * q + 1) e hr)
  Held-subtree (false ∷ bs) (node l r) u d q e (a, f, (_, _, _, hl, hr)) =
      let level : d + suc (length bs) ≡ suc d + length bs = omega arith in
      rw level (Held-subtree bs l u (suc d) (2 * q + 0) e hl)

  -- A parent over two trees that are held is held.
  pub Held-graft :
      {s : S} (b : Bool) (l r u : Tree H) (a : N) (d q : ℕ)
      → fetch (node_at d q) (root combine (graft b l r u)) s ≡ (ok a, s)
      → ops.hash a ≡ root combine (graft b l r u)
      → ops.left a ≡ some (pick b (root combine u) (root combine (pick (not b) l r)))
      → ops.right a ≡ some (pick (not b) (root combine u) (root combine (pick (not b) l r)))
      → Held combine ops fetch s (pick (not b) l r) (suc d) (2 * q + turn (not b))
      → Held combine ops fetch s u (suc d) (2 * q + turn b)
      → Held combine ops fetch s (graft b l r u) d q
  Held-graft true l r u a d q f e el er beside here = (a, f, (e, el, er, beside, here))
  Held-graft false l r u a d q f e el er beside here = (a, f, (e, el, er, here, beside))
