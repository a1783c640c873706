-- ===== src/Merkle/Prune.antt =====
-- The part of a tree that a walk to a leaf reads: the nodes on the way, and those beside it as leaves.
-- With it, what one way to fetch nodes gives is carried over to another.
use mathlib.Core.Path.{subst}
use zkc_state.Prelude.{
  ℕ, suc, ◌+◌, ◌*◌, ◌^◌, ◌≤◌, ◌<◌, ◌≡◌, refl, ap, true, false, List, [], ◌∷◌, some, arith, length,
}
use zkc_state.Outcome.{ok}
use zkc_state.Action.{Action}
use zkc_state.Merkle.Node.{MerkleNode}
use zkc_state.Merkle.Bounds.{node_at}
use zkc_state.Merkle.Spec.{Tree, leaf, node, Turns, root, siblings, subtree}
use zkc_state.Merkle.Descend.{Stored, Stored-hash, end-in-range}

-- The last of a list has a property.
abbrev pub Ends : {H : Type 0} → (H → Type 0) → List H → Type 0
Ends V [] = Unit
Ends V (x ∷ []) = V x
Ends V (x ∷ y ∷ xs) = Ends V (y ∷ xs)

Ends-tail : {H : Type 0} (V : H → Type 0) (x : H) (xs : List H) → Ends V (x ∷ xs) → Ends V xs
Ends-tail V x [] e = tt
Ends-tail V x (y ∷ xs) e = e

module _ {H : Type 0} (combine : H → H → H) where
  abbrev pub prune : Turns → Tree H → Tree H
  prune [] t = t
  prune (b ∷ bs) (leaf h) = leaf h
  prune (true ∷ bs) (node l r) = node (leaf (root combine l)) (prune bs r)
  prune (false ∷ bs) (node l r) = node (prune bs l) (leaf (root combine r))

  pub root-prune : (bs : Turns) (t : Tree H) → root combine (prune bs t) ≡ root combine t
  root-prune [] t = refl
  root-prune (b ∷ bs) (leaf h) = refl
  root-prune (true ∷ bs) (node l r) = ap (combine (root combine l)) (root-prune bs r)
  root-prune (false ∷ bs) (node l r) = ap (λ x. combine x (root combine r)) (root-prune bs l)

  pub subtree-prune : (bs : Turns) (t : Tree H) → subtree bs (prune bs t) ≡ subtree bs t
  subtree-prune [] t = refl
  subtree-prune (b ∷ bs) (leaf h) = refl
  subtree-prune (true ∷ bs) (node l r) = subtree-prune bs r
  subtree-prune (false ∷ bs) (node l r) = subtree-prune bs l

  pub siblings-prune :
      (bs : Turns) (t : Tree H) → siblings combine bs (prune bs t) ≡ siblings combine bs t
  siblings-prune [] t = refl
  siblings-prune (b ∷ bs) (leaf h) = refl
  siblings-prune (true ∷ bs) (node l r) = ap (λ l'. root combine l ∷ l') (siblings-prune bs r)
  siblings-prune (false ∷ bs) (node l r) = ap (λ l'. root combine r ∷ l') (siblings-prune bs l)

  -- At the bottom, the sibling is the last one and the subtree is the leaf.
  at_bottom :
      (V : H → Type 0) (x h : H) (bs : Turns) (t : Tree H)
      → length bs ≡ 0
      → subtree bs t ≡ some (leaf h)
      → V h
      → Ends V (x ∷ siblings combine bs t)
      → V x × V (root combine t)
  at_bottom V x h (b ∷ bs) t e el v ends = absurd (omega arith)
  at_bottom V x h [] (leaf g) e el v ends = let same : h ≡ g = cc in (ends, subst V same v)
  at_bottom V x h [] (node l r) e el v ends = absurd (cc)

  module _ {E F S S' N : Type 0} (ops : MerkleNode H N) (fetch : ℕ → H → Action E S N)
      (fetch' : ℕ → H → Action F S' N) (D : ℕ) (V : H → Type 0) (s : S) (s' : S')
      (convert : (d q : ℕ) (h : H) (a : N)
        → d ≤ D
        → q < 2 ^ d
        → (d ≡ D → V h)
        → fetch (node_at d q) h s ≡ (ok a, s)
        → fetch' (node_at d q) h s' ≡ (ok a, s')) where
    pub Stored-prune :
        (bs : Turns) (t : Tree H) (h : H) (d q : ℕ) (a : N)
        → d + length bs ≡ D
        → q < 2 ^ d
        → subtree bs t ≡ some (leaf h)
        → V h
        → Ends V (siblings combine bs t)
        → Stored combine ops fetch s t d q a
        → Stored combine ops fetch' s' (prune bs t) d q a
    Stored-prune [] (leaf x) h d q a level inside el v ends st = st
    Stored-prune [] (node l r) h d q a level inside el v ends st = absurd (cc)
    Stored-prune (b ∷ bs) (leaf x) h d q a level inside el v ends st = absurd (cc)
    Stored-prune (true ∷ bs) (node l r) h d q a level inside el v ends
          (eh, ea, eb, (cl, fl, sl), (cr, fr, sr)) =
        let low =
          λ (bottom : suc d ≡ D). at_bottom V (root combine l) h bs r (omega arith) el v ends in
        let below =
          Stored-prune bs r h (suc d) (2 * q + 1) cr (omega arith) (end-in-range d q true inside) el
            v (Ends-tail V (root combine l) (siblings combine bs r) ends) sr in
        rw (root-prune bs r) (
          eh,
          ea,
          eb,
          (
            cl,
            convert (suc d) (2 * q + 0) (root combine l) cl (omega arith)
                (end-in-range d q false inside) (λ bottom. (low bottom).0) fl,
            Stored-hash combine ops fetch s l (suc d) (2 * q + 0) cl sl,
          ),
          (
            cr,
            convert (suc d) (2 * q + 1) (root combine r) cr (omega arith)
                (end-in-range d q true inside) (λ bottom. (low bottom).1) fr,
            below,
          ),
        )
    Stored-prune (false ∷ bs) (node l r) h d q a level inside el v ends
          (eh, ea, eb, (cl, fl, sl), (cr, fr, sr)) =
        let low =
          λ (bottom : suc d ≡ D). at_bottom V (root combine r) h bs l (omega arith) el v ends in
        let below =
          Stored-prune bs l h (suc d) (2 * q + 0) cl (omega arith) (end-in-range d q false inside)
            el v (Ends-tail V (root combine r) (siblings combine bs l) ends) sl in
        rw (root-prune bs l) (
          eh,
          ea,
          eb,
          (
            cl,
            convert (suc d) (2 * q + 0) (root combine l) cl (omega arith)
                (end-in-range d q false inside) (λ bottom. (low bottom).1) fl,
            below,
          ),
          (
            cr,
            convert (suc d) (2 * q + 1) (root combine r) cr (omega arith)
                (end-in-range d q true inside) (λ bottom. (low bottom).0) fr,
            Stored-hash combine ops fetch s r (suc d) (2 * q + 1) cr sr,
          ),
        )
