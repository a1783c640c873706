-- ===== src/Merkle/Map.antt =====
-- The tree of a function from leaves to hashes: a full tree, as the abstract view of a collection.
use mathlib.Core.Path.{subst}
use zkc_state.Prelude.{
  ◌≢◌, ℕ, zero, suc, ◌+◌, ◌*◌, ◌^◌, ◌≤◌, ◌<◌, ◌≡◌, refl, ap, ◌∙◌, true, false, [], ◌∷◌, some, arith,
  ◌==◌, ==_refl, ≢→==, length, if◌then◌else◌,
}
use native.Mathlib.Decide.{dec_lt}
use zkc_state.Prelude.Words.{two_pow-suc}
use zkc_state.Merkle.Spec.{
  Tree, leaf, node, Turns, turns, root, subtree, replace, end_of, end_of-turns, length-turns,
}
use zkc_state.Merkle.Valid.{Valid}

-- The leaves below a node are those below its left child, followed by those below its right child.
halves :
    (n q : ℕ)
    → (q * 2 ^ suc n ≡ (2 * q + 0) * 2 ^ n)
      × ((2 * q + 0 + 1) * 2 ^ n ≡ (2 * q + 0) * 2 ^ n + 2 ^ n)
      × ((2 * q + 1) * 2 ^ n ≡ (2 * q + 0) * 2 ^ n + 2 ^ n)
      × ((2 * q + 1 + 1) * 2 ^ n ≡ (2 * q + 1) * 2 ^ n + 2 ^ n)
      × ((q + 1) * 2 ^ suc n ≡ (2 * q + 1) * 2 ^ n + 2 ^ n)
halves n q = rw (two_pow-suc n) (grind arith)

-- Where a way from the node `q` ends, among the nodes below it.
end_of_range :
    (bs : Turns) (q : ℕ)
    → (q * 2 ^ length bs ≤ end_of q bs) × (end_of q bs < (q + 1) * 2 ^ length bs)
end_of_range [] q = (omega arith, omega arith)
end_of_range (true ∷ bs) q = omega (arith, halves (length bs) q, end_of_range bs (2 * q + 1))
end_of_range (false ∷ bs) q = omega (arith, halves (length bs) q, end_of_range bs (2 * q + 0))

module _ {H : Type 0} where
  -- The full tree of height `n` over the leaves `q * 2 ^ n` to `(q + 1) * 2 ^ n - 1`.
  unfoldable pub tree_of : ℕ → ℕ → (ℕ → H) → Tree H
  tree_of zero q f = leaf (f q)
  tree_of (suc n) q f = node (tree_of n (2 * q + 0) f) (tree_of n (2 * q + 1) f)

  -- The function after one write.
  abbrev pub write : (ℕ → H) → ℕ → H → ℕ → H
  write f k h j = if j == k then h else f j

  subtree-tree_of :
      (bs : Turns) (n q : ℕ) (f : ℕ → H)
      → length bs ≡ n
      → subtree bs (tree_of n q f) ≡ some (leaf (f (end_of q bs)))
  unfolding tree_of
  subtree-tree_of [] zero q f e = refl
  subtree-tree_of [] (suc n) q f e = absurd (omega arith)
  subtree-tree_of (b ∷ bs) zero q f e = absurd (omega arith)
  subtree-tree_of (true ∷ bs) (suc n) q f e = subtree-tree_of bs n (2 * q + 1) f (omega arith)
  subtree-tree_of (false ∷ bs) (suc n) q f e = subtree-tree_of bs n (2 * q + 0) f (omega arith)

  -- The leaf `k` of the tree has the hash of the function there.
  pub subtree-tree_of_leaf :
      (n k : ℕ) (f : ℕ → H) → k < 2 ^ n → subtree (turns n k) (tree_of n 0 f) ≡ some (leaf (f k))
  subtree-tree_of_leaf n k f inside =
      subtree-tree_of (turns n k) n 0 f (length-turns n k)
      ∙ ap (λ j. some (leaf (f j))) (end_of-turns n k inside)

  -- Functions that agree on the leaves have one tree.
  pub tree_of-agree :
      (n q : ℕ) (f g : ℕ → H)
      → ((k : ℕ) → q * 2 ^ n ≤ k → k < (q + 1) * 2 ^ n → f k ≡ g k)
      → tree_of n q f ≡ tree_of n q g
  unfolding tree_of
  tree_of-agree zero q f g same = ap leaf (same q (omega arith) (omega arith))
  tree_of-agree (suc n) q f g same =
      let left =
        tree_of-agree n (2 * q + 0) f g
          (λ k low high. same k (omega (arith, halves n q)) (omega (arith, halves n q))) in
      let right =
        tree_of-agree n (2 * q + 1) f g
          (λ k low high. same k (omega (arith, halves n q)) (omega (arith, halves n q))) in
      rw (left, right) refl

  -- Outside its leaves, a write changes nothing of a tree.
  write_outside :
      (n q k : ℕ) (f : ℕ → H) (h : H)
      → ((j : ℕ) → q * 2 ^ n ≤ j → j < (q + 1) * 2 ^ n → j ≢ k)
      → tree_of n q (write f k h) ≡ tree_of n q f
  write_outside n q k f h apart =
      tree_of-agree n q (write f k h) f (λ j low high. rw (≢→== j k (apart j low high)) refl)

  replace_way :
      (bs : Turns) (n q : ℕ) (f : ℕ → H) (h : H)
      → length bs ≡ n
      → replace bs (tree_of n q f) (leaf h) ≡ tree_of n q (write f (end_of q bs) h)
  unfolding tree_of
  replace_way [] zero q f h e = rw (==_refl q) refl
  replace_way [] (suc n) q f h e = absurd (omega arith)
  replace_way (b ∷ bs) zero q f h e = absurd (omega arith)
  replace_way (true ∷ bs) (suc n) q f h e =
      let level : length bs ≡ n = omega arith in
      let range = end_of_range bs (2 * q + 1) in
      let beside =
        write_outside n (2 * q + 0) (end_of (2 * q + 1) bs) f h
          (λ j low high same. absurd (omega (arith, rw level at range))) in
      rw (replace_way bs n (2 * q + 1) f h level, beside) refl
  replace_way (false ∷ bs) (suc n) q f h e =
      let level : length bs ≡ n = omega arith in
      let range = end_of_range bs (2 * q + 0) in
      let beside =
        write_outside n (2 * q + 1) (end_of (2 * q + 0) bs) f h
          (λ j low high same. absurd (omega (arith, rw level at range))) in
      rw (replace_way bs n (2 * q + 0) f h level, beside) refl

  -- Replacing the leaf `k` is one write.
  pub replace-tree_of :
      (n k : ℕ) (f : ℕ → H) (h : H)
      → k < 2 ^ n
      → replace (turns n k) (tree_of n 0 f) (leaf h) ≡ tree_of n 0 (write f k h)
  replace-tree_of n k f h inside =
      replace_way (turns n k) n 0 f h (length-turns n k)
      ∙ ap (λ j. tree_of n 0 (write f j h)) (end_of-turns n k inside)

  pub tree_of-Valid :
      (combine : H → H → H) (V : H → Type 0) (n q : ℕ) (f : ℕ → H)
      → ((k : ℕ) → V (f k))
      → Valid combine V (tree_of n q f)
  unfolding tree_of
  tree_of-Valid combine V zero q f valid = valid q
  tree_of-Valid combine V (suc n) q f valid =
      (tree_of-Valid combine V n (2 * q + 0) f valid, tree_of-Valid combine V n (2 * q + 1) f valid)

  module _ (combine : H → H → H) (V : H → Type 0) (closed : (a b : H) → V a → V b → V (combine a b))
      (injective : (a b x y : H)
        → V a
        → V b
        → V x
        → V y
        → combine a b ≡ combine x y
        → (a ≡ x) × (b ≡ y)) where
    root_valid : (n q : ℕ) (f : ℕ → H) → ((k : ℕ) → V (f k)) → V (root combine (tree_of n q f))
    unfolding tree_of
    root_valid zero q f valid = valid q
    root_valid (suc n) q f valid =
        closed _ _ (root_valid n (2 * q + 0) f valid) (root_valid n (2 * q + 1) f valid)

    -- Functions whose trees have one root agree on the leaves.
    pub root_binds :
        (n q : ℕ) (f g : ℕ → H)
        → ((k : ℕ) → V (f k))
        → ((k : ℕ) → V (g k))
        → root combine (tree_of n q f) ≡ root combine (tree_of n q g)
        → (k : ℕ) → q * 2 ^ n ≤ k
        → k < (q + 1) * 2 ^ n
        → f k ≡ g k
    unfolding tree_of
    root_binds zero q f g vf vg e k low high =
        let z : q ≡ k = omega arith in subst (λ j. f j ≡ g j) z e
    root_binds (suc n) q f g vf vg e k low high =
        let (el, er) =
          injective _ _ _ _ (root_valid n (2 * q + 0) f vf) (root_valid n (2 * q + 1) f vf)
            (root_valid n (2 * q + 0) g vg) (root_valid n (2 * q + 1) g vg) e in
        elim (dec_lt k ((2 * q + 1) * 2 ^ n)) [
          | yes left ↦
              root_binds n (2 * q + 0) f g vf vg el k (omega (arith, halves n q))
                (omega (arith, halves n q))
          | no right ↦
              root_binds n (2 * q + 1) f g vf vg er k (omega (arith, halves n q))
                (omega (arith, halves n q))
        ]
