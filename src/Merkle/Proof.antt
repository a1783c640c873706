-- ===== src/Merkle/Proof.antt =====
-- What the provided methods of `MerkleTree` do, in a state that holds a tree.
use zkc_state.Prelude.{
  ℕ, zero, suc, ◌+◌, ◌/◌, ◌%◌, ◌^◌, ◌≤◌, ◌<◌, ◌≡◌, ◌≢◌, ◌↔◌, refl, ap, sym, ◌∙◌, Bool, true, false,
  List, [], ◌∷◌, ◌++◌, reverse, some, arith, ◌==◌, ==_refl, length, if◌then◌else◌,
}
use mathlib.Core.List.{reverse-append}
use zkc_state.Outcome.{ok, err, ok-injective}
use zkc_state.Merkle.Error.{invalid_leaf_index}
use zkc_state.Merkle.Node.{MerkleProof, MerkleTree}
use zkc_state.Merkle.Bounds.{node_at, get_offset-node_at}
use zkc_state.Merkle.Path.{get_path-leaf, leaf_check-leaf, leaf_check_rejects, length-ancestors}
use zkc_state.Merkle.Index
use zkc_state.Merkle.Tree.{get_leaf_with_proof, fold_assist, verify_proof}
use zkc_state.Merkle.Spec.{
  Turns, turns, above, root, siblings, subtree, rebuild, end_of-turns, length-turns, way_down-turns,
}
use zkc_state.Merkle.Spec
use zkc_state.Merkle.Descend.{Held, Stored-hash, descend_lem}
use zkc_state.Merkle.Rebuild.{rebuild-turns, length-reverse, rebuild-siblings, rebuild-injective}
use zkc_state.Merkle.Valid.{length-siblings}

module _ {H N S : Type 0} (tree : MerkleTree H N S) (combine : H → H → H) where
  -- The proof for a node of a tree: the hash there, the root, and the hashes beside the way.
  abbrev pub proof_in : Spec.Tree H → Spec.Tree H → ℕ → ℕ → MerkleProof H
  proof_in t u D k = record {
    source = root combine u;
    root = root combine t;
    assist = siblings combine (turns D k) t;
    index = node_at D k;
  }

  abbrev HeldAt : S → Spec.Tree H → ℕ → ℕ → Type 0
  HeldAt = Held combine tree.node tree.get_node_with_hash

  -- At a height of 62 or less, in a state that holds a tree under its current root, with a subtree
  -- at the leaf's place: `get_leaf_with_proof` returns a node with the hash there and a proof with
  -- the root and the siblings' hashes from the top, and changes nothing.
  pub get_leaf_with_proof_lem :
      (D k : ℕ) (t u : Spec.Tree H) (s : S)
      → D ≤ 62
      → k < 2 ^ D
      → subtree (turns D k) t ≡ some u
      → tree.get_root_hash s ≡ root combine t
      → HeldAt s t 0 0
      → (c : N) × (get_leaf_with_proof tree D (node_at D k) s ≡ (ok (c, proof_in t u D k), s))
        × (tree.node.hash c ≡ root combine u)
  unfolding get_leaf_with_proof
  get_leaf_with_proof_lem D k t u s small inside eu er (a, f, st) =
      let level : 0 + length (turns D k) ≤ 62 = omega (arith, length-turns D k) in
      let (c, walked, _, held) =
        descend_lem combine tree.node tree.get_node_with_hash (turns D k) t u 0 0 a s eu level
          (omega arith) f st in
      let hc = Stored-hash combine tree.node tree.get_node_with_hash s u _ _ c held in
      let walked' = rw (way_down-turns D k inside) at walked in
      (
        c,
        rw
            (
              leaf_check-leaf D k small inside,
              get_path-leaf D k small inside,
              length-ancestors D k,
              ==_refl D,
            )
            (rw er (rw f (rw walked' (rw (hc, er))))),
        hc,
      )

  -- At an index that is no leaf, the error `invalid_leaf_index` with that index, and nothing is read.
  pub get_leaf_with_proof_rejects :
      (D i : ℕ) (s : S)
      → Index.get_node_type i D ≢ Index.node_leaf
      → get_leaf_with_proof tree D i s ≡ (err (Index.error_at i invalid_leaf_index), s)
  unfolding get_leaf_with_proof
  get_leaf_with_proof_rejects D i s no_leaf = rw (leaf_check_rejects i D no_leaf)

  module _ (hashes : (a b : H) → tree.hash a b ≡ ok (combine a b)) where
    hash_step :
        (b : Bool) (x h : H)
        → (if b then tree.hash x h else tree.hash h x) ≡ ok (above combine b x h)
    hash_step true x h = hashes x h
    hash_step false x h = hashes h x

    -- `verify_proof` pairs the lowest turn with the first hash of `assist`, so it computes the root
    -- for the reversed list.
    fold_assist_lem :
        (D n p : ℕ) (xs : List H) (h : H)
        → length xs ≡ n
        → fold_assist tree D xs p h ≡ ok (rebuild combine (turns n p) (reverse xs) h)
    unfolding fold_assist turns
    fold_assist_lem D zero p [] h e = refl
    fold_assist_lem D zero p (x ∷ xs) h e = absurd (omega arith)
    fold_assist_lem D (suc n) p [] h e = absurd (omega arith)
    fold_assist_lem D (suc n) p (x ∷ xs) h e =
        let flip : reverse (x ∷ xs) ≡ reverse xs ++ x ∷ [] = reverse-append (x ∷ []) xs in
        let size : length (reverse xs) ≡ n = omega (arith, length-reverse xs) in
        rw (hash_step (p % 2 == 1) x h) (
          fold_assist_lem D n (p / 2) xs (above combine (p % 2 == 1) x h) (omega arith)
          ∙ ap ok (
              sym (rebuild-turns combine n p (reverse xs) x h size)
              ∙ ap (λ l. rebuild combine (turns (suc n) p) l h) (sym flip)))

    -- For a hash that does not fail, at a height of 62 or less: for a proof at a leaf's index with
    -- one hash for each level, `verify_proof` compares the root with the one that the reversed
    -- list of hashes gives for the source.
    pub verify_proof_lem :
        (D k : ℕ) (proof : MerkleProof H)
        → D ≤ 62
        → k < 2 ^ D
        → proof.index ≡ node_at D k
        → length proof.assist ≡ D
        → verify_proof tree D proof
          ≡ ok
              (tree.eq proof.root (rebuild combine (turns D k) (reverse proof.assist) proof.source))
    unfolding verify_proof
    verify_proof_lem D k proof small inside ei el =
        let small' : D ≤ 63 = omega arith in
        rw (ei, get_offset-node_at D k small' inside)
          (rw (fold_assist_lem D D k proof.assist proof.source el))

    -- For a hash that does not fail and has no collisions, and an `eq` that decides equality, at a
    -- height of 62 or less: the proof that has a node's hash, the root and the siblings from the
    -- top, as `get_leaf_with_proof` returns it, is accepted by `verify_proof` exactly when its
    -- list of siblings is its own reverse.
    pub verify_proof_honest :
        ((a b : H) → (tree.eq a b ≡ true) ↔ (a ≡ b))
        → ((a b c d : H) → combine a b ≡ combine c d → (a ≡ c) × (b ≡ d))
        → (D k : ℕ) (t u : Spec.Tree H) → D ≤ 62
        → k < 2 ^ D
        → subtree (turns D k) t ≡ some u
        → (verify_proof tree D (proof_in t u D k) ≡ ok true)
          ↔ (reverse (siblings combine (turns D k) t) ≡ siblings combine (turns D k) t)
    verify_proof_honest eq_iff injective D k t u small inside eu =
        let xs = siblings combine (turns D k) t in
        let size : length xs ≡ D = length-siblings combine (turns D k) t u eu ∙ length-turns D k in
        let run = verify_proof_lem D k (proof_in t u D k) small inside refl size in
        let honest = rebuild-siblings combine (turns D k) t u eu in
        (
          λ accepted.
              let equal = (eq_iff _ _).0 (ok-injective (sym run ∙ accepted)) in
              (rebuild-injective combine injective (turns D k) (reverse xs) xs _ _
                (length-reverse xs ∙ size ∙ sym (length-turns D k)) (size ∙ sym (length-turns D k))
                (sym equal ∙ sym honest)).0,
          λ same. run ∙ ap ok ((eq_iff _ _).1 (rw (same, honest))),
        )
