-- ===== src/Merkle/Sound.antt =====
-- What `verify_proof` accepts.
use zkc_state.Prelude.{ℕ, ◌^◌, ◌≤◌, ◌<◌, ◌≡◌, ◌↔◌, ap, sym, ◌∙◌, true, reverse, some, length}
use zkc_state.Outcome.{ok, ok-injective}
use zkc_state.Merkle.Node.{MerkleProof, MerkleTree}
use zkc_state.Merkle.Bounds.{node_at}
use zkc_state.Merkle.Tree.{verify_proof}
use zkc_state.Merkle.Spec.{turns, root, siblings, subtree, rebuild, length-turns}
use zkc_state.Merkle.Spec
use zkc_state.Merkle.Valid.{length-siblings}
use zkc_state.Merkle.Rebuild.{length-reverse, rebuild-siblings, rebuild-injective}
use zkc_state.Merkle.Proof.{verify_proof_lem}

module _ {H N S : Type 0} (tree : MerkleTree H N S) (combine : H → H → H)
    (hashes : (a b : H) → tree.hash a b ≡ ok (combine a b))
    (eq_iff : (a b : H) → (tree.eq a b ≡ true) ↔ (a ≡ b))
    (injective : (a b c d : H) → combine a b ≡ combine c d → (a ≡ c) × (b ≡ d)) where
  -- For a hash that does not fail and has no collisions, and an `eq` that decides equality, at a
  -- height of 62 or less: a proof with a tree's root, a leaf's index and one hash for each level
  -- is accepted by `verify_proof` exactly when its source is the hash of the tree there and its
  -- list, reversed, is that of the siblings from the top.
  pub verify_proof_sound :
      (D k : ℕ) (t u : Spec.Tree H) (proof : MerkleProof H)
      → D ≤ 62
      → k < 2 ^ D
      → subtree (turns D k) t ≡ some u
      → proof.index ≡ node_at D k
      → proof.root ≡ root combine t
      → length proof.assist ≡ D
      → (verify_proof tree D proof ≡ ok true) ↔ (
          (proof.source ≡ root combine u) × (reverse proof.assist ≡ siblings combine (turns D k) t))
  verify_proof_sound D k t u proof small inside eu ei er el =
      let run = verify_proof_lem tree combine hashes D k proof small inside ei el in
      let honest = rebuild-siblings combine (turns D k) t u eu in
      let size : length (reverse proof.assist) ≡ length (turns D k) =
        length-reverse proof.assist ∙ el ∙ sym (length-turns D k) in
      (
        λ accepted.
            let equal = (eq_iff _ _).0 (ok-injective (sym run ∙ accepted)) in
            let (assist, source) =
              rebuild-injective combine injective (turns D k) (reverse proof.assist)
                (siblings combine (turns D k) t) proof.source (root combine u) size
                (length-siblings combine (turns D k) t u eu) (sym equal ∙ er ∙ sym honest) in
            (source, assist),
        λ same. run ∙ ap ok ((eq_iff _ _).1 (rw (same.0, same.1) (er ∙ sym honest))),
      )
