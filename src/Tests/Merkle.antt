-- ===== src/Tests/Merkle.antt =====
-- The laws of indices, paths and proofs at concrete inputs.
use zkc_state.Prelude.{
  ℕ, zero, suc, ◌-◌, ◌^◌, ◌<◌, ◌≡◌, ◌⊎◌, ◌↔◌, refl, sym, ◌∙◌, Bool, true, false, [], ◌∷◌, reverse,
  Option, some, arith, ap, ◌==◌, ◌&&◌, ==_iff, ==_refl,
}
use zkc_state.Outcome.{Outcome, ok, err, panic}
use zkc_state.Merkle.Error.{MerkleError, invalid_leaf_index}
use zkc_state.Merkle.Index
use zkc_state.Merkle.Index.{
  get_offset, get_node_type, get_sibling_index, leaf_check, node_leaf, node_non_leaf, node_invalid,
  error_at,
}
use zkc_state.Merkle.Bounds.{node_at, get_offset_lem}
use zkc_state.Merkle.Path.{ancestors, get_path-leaf}
use zkc_state.Merkle.Node.{MerkleNode, MerkleProof, MerkleTree}
use zkc_state.Merkle.Tree.{fold_assist, get_leaf_with_proof, verify_proof}
use zkc_state.Merkle.Spec.{Tree, leaf, node, turns, root, siblings}
use zkc_state.Merkle.Sound.{verify_proof_sound}
use zkc_state.Merkle.Proof.{proof_in, get_leaf_with_proof_lem, verify_proof_honest}

get_offset_lem_example :
    ((d : ℕ) × (k : ℕ) × (get_offset {E = MerkleError} 9 ≡ ok k) × (9 ≡ node_at d k) × (k < 2 ^ d))
    ⊎ ((get_offset {E = MerkleError} 9 ≡ panic) × (9 ≡ 2 ^ 64 - 1))
get_offset_lem_example = get_offset_lem 9 (omega arith)

get_path-leaf_example : Index.get_path (node_at 3 2) 3 ≡ ok (ancestors 3 2)
get_path-leaf_example = get_path-leaf 3 2 (omega arith) (omega arith)

-- The path to the leaf 9 of a tree of height 3
path_to_9 : Index.get_path 9 3 ≡ ok (1 ∷ 4 ∷ 9 ∷ [])
unfolding Index.get_path Index.leaf_check Index.get_node_type Index.ilog2 Index.log2_loop
    Index.get_path_loop
path_to_9 = refl

-- Hashes that keep what was hashed.
pub data Term : Type 0 where
  atom : ℕ → Term
  both : Term → Term → Term

both-injective : (a b c d : Term) → both a b ≡ both c d → (a ≡ c) × (b ≡ d)
both-injective a b c d e = (cc, cc)

-- A tree of two leaves that cannot be written.
abbrev two_leaves : Tree Term
two_leaves = node (leaf (atom 1)) (leaf (atom 2))

abbrev pub Row : Type 0
Row = ℕ × Term × Option Term × Option Term

abbrev pub row_node : MerkleNode Term Row
row_node = record {
  hash = λ r. r.1;
  index = λ r. r.0;
  set = λ r bytes. ok r;
  left = λ r. r.2;
  right = λ r. r.3;
}

abbrev row_at : ℕ → Term → Outcome MerkleError Row
row_at zero h = ok (0, both (atom 1) (atom 2), some (atom 1), some (atom 2))
row_at (suc zero) h = ok (1, atom 1, Option.none, Option.none)
row_at (suc (suc zero)) h = ok (2, atom 2, Option.none, Option.none)
row_at (suc (suc (suc i))) h = err (error_at i invalid_leaf_index)

pub term_eq : Term → Term → Bool
term_eq (atom m) (atom n) = m == n
term_eq (atom m) (both c d) = false
term_eq (both a b) (atom n) = false
term_eq (both a b) (both c d) = term_eq a c && term_eq b d

term_eq→eq : (a b : Term) → term_eq a b ≡ true → a ≡ b
unfolding term_eq
term_eq→eq (atom m) (atom n) h = ap atom ((==_iff m n).0 h)
term_eq→eq (atom m) (both c d) h = absurd (cc)
term_eq→eq (both a b) (atom n) h = absurd (cc)
term_eq→eq (both a b) (both c d) h = ground (arith, term_eq→eq a c, term_eq→eq b d)

term_eq_refl : (a : Term) → term_eq a a ≡ true
unfolding term_eq
term_eq_refl (atom m) = ==_refl m
term_eq_refl (both a b) = rw (term_eq_refl a) (term_eq_refl b)

term_eq_iff : (a b : Term) → (term_eq a b ≡ true) ↔ (a ≡ b)
term_eq_iff a b = (term_eq→eq a b, λ e. ap (term_eq a) (sym e) ∙ term_eq_refl a)

abbrev row_tree : MerkleTree Term Row (Unit {0})
row_tree = record {
  node = row_node;
  eq = term_eq;
  hash = λ a b. ok (both a b);
  set_parent = λ i h l r s. (ok tt, s);
  set_leaf = λ r s. (ok tt, s);
  get_node_with_hash = λ i h s. (row_at i h, s);
  get_root_hash = λ s. both (atom 1) (atom 2);
  update_root_hash = λ h s. s;
}

get_leaf_with_proof_lem_example :
    (c : Row) × (get_leaf_with_proof row_tree 1 (node_at 1 1) tt
      ≡ (ok (c, proof_in row_tree both two_leaves (leaf (atom 2)) 1 1), tt))
    × (c.1 ≡ atom 2)
get_leaf_with_proof_lem_example =
    get_leaf_with_proof_lem row_tree both 1 1 two_leaves (leaf (atom 2)) tt (omega arith)
      (omega arith) (unfold turns in refl) refl
      (
        (0, both (atom 1) (atom 2), some (atom 1), some (atom 2)),
        refl,
        (
          refl,
          refl,
          refl,
          ((1, atom 1, Option.none, Option.none), refl, refl),
          ((2, atom 2, Option.none, Option.none), refl, refl),
        ),
      )

abbrev pub four_leaves : Tree Term
four_leaves = node (node (leaf (atom 1)) (leaf (atom 2))) (node (leaf (atom 3)) (leaf (atom 4)))

abbrev proof_of_2 : MerkleProof Term
proof_of_2 = record {
  source = atom 2;
  root = root both four_leaves;
  assist = atom 1 ∷ both (atom 3) (atom 4) ∷ [];
  index = 4;
}

-- The list with the lowest sibling first is accepted for the second of four leaves.
accepts_bottom_up : verify_proof row_tree 2 proof_of_2 ≡ ok true
unfolding verify_proof fold_assist get_offset Index.ilog2 Index.log2_loop term_eq
accepts_bottom_up = refl

verify_proof_honest_example :
    (verify_proof row_tree 2 (proof_in row_tree both four_leaves (leaf (atom 2)) 2 1) ≡ ok true)
    ↔ (reverse (siblings both (turns 2 1) four_leaves) ≡ siblings both (turns 2 1) four_leaves)
verify_proof_honest_example =
    verify_proof_honest row_tree both (λ a b. refl) term_eq_iff both-injective 2 1 four_leaves
      (leaf (atom 2)) (omega arith) (omega arith) (unfold turns in refl)

verify_proof_sound_example : (verify_proof row_tree 2 proof_of_2 ≡ ok true) ↔ (
    (atom 2 ≡ atom 2)
    × (reverse (atom 1 ∷ both (atom 3) (atom 4) ∷ []) ≡ siblings both (turns 2 1) four_leaves))
verify_proof_sound_example =
    verify_proof_sound row_tree both (λ a b. refl) term_eq_iff both-injective 2 1 four_leaves
      (leaf (atom 2)) proof_of_2 (omega arith) (omega arith) (unfold turns in refl) refl refl refl
