-- ===== src/Tests/Walk.antt =====
-- The client's walk to a leaf, over a service where the leaf and the one beside it are set.
use mathlib.Core.Path.{subst}
use zkc_state.Prelude.{◌≡◌, ◌≢◌, refl, sym, ◌∙◌, arith, [], some, none}
use zkc_state.Outcome.{ok}
use zkc_state.Hash.{Hash}
use zkc_state.Merkle.Bounds.{node_at}
use zkc_state.Merkle.Prune.{Ends}
use zkc_state.Merkle.Spec.{Tree, leaf, turns, root, siblings, subtree, replace}
use zkc_state.Merkle.Tree.{get_leaf_with_proof, set_leaf_with_proof}
use zkc_state.Kvpair.Combine.{combine}
use zkc_state.Kvpair.Hash.{default_contract_id}
use zkc_state.Kvpair.Record.{MerkleRecord, new_leaf}
use zkc_state.Service.DataRecords.{OneEach}
use zkc_state.Service.Empty.{default_tree, leaf-default_tree}
use zkc_state.Service.Leaf.{LeafSet, Holds, proof_of, set_leaf_and_get_proof_lem}
use zkc_state.Client.Calls.{MongoMerkle}
use zkc_state.Client.Tree.{construct, mongo_merkle}
use zkc_state.Service.Laws.{AnswersHash}
use zkc_state.Client.Update.{set_leaf_with_proof_over}
use zkc_state.Client.Walk.{Visible, get_leaf_with_proof_over}
use zkc_state.Tests.Client.{
  direct, direct-Delivers, number_crypto-Sized, serves, n, m, hash_0, hash_of_zeros,
}
use zkc_state.Tests.Instances.{
  number_crypto, number_crypto_laws, number_crypto-CollisionFree, read-write,
}
use zkc_state.Tests.Server.{Databases, no_databases, test_server, test_server_laws}
use zkc_state.Tests.Values.{
  hash_9, nine, hash_7, seven, new_tree, old_hash, no_default, no_empty, host, no_bytes, held_here,
}

abbrev one_leaf : Tree Hash
one_leaf = replace (turns 32 6) new_tree (leaf hash_9)

abbrev two_leaves : Tree Hash
two_leaves = replace (turns 32 7) one_leaf (leaf hash_9)

leaf_7 : subtree (turns 32 7) one_leaf ≡ some (leaf old_hash)
unfolding turns default_tree
leaf_7 = refl

leaf_6 : subtree (turns 32 6) two_leaves ≡ some (leaf hash_9)
unfolding turns default_tree
leaf_6 = refl

beside :
    Ends
      (Visible number_crypto number_crypto_laws)
      (siblings (combine number_crypto) (turns 32 6) two_leaves)
unfolding turns default_tree
beside = (nine, no_default, no_empty)

abbrev set_6 :
    LeafSet number_crypto test_server test_server_laws n m number_crypto_laws
      number_crypto-CollisionFree no_databases new_tree 6 hash_9
set_6 =
    set_leaf_and_get_proof_lem number_crypto test_server test_server_laws n m number_crypto_laws
      number_crypto-CollisionFree 6 new_tree old_hash hash_9 no_databases (omega arith)
      (leaf-default_tree number_crypto number_crypto_laws 6) nine held_here

abbrev set_7 :
    LeafSet number_crypto test_server test_server_laws n m number_crypto_laws
      number_crypto-CollisionFree set_6.after one_leaf 7 hash_9
set_7 =
    set_leaf_and_get_proof_lem number_crypto test_server test_server_laws n m number_crypto_laws
      number_crypto-CollisionFree 7 one_leaf old_hash hash_9 set_6.after (omega arith) leaf_7 nine
      set_6.holds

no_data : OneEach (test_server_laws.records m set_7.after)
no_data = subst OneEach (sym (set_7.elsewhere.1 m ∙ set_6.elsewhere.1 m)) (λ x y ix iy e. absurd ix)

abbrev connected : MongoMerkle Databases
connected = construct set_7.after default_contract_id (root (combine number_crypto) two_leaves)

get_leaf_with_proof_over_example :
    (a : MerkleRecord) × (get_leaf_with_proof
        (mongo_merkle number_crypto direct)
        32
        (node_at 32 6)
        connected
      ≡ (
        ok (a, proof_of number_crypto test_server test_server_laws n m two_leaves hash_9 6),
        connected,
      ))
    × (a.hash ≡ hash_9)
get_leaf_with_proof_over_example =
    get_leaf_with_proof_over number_crypto number_crypto_laws number_crypto-CollisionFree
      test_server test_server_laws no_bytes host default_contract_id refl number_crypto-Sized direct
      direct-Delivers 6 two_leaves hash_9 connected serves (omega arith) leaf_6
      (nine, no_default, no_empty) beside refl no_data set_7.holds

no_zeros : AnswersHash hash_0 (test_server_laws.records m set_7.after) none
no_zeros =
    subst (λ rs. AnswersHash hash_0 rs none) (sym (set_7.elsewhere.1 m ∙ set_6.elsewhere.1 m))
      (λ r inside e. inside)

abbrev with_7 : Tree Hash
with_7 = replace (turns 32 6) two_leaves (leaf hash_7)

abbrev with_zeros : Tree Hash
with_zeros = replace (turns 32 6) two_leaves (leaf hash_0)

set_leaf_with_proof_over_example :
    (s' : Databases) × (top : Hash) × (top ≡ root (combine number_crypto) with_7)
    × (set_leaf_with_proof
          (mongo_merkle number_crypto direct)
          32
          (new_leaf (node_at 32 6) hash_7)
          connected
        ≡ (
          ok (record {
            source = hash_7;
            root = top;
            assist = siblings (combine number_crypto) (turns 32 6) two_leaves;
            index = node_at 32 6;
          }),
          record connected { client = s'; root_hash = top },
        ))
    × Holds number_crypto test_server test_server_laws n m s' with_zeros
    × (hash_7 ≢ hash_0 → top ≢ root (combine number_crypto) with_zeros)
set_leaf_with_proof_over_example =
    set_leaf_with_proof_over number_crypto number_crypto_laws number_crypto-CollisionFree
      test_server test_server_laws no_bytes host default_contract_id refl number_crypto-Sized direct
      direct-Delivers 6 two_leaves hash_9 hash_0 none (new_leaf (node_at 32 6) hash_7) connected
      serves (λ p. ([], refl)) (omega arith) refl seven leaf_6 (nine, no_default, no_empty) beside
      refl hash_of_zeros (0, read-write 0) no_data no_zeros set_7.holds
