-- ===== src/Tests/Histories.antt =====
-- The laws of histories, of sequences of writes and of two collections at concrete inputs.
use zkc_state.Prelude.{ℕ, ◌<◌, ◌^◌, ◌≡◌, ◌≢◌, ◌↔◌, refl, arith, inl, inr, List, [], ◌∷◌, String}
use mathlib.Core.Bool.{false≢true}
use text.Mathlib.TextEquality.{eq_iff}
use zkc_state.Outcome.{ok}
use zkc_state.Merkle.Bounds.{node_at}
use zkc_state.Merkle.Map.{tree_of}
use zkc_state.Merkle.Node.{MerkleProof}
use zkc_state.Merkle.Spec.{Tree, leaf, turns, root, replace}
use zkc_state.Hash.{Hash}
use zkc_state.Kvpair.Combine.{combine}
use zkc_state.Kvpair.Record.{MerkleRecord, new_leaf}
use zkc_state.Service.Collection.{
  write_leaf, get_leaf_and_proof, set_leaf_and_get_proof, must_get_merkle_record,
  must_get_root_merkle_record, update_root_merkle_record,
}
use zkc_state.Service.Empty.{leaf-default_tree, empty_Holds}
use zkc_state.Service.Leaf.{Holds, proof_of}
use zkc_state.Service.Writes.{Writes, contents, set_leaves, defaults, read_writes}
use zkc_state.Service.Roots.{ReadsAlike, same_root-ReadsAlike}
use zkc_state.Service.History.{
  History, opened as start, Remembers, History-Remembers, history_writes, history_restores,
}
use zkc_state.Service.Interleaving.{lost_update}
use zkc_state.Service.Isolation.{set_leaf_isolated}
use zkc_state.Tests.Instances.{number_crypto, number_crypto_laws, number_crypto-CollisionFree}
use zkc_state.Tests.Server.{Databases, no_databases, test_server, test_server_laws}
use zkc_state.Tests.Values.{
  opened, hash_9, hash_7, nine, seven, new_tree, old_hash, HoldsNow, held_now,
}

abbrev nine_seven : Writes
nine_seven = (3, hash_9) ∷ (3, hash_7) ∷ []

abbrev only_nine : Writes
only_nine = (3, hash_9) ∷ []

abbrev after : Writes → ℕ → Hash
after ws = contents ws (defaults number_crypto number_crypto_laws)

read_writes_example :
    (s' : Databases) × (a : MerkleRecord) × (set_leaves number_crypto test_server opened nine_seven
        no_databases
      ≡ (ok tt, s'))
    × (get_leaf_and_proof number_crypto test_server opened (node_at 32 3) s' ≡ (
      ok (
        a,
        proof_of number_crypto test_server test_server_laws "MERKLEDATA_00" "DATAHASH_00"
            (tree_of 32 0 (after nine_seven))
            (after nine_seven 3)
            3,
      ),
      s',
    ))
    × (a.hash ≡ after nine_seven 3)
read_writes_example =
    read_writes number_crypto number_crypto_laws number_crypto-CollisionFree test_server
      test_server_laws "MERKLEDATA_00" "DATAHASH_00" nine_seven 3 no_databases
      (omega arith, nine, (omega arith, seven, tt)) (omega arith) (refl, refl)

same_root-ReadsAlike_example :
    (s' t' : Databases) × (a b : MerkleRecord) × (set_leaves number_crypto test_server opened
        nine_seven no_databases
      ≡ (ok tt, s'))
    × (set_leaves number_crypto test_server opened only_nine no_databases ≡ (ok tt, t'))
    × (must_get_root_merkle_record number_crypto test_server opened s' ≡ (ok a, s'))
    × (must_get_root_merkle_record number_crypto test_server opened t' ≡ (ok b, t'))
    × ((a.hash ≡ b.hash) ↔ (
        (k : ℕ)
        → k < 2 ^ 32
        → ReadsAlike number_crypto number_crypto_laws number_crypto-CollisionFree test_server
            test_server_laws "MERKLEDATA_00" "DATAHASH_00" s' t' k))
same_root-ReadsAlike_example =
    same_root-ReadsAlike number_crypto number_crypto_laws number_crypto-CollisionFree test_server
      test_server_laws "MERKLEDATA_00" "DATAHASH_00" nine_seven only_nine no_databases no_databases
      (omega arith, nine, (omega arith, seven, tt)) (omega arith, nine, tt) (refl, refl)
      (refl, refl)

abbrev HistoryNow : Databases → List (Tree Hash) → Type 0
HistoryNow =
    History number_crypto number_crypto_laws test_server test_server_laws "MERKLEDATA_00"
      "DATAHASH_00"

abbrev new_history : HistoryNow no_databases (new_tree ∷ [])
new_history = start (refl, refl)

abbrev with_nine : Tree Hash
with_nine = replace (turns 32 3) new_tree (leaf hash_9)

history_writes_example :
    (s' : Databases) × (proof : MerkleProof Hash) × (set_leaf_and_get_proof number_crypto
        test_server opened
        (new_leaf (node_at 32 3) hash_9)
        no_databases
      ≡ (ok proof, s'))
    × HistoryNow s' (with_nine ∷ new_tree ∷ [])
history_writes_example =
    history_writes number_crypto number_crypto_laws test_server test_server_laws "MERKLEDATA_00"
      "DATAHASH_00" number_crypto-CollisionFree new_tree 3 old_hash hash_9 new_history (omega arith)
      (leaf-default_tree number_crypto number_crypto_laws 3) nine

-- A state after one write.
abbrev written :
    (s' : Databases) × (proof : MerkleProof Hash) × (set_leaf_and_get_proof number_crypto
        test_server opened
        (new_leaf (node_at 32 3) hash_9)
        no_databases
      ≡ (ok proof, s'))
    × HistoryNow s' (with_nine ∷ new_tree ∷ [])
written =
    history_writes number_crypto number_crypto_laws test_server test_server_laws "MERKLEDATA_00"
      "DATAHASH_00" number_crypto-CollisionFree new_tree 3 old_hash hash_9 new_history (omega arith)
      (leaf-default_tree number_crypto number_crypto_laws 3) nine

history_restores_example :
    (s' : Databases) × (a : MerkleRecord) × (must_get_merkle_record number_crypto test_server opened
        0
        (root (combine number_crypto) new_tree)
        written.0
      ≡ (ok a, written.0))
    × (update_root_merkle_record number_crypto test_server opened a written.0 ≡ (ok a, s'))
    × HoldsNow s' new_tree
    × HistoryNow s' (new_tree ∷ with_nine ∷ new_tree ∷ [])
history_restores_example =
    history_restores number_crypto number_crypto_laws test_server test_server_laws "MERKLEDATA_00"
      "DATAHASH_00" number_crypto-CollisionFree (with_nine ∷ new_tree ∷ []) new_tree written.3
      (inr (inl refl))

History-Remembers_example :
    Remembers number_crypto number_crypto_laws test_server test_server_laws "MERKLEDATA_00"
      "DATAHASH_00" written.0
      (with_nine ∷ new_tree ∷ [])
History-Remembers_example =
    History-Remembers number_crypto number_crypto_laws test_server test_server_laws "MERKLEDATA_00"
      "DATAHASH_00" number_crypto-CollisionFree written.3

apart : ◌≢◌ {A = String} "MERKLEDATA_01" "MERKLEDATA_00"
apart e = false≢true ((eq_iff "MERKLEDATA_01" "MERKLEDATA_00").1 e)

held_beside :
    Holds number_crypto test_server test_server_laws "MERKLEDATA_01" "DATAHASH_01" no_databases
      new_tree
held_beside =
    empty_Holds number_crypto number_crypto_laws test_server test_server_laws "MERKLEDATA_01"
      "DATAHASH_01" no_databases (refl, refl)

set_leaf_isolated_example :
    (s' : Databases) × (set_leaf_and_get_proof number_crypto test_server opened
        (new_leaf (node_at 32 3) hash_9)
        no_databases
      ≡ (
        ok (
            proof_of number_crypto test_server test_server_laws "MERKLEDATA_00" "DATAHASH_00"
              new_tree hash_9 3),
        s',
      ))
    × HoldsNow s' with_nine
    × Holds number_crypto test_server test_server_laws "MERKLEDATA_01" "DATAHASH_01" s' new_tree
set_leaf_isolated_example =
    set_leaf_isolated number_crypto test_server test_server_laws number_crypto_laws
      number_crypto-CollisionFree "MERKLEDATA_00" "MERKLEDATA_01" "DATAHASH_00" "DATAHASH_01" 3
      new_tree new_tree old_hash hash_9 no_databases apart (omega arith)
      (leaf-default_tree number_crypto number_crypto_laws 3) nine held_now held_beside

lost_update_example :
    (s1 s2 : Databases) × (a b : MerkleRecord) × (get_leaf_and_proof number_crypto test_server
        opened
        (node_at 32 3)
        no_databases
      ≡ (
        ok (
          a,
          proof_of number_crypto test_server test_server_laws "MERKLEDATA_00" "DATAHASH_00" new_tree
              old_hash 3,
        ),
        no_databases,
      ))
    × (set_leaf_and_get_proof number_crypto test_server opened
          (new_leaf (node_at 32 8) hash_7)
          no_databases
        ≡ (
          ok (
              proof_of number_crypto test_server test_server_laws "MERKLEDATA_00" "DATAHASH_00"
                new_tree hash_7 8),
          s1,
        ))
    × (write_leaf number_crypto test_server opened
          (new_leaf (node_at 32 3) hash_9)
          (proof_of number_crypto test_server test_server_laws "MERKLEDATA_00" "DATAHASH_00"
            new_tree old_hash 3)
          s1
        ≡ (
          ok (
              proof_of number_crypto test_server test_server_laws "MERKLEDATA_00" "DATAHASH_00"
                new_tree hash_9 3),
          s2,
        ))
    × HoldsNow s2 with_nine
    × (get_leaf_and_proof number_crypto test_server opened (node_at 32 8) s2 ≡ (
      ok (
        b,
        proof_of number_crypto test_server test_server_laws "MERKLEDATA_00" "DATAHASH_00" with_nine
            old_hash 8,
      ),
      s2,
    ))
    × (b.hash ≡ old_hash)
lost_update_example =
    lost_update number_crypto test_server test_server_laws "MERKLEDATA_00" "DATAHASH_00"
      number_crypto_laws number_crypto-CollisionFree 3 8 new_tree old_hash old_hash hash_9 hash_7
      no_databases (omega arith) (omega arith) (omega arith)
      (leaf-default_tree number_crypto number_crypto_laws 3)
      (leaf-default_tree number_crypto number_crypto_laws 8) nine seven held_now
