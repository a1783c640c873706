-- ===== src/Tests/Service.antt =====
-- The laws of the service's collection at concrete inputs: a collection that starts without documents.
use zkc_state.Prelude.{ℕ, ◌≡◌, ◌≢◌, refl, arith, [], ◌∷◌, some, none}
use zkc_state.Outcome.{Outcome, ok}
use zkc_state.Hash.{Hash, hash_eq, bytes_eq}
use zkc_state.Merkle.Index.{get_node_type, node_leaf}
use zkc_state.Merkle.Bounds.{node_at}
use zkc_state.Merkle.Spec.{leaf, turns, replace}
use zkc_state.Kvpair.Record.{MerkleRecord, new_leaf}
use zkc_state.Kvpair.Defaults.{default_record_at}
use zkc_state.Service.Invariant.{Canonical}
use zkc_state.Service.Collection.{
  Failure, must_get_merkle_record, get_leaf_and_proof, set_leaf_and_get_proof,
}
use zkc_state.Service.Fetch.{fetch}
use zkc_state.Service.Insert.{Good}
use zkc_state.Service.Leaf.{proof_of, get_leaf_and_proof_lem, leaf_record_Canonical}
use zkc_state.Service.Empty.{leaf-default_tree, empty_Holds}
use zkc_state.Service.RoundTrip.{set_get_same, set_get_other}
use zkc_state.Service.Session.{commit, commit_runs_on}
use zkc_state.Tests.Instances.{
  number_crypto, number_crypto_laws, number_crypto-CollisionFree, read-write,
}
use zkc_state.Tests.Values.{Opened, opened, hash_9, new_tree, old_hash, HoldsNow, held_now}
use zkc_state.Tests.Server.{Databases, no_databases, test_server, test_server_laws, find_in}

empty_Holds_example : HoldsNow no_databases new_tree
empty_Holds_example =
    empty_Holds number_crypto number_crypto_laws test_server test_server_laws "MERKLEDATA_00"
      "DATAHASH_00" no_databases (refl, refl)

get_leaf_and_proof_lem_example :
    (a : MerkleRecord) × (get_leaf_and_proof number_crypto test_server opened
        (node_at 32 3)
        no_databases
      ≡ (
        ok (
          a,
          proof_of number_crypto test_server test_server_laws "MERKLEDATA_00" "DATAHASH_00" new_tree
              old_hash 3,
        ),
        no_databases,
      ))
    × (a.hash ≡ old_hash)
get_leaf_and_proof_lem_example =
    get_leaf_and_proof_lem number_crypto test_server test_server_laws "MERKLEDATA_00" "DATAHASH_00"
      3 new_tree old_hash no_databases (omega arith)
      (leaf-default_tree number_crypto number_crypto_laws 3) held_now

five_no_leaf : get_node_type 5 32 ≢ node_leaf
unfolding get_node_type
five_no_leaf = λ h. cc

set_get_same_example :
    (s' : Databases) × (a : MerkleRecord) × (set_leaf_and_get_proof number_crypto test_server opened
        (new_leaf (node_at 32 3) hash_9)
        no_databases
      ≡ (
        ok (
            proof_of number_crypto test_server test_server_laws "MERKLEDATA_00" "DATAHASH_00"
              new_tree hash_9 3),
        s',
      ))
    × (get_leaf_and_proof number_crypto test_server opened (node_at 32 3) s' ≡ (
      ok (
        a,
        proof_of number_crypto test_server test_server_laws "MERKLEDATA_00" "DATAHASH_00"
            (replace (turns 32 3) new_tree (leaf hash_9))
            hash_9
            3,
      ),
      s',
    ))
    × (a.hash ≡ hash_9)
set_get_same_example =
    set_get_same number_crypto test_server test_server_laws "MERKLEDATA_00" "DATAHASH_00"
      number_crypto_laws number_crypto-CollisionFree 3 new_tree old_hash hash_9 no_databases
      (omega arith) (leaf-default_tree number_crypto number_crypto_laws 3) (9, read-write 9)
      held_now

set_get_other_example :
    (s' : Databases) × (a : MerkleRecord) × (set_leaf_and_get_proof number_crypto test_server opened
        (new_leaf (node_at 32 3) hash_9)
        no_databases
      ≡ (
        ok (
            proof_of number_crypto test_server test_server_laws "MERKLEDATA_00" "DATAHASH_00"
              new_tree hash_9 3),
        s',
      ))
    × (get_leaf_and_proof number_crypto test_server opened (node_at 32 8) s' ≡ (
      ok (
        a,
        proof_of number_crypto test_server test_server_laws "MERKLEDATA_00" "DATAHASH_00"
            (replace (turns 32 3) new_tree (leaf hash_9))
            old_hash
            8,
      ),
      s',
    ))
    × (a.hash ≡ old_hash)
set_get_other_example =
    set_get_other number_crypto test_server test_server_laws "MERKLEDATA_00" "DATAHASH_00"
      number_crypto_laws number_crypto-CollisionFree 8 3 new_tree old_hash hash_9 old_hash
      no_databases (omega arith) (omega arith) (omega arith)
      (leaf-default_tree number_crypto number_crypto_laws 3)
      (leaf-default_tree number_crypto number_crypto_laws 8) (9, read-write 9) held_now

abbrev GoodNow : Databases → Type 0
GoodNow = Good number_crypto test_server test_server_laws "MERKLEDATA_00" "DATAHASH_00"

abbrev leaf_9 : MerkleRecord
leaf_9 = new_leaf (node_at 32 3) hash_9

leaf_9-Canonical : Canonical number_crypto leaf_9
leaf_9-Canonical =
    leaf_record_Canonical number_crypto test_server test_server_laws "MERKLEDATA_00" "DATAHASH_00"
      number_crypto_laws number_crypto-CollisionFree 3 hash_9 (omega arith)

abbrev default_root : MerkleRecord
default_root = default_record_at number_crypto number_crypto_laws 0 0

abbrev one_document : Databases
one_document = record no_databases { merkle = λ n. record { stored = leaf_9 ∷ []; root = none } }

abbrev fetch_in :
    ℕ → Hash → Databases → Outcome (Failure number_crypto test_server) MerkleRecord × Databases
fetch_in = fetch number_crypto test_server test_server_laws "MERKLEDATA_00" "DATAHASH_00"

fetch_leaf_9 : fetch_in (node_at 32 3) hash_9 one_document ≡ (ok leaf_9, one_document)
unfolding must_get_merkle_record find_in hash_eq bytes_eq
fetch_leaf_9 = refl

abbrev in_session : Opened
in_session = record opened { session = some tt }

commit_runs_on_example :
    ¬ ((commit number_crypto test_server 5 in_session no_databases).0 ≡ ok (some opened))
commit_runs_on_example =
    commit_runs_on number_crypto test_server 5 in_session opened tt no_databases refl
