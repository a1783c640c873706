-- ===== src/Tests/Client.antt =====
-- The laws of the client at concrete inputs: a connection that runs the handlers.
use mathlib.Core.Path.{subst}
use zkc_state.Prelude.{ℕ, ◌≡◌, ◌≢◌, refl, ap, sym, ◌∙◌, arith, chunks, [], none, some, String}
use zkc_state.Outcome.{ok, err, ok-injective}
use zkc_state.Hash.{Hash, zeros32, bytes_eq}
use zkc_state.Merkle.Bounds.{node_at}
use zkc_state.Merkle.Climb.{Extends}
use zkc_state.Merkle.Error.{invalid_depth}
use zkc_state.Merkle.Spec.{leaf, turns, replace}
use zkc_state.Merkle.Valid.{subtree-replace}
use zkc_state.Poseidon
use zkc_state.Kvpair.Hash.{default_contract_id, hash_children}
use zkc_state.Kvpair.Combine.{combine, hash_children_lem}
use zkc_state.Kvpair.Record.{MerkleRecord, new_leaf, zero_hash, record_node}
use zkc_state.Service.Collection.{get_merkle_collection_name, get_data_collection_name}
use zkc_state.Service.Handlers.{get_leaf, set_leaf}
use zkc_state.Service.Queries.{get_non_leaf, set_non_leaf}
use zkc_state.Service.Laws.{AnswersHash}
use zkc_state.Service.DataRecords.{OneEach}
use zkc_state.Service.Fetch.{fetch}
use zkc_state.Service.Insert.{Good}
use zkc_state.Service.Leaf.{Holds, LeafSet, get_leaf_fetched, set_leaf_and_get_proof_lem}
use zkc_state.Service.Empty.{leaf-default_tree}
use zkc_state.Service.Parent.{parent_of}
use zkc_state.Client.Calls.{KvPairClient, MongoMerkle}
use zkc_state.Client.Tree.{construct, get_node_with_hash, set_parent, set_leaf_of}
use zkc_state.Client.Delivery.{Delivers, sent, some_of}
use zkc_state.Client.Inner.{Sized, Serves}
use zkc_state.Client.Parent.{set_parent_get_node, set_parent_refuses}
use zkc_state.Client.SetLeaf.{set_leaf_of_lem}
use zkc_state.Client.Leaf.{get_node_with_hash_leaf, get_node_with_hash_default}
use zkc_state.Tests.Instances.{
  number_crypto, number_crypto_laws, number_crypto-CollisionFree, read-write, write_number, square,
  pair, read_number,
}
use zkc_state.Tests.Server.{Databases, no_databases, test_server, test_server_laws}
use zkc_state.Tests.Values.{
  hash_9, hash_7, nine, seven, new_tree, old_hash, no_default, no_empty, host, no_bytes, configured,
  held_here, head_of,
}

abbrev pub direct : KvPairClient (Unit {0}) Databases
direct = record {
  get_root = λ r s. (ok [], s);
  set_root = λ r s. (ok [], s);
  get_leaf = λ r. get_leaf number_crypto test_server no_bytes host (sent r);
  set_leaf = λ r. set_leaf number_crypto test_server no_bytes host (sent r);
  get_non_leaf = λ r. some_of (get_non_leaf number_crypto test_server no_bytes host (sent r));
  set_non_leaf = λ r. some_of (set_non_leaf number_crypto test_server no_bytes host (sent r));
}

pub direct-Delivers : Delivers number_crypto test_server no_bytes host direct
direct-Delivers = record {
  leaf_call = λ r s. refl;
  set_leaf_call = λ r s. refl;
  non_leaf_call = λ r s. refl;
  set_non_leaf_call = λ r s. refl;
}

pub number_crypto-Sized : Sized number_crypto
number_crypto-Sized x = refl

pub serves : Serves number_crypto (Unit {0}) host default_contract_id default_contract_id
serves T r = configured (sent r) (some default_contract_id.id)

abbrev pub n : String
n = get_merkle_collection_name number_crypto default_contract_id

abbrev pub m : String
m = get_data_collection_name number_crypto default_contract_id

abbrev connected : Databases → MongoMerkle Databases
connected s = construct s default_contract_id old_hash

set_parent_get_node_example :
    (s' : Databases) × (set_parent number_crypto direct
        (node_at 3 2)
        (combine number_crypto hash_7 hash_9)
        hash_7
        hash_9
        (connected no_databases)
      ≡ (ok tt, connected s'))
    × (get_node_with_hash number_crypto direct
          (node_at 3 2)
          (combine number_crypto hash_7 hash_9)
          (connected s')
        ≡ (
          ok (parent_of number_crypto test_server test_server_laws n m (node_at 3 2) hash_7 hash_9),
          connected s',
        ))
    × Good number_crypto test_server test_server_laws n m s'
    × Extends
        (combine number_crypto)
        (record_node number_crypto)
        (fetch number_crypto test_server test_server_laws n m)
        no_databases
        s'
    × (test_server_laws.current n s' ≡ test_server_laws.current n no_databases)
set_parent_get_node_example =
    set_parent_get_node number_crypto number_crypto_laws number_crypto-CollisionFree test_server
      test_server_laws no_bytes host default_contract_id refl number_crypto-Sized direct
      direct-Delivers 3 2 hash_7 hash_9 (connected no_databases) serves (omega arith) (omega arith)
      seven nine held_here.valid

nine_differs : ◌≢◌ {A = ℕ} 9 203
nine_differs h = absurd (omega (arith, h))

hashed :
    hash_children number_crypto {E = Unit {0}} hash_7 hash_7
    ≡ ok (record { bytes = write_number 203 })
unfolding hash_children square pair read_number bytes_eq
hashed = refl

not_the_parent : hash_9 ≢ combine number_crypto hash_7 hash_7
unfolding head_of
not_the_parent = λ e.
    let made =
      hash_children_lem number_crypto number_crypto_laws {E = Unit {0}} hash_7 hash_7 seven seven in
    let value = ok-injective (sym made.0 ∙ hashed) in
    nine_differs (ap (λ (x : Hash). head_of x.bytes) (e ∙ value))

set_parent_refuses_example :
    set_parent number_crypto direct (node_at 3 2) hash_9 hash_7 hash_7 (connected no_databases) ≡ (
      err (record { source = hash_9; index = node_at 3 2; code = invalid_depth }),
      connected no_databases,
    )
set_parent_refuses_example =
    set_parent_refuses number_crypto number_crypto_laws number_crypto-CollisionFree test_server
      test_server_laws no_bytes host default_contract_id refl number_crypto-Sized direct
      direct-Delivers 3 2 hash_9 hash_7 hash_7 (connected no_databases) serves (omega arith)
      (omega arith) seven seven nine not_the_parent

-- The state after the leaf 3 is set.
abbrev set :
    LeafSet number_crypto test_server test_server_laws n m number_crypto_laws
      number_crypto-CollisionFree no_databases new_tree 3 hash_9
set =
    set_leaf_and_get_proof_lem number_crypto test_server test_server_laws n m number_crypto_laws
      number_crypto-CollisionFree 3 new_tree old_hash hash_9 no_databases (omega arith)
      (leaf-default_tree number_crypto number_crypto_laws 3) nine held_here

abbrev after_set : Databases
after_set = set.after

abbrev Fetched : Databases → Hash → MerkleRecord → Type 0
Fetched s h a = fetch number_crypto test_server test_server_laws n m (node_at 32 3) h s ≡ (ok a, s)

leaf_after : (a : MerkleRecord) × Fetched after_set hash_9 a
leaf_after =
    let (a, _, _, fetched) =
      get_leaf_fetched number_crypto test_server test_server_laws n m 3
        (replace (turns 32 3) new_tree (leaf hash_9)) hash_9 after_set (omega arith)
        (subtree-replace (turns 32 3) new_tree (leaf old_hash) (leaf hash_9)
          (leaf-default_tree number_crypto number_crypto_laws 3))
        set.holds in
    (a, fetched)

no_data_after :
    OneEach (test_server_laws.records m after_set)
    × AnswersHash hash_9 (test_server_laws.records m after_set) none
no_data_after =
    subst (λ rs. OneEach rs × AnswersHash hash_9 rs none) (sym (set.elsewhere.1 m))
      (λ x y ix iy e. absurd ix, λ r inside e. inside)

get_node_with_hash_leaf_example :
    get_node_with_hash number_crypto direct (node_at 32 3) hash_9 (connected after_set)
    ≡ (ok leaf_after.0, connected after_set)
get_node_with_hash_leaf_example =
    get_node_with_hash_leaf number_crypto number_crypto_laws number_crypto-CollisionFree test_server
      test_server_laws no_bytes host default_contract_id refl number_crypto-Sized direct
      direct-Delivers 3 hash_9 leaf_after.0 none (connected after_set) serves (omega arith) nine
      no_default no_empty no_data_after.0 no_data_after.1 set.holds.valid leaf_after.1

default_leaf : (a : MerkleRecord) × Fetched no_databases old_hash a
default_leaf =
    let (a, _, _, fetched) =
      get_leaf_fetched number_crypto test_server test_server_laws n m 3 new_tree old_hash
        no_databases (omega arith) (leaf-default_tree number_crypto number_crypto_laws 3)
        held_here in
    (a, fetched)

get_node_with_hash_default_example :
    get_node_with_hash number_crypto direct (node_at 32 3) old_hash (connected no_databases)
    ≡ (ok (new_leaf (node_at 32 3) zero_hash), connected no_databases)
get_node_with_hash_default_example =
    get_node_with_hash_default number_crypto number_crypto_laws number_crypto-CollisionFree
      test_server test_server_laws no_bytes host default_contract_id refl number_crypto-Sized direct
      direct-Delivers 3 default_leaf.0 (connected no_databases) serves (omega arith) held_here.valid
      default_leaf.1

abbrev pub hash_0 : Hash
hash_0 = record { bytes = write_number 0 }

pub hash_of_zeros : Poseidon.hash number_crypto {M = Unit {0}} zeros32 ≡ ok hash_0.bytes
unfolding Poseidon.hash Poseidon.field_elements Poseidon.field_element Poseidon.hash_field_elements
    chunks read_number bytes_eq
hash_of_zeros = refl

set_leaf_of_lem_example :
    (s' : Databases) × (set_leaf_of number_crypto direct
        (new_leaf (node_at 32 3) hash_9)
        (connected no_databases)
      ≡ (ok tt, connected s'))
    × Holds number_crypto test_server test_server_laws n m s'
        (replace (turns 32 3) new_tree (leaf hash_0))
set_leaf_of_lem_example =
    set_leaf_of_lem number_crypto number_crypto_laws number_crypto-CollisionFree test_server
      test_server_laws no_bytes host default_contract_id refl direct direct-Delivers 3 new_tree
      old_hash hash_0 none (new_leaf (node_at 32 3) hash_9) (connected no_databases) serves
      (λ p. ([], refl)) refl hash_of_zeros (omega arith)
      (leaf-default_tree number_crypto number_crypto_laws 3) (0, read-write 0)
      (λ x y ix iy e. absurd ix) (λ r inside e. inside) held_here
