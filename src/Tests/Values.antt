-- ===== src/Tests/Values.antt =====
-- What the tests share: a contract's collections, without documents, and hashes.
use zkc_state.Prelude.{ℕ, ◌≡◌, ◌≢◌, refl, ap, arith, [], ◌∷◌, Option, some, false}
use zkc_state.Outcome.{ok}
use zkc_state.Hash.{Bytes, Hash}
use zkc_state.Merkle.Node.{MerkleProof}
use zkc_state.Merkle.Spec.{Tree}
use zkc_state.Kvpair.Hash.{default_contract_id, hash_of_slice, to_array32, empty_hash}
use zkc_state.Kvpair.Combine.{IsField}
use zkc_state.Kvpair.Defaults.{default_at}
use zkc_state.Kvpair.Record.{zero_hash}
use zkc_state.Service.Collection.{
  MongoCollection, get_merkle_collection_name, get_data_collection_name,
}
use zkc_state.Service.Request.{Request, MongoKvPair, get_contract_id}
use zkc_state.Service.Fetch.{plain}
use zkc_state.Service.Leaf.{Holds}
use zkc_state.Service.Empty.{default_tree, empty_Holds}
use zkc_state.Tests.Instances.{
  number_crypto, number_crypto_laws, read-write, write-read, write_number, square, pair,
}
use zkc_state.Tests.Server.{Databases, no_databases, test_server, test_server_laws}

abbrev pub Opened : Type 0
Opened = MongoCollection (Unit {0})

abbrev pub opened : Opened
opened = plain number_crypto test_server "MERKLEDATA_00" "DATAHASH_00"

abbrev pub hash_9 : Hash
hash_9 = record { bytes = write_number 9 }

abbrev pub hash_7 : Hash
hash_7 = record { bytes = write_number 7 }

abbrev pub nine : IsField number_crypto hash_9
nine = (9, read-write 9)

abbrev pub seven : IsField number_crypto hash_7
seven = (7, read-write 7)

abbrev pub new_tree : Tree Hash
new_tree = default_tree number_crypto number_crypto_laws 32

abbrev pub old_hash : Hash
old_hash = default_at number_crypto number_crypto_laws 0

unfoldable pub head_of : Bytes → ℕ
head_of [] = 0
head_of (x ∷ xs) = x

nine_not_zero : ◌≢◌ {A = ℕ} 9 0
nine_not_zero h = absurd (omega (arith, h))

pub no_default : hash_9 ≢ old_hash
unfolding default_at square pair head_of
no_default = λ e. nine_not_zero (ap (λ (x : Hash). head_of x.bytes) e)

pub no_empty : hash_9 ≢ empty_hash number_crypto
unfolding head_of
no_empty = λ e. nine_not_zero (ap (λ (x : Hash). head_of x.bytes) e)

seven_is_not_zero : ◌≢◌ {A = ℕ} 7 0
seven_is_not_zero h = absurd (omega (arith, h))

pub seven_not_zero : hash_7 ≢ zero_hash
unfolding head_of
seven_not_zero = λ e. seven_is_not_zero (ap (λ (x : Hash). head_of x.bytes) e)

abbrev pub HoldsNow : Databases → Tree Hash → Type 0
HoldsNow = Holds number_crypto test_server test_server_laws "MERKLEDATA_00" "DATAHASH_00"

pub held_now : HoldsNow no_databases new_tree
held_now =
    empty_Holds number_crypto number_crypto_laws test_server test_server_laws "MERKLEDATA_00"
      "DATAHASH_00" no_databases (refl, refl)

abbrev pub host : MongoKvPair
host = record { test_config = some default_contract_id; with_indexes = false }

abbrev pub no_bytes : MerkleProof Hash → Option Bytes
no_bytes p = some []

pub configured :
    {T : Type 0} (request : Request T) (wanted : Option Bytes)
    → get_contract_id number_crypto {M = Unit {0}} host request wanted ≡ ok default_contract_id
unfolding get_contract_id
configured request wanted = refl

-- A field element has the length of a hash.
pub hash_of_number :
    (h : Hash) → IsField number_crypto h → hash_of_slice {M = Unit {0}} h.bytes ≡ ok h
unfolding hash_of_slice to_array32
hash_of_number h (x, e) = rw (← write-read h.bytes x e) refl

pub held_here :
    Holds number_crypto test_server test_server_laws
      (get_merkle_collection_name number_crypto default_contract_id)
      (get_data_collection_name number_crypto default_contract_id)
      no_databases
      new_tree
held_here =
    empty_Holds number_crypto number_crypto_laws test_server test_server_laws
      (get_merkle_collection_name number_crypto default_contract_id)
      (get_data_collection_name number_crypto default_contract_id) no_databases (refl, refl)
