-- ===== src/Client/SetLeaf.antt =====
-- Leaves that the client writes: `set_leaf` of `MongoMerkle`.
use zkc_state.Prelude.{ℕ, ◌^◌, ◌<◌, ◌≡◌, refl, ap, ◌∙◌, false, Option, none, some, String}
use zkc_state.Outcome.{ok}
use zkc_state.Hash.{Hash, Bytes, zeros32}
use zkc_state.Crypto.{Crypto, CryptoLaws, CollisionFree}
use zkc_state.Merkle.Bounds.{node_at}
use zkc_state.Merkle.Index.{boundary_check}
use zkc_state.Merkle.Node.{MerkleProof}
use zkc_state.Merkle.Spec.{Tree, leaf, turns, subtree, replace}
use zkc_state.Poseidon
use zkc_state.Kvpair.Hash.{ContractId}
use zkc_state.Kvpair.Combine.{IsField}
use zkc_state.Kvpair.Record.{MerkleRecord, DataHashRecord}
use zkc_state.Service.Mongo.{Mongo}
use zkc_state.Service.Collection.{get_merkle_collection_name, get_data_collection_name}
use zkc_state.Service.Request.{SetLeafRequest, MongoKvPair}
use zkc_state.Service.Handlers.{leaf_hash}
use zkc_state.Service.Laws.{MongoLaws, AnswersHash}
use zkc_state.Service.Leaf.{Holds}
use zkc_state.Service.DataRecords.{OneEach}
use zkc_state.Service.LeafData.{is_leaf}
use zkc_state.Service.DataLeaf.{set_leaf_data_lem}
use zkc_state.Client.Calls
use zkc_state.Client.Calls.{KvPairClient, MongoMerkle}
use zkc_state.Client.Tree.{set_leaf_of}
use zkc_state.Client.Delivery.{Delivers, sent}
use zkc_state.Client.Inner.{Serves}

module _ (c : Crypto) (laws : CryptoLaws c) (free : CollisionFree c) (db : Mongo)
    (server : MongoLaws db) (serialize : MerkleProof Hash → Option Bytes) (host : MongoKvPair)
    (id : ContractId) (plain_host : host.with_indexes ≡ false)
    (api : KvPairClient db.MongoError db.State) (delivers : Delivers c db serialize host api) where
  abbrev n : String
  n = get_merkle_collection_name c id

  abbrev m : String
  m = get_data_collection_name c id

  not_invalid : (k : ℕ) → k < 2 ^ 32 → boundary_check (node_at 32 k) 32 ≡ ok tt
  unfolding boundary_check
  not_invalid k inside = rw (is_leaf k inside) refl

  zero_hash_of :
      (z : Hash) (s : db.State)
      → Poseidon.hash c {M = db.MongoError} zeros32 ≡ ok z.bytes
      → leaf_hash c db serialize none zeros32 s ≡ (ok z, s)
  unfolding leaf_hash
  zero_hash_of z s e = rw e refl

  -- With a server that keeps its laws, a field whose elements are written as 32 bytes and a Merkle
  -- hash without collisions, over a connection whose calls run the handlers, where no indexes are
  -- to be created and the service takes the contract `id` for the requests, and where proofs can
  -- be serialized, in a state that holds a tree with the leaf `k` of the 2 ^ 32 and has at most
  -- one record of data for a hash, where the Poseidon hash of 32 zeros is a field element:
  -- `set_leaf` of the client with that leaf's index succeeds, and whatever the record's hash is,
  -- the tree then has the Poseidon hash of 32 zeros there.
  pub set_leaf_of_lem :
      (k : ℕ) (t : Tree Hash) (old zeros : Hash) (found : Option DataHashRecord) (r : MerkleRecord)
      (merkle : MongoMerkle db.State)
      → Serves c db.MongoError host merkle.contract_id id
      → ((p : MerkleProof Hash) → (b : Bytes) × (serialize p ≡ some b))
      → r.index ≡ node_at 32 k
      → Poseidon.hash c {M = db.MongoError} zeros32 ≡ ok zeros.bytes
      → k < 2 ^ 32
      → subtree (turns 32 k) t ≡ some (leaf old)
      → IsField c zeros
      → OneEach (server.records m merkle.client)
      → AnswersHash zeros (server.records m merkle.client) found
      → Holds c db server n m merkle.client t
      → (s' : db.State) × (set_leaf_of c api r merkle ≡ (ok tt, record merkle { client = s' }))
        × Holds c db server n m s' (replace (turns 32 k) t (leaf zeros))
  unfolding set_leaf_of Calls.set_leaf
  set_leaf_of_lem k t old zeros found r merkle serves total ei ez inside el field one stored held =
      let request : SetLeafRequest = record {
        contract_id = some merkle.contract_id.id;
        index = r.index;
        hash = none;
        bytes = some zeros32;
        proof_type = 1;
      } in
      let set =
        set_leaf_data_lem c db server serialize laws free host id k t old zeros found (sent request)
          zeros32 merkle.client total plain_host (serves _ _) ei refl
          (zero_hash_of zeros merkle.client ez) inside el field one stored held in
      (
        set.after,
        rw (ap (λ i. boundary_check i 32) ei ∙ not_invalid k inside)
            (rw (delivers.set_leaf_call request merkle.client) (rw set.replies refl)),
        set.holds,
      )
