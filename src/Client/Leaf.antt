-- ===== src/Client/Leaf.antt =====
-- Leaves that the client reads: `get_node_with_hash` of `MongoMerkle`.
use zkc_state.Prelude.{
  ℕ, ◌^◌, ◌<◌, ◌≡◌, ◌≢◌, refl, ap, sym, false, Option, none, some, String, arith, [],
}
use zkc_state.Outcome.{ok}
use zkc_state.Hash.{Hash, Bytes, bytes_eq_refl}
use zkc_state.Crypto.{Crypto, CryptoLaws, CollisionFree}
use zkc_state.Merkle.Bounds.{node_at}
use zkc_state.Merkle.Node.{MerkleProof}
use zkc_state.Kvpair.Hash.{ContractId, hash_of_slice, to_array32, empty_hash}
use zkc_state.Kvpair.Combine.{IsField}
use zkc_state.Kvpair.Defaults.{default_at, default_at-IsField, get_default_hash_for_depth_lem}
use zkc_state.Kvpair.Node.{record_of_node}
use zkc_state.Kvpair.Record.{MerkleRecord, DataHashRecord, new_leaf, zero_hash}
use zkc_state.Service.Mongo.{Mongo}
use zkc_state.Service.Collection.{get_merkle_collection_name, get_data_collection_name}
use zkc_state.Service.Request.{GetLeafRequest, MongoKvPair, get_contract_id}
use zkc_state.Service.Handlers.{get_leaf, find_leaf, leaf_by_hash}
use zkc_state.Service.Laws.{MongoLaws, AnswersHash}
use zkc_state.Service.Fetch.{plain, fetch, fetch-IsSource, source-Canonical}
use zkc_state.Service.Insert.{Good}
use zkc_state.Service.Replies.{open_collection_lem, finish_lem}
use zkc_state.Service.DataRecords.{OneEach}
use zkc_state.Service.LeafData.{
  is_leaf, leaf_message, data_of, leaf_node_lem, shown_other, shown_default, zero_leaf_node,
}
use zkc_state.Client.Calls
use zkc_state.Client.Calls.{KvPairClient, MongoMerkle}
use zkc_state.Client.Tree.{get_node_with_hash, node_from}
use zkc_state.Client.Delivery.{Delivers, sent}
use zkc_state.Client.Inner.{Sized, Serves, hash_of_slice-IsField}

zero_slice : {M : Type 0} → hash_of_slice {M = M} zero_hash.bytes ≡ ok zero_hash
unfolding hash_of_slice to_array32
zero_slice = refl

-- The message of a leaf is read as the record of a leaf with its hash.
read_leaf :
    (c : Crypto) {M : Type 0} (i : ℕ) (h : Hash) (b : Bytes)
    → hash_of_slice {M = M} h.bytes ≡ ok h
    → record_of_node {M = M} c (leaf_message i h b) ≡ ok (new_leaf i h)
unfolding record_of_node
read_leaf c i h b e = rw e (rw (bytes_eq_refl h.bytes) refl)

module _ (c : Crypto) (laws : CryptoLaws c) (free : CollisionFree c) (db : Mongo)
    (server : MongoLaws db) (serialize : MerkleProof Hash → Option Bytes) (host : MongoKvPair)
    (id : ContractId) (plain_host : host.with_indexes ≡ false) (sized : Sized c) where
  abbrev n : String
  n = get_merkle_collection_name c id

  abbrev m : String
  m = get_data_collection_name c id

  -- A request for a leaf by its hash, without a proof.
  abbrev by_hash : ContractId → ℕ → Hash → GetLeafRequest
  by_hash wanted k h = record {
    contract_id = some wanted.id;
    index = node_at 32 k;
    hash = some h.bytes;
    proof_type = 1;
  }

  find_leaf-by_hash :
      (wanted : ContractId) (k : ℕ) (h : Hash) (a : MerkleRecord) (s : db.State)
      → IsField c h
      → fetch c db server n m (node_at 32 k) h s ≡ (ok a, s)
      → find_leaf c db serialize (plain c db n m) (by_hash wanted k h) s ≡ (ok (a, none), s)
  unfolding find_leaf leaf_by_hash
  find_leaf-by_hash wanted k h a s field fetched =
      rw (hash_of_slice-IsField c laws {M = db.MongoError} h sized field) (rw fetched refl)

  -- A leaf that a valid state fetches.
  fetched_leaf :
      (k : ℕ) (h : Hash) (a : MerkleRecord) (s : db.State)
      → k < 2 ^ 32
      → Good c db server n m s
      → fetch c db server n m (node_at 32 k) h s ≡ (ok a, s)
      → (a.index ≡ node_at 32 k) × (a.hash ≡ h) × (new_leaf (node_at 32 k) h ≡ a)
  fetched_leaf k h a s inside good fetched =
      let (canonical, ei, eh) =
        source-Canonical c db server n m laws free s (node_at 32 k) h a good (omega arith)
          (fetch-IsSource c db server n m (node_at 32 k) h a s fetched) in
      let (el, er) = canonical.leaf (omega (arith, ei)) in
      (
        ei,
        eh,
        λ j. record {
          index = sym ei j;
          hash = sym eh j;
          left = sym el j;
          right = sym er j;
          bytes = sym canonical.no_data j;
        },
      )

  leaf_reply :
      (wanted : ContractId) (k : ℕ) (h : Hash) (a : MerkleRecord) (found : Option DataHashRecord)
      (s : db.State)
      → get_contract_id c {M = db.MongoError} host (sent (by_hash wanted k h)) (some wanted.id)
        ≡ ok id
      → k < 2 ^ 32
      → IsField c h
      → h ≢ default_at c laws 0
      → h ≢ empty_hash c
      → OneEach (server.records m s)
      → AnswersHash h (server.records m s) found
      → Good c db server n m s
      → fetch c db server n m (node_at 32 k) h s ≡ (ok a, s)
      → get_leaf c db serialize host (sent (by_hash wanted k h)) s ≡ (
        ok (record { node = some (leaf_message (node_at 32 k) h (data_of found)); proof = none }),
        s,
      )
  unfolding get_leaf
  leaf_reply wanted k h a found s ec inside field no_default no_empty one stored good fetched =
      let (ei, eh, _) = fetched_leaf k h a s inside good fetched in
      rw ec (
        rw (open_collection_lem c db server serialize host id s plain_host) (
          rw (find_leaf-by_hash wanted k h a s field fetched) (
            rw (get_default_hash_for_depth_lem c laws 32 (omega arith)) (
              rw (shown_other c db server serialize (default_at c laws 0) h a eh no_default) (
                rw
                  (leaf_node_lem c db server serialize n m k h a found s inside ei eh no_empty one
                    stored)
                  (rw (finish_lem c db server serialize host id laws free s) refl))))))

  default_reply :
      (wanted : ContractId) (k : ℕ) (a : MerkleRecord) (s : db.State)
      → get_contract_id c {M = db.MongoError} host
          (sent (by_hash wanted k (default_at c laws 0)))
          (some wanted.id)
        ≡ ok id
      → k < 2 ^ 32
      → Good c db server n m s
      → fetch c db server n m (node_at 32 k) (default_at c laws 0) s ≡ (ok a, s)
      → get_leaf c db serialize host (sent (by_hash wanted k (default_at c laws 0))) s
        ≡ (ok (record { node = some (leaf_message (node_at 32 k) zero_hash []); proof = none }), s)
  unfolding get_leaf
  default_reply wanted k a s ec inside good fetched =
      let (ei, eh, _) = fetched_leaf k (default_at c laws 0) a s inside good fetched in
      rw ec (
        rw (open_collection_lem c db server serialize host id s plain_host) (
          rw
            (find_leaf-by_hash wanted k (default_at c laws 0) a s (default_at-IsField c laws 0)
              fetched)
            (rw (get_default_hash_for_depth_lem c laws 32 (omega arith)) (
              rw (shown_default c db server serialize (default_at c laws 0) a eh) (
                rw (zero_leaf_node c db server serialize (plain c db n m) k a s inside ei)
                  (rw (finish_lem c db server serialize host id laws free s) refl))))))

  module _ (api : KvPairClient db.MongoError db.State)
      (delivers : Delivers c db serialize host api) where
    -- With a server that keeps its laws, a field whose elements are written as 32 bytes and a
    -- Merkle hash without collisions, over a connection whose calls run the handlers, where no
    -- indexes are to be created and the service takes the contract `id` for the requests, in a
    -- valid state with at most one record of data for a hash: for a field element that is not the
    -- default leaf's hash and not 32 zeros, `get_node_with_hash` of a leaf returns the record that
    -- the service fetches for the index and the hash, whether the hash has data or not, and
    -- changes nothing.
    pub get_node_with_hash_leaf :
        (k : ℕ) (h : Hash) (a : MerkleRecord) (found : Option DataHashRecord)
        (merkle : MongoMerkle db.State)
        → Serves c db.MongoError host merkle.contract_id id
        → k < 2 ^ 32
        → IsField c h
        → h ≢ default_at c laws 0
        → h ≢ empty_hash c
        → OneEach (server.records m merkle.client)
        → AnswersHash h (server.records m merkle.client) found
        → Good c db server n m merkle.client
        → fetch c db server n m (node_at 32 k) h merkle.client ≡ (ok a, merkle.client)
        → get_node_with_hash c api (node_at 32 k) h merkle ≡ (ok a, merkle)
    unfolding get_node_with_hash node_from Calls.get_leaf
    get_node_with_hash_leaf k h a found merkle serves inside field no_default no_empty one stored
          good fetched =
        let (_, _, same) = fetched_leaf k h a merkle.client inside good fetched in
        let reply =
          leaf_reply merkle.contract_id k h a found merkle.client (serves _ _) inside field
            no_default no_empty one stored good fetched in
        let read =
          read_leaf c {M = db.MongoError} (node_at 32 k) h (data_of found)
            (hash_of_slice-IsField c laws {M = db.MongoError} h sized field) in
        rw (is_leaf k inside) (
          rw (delivers.leaf_call (by_hash merkle.contract_id k h) merkle.client)
            (rw reply (rw read (ap (λ x. (ok x, merkle)) same))))

    -- With a server that keeps its laws, a field whose elements are written as 32 bytes and a
    -- Merkle hash without collisions, over a connection whose calls run the handlers, where no
    -- indexes are to be created and the service takes the contract `id` for the requests, in a
    -- valid state that fetches the default leaf at an index: `get_node_with_hash` with the default
    -- leaf's hash returns a leaf with the hash of 32 zeros there, and changes nothing.
    pub get_node_with_hash_default :
        (k : ℕ) (a : MerkleRecord) (merkle : MongoMerkle db.State)
        → Serves c db.MongoError host merkle.contract_id id
        → k < 2 ^ 32
        → Good c db server n m merkle.client
        → fetch c db server n m (node_at 32 k) (default_at c laws 0) merkle.client
          ≡ (ok a, merkle.client)
        → get_node_with_hash c api (node_at 32 k) (default_at c laws 0) merkle
          ≡ (ok (new_leaf (node_at 32 k) zero_hash), merkle)
    unfolding get_node_with_hash node_from Calls.get_leaf
    get_node_with_hash_default k a merkle serves inside good fetched =
        let reply =
          default_reply merkle.contract_id k a merkle.client (serves _ _) inside good fetched in
        let read = read_leaf c {M = db.MongoError} (node_at 32 k) zero_hash [] zero_slice in
        rw (is_leaf k inside) (
          rw (delivers.leaf_call (by_hash merkle.contract_id k (default_at c laws 0)) merkle.client)
            (rw reply (rw read refl)))
