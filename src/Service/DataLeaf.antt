-- ===== src/Service/DataLeaf.antt =====
-- A leaf that is set with its data, and read again: `set_leaf`, then `get_leaf`.
use zkc_state.Prelude.{ℕ, ◌^◌, ◌<◌, ◌≡◌, ◌≢◌, refl, Option, some, none, String, false}
use zkc_state.Outcome.{ok}
use zkc_state.Hash.{Hash, Bytes}
use zkc_state.Crypto.{Crypto, CryptoLaws, CollisionFree}
use zkc_state.Merkle.Node.{MerkleProof}
use zkc_state.Merkle.Bounds.{node_at}
use zkc_state.Merkle.Spec.{Tree, leaf, turns, subtree, replace}
use zkc_state.Merkle.Valid.{subtree-replace}
use zkc_state.Kvpair.Hash.{ContractId, empty_hash}
use zkc_state.Kvpair.Record.{DataHashRecord, new_leaf}
use zkc_state.Kvpair.Combine.{IsField}
use zkc_state.Kvpair.Defaults.{default_at}
use zkc_state.Service.Mongo.{Mongo}
use zkc_state.Service.Collection.{
  insert_datahash_record, get_merkle_collection_name, get_data_collection_name,
}
use zkc_state.Service.Request.{
  Request, GetLeafRequest, SetLeafRequest, Proof, MongoKvPair, get_contract_id,
}
use zkc_state.Service.Handlers.{set_leaf, leaf_to_set, leaf_hash, get_leaf}
use zkc_state.Service.Laws.{MongoLaws, AnswersHash}
use zkc_state.Service.Fetch.{plain}
use zkc_state.Service.Leaf.{Holds, proof_of, set_leaf_and_get_proof_lem}
use zkc_state.Service.Isolation.{Holds-Agree}
use zkc_state.Service.Replies.{open_collection_lem, proof_message_lem, finish_lem}
use zkc_state.Service.DataRecords.{OneEach, first_write, insert_datahash_record_lem}
use zkc_state.Service.LeafData.{leaf_message, node_of_records-leaf, get_leaf_lem}

module _ (c : Crypto) (db : Mongo) (server : MongoLaws db)
    (serialize : MerkleProof Hash → Option Bytes) (laws : CryptoLaws c) (free : CollisionFree c)
    (host : MongoKvPair) (id : ContractId) where
  abbrev n : String
  n = get_merkle_collection_name c id

  abbrev m : String
  m = get_data_collection_name c id

  -- What `set_leaf` with data leaves.
  pub record DataSet (t : Tree Hash) (k : ℕ) (h : Hash) (bytes : Bytes)
      (found : Option DataHashRecord) (request : Request SetLeafRequest) (s : db.State)
      : Type 0 where
    pub after : db.State
    pub answer : Option Proof
    pub replies :
        set_leaf c db serialize host request s
        ≡ (ok (record { node = some (leaf_message (node_at 32 k) h bytes); proof = answer }), after)
    pub holds : Holds c db server n m after (replace (turns 32 k) t (leaf h))
    pub one_each : OneEach (server.records m after)
    pub stored :
        AnswersHash h
          (server.records m after)
          (some (first_write found (record { hash = h; bytes = bytes })))

  leaf_to_set_data :
      (k : ℕ) (h : Hash) (bytes : Bytes) (hash : Option Bytes) (kept : DataHashRecord)
      (s s' : db.State)
      → k < 2 ^ 32
      → leaf_hash c db serialize hash bytes s ≡ (ok h, s)
      → insert_datahash_record c db (plain c db n m) (record { hash = h; bytes = bytes }) s
        ≡ (ok kept, s')
      → leaf_to_set c db serialize (plain c db n m) (node_at 32 k) (some bytes) hash s
        ≡ (ok (new_leaf (node_at 32 k) h, leaf_message (node_at 32 k) h bytes), s')
  unfolding leaf_to_set
  leaf_to_set_data k h bytes hash kept s s' inside eh stored = rw eh (
      rw stored (
        rw
          (node_of_records-leaf {M = db.MongoError} k h (new_leaf (node_at 32 k) h)
            (record { hash = h; bytes = bytes }) inside refl refl refl)
          refl))

  pub set_leaf_data_lem :
      (k : ℕ) (t : Tree Hash) (old h : Hash) (found : Option DataHashRecord)
      (request : Request SetLeafRequest) (bytes : Bytes) (s : db.State)
      → ((p : MerkleProof Hash) → (b : Bytes) × (serialize p ≡ some b))
      → host.with_indexes ≡ false
      → get_contract_id c {M = db.MongoError} host request request.inner.contract_id ≡ ok id
      → request.inner.index ≡ node_at 32 k
      → request.inner.bytes ≡ some bytes
      → leaf_hash c db serialize request.inner.hash bytes s ≡ (ok h, s)
      → k < 2 ^ 32
      → subtree (turns 32 k) t ≡ some (leaf old)
      → IsField c h
      → OneEach (server.records m s)
      → AnswersHash h (server.records m s) found
      → Holds c db server n m s t
      → DataSet t k h bytes found request s
  unfolding set_leaf
  set_leaf_data_lem k t old h found request bytes s total plain_host ec ek ed eh inside el field one
        stored held =
      let r : DataHashRecord = record { hash = h; bytes = bytes } in
      let kept = insert_datahash_record_lem c db server n m r found s one stored in
      let held' = Holds-Agree c db server laws free n m t s kept.after (kept.same_trees n) held in
      let set =
        set_leaf_and_get_proof_lem c db server n m laws free k t old h kept.after inside el field
          held' in
      let (answer, shown) =
        proof_message_lem c db server serialize host id laws free request.inner.proof_type
          (proof_of c db server n m t h k) set.after total in
      let same = set.elsewhere.1 m in
      record {
        after = set.after;
        answer = answer;
        replies = rw ec (
            rw (open_collection_lem c db server serialize host id s plain_host) (
              rw (ek, ed)
                (rw
                  (leaf_to_set_data k h bytes request.inner.hash (first_write found r) s kept.after
                    inside eh kept.returns)
                  (rw set.returns (
                    rw shown
                      (rw (finish_lem c db server serialize host id laws free set.after) refl))))));
        holds = set.holds;
        one_each = rw same kept.one_each;
        stored = rw same kept.answer;
      }

  -- With a server that keeps its laws, a field and a Merkle hash without collisions: where proofs
  -- can be serialized, no indexes are to be created and the requests' contract is `id`, in a state
  -- that holds a tree with the leaf `k` of the 2 ^ 32 and has at most one record of data for a
  -- hash: the handler `set_leaf` with data takes the request's hash, which it does not compare
  -- with the data, or the Poseidon hash of the data if the request has none. Where that hash is a
  -- field element, not the default leaf's and not 32 zeros, it replies with that hash and the
  -- data, and then the handler `get_leaf` of that leaf, without a hash, replies with the hash and
  -- the data. If the hash had data before, `get_leaf` replies with those.
  pub set_get_data :
      (k : ℕ) (t : Tree Hash) (old h : Hash) (found : Option DataHashRecord)
      (set : Request SetLeafRequest) (get : Request GetLeafRequest) (bytes : Bytes) (s : db.State)
      → ((p : MerkleProof Hash) → (b : Bytes) × (serialize p ≡ some b))
      → host.with_indexes ≡ false
      → get_contract_id c {M = db.MongoError} host set set.inner.contract_id ≡ ok id
      → get_contract_id c {M = db.MongoError} host get get.inner.contract_id ≡ ok id
      → set.inner.index ≡ node_at 32 k
      → get.inner.index ≡ node_at 32 k
      → set.inner.bytes ≡ some bytes
      → get.inner.hash ≡ none
      → leaf_hash c db serialize set.inner.hash bytes s ≡ (ok h, s)
      → k < 2 ^ 32
      → subtree (turns 32 k) t ≡ some (leaf old)
      → IsField c h
      → h ≢ default_at c laws 0
      → h ≢ empty_hash c
      → OneEach (server.records m s)
      → AnswersHash h (server.records m s) found
      → Holds c db server n m s t
      → (s' : db.State) × (p q : Option Proof) × (set_leaf c db serialize host set s
          ≡ (ok (record { node = some (leaf_message (node_at 32 k) h bytes); proof = p }), s'))
        × (get_leaf c db serialize host get s' ≡ (
          ok (record {
            node = some (
                leaf_message
                  (node_at 32 k)
                  h
                  (first_write found (record { hash = h; bytes = bytes })).bytes);
            proof = q;
          }),
          s',
        ))
  set_get_data k t old h found set get bytes s total plain_host es eg ei ej eb en eh inside el field
        no_default no_empty one stored held =
      let r : DataHashRecord = record { hash = h; bytes = bytes } in
      let done =
        set_leaf_data_lem k t old h found set bytes s total plain_host es ei eb eh inside el field
          one stored held in
      let (q, read) =
        get_leaf_lem c db server serialize laws free host id k (replace (turns 32 k) t (leaf h)) h
          (some (first_write found r)) get done.after total plain_host eg ej en inside
          (subtree-replace (turns 32 k) t (leaf old) (leaf h) el) no_default no_empty done.one_each
          done.stored done.holds in
      (done.after, done.answer, q, done.replies, read)
