-- ===== src/Service/Refusal.antt =====
-- The handler `set_non_leaf` at an index that is a leaf's.
use zkc_state.Prelude.{
  ℕ, ◌^◌, ◌<◌, ◌≡◌, ◌≢◌, inl, refl, false, ◌∷◌, Option, none, some, String, arith,
}
use zkc_state.Outcome.{ok, err}
use zkc_state.Hash.{Hash, Bytes}
use zkc_state.Crypto.{Crypto, CryptoLaws, CollisionFree}
use zkc_state.Errors.{status_of, inconsistent_data}
use zkc_state.Merkle.Bounds.{node_at}
use zkc_state.Merkle.Node.{MerkleProof}
use zkc_state.Kvpair.Hash.{ContractId, hash_of_slice}
use zkc_state.Kvpair.Combine.{IsField, combine}
use zkc_state.Kvpair.Record.{MerkleRecord, zero_hash}
use zkc_state.Service.Mongo.{Mongo, by_index_and_hash}
use zkc_state.Service.Collection.{
  insert_merkle_record, insert_non_leaf_node, get_merkle_collection_name, get_data_collection_name,
}
use zkc_state.Service.Request.{Request, SetNonLeafRequest, MongoKvPair, get_contract_id}
use zkc_state.Service.Queries.{set_non_leaf, check_children}
use zkc_state.Service.Laws.{MongoLaws, Answers}
use zkc_state.Service.Fetch.{plain, held}
use zkc_state.Service.Insert.{Good, IsIn-documents}
use zkc_state.Service.Parent.{parent_of, new_non_leaf_lem}
use zkc_state.Service.LeafData.{is_leaf, node_of_record-leaf}
use zkc_state.Service.Replies.{open_collection_lem}

module _ (c : Crypto) (db : Mongo) (server : MongoLaws db)
    (serialize : MerkleProof Hash → Option Bytes) (laws : CryptoLaws c) (free : CollisionFree c)
    (host : MongoKvPair) (id : ContractId) where
  abbrev n : String
  n = get_merkle_collection_name c id

  abbrev m : String
  m = get_data_collection_name c id

  -- A record that no document has the index and the hash of is added.
  insert_new :
      (w : MerkleRecord) (found : Option MerkleRecord) (s : db.State)
      → db.find_one_merkle none n (by_index_and_hash w.index w.hash) s ≡ (ok found, s)
      → Answers w.index w.hash (held c db server n m s) found
      → Answers w.index w.hash (held c db server n m s) none
      → (s' : db.State) × (insert_merkle_record c db (plain c db n m) w s ≡ (ok w, s'))
        × (server.documents n s' ≡ w ∷ server.documents n s)
  unfolding insert_merkle_record
  insert_new w none s ef answer missing =
      let (s', ei, ed, _, _) = server.insert n w s in (s', rw ef (rw ei refl), ed)
  insert_new w (some r) s ef (inside, ei, eh) missing = absurd (missing r inside ei eh)

  -- With a server that keeps its laws, a field and a Merkle hash without collisions: where no
  -- indexes are to be created and the request's contract is `id`: for a leaf's index, no hash and
  -- two field elements, the left one not 32 zeros, whose parent no document has there, the handler
  -- `set_non_leaf` returns the error for an unknown node type, the record is added to the
  -- documents all the same, and the state that is left is not valid.
  pub set_non_leaf_leaves_record :
      (k : ℕ) (l r : Hash) (request : Request SetNonLeafRequest) (s : db.State)
      → host.with_indexes ≡ false
      → get_contract_id c {M = db.MongoError} host request request.inner.contract_id ≡ ok id
      → request.inner.index ≡ node_at 32 k
      → request.inner.hash ≡ none
      → hash_of_slice {M = db.MongoError} request.inner.left_child_hash ≡ ok l
      → hash_of_slice {M = db.MongoError} request.inner.right_child_hash ≡ ok r
      → k < 2 ^ 32
      → IsField c l
      → IsField c r
      → l ≢ zero_hash
      → Answers (node_at 32 k) (combine c l r) (held c db server n m s) none
      → (s' : db.State) × (set_non_leaf c db serialize host request s
          ≡ (err (status_of (inconsistent_data "Unknown node type")), s'))
        × (server.documents n s'
            ≡ parent_of c db server n m (node_at 32 k) l r ∷ server.documents n s)
        × (¬ Good c db server n m s')
  unfolding set_non_leaf check_children insert_non_leaf_node
  set_non_leaf_leaves_record k l r request s plain_host ec ei eh el er inside fl fr nonzero
        missing =
      let w = parent_of c db server n m (node_at 32 k) l r in
      let (found, ef, answer) = server.find_document n (node_at 32 k) (combine c l r) s in
      let (s', inserted, ed) = insert_new w found s ef answer missing in
      (
        s',
        rw ec (
            rw (open_collection_lem c db server serialize host id s plain_host) (
              rw (eh, ei)
                (rw (el, er)
                  (rw (new_non_leaf_lem c db server n m laws free (node_at 32 k) l r fl fr) (
                    rw inserted
                      (rw (node_of_record-leaf {M = db.MongoError} w (is_leaf k inside)) refl)))))),
        ed,
        λ good.
            let document =
              IsIn-documents (server.current n s') (server.documents n s') w (rw ed (inl refl)) in
            nonzero ((good.canonical w document).leaf (omega arith)).0,
      )
