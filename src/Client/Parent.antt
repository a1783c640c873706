-- ===== src/Client/Parent.antt =====
-- Inner nodes that the client writes: `set_parent` of `MongoMerkle`, then `get_node_with_hash`.
use zkc_state.Prelude.{
  ℕ, suc, ◌+◌, ◌^◌, ◌<◌, ◌≡◌, ◌≢◌, refl, false, Option, some, String, arith, inl, inr, Bool-cases,
}
use zkc_state.Prelude.Words.{two_pow_mono, one-le-two_pow, two_pow-suc}
use zkc_state.Outcome.{ok, err}
use zkc_state.Hash.{Hash, Bytes, hash_eq, hash_eq→eq}
use zkc_state.Crypto.{Crypto, CryptoLaws, CollisionFree}
use zkc_state.Errors.{Error, status_of, invalid_argument}
use zkc_state.Merkle.Bounds.{node_at, get_node_type_lem}
use zkc_state.Merkle.Climb.{Extends}
use zkc_state.Merkle.Error.{invalid_depth}
use zkc_state.Merkle.Index.{get_node_type, node_non_leaf, boundary_check}
use zkc_state.Merkle.Node.{MerkleProof}
use zkc_state.Kvpair.Hash.{ContractId, validate_children}
use zkc_state.Kvpair.Combine.{IsField, combine, hash_children_lem}
use zkc_state.Kvpair.Record.{record_node}
use zkc_state.Service.Mongo.{Mongo}
use zkc_state.Service.Collection.{get_merkle_collection_name, get_data_collection_name}
use zkc_state.Service.Request.{Request, SetNonLeafRequest, MongoKvPair, get_contract_id}
use zkc_state.Service.Queries.{set_non_leaf, check_children}
use zkc_state.Service.Laws.{MongoLaws}
use zkc_state.Service.Fetch.{fetch}
use zkc_state.Service.Insert.{Good, insert_merkle_record_lem}
use zkc_state.Service.Parent.{parent_of, parent_of-Canonical, fetch-held, Covers-Extends}
use zkc_state.Service.Replies.{open_collection_lem}
use zkc_state.Client.Calls
use zkc_state.Client.Calls.{KvPairClient, MongoMerkle}
use zkc_state.Client.Tree.{get_node_with_hash, set_parent}
use zkc_state.Client.Delivery.{Delivers, sent}
use zkc_state.Client.Inner.{
  Sized, Serves, hash_of_slice-IsField, get_node_with_hash_inner, set_parent_replies,
}

module _ (c : Crypto) (laws : CryptoLaws c) (free : CollisionFree c) (db : Mongo)
    (server : MongoLaws db) (serialize : MerkleProof Hash → Option Bytes) (host : MongoKvPair)
    (id : ContractId) (plain_host : host.with_indexes ≡ false) (sized : Sized c)
    (api : KvPairClient db.MongoError db.State) (delivers : Delivers c db serialize host api) where
  abbrev n : String
  n = get_merkle_collection_name c id

  abbrev m : String
  m = get_data_collection_name c id

  not_invalid : (d q : ℕ) → d < 32 → q < 2 ^ d → boundary_check (node_at d q) 32 ≡ ok tt
  unfolding boundary_check
  not_invalid d q above inside =
      let small : node_at d q + 1 < 2 ^ 32 =
        omega (arith, two_pow_mono (suc d) 32 above, two_pow-suc d, one-le-two_pow d) in
      let kind : get_node_type (node_at d q) 32 ≡ node_non_leaf =
        (get_node_type_lem (node_at d q) 32 (omega arith)).0.1 small in
      rw kind refl

  -- With a server that keeps its laws, a field whose elements are written as 32 bytes and a Merkle
  -- hash without collisions, over a connection whose calls run the handlers, where no indexes are
  -- to be created and the service takes the contract `id` for the requests, for an inner node and
  -- two field elements in a valid state: `set_parent` with the hash of the two succeeds, and
  -- `get_node_with_hash` then returns the node with those children. The state stays valid, keeps
  -- what can be fetched and has the current root it had.
  pub set_parent_get_node :
      (d q : ℕ) (l r : Hash) (merkle : MongoMerkle db.State)
      → Serves c db.MongoError host merkle.contract_id id
      → d < 32
      → q < 2 ^ d
      → IsField c l
      → IsField c r
      → Good c db server n m merkle.client
      → (s' : db.State) × (set_parent c api (node_at d q) (combine c l r) l r merkle
          ≡ (ok tt, record merkle { client = s' }))
        × (get_node_with_hash c api (node_at d q) (combine c l r) (record merkle { client = s' })
            ≡ (ok (parent_of c db server n m (node_at d q) l r), record merkle { client = s' }))
        × Good c db server n m s'
        × Extends (combine c) (record_node c) (fetch c db server n m) merkle.client s'
        × (server.current n s' ≡ server.current n merkle.client)
  unfolding set_parent Calls.set_non_leaf
  set_parent_get_node d q l r merkle serves above inside fl fr good =
      let w = parent_of c db server n m (node_at d q) l r in
      let inserted =
        insert_merkle_record_lem c db server n m laws free merkle.client w good
          (parent_of-Canonical c db server n m laws free d q l r above inside fl fr) in
      let request : SetNonLeafRequest = record {
        contract_id = some merkle.contract_id.id;
        index = node_at d q;
        hash = some (combine c l r).bytes;
        left_child_hash = l.bytes;
        right_child_hash = r.bytes;
      } in
      let replied =
        set_parent_replies c laws free db server serialize host id plain_host sized d q l r
          (sent request) merkle.client (serves _ request) refl refl refl refl above inside fl fr
          inserted in
      (
        inserted.after,
        rw (not_invalid d q above inside)
            (rw (delivers.set_non_leaf_call request merkle.client) (rw replied refl)),
        get_node_with_hash_inner c laws free db server serialize host id plain_host sized api
            delivers d q (combine c l r) w (record merkle { client = inserted.after }) serves above
            inside inserted.valid
            (fetch-held c db server n m laws free inserted.after w inserted.valid inserted.inside),
        inserted.valid,
        Covers-Extends c db server n m laws free merkle.client inserted.after good inserted.valid
            inserted.covers,
        inserted.same_root,
      )

  refused :
      (d q : ℕ) (h l r : Hash) (request : Request SetNonLeafRequest) (s : db.State)
      → get_contract_id c {M = db.MongoError} host request request.inner.contract_id ≡ ok id
      → request.inner.left_child_hash ≡ l.bytes
      → request.inner.right_child_hash ≡ r.bytes
      → request.inner.hash ≡ some h.bytes
      → IsField c l
      → IsField c r
      → IsField c h
      → h ≢ combine c l r
      → set_non_leaf c db serialize host request s
        ≡ (err (status_of (invalid_argument "Hash not matching")), s)
  unfolding set_non_leaf check_children validate_children
  refused d q h l r request s ec el er eh fl fr fh differs =
      let made = (hash_children_lem c laws {E = Error db.MongoError} l r fl fr).0 in
      let other : hash_eq h (combine c l r) ≡ false =
        elim (Bool-cases (hash_eq h (combine c l r))) [
          | inl same ↦ absurd (differs (hash_eq→eq h (combine c l r) same))
          | inr distinct ↦ distinct
        ] in
      rw ec (
        rw (open_collection_lem c db server serialize host id s plain_host) (
          rw (el, er, eh)
            (rw
              (
                hash_of_slice-IsField c laws {M = db.MongoError} l sized fl,
                hash_of_slice-IsField c laws {M = db.MongoError} r sized fr,
                hash_of_slice-IsField c laws {M = db.MongoError} h sized fh,
              )
              (rw made (rw other refl)))))

  -- With a server that keeps its laws, a field whose elements are written as 32 bytes and a Merkle
  -- hash without collisions, over a connection whose calls run the handlers, where no indexes are
  -- to be created and the service takes the contract `id` for the requests, for an inner node and
  -- field elements: `set_parent` with a hash that is not that of the children returns the error
  -- `invalid_depth` with the hash and the index, and changes nothing.
  pub set_parent_refuses :
      (d q : ℕ) (h l r : Hash) (merkle : MongoMerkle db.State)
      → Serves c db.MongoError host merkle.contract_id id
      → d < 32
      → q < 2 ^ d
      → IsField c l
      → IsField c r
      → IsField c h
      → h ≢ combine c l r
      → set_parent c api (node_at d q) h l r merkle
        ≡ (err (record { source = h; index = node_at d q; code = invalid_depth }), merkle)
  unfolding set_parent Calls.set_non_leaf
  set_parent_refuses d q h l r merkle serves above inside fl fr fh differs =
      let request : SetNonLeafRequest = record {
        contract_id = some merkle.contract_id.id;
        index = node_at d q;
        hash = some h.bytes;
        left_child_hash = l.bytes;
        right_child_hash = r.bytes;
      } in
      let replied =
        refused d q h l r (sent request) merkle.client (serves _ request) refl refl refl fl fr fh
          differs in
      rw (not_invalid d q above inside)
        (rw (delivers.set_non_leaf_call request merkle.client) (rw replied refl))
