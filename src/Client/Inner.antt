-- ===== src/Client/Inner.antt =====
-- Inner nodes that the client reads and writes.
use mathlib.Core.Path.{subst}
use zkc_state.Prelude.{
  ℕ, suc, ◌+◌, ◌^◌, ◌<◌, ◌≡◌, refl, ap, sym, ◌∙◌, false, Option, some, String, arith, length,
}
use zkc_state.Prelude.Words.{two_pow_mono, one-le-two_pow, two_pow-suc}
use zkc_state.Outcome.{ok}
use zkc_state.Hash.{Hash, Bytes, hash_eq_refl}
use zkc_state.Crypto.{Crypto, CryptoLaws, CollisionFree}
use zkc_state.Errors.{Error}
use zkc_state.Merkle.Bounds.{node_at, get_node_type_lem}
use zkc_state.Merkle.Index.{get_node_type, node_non_leaf}
use zkc_state.Merkle.Node.{MerkleProof}
use zkc_state.Kvpair.Hash.{ContractId, hash_of_slice, to_array32, validate_children}
use zkc_state.Kvpair.Combine.{IsField, combine, hash_children_lem}
use zkc_state.Kvpair.Node.{node_of_record, record_of_node}
use zkc_state.Kvpair.Record.{MerkleRecord}
use zkc_state.Service.Mongo.{Mongo}
use zkc_state.Service.Collection.{
  insert_non_leaf_node, get_merkle_collection_name, get_data_collection_name,
}
use zkc_state.Service.Request.{
  Request, GetNonLeafRequest, SetNonLeafRequest, MongoKvPair, get_contract_id,
}
use zkc_state.Service.Queries.{get_non_leaf, set_non_leaf, check_children}
use zkc_state.Service.Laws.{MongoLaws}
use zkc_state.Service.Fetch.{fetch, fetch-IsSource, source-Canonical}
use zkc_state.Service.Insert.{Good, Inserted}
use zkc_state.Service.Parent.{parent_of, parent_of-Canonical, new_non_leaf_lem}
use zkc_state.Service.Invariant.{Canonical}
use zkc_state.Service.Conversions.{message_of, node_of_record-record_of_node}
use zkc_state.Service.Replies.{open_collection_lem}
use zkc_state.Client.Calls
use zkc_state.Client.Calls.{KvPairClient, MongoMerkle}
use zkc_state.Client.Tree.{get_node_with_hash, node_from}
use zkc_state.Client.Delivery.{Delivers, sent}

-- A field element is written as 32 bytes.
abbrev pub Sized : Crypto → Type 0
Sized c = (x : c.Fr) → length (c.to_repr x) ≡ 32

-- The service takes the contract `id` for the requests of a client.
abbrev pub Serves : (c : Crypto) (M : Type 0) → MongoKvPair → ContractId → ContractId → Type 1
Serves c M host wanted id =
    (T : Type 0) (r : T) → get_contract_id c {M = M} host (sent r) (some wanted.id) ≡ ok id

pub hash_of_slice-IsField :
    (c : Crypto) (laws : CryptoLaws c) {M : Type 0} (h : Hash)
    → Sized c
    → IsField c h
    → hash_of_slice {M = M} h.bytes ≡ ok h
unfolding hash_of_slice to_array32
hash_of_slice-IsField c laws h sized (x, e) =
    let width : length h.bytes ≡ 32 = ap length (sym (laws.to_from h.bytes x e)) ∙ sized x in
    rw width refl

module _ (c : Crypto) (laws : CryptoLaws c) (free : CollisionFree c) (db : Mongo)
    (server : MongoLaws db) (serialize : MerkleProof Hash → Option Bytes) (host : MongoKvPair)
    (id : ContractId) (plain_host : host.with_indexes ≡ false) (sized : Sized c) where
  abbrev n : String
  n = get_merkle_collection_name c id

  abbrev m : String
  m = get_data_collection_name c id

  inner_node :
      (d q : ℕ) (h : Hash) (a : MerkleRecord) (s : db.State)
      → d < 32
      → q < 2 ^ d
      → Good c db server n m s
      → fetch c db server n m (node_at d q) h s ≡ (ok a, s)
      → Canonical c a × (a.index ≡ node_at d q) × (a.hash ≡ h) × (a.index + 1 < 2 ^ 32)
  inner_node d q h a s above inside good fetched =
      let small : node_at d q + 1 < 2 ^ 32 =
        omega (arith, two_pow_mono (suc d) 32 above, two_pow-suc d, one-le-two_pow d) in
      let (canonical, ei, eh) =
        source-Canonical c db server n m laws free s (node_at d q) h a good (omega arith)
          (fetch-IsSource c db server n m (node_at d q) h a s fetched) in
      (canonical, ei, eh, omega (arith, ei))

  field_hash :
      (a : MerkleRecord)
      → Canonical c a
      → a.index + 1 < 2 ^ 32
      → IsField c a.left × IsField c a.right × IsField c a.hash
  field_hash a canonical above =
      let (fl, fr, eh) = canonical.inner above in
      (
        fl,
        fr,
        subst (IsField c) (sym eh) (hash_children_lem c laws {E = Unit {0}} a.left a.right fl fr).1,
      )

  messages :
      (a : MerkleRecord)
      → Canonical c a
      → a.index + 1 < 2 ^ 32
      → (node_of_record {M = db.MongoError} a ≡ ok (message_of a))
        × (record_of_node {M = db.MongoError} c (message_of a) ≡ ok a)
  messages a canonical above =
      let (fl, fr, fh) = field_hash a canonical above in
      node_of_record-record_of_node c laws {M = db.MongoError} a canonical above
        (hash_of_slice-IsField c laws a.hash sized fh)
        (hash_of_slice-IsField c laws a.left sized fl)
        (hash_of_slice-IsField c laws a.right sized fr)

  get_non_leaf_lem :
      (d q : ℕ) (h : Hash) (a : MerkleRecord) (request : Request GetNonLeafRequest) (s : db.State)
      → get_contract_id c {M = db.MongoError} host request request.inner.contract_id ≡ ok id
      → request.inner.index ≡ node_at d q
      → request.inner.hash ≡ h.bytes
      → d < 32
      → q < 2 ^ d
      → Good c db server n m s
      → fetch c db server n m (node_at d q) h s ≡ (ok a, s)
      → get_non_leaf c db serialize host request s ≡ (ok (message_of a), s)
  unfolding get_non_leaf
  get_non_leaf_lem d q h a request s ec ei ehr above inside good fetched =
      let (canonical, _, eh, small) = inner_node d q h a s above inside good fetched in
      let (_, _, fh) = field_hash a canonical small in
      let read =
        hash_of_slice-IsField c laws {M = db.MongoError} h sized (subst (IsField c) eh fh) in
      let (shown, _) = messages a canonical small in
      rw ec (
        rw (open_collection_lem c db server serialize host id s plain_host)
          (rw (ehr, ei) (rw read (rw fetched (rw shown refl)))))

  module _ (api : KvPairClient db.MongoError db.State)
      (delivers : Delivers c db serialize host api) where
    -- With a server that keeps its laws, a field whose elements are written as 32 bytes and a
    -- Merkle hash without collisions, over a connection whose calls run the handlers, where no
    -- indexes are to be created and the service takes the contract `id` for the requests, in a
    -- valid state: `get_node_with_hash` of an inner node returns the record that the service
    -- fetches for the index and the hash, and changes nothing.
    pub get_node_with_hash_inner :
        (d q : ℕ) (h : Hash) (a : MerkleRecord) (merkle : MongoMerkle db.State)
        → Serves c db.MongoError host merkle.contract_id id
        → d < 32
        → q < 2 ^ d
        → Good c db server n m merkle.client
        → fetch c db server n m (node_at d q) h merkle.client ≡ (ok a, merkle.client)
        → get_node_with_hash c api (node_at d q) h merkle ≡ (ok a, merkle)
    unfolding get_node_with_hash node_from Calls.get_non_leaf
    get_node_with_hash_inner d q h a merkle serves above inside good fetched =
        let request : GetNonLeafRequest = record {
          contract_id = some merkle.contract_id.id;
          index = node_at d q;
          hash = h.bytes;
        } in
        let reply =
          get_non_leaf_lem d q h a (sent request) merkle.client (serves _ request) refl refl above
            inside good fetched in
        let (canonical, ei, eh, small) =
          inner_node d q h a merkle.client above inside good fetched in
        let kind : get_node_type (node_at d q) 32 ≡ node_non_leaf =
          (get_node_type_lem (node_at d q) 32 (omega arith)).0.1 (omega (arith, ei)) in
        let (_, back) = messages a canonical small in
        rw kind (rw (delivers.non_leaf_call request merkle.client) (rw reply (rw back refl)))

  pub set_parent_replies :
      (d q : ℕ) (l r : Hash) (request : Request SetNonLeafRequest) (s : db.State)
      → get_contract_id c {M = db.MongoError} host request request.inner.contract_id ≡ ok id
      → request.inner.index ≡ node_at d q
      → request.inner.left_child_hash ≡ l.bytes
      → request.inner.right_child_hash ≡ r.bytes
      → request.inner.hash ≡ some (combine c l r).bytes
      → d < 32
      → q < 2 ^ d
      → IsField c l
      → IsField c r
      → (inserted : Inserted c db server n m s (parent_of c db server n m (node_at d q) l r))
      → set_non_leaf c db serialize host request s
        ≡ (ok (message_of (parent_of c db server n m (node_at d q) l r)), inserted.after)
  unfolding set_non_leaf check_children insert_non_leaf_node validate_children
  set_parent_replies d q l r request s ec ei el er eh above inside fl fr inserted =
      let (made, fh) = hash_children_lem c laws {E = Error db.MongoError} l r fl fr in
      let (shown, _) =
        messages (parent_of c db server n m (node_at d q) l r)
          (parent_of-Canonical c db server n m laws free d q l r above inside fl fr)
          (omega (arith, two_pow_mono (suc d) 32 above, two_pow-suc d, one-le-two_pow d)) in
      rw ec (
        rw (open_collection_lem c db server serialize host id s plain_host) (
          rw (el, er, eh, ei)
            (rw
              (
                hash_of_slice-IsField c laws {M = db.MongoError} l sized fl,
                hash_of_slice-IsField c laws {M = db.MongoError} r sized fr,
                hash_of_slice-IsField c laws {M = db.MongoError} (combine c l r) sized fh,
              )
              (rw made (
                rw (hash_eq_refl (combine c l r)) (
                  rw (new_non_leaf_lem c db server n m laws free (node_at d q) l r fl fr)
                    (rw inserted.returns (rw shown refl))))))))
