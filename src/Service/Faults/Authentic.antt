-- ===== src/Service/Faults/Authentic.antt =====
-- The handler `get_non_leaf`, after any requests to a server that could fail: the node that it replies
-- with against the hash of the request.
use native.Mathlib.Decide.{dec_lt}
use zkc_state.Prelude.{
  ℕ, ◌+◌, ◌^◌, ◌<◌, ◌≡◌, ◌≢◌, ap, sym, ◌∙◌, refl, false, List, Option, some, String, arith,
}
use zkc_state.Outcome.{Outcome, ok, err, panic, map_err, ok-injective}
use zkc_state.Action.{Action, ◌>>=◌, lift}
use zkc_state.Hash.{Bytes, Hash}
use zkc_state.Crypto.{Crypto, CryptoLaws, CollisionFree}
use zkc_state.Errors.{status_of, inconsistent_data}
use zkc_state.Merkle.Bounds.{get_node_type_lem}
use zkc_state.Merkle.Index.{
  NodeType, get_node_type, node_leaf, node_non_leaf, node_invalid, node_unspecified,
}
use zkc_state.Merkle.Node.{MerkleProof}
use zkc_state.Kvpair.Hash.{hash_of_slice}
use zkc_state.Kvpair.Node.{Node, node_of_record, children, number_of}
use zkc_state.Kvpair.Record.{MerkleRecord}
use zkc_state.Kvpair.Combine.{IsField, combine}
use zkc_state.Service.Mongo.{Mongo}
use zkc_state.Service.Collection.{
  must_get_merkle_record, get_merkle_collection_name, get_data_collection_name,
}
use zkc_state.Service.Request.{Request, GetNonLeafRequest, MongoKvPair, get_contract_id}
use zkc_state.Service.Handlers.{inside, checked}
use zkc_state.Service.Queries.{get_non_leaf}
use zkc_state.Service.Laws.{MongoLaws}
use zkc_state.Service.Fetch.{plain, fetch-IsSource, source-Canonical}
use zkc_state.Service.Insert.{Good}
use zkc_state.Service.Replies.{open_collection_lem}
use zkc_state.Service.Conversions.{message_of}
use zkc_state.Service.Faults.{Fault, works, faulty}
use zkc_state.Service.Faults.Runs.{>>=-eq-ok}
use zkc_state.Service.Faults.Fetches.{Reads-must_get}
use zkc_state.Service.Faults.Serving.{AnyRequest, AreProper, serve_all, Sound-serve_all}

lift-eq-ok :
    {E S A B : Type 0} (r : Outcome E A) (f : A → Action E S B) (s : S) {b : B} {s' : S}
    → (lift r >>= f) s ≡ (ok b, s')
    → (a : A) × (r ≡ ok a) × (f a s ≡ (ok b, s'))
lift-eq-ok (ok a) f s e = (a, refl, e)
lift-eq-ok (err x) f s e = absurd (cc)
lift-eq-ok panic f s e = absurd (cc)

map_err-eq-ok :
    {E F A : Type 0} (f : E → F) (r : Outcome E A) (a : A) → map_err f r ≡ ok a → r ≡ ok a
map_err-eq-ok f (ok b) a e = ap ok (ok-injective e)
map_err-eq-ok f (err x) a e = absurd (cc)
map_err-eq-ok f panic a e = absurd (cc)

node_refused :
    {M : Type 0} (r : MerkleRecord) (kind : NodeType)
    → get_node_type r.index 32 ≡ kind
    → kind ≢ node_non_leaf
    → node_of_record {M = M} r ≡ err (inconsistent_data "Unknown node type")
unfolding node_of_record
node_refused r node_leaf e other = rw e refl
node_refused r node_invalid e other = rw e refl
node_refused r node_unspecified e other = rw e refl
node_refused r node_non_leaf e other = absurd (other refl)

-- A record that is shown as an inner node has the index of one.
node_of_record-inner :
    {M : Type 0} (r : MerkleRecord) (node : Node)
    → node_of_record {M = M} r ≡ ok node
    → (r.index + 1 < 2 ^ 32) × (node ≡ message_of r)
unfolding node_of_record
node_of_record-inner {M} r node e = elim (dec_lt (r.index + 1) (2 ^ 32)) [
  | yes above ↦
      let kind : get_node_type r.index 32 ≡ node_non_leaf =
        (get_node_type_lem r.index 32 (omega arith)).0.1 above in
      let e' = rw kind at e in (above, sym (ok-injective e'))
  | no below ↦
      let refused =
        node_refused {M = M} r (get_node_type r.index 32) refl
          (λ kind. below ((get_node_type_lem r.index 32 (omega arith)).0.0 kind)) in
      absurd (cc)
]

-- The message of an inner node with these children.
abbrev pub inner_message : ℕ → Hash → Hash → Hash → Node
inner_message i h l r = record {
  index = i;
  hash = h.bytes;
  node_type = number_of node_non_leaf;
  node_data = some (children (record { left_child_hash = l.bytes; right_child_hash = r.bytes }));
}

module _ (c : Crypto) (db : Mongo) (server : MongoLaws db)
    (serialize : MerkleProof Hash → Option Bytes) (laws : CryptoLaws c) (free : CollisionFree c)
    (host : MongoKvPair) (plain_host : host.with_indexes ≡ false) where
  -- A node that is replied for an index and a hash has that hash of its children.
  abbrev pub IsAuthentic : Request GetNonLeafRequest → Node → Type 0
  IsAuthentic request node =
      (h l r : Hash) × (hash_of_slice {M = db.MongoError} request.inner.hash ≡ ok h)
      × IsField c l
      × IsField c r
      × (h ≡ combine c l r)
      × (node ≡ inner_message request.inner.index h l r)

  -- A record that is fetched from valid collections and shown as an inner node.
  fetched-IsAuthentic :
      (n m : String) (i : ℕ) (h : Hash) (a : MerkleRecord) (node : Node) (s : db.State)
      → Good c db server n m s
      → i < 2 ^ 64
      → must_get_merkle_record c db (plain c db n m) i h s ≡ (ok a, s)
      → node_of_record {M = db.MongoError} a ≡ ok node
      → (l r : Hash) × IsField c l
        × IsField c r
        × (h ≡ combine c l r)
        × (node ≡ inner_message i h l r)
  fetched-IsAuthentic n m i h a node s good small e shown =
      let (canonical, ei, eh) =
        source-Canonical c db server n m laws free s i h a good small
          (fetch-IsSource c db server n m i h a s e) in
      let (above, message) = node_of_record-inner {M = db.MongoError} a node shown in
      let (fl, fr, parent) = canonical.inner above in
      (
        a.left,
        a.right,
        fl,
        fr,
        sym eh ∙ parent,
        message ∙ (λ j. inner_message (ei j) (eh j) a.left a.right),
      )

  -- What the handler does after it has opened the collection and read the hash.
  fetch-IsAuthentic :
      (n m : String) (h : Hash) (request : Request GetNonLeafRequest) (node : Node)
      (s s' : db.State)
      → Good c db server n m s
      → request.inner.index < 2 ^ 64
      → hash_of_slice {M = db.MongoError} request.inner.hash ≡ ok h
      → (inside c db serialize (must_get_merkle_record c db (plain c db n m) request.inner.index h)
            >>= λ r. checked c db serialize (node_of_record r))
          s
        ≡ (ok node, s')
      → IsAuthentic request node
  fetch-IsAuthentic n m h request node s s' good small eh e =
      let i = request.inner.index in
      let reads = Reads-must_get c db server n m (λ _. works) (λ _. Unit) s tt i h in
      let (a, t, fetched, last) =
        >>=-eq-ok (inside c db serialize (must_get_merkle_record c db (plain c db n m) i h))
          (λ r. checked c db serialize (node_of_record r)) s e in
      let result = ap (λ x. x.0) (rw reads.returns at fetched) in
      let got = reads.returns ∙ ap (λ o. (o, s)) (map_err-eq-ok status_of reads.result a result) in
      let shown =
        map_err-eq-ok status_of (node_of_record {M = db.MongoError} a) node (ap (λ x. x.0) last) in
      let (l, r, fl, fr, parent, message) =
        fetched-IsAuthentic n m i h a node s good small got shown in
      (h, l, r, eh, fl, fr, parent, message)

  get_non_leaf-IsAuthentic :
      (request : Request GetNonLeafRequest) (node : Node) (s s' : db.State)
      → ((n m : String) → Good c db server n m s)
      → request.inner.index < 2 ^ 64
      → get_non_leaf c db serialize host request s ≡ (ok node, s')
      → IsAuthentic request node
  unfolding get_non_leaf
  get_non_leaf-IsAuthentic request node s s' good small e =
      let (id, _, e1) =
        lift-eq-ok (get_contract_id c host request request.inner.contract_id) _ s e in
      let e2 = rw (open_collection_lem c db server serialize host id s plain_host) at e1 in
      let (h, eh, e3) = lift-eq-ok (map_err status_of (hash_of_slice request.inner.hash)) _ s e2 in
      fetch-IsAuthentic (get_merkle_collection_name c id) (get_data_collection_name c id) h request
        node s s' (good (get_merkle_collection_name c id) (get_data_collection_name c id)) small
        (map_err-eq-ok status_of (hash_of_slice {M = db.MongoError} request.inner.hash) h eh) e3

  -- With a server that keeps its laws, a field and a Merkle hash without collisions, where no
  -- indexes are to be created: from a state whose merkle collections are all valid, after any
  -- requests, answered one after the other in whatever way while each call of the server may fail,
  -- before or after it takes effect, where those of `set_non_leaf` have the index of an inner
  -- node: if `get_non_leaf` of a `u64` index, with the server working, then replies with a node,
  -- that node has the index and the hash of the request, and this is the hash of its two children,
  -- which are field elements.
  pub served-IsAuthentic :
      (fault : ℕ → Fault db.MongoError) (rs : List AnyRequest) (request : Request GetNonLeafRequest)
      (node : Node) (s : db.State × ℕ) (s' : db.State)
      → AreProper rs
      → ((n m : String) → Good c db server n m s.0)
      → request.inner.index < 2 ^ 64
      → get_non_leaf c db serialize host request
          (serve_all c (faulty db fault) serialize host rs s).0
        ≡ (ok node, s')
      → IsAuthentic request node
  served-IsAuthentic fault rs request node s s' proper good small replied =
      get_non_leaf-IsAuthentic request node (serve_all c (faulty db fault) serialize host rs s).0 s'
        (Sound-serve_all c db server serialize laws free host plain_host fault rs s proper good)
        small replied
