-- ===== src/Service/LeafData.antt =====
-- The handler `get_leaf`: the record of the leaf, and the data that are shown with it.
use zkc_state.Prelude.{
  ℕ, ◌^◌, ◌<◌, ◌≡◌, ◌≢◌, inl, inr, refl, ap, sym, ◌∙◌, [], true, false, Option, some, none, String,
  Bool-cases, arith,
}
use zkc_state.Outcome.{ok, err}
use zkc_state.Hash.{Hash, Bytes, hash_eq, hash_eq→eq, hash_eq_refl}
use zkc_state.Crypto.{Crypto, CryptoLaws, CollisionFree}
use zkc_state.Errors.{inconsistent_data}
use zkc_state.Merkle.Index.{get_node_type, node_leaf}
use zkc_state.Merkle.Node.{MerkleProof}
use zkc_state.Merkle.Bounds.{node_at, get_node_type_lem}
use zkc_state.Merkle.Spec.{Tree, leaf, turns, subtree}
use zkc_state.Kvpair.Hash.{ContractId, empty_hash}
use zkc_state.Kvpair.Record.{MerkleRecord, DataHashRecord, zero_hash, empty_datahash}
use zkc_state.Kvpair.Node.{
  Node, leaf_bytes, number_of, new_simple_leaf, node_of_record, node_of_records,
}
use zkc_state.Kvpair.Defaults.{default_at, get_default_hash_for_depth_lem}
use zkc_state.Service.Mongo.{Mongo}
use zkc_state.Service.Collection.{
  Col, get_merkle_collection_name, get_data_collection_name, get_datahash_record,
}
use zkc_state.Service.Request.{Request, GetLeafRequest, Proof, MongoKvPair, get_contract_id}
use zkc_state.Service.Handlers.{
  get_leaf, find_leaf, leaf_in_root, check_leaf_hash, leaf_node, shown,
}
use zkc_state.Service.Laws.{MongoLaws, AnswersHash}
use zkc_state.Service.Fetch.{plain, fetch, fetch-IsSource, source-Canonical}
use zkc_state.Service.Leaf.{Holds, proof_of, get_leaf_fetched}
use zkc_state.Service.Replies.{open_collection_lem, proof_message_lem, finish_lem}
use zkc_state.Service.DataRecords.{OneEach, get_datahash_record_lem}

-- The message of a leaf with its data.
abbrev pub leaf_message : ℕ → Hash → Bytes → Node
leaf_message i h b = record {
  index = i;
  hash = h.bytes;
  node_type = number_of node_leaf;
  node_data = some (leaf_bytes b);
}

-- The data that are shown for a leaf, none where no record has its hash.
abbrev pub data_of : Option DataHashRecord → Bytes
data_of none = []
data_of (some d) = d.bytes

pub is_leaf : (k : ℕ) → k < 2 ^ 32 → get_node_type (node_at 32 k) 32 ≡ node_leaf
is_leaf k inside = (get_node_type_lem (node_at 32 k) 32 (omega arith)).1.1 (omega arith)

pub node_of_record-leaf :
    {M : Type 0} (r : MerkleRecord)
    → get_node_type r.index 32 ≡ node_leaf
    → node_of_record {M = M} r ≡ err (inconsistent_data "Unknown node type")
unfolding node_of_record
node_of_record-leaf r kind = rw kind refl

pub node_of_records-leaf :
    {M : Type 0} (k : ℕ) (h : Hash) (r : MerkleRecord) (d : DataHashRecord)
    → k < 2 ^ 32
    → r.index ≡ node_at 32 k
    → r.hash ≡ h
    → d.hash ≡ h
    → node_of_records {M = M} r d ≡ ok (leaf_message (node_at 32 k) h d.bytes)
unfolding node_of_records
node_of_records-leaf {M} k h r d inside ei eh ed =
    let kind : get_node_type r.index 32 ≡ node_leaf =
      ap (λ i. get_node_type i 32) ei ∙ is_leaf k inside in
    let same : hash_eq r.hash d.hash ≡ true =
      ap (hash_eq r.hash) (ed ∙ sym eh) ∙ hash_eq_refl r.hash in
    rw (node_of_record-leaf {M = M} r kind) (
      rw (same, kind)
        (λ j. ok (record {
          index = ei j;
          hash = (eh j).bytes;
          node_type = number_of node_leaf;
          node_data = some (leaf_bytes d.bytes);
        })))

module _ (c : Crypto) (db : Mongo) (server : MongoLaws db)
    (serialize : MerkleProof Hash → Option Bytes) where
  pub leaf_node_lem :
      (n m : String) (k : ℕ) (h : Hash) (r : MerkleRecord) (found : Option DataHashRecord)
      (s : db.State)
      → k < 2 ^ 32
      → r.index ≡ node_at 32 k
      → r.hash ≡ h
      → h ≢ empty_hash c
      → OneEach (server.records m s)
      → AnswersHash h (server.records m s) found
      → leaf_node c db serialize (plain c db n m) r s
        ≡ (ok (leaf_message (node_at 32 k) h (data_of found)), s)
  unfolding leaf_node
  leaf_node_lem n m k h r none s inside ei eh differs one answer =
      let read : get_datahash_record c db (plain c db n m) r.hash s ≡ (ok none, s) =
        ap (λ x. get_datahash_record c db (plain c db n m) x s) eh
        ∙ get_datahash_record_lem c db server n m h none s differs one answer in
      rw read (λ j. (ok (new_simple_leaf (ei j) (eh j)), s))
  leaf_node_lem n m k h r (some d) s inside ei eh differs one answer =
      let read : get_datahash_record c db (plain c db n m) r.hash s ≡ (ok (some d), s) =
        ap (λ x. get_datahash_record c db (plain c db n m) x s) eh
        ∙ get_datahash_record_lem c db server n m h (some d) s differs one answer in
      rw read (rw (node_of_records-leaf k h r d inside ei eh answer.1) refl)

  pub shown_other :
      (default h : Hash) (r : MerkleRecord)
      → r.hash ≡ h
      → h ≢ default
      → shown c db serialize default r ≡ r
  shown_other default h r eh differs = elim (Bool-cases (hash_eq r.hash default)) [
    | inl same ↦ absurd (differs (sym eh ∙ hash_eq→eq r.hash default same))
    | inr other ↦ rw other refl
  ]

  pub shown_default :
      (default : Hash) (r : MerkleRecord)
      → r.hash ≡ default
      → shown c db serialize default r ≡ record r { hash = zero_hash }
  shown_default default r eh =
      let same : hash_eq r.hash default ≡ true =
        ap (hash_eq r.hash) (sym eh) ∙ hash_eq_refl r.hash in
      rw same refl

  pub zero_leaf_node :
      (col : Col c db) (k : ℕ) (r : MerkleRecord) (s : db.State)
      → k < 2 ^ 32
      → r.index ≡ node_at 32 k
      → leaf_node c db serialize col (record r { hash = zero_hash }) s
        ≡ (ok (leaf_message (node_at 32 k) zero_hash []), s)
  unfolding leaf_node get_datahash_record
  zero_leaf_node col k r s inside ei =
      let z : MerkleRecord = record r { hash = zero_hash } in
      rw (hash_eq_refl zero_hash) (
        rw
          (node_of_records-leaf {M = db.MongoError} k zero_hash z empty_datahash inside ei refl
            refl)
          refl)

  module _ (laws : CryptoLaws c) (free : CollisionFree c) (host : MongoKvPair)
      (id : ContractId) where
    abbrev n : String
    n = get_merkle_collection_name c id

    abbrev m : String
    m = get_data_collection_name c id

    leaf_index :
        (k : ℕ) (h : Hash) (a : MerkleRecord) (t : Tree Hash) (s : db.State)
        → k < 2 ^ 32
        → Holds c db server n m s t
        → fetch c db server n m (node_at 32 k) h s ≡ (ok a, s)
        → a.index ≡ node_at 32 k
    leaf_index k h a t s inside held fetched =
        (source-Canonical c db server n m laws free s (node_at 32 k) h a held.valid (omega arith)
          (fetch-IsSource c db server n m (node_at 32 k) h a s fetched)).1

    find_leaf_lem :
        (k : ℕ) (t : Tree Hash) (h : Hash) (request : GetLeafRequest) (s : db.State)
        → ((p : MerkleProof Hash) → (b : Bytes) × (serialize p ≡ some b))
        → request.index ≡ node_at 32 k
        → request.hash ≡ none
        → k < 2 ^ 32
        → subtree (turns 32 k) t ≡ some (leaf h)
        → Holds c db server n m s t
        → (a : MerkleRecord) × (answer : Option Proof) × (find_leaf c db serialize
              (plain c db n m)
              request
              s
            ≡ (ok (a, answer), s))
          × (a.index ≡ node_at 32 k)
          × (a.hash ≡ h)
    unfolding find_leaf leaf_in_root check_leaf_hash
    find_leaf_lem k t h request s total ei eh inside el held =
        let (a, got, ea, fetched) = get_leaf_fetched c db server n m k t h s inside el held in
        let (answer, sent) =
          proof_message_lem c db server serialize host id laws free request.proof_type
            (proof_of c db server n m t h k) s total in
        (
          a,
          answer,
          rw (eh, ei) (rw got (rw sent refl)),
          leaf_index k h a t s inside held fetched,
          ea,
        )

    pub get_leaf_lem :
        (k : ℕ) (t : Tree Hash) (h : Hash) (found : Option DataHashRecord)
        (request : Request GetLeafRequest) (s : db.State)
        → ((p : MerkleProof Hash) → (b : Bytes) × (serialize p ≡ some b))
        → host.with_indexes ≡ false
        → get_contract_id c {M = db.MongoError} host request request.inner.contract_id ≡ ok id
        → request.inner.index ≡ node_at 32 k
        → request.inner.hash ≡ none
        → k < 2 ^ 32
        → subtree (turns 32 k) t ≡ some (leaf h)
        → h ≢ default_at c laws 0
        → h ≢ empty_hash c
        → OneEach (server.records m s)
        → AnswersHash h (server.records m s) found
        → Holds c db server n m s t
        → (answer : Option Proof) × (get_leaf c db serialize host request s ≡ (
          ok (record {
            node = some (leaf_message (node_at 32 k) h (data_of found));
            proof = answer;
          }),
          s,
        ))
    unfolding get_leaf
    get_leaf_lem k t h found request s total plain_host ec ei eh inside el no_default no_empty one
          stored held =
        let (a, answer, got, ai, ah) =
          find_leaf_lem k t h request.inner s total ei eh inside el held in
        let node = leaf_node_lem n m k h a found s inside ai ah no_empty one stored in
        (
          answer,
          rw ec (
              rw (open_collection_lem c db server serialize host id s plain_host) (
                rw got (
                  rw (get_default_hash_for_depth_lem c laws 32 (omega arith)) (
                    rw (shown_other (default_at c laws 0) h a ah no_default) (
                      rw node (rw (finish_lem c db server serialize host id laws free s) refl)))))),
        )
