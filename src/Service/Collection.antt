-- ===== src/Service/Collection.antt =====
-- `MongoCollection` (src/service.rs). Its methods return the server's new state.
use zkc_state.Prelude.{ℕ, Bool, true, Option, none, some, String, ◌==◌, replicate, if◌then◌else◌}
use Prim.Native.String.{◌++◌ as text_append}
use zkc_state.Outcome.{Outcome, ok, err, panic, unwrap, ok_or, map_err, assert}
use zkc_state.Action.{Action, ◌>>=◌, ◌>>◌, pure, lift, map_error}
use zkc_state.Hash.{Bytes, Hash, hash_eq}
use zkc_state.Crypto.{Crypto}
use zkc_state.Errors.{Error, mongodb, merkle, precondition}
use zkc_state.Merkle.Index.{leaf_check, get_path, get_offset}
use zkc_state.Merkle.Node.{MerkleProof}
use zkc_state.Merkle.Walk.{descend, climb}
use zkc_state.Kvpair.Hash.{ContractId, merkle_tree_height, hash_children, empty_hash}
use zkc_state.Kvpair.Record.{
  MerkleRecord, DataHashRecord, new_non_leaf, get_default_record, record_node, empty_datahash,
}
use zkc_state.Service.Mongo.{Mongo, Filter, SetFields, by_id, by_index_and_hash, by_hash}

pub record MongoCollection (Session : Type 0) : Type 0 where
  pub merkle_collection : String
  pub datahash_collection : String
  pub session : Option Session

abbrev pub database_name : String
database_name = "zkwasm-mongo-merkle"

unfoldable pub get_merkle_collection_name : Crypto → ContractId → String
get_merkle_collection_name c id = text_append "MERKLEDATA_" (c.hex_encode id.id)

unfoldable pub get_data_collection_name : Crypto → ContractId → String
get_data_collection_name c id = text_append "DATAHASH_" (c.hex_encode id.id)

-- `ObjectId::from_bytes([0; 12])`, the id of the document that holds the current root.
abbrev pub get_current_root_object_id : Bytes
get_current_root_object_id = replicate 12 0

module _ (c : Crypto) (db : Mongo) where
  open db use {State, MongoError, Session}

  abbrev pub Failure : Type 0
  Failure = Error MongoError

  abbrev pub Col : Type 0
  Col = MongoCollection Session

  -- A call of the driver, with the conversion that `?` makes of its error.
  abbrev pub driver : {A : Type 0} → Action MongoError State A → Action Failure State A
  driver = map_error mongodb

  unfoldable pub find_one_merkle_record :
      Col → Filter → Action MongoError State (Option MerkleRecord)
  find_one_merkle_record col filter = db.find_one_merkle col.session col.merkle_collection filter

  unfoldable pub insert_one_merkle_record : Col → MerkleRecord → Action MongoError State (Unit {0})
  insert_one_merkle_record col doc = db.insert_one_merkle col.session col.merkle_collection doc

  unfoldable pub replace_one_merkle_record :
      Col → Filter → MerkleRecord → Action MongoError State (Unit {0})
  replace_one_merkle_record col query replacement =
      db.replace_one_merkle col.session col.merkle_collection query replacement

  unfoldable pub update_one_merkle_record :
      Col → Filter → SetFields → Bool → Action MongoError State (Unit {0})
  update_one_merkle_record col query update upsert =
      db.update_one_merkle col.session col.merkle_collection query update upsert

  -- What the record at an index is, when no document has it: the default, if that has the hash.
  unfoldable pub default_for : ℕ → Hash → Action Failure State (Option MerkleRecord)
  default_for index hash = do
    default_record ← lift (map_err merkle (get_default_record c index))
    pure (if hash_eq default_record.hash hash then some default_record else none)

  unfoldable pub get_merkle_record : Col → ℕ → Hash → Action Failure State (Option MerkleRecord)
  unfolding find_one_merkle_record default_for
  get_merkle_record col index hash = do
    found ← driver (find_one_merkle_record col (by_index_and_hash index hash))
    elim found [ none ↦ default_for index hash | some r ↦ pure (some r) ]

  unfoldable pub must_get_merkle_record : Col → ℕ → Hash → Action Failure State MerkleRecord
  unfolding get_merkle_record
  must_get_merkle_record col index hash = do
    found ← get_merkle_record col index hash
    lift (ok_or found (precondition "Merkle record not found"))

  -- `.ok()` of a `Result`
  abbrev ok_part : {E F A : Type 0} → Outcome E A → Outcome F (Option A)
  ok_part (ok a) = ok (some a)
  ok_part (err e) = ok none
  ok_part panic = panic

  unfoldable pub get_root_merkle_record : Col → Action Failure State (Option MerkleRecord)
  unfolding find_one_merkle_record
  get_root_merkle_record col = do
    found ← driver (find_one_merkle_record col (by_id get_current_root_object_id))
    elim found [ none ↦ lift (ok_part (get_default_record c 0)) | some r ↦ pure (some r) ]

  unfoldable pub must_get_root_merkle_record : Col → Action Failure State MerkleRecord
  unfolding get_root_merkle_record
  must_get_root_merkle_record col = do found ← get_root_merkle_record col; lift (unwrap found)

  unfoldable pub insert_merkle_record : Col → MerkleRecord → Action Failure State MerkleRecord
  unfolding find_one_merkle_record insert_one_merkle_record
  insert_merkle_record col r = do
    found ← driver (find_one_merkle_record col (by_index_and_hash r.index r.hash))
    elim found [ some old ↦ pure old | none ↦ driver (insert_one_merkle_record col r) >> pure r ]

  unfoldable pub insert_non_leaf_node : Col → ℕ → Hash → Hash → Action Failure State MerkleRecord
  unfolding insert_merkle_record
  insert_non_leaf_node col index left right = do
    r ← lift (new_non_leaf c index left right)
    insert_merkle_record col r

  -- The index that is set is 0 whatever the record's is.
  abbrev pub root_fields : MerkleRecord → SetFields
  root_fields r = record {
    index = 0;
    hash = r.hash;
    left = r.left;
    right = r.right;
    bytes = r.bytes;
  }

  unfoldable pub update_root_merkle_record : Col → MerkleRecord → Action Failure State MerkleRecord
  unfolding update_one_merkle_record
  update_root_merkle_record col r = do
    driver (update_one_merkle_record col (by_id get_current_root_object_id) (root_fields r) true)
    pure r

  unfoldable pub get_leaf_and_proof :
      Col → ℕ → Action Failure State (MerkleRecord × MerkleProof Hash)
  get_leaf_and_proof col index = do
    lift (map_err merkle (leaf_check index merkle_tree_height))
    paths ← lift (map_err merkle (get_path index merkle_tree_height))
    acc_node ← must_get_root_merkle_record col
    walked ← descend (record_node c) (must_get_merkle_record col) paths 0 acc_node
    pure (
      walked.0,
      record { source = (walked.0).hash; root = acc_node.hash; assist = walked.1; index = index },
    )

  -- The body of the loop after the hash: build the parent, insert it, and make it the root at 0.
  unfoldable pub store_parent : Col → ℕ → Hash → Hash → Hash → Action Failure State (Unit {0})
  store_parent col index hash left right = do
    r ← lift (new_non_leaf c index left right)
    lift (assert (hash_eq r.hash hash))
    insert_merkle_record col r
    if index == 0 then update_root_merkle_record col r >> pure tt else pure tt

  -- What `set_leaf_and_get_proof` does after it has read the leaf's proof.
  unfoldable pub write_leaf :
      Col → MerkleRecord → MerkleProof Hash → Action Failure State (MerkleProof Hash)
  write_leaf col leaf proof = do
    p ← lift (get_offset leaf.index)
    insert_merkle_record col leaf
    climb (hash_children c) (store_parent col) proof.assist merkle_tree_height p leaf.hash
    pure (record {
      source = leaf.hash;
      root = proof.root;
      assist = proof.assist;
      index = proof.index;
    })

  unfoldable pub set_leaf_and_get_proof :
      Col → MerkleRecord → Action Failure State (MerkleProof Hash)
  set_leaf_and_get_proof col leaf = do
    found ← get_leaf_and_proof col leaf.index
    write_leaf col leaf found.1

  unfoldable pub find_one_datahash_record :
      Col → Filter → Action MongoError State (Option DataHashRecord)
  find_one_datahash_record col filter =
      db.find_one_datahash col.session col.datahash_collection filter

  unfoldable pub insert_one_datahash_record :
      Col → DataHashRecord → Action MongoError State (Unit {0})
  insert_one_datahash_record col doc =
      db.insert_one_datahash col.session col.datahash_collection doc

  unfoldable pub insert_datahash_record : Col → DataHashRecord → Action Failure State DataHashRecord
  unfolding find_one_datahash_record insert_one_datahash_record
  insert_datahash_record col r = do
    found ← driver (find_one_datahash_record col (by_hash r.hash))
    elim found [ some old ↦ pure old | none ↦ driver (insert_one_datahash_record col r) >> pure r ]

  unfoldable pub get_datahash_record : Col → Hash → Action Failure State (Option DataHashRecord)
  unfolding find_one_datahash_record
  get_datahash_record col hash =
      if hash_eq hash (empty_hash c)
      then pure (some empty_datahash)
      else driver (find_one_datahash_record col (by_hash hash))

  unfoldable pub must_get_datahash_record : Col → Hash → Action Failure State DataHashRecord
  unfolding get_datahash_record
  must_get_datahash_record col hash = do
    found ← get_datahash_record col hash
    lift (ok_or found (precondition "Datahash record not found"))
