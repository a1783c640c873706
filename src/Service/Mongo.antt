-- ===== src/Service/Mongo.antt =====
-- The MongoDB driver and server: a parameter of the model, as the service calls it. The state is
-- that of the whole database; a collection is named by a text. A call with a session and one without
-- are one operation of an optional session.
use zkc_state.Prelude.{ℕ, Bool, Option, String}
use zkc_state.Action.{Action}
use zkc_state.Hash.{Bytes, Hash}
use zkc_state.Kvpair.Record.{MerkleRecord, DataHashRecord}

-- The filters that the service builds, as `doc! {..}` or by `insert`.
pub data Filter : Type 0 where
  by_id : Bytes → Filter
  by_index_and_hash : ℕ → Hash → Filter
  by_hash : Hash → Filter

-- The fields of a `$set` document.
pub record SetFields : Type 0 where
  pub index : ℕ
  pub hash : Hash
  pub left : Hash
  pub right : Hash
  pub bytes : Bytes

pub record Mongo : Type 1 where
  pub State : Type 0
  pub MongoError : Type 0
  pub Session : Type 0
  pub start_session : Action MongoError State Session
  pub start_transaction : Session → Action MongoError State (Unit {0})
  -- The session changes in a commit; its labels say whether an error may be retried.
  pub commit_transaction : Session → Action MongoError State (Unit {0})
  pub may_retry : MongoError → Bool
  pub create_indexes : String → Action MongoError State (Unit {0})
  pub drop_collection : String → Action MongoError State (Unit {0})
  pub find_one_merkle :
      Option Session → String → Filter → Action MongoError State (Option MerkleRecord)
  pub insert_one_merkle :
      Option Session → String → MerkleRecord → Action MongoError State (Unit {0})
  pub replace_one_merkle :
      Option Session → String → Filter → MerkleRecord → Action MongoError State (Unit {0})
  -- The last argument is the option `upsert`.
  pub update_one_merkle :
      Option Session → String → Filter → SetFields → Bool → Action MongoError State (Unit {0})
  pub find_one_datahash :
      Option Session → String → Filter → Action MongoError State (Option DataHashRecord)
  pub insert_one_datahash :
      Option Session → String → DataHashRecord → Action MongoError State (Unit {0})
