-- ===== src/Client/Delivery.antt =====
-- A connection of the client to the service: the calls run the handlers, one after the other.
use zkc_state.Prelude.{◌≡◌, Option, none, some}
use zkc_state.Action.{Action, ◌>>=◌, pure}
use zkc_state.Hash.{Bytes, Hash}
use zkc_state.Crypto.{Crypto}
use zkc_state.Merkle.Node.{MerkleProof}
use zkc_state.Service.Mongo.{Mongo}
use zkc_state.Service.Request.{
  Request, GetLeafRequest, SetLeafRequest, GetNonLeafRequest, SetNonLeafRequest, MongoKvPair,
}
use zkc_state.Service.Handlers.{get_leaf, set_leaf}
use zkc_state.Service.Queries.{get_non_leaf, set_non_leaf}
use zkc_state.Client.Calls.{KvPairClient}

-- A request without metadata.
abbrev pub sent : {T : Type 0} → T → Request T
sent message = record { metadata = λ name. none; inner = message }

-- A response with one field, which is set.
abbrev pub some_of : {E S A : Type 0} → Action E S A → Action E S (Option A)
some_of m = m >>= λ a. pure (some a)

pub record Delivers (c : Crypto) (db : Mongo) (serialize : MerkleProof Hash → Option Bytes)
    (host : MongoKvPair) (api : KvPairClient db.MongoError db.State) : Type 0 where
  pub leaf_call :
      (r : GetLeafRequest) (s : db.State)
      → api.get_leaf r s ≡ get_leaf c db serialize host (sent r) s
  pub set_leaf_call :
      (r : SetLeafRequest) (s : db.State)
      → api.set_leaf r s ≡ set_leaf c db serialize host (sent r) s
  pub non_leaf_call :
      (r : GetNonLeafRequest) (s : db.State)
      → api.get_non_leaf r s ≡ some_of (get_non_leaf c db serialize host (sent r)) s
  pub set_non_leaf_call :
      (r : SetNonLeafRequest) (s : db.State)
      → api.set_non_leaf r s ≡ some_of (set_non_leaf c db serialize host (sent r)) s
