-- ===== src/Service/Faults/Serving.antt =====
-- A service that answers one request after the other, against a server
-- that can fail.
use zkc_state.Prelude.{ℕ, ◌+◌, ◌^◌, ◌<◌, ◌≡◌, false, List, [], ◌∷◌, Option}
use zkc_state.Action.{Action}
use zkc_state.Hash.{Bytes, Hash}
use zkc_state.Crypto.{Crypto, CryptoLaws, CollisionFree}
use zkc_state.Merkle.Node.{MerkleProof}
use zkc_state.Service.Mongo.{Mongo}
use zkc_state.Service.Request.{
  Request, GetRootRequest, SetRootRequest, GetLeafRequest, SetLeafRequest, GetNonLeafRequest,
  SetNonLeafRequest, PoseidonHashRequest, DataHashRecordRequest, MongoKvPair,
}
use zkc_state.Service.Handlers.{get_root, set_root, get_leaf, set_leaf}
use zkc_state.Service.Queries.{get_non_leaf, set_non_leaf, poseidon_hash, data_hash_record}
use zkc_state.Service.Laws.{MongoLaws}
use zkc_state.Service.Faults.{Fault, faulty}
use zkc_state.Service.Faults.Keeps.{Any, Keeps-state}
use zkc_state.Service.Faults.Lookups.{Safe, Sound}
use zkc_state.Service.Faults.Requests.{Safe-get_leaf, Safe-get_root, Safe-set_root}
use zkc_state.Service.Faults.Writers.{
  Safe-get_non_leaf, Safe-poseidon_hash, Safe-set_leaf, Safe-set_non_leaf,
}
use zkc_state.Service.Faults.Records.{Safe-data_hash_record}

-- A request to the service.
pub data AnyRequest : Type 0 where
  get_root_request : Request GetRootRequest → AnyRequest
  set_root_request : Request SetRootRequest → AnyRequest
  get_leaf_request : Request GetLeafRequest → AnyRequest
  set_leaf_request : Request SetLeafRequest → AnyRequest
  get_non_leaf_request : Request GetNonLeafRequest → AnyRequest
  set_non_leaf_request : Request SetNonLeafRequest → AnyRequest
  poseidon_hash_request : Request PoseidonHashRequest → AnyRequest
  data_hash_record_request : Request DataHashRecordRequest → AnyRequest

-- A request for an inner node has the index of one.
abbrev pub IsProper : AnyRequest → Type 0
IsProper (set_non_leaf_request request) = request.inner.index + 1 < 2 ^ 32
IsProper _ = Unit

abbrev pub AreProper : List AnyRequest → Type 0
AreProper [] = Unit
AreProper (r ∷ rs) = IsProper r × AreProper rs

module _ (c : Crypto) (db : Mongo) (serialize : MerkleProof Hash → Option Bytes)
    (host : MongoKvPair) where
  -- The state that the handler of a request leaves.
  unfoldable pub serve : AnyRequest → db.State → db.State
  serve (get_root_request r) s = (get_root c db serialize host r s).1
  serve (set_root_request r) s = (set_root c db serialize host r s).1
  serve (get_leaf_request r) s = (get_leaf c db serialize host r s).1
  serve (set_leaf_request r) s = (set_leaf c db serialize host r s).1
  serve (get_non_leaf_request r) s = (get_non_leaf c db serialize host r s).1
  serve (set_non_leaf_request r) s = (set_non_leaf c db serialize host r s).1
  serve (poseidon_hash_request r) s = (poseidon_hash c db serialize host r s).1
  serve (data_hash_record_request r) s = (data_hash_record c db serialize host r s).1

  -- Requests one after the other, whatever they are answered.
  unfoldable pub serve_all : List AnyRequest → db.State → db.State
  serve_all [] s = s
  serve_all (r ∷ rs) s = serve_all rs (serve r s)

module _ (c : Crypto) (db : Mongo) (server : MongoLaws db)
    (serialize : MerkleProof Hash → Option Bytes) (laws : CryptoLaws c) (free : CollisionFree c)
    (host : MongoKvPair) (plain_host : host.with_indexes ≡ false)
    (fault : ℕ → Fault db.MongoError) where
  abbrev down : Mongo
  down = faulty db fault

  abbrev AllSound : db.State → Type 0
  AllSound = Sound c db server serialize laws free host plain_host fault

  abbrev IsSafe : {E A : Type 0} → Action E (db.State × ℕ) A → Type 0
  IsSafe = Safe c db server serialize laws free host plain_host fault

  left_by :
      {E A : Type 0} (call : Action E (db.State × ℕ) A) (s : db.State) (calls : ℕ)
      → IsSafe call
      → AllSound s
      → AllSound (call (s, calls)).1.0
  left_by call s calls safe all = Keeps-state AllSound (Any AllSound) call s calls safe all

  Sound-serve :
      (r : AnyRequest) (s : db.State) (calls : ℕ)
      → IsProper r
      → AllSound s
      → AllSound (serve c down serialize host r (s, calls)).0
  unfolding serve
  Sound-serve (get_root_request r) s calls proper all =
      left_by (get_root c down serialize host r) s calls
        (Safe-get_root c db server serialize laws free host plain_host fault r) all
  Sound-serve (set_root_request r) s calls proper all =
      left_by (set_root c down serialize host r) s calls
        (Safe-set_root c db server serialize laws free host plain_host fault r) all
  Sound-serve (get_leaf_request r) s calls proper all =
      left_by (get_leaf c down serialize host r) s calls
        (Safe-get_leaf c db server serialize laws free host plain_host fault r) all
  Sound-serve (set_leaf_request r) s calls proper all =
      left_by (set_leaf c down serialize host r) s calls
        (Safe-set_leaf c db server serialize laws free host plain_host fault r) all
  Sound-serve (get_non_leaf_request r) s calls proper all =
      left_by (get_non_leaf c down serialize host r) s calls
        (Safe-get_non_leaf c db server serialize laws free host plain_host fault r) all
  Sound-serve (set_non_leaf_request r) s calls proper all =
      left_by (set_non_leaf c down serialize host r) s calls
        (Safe-set_non_leaf c db server serialize laws free host plain_host fault r proper) all
  Sound-serve (poseidon_hash_request r) s calls proper all =
      left_by (poseidon_hash c down serialize host r) s calls
        (Safe-poseidon_hash c db server serialize laws free host plain_host fault r) all
  Sound-serve (data_hash_record_request r) s calls proper all =
      left_by (data_hash_record c down serialize host r) s calls
        (Safe-data_hash_record c db server serialize laws free host plain_host fault r) all

  -- With a server that keeps its laws, but of whose calls each may fail, before or after it takes
  -- effect, a field and a Merkle hash without collisions, where no indexes are to be created: any
  -- requests to the eight handlers, answered one after the other in whatever way, where those of
  -- `set_non_leaf` have the index of an inner node, leave all merkle collections valid if they
  -- were so before.
  pub Sound-serve_all :
      (rs : List AnyRequest) (s : db.State × ℕ)
      → AreProper rs
      → AllSound s.0
      → AllSound (serve_all c down serialize host rs s).0
  unfolding serve_all
  Sound-serve_all [] s proper all = all
  Sound-serve_all (r ∷ rs) s (proper, more) all =
      Sound-serve_all rs (serve c down serialize host r s) more (Sound-serve r s.0 s.1 proper all)
