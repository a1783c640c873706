-- ===== src/Service/Faults/Records.antt =====
-- The handler `data_hash_record` against a server that can fail.
use zkc_state.Prelude.{ℕ, ◌≡◌, ◌==◌, false, Option, none, some, String}
use zkc_state.Outcome.{ok, map_err, ok_or}
use zkc_state.Action.{Action}
use zkc_state.Hash.{Bytes, Hash}
use zkc_state.Crypto.{Crypto, CryptoLaws, CollisionFree}
use zkc_state.Errors.{status_of, precondition}
use zkc_state.Merkle.Node.{MerkleProof}
use zkc_state.Kvpair.Hash.{hash_of_slice}
use zkc_state.Service.Mongo.{Mongo}
use zkc_state.Service.Collection.{get_datahash_record, must_get_datahash_record}
use zkc_state.Service.Request.{
  Request, mode_fetch, mode_store, DataHashRecordRequest, MongoKvPair, get_contract_id,
}
use zkc_state.Service.Queries.{data_hash_record, record_for, fetch_record, store_record}
use zkc_state.Service.Laws.{MongoLaws}
use zkc_state.Service.Fetch.{plain}
use zkc_state.Service.Faults.{Fault, faulty}
use zkc_state.Service.Faults.Keeps.{
  Keeps-pure, Keeps-map_error, Keeps-bind, Keeps-value, Keeps-if, Keeps-Option,
}
use zkc_state.Service.Faults.Lookups.{
  Keeps-open, Safe, Safe-get_datahash, Safe-insert_datahash, Sound,
}

module _ (c : Crypto) (db : Mongo) (server : MongoLaws db)
    (serialize : MerkleProof Hash → Option Bytes) (laws : CryptoLaws c) (free : CollisionFree c)
    (host : MongoKvPair) (plain_host : host.with_indexes ≡ false)
    (fault : ℕ → Fault db.MongoError) where
  abbrev down : Mongo
  down = faulty db fault

  abbrev AllSound : db.State → Type 0
  AllSound = Sound c db server serialize laws free host plain_host fault

  abbrev IsSafe : {E A : Type 0} → Action E (db.State × ℕ) A → Type 0
  IsSafe = Safe c db server serialize laws free host plain_host fault

  module _ (n m : String) where
    Safe-must_get_datahash :
        (h : Hash) → IsSafe (must_get_datahash_record c down (plain c down n m) h)
    unfolding must_get_datahash_record
    Safe-must_get_datahash h =
        Keeps-bind AllSound (get_datahash_record c down (plain c down n m) h) _
          (Safe-get_datahash c db server serialize laws free host plain_host fault n m h)
          λ found. Keeps-pure AllSound (ok_or found (precondition "Datahash record not found"))

    Safe-fetch_record :
        (wanted : Option Bytes) → IsSafe (fetch_record c down serialize (plain c down n m) wanted)
    unfolding fetch_record
    Safe-fetch_record none = record { at = λ s calls all. all }
    Safe-fetch_record (some bytes) =
        Keeps-value AllSound (map_err status_of (hash_of_slice bytes))
          λ h _. Keeps-map_error AllSound status_of (Safe-must_get_datahash h)

    Safe-store_record :
        (bytes wanted : Option Bytes)
        → IsSafe (store_record c down serialize (plain c down n m) bytes wanted)
    unfolding store_record
    Safe-store_record (some bytes) (some hash) =
        Keeps-value AllSound (map_err status_of (hash_of_slice hash)) λ h _.
          Keeps-bind AllSound _ _
            (Keeps-map_error AllSound status_of (
              Safe-insert_datahash c db server serialize laws free host plain_host fault n m
                (record { hash = h; bytes = bytes })))
            λ _. Keeps-pure AllSound (ok (record { hash = h; bytes = bytes }))
    Safe-store_record none hash = record { at = λ s calls all. all }
    Safe-store_record (some bytes) none = record { at = λ s calls all. all }

    Safe-record_for :
        (message : DataHashRecordRequest)
        → IsSafe (record_for c down serialize (plain c down n m) message)
    unfolding record_for
    Safe-record_for message =
        Keeps-Option AllSound message.mode (record { at = λ s calls all. all })
          λ mode. Keeps-if AllSound (mode == mode_fetch) (Safe-fetch_record message.hash) (
            Keeps-if AllSound (mode == mode_store) (Safe-store_record message.bytes message.hash)
              (record { at = λ s calls all. all }))

  pub Safe-data_hash_record :
      (request : Request DataHashRecordRequest)
      → IsSafe (data_hash_record c down serialize host request)
  unfolding data_hash_record
  Safe-data_hash_record request =
      Keeps-value AllSound (get_contract_id c host request request.inner.contract_id) λ id _.
        Keeps-open c db server serialize laws free host plain_host fault id _ λ n m.
          Keeps-bind AllSound (record_for c down serialize (plain c down n m) request.inner) _
            (Safe-record_for n m request.inner)
            λ r. Keeps-pure AllSound (ok (record { hash = (r.hash).bytes; bytes = r.bytes }))
