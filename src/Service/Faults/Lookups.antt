-- ===== src/Service/Faults/Lookups.antt =====
-- The parts of the handlers that read a collection or store data, against a server that can fail.
use zkc_state.Prelude.{ℕ, ◌≡◌, inl, inr, false, Option, none, some, String, arith}
use zkc_state.Outcome.{ok}
use zkc_state.Action.{Action, ◌>>=◌}
use zkc_state.Hash.{Bytes, Hash, hash_eq}
use zkc_state.Crypto.{Crypto, CryptoLaws, CollisionFree}
use zkc_state.Errors.{mongodb}
use zkc_state.Merkle.Node.{MerkleProof}
use zkc_state.Kvpair.Hash.{ContractId, empty_hash}
use zkc_state.Kvpair.Record.{DataHashRecord, MerkleRecord, empty_datahash}
use zkc_state.Service.Mongo.{Mongo, by_hash}
use zkc_state.Service.Collection.{
  MongoCollection, driver, insert_datahash_record, get_datahash_record, must_get_merkle_record,
  must_get_root_merkle_record, get_leaf_and_proof, get_merkle_collection_name,
  get_data_collection_name,
}
use zkc_state.Service.Request.{MongoKvPair}
use zkc_state.Service.Handlers.{Reply, inside, open_collection}
use zkc_state.Service.Session.{new_collection}
use zkc_state.Service.Laws.{MongoLaws}
use zkc_state.Service.Invariant.{Canonical, get_default_record-Canonical}
use zkc_state.Service.Fetch.{plain, fetch-IsSource}
use zkc_state.Service.Insert.{Kept, IsIn-with_current}
use zkc_state.Service.Faults.{Fault, faulty}
use zkc_state.Service.Faults.Runs.{Runs-disturb}
use zkc_state.Service.Faults.Reads.{Reads, Reads-map_error}
use zkc_state.Service.Faults.Fetches.{Reads-must_get, Reads-must_get_root, Reads-get_leaf_and_proof}
use zkc_state.Service.Faults.Keeps.{
  Keeps, Any, Keeps-pure, Keeps-map_error, Keeps-bind, Keeps-if, Keeps-Option, Left-Runs,
  Keeps-Reads,
}
use zkc_state.Service.Faults.Tables.{AllGood, AllGood-data}

module _ (c : Crypto) (db : Mongo) (server : MongoLaws db)
    (serialize : MerkleProof Hash → Option Bytes) (laws : CryptoLaws c) (free : CollisionFree c)
    (host : MongoKvPair) (plain_host : host.with_indexes ≡ false)
    (fault : ℕ → Fault db.MongoError) where
  abbrev down : Mongo
  down = faulty db fault

  abbrev pub Sound : db.State → Type 0
  Sound = AllGood c db server laws free

  -- A call that leaves valid collections, whatever its value.
  abbrev pub Safe : {E A : Type 0} → Action E (db.State × ℕ) A → Type 0
  Safe call = Keeps Sound (Any Sound) call

  pub Keeps-open :
      {A : Type 0} (id : ContractId) (rest : MongoCollection db.Session → Reply c down serialize A)
      → ((n m : String) → Safe (rest (plain c down n m)))
      → Safe (open_collection c down serialize host id >>= rest)
  unfolding open_collection new_collection
  Keeps-open id rest safe = record {
    at = λ s calls i.
        rw plain_host
          ((safe (get_merkle_collection_name c id) (get_data_collection_name c id)).at s calls i);
  }

  module _ (n m : String) where
    abbrev col : MongoCollection db.Session
    col = plain c down n m

    Reads-find_datahash :
        (h : Hash) (s : db.State)
        → Sound s
        → Reads Sound
            (driver c down (down.find_one_datahash none m (by_hash h)))
            (driver c db (db.find_one_datahash none m (by_hash h)))
            s
    Reads-find_datahash h s all =
        let (found, e, _) = server.find_datahash m h s in
        Reads-map_error Sound mongodb (record {
          result = ok found;
          returns = e;
          runs =
              Runs-disturb Sound fault (db.find_one_datahash none m (by_hash h)) (ok found) s s e
                all all;
        })

    Safe-find_datahash :
        (h : Hash) → Safe (driver c down (down.find_one_datahash none m (by_hash h)))
    Safe-find_datahash h = Keeps-Reads Sound (λ s all. Reads-find_datahash h s all) λ a s all e. tt

    Safe-insert_one :
        (r : DataHashRecord) → Safe (driver c down (down.insert_one_datahash none m r))
    Safe-insert_one r = Keeps-map_error Sound mongodb (record {
      at = λ s calls all.
          let (s', e, _, same) = server.insert_datahash m r s in
          let all' = AllGood-data c db server laws free s s' same all in
          Left-Runs Sound (Any Sound) calls
            (Runs-disturb Sound fault (db.insert_one_datahash none m r) (ok tt) s s' e all all')
            all' (λ a _. tt);
    })

    pub Safe-insert_datahash : (r : DataHashRecord) → Safe (insert_datahash_record c down col r)
    unfolding insert_datahash_record
    Safe-insert_datahash r =
        Keeps-bind Sound (driver c down (down.find_one_datahash none m (by_hash r.hash))) _
          (Safe-find_datahash r.hash)
          λ found.
            Keeps-Option Sound found
              (Keeps-bind Sound (driver c down (down.insert_one_datahash none m r)) _
                (Safe-insert_one r) λ _. Keeps-pure Sound (ok r))
              λ old. Keeps-pure Sound (ok old)

    pub Safe-get_datahash : (h : Hash) → Safe (get_datahash_record c down col h)
    unfolding get_datahash_record
    Safe-get_datahash h =
        Keeps-if Sound (hash_eq h (empty_hash c)) (Keeps-pure Sound (ok (some empty_datahash)))
          (Safe-find_datahash h)

    pub Safe-must_get_root : Safe (must_get_root_merkle_record c down col)
    Safe-must_get_root =
        Keeps-Reads Sound (λ s all. Reads-must_get_root c db server n m fault Sound s all)
          λ a s all e. tt

    pub Safe-must_get : (i : ℕ) (h : Hash) → Safe (must_get_merkle_record c down col i h)
    Safe-must_get i h =
        Keeps-Reads Sound (λ s all. Reads-must_get c db server n m fault Sound s all i h)
          λ a s all e. tt

    pub Safe-get_leaf_and_proof : (i : ℕ) → Safe (get_leaf_and_proof c down col i)
    Safe-get_leaf_and_proof i =
        Keeps-Reads Sound (λ s all. Reads-get_leaf_and_proof c db server n m fault Sound s all i)
          λ a s all e. tt

    -- A record that is fetched at index 0 can be made the current root.
    abbrev pub CanBeRoot : MerkleRecord → db.State → Type 0
    CanBeRoot r s = Canonical c r × (r.index ≡ 0) × Kept c db server n m s r

    pub Keeps-must_get_top :
        (h : Hash) → Keeps Sound CanBeRoot (must_get_merkle_record c down col 0 h)
    Keeps-must_get_top h =
        Keeps-Reads Sound (λ s all. Reads-must_get c db server n m fault Sound s all 0 h)
          λ a s all e. elim (fetch-IsSource c db server n m 0 h a s e) [
            | inl (inside, ei, eh) ↦ (
              (all n m).canonical a inside,
              ei,
              elim (IsIn-with_current (server.current n s) (server.documents n s) a inside) [
                | inl at_root ↦ ((all n m).backed a at_root).1
                | inr document ↦ inl document
              ],
            )
            | inr (none_there, ed, eh) ↦
                let (canonical, ei) = get_default_record-Canonical c laws 0 a (omega arith) ed in
                (canonical, ei, inr ed)
          ]
