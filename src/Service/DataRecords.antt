-- ===== src/Service/DataRecords.antt =====
-- The data behind the leaves' hashes: `insert_datahash_record`, `must_get_datahash_record` and the
-- handler `data_hash_record`.
use zkc_state.Prelude.{
  ◌≡◌, ◌≢◌, inl, inr, refl, ap, sym, ◌∙◌, List, ◌∷◌, false, Option, some, none, String, Bool-cases,
}
use zkc_state.Outcome.{ok}
use zkc_state.Hash.{Hash, Bytes, hash_eq, hash_eq→eq}
use zkc_state.Crypto.{Crypto}
use zkc_state.Merkle.Node.{MerkleProof}
use zkc_state.Kvpair.Hash.{ContractId, hash_of_slice, empty_hash}
use zkc_state.Kvpair.Record.{DataHashRecord}
use zkc_state.Service.Mongo.{Mongo, by_hash}
use zkc_state.Service.Collection.{
  insert_datahash_record, get_datahash_record, must_get_datahash_record, get_merkle_collection_name,
  get_data_collection_name,
}
use zkc_state.Service.Request.{
  Request, DataHashRecordRequest, MongoKvPair, get_contract_id, mode_store, mode_fetch,
}
use zkc_state.Service.Queries.{data_hash_record, record_for, fetch_record, store_record}
use zkc_state.Service.Laws.{IsIn, MongoLaws, AnswersHash}
use zkc_state.Service.Fetch.{plain}
use zkc_state.Service.Replies.{open_collection_lem}

-- At most one record for a hash.
abbrev pub OneEach : List DataHashRecord → Type 0
OneEach rs = (x y : DataHashRecord) → IsIn x rs → IsIn y rs → x.hash ≡ y.hash → x ≡ y

-- The record that stays when one is stored: the older one, if there is one.
abbrev pub first_write : Option DataHashRecord → DataHashRecord → DataHashRecord
first_write none r = r
first_write (some old) r = old

module _ (c : Crypto) (db : Mongo) (server : MongoLaws db) where
  answer_unique :
      (h : Hash) (rs : List DataHashRecord) (a b : Option DataHashRecord)
      → OneEach rs
      → AnswersHash h rs a
      → AnswersHash h rs b
      → a ≡ b
  answer_unique h rs none none one p q = refl
  answer_unique h rs none (some y) one p (inside, e) = absurd (p y inside e)
  answer_unique h rs (some x) none one (inside, e) q = absurd (q x inside e)
  answer_unique h rs (some x) (some y) one (ix, ex) (iy, ey) = ap some (one x y ix iy (ex ∙ sym ey))

  -- The server finds the one answer.
  pub find_datahash_unique :
      (m : String) (h : Hash) (a : Option DataHashRecord) (s : db.State)
      → OneEach (server.records m s)
      → AnswersHash h (server.records m s) a
      → db.find_one_datahash none m (by_hash h) s ≡ (ok a, s)
  find_datahash_unique m h a s one answer =
      let (found, e, answer') = server.find_datahash m h s in
      e ∙ ap (λ o. (ok o, s)) (answer_unique h (server.records m s) found a one answer' answer)

  OneEach-insert :
      (r : DataHashRecord) (rs : List DataHashRecord)
      → OneEach rs
      → AnswersHash r.hash rs none
      → OneEach (r ∷ rs)
  OneEach-insert r rs one fresh x y (inl ex) (inl ey) e = ex ∙ sym ey
  OneEach-insert r rs one fresh x y (inl ex) (inr iy) e =
      absurd (fresh y iy (sym e ∙ ap (λ (z : DataHashRecord). z.hash) ex))
  OneEach-insert r rs one fresh x y (inr ix) (inl ey) e =
      absurd (fresh x ix (e ∙ ap (λ (z : DataHashRecord). z.hash) ey))
  OneEach-insert r rs one fresh x y (inr ix) (inr iy) e = one x y ix iy e

  -- What storing a record leaves.
  pub record DataStored (n m : String) (s : db.State) (r : DataHashRecord)
      (old : Option DataHashRecord) : Type 0 where
    pub after : db.State
    pub returns : insert_datahash_record c db (plain c db n m) r s ≡ (ok (first_write old r), after)
    pub one_each : OneEach (server.records m after)
    pub answer : AnswersHash r.hash (server.records m after) (some (first_write old r))
    pub same_trees :
        (k : String)
        → (server.documents k after ≡ server.documents k s)
          × (server.current k after ≡ server.current k s)

  pub insert_datahash_record_lem :
      (n m : String) (r : DataHashRecord) (old : Option DataHashRecord) (s : db.State)
      → OneEach (server.records m s)
      → AnswersHash r.hash (server.records m s) old
      → DataStored n m s r old
  unfolding insert_datahash_record
  insert_datahash_record_lem n m r none s one answer =
      let found = find_datahash_unique m r.hash none s one answer in
      let (s', ei, er, same) = server.insert_datahash m r s in
      record {
        after = s';
        returns = rw found (rw ei refl);
        one_each = rw er (OneEach-insert r (server.records m s) one answer);
        answer = rw er (inl refl, refl);
        same_trees = same;
      }
  insert_datahash_record_lem n m r (some old) s one answer =
      let found = find_datahash_unique m r.hash (some old) s one answer in
      record {
        after = s;
        returns = rw found refl;
        one_each = one;
        answer = answer;
        same_trees = λ k. (refl, refl);
      }

  not_empty : (h : Hash) → h ≢ empty_hash c → hash_eq h (empty_hash c) ≡ false
  not_empty h differs = elim (Bool-cases (hash_eq h (empty_hash c))) [
    | inl same ↦ absurd (differs (hash_eq→eq h (empty_hash c) same))
    | inr other ↦ other
  ]

  -- A hash other than the empty one is looked up.
  pub get_datahash_record_lem :
      (n m : String) (h : Hash) (a : Option DataHashRecord) (s : db.State)
      → h ≢ empty_hash c
      → OneEach (server.records m s)
      → AnswersHash h (server.records m s) a
      → get_datahash_record c db (plain c db n m) h s ≡ (ok a, s)
  unfolding get_datahash_record
  get_datahash_record_lem n m h a s differs one answer =
      rw (not_empty h differs) (rw (find_datahash_unique m h a s one answer) refl)

  must_get_datahash_record_lem :
      (n m : String) (h : Hash) (r : DataHashRecord) (s : db.State)
      → h ≢ empty_hash c
      → OneEach (server.records m s)
      → AnswersHash h (server.records m s) (some r)
      → must_get_datahash_record c db (plain c db n m) h s ≡ (ok r, s)
  unfolding must_get_datahash_record
  must_get_datahash_record_lem n m h r s differs one answer =
      rw (get_datahash_record_lem n m h (some r) s differs one answer) refl

  module _ (serialize : MerkleProof Hash → Option Bytes) (host : MongoKvPair)
      (id : ContractId) where
    abbrev n : String
    n = get_merkle_collection_name c id

    abbrev m : String
    m = get_data_collection_name c id

    -- With a server that keeps its laws, where no indexes are to be created and the requests'
    -- contract is `id`, for a hash other than 32 zeros and at most one record for a hash: the
    -- handler `data_hash_record` in store mode replies with the request's hash and data, and then
    -- in fetch mode with the hash and the data of the older record, if there was one, else the
    -- request's. There is still at most one record for a hash.
    pub store_fetch :
        (store fetch : Request DataHashRecordRequest) (hash bytes : Bytes) (h : Hash)
        (old : Option DataHashRecord) (s : db.State)
        → host.with_indexes ≡ false
        → get_contract_id c {M = db.MongoError} host store store.inner.contract_id ≡ ok id
        → get_contract_id c {M = db.MongoError} host fetch fetch.inner.contract_id ≡ ok id
        → store.inner.mode ≡ some mode_store
        → fetch.inner.mode ≡ some mode_fetch
        → store.inner.hash ≡ some hash
        → fetch.inner.hash ≡ some hash
        → store.inner.bytes ≡ some bytes
        → hash_of_slice {M = db.MongoError} hash ≡ ok h
        → h ≢ empty_hash c
        → OneEach (server.records m s)
        → AnswersHash h (server.records m s) old
        → (s' : db.State) × (data_hash_record c db serialize host store s
            ≡ (ok (record { hash = h.bytes; bytes = bytes }), s'))
          × (data_hash_record c db serialize host fetch s' ≡ (
            ok (record {
              hash = h.bytes;
              bytes = (first_write old (record { hash = h; bytes = bytes })).bytes;
            }),
            s',
          ))
          × OneEach (server.records m s')
    unfolding data_hash_record record_for fetch_record store_record
    store_fetch store fetch hash bytes h old s plain_host es ef ms mf hs hf bs eh differs one
          answer =
        let r : DataHashRecord = record { hash = h; bytes = bytes } in
        let kept = insert_datahash_record_lem n m r old s one answer in
        let read =
          must_get_datahash_record_lem n m h (first_write old r) kept.after differs kept.one_each
            kept.answer in
        (
          kept.after,
          rw es (
              rw (open_collection_lem c db server serialize host id s plain_host)
                (rw (ms, bs, hs) (rw eh (rw kept.returns refl)))),
          rw ef (
              rw (open_collection_lem c db server serialize host id kept.after plain_host)
                (rw (mf, hf) (rw eh (rw read (rw (kept.answer.1) refl))))),
          kept.one_each,
        )
