-- ===== src/Service/Faults/LeafSteps.antt =====
-- The steps of the handler `set_leaf` against a server that can fail.
use zkc_state.Prelude.{
  ℕ, ◌^◌, ◌<◌, ◌≡◌, ◌⊎◌, ap, refl, inl, inr, false, Option, none, some, String, ◌==◌, Bool-cases,
}
use zkc_state.Outcome.{ok, map_err}
use zkc_state.Action.{pure}
use zkc_state.Hash.{Bytes, Hash}
use zkc_state.Crypto.{Crypto, CryptoLaws, CollisionFree}
use zkc_state.Errors.{mongodb, status_of}
use zkc_state.Merkle.Bounds.{node_at}
use zkc_state.Merkle.Node.{MerkleProof}
use zkc_state.Merkle.Spec.{Tree}
use zkc_state.Poseidon
use zkc_state.Kvpair.Hash.{ContractId, hash_of_slice}
use zkc_state.Kvpair.Node.{Node, new_simple_leaf}
use zkc_state.Kvpair.Record.{DataHashRecord, new_leaf}
use zkc_state.Service.Mongo.{Mongo, by_hash}
use zkc_state.Service.Collection.{
  driver, insert_datahash_record, get_merkle_collection_name, get_data_collection_name,
}
use zkc_state.Service.Request.{Request, SetLeafRequest, Proof, MongoKvPair, proof_v0}
use zkc_state.Service.Handlers.{
  checked, open_collection, leaf_to_set, leaf_hash, proof_message, finish,
}
use zkc_state.Service.Session.{new_collection, commit}
use zkc_state.Service.Laws.{MongoLaws}
use zkc_state.Service.Fetch.{plain}
use zkc_state.Service.Leaf.{Holds}
use zkc_state.Service.Isolation.{Holds-Agree}
use zkc_state.Service.LeafData.{leaf_message, node_of_records-leaf}
use zkc_state.Service.Faults.{Fault, faulty}
use zkc_state.Service.Faults.Runs.{
  Runs, Runs-disturb, Runs-lift, Runs-map_error, Runs-bind, Runs-value, Runs-pure, >>=-eq-ok,
}
use zkc_state.Service.Faults.Atomic.{Either}

module _ (c : Crypto) (db : Mongo) (server : MongoLaws db)
    (serialize : MerkleProof Hash → Option Bytes) (laws : CryptoLaws c) (free : CollisionFree c)
    (host : MongoKvPair) (id : ContractId) (fault : ℕ → Fault db.MongoError) where
  abbrev n : String
  n = get_merkle_collection_name c id

  abbrev m : String
  m = get_data_collection_name c id

  abbrev down : Mongo
  down = faulty db fault

  abbrev pub HoldsFor : db.State → Tree Hash → Type 0
  HoldsFor = Holds c db server n m

  abbrev pub EitherFor : Tree Hash → Tree Hash → db.State → Type 0
  EitherFor = Either c db server laws free n m fault

  pub Runs-open :
      (J : db.State → Type 0) (s : db.State)
      → host.with_indexes ≡ false
      → Runs J (open_collection c down serialize host id) s (ok (plain c down n m)) s
  unfolding open_collection new_collection
  Runs-open J s e = record { ends = λ calls. inl (calls, rw e refl) }

  pub Runs-finish :
      (J : db.State → Type 0) (s : db.State)
      → Runs J (finish c down serialize (plain c down n m)) s (ok tt) s
  unfolding finish commit
  Runs-finish J s = record { ends = λ calls. inl (calls, refl) }

  pub Runs-proof_message :
      (J : db.State → Type 0) (kind : ℕ) (p : MerkleProof Hash) (s : db.State)
      → ((p : MerkleProof Hash) → (b : Bytes) × (serialize p ≡ some b))
      → (answer : Option Proof) × Runs J (proof_message c down serialize kind p) s (ok answer) s
  unfolding proof_message
  Runs-proof_message J kind p s total = elim (Bool-cases (kind == proof_v0)) [
    | inl wanted ↦
        let (b, e) = total p in
        (
          some (record { proof_type = kind; proof = b }),
          record { ends = λ calls. inl (calls, rw (wanted, e) refl) },
        )
    | inr other ↦ (none, record { ends = λ calls. inl (calls, rw other refl) })
  ]

  found-Runs :
      (J : db.State → Type 0) (r : DataHashRecord) (s : db.State) (found : Option DataHashRecord)
      → J s
      → db.find_one_datahash none m (by_hash r.hash) s ≡ (ok found, s)
      → Runs J (driver c down (down.find_one_datahash none m (by_hash r.hash))) s (ok found) s
  found-Runs J r s found j ef =
      Runs-map_error J mongodb _ (ok found) s s
        (Runs-disturb J fault (db.find_one_datahash none m (by_hash r.hash)) (ok found) s s ef j j)

  data_found :
      (t u : Tree Hash) (r : DataHashRecord) (s : db.State) (found : Option DataHashRecord)
      → HoldsFor s t
      → db.find_one_datahash none m (by_hash r.hash) s ≡ (ok found, s)
      → (s' : db.State) × (kept : DataHashRecord) × Runs
          (EitherFor t u)
          (insert_datahash_record c down (plain c down n m) r)
          s
          (ok kept)
          s'
        × HoldsFor s' t
  unfolding insert_datahash_record
  data_found t u r s none held ef =
      let J = EitherFor t u in
      let (s', ei, _, same) = server.insert_datahash m r s in
      let held' = Holds-Agree c db server laws free n m t s s' (same n) held in
      (
        s',
        r,
        Runs-bind J _ _ none (ok r) s s s' (found-Runs J r s none (inl held) ef) (
            Runs-bind J _ (λ _. pure r) tt (ok r) s s' s'
              (Runs-map_error J mongodb _ (ok tt) s s' (
                Runs-disturb J fault (db.insert_one_datahash none m r) (ok tt) s s' ei (inl held)
                  (inl held')))
              (Runs-lift J (ok r) s')),
        held',
      )
  data_found t u r s (some old) held ef =
      let J = EitherFor t u in
      (
        s,
        old,
        Runs-bind J _ _ (some old) (ok old) s s s (found-Runs J r s (some old) (inl held) ef)
            (Runs-lift J (ok old) s),
        held,
      )

  Runs-leaf_hash :
      (J : db.State → Type 0) (hash : Option Bytes) (bytes : Bytes) (h : Hash) (s : db.State)
      → leaf_hash c db serialize hash bytes s ≡ (ok h, s)
      → Runs J (leaf_hash c down serialize hash bytes) s (ok h) s
  unfolding leaf_hash
  Runs-leaf_hash J (some b) bytes h s e = record {
    ends = λ calls. inl (calls, ap (λ x. (x.0, (s, calls))) e);
  }
  Runs-leaf_hash J none bytes h s e =
      let (a, s', first, last) = >>=-eq-ok (checked c db serialize (Poseidon.hash c bytes)) _ s e in
      Runs-value J _ (ap (λ x. x.0) first) (Runs-pure J _ h s s (ap (λ x. (x.0, s)) last))

  -- Of a request with data: they are stored, and the trees are the same.
  Runs-leaf_data :
      (t u : Tree Hash) (k : ℕ) (h : Hash) (bytes : Bytes) (hash : Option Bytes) (s : db.State)
      → k < 2 ^ 32
      → leaf_hash c db serialize hash bytes s ≡ (ok h, s)
      → HoldsFor s t
      → (s' : db.State) × Runs
          (EitherFor t u)
          (leaf_to_set c down serialize (plain c down n m) (node_at 32 k) (some bytes) hash)
          s
          (ok (new_leaf (node_at 32 k) h, leaf_message (node_at 32 k) h bytes))
          s'
        × HoldsFor s' t
  unfolding leaf_to_set
  Runs-leaf_data t u k h bytes hash s inside eh held =
      let J = EitherFor t u in
      let r : DataHashRecord = record { hash = h; bytes = bytes } in
      let (found, ef, _) = server.find_datahash m h s in
      let (s', kept, stored, held') = data_found t u r s found held ef in
      (
        s',
        Runs-bind J (leaf_hash c down serialize hash bytes) _ h _ s s s'
            (Runs-leaf_hash J hash bytes h s eh)
            (Runs-bind J _ _ kept _ s s' s'
              (Runs-map_error J status_of (insert_datahash_record c down (plain c down n m) r)
                (ok kept) s s' stored)
              (Runs-value J _
                (ap (map_err status_of) (
                  node_of_records-leaf {M = db.MongoError} k h (new_leaf (node_at 32 k) h) r inside
                    refl refl refl))
                (Runs-lift J (ok (new_leaf (node_at 32 k) h, leaf_message (node_at 32 k) h bytes))
                  s'))),
        held',
      )

  Runs-leaf_hash_only :
      (J : db.State → Type 0) (i : ℕ) (h : Hash) (bytes : Bytes) (s : db.State)
      → hash_of_slice {M = db.MongoError} bytes ≡ ok h
      → Runs J
          (leaf_to_set c down serialize (plain c down n m) i none (some bytes))
          s
          (ok (new_leaf i h, new_simple_leaf i h))
          s
  unfolding leaf_to_set
  Runs-leaf_hash_only J i h bytes s e = record { ends = λ calls. inl (calls, rw e refl) }

  -- What a request sets the leaf `k` to, and the node that it is answered with: a hash without data,
  -- or data with the hash that the request gives for them, or else with their Poseidon hash.
  abbrev pub Sets : Request SetLeafRequest → db.State → ℕ → Hash → Node → Type 0
  Sets request s k h node =
      ((bytes : Bytes) × (request.inner.bytes ≡ none)
        × (request.inner.hash ≡ some bytes)
        × (hash_of_slice {M = db.MongoError} bytes ≡ ok h)
        × (node ≡ new_simple_leaf (node_at 32 k) h))
      ⊎ ((bytes : Bytes) × (request.inner.bytes ≡ some bytes)
          × (leaf_hash c db serialize request.inner.hash bytes s ≡ (ok h, s))
          × (node ≡ leaf_message (node_at 32 k) h bytes))

  abbrev LeafRuns :
      (db.State → Type 0) → Request SetLeafRequest → ℕ → Hash → Node → db.State → db.State → Type 0
  LeafRuns J request k h node s s' =
      Runs J
        (leaf_to_set c down serialize (plain c down n m) (node_at 32 k) request.inner.bytes
          request.inner.hash)
        s (ok (new_leaf (node_at 32 k) h, node)) s'

  pub Runs-leaf_to_set :
      (t u : Tree Hash) (k : ℕ) (h : Hash) (node : Node) (request : Request SetLeafRequest)
      (s : db.State)
      → k < 2 ^ 32
      → Sets request s k h node
      → HoldsFor s t
      → (s' : db.State) × LeafRuns (EitherFor t u) request k h node s s' × HoldsFor s' t
  Runs-leaf_to_set t u k h node request s inside (inl (bytes, ed, eb, eh, en)) held =
      (s, rw (ed, eb, en) (Runs-leaf_hash_only (EitherFor t u) (node_at 32 k) h bytes s eh), held)
  Runs-leaf_to_set t u k h node request s inside (inr (bytes, ed, eh, en)) held =
      let (s', runs, held') = Runs-leaf_data t u k h bytes request.inner.hash s inside eh held in
      (s', rw (ed, en) runs, held')
