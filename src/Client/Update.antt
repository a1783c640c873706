-- ===== src/Client/Update.antt =====
-- A leaf that the client sets with its proof: `set_leaf_with_proof` of `MongoMerkle`.
use mathlib.Core.List.{append-nil}
use zkc_state.Prelude.{
  ℕ, ◌^◌, ◌<◌, ◌≡◌, ◌≢◌, refl, ap, sym, ◌∙◌, false, [], Option, some, String, arith,
}
use zkc_state.Outcome.{ok}
use zkc_state.Hash.{Hash, Bytes, zeros32}
use zkc_state.Crypto.{Crypto, CryptoLaws, CollisionFree}
use zkc_state.Poseidon
use zkc_state.Merkle.Bounds.{node_at, get_offset-node_at}
use zkc_state.Merkle.Index.{get_offset}
use zkc_state.Merkle.Climb.{Extends, Held_mono}
use zkc_state.Merkle.Node.{MerkleProof}
use zkc_state.Merkle.Prune.{Ends}
use zkc_state.Merkle.Rebuild.{rebuild-replace, root-replace}
use zkc_state.Merkle.Spec.{Tree, leaf, turns, root, siblings, subtree, replace, rebuild}
use zkc_state.Merkle.Tree.{get_leaf_with_proof, set_leaf_with_proof}
use zkc_state.Kvpair.Hash.{ContractId}
use zkc_state.Kvpair.Combine.{IsField, combine, combine-injective}
use zkc_state.Kvpair.Record.{MerkleRecord, DataHashRecord, record_node}
use zkc_state.Merkle.Error.{MerkleError}
use zkc_state.Service.Mongo.{Mongo}
use zkc_state.Service.Collection.{get_merkle_collection_name, get_data_collection_name}
use zkc_state.Service.Request.{MongoKvPair}
use zkc_state.Service.Laws.{MongoLaws, AnswersHash}
use zkc_state.Service.Fetch.{fetch}
use zkc_state.Service.Insert.{Good}
use zkc_state.Service.Isolation.{root_agree}
use zkc_state.Service.Leaf.{Holds, proof_of}
use zkc_state.Service.DataRecords.{OneEach}
use zkc_state.Client.Calls.{KvPairClient, MongoMerkle}
use zkc_state.Client.Tree.{mongo_merkle}
use zkc_state.Client.Delivery.{Delivers}
use zkc_state.Client.Inner.{Sized, Serves}
use zkc_state.Client.SetLeaf.{set_leaf_of_lem}
use zkc_state.Client.Walk.{Visible, get_leaf_with_proof_over}
use zkc_state.Client.Climb.{closed, climb_over}

module _ (c : Crypto) (laws : CryptoLaws c) (free : CollisionFree c) (db : Mongo)
    (server : MongoLaws db) (serialize : MerkleProof Hash → Option Bytes) (host : MongoKvPair)
    (id : ContractId) (plain_host : host.with_indexes ≡ false) (sized : Sized c)
    (api : KvPairClient db.MongoError db.State) (delivers : Delivers c db serialize host api) where
  abbrev n : String
  n = get_merkle_collection_name c id

  abbrev m : String
  m = get_data_collection_name c id

  -- A state with what was there and with the same current root holds the tree that it held.
  Holds-kept :
      (t : Tree Hash) (s s' : db.State)
      → Good c db server n m s'
      → Extends (combine c) (record_node c) (fetch c db server n m) s s'
      → server.current n s' ≡ server.current n s
      → Holds c db server n m s t
      → Holds c db server n m s' t
  Holds-kept t s s' valid extends same held =
      let (a, er, ef, eh) = held.current in
      record {
        valid = valid;
        fields = held.fields;
        tree =
            Held_mono (combine c) (record_node c) (fetch c db server n m) t 0 0 extends held.tree;
        current = (
          a,
          root_agree c db server laws free n m s s' same a er,
          extends 0 (root (combine c) t) a ef,
          eh,
        );
      }

  -- With a server that keeps its laws, a field whose elements are written as 32 bytes and a Merkle
  -- hash without collisions, over a connection whose calls run the handlers, where no indexes are
  -- to be created and the service takes the contract `id` for the requests, and where proofs can
  -- be serialized, for a client whose root is that of the tree that the service holds, with at
  -- most one record of data for a hash, where the Poseidon hash of 32 zeros is a field element:
  -- where the hashes of the leaf `k` of the 2 ^ 32 and of the one beside it are field elements,
  -- not the default leaf's and not 32 zeros, `set_leaf_with_proof` of the client with a record of
  -- that leaf's index, whose hash is a field element, succeeds. The proof, and then the client,
  -- have the root of the tree with the record's hash at the leaf, and the proof has the hashes of
  -- the siblings from the top. The state that is left holds the tree with the Poseidon hash of 32
  -- zeros at the leaf, and unless that is the record's hash, the client's root is not the one of
  -- this tree.
  pub set_leaf_with_proof_over :
      (k : ℕ) (t : Tree Hash) (old zeros : Hash) (found : Option DataHashRecord) (r : MerkleRecord)
      (merkle : MongoMerkle db.State)
      → Serves c db.MongoError host merkle.contract_id id
      → ((p : MerkleProof Hash) → (b : Bytes) × (serialize p ≡ some b))
      → k < 2 ^ 32
      → r.index ≡ node_at 32 k
      → IsField c r.hash
      → subtree (turns 32 k) t ≡ some (leaf old)
      → Visible c laws old
      → Ends (Visible c laws) (siblings (combine c) (turns 32 k) t)
      → merkle.root_hash ≡ root (combine c) t
      → Poseidon.hash c {M = db.MongoError} zeros32 ≡ ok zeros.bytes
      → IsField c zeros
      → OneEach (server.records m merkle.client)
      → AnswersHash zeros (server.records m merkle.client) found
      → Holds c db server n m merkle.client t
      → (s' : db.State) × (top : Hash) × (top
          ≡ root (combine c) (replace (turns 32 k) t (leaf r.hash)))
        × (set_leaf_with_proof (mongo_merkle c api) 32 r merkle ≡ (
          ok (record {
            source = r.hash;
            root = top;
            assist = siblings (combine c) (turns 32 k) t;
            index = node_at 32 k;
          }),
          record merkle { client = s'; root_hash = top },
        ))
        × Holds c db server n m s' (replace (turns 32 k) t (leaf zeros))
        × (r.hash ≢ zeros → top ≢ root (combine c) (replace (turns 32 k) t (leaf zeros)))
  unfolding set_leaf_with_proof
  set_leaf_with_proof_over k t old zeros found r merkle serves total inside ei field el visible
        beside at_root ez zero_field one stored held =
      let bs = turns 32 k in
      let xs = siblings (combine c) bs t in
      let top = rebuild (combine c) bs xs r.hash in
      let (a, got, _) =
        get_leaf_with_proof_over c laws free db server serialize host id plain_host sized api
          delivers k t old merkle serves inside el visible beside at_root one held in
      let got' : get_leaf_with_proof (mongo_merkle c api) 32 r.index merkle
          ≡ (ok (a, proof_of c db server n m t old k), merkle) =
        ap (λ i. get_leaf_with_proof (mongo_merkle c api) 32 i merkle) ei ∙ got in
      let offset : get_offset {E = MerkleError} r.index ≡ ok k =
        ap (λ i. get_offset {E = MerkleError} i) ei
        ∙ get_offset-node_at 32 k (omega arith) inside in
      let (s, set, holds) =
        set_leaf_of_lem c laws free db server serialize host id plain_host api delivers k t old
          zeros found r merkle serves total ei ez inside el zero_field one stored held in
      let up =
        climb_over c laws free db server serialize host id plain_host sized api delivers 32 k t
          (leaf old) r.hash [] xs (record merkle { client = s }) serves (omega arith) inside el
          (sym (append-nil xs)) held.fields field holds.valid in
      let same_top = rebuild-replace (combine c) bs t (leaf old) r.hash el in
      (
        up.after,
        top,
        same_top,
        rw got' (rw offset (rw set (rw up.returns refl))),
        Holds-kept (replace bs t (leaf zeros)) s up.after up.valid up.extends up.same_root holds,
        λ differs e. differs (
            root-replace (combine c) (IsField c)
              (closed c laws free db server serialize host id plain_host sized api delivers)
              (combine-injective c laws free) bs t (leaf old) r.hash zeros el held.fields field
              zero_field (sym same_top ∙ e)),
      )
