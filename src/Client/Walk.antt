-- ===== src/Client/Walk.antt =====
-- A proof that the client assembles by walks over the service: `get_leaf_with_proof` of `MongoMerkle`.
use mathlib.Core.Path.{subst}
use zkc_state.Prelude.{
  ℕ, ◌+◌, ◌^◌, ◌<◌, ◌≤◌, ◌≡◌, ◌≢◌, ap, sym, ◌∙◌, false, Option, some, String, arith, length,
}
use native.Mathlib.Decide.{dec_lt}
use zkc_state.Outcome.{ok}
use zkc_state.Hash.{Hash, Bytes}
use zkc_state.Crypto.{Crypto, CryptoLaws, CollisionFree}
use zkc_state.Merkle.Bounds.{node_at}
use zkc_state.Merkle.Node.{MerkleProof}
use zkc_state.Merkle.Proof.{get_leaf_with_proof_lem}
use zkc_state.Merkle.Prune.{Ends, prune, root-prune, subtree-prune, siblings-prune, Stored-prune}
use zkc_state.Merkle.Spec.{Tree, leaf, turns, root, siblings, subtree, length-turns}
use zkc_state.Merkle.Tree.{get_leaf_with_proof}
use zkc_state.Kvpair.Hash.{ContractId, empty_hash}
use zkc_state.Kvpair.Combine.{IsField, combine}
use zkc_state.Kvpair.Defaults.{default_at}
use zkc_state.Kvpair.Record.{MerkleRecord, record_node}
use zkc_state.Service.Mongo.{Mongo}
use zkc_state.Service.Collection.{get_merkle_collection_name, get_data_collection_name}
use zkc_state.Service.Request.{MongoKvPair}
use zkc_state.Service.Laws.{MongoLaws}
use zkc_state.Service.Fetch.{fetch}
use zkc_state.Service.Insert.{Good}
use zkc_state.Service.Leaf.{Holds, proof_of}
use zkc_state.Service.DataRecords.{OneEach}
use zkc_state.Client.Calls.{KvPairClient, MongoMerkle}
use zkc_state.Client.Tree.{get_node_with_hash, mongo_merkle}
use zkc_state.Client.Delivery.{Delivers}
use zkc_state.Client.Inner.{Sized, Serves, get_node_with_hash_inner}
use zkc_state.Client.Leaf.{get_node_with_hash_leaf}

-- A hash of a leaf that the service shows as it is.
abbrev pub Visible : (c : Crypto) → CryptoLaws c → Hash → Type 0
Visible c laws h = IsField c h × (h ≢ default_at c laws 0) × (h ≢ empty_hash c)

module _ (c : Crypto) (laws : CryptoLaws c) (free : CollisionFree c) (db : Mongo)
    (server : MongoLaws db) (serialize : MerkleProof Hash → Option Bytes) (host : MongoKvPair)
    (id : ContractId) (plain_host : host.with_indexes ≡ false) (sized : Sized c)
    (api : KvPairClient db.MongoError db.State) (delivers : Delivers c db serialize host api) where
  abbrev n : String
  n = get_merkle_collection_name c id

  abbrev m : String
  m = get_data_collection_name c id

  -- What the service fetches the client fetches, at the bottom a hash that is shown as it is.
  fetched_over :
      (merkle : MongoMerkle db.State)
      → Serves c db.MongoError host merkle.contract_id id
      → OneEach (server.records m merkle.client)
      → Good c db server n m merkle.client
      → (d q : ℕ) (h : Hash) (a : MerkleRecord) → d ≤ 32
      → q < 2 ^ d
      → (d ≡ 32 → Visible c laws h)
      → fetch c db server n m (node_at d q) h merkle.client ≡ (ok a, merkle.client)
      → get_node_with_hash c api (node_at d q) h merkle ≡ (ok a, merkle)
  fetched_over merkle serves one good d q h a level inside visible fetched = elim (dec_lt d 32) [
    | yes above ↦
        get_node_with_hash_inner c laws free db server serialize host id plain_host sized api
          delivers d q h a merkle serves above inside good fetched
    | no bottom ↦
        let last : 32 ≡ d = omega arith in
        let (field, no_default, no_empty) = visible (sym last) in
        let (found, _, answer) = server.find_datahash m h merkle.client in
        let small : q < 2 ^ 32 = subst (λ e. q < 2 ^ e) (sym last) inside in
        let there =
          subst (λ e. fetch c db server n m (node_at e q) h merkle.client ≡ (ok a, merkle.client))
            (sym last) fetched in
        subst (λ e. get_node_with_hash c api (node_at e q) h merkle ≡ (ok a, merkle)) last
          (get_node_with_hash_leaf c laws free db server serialize host id plain_host sized api
            delivers q h a found merkle serves small field no_default no_empty one answer good
            there)
  ]

  -- With a server that keeps its laws, a field whose elements are written as 32 bytes and a Merkle
  -- hash without collisions, over a connection whose calls run the handlers, where no indexes are
  -- to be created and the service takes the contract `id` for the requests, for a client whose
  -- root is that of the tree that the service holds, with at most one record of data for a hash:
  -- where the hashes of a leaf and of the one beside it are field elements, not the default leaf's
  -- and not 32 zeros, `get_leaf_with_proof` of the client returns a record with the leaf's hash,
  -- and the proof with the root and the siblings' hashes from the top that the service itself
  -- would give, and changes nothing.
  pub get_leaf_with_proof_over :
      (k : ℕ) (t : Tree Hash) (h : Hash) (merkle : MongoMerkle db.State)
      → Serves c db.MongoError host merkle.contract_id id
      → k < 2 ^ 32
      → subtree (turns 32 k) t ≡ some (leaf h)
      → Visible c laws h
      → Ends (Visible c laws) (siblings (combine c) (turns 32 k) t)
      → merkle.root_hash ≡ root (combine c) t
      → OneEach (server.records m merkle.client)
      → Holds c db server n m merkle.client t
      → (a : MerkleRecord) × (get_leaf_with_proof (mongo_merkle c api) 32 (node_at 32 k) merkle
          ≡ (ok (a, proof_of c db server n m t h k), merkle))
        × (a.hash ≡ h)
  get_leaf_with_proof_over k t h merkle serves inside el visible beside at_root one held =
      let bs = turns 32 k in
      let cut = prune (combine c) bs t in
      let convert = fetched_over merkle serves one held.valid in
      let (top, f, st) = held.tree in
      let level : 0 + length bs ≡ 32 = omega (arith, length-turns 32 k) in
      let st' =
        Stored-prune (combine c) (record_node c) (fetch c db server n m) (get_node_with_hash c api)
          32 (Visible c laws) merkle.client merkle convert bs t h 0 0 top level (omega arith) el
          visible beside st in
      let f' =
        convert 0 0 (root (combine c) t) top (omega arith) (omega arith) (λ e. absurd (omega arith))
          f in
      let same = root-prune (combine c) bs t in
      let (a, walked, ea) =
        get_leaf_with_proof_lem (mongo_merkle c api) (combine c) 32 k cut (leaf h) merkle
          (omega arith) inside (subtree-prune (combine c) bs t ∙ el) (at_root ∙ sym same)
          (
            top,
            subst (λ x. get_node_with_hash c api 0 x merkle ≡ (ok top, merkle)) (sym same) f',
            st',
          ) in
      (
        a,
        walked
            ∙ ap (λ p. (ok (a, p), merkle))
                (λ j. record {
                  source = h;
                  root = same j;
                  assist = siblings-prune (combine c) bs t j;
                  index = node_at 32 k;
                }),
        ea,
      )
