-- ===== src/Service/Replies.antt =====
-- What the handlers `get_root`, `set_root` and `set_leaf` reply, and the state they leave.
use zkc_state.Prelude.{
  ℕ, ◌^◌, ◌<◌, ◌≡◌, refl, ap, false, Option, some, none, String, ◌==◌, inl, inr, Bool-cases,
}
use zkc_state.Outcome.{ok}
use zkc_state.Hash.{Hash, Bytes}
use zkc_state.Crypto.{Crypto, CryptoLaws, CollisionFree}
use zkc_state.Merkle.Bounds.{node_at}
use zkc_state.Merkle.Node.{MerkleProof}
use zkc_state.Merkle.Spec.{Tree, leaf, turns, root, subtree, replace}
use zkc_state.Merkle.Descend.{Held}
use zkc_state.Merkle.Valid.{Valid}
use zkc_state.Kvpair.Hash.{ContractId, hash_of_slice}
use zkc_state.Kvpair.Record.{new_leaf, record_node}
use zkc_state.Kvpair.Combine.{IsField, combine}
use zkc_state.Kvpair.Node.{new_simple_leaf}
use zkc_state.Service.Mongo.{Mongo}
use zkc_state.Service.Collection.{get_merkle_collection_name, get_data_collection_name}
use zkc_state.Service.Session.{new_collection, commit}
use zkc_state.Service.Request.{
  Request, GetRootRequest, SetRootRequest, SetLeafRequest, Proof, MongoKvPair, get_contract_id,
  proof_v0,
}
use zkc_state.Service.Handlers.{
  open_collection, get_root, set_root, set_leaf, leaf_to_set, proof_message, finish,
}
use zkc_state.Service.Laws.{MongoLaws}
use zkc_state.Service.Fetch.{plain, fetch}
use zkc_state.Service.Insert.{Good}
use zkc_state.Service.Leaf.{Holds, proof_of, set_leaf_and_get_proof_lem}
use zkc_state.Service.Rollback.{update_root-Holds}

module _ (c : Crypto) (db : Mongo) (server : MongoLaws db)
    (serialize : MerkleProof Hash → Option Bytes) (host : MongoKvPair) (id : ContractId) where
  abbrev n : String
  n = get_merkle_collection_name c id

  abbrev m : String
  m = get_data_collection_name c id

  -- The contract's collection holds the tree.
  abbrev pub HoldsFor : db.State → Tree Hash → Type 0
  HoldsFor = Holds c db server n m

  -- Without a session and without indexes, opening a collection only names it.
  pub open_collection_lem :
      (s : db.State)
      → host.with_indexes ≡ false
      → open_collection c db serialize host id s ≡ (ok (plain c db n m), s)
  unfolding open_collection new_collection
  open_collection_lem s e = rw e

  -- With a server that keeps its laws, where no indexes are to be created and the request's
  -- contract is `id`: in a state whose collection for `id` holds a tree, the handler `get_root`
  -- replies with the root of the tree and changes nothing.
  pub get_root_lem :
      (t : Tree Hash) (request : Request GetRootRequest) (s : db.State)
      → host.with_indexes ≡ false
      → get_contract_id c {M = db.MongoError} host request request.inner.contract_id ≡ ok id
      → HoldsFor s t
      → get_root c db serialize host request s ≡ (ok (root (combine c) t).bytes, s)
  unfolding get_root
  get_root_lem t request s plain_host ei held =
      let (a, er, ef, eh) = held.current in
      rw ei (rw (open_collection_lem s plain_host) (rw er (ap (λ (h : Hash). (ok h.bytes, s)) eh)))

  module _ (laws : CryptoLaws c) (free : CollisionFree c) where
    -- With a server that keeps its laws, a field and a Merkle hash without collisions: where no
    -- indexes are to be created and the request's contract is `id`: in a state whose collection
    -- for `id` is valid, for a tree of field elements that can be fetched from its root, the
    -- current one or not, the handler `set_root` with the root of that tree replies with the root.
    -- It leaves a state that holds that tree as the current one.
    pub set_root_lem :
        (t : Tree Hash) (request : Request SetRootRequest) (s : db.State)
        → host.with_indexes ≡ false
        → get_contract_id c {M = db.MongoError} host request request.inner.contract_id ≡ ok id
        → hash_of_slice {M = db.MongoError} request.inner.hash ≡ ok (root (combine c) t)
        → Good c db server n m s
        → Valid (combine c) (IsField c) t
        → Held (combine c) (record_node c) (fetch c db server n m) s t 0 0
        → (s' : db.State) × (set_root c db serialize host request s
            ≡ (ok (root (combine c) t).bytes, s'))
          × HoldsFor s' t
    unfolding set_root
    set_root_lem t request s plain_host ei eh good fields held =
        let (a, s', f, hash, updated, holds, _, _) =
          update_root-Holds c db server n m laws free t s good fields held in
        (
          s',
          rw ei (
              rw (open_collection_lem s plain_host)
                (rw eh (rw f (rw updated (ap (λ (h : Hash). (ok h.bytes, s')) hash))))),
          holds,
        )

    pub proof_message_lem :
        (proof_type : ℕ) (proof : MerkleProof Hash) (s : db.State)
        → ((p : MerkleProof Hash) → (b : Bytes) × (serialize p ≡ some b))
        → (answer : Option Proof) × (proof_message c db serialize proof_type proof s
            ≡ (ok answer, s))
    unfolding proof_message
    proof_message_lem proof_type proof s total = elim (Bool-cases (proof_type == proof_v0)) [
      | inl wanted ↦
          let (b, e) = total proof in
          (some (record { proof_type = proof_type; proof = b }), rw (wanted, e))
      | inr other ↦ (none, rw other)
    ]

    leaf_to_set_lem :
        (i : ℕ) (h : Hash) (bytes : Bytes) (s : db.State)
        → hash_of_slice {M = db.MongoError} bytes ≡ ok h
        → leaf_to_set c db serialize (plain c db n m) i none (some bytes) s
          ≡ (ok (new_leaf i h, new_simple_leaf i h), s)
    unfolding leaf_to_set
    leaf_to_set_lem i h bytes s e = rw e

    pub finish_lem : (s : db.State) → finish c db serialize (plain c db n m) s ≡ (ok tt, s)
    unfolding finish commit
    finish_lem s = refl

    -- With a server that keeps its laws, a field and a Merkle hash without collisions: where
    -- proofs can be serialized, no indexes are to be created and the request's contract is `id`,
    -- in a state whose collection for `id` holds a tree with the leaf `k` of the 2 ^ 32: the
    -- handler `set_leaf` of a request with that leaf's index, a hash that is a field element and
    -- no data replies with that leaf. It leaves a state that holds the tree with the leaf
    -- replaced.
    pub set_leaf_lem :
        (k : ℕ) (t : Tree Hash) (old h : Hash) (request : Request SetLeafRequest) (bytes : Bytes)
        (s : db.State)
        → ((p : MerkleProof Hash) → (b : Bytes) × (serialize p ≡ some b))
        → host.with_indexes ≡ false
        → get_contract_id c {M = db.MongoError} host request request.inner.contract_id ≡ ok id
        → request.inner.index ≡ node_at 32 k
        → request.inner.bytes ≡ none
        → request.inner.hash ≡ some bytes
        → hash_of_slice {M = db.MongoError} bytes ≡ ok h
        → k < 2 ^ 32
        → subtree (turns 32 k) t ≡ some (leaf old)
        → IsField c h
        → HoldsFor s t
        → (s' : db.State) × (answer : Option Proof) × (set_leaf c db serialize host request s
            ≡ (ok (record { node = some (new_simple_leaf (node_at 32 k) h); proof = answer }), s'))
          × HoldsFor s' (replace (turns 32 k) t (leaf h))
    unfolding set_leaf
    set_leaf_lem k t old h request bytes s total plain_host ei ek ed eb eh inside el field held =
        let set =
          set_leaf_and_get_proof_lem c db server n m laws free k t old h s inside el field held in
        let (answer, shown) =
          proof_message_lem request.inner.proof_type (proof_of c db server n m t h k) set.after
            total in
        (
          set.after,
          answer,
          rw ei (
              rw (open_collection_lem s plain_host) (
                rw (ek, ed, eb)
                  (rw (leaf_to_set_lem (node_at 32 k) h bytes s eh)
                    (rw set.returns (rw shown (rw (finish_lem set.after) refl)))))),
          set.holds,
        )
