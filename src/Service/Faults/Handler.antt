-- ===== src/Service/Faults/Handler.antt =====
-- The handler `set_leaf` against a server that can fail.
use mathlib.Core.Path.{subst}
use zkc_state.Prelude.{ℕ, ◌^◌, ◌<◌, ◌≡◌, ◌⊎◌, sym, inl, inr, false, Option, some, String}
use zkc_state.Outcome.{ok, err}
use zkc_state.Hash.{Bytes, Hash}
use zkc_state.Crypto.{Crypto, CryptoLaws, CollisionFree}
use zkc_state.Errors.{Status, status_of}
use zkc_state.Merkle.Bounds.{node_at}
use zkc_state.Merkle.Node.{MerkleProof}
use zkc_state.Merkle.Spec.{Tree, leaf, turns, subtree, replace}
use zkc_state.Kvpair.Hash.{ContractId}
use zkc_state.Kvpair.Node.{Node}
use zkc_state.Kvpair.Record.{new_leaf}
use zkc_state.Kvpair.Combine.{IsField}
use zkc_state.Service.Mongo.{Mongo}
use zkc_state.Service.Collection.{
  set_leaf_and_get_proof, get_merkle_collection_name, get_data_collection_name,
}
use zkc_state.Service.Request.{Request, SetLeafRequest, Proof, MongoKvPair, get_contract_id}
use zkc_state.Service.Handlers.{open_collection, leaf_to_set, set_leaf, proof_message, finish}
use zkc_state.Service.Laws.{MongoLaws}
use zkc_state.Service.Fetch.{plain}
use zkc_state.Service.Leaf.{Holds, proof_of}
use zkc_state.Service.Faults.{Fault, faulty}
use zkc_state.Service.Faults.Runs.{Runs, Runs-lift, Runs-map_error, Runs-bind, Runs-value}
use zkc_state.Service.Faults.Atomic.{Either, Runs-set_leaf}
use zkc_state.Service.Faults.LeafSteps.{
  Sets, Runs-open, Runs-finish, Runs-proof_message, Runs-leaf_to_set,
}

module _ (c : Crypto) (db : Mongo) (server : MongoLaws db)
    (serialize : MerkleProof Hash → Option Bytes) (laws : CryptoLaws c) (free : CollisionFree c)
    (host : MongoKvPair) (id : ContractId) (fault : ℕ → Fault db.MongoError) where
  abbrev n : String
  n = get_merkle_collection_name c id

  abbrev m : String
  m = get_data_collection_name c id

  abbrev down : Mongo
  down = faulty db fault

  abbrev HoldsFor : db.State → Tree Hash → Type 0
  HoldsFor = Holds c db server n m

  abbrev EitherFor : Tree Hash → Tree Hash → db.State → Type 0
  EitherFor = Either c db server laws free n m fault

  Runs-request :
      (k : ℕ) (t : Tree Hash) (old h : Hash) (node : Node) (request : Request SetLeafRequest)
      (s : db.State)
      → ((p : MerkleProof Hash) → (b : Bytes) × (serialize p ≡ some b))
      → host.with_indexes ≡ false
      → get_contract_id c {M = db.MongoError} host request request.inner.contract_id ≡ ok id
      → request.inner.index ≡ node_at 32 k
      → Sets c db server serialize laws free host id fault request s k h node
      → k < 2 ^ 32
      → subtree (turns 32 k) t ≡ some (leaf old)
      → IsField c h
      → HoldsFor s t
      → (s' : db.State) × (answer : Option Proof) × Runs
          (EitherFor t (replace (turns 32 k) t (leaf h)))
          (set_leaf c down serialize host request)
          s
          (ok (record { node = some node; proof = answer }))
          s'
        × HoldsFor s' (replace (turns 32 k) t (leaf h))
  unfolding set_leaf
  Runs-request k t old h node request s total plain_host ec ek sets inside el field held =
      let u = replace (turns 32 k) t (leaf h) in
      let J = EitherFor t u in
      let (s1, first, held1) =
        Runs-leaf_to_set c db server serialize laws free host id fault t u k h node request s inside
          sets held in
      let (s2, second, holds) =
        Runs-set_leaf c db server laws free n m fault k t old h s1 inside el field held1 in
      let p = proof_of c db server n m t h k in
      let (answer, third) =
        Runs-proof_message c db server serialize laws free host id fault J request.inner.proof_type
          p s2 total in
      let r = ok (record { node = some node; proof = answer }) in
      (
        s2,
        answer,
        Runs-value J _ ec (
            Runs-bind J (open_collection c down serialize host id) _ (plain c down n m) r s s s2
              (Runs-open c db server serialize laws free host id fault J s plain_host)
              (Runs-bind J
                (leaf_to_set c down serialize (plain c down n m) request.inner.index
                  request.inner.bytes request.inner.hash)
                _ (new_leaf (node_at 32 k) h, node) r s s1 s2
                (subst
                  (λ i.
                    Runs J
                      (leaf_to_set c down serialize (plain c down n m) i request.inner.bytes
                        request.inner.hash)
                      s (ok (new_leaf (node_at 32 k) h, node)) s1)
                  (sym ek) first)
                (Runs-bind J _ _ p r s1 s2 s2
                  (Runs-map_error J status_of
                    (set_leaf_and_get_proof c down (plain c down n m) (new_leaf (node_at 32 k) h))
                    (ok p) s1 s2 second)
                  (Runs-bind J (proof_message c down serialize request.inner.proof_type p) _ answer
                    r s2 s2 s2 third
                    (Runs-bind J (finish c down serialize (plain c down n m)) _ tt r s2 s2 s2
                      (Runs-finish c db server serialize laws free host id fault J s2)
                      (Runs-lift J r s2)))))),
        holds,
      )

  -- With a server that keeps its laws, but of whose calls each may fail, before or after it takes
  -- effect, a field and a Merkle hash without collisions: where proofs can be serialized, no
  -- indexes are to be created and the request's contract is `id`, for a state that holds a tree
  -- with the leaf `k` of the 2 ^ 32, and a request with that leaf's index that has a hash, with
  -- data or without, or data alone, the hash to set being the request's, which is not compared
  -- with the data, or the Poseidon hash of the data, and a field element: the handler `set_leaf`
  -- replies with the leaf under that hash and leaves a state that holds the tree with the leaf
  -- replaced, or it replies with an error, and the state holds the tree of before or that with the
  -- leaf replaced.
  pub set_leaf_request_atomic :
      (k calls : ℕ) (t : Tree Hash) (old h : Hash) (node : Node) (request : Request SetLeafRequest)
      (s : db.State)
      → ((p : MerkleProof Hash) → (b : Bytes) × (serialize p ≡ some b))
      → host.with_indexes ≡ false
      → get_contract_id c {M = db.MongoError} host request request.inner.contract_id ≡ ok id
      → request.inner.index ≡ node_at 32 k
      → Sets c db server serialize laws free host id fault request s k h node
      → k < 2 ^ 32
      → subtree (turns 32 k) t ≡ some (leaf old)
      → IsField c h
      → HoldsFor s t
      → ((s' : db.State) × (calls' : ℕ) × (answer : Option Proof) × (set_leaf c down serialize host
              request
              (s, calls)
            ≡ (ok (record { node = some node; proof = answer }), (s', calls')))
          × HoldsFor s' (replace (turns 32 k) t (leaf h)))
        ⊎ ((e : Status db.MongoError) × (s' : db.State) × (calls' : ℕ) × (set_leaf c down serialize
                host request
                (s, calls)
              ≡ (err e, (s', calls')))
            × (HoldsFor s' t ⊎ HoldsFor s' (replace (turns 32 k) t (leaf h))))
  set_leaf_request_atomic k calls t old h node request s total plain_host ec ek sets inside el field
        held =
      let (s', answer, runs, holds) =
        Runs-request k t old h node request s total plain_host ec ek sets inside el field held in
      elim (runs.ends calls) [
        | inl (calls', e) ↦ inl (s', calls', answer, e, holds)
        | inr (x, s'', calls', e, either) ↦ inr (x, s'', calls', e, either)
      ]
