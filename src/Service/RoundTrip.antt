-- ===== src/Service/RoundTrip.antt =====
-- Reading a leaf after a leaf was set, through `set_leaf_and_get_proof` and `get_leaf_and_proof`.
use zkc_state.Prelude.{ℕ, ◌^◌, ◌<◌, ◌≡◌, ◌≢◌, sym, ◌∙◌, some, String}
use zkc_state.Outcome.{ok}
use zkc_state.Hash.{Hash}
use zkc_state.Crypto.{Crypto, CryptoLaws, CollisionFree}
use zkc_state.Merkle.Bounds.{node_at}
use zkc_state.Merkle.Spec.{Tree, leaf, turns, subtree, replace, length-turns}
use zkc_state.Merkle.Valid.{subtree-replace, subtree-replace_other, turns-injective}
use zkc_state.Kvpair.Record.{MerkleRecord, new_leaf}
use zkc_state.Kvpair.Combine.{IsField}
use zkc_state.Service.Mongo.{Mongo}
use zkc_state.Service.Collection.{get_leaf_and_proof, set_leaf_and_get_proof}
use zkc_state.Service.Laws.{MongoLaws}
use zkc_state.Service.Fetch.{plain}
use zkc_state.Service.Leaf.{Holds, proof_of, get_leaf_and_proof_lem, set_leaf_and_get_proof_lem}

module _ (c : Crypto) (db : Mongo) (server : MongoLaws db) (n m : String) (laws : CryptoLaws c)
    (free : CollisionFree c) where
  -- With a server that keeps its laws, a field and a Merkle hash without collisions: in a state
  -- that holds a tree, where the leaf `k` of the 2 ^ 32 is in the tree, setting it to a field
  -- element and then reading it succeeds. The record has the new hash and its proof is that of the
  -- tree with the leaf replaced; the proof of the write has the root of before the write.
  pub set_get_same :
      (k : ℕ) (t : Tree Hash) (old h : Hash) (s : db.State)
      → k < 2 ^ 32
      → subtree (turns 32 k) t ≡ some (leaf old)
      → IsField c h
      → Holds c db server n m s t
      → (s' : db.State) × (a : MerkleRecord) × (set_leaf_and_get_proof c db
            (plain c db n m)
            (new_leaf (node_at 32 k) h)
            s
          ≡ (ok (proof_of c db server n m t h k), s'))
        × (get_leaf_and_proof c db (plain c db n m) (node_at 32 k) s'
            ≡ (ok (a, proof_of c db server n m (replace (turns 32 k) t (leaf h)) h k), s'))
        × (a.hash ≡ h)
  set_get_same k t old h s inside el field held =
      let set =
        set_leaf_and_get_proof_lem c db server n m laws free k t old h s inside el field held in
      let (a, got, ea) =
        get_leaf_and_proof_lem c db server n m k (replace (turns 32 k) t (leaf h)) h set.after
          inside (subtree-replace (turns 32 k) t (leaf old) (leaf h) el) set.holds in
      (set.after, a, set.returns, got, ea)

  -- With a server that keeps its laws, a field and a Merkle hash without collisions: in a state
  -- that holds a tree with the leaves `j` and `k`, which differ, setting the leaf `k` to a field
  -- element and then reading the leaf `j` succeeds. The record has the hash that the leaf had, and
  -- its proof is that of the changed tree.
  pub set_get_other :
      (j k : ℕ) (t : Tree Hash) (old h other : Hash) (s : db.State)
      → j < 2 ^ 32
      → k < 2 ^ 32
      → j ≢ k
      → subtree (turns 32 k) t ≡ some (leaf old)
      → subtree (turns 32 j) t ≡ some (leaf other)
      → IsField c h
      → Holds c db server n m s t
      → (s' : db.State) × (a : MerkleRecord) × (set_leaf_and_get_proof c db
            (plain c db n m)
            (new_leaf (node_at 32 k) h)
            s
          ≡ (ok (proof_of c db server n m t h k), s'))
        × (get_leaf_and_proof c db (plain c db n m) (node_at 32 j) s'
            ≡ (ok (a, proof_of c db server n m (replace (turns 32 k) t (leaf h)) other j), s'))
        × (a.hash ≡ other)
  set_get_other j k t old h other s hj hk differ el eo field held =
      let set = set_leaf_and_get_proof_lem c db server n m laws free k t old h s hk el field held in
      let apart =
        subtree-replace_other (turns 32 k) (turns 32 j) t (leaf h)
          (length-turns 32 k ∙ sym (length-turns 32 j))
          (λ same. differ (sym (turns-injective 32 k j hk hj same))) in
      let (a, got, ea) =
        get_leaf_and_proof_lem c db server n m j (replace (turns 32 k) t (leaf h)) other set.after
          hj (apart ∙ eo) set.holds in
      (set.after, a, set.returns, got, ea)
