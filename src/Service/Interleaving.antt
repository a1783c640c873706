-- ===== src/Service/Interleaving.antt =====
-- Two writes to one collection whose steps alternate: `set_leaf_and_get_proof` reads the proof of the
-- leaf first, and writes the parents from that proof.
use zkc_state.Prelude.{ℕ, ◌^◌, ◌<◌, ◌≡◌, ◌≢◌, sym, ◌∙◌, String, some}
use zkc_state.Outcome.{ok}
use zkc_state.Hash.{Hash}
use zkc_state.Crypto.{Crypto, CryptoLaws, CollisionFree}
use zkc_state.Merkle.Bounds.{node_at}
use zkc_state.Merkle.Climb.{Held_mono}
use zkc_state.Merkle.Spec.{Tree, leaf, turns, subtree, replace, length-turns}
use zkc_state.Merkle.Valid.{subtree-replace_other, turns-injective}
use zkc_state.Kvpair.Combine.{IsField, combine}
use zkc_state.Kvpair.Record.{MerkleRecord, new_leaf, record_node}
use zkc_state.Service.Mongo.{Mongo}
use zkc_state.Service.Collection.{get_leaf_and_proof, set_leaf_and_get_proof, write_leaf}
use zkc_state.Service.Laws.{MongoLaws}
use zkc_state.Service.Fetch.{plain, fetch}
use zkc_state.Service.Leaf.{
  Holds, proof_of, get_leaf_and_proof_lem, write_leaf_lem, set_leaf_and_get_proof_lem,
}

module _ (c : Crypto) (db : Mongo) (server : MongoLaws db) (n m : String) (laws : CryptoLaws c)
    (free : CollisionFree c) where
  -- With a server that keeps its laws, a field and a Merkle hash without collisions: in a state
  -- that holds a tree, for two different leaves: where one call reads the proof of its leaf,
  -- another call sets the other leaf to a field element, and the first then writes its field
  -- element with the proof that it has read, all succeeds, and the state holds the tree with the
  -- first leaf replaced alone, where the other leaf is read with the hash it had at first.
  pub lost_update :
      (j k : ℕ) (t : Tree Hash) (old other h g : Hash) (s : db.State)
      → j < 2 ^ 32
      → k < 2 ^ 32
      → j ≢ k
      → subtree (turns 32 j) t ≡ some (leaf old)
      → subtree (turns 32 k) t ≡ some (leaf other)
      → IsField c h
      → IsField c g
      → Holds c db server n m s t
      → (s1 s2 : db.State) × (a b : MerkleRecord) × (get_leaf_and_proof c db
            (plain c db n m)
            (node_at 32 j)
            s
          ≡ (ok (a, proof_of c db server n m t old j), s))
        × (set_leaf_and_get_proof c db (plain c db n m) (new_leaf (node_at 32 k) g) s
            ≡ (ok (proof_of c db server n m t g k), s1))
        × (write_leaf c db
              (plain c db n m)
              (new_leaf (node_at 32 j) h)
              (proof_of c db server n m t old j)
              s1
            ≡ (ok (proof_of c db server n m t h j), s2))
        × Holds c db server n m s2 (replace (turns 32 j) t (leaf h))
        × (get_leaf_and_proof c db (plain c db n m) (node_at 32 k) s2
            ≡ (ok (b, proof_of c db server n m (replace (turns 32 j) t (leaf h)) other k), s2))
        × (b.hash ≡ other)
  lost_update j k t old other h g s hj hk differ ej ek fh fg held =
      let (a, read, _) = get_leaf_and_proof_lem c db server n m j t old s hj ej held in
      let set = set_leaf_and_get_proof_lem c db server n m laws free k t other g s hk ek fg held in
      let readable =
        Held_mono (combine c) (record_node c) (fetch c db server n m) t 0 0 set.extends held.tree in
      let late =
        write_leaf_lem c db server n m laws free j t old h set.after hj ej fh set.holds.valid
          held.fields readable in
      let apart =
        subtree-replace_other (turns 32 j) (turns 32 k) t (leaf h)
          (length-turns 32 j ∙ sym (length-turns 32 k))
          (λ same. differ (turns-injective 32 j k hj hk same)) in
      let (b, got, eb) =
        get_leaf_and_proof_lem c db server n m k (replace (turns 32 j) t (leaf h)) other late.after
          hk (apart ∙ ek) late.holds in
      (set.after, late.after, a, b, read, set.returns, late.returns, late.holds, got, eb)
