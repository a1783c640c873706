-- ===== src/Service/Writes.antt =====
-- A sequence of writes to a collection against a function from leaves to hashes.
use mathlib.Core.Path.{subst}
use zkc_state.Prelude.{
  ℕ, zero, suc, ◌+◌, ◌*◌, ◌^◌, ◌<◌, ◌≡◌, refl, List, [], ◌∷◌, String, ◌==◌, Bool-cases, inl, inr,
}
use zkc_state.Outcome.{ok}
use zkc_state.Action.{Action, ◌>>=◌, ◌>>◌, pure}
use zkc_state.Hash.{Hash}
use zkc_state.Crypto.{Crypto, CryptoLaws, CollisionFree}
use zkc_state.Merkle.Bounds.{node_at}
use zkc_state.Merkle.Map.{tree_of, write, subtree-tree_of_leaf, replace-tree_of}
use zkc_state.Kvpair.Record.{MerkleRecord, new_leaf}
use zkc_state.Kvpair.Combine.{IsField}
use zkc_state.Kvpair.Defaults.{default_at}
use zkc_state.Service.Mongo.{Mongo}
use zkc_state.Service.Collection.{Failure, Col, get_leaf_and_proof, set_leaf_and_get_proof}
use zkc_state.Service.Laws.{MongoLaws}
use zkc_state.Service.Fetch.{plain}
use zkc_state.Service.Leaf.{Holds, proof_of, get_leaf_and_proof_lem, set_leaf_and_get_proof_lem}
use zkc_state.Service.Empty.{default_tree, empty_Holds, IsEmpty}

-- The leaves and the hashes that a client sets, the last one first.
abbrev pub Writes : Type 0
Writes = List (ℕ × Hash)

-- What the leaves hold after the writes.
abbrev pub contents : Writes → (ℕ → Hash) → ℕ → Hash
contents [] f = f
contents ((k, h) ∷ ws) f = write (contents ws f) k h

-- A client that sets the leaves one after the other.
unfoldable pub set_leaves :
    (c : Crypto) (db : Mongo) → Col c db → Writes → Action (Failure c db) db.State (Unit {0})
set_leaves c db col [] = pure tt
set_leaves c db col ((k, h) ∷ ws) =
    set_leaves c db col ws
    >> (set_leaf_and_get_proof c db col (new_leaf (node_at 32 k) h) >>= λ proof. pure tt)

-- Every write is to a leaf, of a field element.
abbrev pub AreWrites : Crypto → Writes → Type 0
AreWrites c [] = Unit
AreWrites c ((k, h) ∷ ws) = (k < 2 ^ 32) × IsField c h × AreWrites c ws

module _ (c : Crypto) (laws : CryptoLaws c) where
  abbrev pub defaults : ℕ → Hash
  defaults k = default_at c laws 0

  pub default_tree-tree_of : (n q : ℕ) → default_tree c laws n ≡ tree_of n q defaults
  unfolding default_tree tree_of
  default_tree-tree_of zero q = refl
  default_tree-tree_of (suc n) q =
      rw (← default_tree-tree_of n (2 * q + 0), ← default_tree-tree_of n (2 * q + 1)) refl

  pub contents-IsField :
      (ws : Writes) (f : ℕ → Hash)
      → AreWrites c ws
      → ((k : ℕ) → IsField c (f k))
      → (k : ℕ) → IsField c (contents ws f k)
  contents-IsField [] f valid fields k = fields k
  contents-IsField ((j, h) ∷ ws) f (_, field, valid) fields k = elim (Bool-cases (k == j)) [
    | inl same ↦ rw same field
    | inr other ↦ rw other (contents-IsField ws f valid fields k)
  ]

  module _ (free : CollisionFree c) where
    module _ (db : Mongo) (server : MongoLaws db) (n m : String) where
      set_leaves-Holds :
          (ws : Writes) (f : ℕ → Hash) (s : db.State)
          → AreWrites c ws
          → Holds c db server n m s (tree_of 32 0 f)
          → (s' : db.State) × (set_leaves c db (plain c db n m) ws s ≡ (ok tt, s'))
            × Holds c db server n m s' (tree_of 32 0 (contents ws f))
      unfolding set_leaves
      set_leaves-Holds [] f s valid held = (s, refl, held)
      set_leaves-Holds ((k, h) ∷ ws) f s (inside, field, valid) held =
          let (s1, before, held1) = set_leaves-Holds ws f s valid held in
          let now = contents ws f in
          let set =
            set_leaf_and_get_proof_lem c db server n m laws free k (tree_of 32 0 now) (now k) h s1
              inside (subtree-tree_of_leaf 32 k now inside) field held1 in
          (
            set.after,
            rw before (rw set.returns refl),
            subst (Holds c db server n m set.after) (replace-tree_of 32 k now h inside) set.holds,
          )

      -- The writes succeed in a new collection, and it holds the tree of what was written.
      pub run_writes :
          (ws : Writes) (s : db.State)
          → AreWrites c ws
          → IsEmpty c laws db server n m s
          → (s' : db.State) × (set_leaves c db (plain c db n m) ws s ≡ (ok tt, s'))
            × Holds c db server n m s' (tree_of 32 0 (contents ws defaults))
      run_writes ws s valid empty = set_leaves-Holds ws defaults s valid (
          subst (Holds c db server n m s) (default_tree-tree_of 32 0)
            (empty_Holds c laws db server n m s empty))

      -- With a server that keeps its laws, a field and a Merkle hash without collisions: in a
      -- collection without documents, any sequence of writes of field elements to leaves succeeds,
      -- and then reading any leaf gives the hash of the last write to it, or the default hash
      -- where there was none, with the proof in the tree of all these hashes.
      pub read_writes :
          (ws : Writes) (k : ℕ) (s : db.State)
          → AreWrites c ws
          → k < 2 ^ 32
          → IsEmpty c laws db server n m s
          → (s' : db.State) × (a : MerkleRecord) × (set_leaves c db (plain c db n m) ws s
              ≡ (ok tt, s'))
            × (get_leaf_and_proof c db (plain c db n m) (node_at 32 k) s' ≡ (
              ok (
                a,
                proof_of c db server n m
                    (tree_of 32 0 (contents ws defaults))
                    (contents ws defaults k)
                    k,
              ),
              s',
            ))
            × (a.hash ≡ contents ws defaults k)
      read_writes ws k s valid inside empty =
          let (s', ran, held) = run_writes ws s valid empty in
          let final = contents ws defaults in
          let (a, got, ea) =
            get_leaf_and_proof_lem c db server n m k (tree_of 32 0 final) (final k) s' inside
              (subtree-tree_of_leaf 32 k final inside) held in
          (s', a, ran, got, ea)
