-- ===== src/Service/Roots.antt =====
-- Roots against what is read: two sequences of writes, and the leaves that they leave.
use zkc_state.Prelude.{ℕ, ◌^◌, ◌<◌, ◌≡◌, ◌↔◌, ap, sym, ◌∙◌, String, arith}
use zkc_state.Outcome.{Outcome, ok}
use zkc_state.Hash.{Hash}
use zkc_state.Crypto.{Crypto, CryptoLaws, CollisionFree}
use zkc_state.Merkle.Bounds.{node_at}
use zkc_state.Merkle.Node.{MerkleProof}
use zkc_state.Merkle.Spec.{root}
use zkc_state.Merkle.Map.{tree_of, subtree-tree_of_leaf, tree_of-agree, root_binds}
use zkc_state.Kvpair.Record.{MerkleRecord}
use zkc_state.Kvpair.Combine.{IsField, combine, hash_children_lem, combine-injective}
use zkc_state.Kvpair.Defaults.{default_at-IsField}
use zkc_state.Service.Mongo.{Mongo}
use zkc_state.Service.Collection.{get_leaf_and_proof, must_get_root_merkle_record}
use zkc_state.Service.Laws.{MongoLaws}
use zkc_state.Service.Fetch.{plain}
use zkc_state.Service.Leaf.{get_leaf_and_proof_lem}
use zkc_state.Service.Empty.{IsEmpty}
use zkc_state.Service.Writes.{
  Writes, contents, set_leaves, AreWrites, defaults, contents-IsField, run_writes,
}

-- A read has one result.
read_hash :
    {E S : Type 0} {x y : MerkleRecord} {p q : MerkleProof Hash} {s : S}
    {r : Outcome E (MerkleRecord × MerkleProof Hash) × S}
    → r ≡ (ok (x, p), s)
    → r ≡ (ok (y, q), s)
    → x.hash ≡ y.hash
read_hash {x = x} {y = y} e e' =
    let both = sym e ∙ e' in let same : x ≡ y = cc in ap (λ (a : MerkleRecord). a.hash) same

module _ (c : Crypto) (laws : CryptoLaws c) (free : CollisionFree c) where
  -- The root of the tree after some writes to a new collection.
  abbrev root_of : Writes → Hash
  root_of ws = root (combine c) (tree_of 32 0 (contents ws (defaults c laws)))

  -- The root determines the leaves.
  same_root-contents :
      (vs ws : Writes)
      → AreWrites c vs
      → AreWrites c ws
      → root_of vs ≡ root_of ws
      → (k : ℕ) → k < 2 ^ 32
      → contents vs (defaults c laws) k ≡ contents ws (defaults c laws) k
  same_root-contents vs ws valid_v valid_w same k inside =
      root_binds (combine c) (IsField c)
        (λ a b fa fb. (hash_children_lem c laws {E = Unit {0}} a b fa fb).1)
        (combine-injective c laws free) 32 0 (contents vs (defaults c laws))
        (contents ws (defaults c laws))
        (contents-IsField c laws vs (defaults c laws) valid_v (λ j. default_at-IsField c laws 0))
        (contents-IsField c laws ws (defaults c laws) valid_w (λ j. default_at-IsField c laws 0))
        same k (omega arith) (omega arith)

module _ (c : Crypto) (laws : CryptoLaws c) (free : CollisionFree c) (db : Mongo)
    (server : MongoLaws db) (n m : String) where
  -- Reading the leaf `k` gives a hash in the one state, and the same hash in the other.
  abbrev pub ReadsAlike : db.State → db.State → ℕ → Type 0
  ReadsAlike s s' k =
      (x y : MerkleRecord) × (p q : MerkleProof Hash) × (get_leaf_and_proof c db (plain c db n m)
          (node_at 32 k) s
        ≡ (ok (x, p), s))
      × (get_leaf_and_proof c db (plain c db n m) (node_at 32 k) s' ≡ (ok (y, q), s'))
      × (x.hash ≡ y.hash)

  -- With a server that keeps its laws, a field and a Merkle hash without collisions: two sequences
  -- of writes of field elements to leaves, each in a state where the collection has no documents,
  -- succeed, and the current root can be read in both states. The two roots have one hash exactly
  -- when reading each of the 2 ^ 32 leaves succeeds in both states and gives the same hash.
  pub same_root-ReadsAlike :
      (vs ws : Writes) (s t : db.State)
      → AreWrites c vs
      → AreWrites c ws
      → IsEmpty c laws db server n m s
      → IsEmpty c laws db server n m t
      → (s' t' : db.State) × (a b : MerkleRecord) × (set_leaves c db (plain c db n m) vs s
          ≡ (ok tt, s'))
        × (set_leaves c db (plain c db n m) ws t ≡ (ok tt, t'))
        × (must_get_root_merkle_record c db (plain c db n m) s' ≡ (ok a, s'))
        × (must_get_root_merkle_record c db (plain c db n m) t' ≡ (ok b, t'))
        × ((a.hash ≡ b.hash) ↔ ((k : ℕ) → k < 2 ^ 32 → ReadsAlike s' t' k))
  same_root-ReadsAlike vs ws s t valid_v valid_w empty empty' =
      let (s', ran, held) = run_writes c laws free db server n m vs s valid_v empty in
      let (t', ran', held') = run_writes c laws free db server n m ws t valid_w empty' in
      let (a, er, _, ea) = held.current in
      let (b, er', _, eb) = held'.current in
      let f = contents vs (defaults c laws) in
      let g = contents ws (defaults c laws) in
      (
        s',
        t',
        a,
        b,
        ran,
        ran',
        er,
        er',
        (
          λ same k inside.
              let (x, got, ex) =
                get_leaf_and_proof_lem c db server n m k (tree_of 32 0 f) (f k) s' inside
                  (subtree-tree_of_leaf 32 k f inside) held in
              let (y, got', ey) =
                get_leaf_and_proof_lem c db server n m k (tree_of 32 0 g) (g k) t' inside
                  (subtree-tree_of_leaf 32 k g inside) held' in
              (
                x,
                y,
                _,
                _,
                got,
                got',
                ex
                    ∙ same_root-contents c laws free vs ws valid_v valid_w (sym ea ∙ same ∙ eb) k
                        inside
                    ∙ sym ey,
              ),
          λ alike.
              ea
              ∙ ap (root (combine c)) (
                  tree_of-agree 32 0 f g (λ k low high.
                    let inside : k < 2 ^ 32 = omega arith in
                    let (x, y, p, q, got, got', exy) = alike k inside in
                    let (x0, read, ex) =
                      get_leaf_and_proof_lem c db server n m k (tree_of 32 0 f) (f k) s' inside
                        (subtree-tree_of_leaf 32 k f inside) held in
                    let (y0, read', ey) =
                      get_leaf_and_proof_lem c db server n m k (tree_of 32 0 g) (g k) t' inside
                        (subtree-tree_of_leaf 32 k g inside) held' in
                    sym ex ∙ sym (read_hash got read) ∙ exy ∙ read_hash got' read' ∙ ey))
              ∙ sym eb,
        ),
      )
