-- ===== src/Service/Leaf.antt =====
-- `get_leaf_and_proof` and `set_leaf_and_get_proof` against the tree of hashes that a collection holds.
use zkc_state.Prelude.{
  ℕ, ◌+◌, ◌^◌, ◌≤◌, ◌<◌, ◌≡◌, ◌≢◌, refl, sym, ◌∙◌, [], some, String, arith, length,
}
use mathlib.Core.List.{append-nil}
use mathlib.Core.Path.{subst, subst₂}
use zkc_state.Outcome.{Outcome, ok, err}
use zkc_state.Action.{Action}
use zkc_state.Hash.{Hash}
use zkc_state.Crypto.{Crypto, CryptoLaws, CollisionFree}
use zkc_state.Errors.{merkle}
use zkc_state.Merkle.Error.{invalid_leaf_index}
use zkc_state.Merkle.Index.{get_node_type, node_leaf, error_at}
use zkc_state.Merkle.Bounds.{node_at, get_offset-node_at}
use zkc_state.Merkle.Path.{get_path-leaf, leaf_check-leaf, leaf_check_rejects}
use zkc_state.Merkle.Node.{MerkleProof}
use zkc_state.Merkle.Spec.{
  Tree, leaf, turns, end_of-turns, root, siblings, subtree, replace, length-turns, way_down-turns,
}
use zkc_state.Merkle.Descend.{Held, Stored, descend_lem}
use zkc_state.Merkle.Climb.{Extends, Held_mono}
use zkc_state.Merkle.Valid.{Valid, Valid-replace}
use zkc_state.Merkle.Update.{climb_lem}
use zkc_state.Kvpair.Hash.{hash_children}
use zkc_state.Kvpair.Record.{MerkleRecord, new_leaf, record_node}
use zkc_state.Kvpair.Combine.{IsField, combine, hash_children_lem}
use zkc_state.Service.Mongo.{Mongo}
use zkc_state.Service.Collection.{
  Failure, get_leaf_and_proof, set_leaf_and_get_proof, write_leaf, store_parent,
}
use zkc_state.Service.Laws.{MongoLaws, Elsewhere}
use zkc_state.Service.Invariant.{Canonical}
use zkc_state.Service.Fetch.{plain, fetch}
use zkc_state.Service.Insert.{Good, insert_merkle_record_lem}
use zkc_state.Service.Parent.{GoodSince, IsRoot, Covers-Extends, fetch-held, store_parent_lem}

fetched_once :
    {E A S : Type 0} {a b : A} {s : S} → ◌≡◌ {A = Outcome E A × S} (ok a, s) (ok b, s) → a ≡ b
fetched_once e = cc

module _ (c : Crypto) (db : Mongo) (server : MongoLaws db) (n m : String) where
  -- A state that holds a tree of field elements under its current root.
  pub record Holds (s : db.State) (t : Tree Hash) : Type 0 where
    pub valid : Good c db server n m s
    pub fields : Valid (combine c) (IsField c) t
    pub tree : Held (combine c) (record_node c) (fetch c db server n m) s t 0 0
    pub current : IsRoot c db server n m s (root (combine c) t)

  -- The proof for the leaf `k` of a tree.
  abbrev pub proof_of : Tree Hash → Hash → ℕ → MerkleProof Hash
  proof_of t h k = record {
    source = h;
    root = root (combine c) t;
    assist = siblings (combine c) (turns 32 k) t;
    index = node_at 32 k;
  }

  abbrev StoredAt : db.State → Tree Hash → ℕ → ℕ → MerkleRecord → Type 0
  StoredAt = Stored (combine c) (record_node c) (fetch c db server n m)

  -- `get_leaf_and_proof` returns the leaf's record, as it is fetched, and the leaf's proof.
  pub get_leaf_fetched :
      (k : ℕ) (t : Tree Hash) (h : Hash) (s : db.State)
      → k < 2 ^ 32
      → subtree (turns 32 k) t ≡ some (leaf h)
      → Holds s t
      → (a : MerkleRecord) × (get_leaf_and_proof c db (plain c db n m) (node_at 32 k) s
          ≡ (ok (a, proof_of t h k), s))
        × (a.hash ≡ h)
        × (fetch c db server n m (node_at 32 k) h s ≡ (ok a, s))
  unfolding get_leaf_and_proof
  get_leaf_fetched k t h s inside el held =
      let (a, er, ef, eh) = held.current in
      let (b, f, st) = held.tree in
      let same : b ≡ a = fetched_once (sym f ∙ ef) in
      let st' : StoredAt s t 0 0 a = subst (StoredAt s t 0 0) same st in
      let level : 0 + length (turns 32 k) ≤ 62 = omega (arith, length-turns 32 k) in
      let (x, walked, fetched, at_end) =
        descend_lem (combine c) (record_node c) (fetch c db server n m) (turns 32 k) t (leaf h) 0 0
          a s el level (omega arith) ef st' in
      let walked' = rw (way_down-turns 32 k inside) at walked in
      (
        x,
        rw (leaf_check-leaf 32 k (omega arith) inside, get_path-leaf 32 k (omega arith) inside)
            (rw er (rw walked' (rw (at_end, eh)))),
        at_end,
        subst₂ (λ d q. fetch c db server n m (node_at d q) h s ≡ (ok x, s))
            (let size : 0 + length (turns 32 k) ≡ 32 = omega (arith, length-turns 32 k) in size)
            (end_of-turns 32 k inside) fetched,
      )

  -- With a server that keeps its laws: in a state that holds a tree with the leaf `k` of the 2 ^
  -- 32, `get_leaf_and_proof` returns a record with the leaf's hash, and a proof with the tree's
  -- root and the siblings' hashes from the top, and changes nothing.
  pub get_leaf_and_proof_lem :
      (k : ℕ) (t : Tree Hash) (h : Hash) (s : db.State)
      → k < 2 ^ 32
      → subtree (turns 32 k) t ≡ some (leaf h)
      → Holds s t
      → (a : MerkleRecord) × (get_leaf_and_proof c db (plain c db n m) (node_at 32 k) s
          ≡ (ok (a, proof_of t h k), s))
        × (a.hash ≡ h)
  get_leaf_and_proof_lem k t h s inside el held =
      let (a, got, eh, _) = get_leaf_fetched k t h s inside el held in (a, got, eh)

  -- At an index that is no leaf at height 32, `get_leaf_and_proof` returns the error
  -- `invalid_leaf_index` with that index and changes nothing.
  pub get_leaf_and_proof_rejects :
      (i : ℕ) (s : db.State)
      → get_node_type i 32 ≢ node_leaf
      → get_leaf_and_proof c db (plain c db n m) i s
        ≡ (err (merkle (error_at i invalid_leaf_index)), s)
  unfolding get_leaf_and_proof
  get_leaf_and_proof_rejects i s no_leaf = rw (leaf_check_rejects i 32 no_leaf)

  module _ (laws : CryptoLaws c) (free : CollisionFree c) where
    -- The record of a leaf is canonical.
    pub leaf_record_Canonical :
        (k : ℕ) (h : Hash) → k < 2 ^ 32 → Canonical c (new_leaf (node_at 32 k) h)
    leaf_record_Canonical k h inside = record {
      u64 = omega arith;
      no_data = refl;
      inner = λ above. absurd (omega arith);
      leaf = λ below. (refl, refl);
    }

    -- What the write of a leaf leaves, by a call for it.
    pub record LeafStored (s : db.State) (t : Tree Hash) (k : ℕ) (h : Hash)
        (call : Action (Failure c db) db.State (MerkleProof Hash)) : Type 0 where
      pub after : db.State
      pub returns : call s ≡ (ok (proof_of t h k), after)
      pub holds : Holds after (replace (turns 32 k) t (leaf h))
      pub extends : Extends (combine c) (record_node c) (fetch c db server n m) s after
      pub elsewhere : Elsewhere server n s after

    -- Of the state, the write needs that it is valid and that the tree can be fetched; its current
    -- root may be another.
    pub write_leaf_lem :
        (k : ℕ) (t : Tree Hash) (old h : Hash) (s : db.State)
        → k < 2 ^ 32
        → subtree (turns 32 k) t ≡ some (leaf old)
        → IsField c h
        → Good c db server n m s
        → Valid (combine c) (IsField c) t
        → Held (combine c) (record_node c) (fetch c db server n m) s t 0 0
        → LeafStored s t k h
            (write_leaf c db (plain c db n m) (new_leaf (node_at 32 k) h) (proof_of t old k))
    unfolding write_leaf
    write_leaf_lem k t old h s inside el field good fields readable =
        let w = new_leaf (node_at 32 k) h in
        let ins =
          insert_merkle_record_lem c db server n m laws free s w good
            (leaf_record_Canonical k h inside) in
        let extends =
          Covers-Extends c db server n m laws free s ins.after good ins.valid ins.covers in
        let tree =
          Held_mono (combine c) (record_node c) (fetch c db server n m) t 0 0 extends readable in
        let found = fetch-held c db server n m laws free ins.after w ins.valid ins.inside in
        let climbed =
          climb_lem (combine c) (record_node c) (fetch c db server n m) (hash_children c)
            (store_parent c db (plain c db n m)) (IsField c) (GoodSince c db server n m laws free s)
            (IsRoot c db server n m) 32 (omega arith)
            (λ x y fx fy. hash_children_lem c laws x y fx fy)
            (λ d q x y s' hd hq v fx fy.
              store_parent_lem c db server n m laws free s d q x y s' hd hq v fx fy)
            32 k t (leaf old) (leaf h) [] (siblings (combine c) (turns 32 k) t) ins.after
            (omega arith) inside el (sym (append-nil _)) fields field (ins.valid, ins.elsewhere)
            tree (w, found, refl) (λ z. absurd (omega arith)) in
        record {
          after = climbed.after;
          returns =
              rw (get_offset-node_at 32 k (omega arith) inside)
                (rw ins.returns (rw climbed.returns));
          holds = record {
            valid = climbed.keeps.0;
            fields = Valid-replace (combine c) (IsField c) (turns 32 k) t (leaf h) fields field;
            tree = climbed.held;
            current = climbed.current;
          };
          extends = λ j g a e. climbed.extends j g a (extends j g a e);
          elsewhere = climbed.keeps.1;
        }

    -- What `set_leaf_and_get_proof` leaves.
    abbrev pub LeafSet : db.State → Tree Hash → ℕ → Hash → Type 0
    LeafSet s t k h =
        LeafStored s t k h
          (set_leaf_and_get_proof c db (plain c db n m) (new_leaf (node_at 32 k) h))

    -- With a server that keeps its laws, a field and a Merkle hash without collisions: in a state
    -- that holds a tree with the leaf `k` of the 2 ^ 32, setting it to a field element succeeds.
    -- It leaves a state that holds the tree with the leaf replaced and where all that could be
    -- fetched still can; other collections stay as they are, and the proof has the root of before
    -- the write.
    pub set_leaf_and_get_proof_lem :
        (k : ℕ) (t : Tree Hash) (old h : Hash) (s : db.State)
        → k < 2 ^ 32
        → subtree (turns 32 k) t ≡ some (leaf old)
        → IsField c h
        → Holds s t
        → LeafSet s t k h
    unfolding set_leaf_and_get_proof
    set_leaf_and_get_proof_lem k t old h s inside el field held =
        let (a, got, _) = get_leaf_and_proof_lem k t old s inside el held in
        let stored = write_leaf_lem k t old h s inside el field held.valid held.fields held.tree in
        record {
          after = stored.after;
          returns = rw got stored.returns;
          holds = stored.holds;
          extends = stored.extends;
          elsewhere = stored.elsewhere;
        }
