-- ===== src/Service/Faults/Upkeep.antt =====
-- The calls that write to one merkle collection, against a server that can fail.
use mathlib.Core.Path.{subst}
use zkc_state.Prelude.{
  ℕ, zero, suc, ◌+◌, ◌-◌, ◌^◌, ◌≤◌, ◌<◌, ◌≡◌, ◌≢◌, ◌⊎◌, ◌==◌, ◌/◌, ◌%◌, sym, ◌∙◌, refl, inl, inr,
  List, String, arith, Bool-cases, get_elem?, if◌then◌else◌,
}
use zkc_state.Prelude.Words.{two_pow-suc}
use zkc_state.Outcome.{Outcome, ok, err, ok-injective, assert, unwrap}
use zkc_state.Action.{pure}
use zkc_state.Hash.{Hash, hash_eq}
use zkc_state.Crypto.{Crypto, CryptoLaws, CollisionFree}
use zkc_state.Merkle.Bounds.{node_at, get_offset-node_at, get_node_type_lem}
use zkc_state.Merkle.Error.{invalid_leaf_index}
use zkc_state.Errors.{merkle}
use zkc_state.Merkle.Index.{
  NodeType, get_offset, get_node_type, node_leaf, node_non_leaf, node_invalid, node_unspecified,
  error_at,
}
use zkc_state.Merkle.Climb.{index_of_parent}
use zkc_state.Merkle.Node.{MerkleProof}
use zkc_state.Merkle.Walk.{climb}
use zkc_state.Kvpair.Hash.{hash_children}
use zkc_state.Kvpair.Record.{MerkleRecord, new_leaf, new_non_leaf}
use zkc_state.Service.Mongo.{Mongo}
use zkc_state.Service.Collection.{
  insert_merkle_record, update_root_merkle_record, store_parent, write_leaf, get_leaf_and_proof,
  set_leaf_and_get_proof, Failure,
}
use zkc_state.Service.Laws.{MongoLaws}
use zkc_state.Service.Invariant.{Canonical}
use zkc_state.Service.Fetch.{plain}
use zkc_state.Service.Insert.{Kept}
use zkc_state.Service.Leaf.{leaf_record_Canonical, get_leaf_and_proof_rejects}
use zkc_state.Service.Faults.{Fault, faulty}
use zkc_state.Service.Faults.Fetches.{Reads-get_leaf_and_proof}
use zkc_state.Service.Faults.Writes.{Runs-insert, Runs-update_root}
use zkc_state.Service.Faults.Keeps.{
  Left, Keeps, Any, Keeps-pure, Keeps-bind, Keeps-bind_at, Left-bind, Keeps-value, Left-Runs,
  Keeps-Reads,
}
use zkc_state.Service.Faults.Tables.{AllGood, AllGood-insert, AllGood-root, new_non_leaf-Canonical}

leaf_or_other : (kind : NodeType) → (kind ≡ node_leaf) ⊎ (kind ≢ node_leaf)
leaf_or_other node_leaf = inl refl
leaf_or_other node_non_leaf = inr λ h. cc
leaf_or_other node_invalid = inr λ h. cc
leaf_or_other node_unspecified = inr λ h. cc

module _ (c : Crypto) (db : Mongo) (server : MongoLaws db) (laws : CryptoLaws c)
    (free : CollisionFree c) (fault : ℕ → Fault db.MongoError) (n m : String) where
  abbrev AllValid : db.State → Type 0
  AllValid = AllGood c db server laws free

  abbrev down : Mongo
  down = faulty db fault

  pub Keeps-insert :
      (w : MerkleRecord)
      → Canonical c w
      → Keeps AllValid
          (λ a s. Kept c db server n m s w)
          (insert_merkle_record c down (plain c down n m) w)
  Keeps-insert w cw = record {
    at = λ s calls all.
        let (s', e, all', kept) = AllGood-insert c db server laws free n m w s cw all in
        Left-Runs AllValid (λ a t. Kept c db server n m t w) calls
          (Runs-insert c db server n m fault AllValid w s s' all all' e) all' (λ a _. kept);
  }

  pub Left-update_root :
      (w : MerkleRecord) (s : db.State) (calls : ℕ)
      → Canonical c w
      → w.index ≡ 0
      → Kept c db server n m s w
      → AllValid s
      → Left AllValid
          (Any AllValid)
          (update_root_merkle_record c down (plain c down n m) w (s, calls))
  Left-update_root w s calls cw ez kept all =
      let (s', e, all') = AllGood-root c db server laws free n m w s cw ez kept all in
      Left-Runs AllValid (Any AllValid) calls
        (Runs-update_root c db server n m fault AllValid w s s' all all' e) all' (λ a _. tt)

  Keeps-store_parent :
      (d q : ℕ) (hash l r : Hash)
      → d < 32
      → q < 2 ^ d
      → Keeps AllValid
          (Any AllValid)
          (store_parent c down (plain c down n m) (node_at d q) hash l r)
  unfolding store_parent
  Keeps-store_parent d q hash l r hd hq =
      Keeps-value AllValid (new_non_leaf c (node_at d q) l r) λ w ew.
        Keeps-value AllValid (assert (hash_eq w.hash hash)) λ _ _.
          let (cw, ei) =
            new_non_leaf-Canonical c db server laws free {E = Failure c down} d q l r w hd hq ew in
          Keeps-bind_at AllValid (insert_merkle_record c down (plain c down n m) w) _
            (Keeps-insert w cw)
            λ _ s calls kept all. elim (Bool-cases (node_at d q == 0)) [
              | inl top ↦ rw top (
                  Left-bind AllValid (Any AllValid) (Any AllValid)
                    (update_root_merkle_record c down (plain c down n m) w) (λ _. pure tt) s calls
                    (Left-update_root w s calls cw (ground arith) kept all)
                    λ _ t later _ all'. (tt, all'))
              | inr other ↦ rw other (tt, all)
            ]

  Keeps-climb :
      (assist : List Hash) (d k : ℕ) (h : Hash)
      → d ≤ 32
      → k < 2 ^ d
      → Keeps AllValid
          (Any AllValid)
          (climb (hash_children c) (store_parent c down (plain c down n m)) assist d k h)
  unfolding climb
  Keeps-climb assist zero k h hd hk = Keeps-pure AllValid (ok h)
  Keeps-climb assist (suc d) k h hd hk =
      let left = λ (x : Hash). if k % 2 == 1 then x else h in
      let right = λ (x : Hash). if k % 2 == 1 then h else x in
      Keeps-value AllValid (unwrap (get_elem? assist d)) λ x _.
        Keeps-value AllValid (hash_children c (left x) (right x)) λ hash _.
          rw (index_of_parent d k (omega arith) hk) (
            Keeps-bind AllValid
              (store_parent c down (plain c down n m) (node_at d (k / 2)) hash (left x) (right x)) _
              (Keeps-store_parent d (k / 2) hash (left x) (right x) hd
                (omega (arith, two_pow-suc d)))
              λ _. Keeps-climb assist d (k / 2) hash (omega arith) (omega (arith, two_pow-suc d)))

  Keeps-write_leaf :
      (k : ℕ) (h : Hash) (proof : MerkleProof Hash)
      → k < 2 ^ 32
      → Keeps AllValid
          (Any AllValid)
          (write_leaf c down (plain c down n m) (new_leaf (node_at 32 k) h) proof)
  unfolding write_leaf
  Keeps-write_leaf k h proof inside = Keeps-value AllValid (get_offset (node_at 32 k)) λ p ep.
      let same : k ≡ p = ok-injective (sym (get_offset-node_at 32 k (omega arith) inside) ∙ ep) in
      Keeps-bind AllValid
        (insert_merkle_record c down (plain c down n m) (new_leaf (node_at 32 k) h)) _
        (Keeps-insert (new_leaf (node_at 32 k) h)
          (leaf_record_Canonical c db server n m laws free k h inside))
        λ _.
          Keeps-bind AllValid
            (climb (hash_children c) (store_parent c down (plain c down n m)) proof.assist 32 p h) _
            (Keeps-climb proof.assist 32 p h (omega arith) (omega arith)) λ _. Keeps-pure AllValid _

  -- A leaf's proof is returned for a leaf's index only.
  Keeps-get_leaf_and_proof :
      (i : ℕ)
      → Keeps AllValid
          (λ a s. get_node_type i 32 ≡ node_leaf)
          (get_leaf_and_proof c down (plain c down n m) i)
  Keeps-get_leaf_and_proof i =
      Keeps-Reads AllValid
        (λ s all. Reads-get_leaf_and_proof c db server n m fault AllValid s all i)
        λ a s all e. elim (leaf_or_other (get_node_type i 32)) [
          | inl yes_leaf ↦ yes_leaf
          | inr other ↦
              let refused = get_leaf_and_proof_rejects c db server n m i s other in
              let clash : ◌≡◌
                  {A = Outcome (Failure c db) (MerkleRecord × MerkleProof Hash) × db.State}
                  (ok a, s) (err (merkle (error_at i invalid_leaf_index)), s) =
                sym e ∙ refused in
              absurd (cc)
        ]

  pub Keeps-set_leaf_and_get_proof :
      (i : ℕ) (h : Hash)
      → Keeps AllValid
          (Any AllValid)
          (set_leaf_and_get_proof c down (plain c down n m) (new_leaf i h))
  unfolding set_leaf_and_get_proof
  Keeps-set_leaf_and_get_proof i h =
      Keeps-bind_at AllValid (get_leaf_and_proof c down (plain c down n m) i) _
        (Keeps-get_leaf_and_proof i)
        λ found s calls is_leaf all.
          let (low, high) = (get_node_type_lem i 32 (omega arith)).1.0 is_leaf in
          let k = i + 1 - 2 ^ 32 in
          let at_leaf : node_at 32 k ≡ i = omega arith in
          subst
            (λ x.
              Left AllValid (Any AllValid)
                (write_leaf c down (plain c down n m) (new_leaf x h) found.1 (s, calls)))
            at_leaf ((Keeps-write_leaf k h found.1 (omega arith)).at s calls all)
