-- ===== src/Service/Isolation.antt =====
-- What a call for one collection leaves of the trees that other collections hold.
use mathlib.Core.Path.{subst}
use zkc_state.Prelude.{
  ℕ, ◌≡◌, ◌≢◌, inl, inr, refl, ap, sym, ◌∙◌, Option, some, none, String, ◌^◌, ◌<◌,
}
use zkc_state.Outcome.{Outcome, ok, err, panic}
use zkc_state.Merkle.Error.{MerkleError}
use zkc_state.Hash.{Hash}
use zkc_state.Crypto.{Crypto, CryptoLaws, CollisionFree}
use zkc_state.Merkle.Bounds.{node_at}
use zkc_state.Merkle.Spec.{Tree, leaf, turns, root, subtree, replace}
use zkc_state.Merkle.Climb.{Held_mono}
use zkc_state.Kvpair.Record.{MerkleRecord, record_node, new_leaf, get_default_record}
use zkc_state.Kvpair.Combine.{IsField, combine}
use zkc_state.Service.Mongo.{Mongo, by_id}
use zkc_state.Service.Collection.{
  Failure, get_current_root_object_id, must_get_root_merkle_record, set_leaf_and_get_proof,
}
use zkc_state.Service.Laws.{IsIn, MongoLaws}
use zkc_state.Service.Fetch.{plain, held, fetch}
use zkc_state.Service.Insert.{Good}
use zkc_state.Service.Parent.{Covers-Extends}
use zkc_state.Service.Leaf.{Holds, proof_of, set_leaf_and_get_proof_lem}

module _ (c : Crypto) (db : Mongo) (server : MongoLaws db) (laws : CryptoLaws c)
    (free : CollisionFree c) where
  -- Two states with the same collection `k`.
  abbrev pub Agree : String → db.State → db.State → Type 0
  Agree k s s' =
      (server.documents k s' ≡ server.documents k s) × (server.current k s' ≡ server.current k s)

  default_result : Outcome MerkleError MerkleRecord → Outcome (Failure c db) MerkleRecord
  default_result (ok a) = ok a
  default_result (err e) = panic
  default_result panic = panic

  -- The current root: the document under its id, or the default.
  root_result : Option MerkleRecord → Outcome (Failure c db) MerkleRecord
  root_result (some r) = ok r
  root_result none = default_result (get_default_record c 0)

  root_read_as :
      (k m : String) (s : db.State) (found : Option MerkleRecord)
      (default : Outcome MerkleError MerkleRecord)
      → get_default_record c 0 ≡ default
      → db.find_one_merkle none k (by_id get_current_root_object_id) s ≡ (ok found, s)
      → must_get_root_merkle_record c db (plain c db k m) s ≡ (root_result found, s)
  unfolding must_get_root_merkle_record root_result default_result
  root_read_as k m s (some r) default ed e = rw e refl
  root_read_as k m s none (ok a) ed e = rw e (rw ed refl)
  root_read_as k m s none (err x) ed e = rw e (rw ed refl)
  root_read_as k m s none panic ed e = rw e (rw ed refl)

  root_read :
      (k m : String) (s : db.State)
      → must_get_root_merkle_record c db (plain c db k m) s ≡ (root_result (server.current k s), s)
  root_read k m s =
      root_read_as k m s (server.current k s) (get_default_record c 0) refl
        (server.find_current k s)

  -- The current root is read alike in two states with the same document for it.
  pub root_agree :
      (k m : String) (s s' : db.State)
      → server.current k s' ≡ server.current k s
      → (a : MerkleRecord) → must_get_root_merkle_record c db (plain c db k m) s ≡ (ok a, s)
      → must_get_root_merkle_record c db (plain c db k m) s' ≡ (ok a, s')
  root_agree k m s s' same a e =
      let before = root_read k m s in
      let value : root_result (server.current k s) ≡ ok a = cc in
      root_read k m s' ∙ ap (λ o. (root_result o, s')) same ∙ ap (λ x. (x, s')) value

  module _ (k m : String) (s s' : db.State) (same : Agree k s s') where
    held_agree : held c db server k m s' ≡ held c db server k m s
    held_agree = rw (same.0, same.1) refl

    pub Good-Agree : Good c db server k m s → Good c db server k m s'
    Good-Agree good = record {
      canonical = λ r inside. good.canonical r (subst (IsIn r) held_agree inside);
      backed = λ r at_root.
          let (zero_index, kept) = good.backed r (sym same.1 ∙ at_root) in
          (
            zero_index,
            elim kept [
              | inl document ↦ inl (subst (IsIn r) (sym same.0) document)
              | inr default ↦ inr default
            ],
          );
    }

  -- A collection that stays as it is holds the tree that it held.
  pub Holds-Agree :
      (k m : String) (t : Tree Hash) (s s' : db.State)
      → Agree k s s'
      → Holds c db server k m s t
      → Holds c db server k m s' t
  Holds-Agree k m t s s' same held =
      let valid = Good-Agree k m s s' same held.valid in
      let extends =
        Covers-Extends c db server k m laws free s s' held.valid valid
          (λ r inside. inl (subst (IsIn r) (sym (held_agree k m s s' same)) inside)) in
      let (a, er, ef, eh) = held.current in
      record {
        valid = valid;
        fields = held.fields;
        tree =
            Held_mono (combine c) (record_node c) (fetch c db server k m) t 0 0 extends held.tree;
        current = (a, root_agree k m s s' same.1 a er, extends 0 (root (combine c) t) a ef, eh);
      }

  -- With a server that keeps its laws, a field and a Merkle hash without collisions: in a state
  -- where two merkle collections with different names hold a tree each, setting a leaf of the one
  -- to a field element changes its tree there, and the other still holds its own.
  pub set_leaf_isolated :
      (n k m m' : String) (j : ℕ) (t u : Tree Hash) (old h : Hash) (s : db.State)
      → k ≢ n
      → j < 2 ^ 32
      → subtree (turns 32 j) t ≡ some (leaf old)
      → IsField c h
      → Holds c db server n m s t
      → Holds c db server k m' s u
      → (s' : db.State) × (set_leaf_and_get_proof c db
            (plain c db n m)
            (new_leaf (node_at 32 j) h)
            s
          ≡ (ok (proof_of c db server n m t h j), s'))
        × Holds c db server n m s' (replace (turns 32 j) t (leaf h))
        × Holds c db server k m' s' u
  set_leaf_isolated n k m m' j t u old h s other inside el field held beside =
      let set =
        set_leaf_and_get_proof_lem c db server n m laws free j t old h s inside el field held in
      (
        set.after,
        set.returns,
        set.holds,
        Holds-Agree k m' u s set.after (set.elsewhere.0 k other) beside,
      )
