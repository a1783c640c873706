-- ===== src/Service/Faults/Tables.antt =====
-- Every merkle collection of the database at once.
use mathlib.Core.Path.{subst}
use text.Mathlib.Text.{◌==◌ as str_eq}
use text.Mathlib.TextEquality.{eq_iff}
use zkc_state.Prelude.{
  ℕ, ◌^◌, ◌<◌, ◌≡◌, ◌⊎◌, sym, ◌∙◌, refl, inl, inr, true, none, String, Bool-cases, Option-cases,
}
use zkc_state.Outcome.{ok, panic, ok-injective}
use zkc_state.Hash.{Hash}
use zkc_state.Crypto.{Crypto, CryptoLaws, CollisionFree}
use zkc_state.Merkle.Bounds.{node_at}
use zkc_state.Kvpair.Hash.{hash_children}
use zkc_state.Kvpair.Record.{MerkleRecord, new_non_leaf}
use zkc_state.Kvpair.Combine.{IsField}
use zkc_state.Service.Mongo.{Mongo}
use zkc_state.Service.Collection.{insert_merkle_record, update_root_merkle_record}
use zkc_state.Service.Laws.{MongoLaws, Elsewhere}
use zkc_state.Service.Invariant.{Canonical}
use zkc_state.Service.Fetch.{plain}
use zkc_state.Service.Insert.{Good, Kept, insert_merkle_record_lem, update_root_merkle_record_lem}
use zkc_state.Service.Parent.{parent_of, parent_of-Canonical, new_non_leaf_lem}
use zkc_state.Service.Isolation.{Good-Agree}

module _ (c : Crypto) (db : Mongo) (server : MongoLaws db) (laws : CryptoLaws c)
    (free : CollisionFree c) where
  -- Every collection is one that the service has written.
  abbrev pub AllGood : db.State → Type 0
  AllGood s = (n m : String) → Good c db server n m s

  -- A change of one collection that leaves it valid leaves all of them valid.
  AllGood-change :
      (n : String) (s s' : db.State)
      → AllGood s
      → ((m : String) → Good c db server n m s')
      → Elsewhere server n s s'
      → AllGood s'
  AllGood-change n s s' all good (away, _) k m = elim (Bool-cases (str_eq k n)) [
    | inl same ↦ subst (λ x. Good c db server x m s') (sym ((eq_iff k n).0 same)) (good m)
    | inr other ↦
        Good-Agree c db server laws free k m s s'
          (away k (λ same. let equal : str_eq k n ≡ true = (eq_iff k n).1 same in absurd (cc)))
          (all k m)
  ]

  -- The data collection beside a merkle collection does not matter.
  Good-beside : (n m k : String) (s : db.State) → Good c db server n m s → Good c db server n k s
  Good-beside n m k s good = record { canonical = good.canonical; backed = good.backed }

  pub AllGood-insert :
      (n m : String) (w : MerkleRecord) (s : db.State)
      → Canonical c w
      → AllGood s
      → (s' : db.State) × (insert_merkle_record c db (plain c db n m) w s ≡ (ok w, s'))
        × AllGood s'
        × Kept c db server n m s' w
  AllGood-insert n m w s cw all =
      let ins = insert_merkle_record_lem c db server n m laws free s w (all n m) cw in
      (
        ins.after,
        ins.returns,
        AllGood-change n s ins.after all (λ k. Good-beside n m k ins.after ins.valid) ins.elsewhere,
        ins.kept,
      )

  pub AllGood-root :
      (n m : String) (w : MerkleRecord) (s : db.State)
      → Canonical c w
      → w.index ≡ 0
      → Kept c db server n m s w
      → AllGood s
      → (s' : db.State) × (update_root_merkle_record c db (plain c db n m) w s ≡ (ok w, s'))
        × AllGood s'
  AllGood-root n m w s cw ez kept all =
      let up = update_root_merkle_record_lem c db server n m s w (all n m) cw ez kept in
      (
        up.after,
        up.returns,
        AllGood-change n s up.after all (λ k. Good-beside n m k up.after up.valid) up.elsewhere,
      )

  -- Data records are in no merkle collection.
  pub AllGood-data :
      (s s' : db.State)
      → ((k : String)
          → (server.documents k s' ≡ server.documents k s)
            × (server.current k s' ≡ server.current k s))
      → AllGood s
      → AllGood s'
  AllGood-data s s' same all n m = Good-Agree c db server laws free n m s s' (same n) (all n m)

  field_or_none : (h : Hash) → (c.from_repr h.bytes ≡ none) ⊎ IsField c h
  field_or_none h = Option-cases (c.from_repr h.bytes)

  hash_children-none :
      {E : Type 0} (l r : Hash)
      → (c.from_repr l.bytes ≡ none) ⊎ (c.from_repr r.bytes ≡ none)
      → hash_children c {E = E} l r ≡ panic
  unfolding hash_children
  hash_children-none l r (inl e) = rw e refl
  hash_children-none l r (inr e) = elim (field_or_none l) [
    | inl none_left ↦ rw none_left refl
    | inr (x, ex) ↦ rw (ex, e) refl
  ]

  -- A parent that can be built has field elements for children.
  new_non_leaf_fields :
      {E : Type 0} (i : ℕ) (l r : Hash) (w : MerkleRecord)
      → new_non_leaf c {E = E} i l r ≡ ok w
      → IsField c l × IsField c r
  unfolding new_non_leaf
  new_non_leaf_fields {E} i l r w e = elim (field_or_none l) [
    | inl bad ↦ let e' = rw (hash_children-none {E = E} l r (inl bad)) at e in absurd (cc)
    | inr fl ↦ elim (field_or_none r) [
      | inl bad ↦ let e' = rw (hash_children-none {E = E} l r (inr bad)) at e in absurd (cc)
      | inr fr ↦ (fl, fr)
    ]
  ]

  -- What is known of a parent that was built.
  pub new_non_leaf-Canonical :
      {E : Type 0} (d q : ℕ) (l r : Hash) (w : MerkleRecord)
      → d < 32
      → q < 2 ^ d
      → new_non_leaf c {E = E} (node_at d q) l r ≡ ok w
      → Canonical c w × (w.index ≡ node_at d q)
  new_non_leaf-Canonical {E} d q l r w hd hq e =
      let (fl, fr) = new_non_leaf_fields (node_at d q) l r w e in
      let w' = parent_of c db server "" "" (node_at d q) l r in
      let same : w' ≡ w =
        ok-injective (
          sym (new_non_leaf_lem c db server "" "" laws free {E = E} (node_at d q) l r fl fr) ∙ e) in
      subst (λ x. Canonical c x × (x.index ≡ node_at d q)) same
        (parent_of-Canonical c db server "" "" laws free d q l r hd hq fl fr, refl)
