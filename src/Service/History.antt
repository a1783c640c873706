-- ===== src/Service/History.antt =====
-- The states that writes and restored roots lead to, and the trees that were current on the way.
use mathlib.Core.Path.{subst}
use zkc_state.Prelude.{ℕ, ◌^◌, ◌<◌, ◌≡◌, inl, inr, sym, ◌∙◌, List, [], ◌∷◌, String, some}
use zkc_state.Outcome.{Outcome, ok}
use zkc_state.Hash.{Hash}
use zkc_state.Crypto.{Crypto, CryptoLaws, CollisionFree}
use zkc_state.Merkle.Bounds.{node_at}
use zkc_state.Merkle.Node.{MerkleProof}
use zkc_state.Merkle.Spec.{Tree, leaf, turns, root, subtree, replace}
use zkc_state.Merkle.Descend.{Held}
use zkc_state.Merkle.Climb.{Extends, Held_mono}
use zkc_state.Merkle.Valid.{Valid}
use zkc_state.Kvpair.Record.{MerkleRecord, new_leaf, record_node}
use zkc_state.Kvpair.Combine.{IsField, combine}
use zkc_state.Service.Mongo.{Mongo}
use zkc_state.Service.Collection.{
  set_leaf_and_get_proof, must_get_merkle_record, update_root_merkle_record,
}
use zkc_state.Service.Laws.{MongoLaws, IsIn}
use zkc_state.Service.Fetch.{plain, fetch}
use zkc_state.Service.Insert.{Good}
use zkc_state.Service.Leaf.{Holds, set_leaf_and_get_proof_lem}
use zkc_state.Service.Empty.{default_tree, empty_Holds, IsEmpty}
use zkc_state.Service.Rollback.{update_root-Holds}

same_run :
    {E A S : Type 0} {a b : A} {s t : S} {r : Outcome E A × S}
    → r ≡ (ok a, s)
    → r ≡ (ok b, t)
    → (a ≡ b) × (s ≡ t)
same_run p q = let e = sym p ∙ q in (cc, cc)

module _ (c : Crypto) (laws : CryptoLaws c) (db : Mongo) (server : MongoLaws db)
    (n m : String) where
  -- A state after calls that succeeded, with the trees that were current, the last one first.
  pub data History : db.State → List (Tree Hash) → Type 0 where
    opened :
        {s : db.State} → IsEmpty c laws db server n m s → History s (default_tree c laws 32 ∷ [])
    wrote :
        {s s' : db.State} {ts : List (Tree Hash)}
        → (t : Tree Hash) (k : ℕ) (old h : Hash) (proof : MerkleProof Hash) → History s (t ∷ ts)
        → k < 2 ^ 32
        → subtree (turns 32 k) t ≡ some (leaf old)
        → IsField c h
        → set_leaf_and_get_proof c db (plain c db n m) (new_leaf (node_at 32 k) h) s
          ≡ (ok proof, s')
        → History s' (replace (turns 32 k) t (leaf h) ∷ t ∷ ts)
    restored :
        {s s' : db.State} {ts : List (Tree Hash)}
        → (u : Tree Hash) (a : MerkleRecord) → History s ts
        → IsIn u ts
        → must_get_merkle_record c db (plain c db n m) 0 (root (combine c) u) s ≡ (ok a, s)
        → update_root_merkle_record c db (plain c db n m) a s ≡ (ok a, s')
        → History s' (u ∷ ts)

  -- A tree of field elements that can be fetched from its root.
  abbrev pub Readable : db.State → Tree Hash → Type 0
  Readable s t =
      Valid (combine c) (IsField c) t
      × Held (combine c) (record_node c) (fetch c db server n m) s t 0 0

  abbrev pub ReadableAll : db.State → List (Tree Hash) → Type 0
  ReadableAll s [] = Unit
  ReadableAll s (t ∷ ts) = Readable s t × ReadableAll s ts

  -- The last tree is current, and every tree is readable.
  abbrev pub Remembers : db.State → List (Tree Hash) → Type 0
  Remembers s [] = ⊥
  Remembers s (t ∷ ts) = Holds c db server n m s t × ReadableAll s ts

  Readable-mono :
      (s s' : db.State) (ts : List (Tree Hash))
      → Extends (combine c) (record_node c) (fetch c db server n m) s s'
      → ReadableAll s ts
      → ReadableAll s' ts
  Readable-mono s s' [] more all = tt
  Readable-mono s s' (t ∷ ts) more ((fields, held), all) = (
    (fields, Held_mono (combine c) (record_node c) (fetch c db server n m) t 0 0 more held),
    Readable-mono s s' ts more all,
  )

  Remembers-ReadableAll :
      (s : db.State) (ts : List (Tree Hash))
      → Remembers s ts
      → Good c db server n m s × ReadableAll s ts
  Remembers-ReadableAll s [] none_held = absurd none_held
  Remembers-ReadableAll s (t ∷ ts) (held, all) = (held.valid, ((held.fields, held.tree), all))

  Readable-one :
      (s : db.State) (ts : List (Tree Hash)) (u : Tree Hash)
      → IsIn u ts
      → ReadableAll s ts
      → Readable s u
  Readable-one s [] u inside all = absurd inside
  Readable-one s (t ∷ ts) u (inl e) all = subst (Readable s) (sym e) all.0
  Readable-one s (t ∷ ts) u (inr inside) all = Readable-one s ts u inside all.1

  module _ (free : CollisionFree c) where
    -- With a server that keeps its laws, a field and a Merkle hash without collisions: in every
    -- state that writes of field elements to leaves and restored roots, all of which succeeded,
    -- lead to from a collection without documents, the last tree is the current one and every tree
    -- that was current on the way can be fetched from its root.
    pub History-Remembers : {s : db.State} {ts : List (Tree Hash)} → History s ts → Remembers s ts
    History-Remembers {s} (opened empty) = (empty_Holds c laws db server n m s empty, tt)
    History-Remembers (wrote {s} {s'} {ts} t k old h proof past inside el field ran) =
        let (held, all) = History-Remembers past in
        let set =
          set_leaf_and_get_proof_lem c db server n m laws free k t old h s inside el field held in
        let (_, same) = same_run set.returns ran in
        subst (λ x. Remembers x (replace (turns 32 k) t (leaf h) ∷ t ∷ ts)) same
          (
            set.holds,
            Readable-mono s set.after (t ∷ ts) set.extends ((held.fields, held.tree), all),
          )
    History-Remembers (restored {s} {s'} {ts} u a past inside fetched ran) =
        let (good, all) = Remembers-ReadableAll s ts (History-Remembers past) in
        let (fields, held) = Readable-one s ts u inside all in
        let (b, after, f, eh, updated, holds, extends, _) =
          update_root-Holds c db server n m laws free u s good fields held in
        let (same, _) = same_run f fetched in
        let (_, ended) =
          same_run
            (subst (λ r. update_root_merkle_record c db (plain c db n m) r s ≡ (ok r, after)) same
              updated)
            ran in
        subst (λ x. Remembers x (u ∷ ts)) ended (holds, Readable-mono s after ts extends all)

    -- From every state of a history every leaf of the current tree can be set.
    pub history_writes :
        {s : db.State} {ts : List (Tree Hash)} (t : Tree Hash) (k : ℕ) (old h : Hash)
        → History s (t ∷ ts)
        → k < 2 ^ 32
        → subtree (turns 32 k) t ≡ some (leaf old)
        → IsField c h
        → (s' : db.State) × (proof : MerkleProof Hash) × (set_leaf_and_get_proof c db
              (plain c db n m)
              (new_leaf (node_at 32 k) h)
              s
            ≡ (ok proof, s'))
          × History s' (replace (turns 32 k) t (leaf h) ∷ t ∷ ts)
    history_writes {s} t k old h past inside el field =
        let (held, _) = History-Remembers past in
        let set =
          set_leaf_and_get_proof_lem c db server n m laws free k t old h s inside el field held in
        (set.after, _, set.returns, wrote t k old h _ past inside el field set.returns)

    -- With a server that keeps its laws, a field and a Merkle hash without collisions: from every
    -- state of such a history, for every tree that was current on the way, fetching its root's
    -- record and making it the current root succeeds, and leads to a state of the longer history
    -- that holds this tree.
    pub history_restores :
        {s : db.State} (ts : List (Tree Hash)) (u : Tree Hash)
        → History s ts
        → IsIn u ts
        → (s' : db.State) × (a : MerkleRecord) × (must_get_merkle_record c db
              (plain c db n m)
              0
              (root (combine c) u)
              s
            ≡ (ok a, s))
          × (update_root_merkle_record c db (plain c db n m) a s ≡ (ok a, s'))
          × Holds c db server n m s' u
          × History s' (u ∷ ts)
    history_restores {s} ts u past inside =
        let (good, all) = Remembers-ReadableAll s ts (History-Remembers past) in
        let (fields, held) = Readable-one s ts u inside all in
        let (a, after, f, eh, updated, holds, extends, _) =
          update_root-Holds c db server n m laws free u s good fields held in
        (after, a, f, updated, holds, restored u a past inside f updated)
