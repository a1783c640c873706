-- ===== src/Service/Faults/Prefix.antt =====
-- A client that sets leaves one after the other (Service/Writes.antt), against a server that can fail.
use mathlib.Core.Path.{subst}
use zkc_state.Prelude.{ℕ, ◌≡◌, ◌⊎◌, ap, refl, inl, inr, [], ◌∷◌, ◌++◌, String}
use zkc_state.Outcome.{Outcome, ok, err}
use zkc_state.Hash.{Hash}
use zkc_state.Crypto.{Crypto, CryptoLaws, CollisionFree}
use zkc_state.Merkle.Map.{tree_of, subtree-tree_of_leaf, replace-tree_of}
use zkc_state.Service.Mongo.{Mongo}
use zkc_state.Service.Collection.{Failure}
use zkc_state.Service.Laws.{MongoLaws}
use zkc_state.Service.Fetch.{plain}
use zkc_state.Service.Leaf.{Holds}
use zkc_state.Service.Writes.{Writes, contents, set_leaves, AreWrites}
use zkc_state.Service.Faults.{Fault, faulty}
use zkc_state.Service.Faults.Atomic.{set_leaf_atomic}

module _ (c : Crypto) (db : Mongo) (server : MongoLaws db) (laws : CryptoLaws c)
    (free : CollisionFree c) (n m : String) (fault : ℕ → Fault db.MongoError) where
  abbrev down : Mongo
  down = faulty db fault

  abbrev HoldsIn : db.State → (ℕ → Hash) → Type 0
  HoldsIn s f = Holds c db server n m s (tree_of 32 0 f)

  -- How a call for some writes ends: with all of them done, or with an error after some of them.
  abbrev pub PrefixDone :
      Writes → (ℕ → Hash) → Outcome (Failure c db) (Unit {0}) × (db.State × ℕ) → Type 0
  PrefixDone ws f out =
      ((s : db.State) × (calls : ℕ) × (out ≡ (ok tt, (s, calls))) × HoldsIn s (contents ws f))
      ⊎ ((e : Failure c db) × (s : db.State) × (calls : ℕ) × (done undone : Writes) × (out
            ≡ (err e, (s, calls)))
          × (ws ≡ undone ++ done)
          × HoldsIn s (contents done f))

  -- With a server that keeps its laws, but of whose calls each may fail, before or after it takes
  -- effect, a field and a Merkle hash without collisions: from a state that holds the tree of a
  -- function from leaves to hashes, a client that sets leaves to field elements one after the
  -- other, until an error, succeeds and the state holds the tree of the function after all the
  -- writes, or it gets an error and the state holds the tree after the writes up to some point.
  pub set_leaves_prefix :
      (ws : Writes) (f : ℕ → Hash) (s : db.State) (calls : ℕ)
      → AreWrites c ws
      → HoldsIn s f
      → PrefixDone ws f (set_leaves c down (plain c down n m) ws (s, calls))
  unfolding set_leaves
  set_leaves_prefix [] f s calls valid held = inl (s, calls, refl, held)
  set_leaves_prefix ((k, h) ∷ ws) f s calls (inside, field, valid) held =
      let now = contents ws f in
      elim (set_leaves_prefix ws f s calls valid held) [
        | inr (e, s', calls', done, undone, failed, split, held') ↦ inr (
          e,
          s',
          calls',
          done,
          (k, h) ∷ undone,
          rw failed refl,
          ap (λ x. (k, h) ∷ x) split,
          held',
        )
        | inl (s1, calls1, before, held1) ↦
            elim (set_leaf_atomic c db server laws free n m fault k calls1 (tree_of 32 0 now)
              (now k) h s1 inside (subtree-tree_of_leaf 32 k now inside) field held1) [
                | inl (s', calls', e, held') ↦ inl (
                  s',
                  calls',
                  rw before (rw e refl),
                  subst (Holds c db server n m s') (replace-tree_of 32 k now h inside) held',
                )
                | inr (x, s', calls', e, inl old) ↦
                    inr (x, s', calls', ws, (k, h) ∷ [], rw before (rw e refl), refl, old)
                | inr (x, s', calls', e, inr new) ↦ inr (
                  x,
                  s',
                  calls',
                  (k, h) ∷ ws,
                  [],
                  rw before (rw e refl),
                  refl,
                  subst (Holds c db server n m s') (replace-tree_of 32 k now h inside) new,
                )
              ]
      ]
