-- ===== src/Service/Rollback.antt =====
-- Making an earlier root the current one again: `must_get_merkle_record` and
-- `update_root_merkle_record`, as the handler `set_root` composes them.
use zkc_state.Prelude.{◌≡◌, inl, inr, arith, String}
use zkc_state.Outcome.{ok}
use zkc_state.Hash.{Hash}
use zkc_state.Crypto.{Crypto, CryptoLaws, CollisionFree}
use zkc_state.Merkle.Spec.{Tree, root}
use zkc_state.Merkle.Descend.{Held}
use zkc_state.Merkle.Climb.{Extends, Held_mono}
use zkc_state.Merkle.Valid.{Valid}
use zkc_state.Kvpair.Record.{MerkleRecord, record_node}
use zkc_state.Kvpair.Combine.{IsField, combine}
use zkc_state.Service.Mongo.{Mongo}
use zkc_state.Service.Collection.{update_root_merkle_record}
use zkc_state.Service.Laws.{MongoLaws, Elsewhere}
use zkc_state.Service.Fetch.{plain, fetch, fetch-IsSource, source-Canonical, IsSource}
use zkc_state.Service.Insert.{Good, Kept, update_root_merkle_record_lem, IsIn-with_current}
use zkc_state.Service.Parent.{Covers-Extends, root_after}
use zkc_state.Service.Leaf.{Holds}

module _ (c : Crypto) (db : Mongo) (server : MongoLaws db) (n m : String) (laws : CryptoLaws c)
    (free : CollisionFree c) where
  source-Kept :
      (s : db.State) (h : Hash) (a : MerkleRecord)
      → Good c db server n m s
      → IsSource c db server n m s 0 h a
      → Kept c db server n m s a
  source-Kept s h a good (inl (inside, ei, eh)) =
      elim (IsIn-with_current (server.current n s) (server.documents n s) a inside) [
        | inl at_root ↦ (good.backed a at_root).1
        | inr document ↦ inl document
      ]
  source-Kept s h a good (inr (_, ed, eh)) = inr ed

  -- With a server that keeps its laws, a field and a Merkle hash without collisions: in a valid
  -- state, a tree of field elements that can be fetched from its root, the current one or not, is
  -- the current one after its root record is fetched and made the current root. All that could be
  -- fetched still can, and other collections stay as they are.
  pub update_root-Holds :
      (t : Tree Hash) (s : db.State)
      → Good c db server n m s
      → Valid (combine c) (IsField c) t
      → Held (combine c) (record_node c) (fetch c db server n m) s t 0 0
      → (a : MerkleRecord) × (s' : db.State) × (fetch c db server n m 0 (root (combine c) t) s
          ≡ (ok a, s))
        × (a.hash ≡ root (combine c) t)
        × (update_root_merkle_record c db (plain c db n m) a s ≡ (ok a, s'))
        × Holds c db server n m s' t
        × Extends (combine c) (record_node c) (fetch c db server n m) s s'
        × Elsewhere server n s s'
  update_root-Holds t s good fields (a, f, st) =
      let source = fetch-IsSource c db server n m 0 (root (combine c) t) a s f in
      let (canonical, ez, eh) =
        source-Canonical c db server n m laws free s 0 (root (combine c) t) a good (omega arith)
          source in
      let up =
        update_root_merkle_record_lem c db server n m s a good canonical ez
          (source-Kept s (root (combine c) t) a good source) in
      let extends = Covers-Extends c db server n m laws free s up.after good up.valid up.covers in
      (
        a,
        up.after,
        f,
        eh,
        up.returns,
        record {
          valid = up.valid;
          fields = fields;
          tree =
              Held_mono (combine c) (record_node c) (fetch c db server n m) t 0 0 extends
                (a, f, st);
          current = (
            a,
            root_after c db server n m laws free up.after a up.at_root,
            extends 0 (root (combine c) t) a f,
            eh,
          );
        },
        extends,
        up.elsewhere,
      )
