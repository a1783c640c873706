-- ===== src/Service/Parent.antt =====
-- Writing one parent on the way up (the loop of `set_leaf_and_get_proof`).
use zkc_state.Prelude.{
  ℕ, zero, suc, ◌^◌, ◌<◌, ◌≡◌, refl, inl, some, String, arith, ◌==◌, false, ≢→==,
}
use mathlib.Core.Path.{subst}
use zkc_state.Prelude.Words.{two_pow-suc, one-le-two_pow, two_pow_mono}
use zkc_state.Outcome.{ok}
use zkc_state.Hash.{Hash, hash_eq_refl, zeros32}
use zkc_state.Crypto.{Crypto, CryptoLaws, CollisionFree}
use zkc_state.Merkle.Bounds.{node_at}
use zkc_state.Merkle.Climb.{Extends}
use zkc_state.Merkle.Update.{Written}
use zkc_state.Kvpair.Hash.{hash_children}
use zkc_state.Kvpair.Record.{MerkleRecord, new_non_leaf, record_node}
use zkc_state.Kvpair.Combine.{IsField, combine, hash_children_lem}
use zkc_state.Service.Mongo.{Mongo}
use zkc_state.Service.Collection.{store_parent, must_get_root_merkle_record, Failure}
use zkc_state.Service.Laws.{IsIn, MongoLaws, Elsewhere, Elsewhere-trans}
use zkc_state.Service.Invariant.{Canonical}
use zkc_state.Service.Fetch.{plain, held, fetch, Covers, fetch-IsSource, fetch_keeps}
use zkc_state.Service.Insert.{Good, insert_merkle_record_lem, update_root_merkle_record_lem}

module _ (c : Crypto) (db : Mongo) (server : MongoLaws db) (n m : String) where
  -- The current root can be read, has the hash, and is what its index and hash fetch.
  abbrev pub IsRoot : db.State → Hash → Type 0
  IsRoot s h =
      (a : MerkleRecord) × (must_get_root_merkle_record c db (plain c db n m) s ≡ (ok a, s))
      × (fetch c db server n m 0 h s ≡ (ok a, s))
      × (a.hash ≡ h)

  abbrev pub parent_of : ℕ → Hash → Hash → MerkleRecord
  parent_of i l r = record { index = i; hash = combine c l r; left = l; right = r; bytes = zeros32 }

  module _ (laws : CryptoLaws c) (free : CollisionFree c) where
    pub new_non_leaf_lem :
        {E : Type 0} (i : ℕ) (l r : Hash)
        → IsField c l
        → IsField c r
        → new_non_leaf c {E = E} i l r ≡ ok (parent_of i l r)
    unfolding new_non_leaf
    new_non_leaf_lem {E} i l r fl fr = rw ((hash_children_lem c laws {E = E} l r fl fr).0)

    pub parent_of-Canonical :
        (d q : ℕ) (l r : Hash)
        → d < 32
        → q < 2 ^ d
        → IsField c l
        → IsField c r
        → Canonical c (parent_of (node_at d q) l r)
    parent_of-Canonical d q l r h inside fl fr = record {
      u64 = omega (arith, two_pow_mono d 32 (omega arith), one-le-two_pow d);
      no_data = refl;
      inner = λ _. (fl, fr, refl);
      leaf = λ below.
          absurd (omega (arith, two_pow_mono (suc d) 32 h, one-le-two_pow d, two_pow-suc d));
    }

    -- Whatever a state fetches, a valid state that covers it fetches.
    pub Covers-Extends :
        (s s' : db.State)
        → Good c db server n m s
        → Good c db server n m s'
        → Covers c db server n m s s'
        → Extends (combine c) (record_node c) (fetch c db server n m) s s'
    Covers-Extends s s' v v' covers i h a e =
        fetch_keeps c db server n m laws free s s' v v' covers i h a
          (fetch-IsSource c db server n m i h a s e)

    -- A record that is held is fetched by its index and hash.
    pub fetch-held :
        (s : db.State) (a : MerkleRecord)
        → Good c db server n m s
        → IsIn a (held c db server n m s)
        → fetch c db server n m a.index a.hash s ≡ (ok a, s)
    fetch-held s a v inside =
        fetch_keeps c db server n m laws free s s v v (λ r h. inl h) a.index a.hash a
          (inl (inside, refl, refl))

    -- The root record that was stored is the one that is read.
    pub root_after :
        (s : db.State) (a : MerkleRecord)
        → server.current n s ≡ some a
        → must_get_root_merkle_record c db (plain c db n m) s ≡ (ok a, s)
    unfolding must_get_root_merkle_record
    root_after s a e = rw (server.find_current n s, e)

    -- A valid state that differs from an earlier one in the one merkle collection only.
    abbrev pub GoodSince : db.State → db.State → Type 0
    GoodSince origin s = Good c db server n m s × Elsewhere server n origin s

    abbrev pub WrittenBy : db.State → db.State → ℕ → ℕ → Hash → Hash → Type 0
    WrittenBy origin =
        Written (combine c) (record_node c) (fetch c db server n m) (hash_children c)
          (store_parent c db (plain c db n m)) (IsField c) (GoodSince origin) IsRoot

    store_below_root :
        (origin : db.State) (d q : ℕ) (l r : Hash) (s : db.State)
        → suc d < 32
        → q < 2 ^ suc d
        → GoodSince origin s
        → IsField c l
        → IsField c r
        → WrittenBy origin s (suc d) q l r
    unfolding store_parent
    store_below_root origin d q l r s h inside (v, away) fl fr =
        let i = node_at (suc d) q in
        let w = parent_of i l r in
        let ins =
          insert_merkle_record_lem c db server n m laws free s w v
            (parent_of-Canonical (suc d) q l r h inside fl fr) in
        let not_root : (i == 0) ≡ false =
          ≢→== i 0 (omega (arith, two_pow-suc d, one-le-two_pow d)) in
        record {
          after = ins.after;
          record_of = w;
          returns =
              rw (new_non_leaf_lem {E = Failure c db} i l r fl fr)
                (rw (hash_eq_refl (combine c l r)) (rw ins.returns (rw not_root)));
          keeps = (ins.valid, Elsewhere-trans server n origin s ins.after away ins.elsewhere);
          extends = Covers-Extends s ins.after v ins.valid ins.covers;
          found = fetch-held ins.after w ins.valid ins.inside;
          hash = refl;
          left = refl;
          right = refl;
          current = λ z. absurd (omega arith);
        }

    store_root :
        (origin : db.State) (l r : Hash) (s : db.State)
        → GoodSince origin s
        → IsField c l
        → IsField c r
        → WrittenBy origin s 0 0 l r
    unfolding store_parent
    store_root origin l r s (v, away) fl fr =
        let w = parent_of 0 l r in
        let cw = parent_of-Canonical 0 0 l r (omega arith) (omega arith) fl fr in
        let ins = insert_merkle_record_lem c db server n m laws free s w v cw in
        let up =
          update_root_merkle_record_lem c db server n m ins.after w ins.valid cw refl ins.kept in
        let found = fetch-held up.after w up.valid up.inside in
        record {
          after = up.after;
          record_of = w;
          returns =
              rw (new_non_leaf_lem {E = Failure c db} 0 l r fl fr)
                (rw (hash_eq_refl (combine c l r)) (rw ins.returns (rw up.returns)));
          keeps = (
            up.valid,
            Elsewhere-trans server n origin ins.after up.after
                (Elsewhere-trans server n origin s ins.after away ins.elsewhere) up.elsewhere,
          );
          extends = λ j h a e.
              Covers-Extends ins.after up.after ins.valid up.valid up.covers j h a
                (Covers-Extends s ins.after v ins.valid ins.covers j h a e);
          found = found;
          hash = refl;
          left = refl;
          right = refl;
          current = λ z. (w, root_after up.after w up.at_root, found, refl);
        }

    -- With a server that keeps its laws, a field and a Merkle hash without collisions: in a valid
    -- state, writing a parent above the leaves whose children are field elements succeeds, keeps
    -- the state valid and what can be fetched, leaves other collections as they are, and at the
    -- top makes the parent the current root.
    pub store_parent_lem :
        (origin : db.State) (d q : ℕ) (l r : Hash) (s : db.State)
        → d < 32
        → q < 2 ^ d
        → GoodSince origin s
        → IsField c l
        → IsField c r
        → WrittenBy origin s d q l r
    store_parent_lem origin zero q l r s h inside v fl fr =
        let z : 0 ≡ q = omega arith in
        subst (λ x. WrittenBy origin s 0 x l r) z (store_root origin l r s v fl fr)
    store_parent_lem origin (suc d) q l r s h inside v fl fr =
        store_below_root origin d q l r s h inside v fl fr
