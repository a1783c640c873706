-- ===== src/Service/Faults/OnWay.antt =====
-- Writing a leaf and its parents against a server that can fail: the states on the way.
use mathlib.Core.Path.{subst}
use zkc_state.Prelude.{
  ℕ, zero, suc, ◌^◌, ◌<◌, ◌≡◌, ap, sym, ◌∙◌, refl, false, some, String, arith, ◌==◌, ≢→==,
  get_elem?,
}
use zkc_state.Prelude.Words.{two_pow_mono}
use zkc_state.Outcome.{ok}
use zkc_state.Action.{pure}
use zkc_state.Hash.{Hash, hash_eq_refl}
use zkc_state.Crypto.{Crypto, CryptoLaws, CollisionFree}
use zkc_state.Merkle.Bounds.{node_at, get_offset-node_at}
use zkc_state.Merkle.Spec.{Tree, leaf, turns, length-turns, siblings, subtree}
use zkc_state.Merkle.Node.{MerkleProof}
use zkc_state.Merkle.Walk.{climb}
use zkc_state.Merkle.Valid.{Valid, siblings-Valid}
use zkc_state.Merkle.Climb.{Extends}
use zkc_state.Kvpair.Hash.{hash_children}
use zkc_state.Kvpair.Record.{MerkleRecord, new_leaf, record_node}
use zkc_state.Kvpair.Combine.{IsField, combine, hash_children_lem}
use zkc_state.Service.Mongo.{Mongo}
use zkc_state.Service.Collection.{Failure, insert_merkle_record, store_parent, write_leaf}
use zkc_state.Service.Laws.{MongoLaws}
use zkc_state.Service.Fetch.{plain, fetch}
use zkc_state.Service.Insert.{Good, Kept, insert_merkle_record_lem, update_root_merkle_record_lem}
use zkc_state.Service.Parent.{parent_of, parent_of-Canonical, new_non_leaf_lem, Covers-Extends}
use zkc_state.Service.Leaf.{proof_of, leaf_record_Canonical}
use zkc_state.Service.Invariant.{Canonical}
use zkc_state.Service.Faults.{Fault, faulty}
use zkc_state.Service.Faults.Runs.{Runs, Runs-pure, Runs-bind, Runs-value, >>=-eq-ok}
use zkc_state.Service.Faults.Writes.{Runs-insert, Runs-store_inner, Runs-store_root}
use zkc_state.Service.Faults.Climbs.{Runs-climb, InnerRuns, RootRuns}

module _ (c : Crypto) (db : Mongo) (server : MongoLaws db) (laws : CryptoLaws c)
    (free : CollisionFree c) (n m : String) (origin : db.State) where
  -- A state on the way: records were added, and the current root is the one of before.
  pub record OnWay (s : db.State) : Type 0 where
    pub valid : Good c db server n m s
    pub extends : Extends (combine c) (record_node c) (fetch c db server n m) origin s
    pub same_root : server.current n s ≡ server.current n origin

  pub OnWay-insert :
      (w : MerkleRecord) (s : db.State)
      → OnWay s
      → Canonical c w
      → (s' : db.State) × OnWay s'
        × (insert_merkle_record c db (plain c db n m) w s ≡ (ok w, s'))
        × Kept c db server n m s' w
  OnWay-insert w s way cw =
      let ins = insert_merkle_record_lem c db server n m laws free s w way.valid cw in
      (
        ins.after,
        record {
          valid = ins.valid;
          extends = λ j h a e.
              Covers-Extends c db server n m laws free s ins.after way.valid ins.valid ins.covers j
                h a (way.extends j h a e);
          same_root = ins.same_root ∙ way.same_root;
        },
        ins.returns,
        ins.kept,
      )

  pub OnWay-origin : Good c db server n m origin → OnWay origin
  OnWay-origin good = record { valid = good; extends = λ j h a e. e; same_root = refl }

  module _ (fault : ℕ → Fault db.MongoError) (J : db.State → Type 0)
      (enough : (s : db.State) → OnWay s → J s) where
    abbrev down : Mongo
    down = faulty db fault

    inner_runs :
        InnerRuns J
          (combine c)
          (hash_children c)
          (store_parent c down (plain c down n m))
          (store_parent c db (plain c db n m))
          (IsField c)
          OnWay
          32
          (omega arith)
          (λ x y fx fy. hash_children_lem c laws x y fx fy)
    unfolding store_parent
    inner_runs d q l r s positive hd hq way fl fr =
        let i = node_at d q in
        let w = parent_of c db server n m i l r in
        let (s', way', inserted, _) =
          OnWay-insert w s way
            (parent_of-Canonical c db server n m laws free d q l r hd hq fl fr) in
        let inner : (i == 0) ≡ false = ≢→== i 0 (omega (arith, two_pow_mono 1 d positive)) in
        (
          s',
          way',
          rw (new_non_leaf_lem c db server n m laws free {E = Failure c db} i l r fl fr)
              (rw (hash_eq_refl (combine c l r)) (rw inserted (rw inner))),
          Runs-store_inner c db server n m fault J i (combine c l r) l r w s s' inner
              (new_non_leaf_lem c db server n m laws free {E = Failure c db} i l r fl fr)
              (hash_eq_refl (combine c l r)) (enough s way) (enough s' way') inserted,
        )

    top_runs :
        RootRuns J
          (combine c)
          (hash_children c)
          (store_parent c down (plain c down n m))
          (store_parent c db (plain c db n m))
          (IsField c)
          OnWay
          32
          (omega arith)
          (λ x y fx fy. hash_children_lem c laws x y fx fy)
    unfolding store_parent
    top_runs (suc q) l r s hq way fl fr = absurd (omega arith)
    top_runs zero l r s hq way fl fr =
        let w = parent_of c db server n m 0 l r in
        let cw = parent_of-Canonical c db server n m laws free 0 0 l r (omega arith) hq fl fr in
        let (s', way', inserted, kept) = OnWay-insert w s way cw in
        let up = update_root_merkle_record_lem c db server n m s' w way'.valid cw refl kept in
        (
          up.after,
          rw (new_non_leaf_lem c db server n m laws free {E = Failure c db} 0 l r fl fr)
              (rw (hash_eq_refl (combine c l r)) (rw inserted (rw up.returns))),
          λ at_end.
              Runs-store_root c db server n m fault J (combine c l r) l r w s s' up.after
                (new_non_leaf_lem c db server n m laws free {E = Failure c db} 0 l r fl fr)
                (hash_eq_refl (combine c l r)) (enough s way) (enough s' way') at_end inserted
                up.returns,
        )

    -- From a state on the way, the write of a leaf.
    pub Runs-write_leaf :
        (k : ℕ) (t : Tree Hash) (old h : Hash) (s s' : db.State) (p : MerkleProof Hash)
        → k < 2 ^ 32
        → subtree (turns 32 k) t ≡ some (leaf old)
        → IsField c h
        → Valid (combine c) (IsField c) t
        → OnWay s
        → J s'
        → write_leaf c db
            (plain c db n m)
            (new_leaf (node_at 32 k) h)
            (proof_of c db server n m t old k)
            s
          ≡ (ok p, s')
        → Runs J
            (write_leaf c down
              (plain c down n m)
              (new_leaf (node_at 32 k) h)
              (proof_of c db server n m t old k))
            s
            (ok p)
            s'
    unfolding write_leaf
    Runs-write_leaf k t old h s s' p inside el field fields way at_end e =
        let w = new_leaf (node_at 32 k) h in
        let assist = siblings (combine c) (turns 32 k) t in
        let (s1, way1, inserted, _) =
          OnWay-insert w s way (leaf_record_Canonical c db server n m laws free k h inside) in
        let offset = get_offset-node_at 32 k (omega arith) inside {E = Failure c db} in
        let e' = rw inserted at (rw offset at e) in
        let (a, s2, climbed, last) =
          >>=-eq-ok (climb (hash_children c) (store_parent c db (plain c db n m)) assist 32 k h)
            (λ _. pure (proof_of c db server n m t h k)) s1 e' in
        let at_s2 : s2 ≡ s' = ap (λ x. x.1) last in
        let all : (i : ℕ) → i < 32 → (x : Hash) × (get_elem? assist i ≡ some x) × IsField c x =
          λ i below.
            siblings-Valid (combine c) (IsField c)
              (λ x y fx fy. (hash_children_lem c laws {E = Failure c db} x y fx fy).1) (turns 32 k)
              t (leaf old) i el fields (omega (arith, length-turns 32 k)) in
        Runs-value J _ offset (
          Runs-bind J (insert_merkle_record c down (plain c down n m) w) _ w (ok p) s s1 s'
            (Runs-insert c db server n m fault J w s s1 (enough s way) (enough s1 way1) inserted)
            (Runs-bind J
              (climb (hash_children c) (store_parent c down (plain c down n m)) assist 32 k h) _ a
              (ok p) s1 s2 s'
              (Runs-climb J (combine c) (hash_children c) (store_parent c down (plain c down n m))
                (store_parent c db (plain c db n m)) (IsField c) OnWay 32 (omega arith)
                (λ x y fx fy. hash_children_lem c laws x y fx fy) inner_runs top_runs 31 k h a
                assist s1 s2 (omega arith) inside all field way1 (subst J (sym at_s2) at_end)
                climbed)
              (Runs-pure J (proof_of c db server n m t h k) p s2 s' last)))
