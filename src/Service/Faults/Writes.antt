-- ===== src/Service/Faults/Writes.antt =====
-- The calls that write: `insert_merkle_record`, `update_root_merkle_record` and `store_parent` against
-- a server that can fail.
use mathlib.Core.Path.{subst₂}
use zkc_state.Prelude.{ℕ, ◌==◌, ◌≡◌, ap, ◌∙◌, true, false, Option, none, some, String}
use zkc_state.Outcome.{Outcome, ok, assert}
use zkc_state.Action.{Action, pure}
use zkc_state.Hash.{Hash, hash_eq}
use zkc_state.Crypto.{Crypto}
use zkc_state.Errors.{mongodb}
use zkc_state.Kvpair.Record.{MerkleRecord, new_non_leaf}
use zkc_state.Service.Mongo.{Mongo, by_id, by_index_and_hash}
use zkc_state.Service.Collection.{
  Failure, driver, insert_merkle_record, update_root_merkle_record, store_parent, root_fields,
  get_current_root_object_id,
}
use zkc_state.Service.Laws.{MongoLaws}
use zkc_state.Service.Fetch.{plain}
use zkc_state.Service.Faults.{Fault, faulty}
use zkc_state.Service.Faults.Runs.{
  Runs, Runs-disturb, Runs-lift, Runs-map_error, Runs-bind, Runs-value,
}

state_of :
    {E A S : Type 0} {a b : A} {s t : S} → ◌≡◌ {A = Outcome E A × S} (ok a, s) (ok b, t) → s ≡ t
state_of e = cc

value_of :
    {E A S : Type 0} {a b : A} {s t : S} → ◌≡◌ {A = Outcome E A × S} (ok a, s) (ok b, t) → a ≡ b
value_of e = cc

module _ (c : Crypto) (db : Mongo) (server : MongoLaws db) (n m : String)
    (fault : ℕ → Fault db.MongoError) (J : db.State → Type 0) where
  abbrev down : Mongo
  down = faulty db fault

  abbrev RunsTo :
      {A : Type 0} → Action (Failure c down) down.State A → db.State → A → db.State → Type 0
  RunsTo call s a s' = Runs J call s (ok a) s'

  insert_found :
      (w : MerkleRecord) (s s' : db.State) (found : Option MerkleRecord)
      → J s
      → J s'
      → RunsTo
          (driver c down (down.find_one_merkle none n (by_index_and_hash w.index w.hash)))
          s
          found
          s
      → db.find_one_merkle none n (by_index_and_hash w.index w.hash) s ≡ (ok found, s)
      → insert_merkle_record c db (plain c db n m) w s ≡ (ok w, s')
      → RunsTo (insert_merkle_record c down (plain c down n m) w) s w s'
  unfolding insert_merkle_record
  insert_found w s s' (some r) j j' runs ef e =
      let old : ◌≡◌ {A = Outcome (Failure c db) MerkleRecord × db.State} (ok r, s) (ok w, s') =
        rw ef at e in
      subst₂ (RunsTo (insert_merkle_record c down (plain c down n m) w) s) (value_of old)
        (state_of old) (Runs-bind J _ _ (some r) (ok r) s s s runs (Runs-lift J (ok r) s))
  insert_found w s s' none j j' runs ef e =
      let (s'', ei, _, _, _) = server.insert n w s in
      let new : ◌≡◌ {A = Outcome (Failure c db) MerkleRecord × db.State} (ok w, s'') (ok w, s') =
        rw (ef, ei) at e in
      let inserted = ei ∙ (λ i. (ok tt, state_of new i)) in
      Runs-bind J _ _ none (ok w) s s s' runs (
        Runs-bind J _ (λ _. pure w) tt (ok w) s s' s'
          (Runs-map_error J mongodb _ (ok tt) s s'
            (Runs-disturb J fault (db.insert_one_merkle none n w) (ok tt) s s' inserted j j'))
          (Runs-lift J (ok w) s'))

  pub Runs-insert :
      (w : MerkleRecord) (s s' : db.State)
      → J s
      → J s'
      → insert_merkle_record c db (plain c db n m) w s ≡ (ok w, s')
      → RunsTo (insert_merkle_record c down (plain c down n m) w) s w s'
  Runs-insert w s s' j j' e =
      let (found, ef, _) = server.find_document n w.index w.hash s in
      insert_found w s s' found j j'
        (Runs-map_error J mongodb _ (ok found) s s (
          Runs-disturb J fault (db.find_one_merkle none n (by_index_and_hash w.index w.hash))
            (ok found) s s ef j j))
        ef e

  pub Runs-update_root :
      (w : MerkleRecord) (s s' : db.State)
      → J s
      → J s'
      → update_root_merkle_record c db (plain c db n m) w s ≡ (ok w, s')
      → RunsTo (update_root_merkle_record c down (plain c down n m) w) s w s'
  unfolding update_root_merkle_record
  Runs-update_root w s s' j j' e =
      let (s'', eu, _, _, _) = server.upsert n (root_fields c db w) s in
      let new : ◌≡◌ {A = Outcome (Failure c db) MerkleRecord × db.State} (ok w, s'') (ok w, s') =
        rw eu at e in
      let updated = eu ∙ (λ i. (ok tt, state_of new i)) in
      Runs-bind J _ _ tt (ok w) s s' s'
        (Runs-map_error J mongodb _ (ok tt) s s' (
          Runs-disturb J fault
            (db.update_one_merkle none n (by_id get_current_root_object_id) (root_fields c db w)
              true)
            (ok tt) s s' updated j j'))
        (Runs-lift J (ok w) s')

  -- A parent below the root: the record is inserted.
  pub Runs-store_inner :
      (i : ℕ) (h l r : Hash) (w : MerkleRecord) (s s' : db.State)
      → (i == 0) ≡ false
      → new_non_leaf c {E = Failure c down} i l r ≡ ok w
      → hash_eq w.hash h ≡ true
      → J s
      → J s'
      → insert_merkle_record c db (plain c db n m) w s ≡ (ok w, s')
      → RunsTo (store_parent c down (plain c down n m) i h l r) s tt s'
  unfolding store_parent
  Runs-store_inner i h l r w s s' inner ew eh j j' e = Runs-value J _ ew (
      Runs-value J _ (ap assert eh) (
        rw inner (
          Runs-bind J (insert_merkle_record c down (plain c down n m) w) (λ _. pure tt) w (ok tt) s
            s' s' (Runs-insert w s s' j j' e) (Runs-lift J (ok tt) s'))))

  -- The root: the record is inserted, and becomes the current root.
  pub Runs-store_root :
      (h l r : Hash) (w : MerkleRecord) (s s' s'' : db.State)
      → new_non_leaf c {E = Failure c down} 0 l r ≡ ok w
      → hash_eq w.hash h ≡ true
      → J s
      → J s'
      → J s''
      → insert_merkle_record c db (plain c db n m) w s ≡ (ok w, s')
      → update_root_merkle_record c db (plain c db n m) w s' ≡ (ok w, s'')
      → RunsTo (store_parent c down (plain c down n m) 0 h l r) s tt s''
  unfolding store_parent
  Runs-store_root h l r w s s' s'' ew eh j j' j'' inserted updated = Runs-value J _ ew (
      Runs-value J _ (ap assert eh) (
        Runs-bind J (insert_merkle_record c down (plain c down n m) w) _ w (ok tt) s s' s''
          (Runs-insert w s s' j j' inserted)
          (Runs-bind J (update_root_merkle_record c down (plain c down n m) w) (λ _. pure tt) w
            (ok tt) s' s'' s'' (Runs-update_root w s' s'' j' j'' updated)
            (Runs-lift J (ok tt) s''))))
