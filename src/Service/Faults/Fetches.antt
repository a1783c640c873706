-- ===== src/Service/Faults/Fetches.antt =====
-- The methods of a collection that only read, against a server that can fail.
use zkc_state.Prelude.{ℕ, none, some, String, if◌then◌else◌}
use zkc_state.Outcome.{ok, ok_or, unwrap, map_err}
use zkc_state.Hash.{Hash, hash_eq}
use zkc_state.Crypto.{Crypto}
use zkc_state.Errors.{merkle, mongodb, precondition}
use zkc_state.Merkle.Index.{leaf_check, get_path}
use zkc_state.Kvpair.Hash.{merkle_tree_height}
use zkc_state.Kvpair.Record.{get_default_record, record_node}
use zkc_state.Service.Mongo.{Mongo, by_id, by_index_and_hash}
use zkc_state.Service.Collection.{
  driver, default_for, get_merkle_record, must_get_merkle_record, get_root_merkle_record,
  must_get_root_merkle_record, get_leaf_and_proof, get_current_root_object_id,
}
use zkc_state.Service.Laws.{MongoLaws}
use zkc_state.Service.Fetch.{plain}
use zkc_state.Service.Faults.{Fault, faulty}
use zkc_state.Service.Faults.Runs.{Runs-disturb}
use zkc_state.Service.Faults.Reads.{
  Reads, Reads-lift, Reads-map_error, Reads-bind, Reads-lift-bind, Reads-Option, Reads-descend,
}

module _ (c : Crypto) (db : Mongo) (server : MongoLaws db) (n m : String)
    (fault : ℕ → Fault db.MongoError) (J : db.State → Type 0) (s : db.State) (j : J s) where
  abbrev pub failing : Mongo
  failing = faulty db fault

  Reads-default : (i : ℕ) (h : Hash) → Reads J (default_for c failing i h) (default_for c db i h) s
  unfolding default_for
  Reads-default i h =
      Reads-lift-bind J (map_err merkle (get_default_record c i))
        λ default. Reads-lift J (ok (if hash_eq default.hash h then some default else none)) s

  pub Reads-find_document :
      (i : ℕ) (h : Hash)
      → Reads J
          (driver c failing (failing.find_one_merkle none n (by_index_and_hash i h)))
          (driver c db (db.find_one_merkle none n (by_index_and_hash i h)))
          s
  Reads-find_document i h =
      let (found, e, _) = server.find_document n i h s in
      Reads-map_error J mongodb (record {
        result = ok found;
        returns = e;
        runs =
            Runs-disturb J fault (db.find_one_merkle none n (by_index_and_hash i h)) (ok found) s s
              e j j;
      })

  Reads-find_current :
      Reads J
        (driver c failing (failing.find_one_merkle none n (by_id get_current_root_object_id)))
        (driver c db (db.find_one_merkle none n (by_id get_current_root_object_id)))
        s
  Reads-find_current = Reads-map_error J mongodb (record {
    result = ok (server.current n s);
    returns = server.find_current n s;
    runs =
        Runs-disturb J fault (db.find_one_merkle none n (by_id get_current_root_object_id))
          (ok (server.current n s)) s s (server.find_current n s) j j;
  })

  Reads-get :
      (i : ℕ) (h : Hash)
      → Reads J
          (get_merkle_record c failing (plain c failing n m) i h)
          (get_merkle_record c db (plain c db n m) i h)
          s
  unfolding get_merkle_record
  Reads-get i h =
      Reads-bind J _ _ _ _ s (Reads-find_document i h)
        λ found. Reads-Option J found (Reads-default i h) λ r. Reads-lift J (ok (some r)) s

  pub Reads-must_get :
      (i : ℕ) (h : Hash)
      → Reads J
          (must_get_merkle_record c failing (plain c failing n m) i h)
          (must_get_merkle_record c db (plain c db n m) i h)
          s
  unfolding must_get_merkle_record
  Reads-must_get i h =
      Reads-bind J (get_merkle_record c failing (plain c failing n m) i h)
        (get_merkle_record c db (plain c db n m) i h) _ _ s (Reads-get i h)
        λ found. Reads-lift J (ok_or found (precondition "Merkle record not found")) s

  Reads-get_root :
      Reads J
        (get_root_merkle_record c failing (plain c failing n m))
        (get_root_merkle_record c db (plain c db n m))
        s
  unfolding get_root_merkle_record
  Reads-get_root =
      Reads-bind J _ _ _ _ s (Reads-find_current)
        λ found. Reads-Option J found (Reads-lift J _ s) λ r. Reads-lift J (ok (some r)) s

  pub Reads-must_get_root :
      Reads J
        (must_get_root_merkle_record c failing (plain c failing n m))
        (must_get_root_merkle_record c db (plain c db n m))
        s
  unfolding must_get_root_merkle_record
  Reads-must_get_root =
      Reads-bind J (get_root_merkle_record c failing (plain c failing n m))
        (get_root_merkle_record c db (plain c db n m)) _ _ s Reads-get_root
        λ found. Reads-lift J (unwrap found) s

  pub Reads-get_leaf_and_proof :
      (i : ℕ)
      → Reads J
          (get_leaf_and_proof c failing (plain c failing n m) i)
          (get_leaf_and_proof c db (plain c db n m) i)
          s
  unfolding get_leaf_and_proof
  Reads-get_leaf_and_proof i =
      Reads-lift-bind J (map_err merkle (leaf_check i merkle_tree_height)) λ _.
        Reads-lift-bind J (map_err merkle (get_path i merkle_tree_height)) λ paths.
          Reads-bind J _ _ _ _ s Reads-must_get_root λ a.
            Reads-bind J _ _ _ _ s (Reads-descend J (record_node c) _ _ s Reads-must_get paths 0 a)
              λ walked.
                Reads-lift J
                  (ok (
                    walked.0,
                    record {
                      source = (walked.0).hash;
                      root = a.hash;
                      assist = walked.1;
                      index = i;
                    },
                  ))
                  s
