-- ===== src/Service/Faults.antt =====
-- A server whose calls can fail: a parameter of the model like the server itself. A schedule says of
-- each call whether it works, fails before it reaches the server, or loses its reply, by the number
-- of calls before it.
use zkc_state.Prelude.{ℕ, suc}
use zkc_state.Outcome.{Outcome, err}
use zkc_state.Action.{Action}
use zkc_state.Service.Mongo.{Mongo}
pub mod Runs
pub mod Reads
pub mod Fetches
pub mod Writes
pub mod Climbs
pub mod OnWay
pub mod Atomic
pub mod LeafSteps
pub mod Handler
pub mod Prefix
pub mod Keeps
pub mod Tables
pub mod Upkeep
pub mod Lookups
pub mod Requests
pub mod Writers
pub mod Records
pub mod Serving
pub mod Authentic

pub data Fault (E : Type 0) : Type 0 where
  works : Fault E
  lost_request : E → Fault E
  lost_reply : E → Fault E

-- The call of before, as the fault changes it.
unfoldable pub strike : {E A S : Type 0} → Fault E → Outcome E A × S → S → ℕ → Outcome E A × (S × ℕ)
strike works (r, s') s calls = (r, (s', calls))
strike (lost_request e) (r, s') s calls = (err e, (s, calls))
strike (lost_reply e) (r, s') s calls = (err e, (s', calls))

abbrev pub disturb : {E A S : Type 0} → (ℕ → Fault E) → Action E S A → Action E (S × ℕ) A
disturb fault call (s, calls) = strike (fault calls) (call s) s (suc calls)

abbrev pub faulty : (db : Mongo) → (ℕ → Fault db.MongoError) → Mongo
faulty db fault = record {
  State = db.State × ℕ;
  MongoError = db.MongoError;
  Session = db.Session;
  start_session = disturb fault db.start_session;
  start_transaction = λ session. disturb fault (db.start_transaction session);
  commit_transaction = λ session. disturb fault (db.commit_transaction session);
  may_retry = db.may_retry;
  create_indexes = λ n. disturb fault (db.create_indexes n);
  drop_collection = λ n. disturb fault (db.drop_collection n);
  find_one_merkle = λ session n f. disturb fault (db.find_one_merkle session n f);
  insert_one_merkle = λ session n r. disturb fault (db.insert_one_merkle session n r);
  replace_one_merkle = λ session n f r. disturb fault (db.replace_one_merkle session n f r);
  update_one_merkle =
      λ session n f fields upsert. disturb fault (db.update_one_merkle session n f fields upsert);
  find_one_datahash = λ session m f. disturb fault (db.find_one_datahash session m f);
  insert_one_datahash = λ session m r. disturb fault (db.insert_one_datahash session m r);
}
