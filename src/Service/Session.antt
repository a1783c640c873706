-- ===== src/Service/Session.antt =====
-- Opening a collection and committing its session (src/service.rs).
use zkc_state.Prelude.{ℕ, zero, suc, ◌≡◌, Bool, Option, none, some, arith, if◌then◌else◌}
use zkc_state.Outcome.{ok, err, panic}
use zkc_state.Action.{Action, ◌>>=◌, ◌>>◌, pure}
use zkc_state.Crypto.{Crypto}
use zkc_state.Kvpair.Hash.{ContractId}
use zkc_state.Service.Mongo.{Mongo}
use zkc_state.Service.Collection.{
  MongoCollection, get_merkle_collection_name, get_data_collection_name,
}

module _ (c : Crypto) (db : Mongo) where
  open db use {State, MongoError, Session}

  -- `with_indexes` says whether the variable MONGODB_CREATE_INDEXES is set.
  unfoldable pub new_collection :
      Bool → ContractId → Bool → Action MongoError State (MongoCollection Session)
  new_collection with_indexes contract_id with_session = do
    let opened = (do s ← db.start_session; db.start_transaction s; pure (some s))
    session ← if with_session then opened else pure none
    let merkle_name = get_merkle_collection_name c contract_id
    let data_name = get_data_collection_name c contract_id
    let indexed = db.create_indexes merkle_name >> db.create_indexes data_name
    if with_indexes then indexed else pure tt
    pure (record {
      merkle_collection = merkle_name;
      datahash_collection = data_name;
      session = session;
    })

  -- The loop of `commit`, by the rounds that it is given; `none` means that it is still running. The
  -- source leaves it only by `result?`, which goes on to the next round when the commit succeeded.
  unfoldable pub commit_loop : ℕ → Session → Action MongoError State (Option (Unit {0}))
  commit_loop zero session s = (ok none, s)
  commit_loop (suc rounds) session s =
      let (result, s') = db.commit_transaction session s in
      let again = commit_loop rounds session s' in
      elim result [
        | ok done ↦ again
        | panic ↦ (panic, s')
        | err e ↦ if db.may_retry e then again else (err e, s')
      ]

  -- `commit` takes the session out of the collection.
  unfoldable pub commit :
      ℕ → MongoCollection Session → Action MongoError State (Option (MongoCollection Session))
  unfolding commit_loop
  commit rounds col = elim col.session [
    | none ↦ pure (some col)
    | some session ↦ commit_loop rounds session >>= λ left. elim left [
      | none ↦ pure none
      | some _ ↦ pure (some (record col { session = none }))
    ]
  ]

  unfoldable pub drop : MongoCollection Session → Action MongoError State (Unit {0})
  drop col = db.drop_collection col.merkle_collection >> db.drop_collection col.datahash_collection

  commit_loop_runs_on :
      (rounds : ℕ) (session : Session) (s : State)
      → ¬ ((commit_loop rounds session s).0 ≡ ok (some tt))
  unfolding commit_loop
  commit_loop_runs_on zero session s = λ h. cc
  commit_loop_runs_on (suc rounds) session s =
      ground (arith, commit_loop_runs_on rounds session (db.commit_transaction session s).1)

  -- However many rounds it is given, `commit` of a collection with a session does not return `Ok`.
  pub commit_runs_on :
      (rounds : ℕ) (col done : MongoCollection Session) (session : Session) (s : State)
      → col.session ≡ some session
      → ¬ ((commit rounds col s).0 ≡ ok (some done))
  unfolding commit
  commit_runs_on rounds col done session s e =
      rw e (ground (arith, commit_loop_runs_on rounds session s))
