-- ===== src/Service/Setup.antt =====
-- The server's configuration for tests, and the collections that it drops (src/service.rs).
use zkc_state.Prelude.{
  ◌≡◌, ◌≢◌, ◌⊎◌, inl, inr, refl, ◌∙◌, [], Bool, false, Option, none, some, String,
}
use zkc_state.Outcome.{ok}
use zkc_state.Action.{Action, ◌>>=◌, pure, map_error}
use zkc_state.Crypto.{Crypto, CryptoLaws}
use zkc_state.Errors.{Error, mongodb}
use zkc_state.Kvpair.Hash.{ContractId}
use zkc_state.Service.Mongo.{Mongo}
use zkc_state.Service.Collection.{get_merkle_collection_name, get_data_collection_name}
use zkc_state.Service.Request.{MongoKvPair}
use zkc_state.Service.Session.{new_collection, drop}
use zkc_state.Service.Laws.{MongoLaws}
use zkc_state.Service.Leaf.{Holds}
use zkc_state.Service.Empty.{default_tree, empty_Holds}

abbrev pub new_with_client : Bool → MongoKvPair
new_with_client with_indexes = record { test_config = none; with_indexes = with_indexes }

abbrev pub new_with_test_config : Bool → Option ContractId → MongoKvPair
new_with_test_config with_indexes test_config =
    let client = new_with_client with_indexes in record client { test_config = test_config }

module _ (c : Crypto) (db : Mongo) where
  unfoldable pub drop_test_collection :
      MongoKvPair → Action (Error db.MongoError) db.State (Unit {0})
  drop_test_collection server = elim server.test_config [
    | none ↦ pure tt
    | some id ↦ map_error mongodb (new_collection c db server.with_indexes id false) >>= λ col.
        map_error mongodb (drop c db col)
  ]

  module _ (server : MongoLaws db) where
    -- What dropping a collection leaves of each merkle collection: all or nothing, and nothing of
    -- the one that is dropped.
    abbrev pub Dropped : String → db.State → db.State → Type 0
    Dropped n s s' =
        (server.documents n s' ≡ [])
        × (server.current n s' ≡ none)
        × ((k : String)
            → ((server.documents k s' ≡ server.documents k s)
                × (server.current k s' ≡ server.current k s))
              ⊎ ((server.documents k s' ≡ []) × (server.current k s' ≡ none)))
        × ((k : String)
            → k ≢ n
            → (server.documents k s' ≡ server.documents k s)
              × (server.current k s' ≡ server.current k s))

    abbrev pub DropLaws : Type 0
    DropLaws =
        (n : String) (s : db.State)
        → (s' : db.State) × (db.drop_collection n s ≡ (ok tt, s')) × Dropped n s s'

    still_empty :
        (n : String) (s s' : db.State)
        → (server.documents n s ≡ []) × (server.current n s ≡ none)
        → ((server.documents n s' ≡ server.documents n s)
            × (server.current n s' ≡ server.current n s))
          ⊎ ((server.documents n s' ≡ []) × (server.current n s' ≡ none))
        → (server.documents n s' ≡ []) × (server.current n s' ≡ none)
    still_empty n s s' (d, r) (inl (ed, er)) = (ed ∙ d, er ∙ r)
    still_empty n s s' empty (inr gone) = gone

    -- With a server that keeps its laws, also for dropping a collection, where no indexes are to
    -- be created: with the test configuration of a contract, `drop_test_collection` succeeds, then
    -- the contract's collection holds the tree of default leaves, and merkle collections with
    -- other names than the two that were dropped stay as they are.
    pub drop_test_collection_lem :
        (laws : CryptoLaws c) (drops : DropLaws) (host : MongoKvPair) (id : ContractId)
        (s : db.State)
        → host.with_indexes ≡ false
        → host.test_config ≡ some id
        → (s' : db.State) × (drop_test_collection host s ≡ (ok tt, s'))
          × Holds c db server
              (get_merkle_collection_name c id)
              (get_data_collection_name c id)
              s'
              (default_tree c laws 32)
          × ((k : String)
              → k ≢ get_merkle_collection_name c id
              → k ≢ get_data_collection_name c id
              → (server.documents k s' ≡ server.documents k s)
                × (server.current k s' ≡ server.current k s))
    unfolding drop_test_collection new_collection drop
    drop_test_collection_lem laws drops host id s plain_host configured =
        let n = get_merkle_collection_name c id in
        let m = get_data_collection_name c id in
        let (s1, first, (d1, r1, _, others1)) = drops n s in
        let (s2, second, (_, _, each2, others2)) = drops m s1 in
        (
          s2,
          rw (configured, plain_host) (rw first (rw second refl)),
          empty_Holds c laws db server n m s2 (still_empty n s1 s2 (d1, r1) (each2 n)),
          λ k no_tree no_data.
              let (d, r) = others1 k no_tree in
              let (d', r') = others2 k no_data in (d' ∙ d, r' ∙ r),
        )
