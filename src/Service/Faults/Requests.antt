-- ===== src/Service/Faults/Requests.antt =====
-- The handlers `get_root`, `set_root` and `get_leaf` against a server that can fail.
use zkc_state.Prelude.{ℕ, ◌≡◌, ◌==◌, not, false, Option, none, some, String}
use zkc_state.Outcome.{ok, err, map_err, unwrap, unwrap_result}
use zkc_state.Action.{Action, pure}
use zkc_state.Hash.{Bytes, Hash, hash_eq}
use zkc_state.Crypto.{Crypto, CryptoLaws, CollisionFree}
use zkc_state.Errors.{status_of}
use zkc_state.Merkle.Node.{MerkleProof}
use zkc_state.Kvpair.Hash.{hash_of_slice, get_default_hash_for_depth, merkle_tree_height}
use zkc_state.Kvpair.Node.{new_simple_leaf, node_of_records}
use zkc_state.Kvpair.Record.{MerkleRecord}
use zkc_state.Service.Mongo.{Mongo}
use zkc_state.Service.Collection.{update_root_merkle_record}
use zkc_state.Service.Request.{
  Request, GetRootRequest, SetRootRequest, GetLeafRequest, MongoKvPair, get_contract_id, proof_v0,
}
use zkc_state.Service.Handlers.{
  inside, get_root, set_root, get_leaf, proof_message, finish, find_leaf, leaf_in_root,
  leaf_by_hash, check_leaf_hash, leaf_node, shown,
}
use zkc_state.Service.Session.{commit}
use zkc_state.Service.Laws.{MongoLaws}
use zkc_state.Service.Fetch.{plain}
use zkc_state.Service.Faults.{Fault, faulty}
use zkc_state.Service.Faults.Keeps.{
  Any, Keeps-pure, Keeps-map_error, Keeps-bind, Keeps-bind_at, Left-bind, Left-map_error,
  Keeps-value, Keeps-if, Keeps-Option,
}
use zkc_state.Service.Faults.Upkeep.{Left-update_root}
use zkc_state.Service.Faults.Lookups.{
  Keeps-must_get_top, Keeps-open, Safe, Safe-get_datahash, Safe-get_leaf_and_proof, Safe-must_get,
  Safe-must_get_root, Sound,
}

module _ (c : Crypto) (db : Mongo) (server : MongoLaws db)
    (serialize : MerkleProof Hash → Option Bytes) (laws : CryptoLaws c) (free : CollisionFree c)
    (host : MongoKvPair) (plain_host : host.with_indexes ≡ false)
    (fault : ℕ → Fault db.MongoError) where
  abbrev down : Mongo
  down = faulty db fault

  abbrev AllSound : db.State → Type 0
  AllSound = Sound c db server serialize laws free host plain_host fault

  abbrev IsSafe : {E A : Type 0} → Action E (db.State × ℕ) A → Type 0
  IsSafe = Safe c db server serialize laws free host plain_host fault

  -- `get_root`
  pub Safe-get_root :
      (request : Request GetRootRequest) → IsSafe (get_root c down serialize host request)
  unfolding get_root
  Safe-get_root request =
      Keeps-value AllSound (get_contract_id c host request request.inner.contract_id) λ id _.
        Keeps-open c db server serialize laws free host plain_host fault id _ λ n m.
          Keeps-bind AllSound _ _
            (Keeps-map_error AllSound status_of
              (Safe-must_get_root c db server serialize laws free host plain_host fault n m))
            λ r. Keeps-pure AllSound (ok (r.hash).bytes)

  pub Safe-set_root :
      (request : Request SetRootRequest) → IsSafe (set_root c down serialize host request)
  unfolding set_root
  Safe-set_root request =
      Keeps-value AllSound (get_contract_id c host request request.inner.contract_id) λ id _.
        Keeps-open c db server serialize laws free host plain_host fault id _ λ n m.
          Keeps-value AllSound (map_err status_of (hash_of_slice request.inner.hash)) λ h _.
            Keeps-bind_at AllSound _ _
              (Keeps-map_error AllSound status_of
                (Keeps-must_get_top c db server serialize laws free host plain_host fault n m h))
              λ r s calls known all.
                Left-bind AllSound (Any AllSound) (Any AllSound)
                  (inside c down serialize (update_root_merkle_record c down (plain c down n m) r))
                  (λ _. pure (r.hash).bytes) s calls
                  (Left-map_error AllSound (Any AllSound) status_of
                    (update_root_merkle_record c down (plain c down n m) r) s calls
                    (Left-update_root c db server laws free fault n m r s calls known.0 known.1
                      known.2 all))
                  λ _ t later _ all'. (tt, all')

  pub Safe-proof_message :
      (kind : ℕ) (p : MerkleProof Hash) → IsSafe (proof_message c down serialize kind p)
  unfolding proof_message
  Safe-proof_message kind p =
      Keeps-if AllSound (kind == proof_v0)
        (Keeps-value AllSound (unwrap (serialize p))
          λ b _. Keeps-pure AllSound (ok (some (record { proof_type = kind; proof = b }))))
        (Keeps-pure AllSound (ok none))

  module _ (n m : String) where
    Safe-check_leaf_hash :
        (wanted : Option Bytes) (source : Hash)
        → IsSafe (check_leaf_hash c down serialize wanted source)
    unfolding check_leaf_hash
    Safe-check_leaf_hash none source = Keeps-pure AllSound (ok tt)
    Safe-check_leaf_hash (some bytes) source =
        Keeps-value AllSound (map_err status_of (hash_of_slice bytes)) λ h _.
          Keeps-if AllSound (not (hash_eq h source)) (Keeps-pure AllSound (err _))
            (Keeps-pure AllSound (ok tt))

    Safe-leaf_in_root :
        (request : GetLeafRequest)
        → IsSafe (leaf_in_root c down serialize (plain c down n m) request)
    unfolding leaf_in_root
    Safe-leaf_in_root request =
        Keeps-bind AllSound _ _
          (Keeps-map_error AllSound status_of (
            Safe-get_leaf_and_proof c db server serialize laws free host plain_host fault n m
              request.index))
          λ found.
            Keeps-bind AllSound (check_leaf_hash c down serialize request.hash (found.1).source) _
              (Safe-check_leaf_hash request.hash (found.1).source)
              λ _.
                Keeps-bind AllSound (proof_message c down serialize request.proof_type found.1) _
                  (Safe-proof_message request.proof_type found.1)
                  λ proof. Keeps-pure AllSound (ok (found.0, proof))

    Safe-leaf_by_hash :
        (i : ℕ) (bytes : Bytes) → IsSafe (leaf_by_hash c down serialize (plain c down n m) i bytes)
    unfolding leaf_by_hash
    Safe-leaf_by_hash i bytes =
        Keeps-value AllSound (map_err status_of (hash_of_slice bytes)) λ h _.
          Keeps-bind AllSound _ _
            (Keeps-map_error AllSound status_of
              (Safe-must_get c db server serialize laws free host plain_host fault n m i h))
            λ r. Keeps-pure AllSound (ok (r, none))

    Safe-find_leaf :
        (request : GetLeafRequest) → IsSafe (find_leaf c down serialize (plain c down n m) request)
    unfolding find_leaf
    Safe-find_leaf request = Keeps-Option AllSound request.hash (Safe-leaf_in_root request) λ bytes.
        Keeps-if AllSound (not (request.proof_type == proof_v0))
          (Safe-leaf_by_hash request.index bytes) (Safe-leaf_in_root request)

    Safe-leaf_node : (r : MerkleRecord) → IsSafe (leaf_node c down serialize (plain c down n m) r)
    unfolding leaf_node
    Safe-leaf_node r =
        Keeps-bind AllSound _ _
          (Keeps-map_error AllSound status_of
            (Safe-get_datahash c db server serialize laws free host plain_host fault n m r.hash))
          λ found.
            Keeps-Option AllSound found (Keeps-pure AllSound (ok (new_simple_leaf r.index r.hash)))
              λ d. Keeps-pure AllSound (map_err status_of (node_of_records r d))

    pub Safe-finish : IsSafe (finish c down serialize (plain c down n m))
    unfolding finish commit
    Safe-finish = Keeps-pure AllSound (ok tt)

  pub Safe-get_leaf :
      (request : Request GetLeafRequest) → IsSafe (get_leaf c down serialize host request)
  unfolding get_leaf
  Safe-get_leaf request =
      Keeps-value AllSound (get_contract_id c host request request.inner.contract_id) λ id _.
        Keeps-open c db server serialize laws free host plain_host fault id _ λ n m.
          Keeps-bind AllSound (find_leaf c down serialize (plain c down n m) request.inner) _
            (Safe-find_leaf n m request.inner)
            λ found.
              Keeps-value AllSound (unwrap_result (get_default_hash_for_depth c merkle_tree_height))
                λ default _.
                  Keeps-bind AllSound
                    (leaf_node c down serialize (plain c down n m)
                      (shown c down serialize default found.0))
                    _ (Safe-leaf_node n m (shown c down serialize default found.0))
                    λ node.
                      Keeps-bind AllSound (finish c down serialize (plain c down n m)) _
                        (Safe-finish n m)
                        λ _. Keeps-pure AllSound (ok (record { node = some node; proof = found.1 }))
