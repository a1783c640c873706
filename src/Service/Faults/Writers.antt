-- ===== src/Service/Faults/Writers.antt =====
-- The handlers `set_leaf`, `get_non_leaf`, `set_non_leaf` and `poseidon_hash` against a server that can
-- fail.
use mathlib.Core.Path.{subst}
use zkc_state.Prelude.{ℕ, ◌+◌, ◌^◌, ◌<◌, ◌≡◌, ap, sym, false, Option, none, some, String, arith}
use zkc_state.Outcome.{Outcome, ok, ok-injective, map_err}
use zkc_state.Action.{Action}
use zkc_state.Hash.{Bytes, Hash}
use zkc_state.Crypto.{Crypto, CryptoLaws, CollisionFree}
use zkc_state.Errors.{Status, status_of}
use native.Mathlib.Decide.{dec_lt}
use zkc_state.Prelude.Words.{two_pow_mono, one-le-two_pow}
use zkc_state.Merkle.Bounds.{node_of}
use zkc_state.Merkle.Node.{MerkleProof}
use zkc_state.Poseidon
use zkc_state.Kvpair.Hash.{hash_of_slice, validate_children}
use zkc_state.Kvpair.Node.{Node, new_simple_leaf, node_of_record, node_of_records}
use zkc_state.Kvpair.Record.{MerkleRecord, new_leaf, new_non_leaf}
use zkc_state.Service.Mongo.{Mongo}
use zkc_state.Service.Collection.{insert_non_leaf_node, set_leaf_and_get_proof}
use zkc_state.Service.Request.{
  Request, SetLeafRequest, GetNonLeafRequest, SetNonLeafRequest, PoseidonHashRequest, MongoKvPair,
  get_contract_id,
}
use zkc_state.Service.Handlers.{inside, set_leaf, leaf_to_set, leaf_hash, proof_message, finish}
use zkc_state.Service.Queries.{get_non_leaf, set_non_leaf, check_children, poseidon_hash}
use zkc_state.Service.Laws.{MongoLaws}
use zkc_state.Service.Invariant.{Canonical}
use zkc_state.Service.Fetch.{plain}
use zkc_state.Service.Faults.{Fault, faulty}
use zkc_state.Service.Faults.Keeps.{
  Keeps, Keeps-lift, Keeps-pure, Keeps-forget, Keeps-map_error, Keeps-bind, Keeps-bind_at,
  Keeps-value,
}
use zkc_state.Service.Faults.Tables.{new_non_leaf-Canonical}
use zkc_state.Service.Faults.Upkeep.{Keeps-insert, Keeps-set_leaf_and_get_proof}
use zkc_state.Service.Faults.Lookups.{Keeps-open, Safe, Safe-insert_datahash, Safe-must_get, Sound}
use zkc_state.Service.Faults.Requests.{Safe-finish, Safe-proof_message}

module _ (c : Crypto) (db : Mongo) (server : MongoLaws db)
    (serialize : MerkleProof Hash → Option Bytes) (laws : CryptoLaws c) (free : CollisionFree c)
    (host : MongoKvPair) (plain_host : host.with_indexes ≡ false)
    (fault : ℕ → Fault db.MongoError) where
  abbrev down : Mongo
  down = faulty db fault

  abbrev AllSound : db.State → Type 0
  AllSound = Sound c db server serialize laws free host plain_host fault

  abbrev IsSafe : {E A : Type 0} → Action E (db.State × ℕ) A → Type 0
  IsSafe = Safe c db server serialize laws free host plain_host fault

  abbrev WithLeaf : ℕ → MerkleRecord × Node → db.State → Type 0
  WithLeaf i found s = (h : Hash) × (found.0 ≡ new_leaf i h)

  -- A parent that was built for the index of an inner node is canonical.
  inner_Canonical :
      {E : Type 0} (i : ℕ) (l r : Hash) (w : MerkleRecord)
      → i + 1 < 2 ^ 32
      → new_non_leaf c {E = E} i l r ≡ ok w
      → Canonical c w
  inner_Canonical {E} i l r w above e =
      let (d, q, _, ei, inside) = node_of {E = Unit {0}} i (omega arith) in
      let shallow : d < 32 = elim (dec_lt d 32) [
        | yes lt ↦ lt
        | no ge ↦ absurd (omega (arith, two_pow_mono 32 d (omega arith), one-le-two_pow d))
      ] in
      (new_non_leaf-Canonical c db server laws free {E = E} d q l r w shallow inside
        (subst (λ x. new_non_leaf c {E = E} x l r ≡ ok w) ei e)).0

  module _ (n m : String) where
    Safe-leaf_hash :
        (hash : Option Bytes) (bytes : Bytes) → IsSafe (leaf_hash c down serialize hash bytes)
    unfolding leaf_hash
    Safe-leaf_hash (some hash) bytes = Keeps-pure AllSound (map_err status_of (hash_of_slice hash))
    Safe-leaf_hash none bytes =
        Keeps-value AllSound (map_err status_of (Poseidon.hash c bytes))
          λ hash _. Keeps-pure AllSound (ok (record { bytes = hash }))

    leaf_known :
        (i : ℕ) (h : Hash) (node : Node) (found : MerkleRecord × Node)
        → ◌≡◌ {A = Outcome (Status db.MongoError) (MerkleRecord × Node)}
            (ok (new_leaf i h, node))
            (ok found)
        → (g : Hash) × (found.0 ≡ new_leaf i g)
    leaf_known i h node found e = (h, ap (λ (x : MerkleRecord × Node). x.0) (sym (ok-injective e)))

    Keeps-leaf_to_set :
        (i : ℕ) (bytes hash : Option Bytes)
        → Keeps AllSound (WithLeaf i) (leaf_to_set c down serialize (plain c down n m) i bytes hash)
    unfolding leaf_to_set
    Keeps-leaf_to_set i (some bytes) hash =
        Keeps-bind AllSound (leaf_hash c down serialize hash bytes) _ (Safe-leaf_hash hash bytes)
          λ h.
            Keeps-bind AllSound _ _
              (Keeps-map_error AllSound status_of (
                Safe-insert_datahash c db server serialize laws free host plain_host fault n m
                  (record { hash = h; bytes = bytes })))
              λ _.
                Keeps-value AllSound
                  (map_err status_of
                    (node_of_records (new_leaf i h) (record { hash = h; bytes = bytes })))
                  λ node _.
                    Keeps-lift AllSound (ok (new_leaf i h, node))
                      (λ found s e. leaf_known i h node found e)
    Keeps-leaf_to_set i none (some hash) =
        Keeps-value AllSound (map_err status_of (hash_of_slice hash)) λ h _.
          Keeps-lift AllSound (ok (new_leaf i h, new_simple_leaf i h))
            (λ found s e. leaf_known i h (new_simple_leaf i h) found e)
    Keeps-leaf_to_set i none none = record { at = λ s calls all. all }

    Safe-insert_non_leaf :
        (i : ℕ) (l r : Hash)
        → i + 1 < 2 ^ 32
        → IsSafe (insert_non_leaf_node c down (plain c down n m) i l r)
    unfolding insert_non_leaf_node
    Safe-insert_non_leaf i l r above = Keeps-value AllSound (new_non_leaf c i l r) λ w ew.
        let canonical = inner_Canonical i l r w above ew in
        Keeps-forget AllSound (Keeps-insert c db server laws free fault n m w canonical)

    Safe-check_children :
        (wanted : Option Bytes) (l r : Hash) → IsSafe (check_children c down serialize wanted l r)
    unfolding check_children
    Safe-check_children none l r = Keeps-pure AllSound (ok tt)
    Safe-check_children (some bytes) l r =
        Keeps-value AllSound (map_err status_of (hash_of_slice bytes))
          λ h _. Keeps-pure AllSound (map_err status_of (validate_children c h l r))

  pub Safe-set_leaf :
      (request : Request SetLeafRequest) → IsSafe (set_leaf c down serialize host request)
  unfolding set_leaf
  Safe-set_leaf request =
      Keeps-value AllSound (get_contract_id c host request request.inner.contract_id) λ id _.
        Keeps-open c db server serialize laws free host plain_host fault id _ λ n m.
          Keeps-bind_at AllSound
            (leaf_to_set c down serialize (plain c down n m) request.inner.index request.inner.bytes
              request.inner.hash)
            _ (Keeps-leaf_to_set n m request.inner.index request.inner.bytes request.inner.hash)
            λ found s calls known all.
              (Keeps-bind AllSound _ _
                  (Keeps-map_error AllSound status_of (
                    subst (λ x. IsSafe (set_leaf_and_get_proof c down (plain c down n m) x))
                      (sym known.1)
                      (Keeps-set_leaf_and_get_proof c db server laws free fault n m
                        request.inner.index known.0)))
                  λ proof.
                    Keeps-bind AllSound
                      (proof_message c down serialize request.inner.proof_type proof) _
                      (Safe-proof_message c db server serialize laws free host plain_host fault
                        request.inner.proof_type proof)
                      λ answer.
                        Keeps-bind AllSound (finish c down serialize (plain c down n m)) _
                          (Safe-finish c db server serialize laws free host plain_host fault n m)
                          λ _.
                            Keeps-pure AllSound
                              (ok (record { node = some found.1; proof = answer }))).at
                s calls all

  pub Safe-get_non_leaf :
      (request : Request GetNonLeafRequest) → IsSafe (get_non_leaf c down serialize host request)
  unfolding get_non_leaf
  Safe-get_non_leaf request =
      Keeps-value AllSound (get_contract_id c host request request.inner.contract_id) λ id _.
        Keeps-open c db server serialize laws free host plain_host fault id _ λ n m.
          Keeps-value AllSound (map_err status_of (hash_of_slice request.inner.hash)) λ h _.
            Keeps-bind AllSound _ _
              (Keeps-map_error AllSound status_of (
                Safe-must_get c db server serialize laws free host plain_host fault n m
                  request.inner.index h))
              λ r. Keeps-pure AllSound (map_err status_of (node_of_record r))

  pub Safe-set_non_leaf :
      (request : Request SetNonLeafRequest)
      → request.inner.index + 1 < 2 ^ 32
      → IsSafe (set_non_leaf c down serialize host request)
  unfolding set_non_leaf
  Safe-set_non_leaf request above =
      Keeps-value AllSound (get_contract_id c host request request.inner.contract_id) λ id _.
        Keeps-open c db server serialize laws free host plain_host fault id _ λ n m.
          Keeps-value AllSound (map_err status_of (hash_of_slice request.inner.left_child_hash))
            λ l _.
              Keeps-value AllSound
                (map_err status_of (hash_of_slice request.inner.right_child_hash))
                λ r _.
                  Keeps-bind AllSound (check_children c down serialize request.inner.hash l r) _
                    (Safe-check_children n m request.inner.hash l r)
                    λ _.
                      Keeps-bind AllSound _ _
                        (Keeps-map_error AllSound status_of
                          (Safe-insert_non_leaf n m request.inner.index l r above))
                        λ w. Keeps-pure AllSound (map_err status_of (node_of_record w))

  pub Safe-poseidon_hash :
      (request : Request PoseidonHashRequest) → IsSafe (poseidon_hash c down serialize host request)
  unfolding poseidon_hash
  Safe-poseidon_hash request =
      Keeps-value AllSound (get_contract_id c host request request.inner.contract_id)
        λ id _. Keeps-pure AllSound (map_err status_of (Poseidon.hash c request.inner.bytes))
