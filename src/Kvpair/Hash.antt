-- ===== src/Kvpair/Hash.antt =====
-- `ContractId`, `Hash`, `LeafData` and the default hashes (src/kvpair.rs).
use zkc_state.Prelude.{
  ℕ, zero, suc, ◌-◌, List, [], ◌∷◌, ◌++◌, none, some, String, ◌==◌, leb, not, length, get_elem?,
  chunks, if◌then◌else◌,
}
use zkc_state.Outcome.{Outcome, ok, err, panic, ◌>>=◌, unwrap}
use zkc_state.Hash.{Bytes, Hash, hash_eq, zeros32}
use zkc_state.Crypto.{Crypto}
use zkc_state.Errors.{Error, invalid_argument}
use zkc_state.Merkle.Error.{MerkleError, invalid_depth}
use zkc_state.Merkle.Index.{error_at}
use zkc_state.Poseidon.{gen_merkle_hasher, gen_merkle_leaf_hasher, padded_halves}

abbrev pub merkle_tree_height : ℕ
merkle_tree_height = 32

pub record ContractId : Type 0 where
  pub id : Bytes

-- The derived `Default`.
abbrev pub default_contract_id : ContractId
default_contract_id = record { id = zeros32 }

pub record LeafData : Type 0 where
  pub bytes : Bytes

abbrev pub default_leaf_data : LeafData
default_leaf_data = record { bytes = zeros32 }

module _ {M : Type 0} where
  -- The conversion of a slice into `[u8; 32]`, with the error that the source maps it to.
  unfoldable pub to_array32 : Bytes → Error M → Outcome (Error M) Bytes
  to_array32 a e = if length a == 32 then ok a else err e

  unfoldable pub contract_id_of_slice : Bytes → Outcome (Error M) ContractId
  unfolding to_array32
  contract_id_of_slice a = do
    id ← to_array32 a (invalid_argument "Contract Id malformed (must be [u8; 32])")
    ok (record { id = id })

  unfoldable pub hash_of_slice : Bytes → Outcome (Error M) Hash
  unfolding to_array32
  hash_of_slice a = do
    bytes ← to_array32 a (invalid_argument "Hash malformed (must be [u8; 32])")
    ok (record { bytes = bytes })

module _ (c : Crypto) where
  unfoldable pub contract_id_of_text : {M : Type 0} → String → Outcome (Error M) ContractId
  unfolding contract_id_of_slice
  contract_id_of_text a = elim (c.base64_decode a) [
    | none ↦ err (invalid_argument "Base64 decoding failed")
    | some v ↦ contract_id_of_slice v
  ]

  -- `From<Fr> for Hash`, and `From<Hash> for Fr`, which unwraps
  abbrev pub hash_of_field : c.Fr → Hash
  hash_of_field f = record { bytes = c.to_repr f }

  abbrev pub field_of_hash : {E : Type 0} → Hash → Outcome E c.Fr
  field_of_hash h = unwrap (c.from_repr h.bytes)

  unfoldable pub hash_children : {E : Type 0} → Hash → Hash → Outcome E Hash
  unfolding gen_merkle_hasher
  hash_children left right = do
    a ← field_of_hash left
    b ← field_of_hash right
    ok (hash_of_field (c.update_exact (gen_merkle_hasher c) (a ∷ b ∷ [])))

  unfoldable pub hash_data : {E : Type 0} → Bytes → Outcome E Hash
  unfolding padded_halves gen_merkle_leaf_hasher
  hash_data bytes = if not (length bytes == 32) then panic else (do
    batchdata ← padded_halves c (chunks 16 bytes)
    ok (hash_of_field (c.update_exact (gen_merkle_leaf_hasher c) batchdata)))

  abbrev pub empty_hash : Hash
  empty_hash = record { bytes = zeros32 }

  -- `DEFAULT_HASH_VEC`: the default hash of a leaf, then that of each depth above.
  unfoldable pub default_hash_loop : {E : Type 0} → ℕ → Hash → List Hash → Outcome E (List Hash)
  default_hash_loop zero leaf_hash default_hash = ok default_hash
  default_hash_loop (suc n) leaf_hash default_hash = do
    parent ← hash_children leaf_hash leaf_hash
    default_hash_loop n parent (default_hash ++ parent ∷ [])

  -- The hash of `MongoMerkle::empty_leaf` is that of 32 zero bytes.
  unfoldable pub default_hash_vec : {E : Type 0} → Outcome E (List Hash)
  unfolding default_hash_loop
  default_hash_vec = do
    leaf_hash ← hash_data zeros32
    default_hash_loop merkle_tree_height leaf_hash (leaf_hash ∷ [])

  unfoldable pub get_default_hash_for_depth : ℕ → Outcome MerkleError Hash
  get_default_hash_for_depth depth =
      if leb depth merkle_tree_height
      then (do hashes ← default_hash_vec; unwrap (get_elem? hashes (merkle_tree_height - depth)))
      else err (error_at depth invalid_depth)

  module _ {M : Type 0} where
    unfoldable pub validate_children : Hash → Hash → Hash → Outcome (Error M) (Unit {0})
    validate_children hash left right = do
      new_hash ← hash_children left right
      if not (hash_eq hash new_hash) then err (invalid_argument "Hash not matching") else ok tt

    unfoldable pub validate_data : Hash → LeafData → Outcome (Error M) (Unit {0})
    validate_data hash leaf_data = do
      new_hash ← hash_data leaf_data.bytes
      if not (hash_eq hash new_hash) then err (invalid_argument "Hash not matching") else ok tt
