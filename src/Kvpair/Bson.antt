-- ===== src/Kvpair/Bson.antt =====
-- The BSON forms of numbers, hashes and bytes, and of the stored records (src/kvpair.rs). The crate
-- `bson` is a parameter. A serializer is a function from the value it is given; a deserializer is the
-- outcome of `Bson::deserialize`.
use zkc_state.Prelude.{
  ℕ, zero, suc, ◌+◌, ◌*◌, ◌/◌, ◌%◌, List, [], ◌∷◌, Option, none, some, String, ◌==◌, length,
  if◌then◌else◌,
}
use text.Mathlib.Text.{◌==◌ as str_eq}
use zkc_state.Outcome.{Outcome, ok, ◌>>=◌, ◌>>◌, assert, ok_or}
use zkc_state.Hash.{Bytes, Hash}
use zkc_state.Kvpair.Record.{MerkleRecord, DataHashRecord}

pub record BsonApi : Type 1 where
  pub Bson : Type 0
  -- `Bson::Binary` with the subtype `Generic`, and the bytes of a `Bson::Binary` of any subtype
  pub binary : Bytes → Bson
  pub read_binary : Bson → Option Bytes
  -- The error of a deserializer, `SerdeError::invalid_value` and that of a missing field
  pub Failure : Type 0
  pub invalid_value : Failure
  pub missing_field : String → Failure

-- `u64::to_le_bytes` and `u64::from_le_bytes`, by the number of bytes
unfoldable pub le_bytes : ℕ → ℕ → Bytes
le_bytes zero x = []
le_bytes (suc n) x = x % 256 ∷ le_bytes n (x / 256)

unfoldable pub of_le_bytes : Bytes → ℕ
of_le_bytes [] = 0
of_le_bytes (b ∷ bs) = b + 256 * of_le_bytes bs

module _ (api : BsonApi) where
  open api use {Bson, Failure}

  unfoldable pub u64_to_bson : ℕ → Bson
  u64_to_bson x = api.binary (le_bytes 8 x)

  unfoldable pub hash_to_bson : Hash → Bson
  hash_to_bson h = api.binary h.bytes

  unfoldable pub u256_to_bson : Bytes → Bson
  u256_to_bson x = api.binary x

  unfoldable pub serialize_u64_as_binary :
      {R : Type 0} → ℕ → (Bson → Outcome Failure R) → Outcome Failure R
  serialize_u64_as_binary value serializer = serializer (api.binary (le_bytes 8 value))

  unfoldable pub serialize_bytes_as_binary :
      {R : Type 0} → Bytes → (Bson → Outcome Failure R) → Outcome Failure R
  serialize_bytes_as_binary bytes serializer = serializer (api.binary bytes)

  -- The match on what was deserialized.
  unfoldable pub binary_bytes : Outcome Failure Bson → Outcome Failure Bytes
  binary_bytes deserializer =
      deserializer >>= λ value. ok_or (api.read_binary value) api.invalid_value

  unfoldable pub deserialize_u64_as_binary : Outcome Failure Bson → Outcome Failure ℕ
  deserialize_u64_as_binary deserializer = do
    bytes ← binary_bytes deserializer
    assert (length bytes == 8)
    ok (of_le_bytes bytes)

  unfoldable pub deserialize_u256_from_binary : Outcome Failure Bson → Outcome Failure Bytes
  deserialize_u256_from_binary deserializer = do
    bytes ← binary_bytes deserializer
    assert (length bytes == 32)
    ok bytes

  unfoldable pub deserialize_bytes_from_binary : Outcome Failure Bson → Outcome Failure Bytes
  deserialize_bytes_from_binary deserializer = binary_bytes deserializer

  abbrev pub Document : Type 0
  Document = List (String × Bson)

  unfoldable pub lookup : String → Document → Option Bson
  lookup k [] = none
  lookup k ((j, v) ∷ d) = if str_eq j k then some v else lookup k d

  -- The filter of `get_merkle_record` and `insert_merkle_record`
  unfoldable pub index_and_hash_filter : ℕ → Hash → Document
  index_and_hash_filter index hash = ("index", u64_to_bson index) ∷ ("hash", hash_to_bson hash) ∷ []

  -- The derived `Serialize` of the records, with the fields' attributes
  unfoldable pub document_of_record : MerkleRecord → Outcome Failure Document
  document_of_record r = do
    index ← serialize_u64_as_binary r.index ok
    hash ← serialize_bytes_as_binary r.hash.bytes ok
    left ← serialize_bytes_as_binary r.left.bytes ok
    right ← serialize_bytes_as_binary r.right.bytes ok
    bytes ← serialize_bytes_as_binary r.bytes ok
    ok (
        ("index", index)
        ∷ ("hash", hash)
        ∷ ("left", left)
        ∷ ("right", right)
        ∷ ("data", bytes)
        ∷ [])

  unfoldable pub document_of_datahash : DataHashRecord → Outcome Failure Document
  document_of_datahash r = do
    hash ← serialize_bytes_as_binary r.hash.bytes ok
    bytes ← serialize_bytes_as_binary r.bytes ok
    ok (("hash", hash) ∷ ("data", bytes) ∷ [])

  -- A field that a derived `Deserialize` reads
  unfoldable pub field : String → Document → Outcome Failure Bson
  field k d = ok_or (lookup k d) (api.missing_field k)

  -- The derived `Deserialize` of the records, for documents without a field twice
  unfoldable pub record_of_document : Document → Outcome Failure MerkleRecord
  record_of_document d = do
    index ← deserialize_u64_as_binary (field "index" d)
    hash ← deserialize_u256_from_binary (field "hash" d)
    left ← deserialize_u256_from_binary (field "left" d)
    right ← deserialize_u256_from_binary (field "right" d)
    bytes ← deserialize_u256_from_binary (field "data" d)
    ok (record {
      index = index;
      hash = record { bytes = hash };
      left = record { bytes = left };
      right = record { bytes = right };
      bytes = bytes;
    })

  unfoldable pub datahash_of_document : Document → Outcome Failure DataHashRecord
  datahash_of_document d = do
    hash ← deserialize_u256_from_binary (field "hash" d)
    bytes ← deserialize_bytes_from_binary (field "data" d)
    ok (record { hash = record { bytes = hash }; bytes = bytes })
