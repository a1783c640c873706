-- ===== src/Kvpair/Stored.antt =====
-- The round trips of the BSON forms, and which stored records a filter fits.
use zkc_state.Prelude.{
  ℕ, zero, suc, ◌/◌, ◌^◌, ◌<◌, ◌≡◌, ◌↔◌, refl, ap, sym, ◌∙◌, [], ◌∷◌, some, arith, of_some, length,
}
use native.Mathlib.Nat.{pow-suc}
use zkc_state.Outcome.{ok, ok-injective}
use zkc_state.Hash.{Bytes, Hash}
use zkc_state.Kvpair.Record.{MerkleRecord}
use zkc_state.Kvpair.Bson.{
  BsonApi, le_bytes, of_le_bytes, u64_to_bson, hash_to_bson, serialize_u64_as_binary,
  serialize_bytes_as_binary, binary_bytes, deserialize_u64_as_binary, deserialize_u256_from_binary,
  Document, lookup, index_and_hash_filter, document_of_record, field, record_of_document,
}

length-le_bytes : (n x : ℕ) → length (le_bytes n x) ≡ n
unfolding le_bytes
length-le_bytes zero x = refl
length-le_bytes (suc n) x = omega (arith, length-le_bytes n (x / 256))

of_le_bytes-le_bytes : (n x : ℕ) → x < 256 ^ n → of_le_bytes (le_bytes n x) ≡ x
unfolding le_bytes of_le_bytes
of_le_bytes-le_bytes zero x h = omega arith
of_le_bytes-le_bytes (suc n) x h =
    omega (arith, of_le_bytes-le_bytes n (x / 256) (omega (arith, pow-suc 256 n)))

module _ (api : BsonApi) (reads : (b : Bytes) → api.read_binary (api.binary b) ≡ some b) where
  -- A filter fits a document that has each of its fields with the same value.
  abbrev pub Fits : Document api → Document api → Type 0
  Fits [] d = Unit
  Fits ((k, v) ∷ filter) d = (lookup api k d ≡ some v) × Fits filter d

  pub deserialize_u64-serialize_u64 :
      (x : ℕ) → x < 2 ^ 64 → deserialize_u64_as_binary api (serialize_u64_as_binary api x ok) ≡ ok x
  unfolding deserialize_u64_as_binary serialize_u64_as_binary binary_bytes
  deserialize_u64-serialize_u64 x h =
      rw (reads (le_bytes 8 x)) (rw (length-le_bytes 8 x) (ap ok (of_le_bytes-le_bytes 8 x h)))

  read_hash :
      (b : Bytes) → length b ≡ 32 → deserialize_u256_from_binary api (ok (api.binary b)) ≡ ok b
  unfolding deserialize_u256_from_binary binary_bytes
  read_hash b e = rw (reads b) (rw e refl)

  -- The document of a record.
  abbrev written : MerkleRecord → Document api
  written r =
      ("index", api.binary (le_bytes 8 r.index))
      ∷ ("hash", api.binary r.hash.bytes)
      ∷ ("left", api.binary r.left.bytes)
      ∷ ("right", api.binary r.right.bytes)
      ∷ ("data", api.binary r.bytes)
      ∷ []

  document_of_record_lem : (r : MerkleRecord) → document_of_record api r ≡ ok (written r)
  unfolding document_of_record serialize_u64_as_binary serialize_bytes_as_binary
  document_of_record_lem r = refl

  -- Where the bytes of a binary can be read back: a record with a `u64` index and with hashes and
  -- data of 32 bytes is written as a document from which it is read back.
  pub record_of_document-document_of_record :
      (r : MerkleRecord)
      → r.index < 2 ^ 64
      → length r.hash.bytes ≡ 32
      → length r.left.bytes ≡ 32
      → length r.right.bytes ≡ 32
      → length r.bytes ≡ 32
      → (d : Document api) × (document_of_record api r ≡ ok d) × (record_of_document api d ≡ ok r)
  unfolding record_of_document field lookup
  record_of_document-document_of_record r h eh el er ed =
      let index : deserialize_u64_as_binary api (ok (api.binary (le_bytes 8 r.index)))
          ≡ ok r.index =
        unfold serialize_u64_as_binary in deserialize_u64-serialize_u64 r.index h in
      (
        written r,
        document_of_record_lem r,
        rw
            (
              index,
              read_hash r.hash.bytes eh,
              read_hash r.left.bytes el,
              read_hash r.right.bytes er,
              read_hash r.bytes ed,
            )
            refl,
      )

  binary-injective : (a b : Bytes) → api.binary a ≡ api.binary b → a ≡ b
  binary-injective a b e = of_some (sym (reads a) ∙ ap api.read_binary e ∙ reads b)

  -- Where the bytes of a binary can be read back: for `u64` indices, the filter by an index and a
  -- hash fits the document of a record exactly when the record has that index and that hash.
  pub index_and_hash_filter_lem :
      (i : ℕ) (h : Hash) (r : MerkleRecord) (d : Document api)
      → i < 2 ^ 64
      → r.index < 2 ^ 64
      → document_of_record api r ≡ ok d
      → Fits (index_and_hash_filter api i h) d ↔ ((r.index ≡ i) × (r.hash ≡ h))
  unfolding index_and_hash_filter lookup u64_to_bson hash_to_bson
  index_and_hash_filter_lem i h r d hi hr ed =
      let same : written r ≡ d = ok-injective (sym (document_of_record_lem r) ∙ ed) in
      rw (← same) (
        λ (ei, (eh, _)). (
          let digits = binary-injective _ _ (of_some ei) in
              sym (of_le_bytes-le_bytes 8 r.index hr)
              ∙ ap of_le_bytes digits
              ∙ of_le_bytes-le_bytes 8 i hi,
          ap (λ (b : Bytes). record { bytes = b }) (binary-injective _ _ (of_some eh)),
        ),
        λ (ei, eh). (
          ap (λ j. some (api.binary (le_bytes 8 j))) ei,
          (ap (λ (x : Hash). some (api.binary x.bytes)) eh, tt),
        ),
      )
