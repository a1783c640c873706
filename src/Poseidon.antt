-- ===== src/Poseidon.antt =====
-- src/poseidon.rs
pub mod Input
use zkc_state.Prelude.{
  ◌%◌, List, [], ◌∷◌, ◌++◌, none, some, ◌==◌, not, length, replicate, chunks, if◌then◌else◌,
}
use zkc_state.Outcome.{Outcome, ok, err, ◌>>=◌, unwrap}
use zkc_state.Hash.{Bytes}
use zkc_state.Crypto.{Crypto}
use zkc_state.Errors.{Error, invalid_argument}

module _ (c : Crypto) where
  unfoldable pub gen_poseidon_hasher : c.Poseidon9
  gen_poseidon_hasher = c.new9 8 63

  unfoldable pub gen_merkle_hasher : c.Poseidon3
  gen_merkle_hasher = c.new3 8 57

  unfoldable pub gen_merkle_leaf_hasher : c.Poseidon3
  gen_merkle_leaf_hasher = c.new3 8 57

  unfoldable pub hash_field_elements : List c.Fr → Bytes
  unfolding gen_poseidon_hasher
  hash_field_elements frs = c.to_repr (c.squeeze (c.update gen_poseidon_hasher frs))

  -- `try_into().unwrap()` into 32 bytes, and `from_repr(..).unwrap()`, of a half with 16 zeros
  unfoldable pub padded_half : {E : Type 0} → Bytes → Outcome E c.Fr
  padded_half x =
      let v = x ++ replicate 16 0 in
      if length v == 32 then unwrap (c.from_repr v) else Outcome.panic

  unfoldable pub padded_halves : {E : Type 0} → List Bytes → Outcome E (List c.Fr)
  unfolding padded_half
  padded_halves [] = ok []
  padded_halves (x ∷ xs) = do f ← padded_half x; fs ← padded_halves xs; ok (f ∷ fs)

  module _ {M : Type 0} where
    abbrev pub not_field_elements : Error M
    not_field_elements = invalid_argument "Invalid data to hash, must be an array of field elements"

    unfoldable pub hash_with_padding : Bytes → Outcome (Error M) Bytes
    unfolding padded_halves hash_field_elements
    hash_with_padding data_to_hash =
        if not (length data_to_hash % 32 == 0)
        then err not_field_elements
        else (do frs ← padded_halves (chunks 16 data_to_hash); ok (hash_field_elements frs))

    -- The closure of `hash`: `x.try_into().unwrap()`, and the test of `from_repr`.
    unfoldable pub field_element : Bytes → Outcome (Error M) c.Fr
    field_element x =
        if length x == 32
        then elim (c.from_repr x) [ none ↦ err not_field_elements | some f ↦ ok f ]
        else Outcome.panic

    unfoldable pub field_elements : List Bytes → Outcome (Error M) (List c.Fr)
    unfolding field_element
    field_elements [] = ok []
    field_elements (x ∷ xs) = do f ← field_element x; fs ← field_elements xs; ok (f ∷ fs)

    unfoldable pub hash : Bytes → Outcome (Error M) Bytes
    unfolding field_elements hash_field_elements
    hash data_to_hash =
        if not (length data_to_hash % 32 == 0)
        then err not_field_elements
        else (do frs ← field_elements (chunks 32 data_to_hash); ok (hash_field_elements frs))
