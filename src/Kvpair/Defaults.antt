-- ===== src/Kvpair/Defaults.antt =====
-- The default hash of each level, and the default records.
use zkc_state.Prelude.{
  ℕ, zero, suc, ◌+◌, ◌-◌, ◌^◌, ◌≤◌, ◌<◌, ◌≡◌, refl, ap, sym, ◌∙◌, some, List, [], ◌∷◌, ◌++◌,
  Bool-cases, inl, inr, ◌⊎◌, arith, le→leb, lt→leb, chunks, ◌==◌, ≢→==, get_elem?, if◌then◌else◌,
}
use mathlib.Core.List.{append-nil, append_assoc}
use zkc_state.Outcome.{ok, err, panic}
use zkc_state.Hash.{Hash, zeros32}
use zkc_state.Crypto.{Crypto, CryptoLaws}
use zkc_state.Merkle.Error.{MerkleError, invalid_depth}
use zkc_state.Merkle.Index.{ilog2, error_at}
use native.Mathlib.Decide.{dec_lt}
use zkc_state.Merkle.Bounds.{node_at, ilog2-node_at, node_of, depth-le}
use zkc_state.Poseidon.{gen_merkle_leaf_hasher, padded_halves}
use zkc_state.Kvpair.Hash.{
  hash_of_field, hash_data, default_hash_loop, default_hash_vec, get_default_hash_for_depth,
}
use zkc_state.Kvpair.Record.{MerkleRecord, get_default_record, zero_hash}
use zkc_state.Kvpair.Combine.{IsField, combine, hash_children_lem}

module _ (c : Crypto) (laws : CryptoLaws c) where
  -- The default hash of the nodes over subtrees of height `n`.
  unfoldable pub default_at : ℕ → Hash
  default_at zero =
      let z = laws.zero_repr.0 in hash_of_field c (c.update_exact (c.new3 8 57) (z ∷ z ∷ []))
  default_at (suc n) = combine c (default_at n) (default_at n)

  pub default_at-IsField : (n : ℕ) → IsField c (default_at n)
  unfolding default_at
  default_at-IsField zero =
      (c.update_exact (c.new3 8 57) (laws.zero_repr.0 ∷ laws.zero_repr.0 ∷ []), laws.from_to _)
  default_at-IsField (suc n) =
      (hash_children_lem c laws {E = MerkleError} (default_at n) (default_at n)
        (default_at-IsField n) (default_at-IsField n)).1

  pub default_at-suc : (n : ℕ) → default_at (suc n) ≡ combine c (default_at n) (default_at n)
  unfolding default_at
  default_at-suc n = refl

  default_leaf : {E : Type 0} → hash_data c {E = E} zeros32 ≡ ok (default_at zero)
  unfolding hash_data padded_halves gen_merkle_leaf_hasher default_at chunks
  default_leaf = rw laws.zero_repr.1

  -- The default hashes of `n` levels, from the level `k` up.
  defaults_from : ℕ → ℕ → List Hash
  defaults_from k zero = []
  defaults_from k (suc n) = default_at k ∷ defaults_from (suc k) n

  default_hash_loop_lem :
      {E : Type 0} (n k : ℕ) (acc : List Hash)
      → default_hash_loop c {E = E} n (default_at k) acc ≡ ok (acc ++ defaults_from (suc k) n)
  unfolding default_hash_loop defaults_from
  default_hash_loop_lem zero k acc = ap ok (sym (append-nil acc))
  default_hash_loop_lem {E} (suc n) k acc =
      let step =
        hash_children_lem c laws {E = E} (default_at k) (default_at k) (default_at-IsField k)
          (default_at-IsField k) in
      rw (step.0, ← default_at-suc k)
        (rw (default_hash_loop_lem {E = E} n (suc k) (acc ++ default_at (suc k) ∷ []))
          (simp append_assoc))

  get_elem?-defaults :
      (k n j : ℕ) → j < n → get_elem? (defaults_from k n) j ≡ some (default_at (k + j))
  unfolding defaults_from
  get_elem?-defaults k zero j h = elim h [ ]
  get_elem?-defaults k (suc n) zero h = let z : k + 0 ≡ k = omega arith in rw z
  get_elem?-defaults k (suc n) (suc j) h =
      let z : suc k + j ≡ k + suc j = omega arith in
      get_elem?-defaults (suc k) n j (omega arith) ∙ ap (λ m. some (default_at m)) z

  default_hash_vec_lem : {E : Type 0} → default_hash_vec c {E = E} ≡ ok (defaults_from 0 33)
  unfolding default_hash_vec defaults_from
  default_hash_vec_lem {E} =
      rw (default_leaf {E = E}) (default_hash_loop_lem 32 0 (default_at 0 ∷ []))

  -- For a field and a depth of 32 or less, `get_default_hash_for_depth` returns the default hash
  -- of the subtrees below that depth.
  pub get_default_hash_for_depth_lem :
      (d : ℕ) → d ≤ 32 → get_default_hash_for_depth c d ≡ ok (default_at (32 - d))
  unfolding get_default_hash_for_depth
  get_default_hash_for_depth_lem d h = rw (le→leb d 32 h) (
      rw (default_hash_vec_lem {E = MerkleError}) (
        rw (get_elem?-defaults 0 33 (32 - d) (omega arith))
          (ap (λ m. ok (default_at m)) (omega arith))))

  -- The child hash of a default record.
  pub child_default : ℕ → Hash
  child_default d = if d == 32 then zero_hash else default_at (31 - d)

  abbrev pub default_record_at : ℕ → ℕ → MerkleRecord
  default_record_at d q = record {
    index = node_at d q;
    hash = default_at (32 - d);
    left = child_default d;
    right = child_default d;
    bytes = zeros32;
  }

  pub child_default-leaf : child_default 32 ≡ zero_hash
  unfolding child_default
  child_default-leaf = refl

  pub child_default-non_leaf : (d : ℕ) → d < 32 → child_default d ≡ default_at (31 - d)
  unfolding child_default
  child_default-non_leaf d h = rw (≢→== d 32 (omega arith))

  pub get_default_record_lem :
      (d q : ℕ)
      → d ≤ 32
      → q < 2 ^ d
      → get_default_record c (node_at d q) ≡ ok (default_record_at d q)
  unfolding get_default_record child_default
  get_default_record_lem d q h inside =
      rw (ilog2-node_at d q (omega arith) inside, get_default_hash_for_depth_lem d h)
        (elim (Bool-cases (d == 32)) [
          | inl leaf ↦ rw leaf
          | inr inner ↦
              let below : d + 1 ≤ 32 = ground arith in
              let level : 32 - (d + 1) ≡ 31 - d = omega arith in
              rw (inner, get_default_hash_for_depth_lem (d + 1) below, level)
        ])

  -- Below the leaves there is no default record.
  get_default_record_deep :
      (d q : ℕ)
      → 32 < d
      → d ≤ 63
      → q < 2 ^ d
      → get_default_record c (node_at d q) ≡ err (error_at d invalid_depth)
  unfolding get_default_record get_default_hash_for_depth
  get_default_record_deep d q h small inside = rw (ilog2-node_at d q small inside, lt→leb d 32 h)

  pub get_default_record_total :
      (i : ℕ)
      → i < 2 ^ 64
      → ((d : ℕ) × (q : ℕ) × (d ≤ 32)
          × (q < 2 ^ d)
          × (i ≡ node_at d q)
          × (get_default_record c i ≡ ok (default_record_at d q)))
        ⊎ (((d : ℕ) × (32 < d) × (get_default_record c i ≡ err (error_at d invalid_depth)))
            ⊎ ((get_default_record c i ≡ panic) × (i ≡ 2 ^ 64 - 1)))
  get_default_record_total i h = elim (dec_lt (i + 1) (2 ^ 64)) [
    | no last ↦
        let e : i ≡ 2 ^ 64 - 1 = omega arith in
        inr (inr (ap (get_default_record c) e ∙ unfold get_default_record ilog2 in refl, e))
    | yes fits ↦
        let (d, q, _, e, inside) = node_of {E = MerkleError} i fits in
        elim (dec_lt d 33) [
          | yes shallow ↦
              let h : d ≤ 32 = omega arith in
              inl (
                d,
                q,
                h,
                inside,
                e,
                ap (get_default_record c) e ∙ get_default_record_lem d q h inside,
              )
          | no deep ↦ inr (
              inl (
                d,
                omega arith,
                ap (get_default_record c) e
                    ∙ get_default_record_deep d q (omega arith) (depth-le d q (omega arith)) inside,
              ))
        ]
  ]
