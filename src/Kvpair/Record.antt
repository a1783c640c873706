-- ===== src/Kvpair/Record.antt =====
-- `MerkleRecord` and `DataHashRecord` (src/kvpair.rs).
use zkc_state.Prelude.{ℕ, ◌+◌, List, some, ◌==◌, if◌then◌else◌}
use zkc_state.Prelude.Words.{add_u64}
use zkc_state.Outcome.{Outcome, ok, ◌>>=◌}
use zkc_state.Hash.{Bytes, Hash, zeros32}
use zkc_state.Crypto.{Crypto}
use zkc_state.Merkle.Error.{MerkleError}
use zkc_state.Merkle.Index.{ilog2}
use zkc_state.Merkle.Node.{MerkleNode}
use zkc_state.Kvpair.Hash.{merkle_tree_height, hash_children, hash_data, get_default_hash_for_depth}

pub record MerkleRecord : Type 0 where
  pub index : ℕ
  pub hash : Hash
  pub left : Hash
  pub right : Hash
  pub bytes : Bytes

pub record DataHashRecord : Type 0 where
  pub hash : Hash
  pub bytes : Bytes

abbrev pub zero_hash : Hash
zero_hash = record { bytes = zeros32 }

abbrev pub new_record : ℕ → MerkleRecord
new_record index = record {
  index = index;
  hash = zero_hash;
  left = zero_hash;
  right = zero_hash;
  bytes = zeros32;
}

abbrev pub new_leaf : ℕ → Hash → MerkleRecord
new_leaf index hash = let r = new_record index in record r { hash = hash }

-- `DataHashRecord::empty`
abbrev pub empty_datahash : DataHashRecord
empty_datahash = record { hash = zero_hash; bytes = List.[] }

module _ (c : Crypto) where
  unfoldable pub new_non_leaf : {E : Type 0} → ℕ → Hash → Hash → Outcome E MerkleRecord
  new_non_leaf index left right = do
    hash ← hash_children c left right
    ok (record { index = index; hash = hash; left = left; right = right; bytes = zeros32 })

  unfoldable pub new_root : {E : Type 0} → Hash → Hash → Outcome E MerkleRecord
  new_root left right = do
    hash ← hash_children c left right
    ok (record { index = 0; hash = hash; left = left; right = right; bytes = zeros32 })

  unfoldable pub get_default_record : ℕ → Outcome MerkleError MerkleRecord
  get_default_record index = do
    height ← ilog2 (add_u64 index 1)
    default ← get_default_hash_for_depth c height
    let below = get_default_hash_for_depth c (height + 1)
    child_hash ← if height == merkle_tree_height then ok zero_hash else below
    ok (record {
      index = index;
      hash = default;
      left = child_hash;
      right = child_hash;
      bytes = zeros32;
    })

  -- `impl MerkleNode<Hash> for MerkleRecord`
  abbrev pub record_node : MerkleNode Hash MerkleRecord
  record_node = record {
    hash = λ r. r.hash;
    index = λ r. r.index;
    set = λ r bytes. (hash_data c bytes >>= λ hash. ok (record r { hash = hash }));
    left = λ r. some r.left;
    right = λ r. some r.right;
  }
