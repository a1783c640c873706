-- ===== src/Service/Conversions.antt =====
-- The conversions between records and messages of src/kvpair.rs, for records as the service stores them.
use zkc_state.Prelude.{◌+◌, ◌^◌, ◌<◌, ◌≡◌, refl, sym, arith, some}
use zkc_state.Outcome.{ok}
use zkc_state.Hash.{bytes_eq_refl}
use zkc_state.Crypto.{Crypto, CryptoLaws}
use zkc_state.Errors.{Error}
use zkc_state.Merkle.Index.{node_non_leaf}
use zkc_state.Merkle.Bounds.{get_node_type_lem}
use zkc_state.Kvpair.Hash.{hash_of_slice}
use zkc_state.Kvpair.Record.{MerkleRecord, new_non_leaf}
use zkc_state.Kvpair.Combine.{hash_children_lem}
use zkc_state.Kvpair.Node.{Node, children, number_of, node_of_record, record_of_node}
use zkc_state.Service.Invariant.{Canonical}

-- The message of a node with two children.
abbrev pub message_of : MerkleRecord → Node
message_of r = record {
  index = r.index;
  hash = r.hash.bytes;
  node_type = number_of node_non_leaf;
  node_data =
      some (children (record { left_child_hash = r.left.bytes; right_child_hash = r.right.bytes }));
}

module _ (c : Crypto) (laws : CryptoLaws c) {M : Type 0} where
  -- A canonical record above the leaves is what its children make.
  rebuilt :
      (r : MerkleRecord)
      → Canonical c r
      → r.index + 1 < 2 ^ 32
      → new_non_leaf c {E = Error M} r.index r.left r.right ≡ ok r
  unfolding new_non_leaf
  rebuilt r canonical above =
      let (fl, fr, eh) = canonical.inner above in
      rw ((hash_children_lem c laws {E = Error M} r.left r.right fl fr).0) (λ j. ok (record {
        index = r.index;
        hash = sym eh j;
        left = r.left;
        right = r.right;
        bytes = sym canonical.no_data j;
      }))

  -- For a field: a canonical record above the leaves whose hashes have 32 bytes becomes a message,
  -- and the message becomes that record again.
  pub node_of_record-record_of_node :
      (r : MerkleRecord)
      → Canonical c r
      → r.index + 1 < 2 ^ 32
      → hash_of_slice {M = M} r.hash.bytes ≡ ok r.hash
      → hash_of_slice {M = M} r.left.bytes ≡ ok r.left
      → hash_of_slice {M = M} r.right.bytes ≡ ok r.right
      → (node_of_record {M = M} r ≡ ok (message_of r))
        × (record_of_node {M = M} c (message_of r) ≡ ok r)
  unfolding node_of_record record_of_node
  node_of_record-record_of_node r canonical above eh el er =
      let kind = (get_node_type_lem r.index 32 (omega arith)).0.1 above in
      (
        rw kind refl,
        rw eh (rw (el, er) (rw (rebuilt r canonical above) (rw (bytes_eq_refl r.hash.bytes) refl))),
      )
