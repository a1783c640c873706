-- ===== src/Service/Empty.antt =====
-- A new collection, which has no documents, and the tree of the default hashes.
use zkc_state.Prelude.{
  ℕ, zero, suc, ◌+◌, ◌-◌, ◌*◌, ◌^◌, ◌<◌, ◌≡◌, refl, ap, sym, ◌∙◌, [], ◌∷◌, Option, none, some,
  String, arith, length, true, false,
}
use zkc_state.Prelude.Words.{two_pow-suc}
use zkc_state.Outcome.{ok}
use zkc_state.Hash.{Hash}
use zkc_state.Crypto.{Crypto, CryptoLaws}
use zkc_state.Merkle.Bounds.{node_at}
use zkc_state.Merkle.Spec.{Tree, leaf, node, Turns, turns, root, subtree, length-turns}
use zkc_state.Merkle.Descend.{Held}
use zkc_state.Merkle.Valid.{Valid}
use zkc_state.Kvpair.Record.{MerkleRecord, record_node}
use zkc_state.Kvpair.Combine.{IsField, combine}
use zkc_state.Kvpair.Defaults.{
  default_at, default_at-IsField, default_at-suc, default_record_at, child_default-non_leaf,
  get_default_record_lem,
}
use zkc_state.Service.Mongo.{Mongo}
use zkc_state.Service.Collection.{must_get_root_merkle_record}
use zkc_state.Service.Laws.{MongoLaws, Answers}
use zkc_state.Service.Fetch.{fetch, fetch_default}
use zkc_state.Service.Parent.{IsRoot}
use zkc_state.Service.Leaf.{Holds}

module _ (c : Crypto) (laws : CryptoLaws c) where
  -- The tree of height `n` whose leaves all have the default hash.
  unfoldable pub default_tree : ℕ → Tree Hash
  default_tree zero = leaf (default_at c laws zero)
  default_tree (suc n) = node (default_tree n) (default_tree n)

  pub root-default_tree : (n : ℕ) → root (combine c) (default_tree n) ≡ default_at c laws n
  unfolding default_tree
  root-default_tree zero = refl
  root-default_tree (suc n) = rw (root-default_tree n, default_at-suc c laws n)

  default_tree-fields : (n : ℕ) → Valid (combine c) (IsField c) (default_tree n)
  unfolding default_tree
  default_tree-fields zero = default_at-IsField c laws 0
  default_tree-fields (suc n) = (default_tree-fields n, default_tree-fields n)

  subtree-default_tree :
      (bs : Turns) (n : ℕ)
      → length bs ≡ n
      → subtree bs (default_tree n) ≡ some (leaf (default_at c laws 0))
  unfolding default_tree
  subtree-default_tree [] zero e = refl
  subtree-default_tree [] (suc n) e = absurd (omega arith)
  subtree-default_tree (b ∷ bs) zero e = absurd (omega arith)
  subtree-default_tree (true ∷ bs) (suc n) e = subtree-default_tree bs n (omega arith)
  subtree-default_tree (false ∷ bs) (suc n) e = subtree-default_tree bs n (omega arith)

  pub leaf-default_tree :
      (k : ℕ) → subtree (turns 32 k) (default_tree 32) ≡ some (leaf (default_at c laws 0))
  leaf-default_tree k = subtree-default_tree (turns 32 k) 32 (length-turns 32 k)

  module _ (db : Mongo) (server : MongoLaws db) (n m : String) where
    abbrev pub IsEmpty : db.State → Type 0
    IsEmpty s = (server.documents n s ≡ []) × (server.current n s ≡ none)

    none_found :
        (i : ℕ) (h : Hash) (found : Option MerkleRecord) → Answers i h [] found → found ≡ none
    none_found i h none answer = refl
    none_found i h (some r) (inside, _, _) = absurd inside

    fetch_empty :
        (d q k : ℕ) (s : db.State)
        → d + k ≡ 32
        → q < 2 ^ d
        → IsEmpty s
        → fetch c db server n m (node_at d q) (default_at c laws k) s
          ≡ (ok (default_record_at c laws d q), s)
    fetch_empty d q k s level inside (ed, ec) =
        let (found, ef, answer) = server.find_document n (node_at d q) (default_at c laws k) s in
        let empty = rw (ed, ec) at answer in
        let no_one = none_found (node_at d q) (default_at c laws k) found empty in
        fetch_default c db server n m (node_at d q) (default_at c laws k)
          (default_record_at c laws d q) s (ef ∙ ap (λ o. (ok o, s)) no_one)
          (get_default_record_lem c laws d q (omega arith) inside)
          (ap (default_at c laws) (omega arith))

    default_tree_Held :
        (k d q : ℕ) (s : db.State)
        → d + k ≡ 32
        → q < 2 ^ d
        → IsEmpty s
        → Held (combine c) (record_node c) (fetch c db server n m) s (default_tree k) d q
    unfolding default_tree
    default_tree_Held zero d q s level inside empty = (
      default_record_at c laws d q,
      fetch_empty d q 0 s level inside empty,
      ap (default_at c laws) (omega arith),
    )
    default_tree_Held (suc k) d q s level inside empty =
        let up = root-default_tree k in
        let here : 32 - d ≡ suc k = omega arith in
        let below : 31 - d ≡ k = omega arith in
        let child =
          child_default-non_leaf c laws d (omega arith) ∙ ap (default_at c laws) below ∙ sym up in
        (
          default_record_at c laws d q,
          rw (up, ← default_at-suc c laws k) (fetch_empty d q (suc k) s level inside empty),
          (
            rw (up, here) (default_at-suc c laws k),
            ap some child,
            ap some child,
            default_tree_Held k (suc d) (2 * q + 0) s (omega arith) (omega (arith, two_pow-suc d))
                empty,
            default_tree_Held k (suc d) (2 * q + 1) s (omega arith) (omega (arith, two_pow-suc d))
                empty,
          ),
        )

    empty_root :
        (s : db.State) → IsEmpty s → IsRoot c db server n m s (root (combine c) (default_tree 32))
    unfolding must_get_root_merkle_record
    empty_root s (ed, ec) =
        let e = get_default_record_lem c laws 0 0 (omega arith) (omega arith) in
        (
          default_record_at c laws 0 0,
          rw (server.find_current n s, ec) (rw e),
          rw (root-default_tree 32) (fetch_empty 0 0 32 s refl (omega arith) (ed, ec)),
          sym (root-default_tree 32),
        )

    -- With a server that keeps its laws: a collection without documents and without a current root
    -- holds the tree of height 32 whose leaves all have the default hash.
    pub empty_Holds : (s : db.State) → IsEmpty s → Holds c db server n m s (default_tree 32)
    empty_Holds s (ed, ec) = record {
      valid = record {
        canonical = λ r inside. absurd (rw (ed, ec) at inside);
        backed = λ r at_root. absurd (let no = sym ec ∙ at_root in cc);
      };
      fields = default_tree-fields 32;
      tree = default_tree_Held 32 0 0 s refl (omega arith) (ed, ec);
      current = empty_root s (ed, ec);
    }
