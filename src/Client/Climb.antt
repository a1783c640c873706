-- ===== src/Client/Climb.antt =====
-- The climb of `set_leaf_with_proof` of `MongoMerkle`: its `set_parent` on every level.
use mathlib.Core.Path.{subst}
use mathlib.Core.List.{append_assoc}
use zkc_state.Prelude.{
  ℕ, zero, suc, ◌/◌, ◌%◌, ◌^◌, ◌<◌, ◌≤◌, ◌≡◌, refl, ap, ◌∙◌, false, not, List, [], ◌∷◌, ◌++◌,
  Option, some, String, arith, length, get_elem?, get_elem?-append, ◌==◌,
}
use zkc_state.Prelude.Words.{two_pow-suc}
use zkc_state.Outcome.{ok}
use zkc_state.Hash.{Hash, Bytes}
use zkc_state.Crypto.{Crypto, CryptoLaws, CollisionFree}
use zkc_state.Merkle.Climb.{Extends, climb_step}
use zkc_state.Merkle.Node.{MerkleProof}
use zkc_state.Merkle.Rebuild.{rebuild-turns}
use zkc_state.Merkle.Snoc.{subtree-snoc, siblings-snoc}
use zkc_state.Merkle.Spec.{
  Tree, node, turns, pick, above, root, siblings, subtree, rebuild, length-turns,
}
use zkc_state.Merkle.Valid.{
  Valid, Valid-subtree, Valid-pick, root-Valid, length-siblings, pick-holds,
}
use zkc_state.Merkle.Walk.{climb}
use zkc_state.Kvpair.Hash.{ContractId, hash_children}
use zkc_state.Kvpair.Combine.{IsField, combine, hash_children_lem}
use zkc_state.Kvpair.Record.{record_node}
use zkc_state.Merkle.Error.{MerkleError}
use zkc_state.Service.Mongo.{Mongo}
use zkc_state.Service.Collection.{get_merkle_collection_name, get_data_collection_name}
use zkc_state.Service.Request.{MongoKvPair}
use zkc_state.Service.Laws.{MongoLaws}
use zkc_state.Service.Fetch.{fetch}
use zkc_state.Service.Insert.{Good}
use zkc_state.Client.Calls.{KvPairClient, MongoMerkle}
use zkc_state.Client.Tree.{set_parent}
use zkc_state.Client.Delivery.{Delivers}
use zkc_state.Client.Inner.{Sized, Serves}
use zkc_state.Client.Parent.{set_parent_get_node}

module _ (c : Crypto) (laws : CryptoLaws c) (free : CollisionFree c) (db : Mongo)
    (server : MongoLaws db) (serialize : MerkleProof Hash → Option Bytes) (host : MongoKvPair)
    (id : ContractId) (plain_host : host.with_indexes ≡ false) (sized : Sized c)
    (api : KvPairClient db.MongoError db.State) (delivers : Delivers c db serialize host api) where
  abbrev n : String
  n = get_merkle_collection_name c id

  abbrev m : String
  m = get_data_collection_name c id

  pub closed : (a b : Hash) → IsField c a → IsField c b → IsField c (combine c a b)
  closed a b fa fb = (hash_children_lem c laws {E = MerkleError} a b fa fb).1

  -- What the climb of the client leaves: its parents are stored, and the service's root stays.
  pub record ClimbedOver (merkle : MongoMerkle db.State) (top : Hash) (assist : List Hash) (d k : ℕ)
      (h : Hash) : Type 0 where
    pub after : db.State
    pub returns :
        climb (hash_children c) (set_parent c api) assist d k h merkle
        ≡ (ok top, record merkle { client = after })
    pub valid : Good c db server n m after
    pub extends : Extends (combine c) (record_node c) (fetch c db server n m) merkle.client after
    pub same_root : server.current n after ≡ server.current n merkle.client

  pub climb_over :
      (d k : ℕ) (t v : Tree Hash) (h : Hash) (rest assist : List Hash)
      (merkle : MongoMerkle db.State)
      → Serves c db.MongoError host merkle.contract_id id
      → d ≤ 32
      → k < 2 ^ d
      → subtree (turns d k) t ≡ some v
      → assist ≡ siblings (combine c) (turns d k) t ++ rest
      → Valid (combine c) (IsField c) t
      → IsField c h
      → Good c db server n m merkle.client
      → ClimbedOver merkle
          (rebuild (combine c) (turns d k) (siblings (combine c) (turns d k) t) h)
          assist
          d
          k
          h
  unfolding turns climb
  climb_over zero k t v h rest assist merkle serves level inside ev ea fields field good = record {
    after = merkle.client;
    returns = refl;
    valid = good;
    extends = λ j g a f. f;
    same_root = refl;
  }
  climb_over (suc d) k t v h rest assist merkle serves level inside ev ea fields field good =
      let b = k % 2 == 1 in
      let bs = turns d (k / 2) in
      let half : k / 2 < 2 ^ d = omega (arith, two_pow-suc d) in
      let (l, r, parent, _) = subtree-snoc bs b t v ev in
      let ys = siblings (combine c) bs t in
      let x = root (combine c) (pick (not b) l r) in
      let size : length ys ≡ d =
        length-siblings (combine c) bs t (node l r) parent ∙ length-turns d (k / 2) in
      let split = siblings-snoc (combine c) bs b t l r parent in
      let all : assist ≡ ys ++ x ∷ rest =
        ea ∙ ap (λ zs. zs ++ rest) split ∙ append_assoc ys (x ∷ []) rest in
      let found : get_elem? assist d ≡ some x =
        rw all
          (subst (λ i. get_elem? (ys ++ x ∷ rest) i ≡ some x) size (get_elem?-append ys x rest)) in
      let fx = root-Valid (combine c) (IsField c) closed (pick (not b) l r) (
        Valid-pick (combine c) (IsField c) (not b) l r
          (Valid-subtree (combine c) (IsField c) bs t (node l r) parent fields)) in
      let fl = pick-holds (IsField c) b h x field fx in
      let fr = pick-holds (IsField c) (not b) h x field fx in
      let (s, written, _, valid, extends, same) =
        set_parent_get_node c laws free db server serialize host id plain_host sized api delivers d
          (k / 2) (pick b h x) (pick (not b) h x) merkle serves (omega arith) half fl fr good in
      let (made, field') =
        hash_children_lem c laws {E = MerkleError} (pick b h x) (pick (not b) h x) fl fr in
      let step =
        climb_step (hash_children c) (set_parent c api) (combine c) assist d k b h x merkle
          (record merkle { client = s }) (omega arith) inside refl found made written in
      let ih =
        climb_over d (k / 2) t (node l r) (above (combine c) b x h) (x ∷ rest) assist
          (record merkle { client = s }) serves (omega arith) half parent all fields field' valid in
      record {
        after = ih.after;
        returns = rw split (rw (rebuild-turns (combine c) d k ys x h size) (step ∙ ih.returns));
        valid = ih.valid;
        extends = λ j g a f. ih.extends j g a (extends j g a f);
        same_root = ih.same_root ∙ same;
      }
