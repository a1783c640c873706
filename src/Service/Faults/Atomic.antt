-- ===== src/Service/Faults/Atomic.antt =====
-- `set_leaf_and_get_proof` against a server that can fail, and the same call again.
use mathlib.Core.Path.{subst}
use zkc_state.Prelude.{ℕ, ◌^◌, ◌<◌, ◌≡◌, ◌⊎◌, ap, sym, ◌∙◌, inl, inr, some, String}
use zkc_state.Outcome.{Outcome, ok, err}
use zkc_state.Hash.{Hash}
use zkc_state.Crypto.{Crypto, CryptoLaws, CollisionFree}
use zkc_state.Merkle.Bounds.{node_at}
use zkc_state.Merkle.Node.{MerkleProof}
use zkc_state.Merkle.Spec.{Tree, leaf, turns, subtree, replace}
use zkc_state.Merkle.Valid.{subtree-replace, replace-replace}
use zkc_state.Merkle.Climb.{Held_mono}
use zkc_state.Kvpair.Record.{new_leaf, record_node}
use zkc_state.Kvpair.Combine.{IsField, combine}
use zkc_state.Service.Mongo.{Mongo}
use zkc_state.Service.Collection.{Failure, get_leaf_and_proof, set_leaf_and_get_proof}
use zkc_state.Service.Laws.{MongoLaws}
use zkc_state.Service.Fetch.{plain, fetch}
use zkc_state.Service.Leaf.{Holds, proof_of, get_leaf_and_proof_lem, set_leaf_and_get_proof_lem}
use zkc_state.Service.Isolation.{root_agree}
use zkc_state.Service.Faults.{Fault, faulty}
use zkc_state.Service.Faults.Runs.{EndsIn, Runs, Runs-bind}
use zkc_state.Service.Faults.Fetches.{Reads-get_leaf_and_proof}
use zkc_state.Service.Faults.OnWay.{OnWay, OnWay-origin, Runs-write_leaf}

module _ (c : Crypto) (db : Mongo) (server : MongoLaws db) (laws : CryptoLaws c)
    (free : CollisionFree c) (n m : String) (fault : ℕ → Fault db.MongoError) where
  abbrev down : Mongo
  down = faulty db fault

  abbrev HoldsIn : db.State → Tree Hash → Type 0
  HoldsIn = Holds c db server n m

  -- A state on the way still holds the tree of before.
  pub OnWay-Holds :
      (t : Tree Hash) (origin s : db.State)
      → HoldsIn origin t
      → OnWay c db server laws free n m origin s
      → HoldsIn s t
  OnWay-Holds t origin s held way =
      let (a, er, ef, eh) = held.current in
      record {
        valid = way.valid;
        fields = held.fields;
        tree =
            Held_mono (combine c) (record_node c) (fetch c db server n m) t 0 0 way.extends
              held.tree;
        current = (
          a,
          root_agree c db server laws free n m origin s way.same_root a er,
          way.extends _ _ a ef,
          eh,
        );
      }

  -- The tree of before or the tree of after.
  abbrev pub Either : Tree Hash → Tree Hash → db.State → Type 0
  Either t u s = HoldsIn s t ⊎ HoldsIn s u

  pub Runs-set_leaf :
      (k : ℕ) (t : Tree Hash) (old h : Hash) (s : db.State)
      → k < 2 ^ 32
      → subtree (turns 32 k) t ≡ some (leaf old)
      → IsField c h
      → HoldsIn s t
      → (s' : db.State) × Runs
          (Either t (replace (turns 32 k) t (leaf h)))
          (set_leaf_and_get_proof c down (plain c down n m) (new_leaf (node_at 32 k) h))
          s
          (ok (proof_of c db server n m t h k))
          s'
        × HoldsIn s' (replace (turns 32 k) t (leaf h))
  unfolding set_leaf_and_get_proof
  Runs-set_leaf k t old h s inside el field held =
      let J = Either t (replace (turns 32 k) t (leaf h)) in
      let set =
        set_leaf_and_get_proof_lem c db server n m laws free k t old h s inside el field held in
      let (a, got, _) = get_leaf_and_proof_lem c db server n m k t old s inside el held in
      let reads = Reads-get_leaf_and_proof c db server n m fault J s (inl held) (node_at 32 k) in
      let same = ap (λ x. x.0) (sym reads.returns ∙ got) in
      let written = rw got at set.returns in
      (
        set.after,
        Runs-bind J (get_leaf_and_proof c down (plain c down n m) (node_at 32 k)) _
            (a, proof_of c db server n m t old k) (ok (proof_of c db server n m t h k)) s s
            set.after
            (subst (λ r. Runs J (get_leaf_and_proof c down (plain c down n m) (node_at 32 k)) s r s)
              same reads.runs)
            (Runs-write_leaf c db server laws free n m s fault J
              (λ s' way. inl (OnWay-Holds t s s' held way)) k t old h s set.after
              (proof_of c db server n m t h k) inside el field held.fields
              (OnWay-origin c db server laws free n m s held.valid) (inr set.holds) written),
        set.holds,
      )

  -- With a server that keeps its laws but whose calls may each fail, before or after they take
  -- effect, a field and a Merkle hash without collisions.
  pub set_leaf_atomic :
      (k calls : ℕ) (t : Tree Hash) (old h : Hash) (s : db.State)
      → k < 2 ^ 32
      → subtree (turns 32 k) t ≡ some (leaf old)
      → IsField c h
      → HoldsIn s t
      → ((s' : db.State) × (calls' : ℕ) × (set_leaf_and_get_proof c down
              (plain c down n m)
              (new_leaf (node_at 32 k) h)
              (s, calls)
            ≡ (ok (proof_of c db server n m t h k), (s', calls')))
          × HoldsIn s' (replace (turns 32 k) t (leaf h)))
        ⊎ ((e : Failure c db) × (s' : db.State) × (calls' : ℕ) × (set_leaf_and_get_proof c down
                (plain c down n m)
                (new_leaf (node_at 32 k) h)
                (s, calls)
              ≡ (err e, (s', calls')))
            × (HoldsIn s' t ⊎ HoldsIn s' (replace (turns 32 k) t (leaf h))))
  set_leaf_atomic k calls t old h s inside el field held =
      let (s', runs, holds) = Runs-set_leaf k t old h s inside el field held in
      elim (runs.ends calls) [
        | inl (calls', e) ↦ inl (s', calls', e, holds)
        | inr (x, s'', calls', e, either) ↦ inr (x, s'', calls', e, either)
      ]

  failed_state :
      {A : Type 0} {out : Outcome (Failure c db) A × (db.State × ℕ)} {r : Outcome (Failure c db) A}
      {x : Failure c db} {J : db.State → Type 0} {s s' : db.State} {calls : ℕ}
      → EndsIn J out r s
      → J s
      → out ≡ (err x, (s', calls))
      → J s'
  failed_state {J = J} (inl (after, e)) j failed = subst J (ap (λ y. y.1.0) (sym e ∙ failed)) j
  failed_state {J = J} (inr (y, t, after, e, j')) j failed =
      subst J (ap (λ y. y.1.0) (sym e ∙ failed)) j'

  -- With a server that keeps its laws, but of whose calls each may fail, before or after it takes
  -- effect, a field and a Merkle hash without collisions: where `set_leaf_and_get_proof` of a leaf
  -- with a field element returned an error in a state that held a tree, the same call with the
  -- server working succeeds in the state that was left, and leaves one that holds the tree with
  -- the leaf replaced.
  pub set_leaf_retry :
      (k calls calls' : ℕ) (t : Tree Hash) (old h : Hash) (s s' : db.State) (e : Failure c db)
      → k < 2 ^ 32
      → subtree (turns 32 k) t ≡ some (leaf old)
      → IsField c h
      → HoldsIn s t
      → set_leaf_and_get_proof c down (plain c down n m) (new_leaf (node_at 32 k) h) (s, calls)
        ≡ (err e, (s', calls'))
      → (p : MerkleProof Hash) × (s'' : db.State) × (set_leaf_and_get_proof c db
            (plain c db n m)
            (new_leaf (node_at 32 k) h)
            s'
          ≡ (ok p, s''))
        × HoldsIn s'' (replace (turns 32 k) t (leaf h))
  set_leaf_retry k calls calls' t old h s s' e inside el field held failed =
      let u = replace (turns 32 k) t (leaf h) in
      let (end, runs, holds) = Runs-set_leaf k t old h s inside el field held in
      elim (failed_state (runs.ends calls) (inr holds) failed) [
        | inl before ↦
            let set =
              set_leaf_and_get_proof_lem c db server n m laws free k t old h s' inside el field
                before in
            (proof_of c db server n m t h k, set.after, set.returns, set.holds)
        | inr after ↦
            let set =
              set_leaf_and_get_proof_lem c db server n m laws free k u h h s' inside
                (subtree-replace (turns 32 k) t (leaf old) (leaf h) el) field after in
            (
              proof_of c db server n m u h k,
              set.after,
              set.returns,
              subst (HoldsIn set.after) (replace-replace (turns 32 k) t (leaf h)) set.holds,
            )
      ]
