-- ===== src/Service/Faults/Reads.antt =====
-- Calls that are intended to read only, against a server that can fail: rules for each way to build
-- one.
use zkc_state.Prelude.{
  ℕ, ◌==◌, ◌≡◌, refl, Bool, true, false, List, [], ◌∷◌, Option, none, some, if◌then◌else◌,
}
use zkc_state.Prelude.Words.{add_u64, mul_u64}
use zkc_state.Outcome.{Outcome, ok, err, panic, unwrap, assert, map_err}
use zkc_state.Action.{Action, ◌>>=◌, lift, map_error}
use zkc_state.Merkle.Index.{get_sibling_index}
use zkc_state.Merkle.Node.{MerkleNode}
use zkc_state.Merkle.Walk.{child_hashes, descend}
use zkc_state.Service.Faults.Runs.{
  Runs, Runs-lift, Runs-map_error, Runs-bind, Runs-bind-err, Runs-bind-panic,
}

module _ {S : Type 0} (J : S → Type 0) where
  -- Both calls return the same and change nothing; the first may fail.
  pub record Reads {E A : Type 0} (call : Action E (S × ℕ) A) (intended : Action E S A) (s : S)
      : Type 0 where
    pub result : Outcome E A
    pub returns : intended s ≡ (result, s)
    pub runs : Runs J call s result s

  pub Reads-lift : {E A : Type 0} (r : Outcome E A) (s : S) → Reads (lift r) (lift r) s
  Reads-lift r s = record { result = r; returns = refl; runs = Runs-lift J r s }

  pub Reads-map_error :
      {E F A : Type 0} (f : E → F) {call : Action E (S × ℕ) A} {intended : Action E S A} {s : S}
      → Reads call intended s
      → Reads (map_error f call) (map_error f intended) s
  Reads-map_error f {call} {intended} {s} reads = record {
    result = map_err f reads.result;
    returns = rw reads.returns refl;
    runs = Runs-map_error J f call reads.result s s reads.runs;
  }

  module _ {E A B : Type 0} (call : Action E (S × ℕ) A) (intended : Action E S A)
      (rest : A → Action E (S × ℕ) B) (intended_rest : A → Action E S B) (s : S) where
    Reads-after :
        (r : Outcome E A)
        → intended s ≡ (r, s)
        → Runs J call s r s
        → ((a : A) → Reads (rest a) (intended_rest a) s)
        → Reads (call >>= rest) (intended >>= intended_rest) s
    Reads-after (ok a) e runs reads = record {
      result = (reads a).result;
      returns = rw e (reads a).returns;
      runs = Runs-bind J call rest a (reads a).result s s s runs (reads a).runs;
    }
    Reads-after (err x) e runs reads = record {
      result = err x;
      returns = rw e refl;
      runs = Runs-bind-err J call rest x s s runs;
    }
    Reads-after panic e runs reads = record {
      result = panic;
      returns = rw e refl;
      runs = Runs-bind-panic J call rest s s runs;
    }

    pub Reads-bind :
        Reads call intended s
        → ((a : A) → Reads (rest a) (intended_rest a) s)
        → Reads (call >>= rest) (intended >>= intended_rest) s
    Reads-bind first reads = Reads-after first.result first.returns first.runs reads

  -- The rest of a block may follow a value that is at hand.
  pub Reads-lift-bind :
      {E A B : Type 0} (r : Outcome E A) {rest : A → Action E (S × ℕ) B}
      {intended_rest : A → Action E S B} {s : S}
      → ((a : A) → Reads (rest a) (intended_rest a) s)
      → Reads (lift r >>= rest) (lift r >>= intended_rest) s
  Reads-lift-bind (ok a) reads = reads a
  Reads-lift-bind (err e) {s = s} reads = Reads-lift (err e) s
  Reads-lift-bind panic {s = s} reads = Reads-lift panic s

  pub Reads-if :
      {E A : Type 0} (b : Bool) {call other : Action E (S × ℕ) A}
      {intended intended_other : Action E S A} {s : S}
      → Reads call intended s
      → Reads other intended_other s
      → Reads (if b then call else other) (if b then intended else intended_other) s
  Reads-if true reads reads_other = reads
  Reads-if false reads reads_other = reads_other

  pub Reads-Option :
      {E A B : Type 0} (found : Option A) {missing : Action E (S × ℕ) B}
      {intended_missing : Action E S B} {present : A → Action E (S × ℕ) B}
      {intended_present : A → Action E S B} {s : S}
      → Reads missing intended_missing s
      → ((a : A) → Reads (present a) (intended_present a) s)
      → Reads
          (elim found [ none ↦ missing | some a ↦ present a ])
          (elim found [ none ↦ intended_missing | some a ↦ intended_present a ])
          s
  Reads-Option none at_none at_some = at_none
  Reads-Option (some a) at_none at_some = at_some a

  module _ {E H N : Type 0} (ops : MerkleNode H N) (call : ℕ → H → Action E (S × ℕ) N)
      (intended : ℕ → H → Action E S N) (s : S)
      (reads : (i : ℕ) (h : H) → Reads (call i h) (intended i h) s) where
    Reads-child_hashes :
        (acc child : ℕ) (a : N)
        → Reads (child_hashes ops call acc child a) (child_hashes ops intended acc child a) s
    unfolding child_hashes
    Reads-child_hashes acc child a =
        Reads-if (mul_u64 (add_u64 acc 1) 2 == add_u64 child 1)
          (Reads-lift-bind (unwrap (ops.left a))
            λ l. Reads-lift-bind (unwrap (ops.right a)) λ r. Reads-lift (ok (l, r)) s)
          (Reads-lift-bind (assert (mul_u64 (add_u64 acc 1) 2 == child)) λ _.
            Reads-lift-bind (unwrap (ops.right a))
              λ r. Reads-lift-bind (unwrap (ops.left a)) λ l. Reads-lift (ok (r, l)) s)

    pub Reads-descend :
        (paths : List ℕ) (acc : ℕ) (a : N)
        → Reads (descend ops call paths acc a) (descend ops intended paths acc a) s
    unfolding descend
    Reads-descend [] acc a = Reads-lift (ok (a, [])) s
    Reads-descend (child ∷ paths) acc a =
        Reads-bind _ _ _ _ s (Reads-child_hashes acc child a) λ hashes.
          Reads-bind _ _ _ _ s (reads (get_sibling_index child) hashes.1) λ beside.
            Reads-bind _ _ _ _ s (reads child hashes.0) λ x.
              Reads-bind _ _ _ _ s (Reads-descend paths child x)
                λ rest. Reads-lift (ok (rest.0, ops.hash beside ∷ rest.1)) s
