-- ===== src/Service/Faults/Climbs.antt =====
-- The loop of `set_leaf_and_get_proof` against a server that can fail, where writing one parent keeps
-- a predicate of the states on the way.
use zkc_state.Prelude.{
  ℕ, zero, suc, ◌/◌, ◌%◌, ◌^◌, ◌≤◌, ◌<◌, ◌≡◌, ◌==◌, ap, sym, ◌∙◌, refl, Bool, true, false, not,
  List, some, arith, get_elem?,
}
use zkc_state.Prelude.Words.{two_pow-suc}
use zkc_state.Outcome.{Outcome, ok, unwrap}
use zkc_state.Action.{Action, lift}
use zkc_state.Merkle.Bounds.{node_at}
use zkc_state.Merkle.Walk.{climb}
use zkc_state.Merkle.Climb.{climb_step, index_of_parent}
use zkc_state.Merkle.Spec.{pick, above}
use zkc_state.Merkle.Valid.{pick-holds}
use mathlib.Core.Path.{subst}
use zkc_state.Service.Faults.Runs.{Runs, Runs-lift, Runs-bind, Runs-value}

module _ {E S H : Type 0} (hash_of : H → H → Outcome E H)
    (store : ℕ → H → H → H → Action E S (Unit {0})) where
  climbed_to :
      (k : ℕ) (h a : H) (assist : List H) (s s' : S)
      → climb hash_of store assist 0 k h s ≡ (ok a, s')
      → (h ≡ a) × (s ≡ s')
  unfolding climb
  climbed_to k h a assist s s' e = (cc, cc)

module _ {E S H : Type 0} (J : S → Type 0) (combine : H → H → H) (hash_of : H → H → Outcome E H)
    (store : ℕ → H → H → H → Action E (S × ℕ) (Unit {0})) where
  Runs-level :
      (assist : List H) (m k : ℕ) (b : Bool) (h x a : H) (s s' s'' : S)
      → m ≤ 62
      → k < 2 ^ suc m
      → (k % 2 == 1) ≡ b
      → get_elem? assist m ≡ some x
      → hash_of (pick b h x) (pick (not b) h x) ≡ ok (above combine b x h)
      → Runs J
          (store (node_at m (k / 2)) (above combine b x h) (pick b h x) (pick (not b) h x))
          s
          (ok tt)
          s'
      → Runs J (climb hash_of store assist m (k / 2) (above combine b x h)) s' (ok a) s''
      → Runs J (climb hash_of store assist (suc m) k h) s (ok a) s''
  unfolding climb
  Runs-level assist m k true h x a s s' s'' small inside eb ex eh first rest =
      Runs-value J _ (ap unwrap ex) (
        rw eb (
          Runs-value J _ eh (
            rw (index_of_parent m k small inside) (
              Runs-bind J (store (node_at m (k / 2)) (above combine true x h) x h) _ tt (ok a) s s'
                s'' first rest))))
  Runs-level assist m k false h x a s s' s'' small inside eb ex eh first rest =
      Runs-value J _ (ap unwrap ex) (
        rw eb (
          Runs-value J _ eh (
            rw (index_of_parent m k small inside) (
              Runs-bind J (store (node_at m (k / 2)) (above combine false x h) h x) _ tt (ok a) s s'
                s'' first rest))))

  Runs-end :
      (assist : List H) (k : ℕ) (h a : H) (s : S)
      → h ≡ a
      → Runs J (climb hash_of store assist 0 k h) s (ok a) s
  unfolding climb
  Runs-end assist k h a s e =
      subst (λ x. Runs J {E = E} (lift (ok h)) s (ok x) s) e (Runs-lift J (ok h) s)

  module _ (intended : ℕ → H → H → H → Action E S (Unit {0})) (V : H → Type 0) (K : S → Type 0)
      (D : ℕ) (small : D ≤ 62)
      (hashes : (l r : H) → V l → V r → (hash_of l r ≡ ok (combine l r)) × V (combine l r)) where
    -- Writing a parent below the root.
    abbrev pub InnerRuns : Type 0
    InnerRuns =
        (d q : ℕ) (l r : H) (s : S)
        → 0 < d
        → d < D
        → q < 2 ^ d
        → K s
        → V l
        → V r
        → (s' : S) × K s'
          × (intended (node_at d q) (combine l r) l r s ≡ (ok tt, s'))
          × Runs J (store (node_at d q) (combine l r) l r) s (ok tt) s'

    -- Writing the root: where it ends has to be given.
    abbrev pub RootRuns : Type 0
    RootRuns =
        (q : ℕ) (l r : H) (s : S)
        → q < 1
        → K s
        → V l
        → V r
        → (s' : S) × (intended (node_at 0 q) (combine l r) l r s ≡ (ok tt, s'))
          × (J s' → Runs J (store (node_at 0 q) (combine l r) l r) s (ok tt) s')

    pub Runs-climb :
        InnerRuns
        → RootRuns
        → (n k : ℕ) (h a : H) (assist : List H) (s s' : S) → n < D
        → k < 2 ^ suc n
        → ((i : ℕ) → i < suc n → (x : H) × (get_elem? assist i ≡ some x) × V x)
        → V h
        → K s
        → J s'
        → climb hash_of intended assist (suc n) k h s ≡ (ok a, s')
        → Runs J (climb hash_of store assist (suc n) k h) s (ok a) s'
    Runs-climb inner top zero k h a assist s s' hn hk all vh on_way at_end e =
        let (x, ex, vx) = all 0 (omega arith) in
        let b = k % 2 == 1 in
        let vl = pick-holds V b h x vh vx in
        let vr = pick-holds V (not b) h x vh vx in
        let eh = (hashes _ _ vl vr).0 in
        let (t, et, runs) =
          top (k / 2) (pick b h x) (pick (not b) h x) s (omega arith) on_way vl vr in
        let step =
          climb_step hash_of intended combine assist 0 k b h x s t (omega arith) hk refl ex eh et in
        let ends = sym step ∙ e in
        let (same, at) =
          climbed_to hash_of intended (k / 2) (above combine b x h) a assist t s' ends in
        Runs-level assist 0 k b h x a s s' s' (omega arith) hk refl ex eh
          (subst
            (λ y.
              Runs J
                (store (node_at 0 (k / 2)) (above combine b x h) (pick b h x) (pick (not b) h x)) s
                (ok tt) y)
            at (runs (subst J (sym at) at_end)))
          (Runs-end assist (k / 2) (above combine b x h) a s' same)
    Runs-climb inner top (suc n) k h a assist s s' hn hk all vh on_way at_end e =
        let (x, ex, vx) = all (suc n) (omega arith) in
        let b = k % 2 == 1 in
        let vl = pick-holds V b h x vh vx in
        let vr = pick-holds V (not b) h x vh vx in
        let (eh, vp) = hashes _ _ vl vr in
        let inside : k / 2 < 2 ^ suc n = omega (arith, two_pow-suc (suc n)) in
        let (t, on_way', et, runs) =
          inner (suc n) (k / 2) (pick b h x) (pick (not b) h x) s (omega arith) hn inside on_way vl
            vr in
        let step =
          climb_step hash_of intended combine assist (suc n) k b h x s t (omega arith) hk refl ex eh
            et in
        Runs-level assist (suc n) k b h x a s t s' (omega arith) hk refl ex eh runs (
          Runs-climb inner top n (k / 2) (above combine b x h) a assist t s' (omega arith) inside
            (λ i below. all i (omega arith)) vp on_way' at_end (sym step ∙ e))
