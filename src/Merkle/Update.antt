-- ===== src/Merkle/Update.antt =====
-- The climb as a whole: from a tree that is held, with a new subtree that is held where a way ends,
-- to the changed tree.
use mathlib.Core.Path.{subst, subst₂}
use mathlib.Core.List.{append_assoc}
use zkc_state.Prelude.{
  ℕ, zero, suc, ◌+◌, ◌*◌, ◌/◌, ◌%◌, ◌^◌, ◌≤◌, ◌<◌, ◌≡◌, refl, ◌∙◌, Bool, true, false, not, List, [],
  ◌∷◌, ◌++◌, some, arith, ◌==◌, length, get_elem?, get_elem?-append,
}
use zkc_state.Prelude.Words.{two_pow-suc}
use zkc_state.Outcome.{Outcome, ok}
use zkc_state.Action.{Action}
use zkc_state.Merkle.Node.{MerkleNode}
use zkc_state.Merkle.Bounds.{node_at}
use zkc_state.Merkle.Walk.{climb}
use zkc_state.Merkle.Spec.{
  Tree, leaf, node, Turns, turn, turns, pick, root, siblings, subtree, replace, end_of,
  end_of-turns, length-turns, turn-parity,
}
use zkc_state.Merkle.Snoc.{graft, subtree-snoc, siblings-snoc, replace-snoc}
use zkc_state.Merkle.Descend.{Held}
use zkc_state.Merkle.Climb.{climb_step, Extends, Held_mono, Held-subtree, Held-graft}
use zkc_state.Merkle.Valid.{
  root-graft, length-siblings, Valid, Valid-subtree, Valid-pick, Valid-graft, pick-holds,
}

module _ {E S H N : Type 0} (combine : H → H → H) (ops : MerkleNode H N)
    (fetch : ℕ → H → Action E S N) (hash_of : H → H → Outcome E H)
    (store_parent : ℕ → H → H → H → Action E S (Unit {0})) (V : H → Type 0) (I : S → Type 0)
    (R : S → H → Type 0) where
  held_at :
      {s : S} (bs : Turns) (t u : Tree H) (d q : ℕ)
      → length bs ≡ d
      → end_of 0 bs ≡ q
      → subtree bs t ≡ some u
      → Held combine ops fetch s t 0 0
      → Held combine ops fetch s u d q
  held_at {s} bs t u d q el eq e held =
      let level : 0 + length bs ≡ d = omega arith in
      subst₂ (Held combine ops fetch s u) level eq
        (Held-subtree combine ops fetch bs t u 0 0 e held)

  Held-child :
      {s : S} (b : Bool) (l r : Tree H) (d q : ℕ)
      → Held combine ops fetch s (node l r) d q
      → Held combine ops fetch s (pick b l r) (suc d) (2 * q + turn b)
  Held-child true l r d q (a, f, (_, _, _, hl, hr)) = hr
  Held-child false l r d q (a, f, (_, _, _, hl, hr)) = hl

  -- What writing one parent does: it succeeds, keeps the invariant and the records that were there,
  -- and the parent can be fetched. At depth 0 it is the current root as well.
  pub record Written (s : S) (d q : ℕ) (l r : H) : Type 0 where
    pub after : S
    pub record_of : N
    pub returns : store_parent (node_at d q) (combine l r) l r s ≡ (ok tt, after)
    pub keeps : I after
    pub extends : Extends combine ops fetch s after
    pub found : fetch (node_at d q) (combine l r) after ≡ (ok record_of, after)
    pub hash : ops.hash record_of ≡ combine l r
    pub left : ops.left record_of ≡ some l
    pub right : ops.right record_of ≡ some r
    pub current : d ≡ 0 → R after (combine l r)

  -- What the climb does: it returns the root of the tree, which is held and current.
  pub record Climbed (s : S) (t : Tree H) (call : Action E S H) : Type 0 where
    pub after : S
    pub returns : call s ≡ (ok (root combine t), after)
    pub keeps : I after
    pub extends : Extends combine ops fetch s after
    pub held : Held combine ops fetch after t 0 0
    pub current : R after (root combine t)

  module _ (D : ℕ) (small : D ≤ 62)
      (hashes : (a b : H) → V a → V b → (hash_of a b ≡ ok (combine a b)) × V (combine a b))
      (writes : (d q : ℕ) (l r : H) (s : S)
        → d < D
        → q < 2 ^ d
        → I s
        → V l
        → V r
        → Written s d q l r) where
    V-root : (t : Tree H) → Valid combine V t → V (root combine t)
    V-root (leaf h) v = v
    V-root (node l r) (vl, vr) =
        (hashes (root combine l) (root combine r) (V-root l vl) (V-root r vr)).1

    -- What one level of the climb does.
    record Levelled (s : S) (m k : ℕ) (u g : Tree H) (assist : List H) : Type 0 where
      after : S
      returns :
          climb hash_of store_parent assist (suc m) k (root combine u) s
          ≡ climb hash_of store_parent assist m (k / 2) (root combine g) after
      keeps : I after
      extends : Extends combine ops fetch s after
      held : Held combine ops fetch after g m (k / 2)
      current : m ≡ 0 → R after (root combine g)

    climb_level :
        (m k : ℕ) (b : Bool) (l r u : Tree H) (assist : List H) (s : S)
        → m < D
        → k < 2 ^ suc m
        → (k % 2 == 1) ≡ b
        → get_elem? assist m ≡ some (root combine (pick (not b) l r))
        → V (root combine (pick (not b) l r))
        → V (root combine u)
        → I s
        → Held combine ops fetch s (pick (not b) l r) (suc m) (2 * (k / 2) + turn (not b))
        → Held combine ops fetch s u (suc m) (2 * (k / 2) + turn b)
        → Levelled s m k u (graft b l r u) assist
    climb_level m k b l r u assist s hm hk eb ex vx vh i beside here =
        let x = root combine (pick (not b) l r) in
        let h = root combine u in
        let vl = pick-holds V b h x vh vx in
        let vr = pick-holds V (not b) h x vh vx in
        let w =
          writes m (k / 2) (pick b h x) (pick (not b) h x) s hm (omega (arith, two_pow-suc m)) i vl
            vr in
        let rg = root-graft combine b l r u in
        let step =
          climb_step hash_of store_parent combine assist m k b h x s w.after (omega arith) hk eb ex
            (hashes (pick b h x) (pick (not b) h x) vl vr).0 w.returns in
        record {
          after = w.after;
          returns = rw rg step;
          keeps = w.keeps;
          extends = w.extends;
          held =
              Held-graft combine ops fetch b l r u w.record_of m (k / 2) (rw rg w.found)
                (rw rg w.hash) w.left w.right
                (Held_mono combine ops fetch (pick (not b) l r) (suc m) (2 * (k / 2) + turn (not b))
                  w.extends beside)
                (Held_mono combine ops fetch u (suc m) (2 * (k / 2) + turn b) w.extends here);
          current = λ z. rw rg (w.current z);
        }

    siblings_split :
        (bs : Turns) (b : Bool) (t l r : Tree H) (rest : List H)
        → subtree bs t ≡ some (node l r)
        → siblings combine (bs ++ b ∷ []) t ++ rest
          ≡ siblings combine bs t ++ root combine (pick (not b) l r) ∷ rest
    siblings_split bs b t l r rest e =
        rw (siblings-snoc combine bs b t l r e)
          (append_assoc (siblings combine bs t) (root combine (pick (not b) l r) ∷ []) rest)

    last_sibling :
        (bs : Turns) (m : ℕ) (t u : Tree H) (x : H) (rest : List H)
        → subtree bs t ≡ some u
        → length bs ≡ m
        → get_elem? (siblings combine bs t ++ x ∷ rest) m ≡ some x
    last_sibling bs m t u x rest e el =
        subst (λ n. get_elem? (siblings combine bs t ++ x ∷ rest) n ≡ some x)
          (length-siblings combine bs t u e ∙ el) (get_elem?-append (siblings combine bs t) x rest)

    pub climb_lem :
        (n k : ℕ) (t v u : Tree H) (rest assist : List H) (s : S)
        → n ≤ D
        → k < 2 ^ n
        → subtree (turns n k) t ≡ some v
        → assist ≡ siblings combine (turns n k) t ++ rest
        → Valid combine V t
        → Valid combine V u
        → I s
        → Held combine ops fetch s t 0 0
        → Held combine ops fetch s u n k
        → (n ≡ 0 → R s (root combine u))
        → Climbed s
            (replace (turns n k) t u)
            (climb hash_of store_parent assist n k (root combine u))
    unfolding turns climb
    climb_lem zero k t v u rest assist s hn hk ev ea vt vu i ht hu hr = record {
      after = s;
      returns = refl;
      keeps = i;
      extends = λ j h a f. f;
      held = let z : k ≡ 0 = omega arith in subst (Held combine ops fetch s u 0) z hu;
      current = hr refl;
    }
    climb_lem (suc m) k t v u rest assist s hn hk ev ea vt vu i ht hu hr =
        let b = k % 2 == 1 in
        let bs = turns m (k / 2) in
        let inside : k / 2 < 2 ^ m = omega (arith, two_pow-suc m) in
        let (l, r, parent, _) = subtree-snoc bs b t v ev in
        let vlr = Valid-subtree combine V bs t (node l r) parent vt in
        let all = ea ∙ siblings_split bs b t l r rest parent in
        let pair =
          held_at bs t (node l r) m (k / 2) (length-turns m (k / 2)) (end_of-turns m (k / 2) inside)
            parent ht in
        let one =
          climb_level m k b l r u assist s hn hk refl
            (rw all (
              last_sibling bs m t (node l r) (root combine (pick (not b) l r)) rest parent
                (length-turns m (k / 2))))
            (V-root (pick (not b) l r) (Valid-pick combine V (not b) l r vlr)) (V-root u vu) i
            (Held-child (not b) l r m (k / 2) pair) (rw (turn-parity k) hu) in
        let ih =
          climb_lem m (k / 2) t (node l r) (graft b l r u) (root combine (pick (not b) l r) ∷ rest)
            assist one.after (omega arith) inside parent all vt
            (Valid-graft combine V b l r u vlr vu) one.keeps
            (Held_mono combine ops fetch t 0 0 one.extends ht) one.held one.current in
        let same = replace-snoc bs b t l r u parent in
        rw same (record {
          after = ih.after;
          returns = one.returns ∙ ih.returns;
          keeps = ih.keeps;
          extends = λ j h a f. ih.extends j h a (one.extends j h a f);
          held = ih.held;
          current = ih.current;
        })
