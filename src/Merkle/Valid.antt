-- ===== src/Merkle/Valid.antt =====
-- Trees whose leaves are all valid hashes, and the tree that a write leaves.
use mathlib.Core.Path.{subst}
use zkc_state.Prelude.{
  ℕ, zero, suc, ◌^◌, ◌<◌, ◌≡◌, ◌≢◌, refl, ap, sym, ◌∙◌, Bool, true, false, not, [], ◌∷◌, some,
  arith, length, get_elem?,
}
use zkc_state.Merkle.Spec.{
  Tree, leaf, node, Turns, turns, pick, above, root, siblings, subtree, replace, end_of,
  end_of-turns,
}
use zkc_state.Merkle.Snoc.{graft}

module _ {H : Type 0} (combine : H → H → H) where
  pub root-graft :
      (b : Bool) (l r u : Tree H)
      → root combine (graft b l r u)
        ≡ above combine b (root combine (pick (not b) l r)) (root combine u)
  root-graft true l r u = refl
  root-graft false l r u = refl

  pub length-siblings :
      (bs : Turns) (t u : Tree H)
      → subtree bs t ≡ some u
      → length (siblings combine bs t) ≡ length bs
  length-siblings [] t u e = refl
  length-siblings (b ∷ bs) (leaf h) u e = absurd (cc)
  length-siblings (true ∷ bs) (node l r) u e = ap suc (length-siblings bs r u e)
  length-siblings (false ∷ bs) (node l r) u e = ap suc (length-siblings bs l u e)

  -- A tree whose leaves are valid hashes.
  abbrev pub Valid : (H → Type 0) → Tree H → Type 0
  Valid V (leaf h) = V h
  Valid V (node l r) = Valid V l × Valid V r

  pub Valid-subtree :
      (V : H → Type 0) (bs : Turns) (t u : Tree H) → subtree bs t ≡ some u → Valid V t → Valid V u
  Valid-subtree V [] t u e v = let same : t ≡ u = cc in subst (Valid V) same v
  Valid-subtree V (b ∷ bs) (leaf h) u e v = absurd (cc)
  Valid-subtree V (true ∷ bs) (node l r) u e v = Valid-subtree V bs r u e v.1
  Valid-subtree V (false ∷ bs) (node l r) u e v = Valid-subtree V bs l u e v.0

  pub Valid-pick :
      (V : H → Type 0) (b : Bool) (l r : Tree H) → Valid V (node l r) → Valid V (pick b l r)
  Valid-pick V true l r v = v.1
  Valid-pick V false l r v = v.0

  pub Valid-graft :
      (V : H → Type 0) (b : Bool) (l r u : Tree H)
      → Valid V (node l r)
      → Valid V u
      → Valid V (graft b l r u)
  Valid-graft V true l r u v vu = (v.0, vu)
  Valid-graft V false l r u v vu = (vu, v.1)

-- Where a parent of valid hashes is valid, so are all hashes of a tree with valid leaves.
module _ {H : Type 0} (combine : H → H → H) (V : H → Type 0)
    (closed : (a b : H) → V a → V b → V (combine a b)) where
  pub root-Valid : (t : Tree H) → Valid combine V t → V (root combine t)
  root-Valid (leaf h) v = v
  root-Valid (node l r) (vl, vr) =
      closed (root combine l) (root combine r) (root-Valid l vl) (root-Valid r vr)

  pub siblings-Valid :
      (bs : Turns) (t u : Tree H) (i : ℕ)
      → subtree bs t ≡ some u
      → Valid combine V t
      → i < length bs
      → (x : H) × (get_elem? (siblings combine bs t) i ≡ some x) × V x
  siblings-Valid [] t u i e v short = absurd (omega arith)
  siblings-Valid (b ∷ bs) (leaf h) u i e v short = absurd (cc)
  siblings-Valid (true ∷ bs) (node l r) u zero e (vl, vr) short =
      (root combine l, refl, root-Valid l vl)
  siblings-Valid (false ∷ bs) (node l r) u zero e (vl, vr) short =
      (root combine r, refl, root-Valid r vr)
  siblings-Valid (true ∷ bs) (node l r) u (suc i) e (vl, vr) short =
      siblings-Valid bs r u i e vr (omega arith)
  siblings-Valid (false ∷ bs) (node l r) u (suc i) e (vl, vr) short =
      siblings-Valid bs l u i e vl (omega arith)

pub pick-holds : {H : Type 0} (V : H → Type 0) (b : Bool) (x y : H) → V x → V y → V (pick b x y)
pick-holds V true x y vx vy = vy
pick-holds V false x y vx vy = vx

pub Valid-replace :
    {H : Type 0} (combine : H → H → H) (V : H → Type 0) (bs : Turns) (t u : Tree H)
    → Valid combine V t
    → Valid combine V u
    → Valid combine V (replace bs t u)
Valid-replace combine V [] t u vt vu = vu
Valid-replace combine V (b ∷ bs) (leaf h) u vt vu = vt
Valid-replace combine V (true ∷ bs) (node l r) u (vl, vr) vu =
    (vl, Valid-replace combine V bs r u vr vu)
Valid-replace combine V (false ∷ bs) (node l r) u (vl, vr) vu =
    (Valid-replace combine V bs l u vl vu, vr)

-- The subtree at the place of a write is the one that was written.
pub subtree-replace :
    {H : Type 0} (bs : Turns) (t v u : Tree H)
    → subtree bs t ≡ some v
    → subtree bs (replace bs t u) ≡ some u
subtree-replace [] t v u e = refl
subtree-replace (b ∷ bs) (leaf h) v u e = absurd (cc)
subtree-replace (true ∷ bs) (node l r) v u e = subtree-replace bs r v u e
subtree-replace (false ∷ bs) (node l r) v u e = subtree-replace bs l v u e

-- Elsewhere at that depth, a write changes nothing.
pub subtree-replace_other :
    {H : Type 0} (bs cs : Turns) (t u : Tree H)
    → length bs ≡ length cs
    → bs ≢ cs
    → subtree cs (replace bs t u) ≡ subtree cs t
subtree-replace_other [] [] t u e differ = absurd (differ refl)
subtree-replace_other [] (d ∷ cs) t u e differ = absurd (omega arith)
subtree-replace_other (b ∷ bs) [] t u e differ = absurd (omega arith)
subtree-replace_other (b ∷ bs) (d ∷ cs) (leaf h) u e differ = refl
subtree-replace_other (true ∷ bs) (true ∷ cs) (node l r) u e differ =
    subtree-replace_other bs cs r u (omega arith) (λ same. differ (ap (λ x. true ∷ x) same))
subtree-replace_other (true ∷ bs) (false ∷ cs) (node l r) u e differ = refl
subtree-replace_other (false ∷ bs) (true ∷ cs) (node l r) u e differ = refl
subtree-replace_other (false ∷ bs) (false ∷ cs) (node l r) u e differ =
    subtree-replace_other bs cs l u (omega arith) (λ same. differ (ap (λ x. false ∷ x) same))

-- Different nodes of one depth are reached by different turns.
pub turns-injective : (n j k : ℕ) → j < 2 ^ n → k < 2 ^ n → turns n j ≡ turns n k → j ≡ k
turns-injective n j k hj hk e = sym (end_of-turns n j hj) ∙ ap (end_of 0) e ∙ end_of-turns n k hk

pub replace-replace :
    {H : Type 0} (bs : Turns) (t u : Tree H) → replace bs (replace bs t u) u ≡ replace bs t u
replace-replace [] t u = refl
replace-replace (b ∷ bs) (leaf h) u = refl
replace-replace (true ∷ bs) (node l r) u = ap (node l) (replace-replace bs r u)
replace-replace (false ∷ bs) (node l r) u = ap (λ x. node x r) (replace-replace bs l u)
