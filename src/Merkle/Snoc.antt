-- ===== src/Merkle/Snoc.antt =====
-- The way to a node is the way to its parent and one more turn.
use zkc_state.Prelude.{◌≡◌, refl, ap, Bool, true, false, not, [], ◌∷◌, ◌++◌, some}
use zkc_state.Merkle.Spec.{Tree, leaf, node, Turns, pick, root, siblings, subtree, replace}

-- A node with a child on one side given anew.
abbrev pub graft : {H : Type 0} → Bool → Tree H → Tree H → Tree H → Tree H
graft true l r u = node l u
graft false l r u = node u r

pub subtree-snoc :
    {H : Type 0} (bs : Turns) (b : Bool) (t v : Tree H)
    → subtree (bs ++ b ∷ []) t ≡ some v
    → (l : Tree H) × (r : Tree H) × (subtree bs t ≡ some (node l r)) × (v ≡ pick b l r)
subtree-snoc [] b (leaf h) v e = absurd (cc)
subtree-snoc [] true (node l r) v e = (l, r, refl, cc)
subtree-snoc [] false (node l r) v e = (l, r, refl, cc)
subtree-snoc (c ∷ bs) b (leaf h) v e = absurd (cc)
subtree-snoc (true ∷ bs) b (node l r) v e = subtree-snoc bs b r v e
subtree-snoc (false ∷ bs) b (node l r) v e = subtree-snoc bs b l v e

pub siblings-snoc :
    {H : Type 0} (combine : H → H → H) (bs : Turns) (b : Bool) (t l r : Tree H)
    → subtree bs t ≡ some (node l r)
    → siblings combine (bs ++ b ∷ []) t
      ≡ siblings combine bs t ++ root combine (pick (not b) l r) ∷ []
siblings-snoc combine [] true t l r e = let same : t ≡ node l r = cc in rw same
siblings-snoc combine [] false t l r e = let same : t ≡ node l r = cc in rw same
siblings-snoc combine (c ∷ bs) b (leaf h) l r e = absurd (cc)
siblings-snoc combine (true ∷ bs) b (node x y) l r e =
    ap (λ s. root combine x ∷ s) (siblings-snoc combine bs b y l r e)
siblings-snoc combine (false ∷ bs) b (node x y) l r e =
    ap (λ s. root combine y ∷ s) (siblings-snoc combine bs b x l r e)

pub replace-snoc :
    {H : Type 0} (bs : Turns) (b : Bool) (t l r u : Tree H)
    → subtree bs t ≡ some (node l r)
    → replace (bs ++ b ∷ []) t u ≡ replace bs t (graft b l r u)
replace-snoc [] true t l r u e = let same : t ≡ node l r = cc in rw same
replace-snoc [] false t l r u e = let same : t ≡ node l r = cc in rw same
replace-snoc (c ∷ bs) b (leaf h) l r u e = absurd (cc)
replace-snoc (true ∷ bs) b (node x y) l r u e = ap (λ z. node x z) (replace-snoc bs b y l r u e)
replace-snoc (false ∷ bs) b (node x y) l r u e = ap (λ z. node z y) (replace-snoc bs b x l r u e)
