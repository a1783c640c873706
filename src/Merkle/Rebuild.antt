-- ===== src/Merkle/Rebuild.antt =====
-- A hash, the hashes beside its way and the turns determine the root, and only those hashes do where
-- the hash function has no collisions.
use mathlib.Core.List.{reverse-append}
use zkc_state.Prelude.{
  ℕ, suc, ◌/◌, ◌%◌, ◌≡◌, refl, ap, ◌∙◌, sym, Bool, true, false, List, [], ◌∷◌, ◌++◌, reverse, some,
  arith, ◌==◌, length, length-append,
}
use zkc_state.Merkle.Spec.{
  Tree, leaf, node, Turns, turns, length-turns, above, root, siblings, subtree, rebuild, replace,
}
use zkc_state.Merkle.Valid.{Valid, Valid-replace, root-Valid}

module _ {H : Type 0} (combine : H → H → H) where
  pub rebuild-siblings :
      (bs : Turns) (t u : Tree H)
      → subtree bs t ≡ some u
      → rebuild combine bs (siblings combine bs t) (root combine u) ≡ root combine t
  rebuild-siblings [] t u e = let same : t ≡ u = cc in ap (root combine) (sym same)
  rebuild-siblings (b ∷ bs) (leaf h) u e = absurd (cc)
  rebuild-siblings (true ∷ bs) (node l r) u e =
      ap (combine (root combine l)) (rebuild-siblings bs r u e)
  rebuild-siblings (false ∷ bs) (node l r) u e =
      ap (λ x. combine x (root combine r)) (rebuild-siblings bs l u e)

  pub rebuild-replace :
      (bs : Turns) (t u : Tree H) (h : H)
      → subtree bs t ≡ some u
      → rebuild combine bs (siblings combine bs t) h ≡ root combine (replace bs t (leaf h))
  rebuild-replace [] t u h e = refl
  rebuild-replace (b ∷ bs) (leaf x) u h e = absurd (cc)
  rebuild-replace (true ∷ bs) (node l r) u h e =
      ap (combine (root combine l)) (rebuild-replace bs r u h e)
  rebuild-replace (false ∷ bs) (node l r) u h e =
      ap (λ x. combine x (root combine r)) (rebuild-replace bs l u h e)

  -- The root of a tree of valid hashes tells what a leaf is replaced by.
  module _ (V : H → Type 0) (closed : (a b : H) → V a → V b → V (combine a b))
      (injective : (a b x y : H)
        → V a
        → V b
        → V x
        → V y
        → combine a b ≡ combine x y
        → (a ≡ x) × (b ≡ y)) where
    pub root-replace :
        (bs : Turns) (t u : Tree H) (h g : H)
        → subtree bs t ≡ some u
        → Valid combine V t
        → V h
        → V g
        → root combine (replace bs t (leaf h)) ≡ root combine (replace bs t (leaf g))
        → h ≡ g
    root-replace [] t u h g e v vh vg same = same
    root-replace (b ∷ bs) (leaf x) u h g e v vh vg same = absurd (cc)
    root-replace (true ∷ bs) (node l r) u h g e (vl, vr) vh vg same =
        let top = root-Valid combine V closed in
        root-replace bs r u h g e vr vh vg
          (injective _ _ _ _ (top l vl)
            (top (replace bs r (leaf h)) (Valid-replace combine V bs r (leaf h) vr vh)) (top l vl)
            (top (replace bs r (leaf g)) (Valid-replace combine V bs r (leaf g) vr vg)) same).1
    root-replace (false ∷ bs) (node l r) u h g e (vl, vr) vh vg same =
        let top = root-Valid combine V closed in
        root-replace bs l u h g e vl vh vg
          (injective _ _ _ _
            (top (replace bs l (leaf h)) (Valid-replace combine V bs l (leaf h) vl vh)) (top r vr)
            (top (replace bs l (leaf g)) (Valid-replace combine V bs l (leaf g) vl vg)) (top r vr)
            same).0

  pub rebuild-snoc :
      (bs : Turns) (xs : List H) (b : Bool) (x h : H)
      → length bs ≡ length xs
      → rebuild combine (bs ++ b ∷ []) (xs ++ x ∷ []) h
        ≡ rebuild combine bs xs (above combine b x h)
  rebuild-snoc [] [] b x h e = refl
  rebuild-snoc [] (y ∷ xs) b x h e = absurd (omega arith)
  rebuild-snoc (c ∷ bs) [] b x h e = absurd (omega arith)
  rebuild-snoc (c ∷ bs) (y ∷ xs) b x h e =
      ap (above combine c y) (rebuild-snoc bs xs b x h (omega arith))

  module _ (injective : (a b c d : H) → combine a b ≡ combine c d → (a ≡ c) × (b ≡ d)) where
    above-injective :
        (b : Bool) (x y h g : H) → above combine b x h ≡ above combine b y g → (x ≡ y) × (h ≡ g)
    above-injective true x y h g e = injective x h y g e
    above-injective false x y h g e = let (p, q) = injective h x g y e in (q, p)

    pub rebuild-injective :
        (bs : Turns) (xs ys : List H) (h g : H)
        → length xs ≡ length bs
        → length ys ≡ length bs
        → rebuild combine bs xs h ≡ rebuild combine bs ys g
        → (xs ≡ ys) × (h ≡ g)
    rebuild-injective [] [] [] h g ex ey e = (refl, e)
    rebuild-injective [] (x ∷ xs) ys h g ex ey e = absurd (omega arith)
    rebuild-injective [] [] (y ∷ ys) h g ex ey e = absurd (omega arith)
    rebuild-injective (b ∷ bs) [] ys h g ex ey e = absurd (omega arith)
    rebuild-injective (b ∷ bs) (x ∷ xs) [] h g ex ey e = absurd (omega arith)
    rebuild-injective (b ∷ bs) (x ∷ xs) (y ∷ ys) h g ex ey e =
        let (top, below) = above-injective b x y _ _ e in
        let (rest, same) = rebuild-injective bs xs ys h g (omega arith) (omega arith) below in
        (cc, same)

  -- The root by the turns to a node's parent: the lowest level is hashed first.
  pub rebuild-turns :
      (n k : ℕ) (xs : List H) (x h : H)
      → length xs ≡ n
      → rebuild combine (turns (suc n) k) (xs ++ x ∷ []) h
        ≡ rebuild combine (turns n (k / 2)) xs (above combine (k % 2 == 1) x h)
  unfolding turns
  rebuild-turns n k xs x h e =
      rebuild-snoc (turns n (k / 2)) xs (k % 2 == 1) x h (length-turns n (k / 2) ∙ sym e)

pub length-reverse {ℓ} : {A : Type ℓ} (xs : List A) → length (reverse xs) ≡ length xs
length-reverse [] = refl
length-reverse (x ∷ xs) =
    ap length (reverse-append (x ∷ []) xs)
    ∙ omega (arith, length-append (reverse xs) (x ∷ []), length-reverse xs)
