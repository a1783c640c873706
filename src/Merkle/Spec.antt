-- ===== src/Merkle/Spec.antt =====
-- What the walks over the levels mean: a tree of hashes, and a way down as a list of turns.
use zkc_state.Prelude.{
  ℕ, zero, suc, ◌+◌, ◌*◌, ◌/◌, ◌%◌, ◌^◌, ◌<◌, ◌≡◌, refl, ap, Bool, true, false, not, List, [], ◌∷◌,
  ◌++◌, Option, none, some, arith, ◌==◌, length, length-append,
}
use zkc_state.Prelude.Words.{two_pow-suc}
use zkc_state.Merkle.Bounds.{node_at}
use zkc_state.Merkle.Path.{ancestors}

pub data Tree (H : Type 0) : Type 0 where
  leaf : H → Tree H
  node : Tree H → Tree H → Tree H

-- A turn is `true` to the right.
abbrev pub Turns : Type 0
Turns = List Bool

abbrev pub turn : Bool → ℕ
turn true = 1
turn false = 0

-- The child on the side of a turn.
abbrev pub pick {ℓ} : {A : Type ℓ} → Bool → A → A → A
pick true l r = r
pick false l r = l

module _ {H : Type 0} (combine : H → H → H) where
  abbrev pub root : Tree H → H
  root (leaf h) = h
  root (node l r) = combine (root l) (root r)

  -- The hashes beside the way down, from the top.
  abbrev pub siblings : Turns → Tree H → List H
  siblings [] t = []
  siblings (b ∷ bs) (leaf h) = []
  siblings (true ∷ bs) (node l r) = root l ∷ siblings bs r
  siblings (false ∷ bs) (node l r) = root r ∷ siblings bs l

  -- The hash above a hash, its sibling and the turn taken to it.
  abbrev pub above : Bool → H → H → H
  above b sibling h = combine (pick b h sibling) (pick (not b) h sibling)

  -- The root that a hash at the end of a way has, with the hashes beside the way.
  abbrev pub rebuild : Turns → List H → H → H
  rebuild (b ∷ bs) (x ∷ xs) h = above b x (rebuild bs xs h)
  rebuild _ _ h = h

abbrev pub subtree : {H : Type 0} → Turns → Tree H → Option (Tree H)
subtree [] t = some t
subtree (b ∷ bs) (leaf h) = none
subtree (true ∷ bs) (node l r) = subtree bs r
subtree (false ∷ bs) (node l r) = subtree bs l

abbrev pub replace : {H : Type 0} → Turns → Tree H → Tree H → Tree H
replace [] t u = u
replace (b ∷ bs) (leaf h) u = leaf h
replace (true ∷ bs) (node l r) u = node l (replace bs r u)
replace (false ∷ bs) (node l r) u = node (replace bs l u) r

-- The turns to the node `k` of depth `n`: the binary digits of `k`, the highest first.
unfoldable pub turns : ℕ → ℕ → Turns
turns zero k = []
turns (suc n) k = turns n (k / 2) ++ (k % 2 == 1) ∷ []

pub length-turns : (n k : ℕ) → length (turns n k) ≡ n
unfolding turns
length-turns zero k = refl
length-turns (suc n) k =
    omega (arith, length-append (turns n (k / 2)) ((k % 2 == 1) ∷ []), length-turns n (k / 2))

-- The node indices on the way from the node `q` of depth `d`.
unfoldable pub way_down : ℕ → ℕ → Turns → List ℕ
way_down d q [] = []
way_down d q (b ∷ bs) = node_at (suc d) (2 * q + turn b) ∷ way_down (suc d) (2 * q + turn b) bs

-- Where a way ends.
abbrev pub end_of : ℕ → Turns → ℕ
end_of q [] = q
end_of q (b ∷ bs) = end_of (2 * q + turn b) bs

way_down-snoc :
    (d q : ℕ) (bs : Turns) (b : Bool)
    → way_down d q (bs ++ b ∷ [])
      ≡ way_down d q bs ++ node_at (suc (d + length bs)) (2 * end_of q bs + turn b) ∷ []
unfolding way_down
way_down-snoc d q [] b = let e : d + 0 ≡ d = omega arith in rw e
way_down-snoc d q (c ∷ bs) b =
    let e : d + suc (length bs) ≡ suc d + length bs = omega arith in
    rw e
      (ap (λ l. node_at (suc d) (2 * q + turn c) ∷ l) (way_down-snoc (suc d) (2 * q + turn c) bs b))

end_of-snoc : (q : ℕ) (bs : Turns) (b : Bool) → end_of q (bs ++ b ∷ []) ≡ 2 * end_of q bs + turn b
end_of-snoc q [] b = refl
end_of-snoc q (c ∷ bs) b = end_of-snoc (2 * q + turn c) bs b

pub turn-parity : (k : ℕ) → 2 * (k / 2) + turn (k % 2 == 1) ≡ k
turn-parity k = ground arith

-- The turns to the node `k` lead there.
pub end_of-turns : (n k : ℕ) → k < 2 ^ n → end_of 0 (turns n k) ≡ k
unfolding turns
end_of-turns zero k h = omega arith
end_of-turns (suc n) k h =
    rw (end_of-snoc 0 (turns n (k / 2)) (k % 2 == 1))
      (rw (end_of-turns n (k / 2) (omega (arith, two_pow-suc n))) (turn-parity k))

-- They pass the ancestors of the node.
pub way_down-turns : (n k : ℕ) → k < 2 ^ n → way_down 0 0 (turns n k) ≡ ancestors n k
unfolding turns ancestors way_down
way_down-turns zero k h = refl
way_down-turns (suc n) k h =
    let small : k / 2 < 2 ^ n = omega (arith, two_pow-suc n) in
    rw (way_down-snoc 0 0 (turns n (k / 2)) (k % 2 == 1)) (
      rw (end_of-turns n (k / 2) small, length-turns n (k / 2), turn-parity k)
        (rw (way_down-turns n (k / 2) small) (let start : 0 + n ≡ n = omega arith in rw start)))
