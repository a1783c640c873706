-- ===== src/Merkle/Array/Climb.antt =====
-- The way up from a written node of `MerkleAsArray`.
use zkc_state.Prelude.{
  ℕ, zero, suc, ◌+◌, ◌*◌, ◌/◌, ◌%◌, ◌^◌, ◌≤◌, ◌<◌, ◌≡◌, ◌≢◌, ◌⊎◌, inl, inr, refl, sym, ◌∙◌, List,
  arith, Bool, true, false, not, lt→leb, ◌==◌, Bool-cases, ==_iff,
}
use zkc_state.Prelude.Words.{add_u64, u64_mod, two_pow-suc, one-le-two_pow, two_pow_mono}
use zkc_state.Outcome.{ok}
use zkc_state.Merkle.Bounds.{node_at}
use zkc_state.Merkle.Walk.{climb}
use zkc_state.Merkle.Spec.{above, pick}
use zkc_state.Merkle.Climb.{climb_step}
use zkc_state.Merkle.Array.{MerkleAsArray, updated, set_node, add_values}
use zkc_state.Merkle.Array.Reads.{beside, set_node_lem}
use zkc_state.Merkle.Array.Beside.{
  updated_same, updated_other, Sums, Above, Beside, beside_lem, Beside-end, touch,
}

-- A node and the one beside it are the left child and the right one.
children_lem :
    (a : MerkleAsArray) (m k : ℕ)
    → k < 2 ^ suc m
    → (pick (k % 2 == 1) (a (node_at (suc m) k)) (a (beside m k)) ≡ a (2 * node_at m (k / 2) + 1))
      × (pick (not (k % 2 == 1)) (a (node_at (suc m) k)) (a (beside m k))
          ≡ a (2 * node_at m (k / 2) + 2))
children_lem a m k inside = elim (Bool-cases (k % 2 == 1)) [
  | inl odd ↦
      let one : k % 2 ≡ 1 = (==_iff _ _).0 odd in
      let l : node_at (suc m) (2 * (k / 2) + 0) ≡ 2 * node_at m (k / 2) + 1 =
        omega (arith, two_pow-suc m, one-le-two_pow m) in
      let r : node_at (suc m) k ≡ 2 * node_at m (k / 2) + 2 =
        omega (arith, one, two_pow-suc m, one-le-two_pow m) in
      rw odd (rw (l, r) (refl, refl))
  | inr even ↦
      let two : k % 2 ≡ 0 = ground (arith, even) in
      let r : node_at (suc m) (2 * (k / 2) + 1) ≡ 2 * node_at m (k / 2) + 2 =
        omega (arith, two_pow-suc m, one-le-two_pow m) in
      let l : node_at (suc m) k ≡ 2 * node_at m (k / 2) + 1 =
        omega (arith, two, two_pow-suc m, one-le-two_pow m) in
      rw even (rw (l, r) (refl, refl))
]

above_lem :
    (a : MerkleAsArray) (m k : ℕ)
    → k < 2 ^ suc m
    → above add_u64 (k % 2 == 1) (a (beside m k)) (a (node_at (suc m) k))
      ≡ add_u64 (a (2 * node_at m (k / 2) + 1)) (a (2 * node_at m (k / 2) + 2))
above_lem a m k inside = let (l, r) = children_lem a m k inside in rw (l, r) refl

-- The build does not check, or no sum of two children overflows.
abbrev pub NoOverflow : Bool → MerkleAsArray → Type 0
NoOverflow checks a = (checks ≡ false) ⊎ ((i : ℕ) → i < 63 → a (2 * i + 1) + a (2 * i + 2) < 2 ^ 64)

add_values_lem :
    (checks : Bool) (x y : ℕ)
    → (checks ≡ false) ⊎ (x + y < 2 ^ 64)
    → add_values checks x y ≡ ok (add_u64 x y)
unfolding add_values
add_values_lem checks x y (inl off) = rw off refl
add_values_lem true x y (inr fits) = rw (lt→leb u64_mod (x + y) fits) refl
add_values_lem false x y (inr fits) = refl

NoOverflow-at :
    (checks : Bool) (a : MerkleAsArray) (i x y : ℕ)
    → i < 63
    → x ≡ a (2 * i + 1)
    → y ≡ a (2 * i + 2)
    → NoOverflow checks a
    → add_values checks x y ≡ ok (add_u64 x y)
NoOverflow-at checks a i x y low ex ey (inl off) = add_values_lem checks x y (inl off)
NoOverflow-at checks a i x y low ex ey (inr fits) =
    add_values_lem checks x y (inr (rw (ex, ey) (fits i low)))

-- The sum at the written node.
sum_here :
    (a : MerkleAsArray) (m k : ℕ)
    → k < 2 ^ suc m
    → Sums
        (updated
          (node_at m (k / 2))
          (above add_u64 (k % 2 == 1) (a (beside m k)) (a (node_at (suc m) k)))
          a)
        (node_at m (k / 2))
sum_here a m k inside =
    let w = node_at m (k / 2) in
    let x = above add_u64 (k % 2 == 1) (a (beside m k)) (a (node_at (suc m) k)) in
    rw
      (
        updated_same w x a,
        updated_other w x (2 * w + 1) a (λ e. absurd (omega (arith, e))),
        updated_other w x (2 * w + 2) a (λ e. absurd (omega (arith, e))),
      )
      (above_lem a m k inside)

pub climb_array :
    (checks : Bool) (m k h : ℕ) (a : MerkleAsArray) (xs : List ℕ)
    → m ≤ 6
    → k < 2 ^ m
    → a (node_at m k) ≡ h
    → Beside a xs m k
    → ((i : ℕ) → i < 63 → Sums a i ⊎ Above m k i)
    → (root : ℕ) × (a' : MerkleAsArray) × (NoOverflow checks a'
        → climb (add_values checks) (λ i x l r. set_node i x) xs m k h a ≡ (ok root, a'))
      × (a' 0 ≡ root)
      × ((i : ℕ) → i < 63 → Sums a' i)
      × ((i : ℕ) → 2 ^ m ≤ suc i → a' i ≡ a i)
unfolding climb
climb_array checks zero k h a xs small inside here beside_it sums =
    let top : node_at 0 k ≡ 0 = omega arith in
    (
      h,
      a,
      λ fits. refl,
      rw top at here,
      λ i low. elim (sums i low) [ inl e ↦ e | inr e ↦ absurd e ],
      λ i high. refl,
    )
climb_array checks (suc m) k h a xs small inside here (found, beside_it) sums =
    let w = node_at m (k / 2) in
    let x = above add_u64 (k % 2 == 1) (a (beside m k)) (a (node_at (suc m) k)) in
    let (_, _, half) = beside_lem m k inside in
    let low_w : w < 63 = omega (arith, half, two_pow_mono m 5 (omega arith), one-le-two_pow m) in
    let (root, a', climbed, top, all, leaves) =
      climb_array checks m (k / 2) x (updated w x a) xs (omega arith) half (updated_same w x a)
        (Beside-end a xs x m (k / 2) half beside_it)
        (λ i low. elim (Bool-cases (i == w)) [
          | inl same ↦ let e : i ≡ w = (==_iff _ _).0 same in rw e (inl (sum_here a m k inside))
          | inr differs ↦
              let apart : i ≢ w = λ e. absurd (ground (arith, e, differs)) in
              elim (sums i low) [
                | inl e ↦ touch a x m (k / 2) i half apart e
                | inr (inl e) ↦ absurd (apart e)
                | inr (inr e) ↦ inr e
              ]
        ]) in
    let child : (i : ℕ) → i ≢ w → 2 ^ m ≤ suc i → a i ≡ a' i =
      λ i apart low. sym (leaves i low ∙ updated_other w x i a apart) in
    let (el, er) = children_lem a m k inside in
    (
      root,
      a',
      λ fits. rw (← here) (
          climb_step (add_values checks) (λ i y l r. set_node i y) add_u64 xs m k (k % 2 == 1)
            (a (node_at (suc m) k)) (a (beside m k)) a (updated w x a) (omega arith) inside refl
            found
            (NoOverflow-at checks a' w _ _ low_w
              (el ∙ child (2 * w + 1) (λ e. absurd (omega (arith, e))) (omega arith))
              (er ∙ child (2 * w + 2) (λ e. absurd (omega (arith, e))) (omega arith)) fits)
            (set_node_lem w x a (omega arith))
          ∙ climbed fits),
      top,
      all,
      λ i high.
          leaves i (omega (arith, high, two_pow-suc m))
          ∙ updated_other w x i a
              (λ e. absurd (omega (arith, e, high, half, two_pow-suc m, one-le-two_pow m))),
    )
