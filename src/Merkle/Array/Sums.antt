-- ===== src/Merkle/Array/Sums.antt =====
-- Writing a leaf of `MerkleAsArray`, whose inner nodes are the sums of their children.
use native.Mathlib.Decide.{dec_lt}
use mathlib.Core.List.{append-nil}
use zkc_state.Prelude.{
  ℕ, zero, suc, ◌+◌, ◌-◌, ◌*◌, ◌/◌, ◌%◌, ◌≤◌, ◌⊎◌, Bool, false, ◌^◌, ◌<◌, ◌≡◌, ◌≢◌, inl, inr, refl,
  sym, ◌∙◌, [], arith, ◌==◌, Bool-cases, ==_iff,
}
use zkc_state.Prelude.Words.{two_pow-suc, one-le-two_pow, two_pow_mono}
use zkc_state.Outcome.{ok}
use zkc_state.Merkle.Node.{MerkleProof}
use zkc_state.Merkle.Tree.{set_leaf_with_proof, get_leaf_with_proof, get_path}
use zkc_state.Merkle.Path.{get_path-leaf, leaf_check-leaf, length-ancestors}
use zkc_state.Merkle.Bounds.{node_at, node_of, get_offset-node_at}
use zkc_state.Merkle.Array.{MerkleAsArray, merkle_as_array, updated}
use zkc_state.Merkle.Array.Reads.{assist_of, set_leaf_value_lem, node_in_lem, descend_array}
use zkc_state.Merkle.Array.Beside.{
  updated_same, updated_other, Sums, assist_of-Beside, Beside-end, touch,
}
use zkc_state.Merkle.Array.Climb.{climb_array, NoOverflow}

-- Every inner node is the sum of its children.
abbrev pub Summed : MerkleAsArray → Type 0
Summed a = (i : ℕ) → i < 63 → Sums a i

-- The sum of the leaves below the node `q` of depth `d`, which are `m` levels further down.
abbrev pub leaves_sum : MerkleAsArray → ℕ → ℕ → ℕ → ℕ
leaves_sum a zero d q = a (node_at d q)
leaves_sum a (suc m) d q = leaves_sum a m (suc d) (2 * q) + leaves_sum a m (suc d) (2 * q + 1)

-- The leaves are `u64`s.
abbrev pub LeavesFit : MerkleAsArray → Type 0
LeavesFit a = (j : ℕ) → j < 64 → a (node_at 6 j) < 2 ^ 64

Summed-leaves_sum :
    (a : MerkleAsArray) (m d q : ℕ)
    → Summed a
    → LeavesFit a
    → d + m ≡ 6
    → q < 2 ^ d
    → a (node_at d q) ≡ leaves_sum a m d q % 2 ^ 64
Summed-leaves_sum a zero d q sums fits level inside =
    let e : d ≡ 6 = omega arith in
    let inside' : q < 2 ^ 6 = rw e at inside in
    let fit : a (node_at d q) < 2 ^ 64 = rw e (fits q (omega arith)) in omega (arith, fit)
Summed-leaves_sum a (suc m) d q sums fits level inside =
    let l =
      Summed-leaves_sum a m (suc d) (2 * q) sums fits (omega arith)
        (omega (arith, inside, two_pow-suc d)) in
    let r =
      Summed-leaves_sum a m (suc d) (2 * q + 1) sums fits (omega arith)
        (omega (arith, inside, two_pow-suc d)) in
    let el : node_at (suc d) (2 * q) ≡ 2 * node_at d q + 1 =
      omega (arith, two_pow-suc d, one-le-two_pow d) in
    let er : node_at (suc d) (2 * q + 1) ≡ 2 * node_at d q + 2 =
      omega (arith, two_pow-suc d, one-le-two_pow d) in
    let low : node_at d q < 63 =
      omega (arith, inside, two_pow_mono d 5 (omega arith), one-le-two_pow d) in
    let l' = rw el at l in let r' = rw er at r in sums (node_at d q) low ∙ rw (l', r') (omega arith)

-- Two arrays with the same leaves have the same sums.
leaves_sum-agree :
    (a b : MerkleAsArray) (m d q : ℕ)
    → ((j : ℕ) → j < 64 → a (node_at 6 j) ≡ b (node_at 6 j))
    → d + m ≡ 6
    → q < 2 ^ d
    → leaves_sum a m d q ≡ leaves_sum b m d q
leaves_sum-agree a b zero d q same level inside =
    let e : d ≡ 6 = omega arith in
    let inside' : q < 2 ^ 6 = rw e at inside in rw e (same q (omega arith))
leaves_sum-agree a b (suc m) d q same level inside =
    let l =
      leaves_sum-agree a b m (suc d) (2 * q) same (omega arith)
        (omega (arith, inside, two_pow-suc d)) in
    let r =
      leaves_sum-agree a b m (suc d) (2 * q + 1) same (omega arith)
        (omega (arith, inside, two_pow-suc d)) in
    rw (l, r) refl

-- A part of the leaves has no larger sum than all of them.
leaves_sum-le :
    (a : MerkleAsArray) (m d q : ℕ)
    → d + m ≡ 6
    → q < 2 ^ d
    → leaves_sum a m d q ≤ leaves_sum a 6 0 0
leaves_sum-le a m zero q level inside =
    let e : m ≡ 6 = omega arith in let z : q ≡ 0 = omega arith in rw (e, z) (omega arith)
leaves_sum-le a m (suc d) q level inside =
    let above = leaves_sum-le a (suc m) d (q / 2) (omega arith) (omega (arith, two_pow-suc d)) in
    elim (Bool-cases (q % 2 == 1)) [
      | inl odd ↦
          let one : q % 2 ≡ 1 = (==_iff _ _).0 odd in
          let e : 2 * (q / 2) + 1 ≡ q = omega (arith, one) in
          let above' = rw e at above in omega (arith, above')
      | inr even ↦
          let two : q % 2 ≡ 0 = ground (arith, even) in
          let e : 2 * (q / 2) ≡ q = omega (arith, two) in
          let above' = rw e at above in omega (arith, above')
    ]

-- Where the sum of all leaves is a `u64`, no sum of two children overflows.
no_overflow :
    (a : MerkleAsArray)
    → Summed a
    → LeavesFit a
    → leaves_sum a 6 0 0 < 2 ^ 64
    → (i : ℕ) → i < 63
    → a (2 * i + 1) + a (2 * i + 2) < 2 ^ 64
no_overflow a sums fits total i low =
    let (d, q, _, ei, inside) = node_of {E = Unit {0}} i (omega arith) in
    let upper : d < 6 = elim (dec_lt d 6) [
      | yes less ↦ less
      | no more ↦ absurd (omega (arith, ei, low, two_pow_mono 6 d (omega arith)))
    ] in
    let m = 5 - d in
    let level : d + suc m ≡ 6 = omega arith in
    let el : node_at (suc d) (2 * q) ≡ 2 * i + 1 =
      omega (arith, ei, two_pow-suc d, one-le-two_pow d) in
    let er : node_at (suc d) (2 * q + 1) ≡ 2 * i + 2 =
      omega (arith, ei, two_pow-suc d, one-le-two_pow d) in
    let l =
      Summed-leaves_sum a m (suc d) (2 * q) sums fits (omega arith)
        (omega (arith, inside, two_pow-suc d)) in
    let r =
      Summed-leaves_sum a m (suc d) (2 * q + 1) sums fits (omega arith)
        (omega (arith, inside, two_pow-suc d)) in
    let l' = rw el at l in
    let r' = rw er at r in
    let part = leaves_sum-le a (suc m) d q level inside in omega (arith, l', r', part, total)

-- The array with a leaf set, before its parents are.
abbrev pub with_leaf : ℕ → ℕ → MerkleAsArray → MerkleAsArray
with_leaf k x a = updated (node_at 6 k) x a

with_leaf-LeavesFit :
    (k x : ℕ) (a : MerkleAsArray) → x < 2 ^ 64 → LeavesFit a → LeavesFit (with_leaf k x a)
with_leaf-LeavesFit k x a word fits j low = elim (Bool-cases (node_at 6 j == node_at 6 k)) [
  | inl same ↦ rw same word
  | inr differs ↦ rw differs (fits j low)
]

-- In the array of the tests, where the leaves are `u64`s and every inner node is the wrapped sum
-- of its children, in a build without overflow checks, or in one with them if the sum of all
-- leaves, the leaf `k` of the 64 set to a `u64` `x`, is below 2 ^ 64: `set_leaf_with_proof` of the
-- leaf `k` with the value `x` succeeds. Afterwards the leaf has the value `x` and the other leaves
-- have theirs, every inner node is the wrapped sum of its children, the proof has the array's
-- root, and that root is the sum of all 64 leaves modulo 2 ^ 64.
pub set_leaf_array :
    (checks : Bool) (k x : ℕ) (a : MerkleAsArray)
    → k < 64
    → x < 2 ^ 64
    → Summed a
    → LeavesFit a
    → (checks ≡ false) ⊎ (leaves_sum (with_leaf k x a) 6 0 0 < 2 ^ 64)
    → (proof : MerkleProof ℕ) × (a' : MerkleAsArray) × (set_leaf_with_proof
          (merkle_as_array checks)
          6
          (record { value = x; index = node_at 6 k })
          a
        ≡ (ok proof, a'))
      × (proof.root ≡ (merkle_as_array checks).get_root_hash a')
      × (proof.root ≡ leaves_sum a' 6 0 0 % 2 ^ 64)
      × Summed a'
      × LeavesFit a'
      × (a' (node_at 6 k) ≡ x)
      × ((j : ℕ) → j < 64 → j ≢ k → a' (node_at 6 j) ≡ a (node_at 6 j))
unfolding set_leaf_with_proof get_leaf_with_proof get_path
set_leaf_array checks k x a inside word sums fits bound =
    let w = node_at 6 k in
    let a0 = with_leaf k x a in
    let (root, a', climbed, top, all, leaves) =
      climb_array checks 6 k x a0 (assist_of a 6 k) (omega arith) (omega arith) (updated_same w x a)
        (Beside-end a (assist_of a 6 k) x 6 k (omega arith)
          (assist_of-Beside a 6 k (assist_of a 6 k) [] (sym (append-nil _))))
        (λ i low.
          touch a x 6 k i (omega arith) (λ e. absurd (omega (arith, e, low))) (sums i low)) in
    let same : (j : ℕ) → j < 64 → a' (node_at 6 j) ≡ a0 (node_at 6 j) =
      λ j low. leaves (node_at 6 j) (omega arith) in
    let fits' : LeavesFit a' =
      λ j low. rw (same j low) (with_leaf-LeavesFit k x a word fits j low) in
    let total : a' 0 ≡ leaves_sum a' 6 0 0 % 2 ^ 64 =
      Summed-leaves_sum a' 6 0 0 all fits' (omega arith) (omega arith) in
    let equal = leaves_sum-agree a' a0 6 0 0 same refl (omega arith) in
    let quiet : NoOverflow checks a' = elim bound [
      | inl off ↦ inl off
      | inr small ↦ inr (no_overflow a' all fits' (rw equal small))
    ] in
    (
      record { source = x; root = root; assist = assist_of a 6 k; index = w },
      a',
      rw (leaf_check-leaf 6 k (omega arith) (omega arith)) (
          rw (get_path-leaf 6 k (omega arith) (omega arith), length-ancestors 6 k)
            (rw (node_in_lem 0 a (omega arith)) (
              rw (descend_array a k inside) (
                rw (get_offset-node_at 6 k (omega arith) (omega arith)) (
                  rw (set_leaf_value_lem w x a (omega arith) (omega arith))
                    (rw (climbed quiet) refl)))))),
      sym top,
      sym top ∙ total,
      all,
      fits',
      same k inside ∙ updated_same w x a,
      λ j low other.
          same j low ∙ updated_other w x (node_at 6 j) a (λ e. absurd (other (omega (arith, e)))),
    )
