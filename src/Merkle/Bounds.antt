-- ===== src/Merkle/Bounds.antt =====
-- What the index functions compute at the node `k` of depth `d`, and that no `u64` wraps there.
use native.Mathlib.Decide.{dec_lt}
use native.Mathlib.Numerals.{add-one}
use zkc_state.Prelude.{
  ℕ, zero, suc, ◌+◌, ◌-◌, ◌*◌, ◌/◌, ◌^◌, ◌≤◌, ◌<◌, ◌≡◌, refl, ap, arith, ltb, ◌⊎◌, ◌↔◌, ◌∙◌,
  Bool-cases, inl, inr, ltb→lt, ≢→==, lt→ltb, ≤→ltb,
}
use zkc_state.Prelude.Words.{
  add_u64, sub_u64, pow_u64, two_pow-suc, one-le-two_pow, two_pow-le, two_pow_mono,
}
use zkc_state.Outcome.{ok, panic}
use zkc_state.Merkle.Index.{
  node_leaf, node_non_leaf, node_invalid, log2_loop, ilog2, get_offset, get_node_type,
  get_sibling_index,
}

-- The index of the node `k`, counted from the left, of depth `d`.
abbrev pub node_at : ℕ → ℕ → ℕ
node_at d k = 2 ^ d - 1 + k

log2_loop_node : (fuel d n : ℕ) → d ≤ fuel → 2 ^ d ≤ n → n < 2 ^ suc d → log2_loop fuel n ≡ d
unfolding log2_loop
log2_loop_node zero d n hd lo hi = omega arith
log2_loop_node (suc fuel) zero n hd lo hi = rw (lt→ltb n 2 (omega (arith, two_pow-suc 0)))
log2_loop_node (suc fuel) (suc d) n hd lo hi =
    rw (≤→ltb n 2 (omega (arith, two_pow-suc d, one-le-two_pow d))) (
      ap suc (
        log2_loop_node fuel d (n / 2) (omega arith) (omega (arith, two_pow-suc d))
          (omega (arith, two_pow-suc (suc d)))))

pub ilog2_node :
    {E : Type 0} (d n : ℕ) → d ≤ 63 → 2 ^ d ≤ n → n < 2 ^ suc d → ilog2 {E = E} n ≡ ok d
unfolding ilog2
ilog2_node d n hd lo hi =
    rw (≢→== n 0 (omega (arith, one-le-two_pow d))) (ap ok (log2_loop_node 63 d n hd lo hi))

module _ (d k : ℕ) (small : d ≤ 63) (inside : k < 2 ^ d) where
  pub ilog2-node_at : {E : Type 0} → ilog2 {E = E} (add_u64 (node_at d k) 1) ≡ ok d
  ilog2-node_at =
      let e : add_u64 (node_at d k) 1 ≡ 2 ^ d + k =
        omega (arith, one-le-two_pow d, two_pow_mono d 63 small) in
      rw e (ilog2_node d (2 ^ d + k) (omega arith) (omega arith) (omega (arith, two_pow-suc d)))

  pub full-node_at : sub_u64 (node_at d k) (sub_u64 (pow_u64 d) 1) ≡ k
  full-node_at = omega (arith, one-le-two_pow d, two_pow_mono d 63 small)

  -- `get_offset` at the node `k` of any depth is `k`.
  pub get_offset-node_at : {E : Type 0} → get_offset {E = E} (node_at d k) ≡ ok k
  unfolding get_offset
  get_offset-node_at = rw ilog2-node_at (ap ok full-node_at)

log2_loop_bounds :
    (fuel n : ℕ)
    → 1 ≤ n
    → n < 2 ^ suc fuel
    → (2 ^ log2_loop fuel n ≤ n) × (n < 2 ^ suc (log2_loop fuel n)) × (log2_loop fuel n ≤ fuel)
unfolding log2_loop
log2_loop_bounds zero n lo hi = omega arith
log2_loop_bounds (suc fuel) n lo hi = elim (Bool-cases (ltb n 2)) [
  | inl one ↦ rw one (omega (arith, ltb→lt n 2 one, two_pow-suc 0))
  | inr more ↦
      let ih =
        log2_loop_bounds fuel (n / 2) (ground arith) (omega (arith, two_pow-suc (suc fuel))) in
      let l = log2_loop fuel (n / 2) in
      rw more (omega (arith, ih, two_pow-suc l, two_pow-suc (suc l)))
]

-- Every index but the last is that of one node.
pub node_of :
    {E : Type 0} (i : ℕ)
    → i + 1 < 2 ^ 64
    → (d : ℕ) × (k : ℕ) × (get_offset {E = E} i ≡ ok k) × (i ≡ node_at d k) × (k < 2 ^ d)
node_of i fits =
    let bounds = log2_loop_bounds 63 (i + 1) (omega arith) (omega (arith, two_pow-suc 63)) in
    let d = log2_loop 63 (i + 1) in
    let k = i + 1 - 2 ^ d in
    let e : i ≡ node_at d k = omega (arith, bounds, one-le-two_pow d) in
    let inside : k < 2 ^ d = omega (arith, bounds, two_pow-suc d) in
    (d, k, ap get_offset e ∙ get_offset-node_at d k bounds.2 inside, e, inside)

pub depth-le : (d k : ℕ) → node_at d k < 2 ^ 64 - 1 → d ≤ 63
depth-le d k h = elim (dec_lt d 64) [
  | yes lt ↦ omega arith
  | no ge ↦ absurd (omega (arith, two_pow_mono 64 d (omega arith), one-le-two_pow d))
]

-- For a `u64`, `get_offset` returns a `k` below 2 ^ `d` for a depth `d` whose node `k` has that
-- index, or it panics and the index is the last `u64`.
pub get_offset_lem :
    {E : Type 0} (i : ℕ)
    → i < 2 ^ 64
    → ((d : ℕ) × (k : ℕ) × (get_offset {E = E} i ≡ ok k) × (i ≡ node_at d k) × (k < 2 ^ d))
      ⊎ ((get_offset {E = E} i ≡ panic) × (i ≡ 2 ^ 64 - 1))
get_offset_lem i h = elim (dec_lt (i + 1) (2 ^ 64)) [
  | yes fits ↦ inl (node_of i fits)
  | no last ↦
      let e : i ≡ 2 ^ 64 - 1 = omega arith in inr (rw e (unfold get_offset ilog2 in refl), e)
]

module _ (i h : ℕ) (small : h ≤ 62) where
  -- At a height `h` of 62 or less, the three kinds of index are told apart by the bounds 2 ^ h - 1
  -- and 2 ^ (h + 1) - 1.
  pub get_node_type_lem :
      ((get_node_type i h ≡ node_non_leaf) ↔ (i + 1 < 2 ^ h))
      × ((get_node_type i h ≡ node_leaf) ↔ ((2 ^ h ≤ i + 1) × (i + 1 < 2 ^ suc h)))
      × ((get_node_type i h ≡ node_invalid) ↔ (2 ^ suc h ≤ i + 1))
  unfolding get_node_type
  get_node_type_lem =
      let leaves : sub_u64 (pow_u64 h) 1 ≡ 2 ^ h - 1 =
        omega (arith, one-le-two_pow h, two_pow-le h small) in
      let beyond : sub_u64 (pow_u64 (h + 1)) 1 ≡ 2 * 2 ^ h - 1 =
        rw (add-one h, two_pow-suc h) (omega (arith, one-le-two_pow h, two_pow-le h small)) in
      rw (leaves, beyond, two_pow-suc h) (ground (arith, one-le-two_pow h))

-- Where the children of a node are a `u64`, each is the sibling of the other.
pub get_sibling_index_lem :
    (i : ℕ)
    → 2 * i + 2 < 2 ^ 64
    → (get_sibling_index (2 * i + 1) ≡ 2 * i + 2) × (get_sibling_index (2 * i + 2) ≡ 2 * i + 1)
unfolding get_sibling_index
get_sibling_index_lem i h = ground arith
