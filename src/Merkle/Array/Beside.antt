-- ===== src/Merkle/Array/Beside.antt =====
-- What `MerkleAsArray` has beside a way, and what a write to a node leaves as it was.
use mathlib.Core.List.{append_assoc}
use zkc_state.Prelude.{
  ℕ, zero, suc, ◌+◌, ◌*◌, ◌/◌, ◌%◌, ◌^◌, ◌≤◌, ◌<◌, ◌≡◌, ◌≢◌, ◌⊎◌, inl, inr, refl, ◌∙◌, List, [],
  ◌∷◌, ◌++◌, arith, length, get_elem?, get_elem?-append, some, ◌==◌, ≢→==, Bool-cases, ==_iff,
  ==_refl,
}
use zkc_state.Prelude.Words.{add_u64, two_pow-suc, one-le-two_pow}
use zkc_state.Merkle.Bounds.{node_at}
use zkc_state.Merkle.Spec.{turn-parity}
use zkc_state.Merkle.Array.{MerkleAsArray, updated}
use zkc_state.Merkle.Array.Reads.{beside, assist_of, length-assist_of}

pub updated_same : (i x : ℕ) (a : MerkleAsArray) → updated i x a i ≡ x
updated_same i x a = rw (==_refl i) refl

pub updated_other : (i x j : ℕ) (a : MerkleAsArray) → j ≢ i → updated i x a j ≡ a j
updated_other i x j a other = rw (≢→== j i other) refl

-- The node `i` is the sum of its children.
abbrev pub Sums : MerkleAsArray → ℕ → Type 0
Sums a i = a i ≡ add_u64 (a (2 * i + 1)) (a (2 * i + 2))

-- `i` is a node above the node `k` of depth `m`.
abbrev pub Above : ℕ → ℕ → ℕ → Type 0
Above zero k i = ⊥
Above (suc m) k i = (i ≡ node_at m (k / 2)) ⊎ Above m (k / 2) i

-- The list has what the array has beside the way to the node `k` of depth `m`.
abbrev pub Beside : MerkleAsArray → List ℕ → ℕ → ℕ → Type 0
Beside a xs zero k = Unit {0}
Beside a xs (suc m) k = (get_elem? xs m ≡ some (a (beside m k))) × Beside a xs m (k / 2)

pub assist_of-Beside :
    (a : MerkleAsArray) (m k : ℕ) (xs ys : List ℕ) → xs ≡ assist_of a m k ++ ys → Beside a xs m k
unfolding assist_of
assist_of-Beside a zero k xs ys e = tt
assist_of-Beside a (suc m) k xs ys e =
    let front = assist_of a m (k / 2) in
    let x = a (beside m k) in
    let e' : xs ≡ front ++ x ∷ ys = e ∙ append_assoc front (x ∷ []) ys in
    let behind : get_elem? (front ++ x ∷ ys) (length front) ≡ some x =
      get_elem?-append front x ys in
    let found : get_elem? (front ++ x ∷ ys) m ≡ some x =
      rw (length-assist_of a m (k / 2)) at behind in
    (rw e' found, assist_of-Beside a m (k / 2) xs (x ∷ ys) e')

pub beside_lem :
    (m k : ℕ)
    → k < 2 ^ suc m
    → (beside m k ≢ node_at (suc m) k) × (beside m k + 1 < 2 ^ suc (suc m)) × (k / 2 < 2 ^ m)
beside_lem m k inside =
    let halved = turn-parity k in
    elim (Bool-cases (k % 2 == 1)) [
      | inl odd ↦
          let one : k % 2 ≡ 1 = (==_iff _ _).0 odd in
          rw odd (
            λ e. absurd (omega (arith, e, one, two_pow-suc m)),
            omega (arith, one, inside, two_pow-suc (suc m), one-le-two_pow (suc m)),
            omega (arith, inside, two_pow-suc m),
          )
      | inr even ↦
          let two : k % 2 ≡ 0 = ground (arith, even) in
          rw even (
            λ e. absurd (omega (arith, e, two, two_pow-suc m)),
            omega (arith, two, inside, two_pow-suc m, two_pow-suc (suc m), one-le-two_pow (suc m)),
            omega (arith, inside, two_pow-suc m),
          )
    ]

-- A write further down than the way changes nothing beside it, and a write to its end neither.
pub Beside-below :
    (a : MerkleAsArray) (xs : List ℕ) (w x m k : ℕ)
    → k < 2 ^ m
    → 2 ^ suc m ≤ w + 1
    → Beside a xs m k
    → Beside (updated w x a) xs m k
Beside-below a xs w x zero k inside far bs = tt
Beside-below a xs w x (suc m) k inside far (e, bs) =
    let (_, bound, half) = beside_lem m k inside in
    (
      rw (updated_other w x (beside m k) a (λ same. absurd (omega (arith, same, bound, far)))) e,
      Beside-below a xs w x m (k / 2) half (omega (arith, far, two_pow-suc (suc m))) bs,
    )

pub Beside-end :
    (a : MerkleAsArray) (xs : List ℕ) (x m k : ℕ)
    → k < 2 ^ m
    → Beside a xs m k
    → Beside (updated (node_at m k) x a) xs m k
Beside-end a xs x zero k inside bs = tt
Beside-end a xs x (suc m) k inside (e, bs) =
    let (other, bound, half) = beside_lem m k inside in
    (
      rw (updated_other (node_at (suc m) k) x (beside m k) a other) e,
      Beside-below a xs (node_at (suc m) k) x m (k / 2) half (omega (arith, one-le-two_pow (suc m)))
          bs,
    )

pub untouched :
    (a : MerkleAsArray) (w x i : ℕ)
    → i ≢ w
    → 2 * i + 1 ≢ w
    → 2 * i + 2 ≢ w
    → Sums a i
    → Sums (updated w x a) i
untouched a w x i here left right sums =
    rw
      (
        updated_other w x i a here,
        updated_other w x (2 * i + 1) a left,
        updated_other w x (2 * i + 2) a right,
      )
      sums

-- A write to the node `k` of depth `m` leaves every other sum but that of the node above.
pub touch :
    (a : MerkleAsArray) (x m k i : ℕ)
    → k < 2 ^ m
    → i ≢ node_at m k
    → Sums a i
    → Sums (updated (node_at m k) x a) i ⊎ Above m k i
touch a x zero k i inside other sums = inl (
    untouched a (node_at 0 k) x i other (λ e. absurd (omega (arith, e, inside)))
      (λ e. absurd (omega (arith, e, inside))) sums)
touch a x (suc m) k i inside other sums = elim (Bool-cases (i == node_at m (k / 2))) [
  | inl parent ↦ inr (inl ((==_iff _ _).0 parent))
  | inr beyond ↦
      let apart : i ≢ node_at m (k / 2) = λ e. absurd (ground (arith, e, beyond)) in
      inl (
        untouched a (node_at (suc m) k) x i other
          (λ e. absurd (apart (omega (arith, e, two_pow-suc m, one-le-two_pow m))))
          (λ e. absurd (apart (omega (arith, e, two_pow-suc m, one-le-two_pow m)))) sums)
]
