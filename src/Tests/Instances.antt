-- ===== src/Tests/Instances.antt =====
-- Parameters of the model for the tests: a hash without collisions, and a server with one collection.
use zkc_state.Prelude.{
  ℕ, zero, suc, ◌+◌, ◌*◌, ◌<◌, ◌≤◌, replicate, ◌≡◌, refl, ap, sym, ◌∙◌, inl, inr, List, [], ◌∷◌,
  Option, none, some, arith, if◌then◌else◌, Bool-cases, of_some,
}
use zkc_state.Hash.{Bytes, bytes_eq, bytes_eq→eq, bytes_eq_refl}
use native.Mathlib.Decide.{dec_lt}
use zkc_state.Crypto.{Crypto, CryptoLaws, CollisionFree}

-- The squares, and a pairing of numbers: every pair between one square and the next.
unfoldable pub square : ℕ → ℕ
square zero = 0
square (suc n) = square n + 2 * n + 1

square_mono : (m n : ℕ) → m ≤ n → square m ≤ square n
unfolding square
square_mono m zero h = let z : m ≡ 0 = omega arith in rw z (omega arith)
square_mono m (suc n) h = elim (dec_lt m (suc n)) [
  | yes below ↦ omega (arith, square_mono m n (omega arith))
  | no above ↦ let same : m ≡ suc n = omega arith in rw same (omega arith)
]

square-suc : (n : ℕ) → square (suc n) ≡ square n + 2 * n + 1
unfolding square
square-suc n = refl

unfoldable pub pair : ℕ → ℕ → ℕ
pair a b = square (a + b) + a

not_above : (a b x y : ℕ) → pair a b ≡ pair x y → ¬ (a + b < x + y)
unfolding pair
not_above a b x y e =
    λ less. omega (arith, square_mono (suc (a + b)) (x + y) less, square-suc (a + b))

pair-injective : (a b x y : ℕ) → pair a b ≡ pair x y → (a ≡ x) × (b ≡ y)
unfolding pair
pair-injective a b x y e =
    let low = not_above a b x y e in
    let high = not_above x y a b (sym e) in
    let same : a + b ≡ x + y = ground arith in
    let e' : square (x + y) + a ≡ square (x + y) + x = ap (λ k. square k + a) (sym same) ∙ e in
    (omega arith, omega arith)

abbrev hash_two : List ℕ → ℕ
hash_two (a ∷ b ∷ []) = pair a b
hash_two _ = 0

abbrev sum : List ℕ → ℕ
sum [] = 0
sum (x ∷ xs) = x + sum xs

unfoldable pub read_number : Bytes → Option ℕ
read_number [] = none
read_number (x ∷ rest) = if bytes_eq rest (replicate 31 0) then some x else none

abbrev pub write_number : ℕ → Bytes
write_number x = x ∷ replicate 31 0

-- The elements are numbers, written as one unbounded byte followed by zeros.
abbrev pub number_crypto : Crypto
number_crypto = record {
  Fr = ℕ;
  from_repr = read_number;
  to_repr = write_number;
  Poseidon3 = Unit {0};
  new3 = λ full partial. tt;
  update_exact = λ p xs. hash_two xs;
  Poseidon9 = ℕ;
  new9 = λ full partial. 0;
  update = λ p xs. p + sum xs;
  squeeze = λ p. p;
  base64_decode = λ text. none;
  hex_encode = λ b. "00";
}

pub read-write : (x : ℕ) → read_number (write_number x) ≡ some x
unfolding read_number
read-write x = rw (bytes_eq_refl (replicate 31 0))

pub write-read : (b : Bytes) (x : ℕ) → read_number b ≡ some x → write_number x ≡ b
unfolding read_number
write-read [] x e = absurd (cc)
write-read (y ∷ rest) x e = elim (Bool-cases (bytes_eq rest (replicate 31 0))) [
  | inl zeros ↦
      let e' = rw zeros at e in
      let tail = bytes_eq→eq rest (replicate 31 0) zeros in
      ap (λ z. write_number z) (sym (of_some e')) ∙ ap (λ l. y ∷ l) (sym tail)
  | inr other ↦ let e' = rw other at e in absurd (cc)
]

abbrev pub number_crypto_laws : CryptoLaws number_crypto
number_crypto_laws = record {
  from_to = read-write;
  to_from = write-read;
  zero_repr = (0, read-write 0);
}

pub number_crypto-CollisionFree : CollisionFree number_crypto
number_crypto-CollisionFree a b x y e = pair-injective a b x y e
