-- ===== src/Hash.antt =====
-- The types `Hash` and `[u8]` that every part shares (src/kvpair.rs). A byte is a number; that it
-- is below 256 is not needed. The length of an array is checked where the source converts.
use zkc_state.Prelude.{ℕ, ◌≡◌, refl, Bool, true, false, ◌&&◌, List, [], ◌∷◌, arith, ◌==◌, replicate}

abbrev pub Bytes : Type 0
Bytes = List ℕ

-- `==` on byte slices and arrays
unfoldable pub bytes_eq : Bytes → Bytes → Bool
bytes_eq [] [] = true
bytes_eq [] (y ∷ ys) = false
bytes_eq (x ∷ xs) [] = false
bytes_eq (x ∷ xs) (y ∷ ys) = x == y && bytes_eq xs ys

pub bytes_eq→eq : (xs ys : Bytes) → bytes_eq xs ys ≡ true → xs ≡ ys
unfolding bytes_eq
bytes_eq→eq [] [] h = refl
bytes_eq→eq [] (y ∷ ys) h = cc
bytes_eq→eq (x ∷ xs) [] h = cc
bytes_eq→eq (x ∷ xs) (y ∷ ys) h = ground (arith, bytes_eq→eq xs ys)

pub bytes_eq_refl : (xs : Bytes) → bytes_eq xs xs ≡ true
unfolding bytes_eq
bytes_eq_refl [] = refl
bytes_eq_refl (x ∷ xs) = ground (arith, bytes_eq_refl xs)

pub record Hash : Type 0 where
  pub bytes : Bytes

-- `==` on hashes
unfoldable pub hash_eq : Hash → Hash → Bool
hash_eq a b = bytes_eq a.bytes b.bytes

pub hash_eq→eq : (a b : Hash) → hash_eq a b ≡ true → a ≡ b
unfolding hash_eq
hash_eq→eq a b h = ground (arith, bytes_eq→eq a.bytes b.bytes h)

pub hash_eq_refl : (a : Hash) → hash_eq a a ≡ true
unfolding hash_eq
hash_eq_refl a = bytes_eq_refl a.bytes

-- `[0; 32]`
abbrev pub zeros32 : Bytes
zeros32 = replicate 32 0
