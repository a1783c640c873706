-- ===== src/Poseidon/Input.antt =====
-- Which inputs `hash` of src/poseidon.rs accepts.
use mathlib.Core.Path.{subst}
use zkc_state.Prelude.{
  ℕ, zero, suc, ◌+◌, ◌*◌, ◌%◌, ◌≤◌, ◌≡◌, ◌⊎◌, inl, inr, refl, ap, sym, ◌∙◌, List, [], ◌∷◌, ◌++◌,
  none, some, arith, Bool-cases, ◌==◌, ==_iff, length, take, drop, chunks, chunks_loop,
  length-append, Option-cases,
}
use zkc_state.Outcome.{Outcome, ok, err, ◌>>=◌}
use zkc_state.Hash.{Bytes}
use zkc_state.Crypto.{Crypto, CryptoLaws}
use zkc_state.Errors.{Error}
use zkc_state.Poseidon.{
  hash, field_element, field_elements, hash_field_elements, not_field_elements,
}

module _ {A : Type 0} where
  take-append : (n : ℕ) (xs ys : List A) → length xs ≡ n → take n (xs ++ ys) ≡ xs
  take-append zero [] ys e = refl
  take-append zero (x ∷ xs) ys e = absurd (omega arith)
  take-append (suc n) [] ys e = absurd (omega arith)
  take-append (suc n) (x ∷ xs) ys e = ap (λ l. x ∷ l) (take-append n xs ys (omega arith))

  drop-append : (n : ℕ) (xs ys : List A) → length xs ≡ n → drop n (xs ++ ys) ≡ ys
  drop-append zero [] ys e = refl
  drop-append zero (x ∷ xs) ys e = absurd (omega arith)
  drop-append (suc n) [] ys e = absurd (omega arith)
  drop-append (suc n) (x ∷ xs) ys e = drop-append n xs ys (omega arith)

  append-take_and_drop : (n : ℕ) (xs : List A) → take n xs ++ drop n xs ≡ xs
  append-take_and_drop zero xs = refl
  append-take_and_drop (suc n) [] = refl
  append-take_and_drop (suc n) (x ∷ xs) = ap (λ l. x ∷ l) (append-take_and_drop n xs)

  length-take : (n : ℕ) (xs : List A) → n ≤ length xs → length (take n xs) ≡ n
  length-take zero xs h = refl
  length-take (suc n) [] h = absurd (omega arith)
  length-take (suc n) (x ∷ xs) h = omega (arith, length-take n xs (omega arith))

  length-drop : (n : ℕ) (xs : List A) → n ≤ length xs → length (drop n xs) + n ≡ length xs
  length-drop zero xs h = omega arith
  length-drop (suc n) [] h = absurd (omega arith)
  length-drop (suc n) (x ∷ xs) h = omega (arith, length-drop n xs (omega arith))

module _ (c : Crypto) where
  -- The bytes of some field elements, one after the other.
  abbrev pub written : List c.Fr → Bytes
  written [] = []
  written (f ∷ fs) = c.to_repr f ++ written fs

  length-written :
      (fs : List c.Fr)
      → ((f : c.Fr) → length (c.to_repr f) ≡ 32)
      → length (written fs) ≡ 32 * length fs
  length-written [] sized = refl
  length-written (f ∷ fs) sized =
      omega (arith, length-append (c.to_repr f) (written fs), sized f, length-written fs sized)

  module _ (M : Type 0) where
    -- The outcome of reading bytes as field elements, against how these are written.
    abbrev pub Reads : Bytes → Outcome (Error M) (List c.Fr) → Type 0
    Reads b r =
        ((fs : List c.Fr) × (b ≡ written fs) × (r ≡ ok fs))
        ⊎ ((r ≡ err (not_field_elements c {M = M})) × ((fs : List c.Fr) → b ≡ written fs → ⊥))

    abbrev put_first :
        Outcome (Error M) c.Fr → Outcome (Error M) (List c.Fr) → Outcome (Error M) (List c.Fr)
    put_first f r = f >>= λ x. r >>= λ xs. ok (x ∷ xs)

    module _ (laws : CryptoLaws c) (sized : (f : c.Fr) → length (c.to_repr f) ≡ 32) where
      split_written :
          (x rest : Bytes) (fs : List c.Fr)
          → length x ≡ 32
          → x ++ rest ≡ written fs
          → (f : c.Fr) × (gs : List c.Fr) × (x ≡ c.to_repr f) × (rest ≡ written gs)
      split_written x rest [] e same = absurd (omega (arith, length-append x rest, ap length same))
      split_written x rest (f ∷ gs) e same = (
        f,
        gs,
        sym (take-append 32 x rest e)
            ∙ ap (take 32) same
            ∙ take-append 32 (c.to_repr f) (written gs) (sized f),
        sym (drop-append 32 x rest e)
            ∙ ap (drop 32) same
            ∙ drop-append 32 (c.to_repr f) (written gs) (sized f),
      )

      read_known :
          (x rest : Bytes) (f : c.Fr) (r : Outcome (Error M) (List c.Fr))
          → length x ≡ 32
          → c.from_repr x ≡ some f
          → Reads rest r
          → Reads (x ++ rest) (put_first (ok f) r)
      read_known x rest f r e ef (inl (fs, same, er)) =
          inl (f ∷ fs, rw (same, laws.to_from x f ef) refl, rw er refl)
      read_known x rest f r e ef (inr (er, none_fits)) = inr (
        rw er refl,
        λ gs same. let (_, hs, _, tail) = split_written x rest gs e same in none_fits hs tail,
      )

      read_unknown :
          (x rest : Bytes) (r : Outcome (Error M) (List c.Fr))
          → length x ≡ 32
          → c.from_repr x ≡ none
          → Reads (x ++ rest) (put_first (err (not_field_elements c {M = M})) r)
      read_unknown x rest r e en = inr (
        refl,
        λ gs same.
            let (f, _, head, _) = split_written x rest gs e same in
            let known = sym en ∙ ap c.from_repr head ∙ laws.from_to f in absurd (cc),
      )

      read_piece :
          (x rest : Bytes) (r : Outcome (Error M) (List c.Fr))
          → length x ≡ 32
          → Reads rest r
          → Reads (x ++ rest) (put_first (field_element c {M = M} x) r)
      unfolding field_element
      read_piece x rest r e answer = elim (Option-cases (c.from_repr x)) [
        | inl unknown ↦ rw e (rw unknown (read_unknown x rest r e unknown))
        | inr (f, known) ↦ rw e (rw known (read_known x rest f r e known answer))
      ]

      read_chunks :
          (fuel : ℕ) (b : Bytes)
          → length b ≤ fuel
          → length b % 32 ≡ 0
          → Reads b (field_elements c {M = M} (chunks_loop fuel 32 b))
      unfolding field_elements chunks_loop
      read_chunks zero [] h e = inl ([], refl, refl)
      read_chunks zero (x ∷ xs) h e = absurd (omega arith)
      read_chunks (suc fuel) [] h e = inl ([], refl, refl)
      read_chunks (suc fuel) (x ∷ xs) h e =
          let b : Bytes = x ∷ xs in
          let full : 32 ≤ length b = omega arith in
          let left = length-drop 32 b full in
          let rest = read_chunks fuel (drop 32 b) (omega arith) (omega arith) in
          subst
            (λ l. Reads l (field_elements c {M = M} (take 32 b ∷ chunks_loop fuel 32 (drop 32 b))))
            (append-take_and_drop 32 b)
            (read_piece (take 32 b) (drop 32 b) _ (length-take 32 b full) rest)

      -- For a field whose elements are written as 32 bytes: `hash` does not panic. If its input is
      -- that of some field elements, written one after the other, it returns the hash of these; if
      -- it is not, it returns the error for it.
      pub hash_lem :
          (b : Bytes)
          → ((fs : List c.Fr) × (b ≡ written fs)
              × (hash c {M = M} b ≡ ok (hash_field_elements c fs)))
            ⊎ ((hash c {M = M} b ≡ err (not_field_elements c {M = M}))
                × ((fs : List c.Fr) → b ≡ written fs → ⊥))
      unfolding hash chunks
      hash_lem b = elim (Bool-cases (length b % 32 == 0)) [
        | inr other ↦ inr (
          rw other refl,
          λ fs same.
              let fits : length b % 32 ≡ 0 =
                omega (arith, ap length same, length-written fs sized) in
              let yes_fits = (==_iff _ _).1 fits in absurd (cc),
        )
        | inl whole ↦ elim (read_chunks (length b) b (omega arith) ((==_iff _ _).0 whole)) [
          | inl (fs, same, read) ↦ inl (fs, same, rw whole (rw read refl))
          | inr (read, none_fits) ↦ inr (rw whole (rw read refl), none_fits)
        ]
      ]
