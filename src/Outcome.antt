-- ===== src/Outcome.antt =====
-- How a Rust call ends: a value, the `Err` of a `Result`, or a panic (`unwrap`, `assert!`, `ilog2`
-- of 0). `E` is the error type of the `Result`.
use zkc_state.Prelude.{◌≡◌, ◌⊎◌, inl, inr, refl, Bool, true, false, Option, none, some}

pub data Outcome {ℓ} (E A : Type ℓ) : Type ℓ where
  ok : A → Outcome E A
  err : E → Outcome E A
  panic : Outcome E A

infixl 5 ◌>>=◌ ◌>>◌
-- The `?` operator.
abbrev pub ◌>>=◌ {ℓ} : {E A B : Type ℓ} → Outcome E A → (A → Outcome E B) → Outcome E B
ok a >>= f = f a
err e >>= f = err e
panic >>= f = panic

abbrev pub ◌>>◌ {ℓ} : {E A B : Type ℓ} → Outcome E A → Outcome E B → Outcome E B
m >> k = m >>= λ _. k

-- `assert!`
abbrev pub assert : {E : Type 0} → Bool → Outcome E (Unit {0})
assert true = ok tt
assert false = panic

-- `Option::unwrap` and `Option::ok_or`
abbrev pub unwrap {ℓ} : {E A : Type ℓ} → Option A → Outcome E A
unwrap none = panic
unwrap (some a) = ok a

abbrev pub ok_or {ℓ} : {E A : Type ℓ} → Option A → E → Outcome E A
ok_or none e = err e
ok_or (some a) e = ok a

-- `Result::map_err`, and the `From` conversion that `?` applies to an error.
abbrev pub map_err {ℓ} : {E F A : Type ℓ} → (E → F) → Outcome E A → Outcome F A
map_err f (ok a) = ok a
map_err f (err e) = err (f e)
map_err f panic = panic

-- `Result::unwrap`
abbrev pub unwrap_result {ℓ} : {E F A : Type ℓ} → Outcome E A → Outcome F A
unwrap_result (ok a) = ok a
unwrap_result (err e) = panic
unwrap_result panic = panic

pub ok-injective : {E A : Type 0} {a b : A} → ◌≡◌ {A = Outcome E A} (ok a) (ok b) → a ≡ b
ok-injective e = cc

pub Outcome-cases :
    {E A : Type 0} (o : Outcome E A)
    → ((a : A) × (o ≡ ok a)) ⊎ (((e : E) × (o ≡ err e)) ⊎ (o ≡ panic))
Outcome-cases (ok a) = inl (a, refl)
Outcome-cases (err e) = inr (inl (e, refl))
Outcome-cases panic = inr (inr refl)
