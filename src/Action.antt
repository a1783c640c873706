-- ===== src/Action.antt =====
-- Code that changes a state: a call returns its outcome beside the state that it leaves. What was
-- written before an error or a panic stays written.
use zkc_state.Outcome
use zkc_state.Outcome.{Outcome, ok, err, panic}

abbrev pub Action {ℓ} : Type ℓ → Type ℓ → Type ℓ → Type ℓ
Action E S A = S → Outcome E A × S

module _ {ℓ} {E S A : Type ℓ} where
  abbrev pub pure : A → Action E S A
  pure a s = (ok a, s)

  abbrev pub throw : E → Action E S A
  throw e s = (err e, s)

  -- a call that does not touch the state
  abbrev pub lift : Outcome E A → Action E S A
  lift r s = (r, s)

  abbrev pub gets : (S → A) → Action E S A
  gets f s = (ok (f s), s)

module _ {ℓ} {E S A B : Type ℓ} where
  abbrev pub continue : Outcome E A → (A → Action E S B) → Action E S B
  continue (ok a) f s = f a s
  continue (err e) f s = (err e, s)
  continue panic f s = (panic, s)

  infixl 5 ◌>>=◌ ◌>>◌
  abbrev pub ◌>>=◌ : Action E S A → (A → Action E S B) → Action E S B
  ◌>>=◌ m f s = let (r, s') = m s in continue r f s'

  abbrev pub ◌>>◌ : Action E S A → Action E S B → Action E S B
  m >> k = m >>= λ _. k

-- `map_err`, and the conversion of the error that `?` applies
abbrev pub map_error {ℓ} : {E F S A : Type ℓ} → (E → F) → Action E S A → Action F S A
map_error f m s = let (r, s') = m s in (Outcome.map_err f r, s')
