-- ===== src/Service/Faults/Runs.antt =====
-- How a call may end against a server that can fail: as intended, or with an error in a state of which
-- a predicate holds.
use zkc_state.Prelude.{ℕ, suc, ◌≡◌, ◌⊎◌, ap, refl, inl, inr}
use zkc_state.Outcome.{Outcome, ok, err, panic, map_err}
use zkc_state.Action.{Action, ◌>>=◌, continue, lift, map_error}
use zkc_state.Service.Faults.{Fault, works, lost_request, lost_reply, strike, disturb}

module _ {S : Type 0} (J : S → Type 0) where
  abbrev pub EndsIn : {E A : Type 0} → Outcome E A × (S × ℕ) → Outcome E A → S → Type 0
  EndsIn {E} {A} out r s' =
      ((calls : ℕ) × (out ≡ (r, (s', calls))))
      ⊎ ((e : E) × (s'' : S) × (calls : ℕ) × (out ≡ (err e, (s'', calls))) × J s'')

  pub record Runs {E A : Type 0} (call : Action E (S × ℕ) A) (s : S) (r : Outcome E A) (s' : S)
      : Type 0 where
    pub ends : (calls : ℕ) → EndsIn (call (s, calls)) r s'

  module _ {E A : Type 0} where
    strike-EndsIn :
        (f : Fault E) (r : Outcome E A) (s s' : S) (calls : ℕ)
        → J s
        → J s'
        → EndsIn (strike f (r, s') s calls) r s'
    unfolding strike
    strike-EndsIn works r s s' calls j j' = inl (calls, refl)
    strike-EndsIn (lost_request e) r s s' calls j j' = inr (e, s, calls, refl, j)
    strike-EndsIn (lost_reply e) r s s' calls j j' = inr (e, s', calls, refl, j')

    -- A call of the server.
    pub Runs-disturb :
        (fault : ℕ → Fault E) (call : Action E S A) (r : Outcome E A) (s s' : S)
        → call s ≡ (r, s')
        → J s
        → J s'
        → Runs (disturb fault call) s r s'
    Runs-disturb fault call r s s' e j j' = record {
      ends = λ calls. rw e (strike-EndsIn (fault calls) r s s' (suc calls) j j');
    }

    pub Runs-lift : (r : Outcome E A) (s : S) → Runs (lift r) s r s
    Runs-lift r s = record { ends = λ calls. inl (calls, refl) }

  pub Runs-pure :
      {E A : Type 0} (a b : A) (s s' : S)
      → ◌≡◌ {A = Outcome E A × S} (ok a, s) (ok b, s')
      → Runs (lift {E = E} (ok a)) s (ok b) s'
  Runs-pure {E} a b s s' e = record { ends = λ calls. inl (calls, ap (λ x. (x.0, (x.1, calls))) e) }

  pub Runs-map_error :
      {E F A : Type 0} (f : E → F) (call : Action E (S × ℕ) A) (r : Outcome E A) (s s' : S)
      → Runs call s r s'
      → Runs (map_error f call) s (map_err f r) s'
  Runs-map_error f call r s s' runs = record {
    ends = λ calls. elim (runs.ends calls) [
      | inl (after, e) ↦ inl (after, rw e refl)
      | inr (x, s'', after, e, j) ↦ inr (f x, s'', after, rw e refl, j)
    ];
  }

  module _ {E A B : Type 0} where
    pub Runs-bind :
        (call : Action E (S × ℕ) A) (rest : A → Action E (S × ℕ) B) (a : A) (r : Outcome E B)
        (s s' s'' : S)
        → Runs call s (ok a) s'
        → Runs (rest a) s' r s''
        → Runs (call >>= rest) s r s''
    Runs-bind call rest a r s s' s'' first second = record {
      ends = λ calls. elim (first.ends calls) [
        | inl (after, e) ↦ rw e (second.ends after)
        | inr (x, t, after, e, j) ↦ inr (x, t, after, rw e refl, j)
      ];
    }

    -- A value that is at hand.
    pub Runs-value :
        {o : Outcome E A} (rest : A → Action E (S × ℕ) B) {a : A} {r : Outcome E B} {s s' : S}
        → o ≡ ok a
        → Runs (rest a) s r s'
        → Runs (lift o >>= rest) s r s'
    Runs-value rest e runs = rw e runs

    -- A call that ends without a value ends the block.
    pub Runs-bind-err :
        (call : Action E (S × ℕ) A) (rest : A → Action E (S × ℕ) B) (x : E) (s s' : S)
        → Runs call s (err x) s'
        → Runs (call >>= rest) s (err x) s'
    Runs-bind-err call rest x s s' first = record {
      ends = λ calls. elim (first.ends calls) [
        | inl (after, e) ↦ inl (after, rw e refl)
        | inr (y, t, after, e, j) ↦ inr (y, t, after, rw e refl, j)
      ];
    }

    pub Runs-bind-panic :
        (call : Action E (S × ℕ) A) (rest : A → Action E (S × ℕ) B) (s s' : S)
        → Runs call s panic s'
        → Runs (call >>= rest) s panic s'
    Runs-bind-panic call rest s s' first = record {
      ends = λ calls. elim (first.ends calls) [
        | inl (after, e) ↦ inl (after, rw e refl)
        | inr (y, t, after, e, j) ↦ inr (y, t, after, rw e refl, j)
      ];
    }

-- A block that returns a value: its first call does.
returned :
    {E S A B : Type 0} (m : Action E S A) (f : A → Action E S B) (s t : S) (r : Outcome E A) (b : B)
    (s' : S)
    → m s ≡ (r, t)
    → continue r f t ≡ (ok b, s')
    → (a : A) × (t' : S) × (m s ≡ (ok a, t')) × (f a t' ≡ (ok b, s'))
returned m f s t (ok a) b s' em e = (a, t, em, e)
returned m f s t (err x) b s' em e = absurd (cc)
returned m f s t panic b s' em e = absurd (cc)

pub >>=-eq-ok :
    {E S A B : Type 0} (m : Action E S A) (f : A → Action E S B) (s : S) {b : B} {s' : S}
    → (m >>= f) s ≡ (ok b, s')
    → (a : A) × (t : S) × (m s ≡ (ok a, t)) × (f a t ≡ (ok b, s'))
>>=-eq-ok m f s {b} {s'} e = returned m f s (m s).1 (m s).0 b s' refl e
