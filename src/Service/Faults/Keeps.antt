-- ===== src/Service/Faults/Keeps.antt =====
-- Calls that keep a predicate of the states however they end, one rule for each way to build a call.
use mathlib.Core.Path.{subst}
use zkc_state.Prelude.{
  ℕ, ◌≡◌, ap, sym, ◌∙◌, refl, inl, inr, Bool, true, false, Option, none, some, if◌then◌else◌,
}
use zkc_state.Outcome.{Outcome, ok, err, panic, map_err}
use zkc_state.Action.{Action, ◌>>=◌, continue, lift, map_error}
use zkc_state.Service.Faults.Runs.{Runs}
use zkc_state.Service.Faults.Reads.{Reads}

module _ {S : Type 0} (I : S → Type 0) where
  -- What a call leaves: a state of the predicate, and with a value what is known of the value.
  abbrev pub Left : {E A : Type 0} → (A → S → Type 0) → Outcome E A × (S × ℕ) → Type 0
  Left P (ok a, (s, calls)) = P a s × I s
  Left P (err e, (s, calls)) = I s
  Left P (panic, (s, calls)) = I s

  pub record Keeps {E A : Type 0} (P : A → S → Type 0) (call : Action E (S × ℕ) A) : Type 0 where
    pub at : (s : S) (calls : ℕ) → I s → Left P (call (s, calls))

  -- Of a value nothing is known.
  abbrev pub Any : {A : Type 0} → A → S → Type 0
  Any a s = Unit

  Left-state :
      {E A : Type 0} (P : A → S → Type 0) (r : Outcome E A) (s : S) (calls : ℕ)
      → Left P (r, (s, calls))
      → I s
  Left-state P (ok a) s calls left = left.1
  Left-state P (err e) s calls left = left
  Left-state P panic s calls left = left

  pub Keeps-state :
      {E A : Type 0} (P : A → S → Type 0) (call : Action E (S × ℕ) A) (s : S) (calls : ℕ)
      → Keeps P call
      → I s
      → I (call (s, calls)).1.0
  Keeps-state P call s calls keeps i =
      let (r, (s', calls')) = call (s, calls) in Left-state P r s' calls' (keeps.at s calls i)

  forget-Left :
      {E A : Type 0} (P : A → S → Type 0) (r : Outcome E A) (s : S) (calls : ℕ)
      → Left P (r, (s, calls))
      → Left Any (r, (s, calls))
  forget-Left P (ok a) s calls left = (tt, left.1)
  forget-Left P (err e) s calls left = left
  forget-Left P panic s calls left = left

  pub Keeps-forget :
      {E A : Type 0} {P : A → S → Type 0} {call : Action E (S × ℕ) A}
      → Keeps P call
      → Keeps Any call
  Keeps-forget {P = P} {call} keeps = record {
    at = λ s calls i.
        let (r, (s', calls')) = call (s, calls) in forget-Left P r s' calls' (keeps.at s calls i);
  }

  lift-Left :
      {E A : Type 0} (P : A → S → Type 0) (r : Outcome E A) (s : S) (calls : ℕ)
      → ((a : A) → r ≡ ok a → P a s)
      → I s
      → Left P (lift r (s, calls))
  lift-Left P (ok a) s calls known i = (known a refl, i)
  lift-Left P (err e) s calls known i = i
  lift-Left P panic s calls known i = i

  pub Keeps-lift :
      {E A : Type 0} {P : A → S → Type 0} (r : Outcome E A)
      → ((a : A) (s : S) → r ≡ ok a → P a s)
      → Keeps P (lift r)
  Keeps-lift {P = P} r known = record {
    at = λ s calls i. lift-Left P r s calls (λ a e. known a s e) i;
  }

  pub Keeps-pure : {E A : Type 0} (r : Outcome E A) → Keeps Any (lift r)
  Keeps-pure r = Keeps-lift r λ a s e. tt

  map-Left :
      {E F A : Type 0} (P : A → S → Type 0) (f : E → F) (r : Outcome E A) (s : S) (calls : ℕ)
      → Left P (r, (s, calls))
      → Left P (map_err f r, (s, calls))
  map-Left P f (ok a) s calls left = left
  map-Left P f (err e) s calls left = left
  map-Left P f panic s calls left = left

  pub Left-map_error :
      {E F A : Type 0} (P : A → S → Type 0) (f : E → F) (call : Action E (S × ℕ) A) (s : S)
      (calls : ℕ)
      → Left P (call (s, calls))
      → Left P (map_error f call (s, calls))
  Left-map_error P f call s calls left =
      let (r, (s', calls')) = call (s, calls) in map-Left P f r s' calls' left

  pub Keeps-map_error :
      {E F A : Type 0} {P : A → S → Type 0} (f : E → F) {call : Action E (S × ℕ) A}
      → Keeps P call
      → Keeps P (map_error f call)
  Keeps-map_error {P = P} f {call} keeps = record {
    at = λ s calls i. Left-map_error P f call s calls (keeps.at s calls i);
  }

  bind-Left :
      {E A B : Type 0} (P : A → S → Type 0) (Q : B → S → Type 0) (r : Outcome E A)
      (rest : A → Action E (S × ℕ) B) (s : S) (calls : ℕ)
      → Left P (r, (s, calls))
      → ((a : A) → P a s → I s → Left Q (rest a (s, calls)))
      → Left Q (continue r rest (s, calls))
  bind-Left P Q (ok a) rest s calls (known, i) keeps = keeps a known i
  bind-Left P Q (err e) rest s calls i keeps = i
  bind-Left P Q panic rest s calls i keeps = i

  pub Left-bind :
      {E A B : Type 0} (P : A → S → Type 0) (Q : B → S → Type 0) (call : Action E (S × ℕ) A)
      (rest : A → Action E (S × ℕ) B) (s : S) (calls : ℕ)
      → Left P (call (s, calls))
      → ((a : A) (t : S) (later : ℕ) → P a t → I t → Left Q (rest a (t, later)))
      → Left Q ((call >>= rest) (s, calls))
  Left-bind P Q call rest s calls left keeps =
      let (r, (s', calls')) = call (s, calls) in
      bind-Left P Q r rest s' calls' left (λ a known i. keeps a s' calls' known i)

  pub Keeps-value :
      {E A B : Type 0} {Q : B → S → Type 0} (r : Outcome E A) {rest : A → Action E (S × ℕ) B}
      → ((a : A) → r ≡ ok a → Keeps Q (rest a))
      → Keeps Q (lift r >>= rest)
  Keeps-value (ok a) keeps = keeps a refl
  Keeps-value (err e) keeps = record { at = λ s calls i. i }
  Keeps-value panic keeps = record { at = λ s calls i. i }

  module _ {E A B : Type 0} {P : A → S → Type 0} {Q : B → S → Type 0} where
    -- The rest of a block may use what is known of the value, in the state that it is left in.
    pub Keeps-bind_at :
        (call : Action E (S × ℕ) A) (rest : A → Action E (S × ℕ) B)
        → Keeps P call
        → ((a : A) (s : S) (calls : ℕ) → P a s → I s → Left Q (rest a (s, calls)))
        → Keeps Q (call >>= rest)
    Keeps-bind_at call rest first keeps = record {
      at = λ s calls i. Left-bind P Q call rest s calls (first.at s calls i) keeps;
    }

    pub Keeps-bind :
        (call : Action E (S × ℕ) A) (rest : A → Action E (S × ℕ) B)
        → Keeps P call
        → ((a : A) → Keeps Q (rest a))
        → Keeps Q (call >>= rest)
    Keeps-bind call rest first keeps =
        Keeps-bind_at call rest first λ a s calls known i. (keeps a).at s calls i

  pub Keeps-if :
      {E A : Type 0} {P : A → S → Type 0} (b : Bool) {call other : Action E (S × ℕ) A}
      → Keeps P call
      → Keeps P other
      → Keeps P (if b then call else other)
  Keeps-if true keeps keeps_other = keeps
  Keeps-if false keeps keeps_other = keeps_other

  pub Keeps-Option :
      {E A B : Type 0} {P : B → S → Type 0} (found : Option A) {missing : Action E (S × ℕ) B}
      {present : A → Action E (S × ℕ) B}
      → Keeps P missing
      → ((a : A) → Keeps P (present a))
      → Keeps P (elim found [ none ↦ missing | some a ↦ present a ])
  Keeps-Option none at_none at_some = at_none
  Keeps-Option (some a) at_none at_some = at_some a

  pub Left-Runs :
      {E A : Type 0} (P : A → S → Type 0) {call : Action E (S × ℕ) A} {s s' : S} {r : Outcome E A}
      (calls : ℕ)
      → Runs I call s r s'
      → I s'
      → ((a : A) → r ≡ ok a → P a s')
      → Left P (call (s, calls))
  Left-Runs P {call} {s} {s'} {r} calls runs i known = elim (runs.ends calls) [
    | inl (after, e) ↦ subst (Left P) (sym e) (lift-Left P r s' after known i)
    | inr (x, t, after, e, j) ↦ subst (Left P) (sym e) j
  ]

  -- A call that reads: what is known of the value is known of what it is intended to return.
  pub Keeps-Reads :
      {E A : Type 0} {P : A → S → Type 0} {call : Action E (S × ℕ) A} {intended : Action E S A}
      → ((s : S) → I s → Reads I call intended s)
      → ((a : A) (s : S) → I s → intended s ≡ (ok a, s) → P a s)
      → Keeps P call
  Keeps-Reads {P = P} reads known = record {
    at = λ s calls i.
        let r = reads s i in
        Left-Runs P calls r.runs i (λ a e. known a s i (r.returns ∙ ap (λ o. (o, s)) e));
  }
