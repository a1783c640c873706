-- ===== src/Kvpair/Combine.antt =====
-- The hash of two children, for hashes that are field elements.
use zkc_state.Prelude.{◌≡◌, ap, sym, ◌∙◌, of_some, some, [], ◌∷◌}
use zkc_state.Outcome.{Outcome, ok, err, panic}
use zkc_state.Hash.{Hash}
use zkc_state.Crypto.{Crypto, CryptoLaws, CollisionFree}
use zkc_state.Kvpair.Hash.{hash_of_field, hash_children, empty_hash}

module _ (c : Crypto) where
  -- The hash is a field element.
  abbrev pub IsField : Hash → Type 0
  IsField h = (f : c.Fr) × (c.from_repr h.bytes ≡ some f)

  abbrev value_or_empty : Outcome (Unit {0}) Hash → Hash
  value_or_empty (ok h) = h
  value_or_empty (err e) = empty_hash c
  value_or_empty panic = empty_hash c

  -- The value of `hash_children` where it has one.
  pub combine : Hash → Hash → Hash
  combine a b = value_or_empty (hash_children c a b)

  module _ (laws : CryptoLaws c) where
    combine_field :
        (a b : Hash) (x y : c.Fr)
        → c.from_repr a.bytes ≡ some x
        → c.from_repr b.bytes ≡ some y
        → combine a b ≡ hash_of_field c (c.update_exact (c.new3 8 57) (x ∷ y ∷ []))
    unfolding combine hash_children
    combine_field a b x y ex ey = rw (ex, ey)

    -- Two field elements have a hash, which is a field element.
    pub hash_children_lem :
        {E : Type 0} (a b : Hash)
        → IsField a
        → IsField b
        → (hash_children c {E = E} a b ≡ ok (combine a b)) × IsField (combine a b)
    unfolding hash_children
    hash_children_lem a b (x, ex) (y, ey) =
        let e = combine_field a b x y ex ey in
        (rw (ex, ey, e), (c.update_exact (c.new3 8 57) (x ∷ y ∷ []), rw e (laws.from_to _)))

    field-injective :
        (a b : Hash) (x : c.Fr)
        → c.from_repr a.bytes ≡ some x
        → c.from_repr b.bytes ≡ some x
        → a ≡ b
    field-injective a b x ea eb =
        ap (λ l. record { bytes = l }) (sym (laws.to_from a.bytes x ea) ∙ laws.to_from b.bytes x eb)

    -- For a field and a Merkle hash without collisions: children that are field elements and have
    -- one hash are equal.
    pub combine-injective :
        CollisionFree c
        → (a b x y : Hash) → IsField a
        → IsField b
        → IsField x
        → IsField y
        → combine a b ≡ combine x y
        → (a ≡ x) × (b ≡ y)
    combine-injective free a b x y (fa, ea) (fb, eb) (fx, ex) (fy, ey) e =
        let same : hash_of_field c (c.update_exact (c.new3 8 57) (fa ∷ fb ∷ []))
            ≡ hash_of_field c (c.update_exact (c.new3 8 57) (fx ∷ fy ∷ [])) =
          sym (combine_field a b fa fb ea eb) ∙ e ∙ combine_field x y fx fy ex ey in
        let bytes = ap (λ (h : Hash). c.from_repr h.bytes) same in
        let field = of_some (sym (laws.from_to _) ∙ bytes ∙ laws.from_to _) in
        let (p, q) = free fa fb fx fy field in
        (field-injective a x fx (ea ∙ ap some p) ex, field-injective b y fy (eb ∙ ap some q) ey)
