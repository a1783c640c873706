-- ===== src/Service/Invariant.antt =====
-- The invariant of a merkle collection: every document is the one that its index and hash determine.
use mathlib.Core.Path.{subst}
use zkc_state.Prelude.{ℕ, suc, ◌+◌, ◌-◌, ◌^◌, ◌≤◌, ◌<◌, ◌≡◌, refl, sym, ◌∙◌, inl, inr, arith}
use native.Mathlib.Decide.{dec_lt}
use zkc_state.Prelude.Words.{two_pow-suc, one-le-two_pow, two_pow_mono}
use zkc_state.Outcome.{ok, ok-injective}
use zkc_state.Hash.{zeros32}
use zkc_state.Crypto.{Crypto, CryptoLaws, CollisionFree}
use zkc_state.Kvpair.Record.{MerkleRecord, zero_hash, get_default_record}
use zkc_state.Kvpair.Combine.{IsField, combine, combine-injective}
use zkc_state.Kvpair.Defaults.{
  default_at-suc, default_at-IsField, default_record_at, child_default-leaf, child_default-non_leaf,
  get_default_record_total,
}

module _ (c : Crypto) where
  -- A record above the leaves has the hash of its children; one at a leaf has no children. The
  -- `data` field is zeros.
  pub record Canonical (r : MerkleRecord) : Type 0 where
    pub u64 : r.index < 2 ^ 64
    pub no_data : r.bytes ≡ zeros32
    pub inner :
        r.index + 1 < 2 ^ 32
        → IsField c r.left × IsField c r.right × (r.hash ≡ combine c r.left r.right)
    pub leaf : 2 ^ 32 ≤ r.index + 1 → (r.left ≡ zero_hash) × (r.right ≡ zero_hash)

  same_fields :
      (a b : MerkleRecord)
      → a.index ≡ b.index
      → a.hash ≡ b.hash
      → a.left ≡ b.left
      → a.right ≡ b.right
      → a.bytes ≡ b.bytes
      → a ≡ b
  same_fields a b i h l r d =
      λ j. record { index = i j; hash = h j; left = l j; right = r j; bytes = d j }

  module _ (laws : CryptoLaws c) (free : CollisionFree c) where
    -- For a field and a Merkle hash without collisions: two canonical records with one index and
    -- one hash are equal.
    pub Canonical-unique :
        (a b : MerkleRecord)
        → Canonical a
        → Canonical b
        → a.index ≡ b.index
        → a.hash ≡ b.hash
        → a ≡ b
    Canonical-unique a b ca cb ei eh = elim (dec_lt (a.index + 1) (2 ^ 32)) [
      | yes h ↦
          let (fl, fr, ea) = ca.inner h in
          let (gl, gr, eb) = cb.inner (omega arith) in
          let (el, er) =
            combine-injective c laws free a.left a.right b.left b.right fl fr gl gr
              (sym ea ∙ eh ∙ eb) in
          same_fields a b ei eh el er (ca.no_data ∙ sym cb.no_data)
      | no h ↦
          let (la, ra) = ca.leaf (omega arith) in
          let (lb, rb) = cb.leaf (omega arith) in
          same_fields a b ei eh (la ∙ sym lb) (ra ∙ sym rb) (ca.no_data ∙ sym cb.no_data)
    ]

  module _ (laws : CryptoLaws c) where
    default_record_at-inner :
        (d q : ℕ)
        → d < 32
        → IsField c (default_record_at c laws d q).left
          × IsField c (default_record_at c laws d q).right
          × ((default_record_at c laws d q).hash
              ≡ combine c (default_record_at c laws d q).left (default_record_at c laws d q).right)
    default_record_at-inner d q h =
        let level : 32 - d ≡ suc (31 - d) = omega arith in
        let field = default_at-IsField c laws (31 - d) in
        rw (child_default-non_leaf c laws d h, level, default_at-suc c laws (31 - d))
          (field, field, refl)

    pub default_record_at-Canonical :
        (d q : ℕ) → d ≤ 32 → q < 2 ^ d → Canonical (default_record_at c laws d q)
    default_record_at-Canonical d q h inside = record {
      u64 = omega (arith, two_pow_mono d 32 h, one-le-two_pow d);
      no_data = refl;
      inner = λ above. default_record_at-inner d q (elim (dec_lt d 32) [
        | yes lt ↦ lt
        | no ge ↦ absurd (omega (arith, two_pow_mono 32 d (omega arith), one-le-two_pow d))
      ]);
      leaf = λ below. elim (dec_lt d 32) [
        | yes lt ↦
            absurd (omega (arith, two_pow_mono (suc d) 32 lt, one-le-two_pow d, two_pow-suc d))
        | no ge ↦
            let bottom : d ≡ 32 = omega arith in rw (bottom, child_default-leaf c laws) (refl, refl)
      ];
    }

    -- A default record that the source computes is canonical.
    pub get_default_record-Canonical :
        (i : ℕ) (a : MerkleRecord)
        → i < 2 ^ 64
        → get_default_record c i ≡ ok a
        → Canonical a × (a.index ≡ i)
    get_default_record-Canonical i a h e = elim (get_default_record_total c laws i h) [
      | inl (d, q, shallow, inside, ei, eo) ↦
          let same = ok-injective (sym eo ∙ e) in
          subst (λ r. Canonical r × (r.index ≡ i)) same
            (default_record_at-Canonical d q shallow inside, sym ei)
      | inr (inl (d, deep, ee)) ↦ absurd (cc)
      | inr (inr (ep, _)) ↦ absurd (cc)
    ]
