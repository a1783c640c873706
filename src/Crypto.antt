-- ===== src/Crypto.antt =====
-- The field and the hash function of the crates `halo2_proofs` and `poseidon`, and the decoders of
-- `base64` and `hex`: parameters of the model, with what their documentation promises.
use zkc_state.Prelude.{ℕ, ◌≡◌, List, [], ◌∷◌, Option, some, String}
use zkc_state.Hash.{Bytes, zeros32}

pub record Crypto : Type 1 where
  -- `Fr` of bn256, with `PrimeField::from_repr` and `to_repr`
  pub Fr : Type 0
  pub from_repr : Bytes → Option Fr
  pub to_repr : Fr → Bytes
  -- `Poseidon<Fr, 3, 2>` and `Poseidon<Fr, 9, 8>`
  pub Poseidon3 : Type 0
  pub new3 : ℕ → ℕ → Poseidon3
  pub update_exact : Poseidon3 → List Fr → Fr
  pub Poseidon9 : Type 0
  pub new9 : ℕ → ℕ → Poseidon9
  pub update : Poseidon9 → List Fr → Poseidon9
  pub squeeze : Poseidon9 → Fr
  -- `general_purpose::STANDARD.decode`, and `hex::encode`
  pub base64_decode : String → Option Bytes
  pub hex_encode : Bytes → String

-- `to_repr` gives the one representation that `from_repr` reads, and 32 zeros represent an element.
pub record CryptoLaws (c : Crypto) : Type 0 where
  pub from_to : (f : c.Fr) → c.from_repr (c.to_repr f) ≡ some f
  pub to_from : (b : Bytes) (f : c.Fr) → c.from_repr b ≡ some f → c.to_repr f ≡ b
  pub zero_repr : (f : c.Fr) × (c.from_repr zeros32 ≡ some f)

-- The Merkle hash has no collisions.
abbrev pub CollisionFree : Crypto → Type 0
CollisionFree c =
    (a b x y : c.Fr)
    → c.update_exact (c.new3 8 57) (a ∷ b ∷ []) ≡ c.update_exact (c.new3 8 57) (x ∷ y ∷ [])
    → (a ≡ x) × (b ≡ y)
