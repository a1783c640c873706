-- ===== src/Service/Fetch.antt =====
-- What `must_get_merkle_record` returns, before and after documents are added.
use zkc_state.Prelude.{
  ℕ, ◌^◌, ◌<◌, ◌≡◌, ◌⊎◌, ap, sym, ◌∙◌, inl, inr, true, List, Option, none, some, String, arith,
  Bool-cases,
}
use mathlib.Core.Path.{subst}
use zkc_state.Outcome.{Outcome, ok, Outcome-cases}
use zkc_state.Hash.{Hash, hash_eq, hash_eq→eq, hash_eq_refl}
use zkc_state.Crypto.{Crypto, CryptoLaws, CollisionFree}
use zkc_state.Kvpair.Record.{MerkleRecord, get_default_record}
use zkc_state.Service.Mongo.{Mongo, by_index_and_hash}
use zkc_state.Action.{Action}
use zkc_state.Service.Collection.{Failure, Col, must_get_merkle_record}
use zkc_state.Service.Laws.{IsIn, with_current, Answers, MongoLaws}
use zkc_state.Service.Invariant.{Canonical, Canonical-unique, get_default_record-Canonical}

-- A collection that is opened without a session, as the handlers open it.
abbrev pub plain : (c : Crypto) (db : Mongo) → String → String → Col c db
plain c db n m = record { merkle_collection = n; datahash_collection = m; session = none }

value_of :
    {E A S : Type 0} {a b : A} {s t : S} → ◌≡◌ {A = Outcome E A × S} (ok a, s) (ok b, t) → a ≡ b
value_of e = cc

module _ (c : Crypto) (db : Mongo) (server : MongoLaws db) (n m : String) where
  abbrev pub held : db.State → List MerkleRecord
  held s = with_current (server.current n s) (server.documents n s)

  abbrev pub fetch : ℕ → Hash → Action (Failure c db) db.State MerkleRecord
  fetch = must_get_merkle_record c db (plain c db n m)

  -- Where a fetched record comes from: a document, or the default for its index.
  abbrev pub IsSource : db.State → ℕ → Hash → MerkleRecord → Type 0
  IsSource s i h a =
      (IsIn a (held s) × (a.index ≡ i) × (a.hash ≡ h))
      ⊎ (Answers i h (held s) none × (get_default_record c i ≡ ok a) × (a.hash ≡ h))

  fetch_document :
      (i : ℕ) (h : Hash) (r : MerkleRecord) (s : db.State)
      → db.find_one_merkle none n (by_index_and_hash i h) s ≡ (ok (some r), s)
      → fetch i h s ≡ (ok r, s)
  unfolding must_get_merkle_record
  fetch_document i h r s e = rw e

  pub fetch_default :
      (i : ℕ) (h : Hash) (a : MerkleRecord) (s : db.State)
      → db.find_one_merkle none n (by_index_and_hash i h) s ≡ (ok none, s)
      → get_default_record c i ≡ ok a
      → a.hash ≡ h
      → fetch i h s ≡ (ok a, s)
  unfolding must_get_merkle_record
  fetch_default i h a s e ed eh =
      let same : hash_eq a.hash h ≡ true = ap (hash_eq a.hash) (sym eh) ∙ hash_eq_refl a.hash in
      rw (e, ed) (rw same)

  fetch_no_document :
      (i : ℕ) (h : Hash) (a : MerkleRecord) (s : db.State)
      → db.find_one_merkle none n (by_index_and_hash i h) s ≡ (ok none, s)
      → fetch i h s ≡ (ok a, s)
      → (get_default_record c i ≡ ok a) × (a.hash ≡ h)
  unfolding must_get_merkle_record
  fetch_no_document i h a s ef e = elim (Outcome-cases (get_default_record c i)) [
    | inl (d, ed) ↦ elim (Bool-cases (hash_eq d.hash h)) [
      | inl same ↦
          let eh = hash_eq→eq d.hash h same in
          let da : d ≡ a = value_of (sym (fetch_default i h d s ef ed eh) ∙ e) in
          (ed ∙ ap ok da, ap (λ (r : MerkleRecord). r.hash) (sym da) ∙ eh)
      | inr other ↦ let e' = rw (ef, ed) at e in let e2 = rw other at e' in absurd (cc)
    ]
    | inr (inl (x, ex)) ↦ let e' = rw (ef, ex) at e in absurd (cc)
    | inr (inr ep) ↦ let e' = rw (ef, ep) at e in absurd (cc)
  ]

  IsSource-of :
      (i : ℕ) (h : Hash) (a : MerkleRecord) (s : db.State) (found : Option MerkleRecord)
      → db.find_one_merkle none n (by_index_and_hash i h) s ≡ (ok found, s)
      → Answers i h (held s) found
      → fetch i h s ≡ (ok a, s)
      → IsSource s i h a
  IsSource-of i h a s none ef answer e =
      let (ed, eh) = fetch_no_document i h a s ef e in inr (answer, ed, eh)
  IsSource-of i h a s (some r) ef answer e =
      let same : r ≡ a = value_of (sym (fetch_document i h r s ef) ∙ e) in
      inl (subst (λ x. IsIn x (held s) × (x.index ≡ i) × (x.hash ≡ h)) same answer)

  -- With a server that keeps its laws: a record that `must_get_merkle_record` returns without a
  -- change of the state is a document with the index and the hash, or, where there is none, the
  -- default record of the index with that hash.
  pub fetch-IsSource :
      (i : ℕ) (h : Hash) (a : MerkleRecord) (s : db.State)
      → fetch i h s ≡ (ok a, s)
      → IsSource s i h a
  fetch-IsSource i h a s e =
      let (found, ef, answer) = server.find_document n i h s in
      IsSource-of i h a s found ef answer e

  -- The state of a collection that the service has written: canonical records, and a current root
  -- that is stored as a document as well, unless it is the default.
  pub record IsValid (s : db.State) : Type 0 where
    pub canonical : (r : MerkleRecord) → IsIn r (held s) → Canonical c r
    pub backed :
        (r : MerkleRecord)
        → server.current n s ≡ some r
        → (r.index ≡ 0) × (IsIn r (server.documents n s) ⊎ (get_default_record c 0 ≡ ok r))

  -- Every document of one state is one of another, or is the default root.
  abbrev pub Covers : db.State → db.State → Type 0
  Covers s s' =
      (r : MerkleRecord)
      → IsIn r (held s)
      → IsIn r (held s') ⊎ ((r.index ≡ 0) × (get_default_record c 0 ≡ ok r))

  module _ (laws : CryptoLaws c) (free : CollisionFree c) where
    -- A source is canonical where some document has its index, which is then a `u64`.
    pub source-Canonical :
        (s : db.State) (i : ℕ) (h : Hash) (a : MerkleRecord)
        → IsValid s
        → i < 2 ^ 64
        → IsSource s i h a
        → Canonical c a × (a.index ≡ i) × (a.hash ≡ h)
    source-Canonical s i h a v small (inl (found, ei, eh)) = (v.canonical a found, ei, eh)
    source-Canonical s i h a v small (inr (_, ed, eh)) =
        let (canonical, ei) = get_default_record-Canonical c laws i a small ed in
        (canonical, ei, eh)

    keep :
        (s s' : db.State)
        → IsValid s
        → IsValid s'
        → Covers s s'
        → (i : ℕ) (h : Hash) (a : MerkleRecord) (found : Option MerkleRecord)
        → db.find_one_merkle none n (by_index_and_hash i h) s' ≡ (ok found, s')
        → Answers i h (held s') found
        → IsSource s i h a
        → fetch i h s' ≡ (ok a, s')
    keep s s' v v' covers i h a (some b) ef (inside, ei, eh) source =
        let small : i < 2 ^ 64 = omega (arith, (v'.canonical b inside).u64) in
        let (ca, ai, ah) = source-Canonical s i h a v small source in
        let same =
          Canonical-unique c laws free b a (v'.canonical b inside) ca (ei ∙ sym ai) (eh ∙ sym ah) in
        subst (λ x. fetch i h s' ≡ (ok x, s')) same (fetch_document i h b s' ef)
    keep s s' v v' covers i h a none ef answer (inr (_, ed, eh)) = fetch_default i h a s' ef ed eh
    keep s s' v v' covers i h a none ef answer (inl (inside, ei, eh)) = elim (covers a inside) [
      | inl still ↦ absurd (answer a still ei eh)
      | inr (zero_index, ed) ↦
          fetch_default i h a s' ef (ap (get_default_record c) (sym ei ∙ zero_index) ∙ ed) eh
    ]

    -- With a server that keeps its laws, a field and a Merkle hash without collisions: a document
    -- of a valid state, or the default record where it has none, is what its index and hash fetch
    -- in each valid state that has the documents of the first, the default root apart.
    pub fetch_keeps :
        (s s' : db.State)
        → IsValid s
        → IsValid s'
        → Covers s s'
        → (i : ℕ) (h : Hash) (a : MerkleRecord) → IsSource s i h a
        → fetch i h s' ≡ (ok a, s')
    fetch_keeps s s' v v' covers i h a source =
        let (found, ef, answer) = server.find_document n i h s' in
        keep s s' v v' covers i h a found ef answer source
