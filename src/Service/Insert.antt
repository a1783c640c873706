-- ===== src/Service/Insert.antt =====
-- The two writes to a merkle collection, `insert_merkle_record` and `update_root_merkle_record`.
use zkc_state.Prelude.{
  ◌≡◌, ◌⊎◌, refl, ap, sym, ◌∙◌, inl, inr, List, ◌∷◌, Option, none, some, String, of_some,
}
use mathlib.Core.Path.{subst}
use zkc_state.Outcome.{ok}
use zkc_state.Crypto.{Crypto, CryptoLaws, CollisionFree}
use zkc_state.Kvpair.Record.{MerkleRecord, get_default_record}
use zkc_state.Service.Mongo.{Mongo, by_index_and_hash}
use zkc_state.Service.Collection.{insert_merkle_record, update_root_merkle_record, root_fields}
use zkc_state.Service.Laws.{
  IsIn, with_current, Answers, MongoLaws, Elsewhere, Elsewhere-same, record_of_fields,
}
use zkc_state.Service.Invariant.{Canonical, Canonical-unique}
use zkc_state.Service.Fetch.{plain, held, IsValid, Covers}

pub IsIn-with_current :
    (o : Option MerkleRecord) (docs : List MerkleRecord) (r : MerkleRecord)
    → IsIn r (with_current o docs)
    → (o ≡ some r) ⊎ IsIn r docs
IsIn-with_current none docs r h = inr h
IsIn-with_current (some a) docs r (inl e) = inl (ap some (sym e))
IsIn-with_current (some a) docs r (inr h) = inr h

pub IsIn-documents :
    (o : Option MerkleRecord) (docs : List MerkleRecord) (r : MerkleRecord)
    → IsIn r docs
    → IsIn r (with_current o docs)
IsIn-documents none docs r h = h
IsIn-documents (some a) docs r h = inr h

IsIn-current :
    (o : Option MerkleRecord) (docs : List MerkleRecord) (r : MerkleRecord)
    → o ≡ some r
    → IsIn r (with_current o docs)
IsIn-current none docs r e = absurd (cc)
IsIn-current (some a) docs r e = inl (sym (of_some e))

module _ (c : Crypto) (db : Mongo) (server : MongoLaws db) (n m : String) where
  abbrev held_in : db.State → List MerkleRecord
  held_in = held c db server n m

  abbrev pub Good : db.State → Type 0
  Good = IsValid c db server n m

  -- The record is a document other than the current root's, or it is the default root.
  abbrev pub Kept : db.State → MerkleRecord → Type 0
  Kept s r = IsIn r (server.documents n s) ⊎ (get_default_record c 0 ≡ ok r)

  -- What inserting a record leaves.
  pub record Inserted (s : db.State) (w : MerkleRecord) : Type 0 where
    pub after : db.State
    pub returns : insert_merkle_record c db (plain c db n m) w s ≡ (ok w, after)
    pub valid : Good after
    pub covers : Covers c db server n m s after
    pub inside : IsIn w (held_in after)
    pub kept : Kept after w
    pub same_root : server.current n after ≡ server.current n s
    pub elsewhere : Elsewhere server n s after

  module _ (laws : CryptoLaws c) (free : CollisionFree c) where
    Inserted-old :
        (s : db.State) (w : MerkleRecord)
        → Good s
        → IsIn w (held_in s)
        → db.find_one_merkle none n (by_index_and_hash w.index w.hash) s ≡ (ok (some w), s)
        → Inserted s w
    unfolding insert_merkle_record
    Inserted-old s w v inside ef = record {
      after = s;
      returns = rw ef;
      valid = v;
      covers = λ r h. inl h;
      inside = inside;
      kept = elim (IsIn-with_current (server.current n s) (server.documents n s) w inside) [
        | inl at_root ↦ (v.backed w at_root).1
        | inr document ↦ inl document
      ];
      same_root = refl;
      elsewhere = Elsewhere-same server n s;
    }

    Inserted-new :
        (s : db.State) (w : MerkleRecord)
        → Good s
        → Canonical c w
        → db.find_one_merkle none n (by_index_and_hash w.index w.hash) s ≡ (ok none, s)
        → Inserted s w
    unfolding insert_merkle_record
    Inserted-new s w v cw ef =
        let (s', ei, ed, er, away) = server.insert n w s in
        let grown : held_in s' ≡ with_current (server.current n s) (w ∷ server.documents n s) =
          rw (ed, er) in
        record {
          after = s';
          returns = rw (ef, ei);
          valid = record {
            canonical = λ r h. elim (IsIn-with_current _ _ r h) [
              | inl at_root ↦ v.canonical r (IsIn-current _ _ r (sym er ∙ at_root))
              | inr document ↦ elim (subst (IsIn r) ed document) [
                | inl new ↦ subst (Canonical c) (sym new) cw
                | inr old ↦ v.canonical r (IsIn-documents _ _ r old)
              ]
            ];
            backed = λ r at_root.
                let (zero_index, where_) = v.backed r (sym er ∙ at_root) in
                (
                  zero_index,
                  elim where_ [
                    | inl old ↦ inl (subst (IsIn r) (sym ed) (inr old))
                    | inr default ↦ inr default
                  ],
                );
          };
          covers = λ r h. elim (IsIn-with_current _ _ r h) [
            | inl at_root ↦ inl (IsIn-current _ _ r (er ∙ at_root))
            | inr document ↦ inl (IsIn-documents _ _ r (subst (IsIn r) (sym ed) (inr document)))
          ];
          inside = IsIn-documents _ _ w (subst (IsIn w) (sym ed) (inl refl));
          kept = inl (subst (IsIn w) (sym ed) (inl refl));
          same_root = er;
          elsewhere = away;
        }

    insert_found :
        (s : db.State) (w : MerkleRecord) (found : Option MerkleRecord)
        → Good s
        → Canonical c w
        → db.find_one_merkle none n (by_index_and_hash w.index w.hash) s ≡ (ok found, s)
        → Answers w.index w.hash (held_in s) found
        → Inserted s w
    insert_found s w none v cw ef answer = Inserted-new s w v cw ef
    insert_found s w (some r) v cw ef (inside, ei, eh) =
        let same = Canonical-unique c laws free r w (v.canonical r inside) cw ei eh in
        Inserted-old s w v (subst (λ x. IsIn x (held_in s)) same inside)
          (ef ∙ ap (λ x. (ok (some x), s)) same)

    -- With a server that keeps its laws, a field and a Merkle hash without collisions: inserting a
    -- canonical record into a valid state succeeds and returns the record. The state stays valid,
    -- has the record and those it had, and the current root and the other collections are the
    -- same.
    pub insert_merkle_record_lem :
        (s : db.State) (w : MerkleRecord) → Good s → Canonical c w → Inserted s w
    insert_merkle_record_lem s w v cw =
        let (found, ef, answer) = server.find_document n w.index w.hash s in
        insert_found s w found v cw ef answer

  -- What making a record the current root leaves.
  pub record Rooted (s : db.State) (w : MerkleRecord) : Type 0 where
    pub after : db.State
    pub returns : update_root_merkle_record c db (plain c db n m) w s ≡ (ok w, after)
    pub valid : Good after
    pub covers : Covers c db server n m s after
    pub inside : IsIn w (held_in after)
    pub at_root : server.current n after ≡ some w
    pub elsewhere : Elsewhere server n s after

  -- With a server that keeps its laws: making a canonical record with index 0, which is a document
  -- or the default root, the current root of a valid state succeeds, keeps the state valid and
  -- loses no record, unless it is the default root.
  pub update_root_merkle_record_lem :
      (s : db.State) (w : MerkleRecord)
      → Good s
      → Canonical c w
      → w.index ≡ 0
      → Kept s w
      → Rooted s w
  unfolding update_root_merkle_record
  update_root_merkle_record_lem s w v cw ez kept =
      let (s', eu, ed, er, away) = server.upsert n (root_fields c db w) s in
      let same : record_of_fields (root_fields c db w) ≡ w = λ j. record {
        index = sym ez j;
        hash = w.hash;
        left = w.left;
        right = w.right;
        bytes = w.bytes;
      } in
      let now = er ∙ ap some same in
      record {
        after = s';
        returns = rw eu;
        valid = record {
          canonical = λ r h. elim (IsIn-with_current _ _ r h) [
            | inl at_root ↦ subst (Canonical c) (of_some (sym now ∙ at_root)) cw
            | inr document ↦ v.canonical r (IsIn-documents _ _ r (subst (IsIn r) ed document))
          ];
          backed = λ r at_root.
              subst (λ x. (x.index ≡ 0) × Kept s' x) (of_some (sym now ∙ at_root))
                (
                  ez,
                  elim kept [
                    | inl document ↦ inl (subst (IsIn w) (sym ed) document)
                    | inr default ↦ inr default
                  ],
                );
        };
        covers = λ r h. elim (IsIn-with_current _ _ r h) [
          | inl at_root ↦ cover_root s s' r (sym ed) (v.backed r at_root)
          | inr document ↦ inl (IsIn-documents _ _ r (subst (IsIn r) (sym ed) document))
        ];
        inside = IsIn-current _ _ w now;
        at_root = now;
        elsewhere = away;
      }
    where
      cover_root :
          (s s' : db.State) (r : MerkleRecord)
          → server.documents n s ≡ server.documents n s'
          → (r.index ≡ 0) × Kept s r
          → IsIn r (held_in s') ⊎ ((r.index ≡ 0) × (get_default_record c 0 ≡ ok r))
      cover_root s s' r ed (zero_index, inl document) =
          inl (IsIn-documents _ _ r (subst (IsIn r) ed document))
      cover_root s s' r ed (zero_index, inr default) = inr (zero_index, default)
