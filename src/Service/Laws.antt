-- ===== src/Service/Laws.antt =====
-- What the service relies on of MongoDB: a server that answers, where calls follow one another. A
-- merkle collection holds documents, and at most one under the id of the current root.
use zkc_state.Prelude.{ℕ, ◌≡◌, ◌≢◌, ◌⊎◌, ◌∙◌, refl, true, List, [], ◌∷◌, Option, none, some, String}
use zkc_state.Outcome.{ok}
use zkc_state.Hash.{Hash}
use zkc_state.Kvpair.Record.{MerkleRecord, DataHashRecord}
use zkc_state.Service.Mongo.{Mongo, SetFields, by_id, by_index_and_hash, by_hash}
use zkc_state.Service.Collection.{get_current_root_object_id}

abbrev pub IsIn : {A : Type 0} → A → List A → Type 0
IsIn a [] = ⊥
IsIn a (x ∷ xs) = (a ≡ x) ⊎ IsIn a xs

abbrev pub with_current : Option MerkleRecord → List MerkleRecord → List MerkleRecord
with_current none docs = docs
with_current (some r) docs = r ∷ docs

abbrev pub record_of_fields : SetFields → MerkleRecord
record_of_fields f = record {
  index = f.index;
  hash = f.hash;
  left = f.left;
  right = f.right;
  bytes = f.bytes;
}

-- `find_one` gives some document that fits the filter, if there is one.
abbrev pub Answers : ℕ → Hash → List MerkleRecord → Option MerkleRecord → Type 0
Answers i h docs none = (r : MerkleRecord) → IsIn r docs → r.index ≡ i → r.hash ≡ h → ⊥
Answers i h docs (some r) = IsIn r docs × (r.index ≡ i) × (r.hash ≡ h)

-- `find_one` by a hash among the data hash records.
abbrev pub AnswersHash : Hash → List DataHashRecord → Option DataHashRecord → Type 0
AnswersHash h docs none = (r : DataHashRecord) → IsIn r docs → r.hash ≡ h → ⊥
AnswersHash h docs (some r) = IsIn r docs × (r.hash ≡ h)

-- A call for the merkle collection `n` leaves the other collections as they are.
abbrev pub SameElsewhere :
    {S : Type 0} (documents : String → S → List MerkleRecord)
    (current : String → S → Option MerkleRecord) (records : String → S → List DataHashRecord)
    → String
    → S
    → S
    → Type 0
SameElsewhere documents current records n s s' =
    ((k : String) → k ≢ n → (documents k s' ≡ documents k s) × (current k s' ≡ current k s))
    × ((k : String) → records k s' ≡ records k s)

pub record MongoLaws (db : Mongo) : Type 0 where
  pub documents : String → db.State → List MerkleRecord
  pub current : String → db.State → Option MerkleRecord
  pub records : String → db.State → List DataHashRecord
  pub find_current :
      (n : String) (s : db.State)
      → db.find_one_merkle none n (by_id get_current_root_object_id) s ≡ (ok (current n s), s)
  pub find_document :
      (n : String) (i : ℕ) (h : Hash) (s : db.State)
      → (found : Option MerkleRecord) × (db.find_one_merkle none n (by_index_and_hash i h) s
          ≡ (ok found, s))
        × Answers i h (with_current (current n s) (documents n s)) found
  pub insert :
      (n : String) (r : MerkleRecord) (s : db.State)
      → (s' : db.State) × (db.insert_one_merkle none n r s ≡ (ok tt, s'))
        × (documents n s' ≡ r ∷ documents n s)
        × (current n s' ≡ current n s)
        × SameElsewhere documents current records n s s'
  pub upsert :
      (n : String) (f : SetFields) (s : db.State)
      → (s' : db.State) × (db.update_one_merkle none n (by_id get_current_root_object_id) f true s
          ≡ (ok tt, s'))
        × (documents n s' ≡ documents n s)
        × (current n s' ≡ some (record_of_fields f))
        × SameElsewhere documents current records n s s'
  pub find_datahash :
      (m : String) (h : Hash) (s : db.State)
      → (found : Option DataHashRecord) × (db.find_one_datahash none m (by_hash h) s
          ≡ (ok found, s))
        × AnswersHash h (records m s) found
  pub insert_datahash :
      (m : String) (r : DataHashRecord) (s : db.State)
      → (s' : db.State) × (db.insert_one_datahash none m r s ≡ (ok tt, s'))
        × (records m s' ≡ r ∷ records m s)
        × ((k : String) → (documents k s' ≡ documents k s) × (current k s' ≡ current k s))

-- What a state holds of the collections but the merkle collection `n` is what another does.
abbrev pub Elsewhere : {db : Mongo} (server : MongoLaws db) → String → db.State → db.State → Type 0
Elsewhere server = SameElsewhere server.documents server.current server.records

module _ {db : Mongo} (server : MongoLaws db) (n : String) where
  pub Elsewhere-same : (s : db.State) → Elsewhere server n s s
  Elsewhere-same s = (λ k other. (refl, refl), λ k. refl)

  pub Elsewhere-trans :
      (s s' s'' : db.State)
      → Elsewhere server n s s'
      → Elsewhere server n s' s''
      → Elsewhere server n s s''
  Elsewhere-trans s s' s'' (d, r) (d', r') =
      (λ k other. ((d' k other).0 ∙ (d k other).0, (d' k other).1 ∙ (d k other).1), λ k. r' k ∙ r k)
