-- ===== src/Tests/Server.antt =====
-- A server of the tests: the documents of each collection by its name, and of a merkle collection
-- the one under the id of the current root.
use zkc_state.Prelude.{
  ℕ, ◌≡◌, ◌≢◌, refl, ap, sym, ◌∙◌, ◌⊎◌, inl, inr, true, false, ◌&&◌, List, [], ◌∷◌, Option, none,
  some, String, arith, ◌==◌, if◌then◌else◌, Bool-cases,
}
use text.Mathlib.Text.{◌==◌ as str_eq}
use text.Mathlib.TextPositions.{eq_refl}
use text.Mathlib.TextEquality.{eq_iff}
use zkc_state.Outcome.{ok}
use zkc_state.Hash.{Hash, hash_eq, hash_eq→eq, hash_eq_refl}
use zkc_state.Kvpair.Record.{MerkleRecord, DataHashRecord}
use zkc_state.Crypto.{Crypto}
use zkc_state.Service.Setup.{DropLaws}
use zkc_state.Service.Mongo.{Mongo, Filter, SetFields, by_id, by_index_and_hash, by_hash}
use zkc_state.Service.Laws.{MongoLaws, Answers, AnswersHash, with_current, record_of_fields}

-- A change of a function at one name.
unfoldable pub put : {A : Type 0} → String → A → (String → A) → String → A
put n a f k = if str_eq k n then a else f k

pub put_same : {A : Type 0} (n : String) (a : A) (f : String → A) → put n a f n ≡ a
unfolding put
put_same n a f = rw (eq_refl n) refl

put_other :
    {A : Type 0} (n : String) (a : A) (f : String → A) (k : String) → k ≢ n → put n a f k ≡ f k
unfolding put
put_other n a f k differs = elim (Bool-cases (str_eq k n)) [
  | inl same ↦ absurd (differs ((eq_iff k n).0 same))
  | inr other ↦ rw other refl
]

-- The documents of a merkle collection.
pub record Documents : Type 0 where
  pub stored : List MerkleRecord
  pub root : Option MerkleRecord

pub record Databases : Type 0 where
  pub merkle : String → Documents
  pub by_name : String → List DataHashRecord

abbrev no_stored : Documents
no_stored = record { stored = []; root = none }

abbrev pub no_databases : Databases
no_databases = record { merkle = λ n. no_stored; by_name = λ n. [] }

unfoldable pub find_in : ℕ → Hash → List MerkleRecord → Option MerkleRecord
find_in i h [] = none
find_in i h (r ∷ docs) = if r.index == i && hash_eq r.hash h then some r else find_in i h docs

unfoldable pub find_hash : Hash → List DataHashRecord → Option DataHashRecord
find_hash h [] = none
find_hash h (r ∷ docs) = if hash_eq r.hash h then some r else find_hash h docs

abbrev find_by : Filter → Documents → Option MerkleRecord
find_by (by_id id) d = d.root
find_by (by_index_and_hash i h) d = find_in i h (with_current d.root d.stored)
find_by (by_hash h) d = none

abbrev find_data : Filter → List DataHashRecord → Option DataHashRecord
find_data (by_id id) rs = none
find_data (by_index_and_hash i h) rs = none
find_data (by_hash h) rs = find_hash h rs

abbrev set_by : Filter → SetFields → Documents → Documents
set_by (by_id id) f d = record d { root = some (record_of_fields f) }
set_by (by_index_and_hash i h) f d = d
set_by (by_hash h) f d = d

abbrev add : MerkleRecord → Documents → Documents
add r d = record d { stored = r ∷ d.stored }

abbrev set_merkle : String → Documents → Databases → Databases
set_merkle n d s = record s { merkle = put n d s.merkle }

abbrev pub test_server : Mongo
test_server = record {
  State = Databases;
  MongoError = Unit {0};
  Session = Unit {0};
  start_session = λ s. (ok tt, s);
  start_transaction = λ session s. (ok tt, s);
  commit_transaction = λ session s. (ok tt, s);
  may_retry = λ e. false;
  create_indexes = λ n s. (ok tt, s);
  drop_collection =
      λ n s. (ok tt, record { merkle = put n no_stored s.merkle; by_name = put n [] s.by_name });
  find_one_merkle = λ session n filter s. (ok (find_by filter (s.merkle n)), s);
  insert_one_merkle = λ session n r s. (ok tt, set_merkle n (add r (s.merkle n)) s);
  replace_one_merkle = λ session n filter r s. (ok tt, s);
  update_one_merkle =
      λ session n filter f upsert s. (ok tt, set_merkle n (set_by filter f (s.merkle n)) s);
  find_one_datahash = λ session n filter s. (ok (find_data filter (s.by_name n)), s);
  insert_one_datahash =
      λ session n r s. (ok tt, record s { by_name = put n (r ∷ s.by_name n) s.by_name });
}

IsIn-tail :
    (i : ℕ) (h : Hash) (r : MerkleRecord) (docs : List MerkleRecord) (found : Option MerkleRecord)
    → ((r.index ≡ i) → (r.hash ≡ h) → ⊥)
    → Answers i h docs found
    → Answers i h (r ∷ docs) found
IsIn-tail i h r docs none differs answer = λ x inside ei eh. elim inside [
  | inl here ↦
      differs (sym (ap (λ (y : MerkleRecord). y.index) here) ∙ ei)
        (sym (ap (λ (y : MerkleRecord). y.hash) here) ∙ eh)
  | inr there ↦ answer x there ei eh
]
IsIn-tail i h r docs (some x) differs (inside, ei, eh) = (inr inside, ei, eh)

pub find_in-Answers :
    (i : ℕ) (h : Hash) (docs : List MerkleRecord) → Answers i h docs (find_in i h docs)
unfolding find_in
find_in-Answers i h [] = λ r inside ei eh. inside
find_in-Answers i h (r ∷ docs) = elim (Bool-cases (r.index == i && hash_eq r.hash h)) [
  | inl same ↦
      let ei : r.index ≡ i = ground arith in
      let eh : hash_eq r.hash h ≡ true = ground arith in
      rw same (inl refl, ei, hash_eq→eq r.hash h eh)
  | inr other ↦ rw other (
      IsIn-tail i h r docs (find_in i h docs)
        (λ ei eh.
          let same : hash_eq r.hash h ≡ true = ap (hash_eq r.hash) (sym eh) ∙ hash_eq_refl r.hash in
          ground arith)
        (find_in-Answers i h docs))
]

AnswersHash-tail :
    (h : Hash) (r : DataHashRecord) (docs : List DataHashRecord) (found : Option DataHashRecord)
    → ((r.hash ≡ h) → ⊥)
    → AnswersHash h docs found
    → AnswersHash h (r ∷ docs) found
AnswersHash-tail h r docs none differs answer = λ x inside eh. elim inside [
  | inl here ↦ differs (sym (ap (λ (y : DataHashRecord). y.hash) here) ∙ eh)
  | inr there ↦ answer x there eh
]
AnswersHash-tail h r docs (some x) differs (inside, eh) = (inr inside, eh)

pub find_hash-AnswersHash :
    (h : Hash) (docs : List DataHashRecord) → AnswersHash h docs (find_hash h docs)
unfolding find_hash
find_hash-AnswersHash h [] = λ r inside eh. inside
find_hash-AnswersHash h (r ∷ docs) = elim (Bool-cases (hash_eq r.hash h)) [
  | inl same ↦ rw same (inl refl, hash_eq→eq r.hash h same)
  | inr other ↦ rw other (
      AnswersHash-tail h r docs (find_hash h docs)
        (λ eh.
          let same : hash_eq r.hash h ≡ true = ap (hash_eq r.hash) (sym eh) ∙ hash_eq_refl r.hash in
          absurd (cc))
        (find_hash-AnswersHash h docs))
]

abbrev stored_of : Documents → List MerkleRecord
stored_of d = d.stored

abbrev root_of : Documents → Option MerkleRecord
root_of d = d.root

-- What a change of one merkle collection leaves of the others.
pub put_elsewhere :
    (n : String) (d : Documents) (f : String → Documents) (k : String)
    → k ≢ n
    → ((put n d f k).stored ≡ (f k).stored) × ((put n d f k).root ≡ (f k).root)
put_elsewhere n d f k differs =
    let same = put_other n d f k differs in (ap stored_of same, ap root_of same)

abbrev pub test_server_laws : MongoLaws test_server
test_server_laws = record {
  documents = λ n s. (s.merkle n).stored;
  current = λ n s. (s.merkle n).root;
  records = λ n s. s.by_name n;
  find_current = λ n s. refl;
  find_document = λ n i h s. (
    find_in i h (with_current (s.merkle n).root (s.merkle n).stored),
    refl,
    find_in-Answers i h (with_current (s.merkle n).root (s.merkle n).stored),
  );
  insert = λ n r s.
      let d = add r (s.merkle n) in
      (
        set_merkle n d s,
        refl,
        ap stored_of (put_same n d s.merkle),
        ap root_of (put_same n d s.merkle),
        (put_elsewhere n d s.merkle, λ k. refl),
      );
  upsert = λ n f s.
      let d : Documents = record (s.merkle n) { root = some (record_of_fields f) } in
      (
        set_merkle n d s,
        refl,
        ap stored_of (put_same n d s.merkle),
        ap root_of (put_same n d s.merkle),
        (put_elsewhere n d s.merkle, λ k. refl),
      );
  find_datahash = λ m h s. (find_hash h (s.by_name m), refl, find_hash-AnswersHash h (s.by_name m));
  insert_datahash = λ m r s. (
    record s { by_name = put m (r ∷ s.by_name m) s.by_name },
    refl,
    put_same m (r ∷ s.by_name m) s.by_name,
    λ k. (refl, refl),
  );
}

-- What stays of a merkle collection when one is emptied.
emptied :
    (n : String) (f : String → Documents) (k : String)
    → (((put n no_stored f k).stored ≡ (f k).stored) × ((put n no_stored f k).root ≡ (f k).root))
      ⊎ (((put n no_stored f k).stored ≡ []) × ((put n no_stored f k).root ≡ none))
unfolding put
emptied n f k = elim (Bool-cases (str_eq k n)) [
  | inl same ↦ rw same (inr (refl, refl))
  | inr other ↦ rw other (inl (refl, refl))
]

pub test_server-DropLaws : (c : Crypto) → DropLaws c test_server test_server_laws
test_server-DropLaws c n s = (
  record { merkle = put n no_stored s.merkle; by_name = put n [] s.by_name },
  refl,
  (
    ap stored_of (put_same n no_stored s.merkle),
    ap root_of (put_same n no_stored s.merkle),
    emptied n s.merkle,
    put_elsewhere n no_stored s.merkle,
  ),
)
