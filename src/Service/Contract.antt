-- ===== src/Service/Contract.antt =====
-- The contract that a request is about: `get_contract_id` of src/service.rs against the ways to
-- choose it.
use zkc_state.Prelude.{
  ◌≡◌, ◌≢◌, ◌⊎◌, inl, inr, refl, arith, Option, none, some, String, length, ◌==◌, Bool-cases,
  Option-cases, ==_iff,
}
use zkc_state.Outcome.{ok, err}
use zkc_state.Hash.{Bytes}
use zkc_state.Crypto.{Crypto}
use zkc_state.Errors.{Status, unauthenticated, text, status_of, invalid_argument}
use zkc_state.Kvpair.Hash.{
  ContractId, default_contract_id, contract_id_of_slice, to_array32, contract_id_of_text,
}
use zkc_state.Service.Request.{
  Request, MongoKvPair, get_contract_id, get_contract_id_from_request_parameters,
  get_contract_id_from_request_context, validate_contract_id,
}

module _ (c : Crypto) {T : Type 0} (request : Request T) where
  -- The header x-auth-contract-id has the base64 text of the id.
  abbrev pub Names : ContractId → Type 0
  Names id =
      (shown : String) × (request.metadata "x-auth-contract-id" ≡ some (some shown))
      × (c.base64_decode shown ≡ some id.id)
      × (length id.id ≡ 32)

  -- The contract for a test configuration and the request's own `contract_id`.
  pub data Chooses : Option ContractId → Option Bytes → ContractId → Type 0 where
    configured : (id : ContractId) (wanted : Option Bytes) → Chooses (some id) wanted id
    requested : (id : ContractId) → length id.id ≡ 32 → Chooses none (some id.id) id
    named : (id : ContractId) → Names id → Chooses none none id
    defaulted : ((id : ContractId) → ¬ Names id) → Chooses none none default_contract_id

  module _ {M : Type 0} where
    slice_lem :
        (a : Bytes)
        → ((length a ≡ 32) × (contract_id_of_slice {M = M} a ≡ ok (record { id = a })))
          ⊎ ((length a ≢ 32)
              × (contract_id_of_slice {M = M} a
                  ≡ err (invalid_argument "Contract Id malformed (must be [u8; 32])")))
    unfolding contract_id_of_slice to_array32
    slice_lem a = elim (Bool-cases (length a == 32)) [
      | inl fits ↦ inl ((==_iff (length a) 32).0 fits, rw fits refl)
      | inr other ↦ inr (λ l. absurd (ground (arith, l, other)), rw other refl)
    ]

    abbrev denied : String → Status M
    denied s = record { code = unauthenticated; message = text s }

    context_lem :
        ((id : ContractId) × (get_contract_id_from_request_context c {M = M} request ≡ ok id)
          × Names id)
        ⊎ ((e : Status M) × (get_contract_id_from_request_context c {M = M} request ≡ err e)
            × ((id : ContractId) → ¬ Names id))
    unfolding get_contract_id_from_request_context contract_id_of_text validate_contract_id
    context_lem = elim (Option-cases (request.metadata "x-auth-contract-id")) [
      | inl missing ↦
          inr (denied "Contract id not found", rw missing refl, λ id (shown, e, _, _). absurd (cc))
      | inr (none, e) ↦
          inr (denied "Invalid Contract id", rw e refl, λ id (shown, e', _, _). absurd (cc))
      | inr (some shown, e) ↦ elim (Option-cases (c.base64_decode shown)) [
        | inl bad ↦ inr (
          denied "Invalid Contract id",
          rw (e, contract_id_of_text, bad) refl,
          λ id (other, e', ed, _). absurd (cc),
        )
        | inr (a, ed) ↦ elim (slice_lem a) [
          | inl (l, es) ↦
              inl (record { id = a }, rw (e, contract_id_of_text, ed, es) refl, (shown, e, ed, l))
          | inr (l, es) ↦ inr (
            denied "Invalid Contract id",
            rw (e, contract_id_of_text, ed, es) refl,
            λ id (other, e', ed', l'). absurd (cc),
          )
        ]
      ]
    ]

    -- `get_contract_id` does not panic. It returns the contract of the test configuration; without
    -- one, the `contract_id` of the request, if that has 32 bytes; without that, the contract that
    -- the header x-auth-contract-id has the base64 text of, and where there is no such header or
    -- it is no base64 text of 32 bytes, the default contract. It returns an error, for a malformed
    -- argument, exactly where there is no test configuration and the request has a `contract_id`
    -- that is not of 32 bytes.
    pub get_contract_id_lem :
        (host : MongoKvPair) (wanted : Option Bytes)
        → ((id : ContractId) × (get_contract_id c {M = M} host request wanted ≡ ok id)
            × Chooses host.test_config wanted id)
          ⊎ ((a : Bytes) × (host.test_config ≡ none)
              × (wanted ≡ some a)
              × (length a ≢ 32)
              × (get_contract_id c {M = M} host request wanted
                  ≡ err (status_of (invalid_argument "Contract Id malformed (must be [u8; 32])"))))
    unfolding get_contract_id get_contract_id_from_request_parameters validate_contract_id
    get_contract_id_lem host wanted = elim (Option-cases host.test_config) [
      | inr (id, e) ↦ inl (id, rw e refl, rw e (configured id wanted))
      | inl e ↦ elim (Option-cases wanted) [
        | inr (a, ew) ↦ elim (slice_lem a) [
          | inl (l, es) ↦
              inl (record { id = a }, rw (e, ew) (rw es refl), rw (e, ew) (requested _ l))
          | inr (l, es) ↦ inr (a, e, ew, l, rw (e, ew) (rw es refl))
        ]
        | inl ew ↦ elim context_lem [
          | inl (id, ec, names) ↦ inl (id, rw (e, ew) (rw ec refl), rw (e, ew) (named id names))
          | inr (denial, ec, unnamed) ↦
              inl (default_contract_id, rw (e, ew) (rw ec refl), rw (e, ew) (defaulted unnamed))
        ]
      ]
    ]
