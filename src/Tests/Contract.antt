-- ===== src/Tests/Contract.antt =====
-- The contract of a request whose header is no base64 text.
use zkc_state.Prelude.{◌≡◌, ◌≢◌, ◌⊎◌, Option, none, some, false, length}
use zkc_state.Outcome.{ok, err}
use zkc_state.Hash.{Bytes}
use zkc_state.Errors.{status_of, invalid_argument}
use zkc_state.Kvpair.Hash.{ContractId}
use zkc_state.Service.Request.{Request, GetRootRequest, MongoKvPair, get_contract_id}
use zkc_state.Service.Contract.{Chooses, get_contract_id_lem}
use zkc_state.Tests.Instances.{number_crypto}

abbrev with_header : Request GetRootRequest
with_header = record { metadata = λ name. some (some "?"); inner = record { contract_id = none } }

abbrev deployed : MongoKvPair
deployed = record { test_config = none; with_indexes = false }

abbrev no_id : Option Bytes
no_id = none

get_contract_id_lem_example :
    ((id : ContractId) × (get_contract_id number_crypto {M = Unit {0}} deployed with_header no_id
        ≡ ok id)
      × Chooses number_crypto with_header deployed.test_config no_id id)
    ⊎ ((a : Bytes) × (deployed.test_config ≡ none)
        × (no_id ≡ some a)
        × (length a ≢ 32)
        × (get_contract_id number_crypto {M = Unit {0}} deployed with_header none
            ≡ err (status_of (invalid_argument "Contract Id malformed (must be [u8; 32])"))))
get_contract_id_lem_example = get_contract_id_lem number_crypto with_header deployed no_id
