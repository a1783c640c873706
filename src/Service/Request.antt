-- ===== src/Service/Request.antt =====
-- The messages of proto/kvpair.proto that the handlers take and give, and the contract that a request
-- is about (src/service.rs).
use zkc_state.Prelude.{ℕ, Bool, Option, none, some, String}
use zkc_state.Outcome.{Outcome, ok, err, panic, ◌>>=◌, ◌>>◌, ok_or, map_err}
use zkc_state.Hash.{Bytes}
use zkc_state.Crypto.{Crypto}
use zkc_state.Errors.{Error, Status, unauthenticated, text, status_of}
use zkc_state.Kvpair.Hash.{
  ContractId, default_contract_id, contract_id_of_slice, contract_id_of_text,
}
use zkc_state.Kvpair.Node.{Node}

-- A request: of a header its text, which is missing if the header's bytes are no text.
pub record Request (T : Type 0) : Type 0 where
  pub metadata : String → Option (Option String)
  pub inner : T

pub record GetRootRequest : Type 0 where
  pub contract_id : Option Bytes

pub record SetRootRequest : Type 0 where
  pub contract_id : Option Bytes
  pub hash : Bytes

pub record GetLeafRequest : Type 0 where
  pub contract_id : Option Bytes
  pub index : ℕ
  pub hash : Option Bytes
  pub proof_type : ℕ

pub record SetLeafRequest : Type 0 where
  pub contract_id : Option Bytes
  pub index : ℕ
  pub hash : Option Bytes
  pub bytes : Option Bytes
  pub proof_type : ℕ

pub record GetNonLeafRequest : Type 0 where
  pub contract_id : Option Bytes
  pub index : ℕ
  pub hash : Bytes

pub record SetNonLeafRequest : Type 0 where
  pub contract_id : Option Bytes
  pub index : ℕ
  pub hash : Option Bytes
  pub left_child_hash : Bytes
  pub right_child_hash : Bytes

pub record PoseidonHashRequest : Type 0 where
  pub contract_id : Option Bytes
  pub bytes : Bytes

pub record DataHashRecordRequest : Type 0 where
  pub contract_id : Option Bytes
  pub hash : Option Bytes
  pub bytes : Option Bytes
  pub mode : Option ℕ

pub record Proof : Type 0 where
  pub proof_type : ℕ
  pub proof : Bytes

-- `GetLeafResponse` and `SetLeafResponse` have the same fields.
pub record LeafResponse : Type 0 where
  pub node : Option Node
  pub proof : Option Proof

pub record DataHashRecordResponse : Type 0 where
  pub hash : Bytes
  pub bytes : Bytes

-- `ProofType::ProofV0`, `DataHashRecordMode::ModeStore` and `ModeFetch`
abbrev pub proof_v0 : ℕ
proof_v0 = 2

abbrev pub mode_store : ℕ
mode_store = 1

abbrev pub mode_fetch : ℕ
mode_fetch = 2

-- `MongoKvPair`: its test configuration, and whether MONGODB_CREATE_INDEXES is set.
pub record MongoKvPair : Type 0 where
  pub test_config : Option ContractId
  pub with_indexes : Bool

-- `unwrap_or_default`
abbrev or_default : {M : Type 0} → Outcome (Status M) ContractId → Outcome (Status M) ContractId
or_default (ok id) = ok id
or_default (err e) = ok default_contract_id
or_default panic = panic

module _ (c : Crypto) {M T : Type 0} where
  -- `validate_contract_id` accepts every id.
  unfoldable pub validate_contract_id : Request T → ContractId → Outcome (Status M) (Unit {0})
  validate_contract_id request id = ok tt

  unfoldable pub get_contract_id_from_request_context : Request T → Outcome (Status M) ContractId
  unfolding validate_contract_id
  get_contract_id_from_request_context request = do
    value ← ok_or (request.metadata "x-auth-contract-id") (denied "Contract id not found")
    shown ← ok_or value (denied "Invalid Contract id")
    id ← map_err invalid (contract_id_of_text c shown)
    validate_contract_id request id
    ok id
    where
      denied : String → Status M
      denied s = record { code = unauthenticated; message = text s }

      invalid : Error M → Status M
      invalid e = denied "Invalid Contract id"

  unfoldable pub get_contract_id_from_request_parameters :
      Request T → Bytes → Outcome (Status M) ContractId
  unfolding validate_contract_id
  get_contract_id_from_request_parameters request contract_id = do
    id ← map_err status_of (contract_id_of_slice contract_id)
    validate_contract_id request id
    ok id

  unfoldable pub get_contract_id :
      MongoKvPair → Request T → Option Bytes → Outcome (Status M) ContractId
  unfolding get_contract_id_from_request_parameters get_contract_id_from_request_context
  get_contract_id server request contract_id = elim server.test_config [
    | some id ↦ ok id
    | none ↦ elim contract_id [
      | some bytes ↦ get_contract_id_from_request_parameters request bytes
      | none ↦ or_default (get_contract_id_from_request_context request)
    ]
  ]
