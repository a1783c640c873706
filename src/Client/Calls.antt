-- ===== src/Client/Calls.antt =====
-- The calls of `MongoMerkle` (src/kvpair.rs). The generated gRPC client is a parameter; its state is
-- whatever the calls change.
use zkc_state.Prelude.{ℕ, Option, none, some}
use zkc_state.Action.{Action}
use zkc_state.Hash.{Bytes, Hash}
use zkc_state.Errors.{Status}
use zkc_state.Kvpair.Hash.{ContractId, LeafData}
use zkc_state.Kvpair.Node.{Node}
use zkc_state.Service.Request.{
  GetRootRequest, SetRootRequest, GetLeafRequest, SetLeafRequest, GetNonLeafRequest,
  SetNonLeafRequest, LeafResponse,
}

-- The calls give the content of a response, for those on roots and inner nodes its one field.
pub record KvPairClient (M S : Type 0) : Type 0 where
  pub get_root : GetRootRequest → Action (Status M) S Bytes
  pub set_root : SetRootRequest → Action (Status M) S Bytes
  pub get_leaf : GetLeafRequest → Action (Status M) S LeafResponse
  pub set_leaf : SetLeafRequest → Action (Status M) S LeafResponse
  pub get_non_leaf : GetNonLeafRequest → Action (Status M) S (Option Node)
  pub set_non_leaf : SetNonLeafRequest → Action (Status M) S (Option Node)

pub record MongoMerkle (S : Type 0) : Type 0 where
  pub root_hash : Hash
  pub contract_id : ContractId
  pub client : S

-- `Option<Hash>` in a request
abbrev pub bytes_of : Option Hash → Option Bytes
bytes_of none = none
bytes_of (some h) = some h.bytes

module _ {M S : Type 0} (api : KvPairClient M S) where
  -- A call with the request that is made for the client's contract.
  abbrev pub call :
      {R A : Type 0}
      → (R → Action (Status M) S A)
      → (ContractId → R)
      → Action (Status M) (MongoMerkle S) A
  call f request merkle =
      let (r, s) = f (request merkle.contract_id) merkle.client in (r, record merkle { client = s })

  unfoldable pub get_root : Action (Status M) (MongoMerkle S) Bytes
  get_root = call api.get_root (λ id. record { contract_id = some id.id })

  unfoldable pub set_root : Hash → Action (Status M) (MongoMerkle S) Bytes
  set_root hash = call api.set_root (λ id. record { contract_id = some id.id; hash = hash.bytes })

  unfoldable pub get_leaf : ℕ → Option Hash → ℕ → Action (Status M) (MongoMerkle S) LeafResponse
  get_leaf index hash proof_type = call api.get_leaf (λ id. record {
    contract_id = some id.id;
    index = index;
    hash = bytes_of hash;
    proof_type = proof_type;
  })

  unfoldable pub set_leaf : ℕ → LeafData → ℕ → Action (Status M) (MongoMerkle S) LeafResponse
  set_leaf index leaf_data proof_type = call api.set_leaf (λ id. record {
    contract_id = some id.id;
    index = index;
    hash = none;
    bytes = some leaf_data.bytes;
    proof_type = proof_type;
  })

  unfoldable pub get_non_leaf : ℕ → Hash → Action (Status M) (MongoMerkle S) (Option Node)
  get_non_leaf index hash =
      call api.get_non_leaf
        (λ id. record { contract_id = some id.id; index = index; hash = hash.bytes })

  unfoldable pub set_non_leaf :
      ℕ → Option Hash → Hash → Hash → Action (Status M) (MongoMerkle S) (Option Node)
  set_non_leaf index hash left right = call api.set_non_leaf (λ id. record {
    contract_id = some id.id;
    index = index;
    hash = bytes_of hash;
    left_child_hash = left.bytes;
    right_child_hash = right.bytes;
  })
