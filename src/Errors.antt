-- ===== src/Errors.antt =====
-- src/errors.rs. `M` is the driver's error type. Of a message the fixed text is kept, without the
-- values that `format!` puts in.
use zkc_state.Prelude.{String}
use zkc_state.Merkle.Error.{MerkleError}

pub data Error (M : Type 0) : Type 0 where
  mongodb : M → Error M
  merkle : MerkleError → Error M
  invalid_argument : String → Error M
  inconsistent_data : String → Error M
  precondition : String → Error M

-- The gRPC codes that the service uses.
pub data Code : Type 0 where
  internal bad_argument unauthenticated : Code

-- A status' text is given in the source, or is that of an error.
pub data Message (M : Type 0) : Type 0 where
  text : String → Message M
  of_error : Error M → Message M

pub record Status (M : Type 0) : Type 0 where
  pub code : Code
  pub message : Message M

abbrev pub code_of : {M : Type 0} → Error M → Code
code_of (mongodb e) = internal
code_of (merkle e) = internal
code_of (invalid_argument s) = bad_argument
code_of (inconsistent_data s) = internal
code_of (precondition s) = internal

-- `From<Error> for Status`
abbrev pub status_of : {M : Type 0} → Error M → Status M
status_of e = record { code = code_of e; message = of_error e }
