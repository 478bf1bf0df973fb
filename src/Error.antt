-- ===== src/Error.antt =====
-- The error type of the runtime, its mapping to gRPC status codes, and results (src/error/mod.rs).
use llm.Base.{String, ◌≡◌, arith}

pub data AstraError : Type 0 where
  invalid_argument failed_precondition already_exists out_of_range : String → AstraError
  resource_exhausted deadline_exceeded cancelled ownership_lost : String → AstraError
  unauthenticated permission_denied not_found unavailable internal : String → AstraError

pub data Result {ℓ} (A : Type ℓ) : Type ℓ where
  ok : A → Result A
  err : AstraError → Result A

-- The codes of `tonic::Status` that the conversion uses.
pub data Code : Type 0 where
  invalid_argument failed_precondition already_exists out_of_range resource_exhausted : Code
  deadline_exceeded cancelled aborted unauthenticated permission_denied not_found : Code
  unavailable internal : Code

pub record Status : Type 0 where
  pub code : Code
  pub message : String

status : Code → String → Status
status c m = record { code = c; message = m }

unfoldable pub to_status : AstraError → Status
unfolding status
to_status (AstraError.invalid_argument m) = status Code.invalid_argument m
to_status (AstraError.failed_precondition m) = status Code.failed_precondition m
to_status (AstraError.already_exists m) = status Code.already_exists m
to_status (AstraError.out_of_range m) = status Code.out_of_range m
to_status (AstraError.resource_exhausted m) = status Code.resource_exhausted m
to_status (AstraError.deadline_exceeded m) = status Code.deadline_exceeded m
to_status (AstraError.cancelled m) = status Code.cancelled m
to_status (AstraError.ownership_lost m) = status Code.aborted m
to_status (AstraError.unauthenticated m) = status Code.unauthenticated m
to_status (AstraError.permission_denied m) = status Code.permission_denied m
to_status (AstraError.not_found m) = status Code.not_found m
to_status (AstraError.unavailable m) = status Code.unavailable m
to_status (AstraError.internal m) = status Code.internal m

-- The error that a client can read back from a status: no two errors share a code.
pub from_status : Status → AstraError
from_status s = read s.code s.message
  where
    read : Code → String → AstraError
    read Code.invalid_argument m = AstraError.invalid_argument m
    read Code.failed_precondition m = AstraError.failed_precondition m
    read Code.already_exists m = AstraError.already_exists m
    read Code.out_of_range m = AstraError.out_of_range m
    read Code.resource_exhausted m = AstraError.resource_exhausted m
    read Code.deadline_exceeded m = AstraError.deadline_exceeded m
    read Code.cancelled m = AstraError.cancelled m
    read Code.aborted m = AstraError.ownership_lost m
    read Code.unauthenticated m = AstraError.unauthenticated m
    read Code.permission_denied m = AstraError.permission_denied m
    read Code.not_found m = AstraError.not_found m
    read Code.unavailable m = AstraError.unavailable m
    read Code.internal m = AstraError.internal m

-- No two errors become the same status: the error can be read back from code and message.
pub from_status-to_status : (e : AstraError) → from_status (to_status e) ≡ e
unfolding from_status to_status
from_status-to_status e = ground arith
