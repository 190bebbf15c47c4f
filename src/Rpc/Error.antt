-- ===== src/Rpc/Error.antt =====
-- src/rpc/error.h, src/rpc/error.cpp and the contract's error messages in proto/shim.proto.
pub mod Replay
use daichod.Base.{Bool, true, false, List, [], ◌∷◌, Option, none, some}
use daichod.Base.Text.{Bytes, str}

pub data ErrorCode : Type 0 where
  unspecified unbalanced_transaction account_not_found txn_not_found : ErrorCode
  commodity_not_found currency_mismatch account_not_empty read_only_book : ErrorCode
  book_locked book_not_open invalid_argument indeterminate_mutation engine_error : ErrorCode

pub record ErrorDetail : Type 0 where
  pub code : ErrorCode
  pub engine_message : Bytes
  pub context : Bytes

-- class ShimError: the private members of the exception.
pub record ShimError : Type 0 where
  pub code : ErrorCode
  pub engine_message : Bytes
  pub context : Bytes

-- The status codes of gRPC that the daemon uses.
pub data GrpcCode : Type 0 where
  grpc_ok not_found failed_precondition unavailable : GrpcCode
  grpc_invalid_argument internal resource_exhausted : GrpcCode

-- GrpcCodeFor
unfoldable pub grpc_code_for : ErrorCode → GrpcCode
grpc_code_for account_not_found = not_found
grpc_code_for txn_not_found = not_found
grpc_code_for commodity_not_found = not_found
grpc_code_for unbalanced_transaction = failed_precondition
grpc_code_for currency_mismatch = failed_precondition
grpc_code_for account_not_empty = failed_precondition
grpc_code_for read_only_book = failed_precondition
grpc_code_for indeterminate_mutation = failed_precondition
grpc_code_for book_locked = unavailable
grpc_code_for book_not_open = unavailable
grpc_code_for invalid_argument = grpc_invalid_argument
grpc_code_for engine_error = internal
grpc_code_for unspecified = internal

-- IsDeterministicVerdict
unfoldable pub is_deterministic_verdict : ErrorCode → Bool
is_deterministic_verdict unbalanced_transaction = true
is_deterministic_verdict account_not_found = true
is_deterministic_verdict txn_not_found = true
is_deterministic_verdict commodity_not_found = true
is_deterministic_verdict currency_mismatch = true
is_deterministic_verdict account_not_empty = true
is_deterministic_verdict invalid_argument = true
is_deterministic_verdict book_not_open = false
is_deterministic_verdict book_locked = false
is_deterministic_verdict read_only_book = false
is_deterministic_verdict engine_error = false
is_deterministic_verdict indeterminate_mutation = false
is_deterministic_verdict unspecified = false

-- ShimError::ToDetail
unfoldable pub to_detail : ShimError → ErrorDetail
to_detail e = record { code = e.code; engine_message = e.engine_message; context = e.context }

-- The constructor of ShimError from a detail.
unfoldable pub from_detail : ErrorDetail → ShimError
from_detail d = record { code = d.code; engine_message = d.engine_message; context = d.context }

-- What may be thrown: the contract's error, the worker's two, and any other with its `what()`.
pub data Exception : Type 0 where
  shim : ShimError → Exception
  queue_full worker_stopped : Exception
  other : Bytes → Exception

-- grpc::Status, its details being a google.rpc.Status with the same code and text.
pub record RpcStatus (AnyMessage : Type 0) : Type 0 where
  pub code : GrpcCode
  pub message : Bytes
  pub details : List AnyMessage

pub record Status (AnyMessage : Type 0) : Type 0 where
  pub code : GrpcCode
  pub message : Bytes
  pub rpc_status : Option (RpcStatus AnyMessage)

-- `PackFrom` of protobuf's Any is a parameter: it may fail.
module _ {AnyMessage : Type 0} (pack_from : ErrorDetail → Option AnyMessage) where
  abbrev packed : Option AnyMessage → List AnyMessage
  packed none = []
  packed (some a) = a ∷ []

  -- PackStatus
  unfoldable pub pack_status : GrpcCode → ErrorCode → Bytes → Bytes → Status AnyMessage
  pack_status grpc_code code message context = record {
    code = grpc_code;
    message = message;
    rpc_status = some (record {
      code = grpc_code;
      message = message;
      details =
          packed (pack_from (record { code = code; engine_message = message; context = context }));
    });
  }

  -- ShimError::ToStatus
  unfoldable pub to_status : ShimError → Status AnyMessage
  unfolding pack_status
  to_status e = pack_status (grpc_code_for e.code) e.code e.engine_message e.context

  -- StatusFromException
  unfoldable pub status_from_exception : Exception → Status AnyMessage
  unfolding to_status pack_status
  status_from_exception (shim e) = to_status e
  status_from_exception queue_full =
      pack_status resource_exhausted unspecified (str "engine queue full") []
  status_from_exception worker_stopped =
      pack_status unavailable unspecified (str "engine worker is draining") []
  status_from_exception (other what) =
      to_status (record { code = engine_error; engine_message = what; context = [] })

  -- grpc::Status::OK
  abbrev pub status_ok : Status AnyMessage
  status_ok = record { code = grpc_ok; message = []; rpc_status = none }
