-- ===== src/Wire/Status.antt =====
-- gRPC statuses with the ErrorDetail that the roles attach (api/proto/fable/v1/common.proto).
use fable.Prelude.{Str, []}

pub data StatusCode : Type 0 where
  canceled deadline_exceeded invalid_argument not_found already_exists permission_denied :
      StatusCode
  failed_precondition unimplemented unavailable unauthenticated unknown_code : StatusCode

-- The numbers of ErrorReason from 1 on, in their order.
pub data ErrorReason : Type 0 where
  invalid_reason idempotency_conflict unauthenticated_reason permission_reason : ErrorReason
  superseded_reason lease_expired_reason instance_not_registered : ErrorReason
  dependency_unavailable resource_exhausted draining_reason : ErrorReason

-- The numbers of RetryDirective from 1 on, in their order.
pub data Retry : Type 0 where
  do_not_retry same_request reconnect reauthenticate refresh_route : Retry

pub record Detail : Type 0 where
  pub reason : ErrorReason
  pub retry : Retry
  pub request_id : Str

-- rpcError attaches a detail; status.FromContextError attaches none.
pub data Status : Type 0 where
  with_detail : StatusCode → Detail → Status
  bare : StatusCode → Status

-- rpcError
abbrev pub rpc_error : StatusCode → ErrorReason → Retry → Str → Status
rpc_error code reason retry id =
    with_detail code (record { reason = reason; retry = retry; request_id = id })

abbrev pub denied : Status
denied = rpc_error permission_denied permission_reason do_not_retry []

abbrev pub not_authenticated : Str → Status
not_authenticated id = rpc_error unauthenticated unauthenticated_reason reauthenticate id
