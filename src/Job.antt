-- ===== src/Job.antt =====
-- The Job role, internal/job: push tasks from Kafka to the Comets that hold the recipients.
pub mod Replies
pub mod Batches
pub mod Round
pub mod Processor
pub mod Consumer
pub mod Task
pub mod Escapes
pub mod Decode
pub mod Replay
mod Tests
use fable.Prelude.{ℕ, Str, Bool, Option, none, some, List, Eq}
use fable.Wire.{Time, ConnectionIdentity}

pub data Outcome : Type 0 where
  unresolved enqueued duplicate offline : Outcome

Outcome-discrete : Discrete Outcome
Outcome-discrete = hlevel

instance unfoldable pub outcome_eq : Eq Outcome
unfolding Outcome-discrete
outcome_eq = record { dec = Outcome-discrete }

pub data Reason : Type 0 where
  dependency_failure invalid_response route_changed delivery_rejected budget_exhausted : Reason

-- An empty Reason is none.
pub record RecipientResult : Type 0 where
  pub user_id : Str
  pub outcome : Outcome
  pub reason : Option Reason

-- `route_deadline` 0 is the zero time of a hint.
pub record Recipient : Type 0 where
  pub user_id : Str
  pub outcome : Outcome
  pub reason : Option Reason
  pub route : Option ConnectionIdentity
  pub route_deadline : Time
  pub repair : Bool
  pub stopped : Bool

pub data Code : Type 0 where
  invalid_argument permission_denied unauthenticated already_exists unimplemented other_code : Code

pub data RetryDirective : Type 0 where
  do_not_retry reauthenticate same_request refresh_route other_directive : RetryDirective

-- The status of a failed call, with the directives of its ErrorDetails in order.
pub record RpcError : Type 0 where
  pub code : Code
  pub details : List RetryDirective

pub data Reply {ℓ} (A : Type ℓ) : Type ℓ where
  answer : A → Reply A
  failure : RpcError → Reply A
