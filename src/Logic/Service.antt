-- ===== src/Logic/Service.antt =====
-- internal/logic/service.go: who may call Logic, and what its errors become.
pub mod Handlers
pub mod Roles
pub mod Current
pub mod Held
pub mod Replaced
pub mod Kicks
mod Tests
use fable.Prelude.{
  ℕ, Str, Bool, true, false, not, ◌&&◌, ◌||◌, Option, none, some, List, [], ◌∷◌, ◌==◌, ltb, leb,
  length, drop, all, any, contains, in_range, str_eq, nat_eq, text, has_prefix, atoi, if◌then◌else◌,
  Result, ok, err, ◌>>=◌, ◌>>◌, guard,
}
use fable.Wire.{CometIdentity, Codecs}
use fable.Wire.Identity.{valid_comet}
use fable.Wire.Status.{
  StatusCode, canceled, deadline_exceeded, invalid_argument, already_exists, permission_denied,
  failed_precondition, unavailable, ErrorReason, invalid_reason, idempotency_conflict,
  permission_reason, superseded_reason, lease_expired_reason, instance_not_registered,
  dependency_unavailable, draining_reason, do_not_retry, same_request, reconnect, refresh_route,
  Status, bare, rpc_error, denied, not_authenticated,
}
use fable.Logic.Routing
use fable.Logic.Messages

pub record Grant : Type 0 where
  pub identity : CometIdentity
  pub rpc_address : Str
  pub token : Str

-- The credentials of Config that are left in Service.
pub record Service : Type 0 where
  pub jwt_key : Str
  pub job_token : Str
  pub kick_token : Str
  pub grants : List Grant

-- validToken. (A rune above 126 has bytes above 126.)
unfoldable pub valid_token : Str → Bool
valid_token s = leb 32 (length s) && (leb (length s) 256 && all (in_range 33 126) s)

-- localAddress; `is_loopback` is net.ParseIP and IsLoopback.
unfoldable pub local_address : Codecs → (Str → Bool) → Str → Bool
local_address c is_loopback address = elim (c.split_host_port address) [
  | none ↦ false
  | some (host, port) ↦
      elim (atoi port) [ none ↦ false | some n ↦ ltb 0 n && leb n 65535 ]
      && (host == text "localhost" || is_loopback host)
]

-- The loop over the grants of NewService, with the tokens and the instances seen before.
unfoldable pub valid_grants : Codecs → (Str → Bool) → List Str → List Str → List Grant → Bool
unfolding valid_token local_address valid_comet
valid_grants c is_loopback tokens ids [] = true
valid_grants c is_loopback tokens ids (g ∷ gs) =
    let rest = valid_grants c is_loopback (g.token ∷ tokens) (g.identity.instance_id ∷ ids) gs in
    if valid_comet c (some g.identity)
      && (valid_token g.token
          && (not (contains tokens g.token)
              && (not (contains ids g.identity.instance_id)
                  && local_address c is_loopback g.rpc_address)))
    then rest
    else false

-- NewService, of a Config whose stores, publisher and callbacks are there.
unfoldable pub new_service : Codecs → (Str → Bool) → Str → Str → Str → List Grant → Option Service
unfolding valid_token valid_grants
new_service c is_loopback jwt_secret job kick grants =
    if leb 32 (length jwt_secret)
      && (valid_token job
          && (valid_token kick
              && (not (job == kick)
                  && (not (length grants == 0)
                      && valid_grants c is_loopback (job ∷ kick ∷ []) [] grants))))
    then some record { jwt_key = jwt_secret; job_token = job; kick_token = kick; grants = grants }
    else none

abbrev pub bearer_prefix : Str
bearer_prefix = text "Bearer "

-- bearer, of the values of the authorization header.
unfoldable pub bearer : List Str → Str
unfolding has_prefix
bearer (v ∷ []) = if has_prefix v bearer_prefix then drop 7 v else []
bearer _ = []

-- What a Comet says that it is: an identity, or the instance of a connection.
pub data Claim : Type 0 where
  boots : CometIdentity → Claim
  serves : Str → Claim

-- A missing identity is the instance with no name.
abbrev pub claim_of : Option CometIdentity → Claim
claim_of none = serves []
claim_of (some id) = boots id

abbrev pub matches : Claim → Grant → Bool
matches (boots id) g = id.instance_id == g.identity.instance_id && id.boot_id == g.identity.boot_id
matches (serves instance_name) g = instance_name == g.identity.instance_id

-- The loop of cometAuth: the grant of a token.
unfoldable pub grant_of : List Grant → Str → Option Grant
grant_of [] token = none
grant_of (g ∷ gs) token = if token == g.token then some g else grant_of gs token

unfoldable pub comet_auth : Service → List Str → Claim → Result Status Grant
unfolding grant_of bearer
comet_auth s header claim =
    let token = bearer header in
    elim (grant_of s.grants token) [
      | some g ↦ if matches claim g then ok g else err denied
      | none ↦
          if token == s.job_token || token == s.kick_token
          then err denied
          else err (not_authenticated [])
    ]

unfoldable pub job_auth : Service → List Str → Result Status (Unit {0})
unfolding grant_of bearer
job_auth s header =
    let token = bearer header in
    if token == s.job_token then ok tt else elim (grant_of s.grants token) [
      | some g ↦ err denied
      | none ↦ if token == s.kick_token then err denied else err (not_authenticated [])
    ]

-- The errors that reach mapError.
pub data Failure : Type 0 where
  timed_out was_canceled other_failure : Failure
  routing : Routing.Error → Failure
  messages : Messages.Error → Failure

unfoldable pub map_error : Failure → Str → Status
map_error was_canceled id = bare canceled
map_error timed_out id = bare deadline_exceeded
map_error (routing Routing.invalid) id = rpc_error invalid_argument invalid_reason do_not_retry id
map_error (messages Messages.invalid) id = rpc_error invalid_argument invalid_reason do_not_retry id
map_error (messages Messages.forbidden) id =
    rpc_error permission_denied permission_reason do_not_retry id
map_error (messages Messages.conflict) id =
    rpc_error already_exists idempotency_conflict do_not_retry id
map_error (routing Routing.conflict) id =
    rpc_error already_exists idempotency_conflict do_not_retry id
map_error (routing Routing.not_registered) id =
    rpc_error failed_precondition instance_not_registered refresh_route id
map_error (routing Routing.superseded) id =
    rpc_error failed_precondition superseded_reason reconnect id
map_error (routing Routing.lease_expired) id =
    rpc_error failed_precondition lease_expired_reason reconnect id
map_error (routing Routing.draining) id = rpc_error unavailable draining_reason refresh_route id
map_error (routing Routing.dependency) id =
    rpc_error unavailable dependency_unavailable same_request id
map_error (messages Messages.database) id =
    rpc_error unavailable dependency_unavailable same_request id
map_error other_failure id = rpc_error unavailable dependency_unavailable same_request id

abbrev pub invalid_request : Str → Status
invalid_request id = map_error (routing Routing.invalid) id

unfoldable pub valid_request_id : Str → Bool
valid_request_id s = leb (length s) 128 && all (in_range 32 126) s
