-- ===== src/Comet/Rpc.antt =====
-- internal/comet/rpc.go: the calls of Job, Logic and the administrator on a Comet's hub.
pub mod Calls
pub mod Fencing
mod Tests
use fable.Prelude.{
  ℕ, zero, suc, ◌+◌, Str, Bool, true, false, not, ◌&&◌, ◌||◌, Option, none, some, List, [], ◌∷◌,
  ◌==◌, ltb, leb, length, all, any, contains, drop, in_range, str_eq, nat_eq, text, has_prefix,
  if◌then◌else◌, Result, ok, err,
}
use fable.Wire.{
  Time, Timestamp, stamp, Codecs, CometIdentity, ConnectionIdentity, MessageView, DeliveryResult,
  ConditionalDeleteOutcome,
}
use fable.Wire.Identity.{valid_comet}
use fable.Wire.Status.{
  canceled, deadline_exceeded, bare, invalid_argument, failed_precondition, unavailable,
  invalid_reason, instance_not_registered, dependency_unavailable, draining_reason, do_not_retry,
  refresh_route, Status, rpc_error, denied, not_authenticated,
}
use fable.Comet.Validation.{validate_connection, validate_delivery, valid_request_id}
use fable.Comet.Hub
use fable.Comet.Hub.{
  Error, closed_error, invalid_error, draining_error, Hub, DrainState, deliver, drain, drain_limit,
  unregister,
}
use fable.Comet.Instance.{same_comet, instance_token}

pub record RpcCredentials : Type 0 where
  pub job_token : Str
  pub logic_token : Str
  pub admin_token : Str

pub record DeliverRequest : Type 0 where
  pub comet : Option CometIdentity
  pub task_id : Str
  pub message : Option MessageView
  pub targets : List ConnectionIdentity
  pub request_id : Str

pub record DeliverResponse : Type 0 where
  pub task_id : Str
  pub message_id : Str
  pub results : List DeliveryResult

pub data KickReason : Type 0 where
  unspecified replaced auth_expired shutdown : KickReason

pub record KickRequest : Type 0 where
  pub comet : Option CometIdentity
  pub target : Option ConnectionIdentity
  pub reason : KickReason
  pub request_id : Str

pub record DrainRequest : Type 0 where
  pub comet : Option CometIdentity
  pub deadline : Option Timestamp
  pub request_id : Str

pub record DrainResponse : Type 0 where
  pub deadline : Timestamp
  pub already_draining : Bool
  pub active_connections : ℕ  -- uint64

-- NewRPCService, of a hub that is there.
unfoldable pub new_rpc_service : Str → Str → Str → Option RpcCredentials
unfolding instance_token
new_rpc_service job logic admin =
    if instance_token job
      && (instance_token logic
          && (instance_token admin
              && (not (logic == job) && (not (admin == job) && not (admin == logic)))))
    then some record { job_token = job; logic_token = logic; admin_token = admin }
    else none

-- An error of a call on the hub: the hub's own, or the end of the caller's context.
pub data CallError : Type 0 where
  of_hub : Error → CallError
  was_canceled timed_out : CallError

-- mapError
unfoldable pub map_error : CallError → Str → Status
map_error was_canceled id = bare canceled
map_error timed_out id = bare deadline_exceeded
map_error (of_hub invalid_error) id = rpc_error invalid_argument invalid_reason do_not_retry id
map_error (of_hub draining_error) id = rpc_error unavailable draining_reason refresh_route id
map_error (of_hub closed_error) id = rpc_error unavailable dependency_unavailable refresh_route id

-- The targets of a delivery, with the times of their rounds.
abbrev pub timed : (ℕ → Time) → ℕ → List ConnectionIdentity → List (Time × ConnectionIdentity)
timed clock n [] = []
timed clock n (id ∷ ids) = (clock n, id) ∷ timed clock (n + 1) ids

abbrev pub drain_reply : DrainState → DrainResponse
drain_reply state = record {
  deadline = stamp state.deadline;
  already_draining = state.already_draining;
  active_connections = state.active_connections;
}

-- How a caller of the hub fares: it waits for its reply, or its context ends (or the hub stops) before
-- its command is run or while it waits, with the error that it is given.
pub data Caller : Type 0 where
  waits : Caller
  gives_up_before : CallError → Caller
  gives_up_after : CallError → Caller

-- What a call does: the hub behind it, and the answer.
abbrev pub Handled {ℓ} : Type ℓ → Type ℓ
Handled A = Hub × Result Status A

module _ (c : Codecs) (s : RpcCredentials) (header : List Str) where
  -- authorize, of the values of the authorization header.
  unfoldable pub authorize : Str → Result Status (Unit {0})
  unfolding has_prefix
  authorize expected = elim header [
    | value ∷ [] ↦
        if not (has_prefix value (text "Bearer "))
        then err (not_authenticated [])
        else (let token = drop 7 value in
            if token == expected
            then ok tt
            else if token == s.job_token || (token == s.logic_token || token == s.admin_token)
            then err denied
            else err (not_authenticated []))
    | _ ↦ err (not_authenticated [])
  ]

  unfoldable pub check_identity : Hub → Option CometIdentity → Str → Result Status (Unit {0})
  unfolding valid_request_id
  check_identity h id request_id =
      if not (valid_request_id request_id && valid_comet c id)
      then err (rpc_error invalid_argument invalid_reason do_not_retry [])
      else if not (same_comet id h.identity)
      then err (rpc_error failed_precondition instance_not_registered refresh_route request_id)
      else ok tt

  abbrev lifted {ℓ} : {A : Type ℓ} → Hub × Result Error A → Hub × Result CallError A
  lifted (h, ok a) = (h, ok a)
  lifted (h, err e) = (h, err (of_hub e))

  -- The owner loop takes no command after it has stopped. A caller that gives up while its command is
  -- with the owner does not learn what it did.
  unfoldable pub call {ℓ} :
      {A : Type ℓ} → Caller → Hub → (Hub → Hub × Result Error A) → Hub × Result CallError A
  call (gives_up_before e) h command = (h, err e)
  call waits h command = if h.done then (h, err (of_hub closed_error)) else lifted (command h)
  call (gives_up_after e) h command =
      if h.done then (h, err (of_hub closed_error)) else ((command h).0, err e)

  -- What Hub.Deliver and Hub.Unregister have the owner loop do.
  abbrev pub delivering :
      (ℕ → Time)
      → MessageView
      → List ConnectionIdentity
      → Hub
      → Hub × Result Error (Str × List DeliveryResult)
  delivering clock m targets h =
      let (h', results) = deliver m (timed clock 0 targets) h in (h', ok (m.message_id, results))

  abbrev pub unregistering : ConnectionIdentity → Hub → Hub × Result Error ConditionalDeleteOutcome
  unregistering id h = let (h', outcome) = unregister id h in (h', ok outcome)

  -- Hub.Deliver and Hub.Unregister, with their validation.
  unfoldable pub hub_deliver :
      Caller
      → (ℕ → Time)
      → Str
      → Option MessageView
      → List ConnectionIdentity
      → Hub
      → Hub × Result CallError (Str × List DeliveryResult)
  unfolding deliver validate_delivery call
  hub_deliver caller clock task_id none targets h = (h, err (of_hub invalid_error))
  hub_deliver caller clock task_id (some m) targets h =
      if not (validate_delivery c task_id m targets h.identity.instance_id)
      then (h, err (of_hub invalid_error))
      else call caller h (λ h.
        let (h', results) = deliver m (timed clock 0 targets) h in (h', ok (m.message_id, results)))

  unfoldable pub hub_unregister :
      Caller → Option ConnectionIdentity → Hub → Hub × Result CallError ConditionalDeleteOutcome
  unfolding unregister validate_connection call
  hub_unregister caller none h = (h, err (of_hub invalid_error))
  hub_unregister caller (some id) h =
      if not (validate_connection c h.identity.instance_id id)
      then (h, err (of_hub invalid_error))
      else call caller h (unregistering id)

  -- Hub.Drain: its deadline is tested before the owner loop has the command.
  unfoldable pub hub_drain : Caller → Time → Time → Hub → Hub × Result CallError DrainState
  unfolding drain call
  hub_drain caller now deadline h =
      if leb deadline now || ltb (now + drain_limit) deadline
      then (h, err (of_hub invalid_error))
      else call caller h (drain now deadline)

  -- The reply to a call on the hub.
  unfoldable pub replied {ℓ κ} :
      {A : Type ℓ} {B : Type κ} → Str → (A → B) → Hub × Result CallError A → Handled B
  replied id make (h, ok a) = (h, ok (make a))
  replied id make (h, err e) = (h, err (map_error e id))

  unfoldable pub handle_deliver :
      Caller → (ℕ → Time) → Option DeliverRequest → Hub → Handled DeliverResponse
  unfolding authorize check_identity hub_deliver replied
  handle_deliver caller clock r h = elim (authorize s.job_token) [
    | err e ↦ (h, err e)
    | ok _ ↦ elim r [
      | none ↦ (h, err (map_error (of_hub invalid_error) []))
      | some r ↦ elim (check_identity h r.comet r.request_id) [
        | err e ↦ (h, err e)
        | ok _ ↦
            replied r.request_id
              (λ a. record { task_id = r.task_id; message_id = a.0; results = a.1 })
              (hub_deliver caller clock r.task_id r.message r.targets h)
      ]
    ]
  ]

  abbrev pub is_reason : KickReason → Bool
  is_reason unspecified = false
  is_reason _ = true

  unfoldable pub handle_kick : Caller → Option KickRequest → Hub → Handled ConditionalDeleteOutcome
  unfolding authorize check_identity hub_unregister replied
  handle_kick caller r h = elim (authorize s.logic_token) [
    | err e ↦ (h, err e)
    | ok _ ↦ elim r [
      | none ↦ (h, err (map_error (of_hub invalid_error) []))
      | some r ↦ elim (check_identity h r.comet r.request_id) [
        | err e ↦ (h, err e)
        | ok _ ↦
            if not (is_reason r.reason)
            then (h, err (map_error (of_hub invalid_error) r.request_id))
            else replied r.request_id (λ outcome. outcome) (hub_unregister caller r.target h)
      ]
    ]
  ]

  unfoldable pub handle_drain : Caller → Time → Option DrainRequest → Hub → Handled DrainResponse
  unfolding authorize check_identity hub_drain replied
  handle_drain caller now r h = elim (authorize s.admin_token) [
    | err e ↦ (h, err e)
    | ok _ ↦ elim r [
      | none ↦ (h, err (map_error (of_hub invalid_error) []))
      | some r ↦ elim (check_identity h r.comet r.request_id) [
        | err e ↦ (h, err e)
        | ok _ ↦ elim r.deadline [
          | none ↦ (h, err (map_error (of_hub invalid_error) r.request_id))
          | some t ↦
              if not t.check_valid
              then (h, err (map_error (of_hub invalid_error) r.request_id))
              else replied r.request_id drain_reply (hub_drain caller now t.as_time h)
        ]
      ]
    ]
  ]
