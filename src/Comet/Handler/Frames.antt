-- ===== src/Comet/Handler/Frames.antt =====
-- What a browser's frame becomes, and how Logic's answer is told: `read`, sendError and
-- terminalSubmitError in internal/comet/handler.go, legacyMessage in internal/comet/websocket.go.
use fable.Prelude.{
  ℕ, zero, suc, ℤ, pos, negsuc, ◌*◌, Str, Bool, true, false, not, ◌&&◌, ◌||◌, Option, none, some,
  List, [], ◌∷◌, ◌==◌, leb, length, get_elem?, any, str_eq, nat_eq, text, if◌then◌else◌, Result, ok,
  err,
}
use fable.Wire.{
  Codecs, ConnectionIdentity, Destination, ReceiveType, receive_user, receive_group, MessageView,
  origin_ai,
}
use fable.Wire.Identity.{valid_uuid}
use fable.Wire.Push.{Message, user_name, group_name}
use fable.Wire.Requests.{SubmitMessageRequest}
use fable.Wire.Status.{StatusCode, unauthenticated}
use fable.Comet.Validation.{valid_request_id, validate_message}
use fable.Logic.Dispatch.{SendResult, public_message}

-- An ErrorDetail as it came over the wire: the numbers of its reason and its retry directive.
pub record RawDetail : Type 0 where
  pub reason : ℕ
  pub retry : ℕ
  pub request_id : Str

-- An error of a call: its code, and its ErrorDetails in order.
pub record Failure : Type 0 where
  pub code : StatusCode
  pub details : List RawDetail

pub record SendError : Type 0 where
  pub code : Str
  pub retry : Str
  pub request_id : Str

-- The words for the reasons and the directives from 1 on.
abbrev error_codes : List Str
error_codes =
    text "invalid_argument"
    ∷ text "idempotency_conflict"
    ∷ text "unauthenticated"
    ∷ text "permission_denied"
    ∷ text "superseded"
    ∷ text "lease_expired"
    ∷ text "instance_not_registered"
    ∷ text "dependency_unavailable"
    ∷ text "resource_exhausted"
    ∷ text "draining"
    ∷ []

abbrev retries : List Str
retries =
    text "do_not_retry"
    ∷ text "same_request"
    ∷ text "reconnect"
    ∷ text "reauthenticate"
    ∷ text "refresh_route"
    ∷ []

abbrev named : List Str → ℕ → Option Str
named words zero = none
named words (suc n) = get_elem? words n

-- The loop of sendError: the last detail with a known reason and directive is told.
unfoldable pub tell : List RawDetail → SendError → SendError
unfolding valid_request_id
tell [] result = result
tell (d ∷ ds) result = elim (named error_codes d.reason) [
  | none ↦ tell ds result
  | some code ↦ elim (named retries d.retry) [
    | none ↦ tell ds result
    | some retry ↦ tell ds (record {
      code = code;
      retry = retry;
      request_id = if valid_request_id d.request_id then d.request_id else result.request_id;
    })
  ]
]

unfoldable pub send_error : Option Failure → SendError
unfolding tell
send_error error =
    let unknown : SendError = record {
      code = text "result_unknown";
      retry = text "same_request";
      request_id = [];
    } in
    elim error [ none ↦ unknown | some e ↦ tell e.details unknown ]

abbrev is_unauthenticated : StatusCode → Bool
is_unauthenticated unauthenticated = true
is_unauthenticated _ = false

-- SUPERSEDED, LEASE_EXPIRED, INSTANCE_NOT_REGISTERED, UNAUTHENTICATED
abbrev is_terminal : RawDetail → Bool
is_terminal d = d.reason == 5 || (d.reason == 6 || (d.reason == 7 || d.reason == 3))

unfoldable pub terminal_submit_error : Option Failure → Bool
terminal_submit_error none = false
terminal_submit_error (some e) = is_unauthenticated e.code || any is_terminal e.details

-- SendFrame, of the second protocol.
pub record SendFrame : Type 0 where
  pub event : Str
  pub client_message_id : Str
  pub receive_id : Str
  pub receive_type : Str
  pub content : Str

-- wschat.Message, of the first protocol; its two int8 are ℤ.
pub record LegacyMessage : Type 0 where
  pub send_id : Str
  pub receive_id : Str
  pub content : Str
  pub origin : ℤ
  pub receive_type : ℤ

abbrev sized : Str → Bool
sized content = not (length content == 0) && leb (length content) (16 * 1024)

-- The request of a frame of the second protocol, under a new request id; none is ErrInvalid. `frame` is
-- what strictJSON read.
unfoldable submit_of_frame :
    Codecs → ConnectionIdentity → Str → Option SendFrame → Option SubmitMessageRequest
unfolding valid_uuid
submit_of_frame c id request_id none = none
submit_of_frame c id request_id (some f) =
    let kind : Option ReceiveType =
      if f.receive_type == user_name
      then some receive_user
      else if f.receive_type == group_name
      then some receive_group
      else none in
    elim kind [
      | none ↦ none
      | some kind ↦
          if f.event == text "send_message" && (valid_uuid c f.client_message_id && sized f.content)
          then some record {
            identity = some id;
            client_message_id = f.client_message_id;
            destination = some record { receive_type = kind; receive_id = f.receive_id };
            content = f.content;
            request_id = request_id;
          }
          else none
    ]

-- The same of the first protocol, with a client message id of the Comet's own.
unfoldable submit_of_legacy :
    ConnectionIdentity → Str → Str → Option LegacyMessage → Option SubmitMessageRequest
submit_of_legacy id request_id client_id none = none
submit_of_legacy id request_id client_id (some f) =
    let kind : Option ReceiveType = elim f.receive_type [
      | pos n ↦ if n == 0 then some receive_user else if n == 1 then some receive_group else none
      | negsuc n ↦ none
    ] in
    let is_user : Bool = elim f.origin [ pos n ↦ n == 0 | negsuc n ↦ false ] in
    elim kind [
      | none ↦ none
      | some kind ↦
          if f.send_id == id.user_id && (is_user && sized f.content)
          then some record {
            identity = some id;
            client_message_id = client_id;
            destination = some record { receive_type = kind; receive_id = f.receive_id };
            content = f.content;
            request_id = request_id;
          }
          else none
    ]

-- legacyMessage, of a view whose destination is there.
unfoldable legacy_message : Destination → MessageView → LegacyMessage
legacy_message d m = record {
  send_id = m.sender_id;
  receive_id = d.receive_id;
  content = m.content;
  origin = elim m.origin [ origin_ai ↦ pos 1 | _ ↦ pos 0 ];
  receive_type = elim d.receive_type [ receive_group ↦ pos 1 | _ ↦ pos 0 ];
}

-- The SendResultFrame for a request of the second protocol: its result with the public message, or its
-- error. A view that validateMessage accepts has a destination.
unfoldable answer_frame :
    Codecs → Str → Result Failure (Option SendResult) → Result SendError (SendResult × Message)
unfolding send_error validate_message
answer_frame c client_id (err e) = err (send_error (some e))
answer_frame c client_id (ok none) = err (send_error none)
answer_frame c client_id (ok (some r)) = elim r.message.destination [
  | none ↦ err (send_error none)
  | some d ↦
      if r.stored && (r.client_message_id == client_id && validate_message c r.message)
      then ok (r, public_message d r.message)
      else err (send_error none)
]
