-- ===== src/Job/Decode/Tests.antt =====
-- Job takes what Logic publishes, for a direct message from alice to bob.
use fable.Prelude.{
  subst, sym, length, if◌then◌else◌, ◌==◌, not, Bool-cases, ◌≡◌, refl, Str, true, false, none, some,
  inl, inr, Bool, ◌++◌, List, [], ◌∷◌, map, All, arith, text, str_eq, nat_eq, ℕ_discrete,
  Str-discrete, itoa, lookup, str_le,
}
use fable.Wire.{
  ConnectionIdentity, RouteLease, RouteLookupResult, route, offline, Codecs, Destination,
  MessageView, receive_user, message_text, origin_user,
}
use fable.Wire.Identity.{valid_connection, valid_instance, valid_token, valid_id, valid_uuid}
use fable.Wire.Push.{PushTask}
use fable.Comet.Validation.{is_destination, validate_message}
use fable.Logic.Dispatch.{
  chunk, Saved, SendResult, queued, acknowledged, Outside, public_message, dispatch, publish_from,
  task,
}
use fable.Job.Task.{new_timestamp}
use fable.Job.Decode.Hints.{AnswersFor, RoutesTo}
use fable.Logic.Service.{valid_request_id}
use fable.Job.Decode.{ids_of, has_field, task_fields, valid_recipients, valid_targets, valid_task}
use fable.Job.Decode.Accepted.{IsTagged, Sound, dispatch-valid_task}

abbrev codecs : Codecs
codecs = record {
  uuid_validate = λ _. true;
  utf8_valid = λ _. true;
  raw_url_decode = λ s. some s;
  raw_url_encode = λ s. s;
  split_host_port = λ s. none;
}

abbrev alice : Str
alice = text "U11111111-1111-1111-1111-111111111111"

abbrev bob : Str
bob = text "U22222222-2222-2222-2222-222222222222"

abbrev direct : Destination
direct = record { receive_type = receive_user; receive_id = bob }

abbrev hello : MessageView
hello = record {
  message_id = text "M33333333-3333-3333-3333-333333333333";
  conversation_id = text "direct:S44444444-4444-4444-4444-444444444444";
  session_id = text "S44444444-4444-4444-4444-444444444444";
  sender_id = alice;
  destination = some direct;
  message_type = message_text;
  content = text "hello";
  origin = origin_user;
  created_at = some (new_timestamp 7);
  position = 1;
}

abbrev saved : Saved
saved = record { message = hello; recipients = alice ∷ bob ∷ []; replayed = false }

abbrev home : ConnectionIdentity
home = record {
  user_id = alice;
  instance_id = text "comet-1";
  connection_id = text "55555555-5555-5555-5555-555555555555";
  route_token = text "AAAAAAAAAAAAAAAAAAAAAA";
}

abbrev lease : RouteLease
lease = record { identity = some home; auth_expires_at = none; lease_deadline = none }

-- Alice is connected, and nobody else.
abbrev answer : Str → RouteLookupResult
answer user = record {
  user_id = user;
  state = if user == alice then route (some lease) else offline 1;
}

abbrev outside : Outside
outside = record {
  lookup_routes = λ _ users. some (map answer users);
  marshal = λ t. some t.task_id;
  publish = λ _ _. acknowledged;
}

abbrev request : Str
request = text "r"

abbrev optional : Bool → Str → List (Str × Str)
optional true key = []
optional false key = (key, 34 ∷ []) ∷ []

-- The fields that may be left out, and the eight that are always there.
abbrev fields_of : Bool → Bool → Bool → List (Str × Str)
fields_of a b d =
    optional a (text "request_id")
    ++ optional b (text "pending_recipients")
    ++ optional d (text "replay_run_id")
    ++ map (λ key. (key, [])) task_fields

abbrev fields : PushTask → List (Str × Str)
fields t =
    fields_of (t.request_id == []) (length (ids_of t.pending_recipients) == 0)
      (t.replay_run_id == [])

fields_of-pending : (a b d : Bool) → has_field (fields_of a b d) (text "pending_recipients") ≡ not b
unfolding lookup ℕ_discrete Str-discrete
fields_of-pending true true true = refl
fields_of-pending true true false = refl
fields_of-pending true false true = refl
fields_of-pending true false false = refl
fields_of-pending false true true = refl
fields_of-pending false true false = refl
fields_of-pending false false true = refl
fields_of-pending false false false = refl

fields_of-replay : (a b d : Bool) → has_field (fields_of a b d) (text "replay_run_id") ≡ not d
unfolding lookup ℕ_discrete Str-discrete
fields_of-replay true true true = refl
fields_of-replay true true false = refl
fields_of-replay true false true = refl
fields_of-replay true false false = refl
fields_of-replay false true true = refl
fields_of-replay false true false = refl
fields_of-replay false false true = refl
fields_of-replay false false false = refl

fields_of-request :
    (a b d : Bool)
    → lookup (text "request_id") (fields_of a b d) ≡ (if a then none else some (34 ∷ []))
unfolding lookup ℕ_discrete Str-discrete
fields_of-request true true true = refl
fields_of-request true true false = refl
fields_of-request true false true = refl
fields_of-request true false false = refl
fields_of-request false true true = refl
fields_of-request false true false = refl
fields_of-request false false true = refl
fields_of-request false false false = refl

fields-IsTagged : (t : PushTask) → IsTagged fields t
unfolding ℕ_discrete Str-discrete
fields-IsTagged t =
    let a = t.request_id == [] in
    let b = length (ids_of t.pending_recipients) == 0 in
    let d = t.replay_run_id == [] in
    (
      fields_of-pending a b d,
      fields_of-replay a b d,
      elim (Bool-cases a) [
        | inl e ↦ inl (ground (arith, e), ground (arith, e, fields_of-request a b d))
        | inr e ↦
            inr (
              λ n. ground (arith, e, n),
              (34 ∷ [], ground (arith, e, fields_of-request a b d), refl),
            )
      ],
    )

abbrev result : SendResult
result = record {
  client_message_id = text "c";
  stored = true;
  message = hello;
  replayed = false;
  dispatch = queued;
}

abbrev sent : List PushTask
sent = task outside direct saved request 0 ∷ []

dispatch-queued : dispatch outside (text "c") saved request ≡ some (result, sent)
unfolding dispatch publish_from task itoa ℕ_discrete
dispatch-queued = refl

home_valid : valid_connection codecs (some home) ≡ true
unfolding valid_connection valid_id valid_uuid valid_instance valid_token ℕ_discrete Str-discrete
home_valid = refl

answer-RoutesTo : (user : Str) → RoutesTo codecs user (answer user)
answer-RoutesTo user l id e f = elim (Bool-cases (user == alice)) [
  | inl y ↦
      let same : l ≡ lease = ground (arith, e, y) in
      let who : id ≡ home = ground (arith, f, same) in
      (
        ground (arith, who, y),
        subst (λ k. valid_connection codecs (some k) ≡ true) (sym who) home_valid,
      )
  | inr n ↦ absurd (ground (arith, e, n))
]

answers : (users : List Str) → AnswersFor codecs users (map answer users)
answers [] = tt
answers (user ∷ users) = (answer-RoutesTo user, answers users)

saved-Sound : Sound codecs fields outside direct saved request 7
unfolding valid_request_id validate_message is_destination valid_id valid_uuid valid_recipients
    valid_targets public_message str_le ℕ_discrete Str-discrete
saved-Sound = record {
  destination = refl;
  created = refl;
  view = refl;
  recipients = refl;
  routes = λ n rs e.
      let ids = chunk outside direct saved request n in
      let same : map answer ids ≡ rs = ground (arith, e) in
      subst (AnswersFor codecs ids) same (answers ids);
  few = omega arith;
  asked = refl;
  tagged = fields-IsTagged;
}

dispatch-valid_task_example : All (λ p. valid_task codecs (fields p) 0 p ≡ true) sent
dispatch-valid_task_example =
    dispatch-valid_task codecs fields outside direct saved (text "c") request 7 result sent
      saved-Sound dispatch-queued
