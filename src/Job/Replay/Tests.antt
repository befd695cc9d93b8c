-- ===== src/Job/Replay/Tests.antt =====
-- Decoding and replay, for one text that is one value.
use fable.Prelude.{
  ℕ, zero, suc, pos, ◌<◌, ◌≡◌, ◌↔◌, refl, Str, Bool, true, none, some, [], ◌∷◌, ◌++◌, map, length,
  arith, text, str_eq, nat_eq, ℕ_discrete, Str-discrete, itoa, canonical_decimal, has_prefix,
  Result, ok, err, str_le, lookup,
}
use fable.Wire.{Codecs}
use fable.Wire.Identity.{valid_id, valid_uuid, printable}
use fable.Wire.Push.{PushTask, push_kind, task_prefix, user_name, text_name}
use fable.Job.Task.{message_view}
use fable.Job.Escapes.{valid_unicode_escapes}
use fable.Job.Escapes.Grammar.{IsEscaped, valid_unicode_escapes-IsEscaped}
use fable.Job.Decode.{
  Token, other_token, Json, take_token, check_json, is_one_value, has_required, valid_recipients,
  valid_targets, valid_pending, valid_task, decode_task, task_fields, message_fields,
}
use fable.Job.Decode.Fuel.{Ends, check_json-new_decoder}
use fable.Job.Replay.{
  Envelope, Archive, push_topic, selects, valid_source, valid_envelope, replay_task,
}
use fable.Job.Replay.Narrowing.{Replayed, replay_task-Replayed}

abbrev codecs : Codecs
codecs = record {
  uuid_validate = λ _. true;
  utf8_valid = λ _. true;
  raw_url_decode = λ s. some s;
  raw_url_encode = λ s. s;
  split_host_port = λ s. none;
}

abbrev uuid : Str
uuid = text "11111111-1111-1111-1111-111111111111"

abbrev alice : Str
alice = b'U' ∷ uuid

abbrev bob : Str
bob = text "U21111111-1111-1111-1111-111111111111"

abbrev sample : PushTask
sample = record {
  schema_version = 1;
  kind = push_kind;
  task_id = task_prefix ++ (b'M' ∷ uuid) ++ (58 ∷ []) ++ (48 ∷ []);
  message = record {
    message_id = b'M' ∷ uuid;
    conversation_id = text "direct:" ++ (b'S' ∷ uuid);
    session_id = b'S' ∷ uuid;
    send_id = alice;
    receive_id = bob;
    receive_type = user_name;
    type = text_name;
    content = text "hello";
    origin = user_name;
    created_at = 7;
    position = text "1";
  };
  recipients = alice ∷ bob ∷ [];
  targets = some [];
  chunk_index = 0;
  chunk_count = 1;
  request_id = [];
  pending_recipients = none;
  replay_run_id = [];
}

abbrev next_token : ℕ → Result Bool (Token × ℕ)
next_token zero = err true
next_token (suc n) = ok (other_token, n)

next_token-left : (d d' : ℕ) (t : Token) → next_token d ≡ ok (t, d') → d' < d
next_token-left zero d' t h = absurd (ground arith)
next_token-left (suc n) d' t h = let same : n ≡ d' = ground arith in omega (arith, same)

-- Each byte is a token, and each text says the sample.
abbrev json : Json
json = record {
  Decoder = ℕ;
  new_decoder = λ raw. length raw;
  token = next_token;
  more = λ _. true;
  left = λ d. d;
  left-new_decoder = λ raw. omega arith;
  left-token = next_token-left;
  decode = λ raw. some (sample, 0);
  unmarshal = λ raw. some (map (λ key. (key, [])) (task_fields ++ message_fields));
  marshal = λ t. some (7 ∷ []);
  to_lower = λ s. s;
}

check_json-new_decoder_example : Ends json 3 (check_json json 7 0 3)
check_json-new_decoder_example = check_json-new_decoder json (1 ∷ 2 ∷ 3 ∷ [])

-- The escape of U+1F600.
abbrev smile : Str
smile = 92 ∷ text "uD83D" ++ 92 ∷ text "uDE00"

valid_unicode_escapes-IsEscaped_example : (valid_unicode_escapes smile ≡ true) ↔ IsEscaped smile
valid_unicode_escapes-IsEscaped_example = valid_unicode_escapes-IsEscaped smile

abbrev archive : Archive
archive = record {
  base64_decode = λ s. some s;
  decode_envelope = λ _. none;
  digest = λ v k t m r i n. t;
}

abbrev envelope : Envelope
envelope = record {
  source_topic = text "fable.push.v1";
  source_partition = pos 0;
  source_offset = text "0";
  reason = text "unresolved";
  task = some sample;
  pending_recipients = bob ∷ [];
  raw_payload_base64 = [];
  first_attempt_at = 5;
  last_attempt_at = 6;
  original_payload_base64 = 7 ∷ [];
}

abbrev again : PushTask
again = record sample {
  pending_recipients = some (bob ∷ []);
  replay_run_id = text "run";
  targets = some [];
}

replay_ok : replay_task json archive codecs envelope (text "run") ≡ some again
unfolding lookup replay_task decode_task valid_unicode_escapes is_one_value check_json take_token
    has_required valid_task valid_recipients valid_targets valid_pending message_view valid_id
    valid_uuid canonical_decimal itoa str_le valid_envelope valid_source push_topic printable
    selects has_prefix ℕ_discrete Str-discrete
replay_ok = refl

replay_task-Replayed_example : Replayed json archive codecs envelope (text "run") again
replay_task-Replayed_example =
    replay_task-Replayed json archive codecs envelope (text "run") again replay_ok
