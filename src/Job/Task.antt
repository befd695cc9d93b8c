-- ===== src/Job/Task.antt =====
-- internal/job/task.go: what Job makes of the message of a task.
pub mod Views
use fable.Prelude.{
  ℕ, zero, suc, ◌+◌, ◌*◌, ◌^◌, ◌≡◌, Str, Bool, true, false, not, ◌&&◌, ◌||◌, Option, none, some,
  List, [], ◌∷◌, ◌++◌, ◌==◌, ltb, leb, length, drop, all, any, in_range, str_eq, nat_eq, text,
  canonical_decimal, if◌then◌else◌,
}
use fable.Wire.{
  Time, Timestamp, Codecs, Destination, ReceiveType, receive_user, receive_group, message_text,
  MessageOrigin, origin_user, origin_ai, MessageView,
}
use fable.Wire.Identity.{valid_id}
use fable.Wire.Push.{Message, user_name, group_name, ai_name, text_name}

-- The first nanosecond of the year 10000, from which a Timestamp is not valid.
abbrev time_limit : Time
time_limit = (62135596800 + 253402300800) * 1_000_000_000

-- timestamppb.New
abbrev pub new_timestamp : Time → Timestamp
new_timestamp t = record { as_time = t; check_valid = ltb t time_limit }

abbrev origin_of : Str → Option MessageOrigin
origin_of s =
    if s == user_name then some origin_user else if s == ai_name then some origin_ai else none

module _ (c : Codecs) where
  pub receive_of : Message → Option ReceiveType
  unfolding valid_id
  receive_of m =
      if m.receive_type == user_name
      then if valid_id c m.session_id b'S'
          && (valid_id c m.receive_id b'U'
              && (not (m.send_id == m.receive_id)
                  && m.conversation_id == text "direct:" ++ m.session_id))
        then some receive_user
        else none
      else if m.receive_type == group_name
      then if valid_id c m.session_id b'G'
          && (m.session_id == m.receive_id && m.conversation_id == text "group:" ++ m.session_id)
        then some receive_group
        else none
      else none

  -- messageView, with the zone offset of the message's time in seconds; none is ErrInvalidTask.
  unfoldable pub message_view : ℕ → Message → Option MessageView
  unfolding valid_id receive_of
  message_view offset m = elim (canonical_decimal m.position) [
    | none ↦ none
    | some position ↦
        if not (
          valid_id c m.message_id b'M'
          && (valid_id c m.send_id b'U'
              && (ltb 0 position
                  && (ltb position (2 ^ 63)
                      && (not (m.created_at == 0)
                          && (offset == 0 && (new_timestamp m.created_at).check_valid))))))
        then none
        else if not (
            m.type == text_name
            && (not (length m.content == 0)
                && (leb (length m.content) (16 * 1024) && c.utf8_valid m.content)))
        then none
        else elim (origin_of m.origin) [
          | none ↦ none
          | some origin ↦ elim (receive_of m) [
            | none ↦ none
            | some kind ↦ some record {
              message_id = m.message_id;
              conversation_id = m.conversation_id;
              session_id = m.session_id;
              sender_id = m.send_id;
              destination = some (record { receive_type = kind; receive_id = m.receive_id });
              message_type = message_text;
              content = m.content;
              origin = origin;
              created_at = some (new_timestamp m.created_at);
              position = position;
            }
          ]
        ]
  ]
