-- ===== src/Comet/Validation.antt =====
-- internal/comet/validation.go: the checks on what Comet is asked to deliver.
use fable.Prelude.{
  ◌*◌, ◌^◌, Str, Bool, true, false, not, ◌&&◌, ◌||◌, Option, none, some, List, [], ◌∷◌, ◌++◌, ◌==◌,
  ltb, leb, length, drop, all, any, in_range, str_eq, nat_eq, text, has_prefix, canonical_decimal,
  if◌then◌else◌,
}
use fable.Wire.{
  Codecs, ConnectionIdentity, Destination, receive_unspecified, receive_user, receive_group,
  MessageType, message_unspecified, message_text, MessageOrigin, origin_unspecified, MessageView,
  Timestamp,
}
use fable.Wire.Identity.{valid_id, valid_uuid, valid_token, same_connection}
use fable.Wire.Push.{task_prefix}

abbrev is_text : MessageType → Bool
is_text message_text = true
is_text message_unspecified = false

abbrev is_origin : MessageOrigin → Bool
is_origin origin_unspecified = false
is_origin _ = true

-- CreatedAt is there, valid, and not Go's zero time.
abbrev is_created : Option Timestamp → Bool
is_created none = false
is_created (some t) = t.check_valid && not (t.as_time == 0)

module _ (c : Codecs) where
  unfoldable pub is_destination : MessageView → Destination → Bool
  unfolding valid_id
  is_destination m d = elim d.receive_type [
    | receive_user ↦
        valid_id c m.session_id b'S'
        && (valid_id c d.receive_id b'U'
            && (not (m.sender_id == d.receive_id)
                && m.conversation_id == text "direct:" ++ m.session_id))
    | receive_group ↦
        valid_id c m.session_id b'G'
        && (m.session_id == d.receive_id && m.conversation_id == text "group:" ++ m.session_id)
    | receive_unspecified ↦ false
  ]

  -- validateMessage
  unfoldable pub validate_message : MessageView → Bool
  unfolding valid_id is_destination
  validate_message m = elim m.destination [
    | none ↦ false
    | some d ↦
        valid_id c m.message_id b'M'
        && (valid_id c m.sender_id b'U'
            && (is_text m.message_type
                && (not (length m.content == 0)
                    && (leb (length m.content) (16 * 1024)
                        && (c.utf8_valid m.content
                            && (is_origin m.origin
                                && (is_created m.created_at
                                    && (not (m.position == 0)
                                        && (ltb m.position (2 ^ 63) && is_destination m d)))))))))
  ]

  -- validateConnection, for Comet's own instance.
  unfoldable pub validate_connection : Str → ConnectionIdentity → Bool
  unfolding valid_id valid_uuid valid_token
  validate_connection instance_name id =
      valid_id c id.user_id b'U'
      && (id.instance_id == instance_name
          && (valid_uuid c id.connection_id
              && (leb (length id.route_token) 128 && valid_token c id.route_token)))

  -- The loop over the targets; `seen` holds the ones before.
  unfoldable pub distinct_targets : Str → List ConnectionIdentity → List ConnectionIdentity → Bool
  unfolding validate_connection same_connection
  distinct_targets instance_name seen [] = true
  distinct_targets instance_name seen (id ∷ ids) =
      let rest = distinct_targets instance_name (id ∷ seen) ids in
      if not (validate_connection instance_name id) || any (λ k. same_connection k id) seen
      then false
      else rest

  -- validateDelivery
  unfoldable pub validate_delivery : Str → MessageView → List ConnectionIdentity → Str → Bool
  unfolding validate_message distinct_targets
  validate_delivery task_id m targets instance_name =
      let prefix : Str = task_prefix ++ m.message_id ++ text ":" in
      validate_message m
      && (has_prefix task_id prefix
          && (elim (canonical_decimal (drop (length prefix) task_id)) [
            | none ↦ false
            | some n ↦ ltb n (2 ^ 32)
          ]
              && (leb 1 (length targets)
                  && (leb (length targets) 100 && distinct_targets instance_name [] targets))))

-- validRequestID
unfoldable pub valid_request_id : Str → Bool
valid_request_id s = leb (length s) 128 && all (in_range 32 126) s
