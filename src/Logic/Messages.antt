-- ===== src/Logic/Messages.antt =====
-- internal/logic/messagestore: what a stored message is, and the checks on requests and on rows.
pub mod Save
pub mod Sync
pub mod Snapshots
pub mod Replay
pub mod Destinations
pub mod Fixtures
mod Tests
use fable.Prelude.{
  ℕ, zero, suc, ℤ, pos, pos_part, ◌+◌, ◌*◌, ◌^◌, Str, Bool, true, false, not, ◌&&◌, ◌||◌, Option,
  none, some, List, [], ◌∷◌, ◌++◌, ◌==◌, ltb, leb, length, take, drop, all, contains, str_eq,
  nat_eq, text, has_prefix, canonical_decimal, itoa, sort_strings, if◌then◌else◌, Result, ok, err,
  ◌>>=◌, ◌>>◌, guard,
}
use fable.Wire.{
  Time, Timestamp, Codecs, Destination, ReceiveType, receive_unspecified, receive_user,
  receive_group, MessageView, message_text, MessageOrigin, origin_user, origin_ai,
}
use fable.Wire.Identity.{valid_id, valid_uuid}

pub data Error : Type 0 where
  invalid forbidden conflict database : Error

pub record Input : Type 0 where
  pub sender_id : Str
  pub client_message_id : Str
  pub destination : Option Destination
  pub content : Str

-- The columns of a message. `created_at` is as timestamppb.New gives it. A `type` or an `origin` below
-- 0 would be one of the unknown ones.
pub record Row : Type 0 where
  pub id : ℤ
  pub uuid : Str
  pub session_id : Str
  pub type : ℕ
  pub content : Str
  pub origin : ℕ
  pub send_id : Str
  pub receive_id : Str
  pub created_at : Timestamp
  pub client_message_id : Str
  pub request_fingerprint : Str
  pub recipient_ids : Str

abbrev pub type_text : ℕ
type_text = 0

abbrev pub stored_user : ℕ
stored_user = 0

abbrev pub stored_ai : ℕ
stored_ai = 1

-- sortedUnique, behind the sort: the loop writes down each id that differs from the one before.
unfoldable pub unique_after : Str → List Str → List Str
unique_after last [] = []
unique_after last (id ∷ ids) =
    let rest = unique_after id ids in if id == last then rest else id ∷ rest

unfoldable pub unique : List Str → List Str
unfolding unique_after
unique [] = []
unique (id ∷ ids) = id ∷ unique_after id ids

unfoldable pub sorted_unique : List Str → List Str
unfolding unique sort_strings
sorted_unique ids = unique (sort_strings ids)

abbrev pub same_list : List Str → List Str → Bool
same_list [] [] = true
same_list (x ∷ xs) (y ∷ ys) = x == y && same_list xs ys
same_list _ _ = false

-- "direct:" and "group:"
abbrev direct_prefix : Str
direct_prefix = text "direct:"

abbrev group_prefix : Str
group_prefix = text "group:"

module _ (c : Codecs) where
  unfoldable pub valid_text : Str → Bool
  valid_text s = not (length s == 0) && (leb (length s) (16 * 1024) && c.utf8_valid s)

  unfoldable pub validate_input : Input → Result Error (Unit {0})
  unfolding valid_text valid_id
  validate_input i = elim i.destination [
    | none ↦ err invalid
    | some d ↦ do
      guard
          (valid_id c i.sender_id b'U'
            && (valid_uuid c i.client_message_id && valid_text i.content))
          invalid
      elim d.receive_type [
        | receive_user ↦
            guard (valid_id c d.receive_id b'U' && not (d.receive_id == i.sender_id)) invalid
        | receive_group ↦ guard (valid_id c d.receive_id b'G') invalid
        | receive_unspecified ↦ err invalid
      ]
  ]

  -- decodeRecipients, behind json.Unmarshal.
  pub check_recipients : List Str → Result Error (List Str)
  unfolding sorted_unique valid_id
  check_recipients ids =
      if not (length ids == 0)
        && (all (λ id. valid_id c id b'U') ids
            && (length (sorted_unique ids) == length ids && same_list ids (sorted_unique ids)))
      then ok ids
      else err database

  -- parseConversation: the session, and whether it is a group.
  pub parse_conversation : Str → Result Error (Str × Bool)
  unfolding valid_id has_prefix
  parse_conversation s =
      if has_prefix s direct_prefix && valid_id c (drop 7 s) b'S'
      then ok (drop 7 s, false)
      else if has_prefix s group_prefix && valid_id c (drop 6 s) b'G'
      then ok (drop 6 s, true)
      else err invalid

  -- The kind of a row's conversation, or none where messageView refuses it.
  unfoldable pub row_kind : Row → Option ReceiveType
  unfolding valid_id
  row_kind row =
      if valid_id c row.session_id b'G'
      then if row.receive_id == row.session_id then some receive_group else none
      else if valid_id c row.session_id b'S'
          && (valid_id c row.receive_id b'U' && not (row.send_id == row.receive_id))
      then some receive_user
      else none

  unfoldable pub row_origin : Row → Option MessageOrigin
  row_origin row =
      if row.origin == stored_user
      then some origin_user
      else if row.origin == stored_ai
      then some origin_ai
      else none

  abbrev conversation_of : ReceiveType → Str → Str
  conversation_of receive_group session = group_prefix ++ session
  conversation_of _ session = direct_prefix ++ session

  -- The first test of messageView.
  unfoldable pub is_sound : Row → Bool
  unfolding valid_id valid_text
  is_sound row =
      not (pos_part row.id == 0)
      && (valid_id c row.uuid b'M'
          && (valid_id c row.send_id b'U'
              && (valid_text row.content
                  && (row.type == type_text && not (row.created_at.as_time == 0)))))

  unfoldable pub message_view : Row → Result Error MessageView
  unfolding row_kind row_origin is_sound
  message_view row = if not (is_sound row) then err database else elim (row_origin row) [
    | none ↦ err database
    | some origin ↦ elim (row_kind row) [
      | none ↦ err database
      | some kind ↦
          if not row.created_at.check_valid
          then err database
          else ok (record {
            message_id = row.uuid;
            conversation_id = conversation_of kind row.session_id;
            session_id = row.session_id;
            sender_id = row.send_id;
            destination = some (record { receive_type = kind; receive_id = row.receive_id });
            message_type = message_text;
            content = row.content;
            origin = origin;
            created_at = some row.created_at;
            position = pos_part row.id;
          })
    ]
  ]
