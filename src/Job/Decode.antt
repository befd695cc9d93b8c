-- ===== src/Job/Decode.antt =====
-- DecodeTask in internal/job/task.go.
pub mod Fuel
mod Tests
pub mod Hints
pub mod Accepted
use fable.Prelude.{
  ℕ, zero, suc, ◌+◌, ◌*◌, ◌≤◌, ◌<◌, ◌≡◌, Str, Bool, true, false, not, ◌&&◌, ◌||◌, Option, none,
  some, List, [], ◌∷◌, ◌++◌, ◌==◌, ltb, leb, length, all, contains, str_eq, nat_eq, text, itoa,
  str_le, lookup, if◌then◌else◌, Result, ok, err, ◌>>=◌, ◌>>◌, guard,
}
use fable.Wire.{Codecs, ConnectionIdentity}
use fable.Wire.Identity.{valid_id, valid_connection, printable}
use fable.Wire.Push.{PushTask, Message, push_kind, task_prefix, user_name}
use fable.Job.Task.{message_view}
use fable.Job.Escapes.{valid_unicode_escapes}

pub data Token : Type 0 where
  delim : ℕ → Token
  string_token : Str → Token
  other_token : Token

pub data Fault : Type 0 where
  refused out_of_fuel : Fault

-- encoding/json as Job calls it: a Decoder with Token and More; Decode into a task where unknown fields
-- are refused, with the zone offset of the message's time; Unmarshal into a map of raw values, none
-- where it fails or the map is nil; and Marshal. A token is taken from the bytes that are left; the error
-- of Token is marked where it is io.EOF.
pub record Json : Type 1 where
  pub Decoder : Type 0
  pub new_decoder : Str → Decoder
  pub token : Decoder → Result Bool (Token × Decoder)
  pub more : Decoder → Bool
  pub left : Decoder → ℕ
  pub left-new_decoder : (raw : Str) → left (new_decoder raw) ≤ length raw
  pub left-token : (d d' : Decoder) (t : Token) → token d ≡ ok (t, d') → left d' < left d
  pub decode : Str → Option (PushTask × ℕ)
  pub unmarshal : Str → Option (List (Str × Str))
  pub marshal : PushTask → Option Str
  pub to_lower : Str → Str

abbrev max_depth : ℕ
max_depth = 16

-- '{' and '['
abbrev pub open_object : ℕ
open_object = 123

abbrev pub open_array : ℕ
open_array = 91

module _ (J : Json) where
  open J use {Decoder, token, more, to_lower}

  unfoldable pub take_token : Decoder → Result Fault (Token × Decoder)
  take_token d = elim (token d) [ ok r ↦ ok r | err is_eof ↦ err refused ]

  -- The last line of checkJSON.
  unfoldable pub close_value : Decoder → Result Fault Decoder
  close_value d = do (t, d') ← take_token d; ok d'

  -- checkJSON, its loop over the members of an object, with the keys seen before, and its loop over the
  -- elements of an array. Each call but the first of a loop takes a token.
  unfoldable mutual
    pub check_json : ℕ → ℕ → Decoder → Result Fault Decoder
    check_json zero depth d = err out_of_fuel
    check_json (suc fuel) depth d =
        if ltb max_depth depth
        then err refused
        else (take_token d >>= λ r. elim r.0 [
          | delim c ↦
              if c == open_object
              then check_members fuel depth [] r.1
              else if c == open_array
              then check_elements fuel depth r.1
              else err refused
          | _ ↦ ok r.1
        ])

    pub check_members : ℕ → ℕ → List Str → Decoder → Result Fault Decoder
    check_members zero depth seen d = err out_of_fuel
    check_members (suc fuel) depth seen d =
        if not (more d)
        then close_value d
        else (take_token d >>= λ r. elim r.0 [
          | string_token key ↦
              if contains seen key || not (key == to_lower key)
              then err refused
              else (check_json fuel (depth + 1) r.1 >>= λ d'.
                  check_members fuel depth (key ∷ seen) d')
          | _ ↦ err refused
        ])

    pub check_elements : ℕ → ℕ → Decoder → Result Fault Decoder
    check_elements zero depth d = err out_of_fuel
    check_elements (suc fuel) depth d =
        if not (more d)
        then close_value d
        else (check_json fuel (depth + 1) d >>= λ d'. check_elements fuel depth d')

  -- Whether checkJSON accepts the bytes and they hold nothing more.
  unfoldable pub is_one_value : Str → Bool
  unfolding check_json
  is_one_value raw = elim (check_json (2 * length raw + 1) 0 (J.new_decoder raw)) [
    | err _ ↦ false
    | ok d ↦ elim (token d) [ ok _ ↦ false | err is_eof ↦ is_eof ]
  ]

abbrev pub null_value : Str
null_value = text "null"

-- requiredObject, of a map that Unmarshal gave.
unfoldable pub has_required : List (Str × Str) → List Str → Bool
has_required fields [] = true
has_required fields (key ∷ keys) =
    elim (lookup key fields) [ none ↦ false | some value ↦ not (value == null_value) ]
    && has_required fields keys

abbrev pub task_fields : List Str
task_fields =
    text "schema_version"
    ∷ text "kind"
    ∷ text "task_id"
    ∷ text "message"
    ∷ text "recipients"
    ∷ text "targets"
    ∷ text "chunk_index"
    ∷ text "chunk_count"
    ∷ []

abbrev pub message_fields : List Str
message_fields =
    text "message_id"
    ∷ text "conversation_id"
    ∷ text "session_id"
    ∷ text "send_id"
    ∷ text "receive_id"
    ∷ text "receive_type"
    ∷ text "type"
    ∷ text "content"
    ∷ text "origin"
    ∷ text "created_at"
    ∷ text "position"
    ∷ []

-- The loop over the recipients, with the one before.
unfoldable pub valid_recipients : Codecs → Message → Option Str → List Str → Bool
valid_recipients c m before [] = true
valid_recipients c m before (id ∷ ids) =
    (valid_id c id b'U'
      && (elim before [ none ↦ true | some last ↦ not (str_le id last) ]
          && (not (m.receive_type == user_name) || (id == m.send_id || id == m.receive_id))))
    && valid_recipients c m (some id) ids

-- The loop over the targets, with the users seen before.
unfoldable pub valid_targets : Codecs → List Str → List Str → List ConnectionIdentity → Bool
valid_targets c recipients seen [] = true
valid_targets c recipients seen (h ∷ hs) =
    (contains recipients h.user_id
      && (not (contains seen h.user_id) && valid_connection c (some h)))
    && valid_targets c recipients (h.user_id ∷ seen) hs

-- The loop over the pending recipients, with those seen before.
unfoldable pub valid_pending : List Str → List Str → List Str → Bool
valid_pending recipients seen [] = true
valid_pending recipients seen (id ∷ ids) =
    (contains recipients id && not (contains seen id)) && valid_pending recipients (id ∷ seen) ids

abbrev pub ids_of : Option (List Str) → List Str
ids_of none = []
ids_of (some ids) = ids

abbrev pub has_field : List (Str × Str) → Str → Bool
has_field fields key = elim (lookup key fields) [ none ↦ false | some _ ↦ true ]

-- The checks on a task that has been decoded, with its fields and the offset of its message's time.
unfoldable pub valid_task : Codecs → List (Str × Str) → ℕ → PushTask → Bool
unfolding valid_recipients valid_targets valid_pending printable
valid_task c fields offset t =
    (t.schema_version == 1
      && (t.kind == push_kind
          && (not (t.chunk_count == 0)
              && (ltb t.chunk_index t.chunk_count
                  && t.task_id
                    == task_prefix ++ t.message.message_id ++ (58 ∷ []) ++ itoa t.chunk_index))))
    && (elim (message_view c offset t.message) [ none ↦ false | some _ ↦ true ]
        && ((leb 1 (length t.recipients)
              && (leb (length t.recipients) 100 && valid_recipients c t.message none t.recipients))
            && (elim t.targets [ none ↦ false | some hs ↦ valid_targets c t.recipients [] hs ]
                && ((elim (lookup (text "request_id") fields) [
                  | none ↦ true
                  | some raw ↦ not (raw == null_value) && printable t.request_id 128
                ])
                    && ((if has_field fields (text "pending_recipients")
                          then has_field fields (text "replay_run_id")
                            && (not (length (ids_of t.pending_recipients) == 0)
                                && printable t.replay_run_id 128)
                          else not (has_field fields (text "replay_run_id")))
                        && valid_pending t.recipients [] (ids_of t.pending_recipients))))))

-- DecodeTask; none is ErrInvalidTask.
unfoldable pub decode_task : Json → Codecs → Str → Option PushTask
unfolding valid_task is_one_value has_required
decode_task J c raw =
    if not (leb (length raw) (256 * 1024) && (c.utf8_valid raw && valid_unicode_escapes raw))
    then none
    else if not (is_one_value J raw)
    then none
    else elim (J.decode raw) [
      | none ↦ none
      | some (task, offset) ↦ elim (J.unmarshal raw) [
        | none ↦ none
        | some fields ↦
            let message : Bool = elim (lookup (text "message") fields) [
              | none ↦ false
              | some raw_message ↦ elim (J.unmarshal raw_message) [
                | none ↦ false
                | some inner ↦ has_required inner message_fields
              ]
            ] in
            if has_required fields task_fields && (message && valid_task c fields offset task)
            then some task
            else none
      ]
    ]
