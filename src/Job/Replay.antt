-- ===== src/Job/Replay.antt =====
-- internal/job/replay.go: a dead letter becomes a task for the recipients that are still unresolved.
pub mod Narrowing
mod Tests
use fable.Prelude.{
  ℕ, ℤ, pos, negsuc, ◌+◌, ◌*◌, ◌^◌, Str, Bool, true, false, not, ◌&&◌, ◌||◌, Option, none, some,
  List, [], ◌∷◌, ◌==◌, ltb, leb, length, contains, str_eq, nat_eq, text, has_prefix,
  canonical_decimal, if◌then◌else◌,
}
use fable.Wire.{Time, Codecs}
use fable.Wire.Identity.{printable}
use fable.Wire.Push.{Message, PushTask}
use fable.Job.Escapes.{valid_unicode_escapes}
use fable.Job.Decode.{Json, is_one_value, decode_task, ids_of}

-- DLQRecord, and what Job's DeadLetter adds to it. (SourceKeyBase64 is only copied.)
pub record Envelope : Type 0 where
  pub source_topic : Str
  pub source_partition : ℤ
  pub source_offset : Str
  pub reason : Str
  pub task : Option PushTask
  pub pending_recipients : List Str
  pub raw_payload_base64 : Str
  pub first_attempt_at : Time
  pub last_attempt_at : Time
  pub original_payload_base64 : Str

-- Strict base64, the decoder of an envelope where unknown fields are refused, and the SHA-256 of the
-- JSON of a task's version, kind, id, message, recipients, index and count.
pub record Archive : Type 0 where
  pub base64_decode : Str → Option Str
  pub decode_envelope : Str → Option Envelope
  pub digest : ℕ → Str → Str → Message → List Str → ℕ → ℕ → Str

-- ImmutableDigest
abbrev pub immutable_digest : Archive → PushTask → Str
immutable_digest a t =
    a.digest t.schema_version t.kind t.task_id t.message t.recipients t.chunk_index t.chunk_count

abbrev topic : Str
topic = text "fable.push.v1"

-- pushTopic
unfoldable pub push_topic : Str → Bool
push_topic s =
    s == topic
    || (has_prefix s (text "fable.push.v1.") && ltb (length (text "fable.push.v1.")) (length s))

-- DecodeDeadLetter
unfoldable decode_dead_letter : Json → Archive → Codecs → Str → Option Envelope
unfolding is_one_value
decode_dead_letter J a c raw =
    if not (leb (length raw) (2 * 1024 * 1024) && (c.utf8_valid raw && valid_unicode_escapes raw))
    then none
    else if is_one_value J raw
    then a.decode_envelope raw
    else none

-- A subset that is there takes what it lacks out of the set.
abbrev pub narrowed : Option (List Str) → (Str → Bool) → Str → Bool
narrowed none allowed id = allowed id
narrowed (some subset) allowed id = allowed id && contains subset id

-- The set `allowed`, of a task and its source.
abbrev pub allowed_of : PushTask → PushTask → Str → Bool
allowed_of task source =
    narrowed source.pending_recipients
      (narrowed task.pending_recipients (λ id. contains task.recipients id))

-- The loop over the envelope's pending recipients, with those seen before.
unfoldable pub selects : (Str → Bool) → List Str → List Str → Bool
selects allowed seen [] = true
selects allowed seen (id ∷ ids) =
    (allowed id && not (contains seen id)) && selects allowed (id ∷ seen) ids

-- The conditions of ReplayTask on where and when a record was met.
unfoldable pub valid_source : Envelope → Bool
unfolding push_topic
valid_source r =
    elim r.source_partition [ pos n ↦ true | negsuc n ↦ false ]
    && (elim (canonical_decimal r.source_offset) [ none ↦ false | some n ↦ ltb n (2 ^ 63) ]
        && (push_topic r.source_topic
            && (not (r.first_attempt_at == 0) && not (ltb r.last_attempt_at r.first_attempt_at))))

-- The first condition of ReplayTask, but for the task.
unfoldable pub valid_envelope : Str → Envelope → Bool
unfolding valid_source printable
valid_envelope run_id r =
    printable run_id 128
    && (r.raw_payload_base64 == []
        && (r.reason == text "unresolved"
            && (not (length r.pending_recipients == 0) && valid_source r)))

-- ReplayTask; none is ErrInvalidReplay.
unfoldable pub replay_task : Json → Archive → Codecs → Envelope → Str → Option PushTask
unfolding valid_envelope decode_task selects
replay_task J a c r run_id = elim r.task [
  | none ↦ none
  | some held ↦ if not (valid_envelope run_id r) then none else elim (J.marshal held) [
    | none ↦ none
    | some raw ↦ elim (decode_task J c raw) [
      | none ↦ none
      | some task ↦ elim (a.base64_decode r.original_payload_base64) [
        | none ↦ none
        | some original ↦ if length original == 0 then none else elim (decode_task J c original) [
          | none ↦ none
          | some source ↦
              if immutable_digest a source == immutable_digest a task
                && selects (allowed_of task source) [] r.pending_recipients
              then some (record task {
                pending_recipients = some r.pending_recipients;
                replay_run_id = run_id;
                targets = some [];
              })
              else none
        ]
      ]
    ]
  ]
]
