-- ===== src/Wire/Push.antt =====
-- internal/dto/im: the public view of a message, and the push task that Logic hands to Job.
use fable.Prelude.{Str, ℕ, List, Option, text}
use fable.Wire.{Time, ConnectionIdentity}

abbrev pub user_name : Str
user_name = text "user"

abbrev pub group_name : Str
group_name = text "group"

abbrev pub ai_name : Str
ai_name = text "ai"

abbrev pub text_name : Str
text_name = text "text"

-- `created_at` is a UTC time; the wire's offset is checked where a task is decoded.
pub record Message : Type 0 where
  pub message_id : Str
  pub conversation_id : Str
  pub session_id : Str
  pub send_id : Str
  pub receive_id : Str
  pub receive_type : Str
  pub type : Str
  pub content : Str
  pub origin : Str
  pub created_at : Time
  pub position : Str

-- `targets` and `pending_recipients` may be nil.
pub record PushTask : Type 0 where
  pub schema_version : ℕ  -- uint32
  pub kind : Str
  pub task_id : Str
  pub message : Message
  pub recipients : List Str
  pub targets : Option (List ConnectionIdentity)
  pub chunk_index : ℕ  -- uint32
  pub chunk_count : ℕ  -- uint32
  pub request_id : Str
  pub pending_recipients : Option (List Str)
  pub replay_run_id : Str

abbrev pub push_kind : Str
push_kind = text "message_push"

abbrev pub task_prefix : Str
task_prefix = text "push:v1:"
