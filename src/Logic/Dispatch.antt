-- ===== src/Logic/Dispatch.antt =====
-- internal/logic/dispatch.go: a saved message becomes push tasks of at most 100 recipients each.
pub mod Chunks
mod Tests
use fable.Prelude.{
  ℕ, zero, suc, ◌+◌, ◌*◌, ◌/◌, ◌%◌, ◌^◌, Str, Bool, true, Option, none, some, List, [], ◌∷◌, ◌++◌,
  ◌==◌, ltb, length, take, drop, nat_eq, itoa, ◌||◌, if◌then◌else◌,
}
use fable.Wire.{
  MessageView, Destination, ReceiveType, receive_group, MessageOrigin, origin_ai, as_time,
  ConnectionIdentity, RouteLease, RouteLookupResult, route,
}
use fable.Wire.Push.{
  Message, PushTask, user_name, group_name, ai_name, text_name, push_kind, task_prefix,
}

-- messagestore.Saved
pub record Saved : Type 0 where
  pub message : MessageView
  pub recipients : List Str
  pub replayed : Bool

pub data DispatchState : Type 0 where
  queued not_queued unknown : DispatchState

pub record SendResult : Type 0 where
  pub client_message_id : Str
  pub stored : Bool
  pub message : MessageView
  pub replayed : Bool
  pub dispatch : DispatchState

pub data Published : Type 0 where
  acknowledged not_published uncertain : Published

-- What is outside: the lookup of routes (none where it fails), json.Marshal, and the publisher's
-- answer to the publication with a given number.
pub record Outside : Type 0 where
  pub lookup_routes : ℕ → List Str → Option (List RouteLookupResult)
  pub marshal : PushTask → Option Str
  pub publish : ℕ → Str → Published

abbrev receive_name : ReceiveType → Str
receive_name receive_group = group_name
receive_name _ = user_name

abbrev origin_name : MessageOrigin → Str
origin_name origin_ai = ai_name
origin_name _ = user_name

-- publicMessage, of a view whose destination is there.
unfoldable pub public_message : Destination → MessageView → Message
public_message d m = record {
  message_id = m.message_id;
  conversation_id = m.conversation_id;
  session_id = m.session_id;
  send_id = m.sender_id;
  receive_id = d.receive_id;
  receive_type = receive_name d.receive_type;
  type = text_name;
  content = m.content;
  origin = origin_name m.origin;
  created_at = as_time m.created_at;
  position = itoa m.position;
}

-- The identity of a route that a lookup found. (A lease of the store has one.)
unfoldable pub hint : RouteLookupResult → List ConnectionIdentity
hint r = elim r.state [
  | route (some lease) ↦ elim lease.identity [ none ↦ [] | some id ↦ id ∷ [] ]
  | _ ↦ []
]

unfoldable pub hints : List RouteLookupResult → List ConnectionIdentity
unfolding hint
hints [] = []
hints (r ∷ rs) = hint r ++ hints rs

module _ (o : Outside) (d : Destination) (saved : Saved) (request_id : Str) where
  abbrev pub chunk_total : ℕ
  chunk_total = (length saved.recipients + 99) / 100

  abbrev pub chunk : ℕ → List Str
  chunk index = take 100 (drop (index * 100) saved.recipients)

  abbrev pub targets_of : ℕ → List ConnectionIdentity
  targets_of index = elim (o.lookup_routes index (chunk index)) [
    | none ↦ []
    | some routes ↦ hints routes
  ]

  unfoldable pub task : ℕ → PushTask
  task index = record {
    schema_version = 1;
    kind = push_kind;
    task_id = task_prefix ++ saved.message.message_id ++ text_colon ++ itoa index;
    message = public_message d saved.message;
    recipients = chunk index;
    targets = some (targets_of index);
    chunk_index = index % 2 ^ 32;
    chunk_count = chunk_total % 2 ^ 32;
    request_id = request_id;
    pending_recipients = none;
    replay_run_id = [];
  }
    where
      text_colon : Str
      text_colon = 58 ∷ []

  abbrev after_failure : ℕ → DispatchState
  after_failure published = if published == 0 then not_queued else unknown

  -- The loop, with the rounds that are left: the state it ends in, and the tasks that the publisher
  -- acknowledged.
  unfoldable pub publish_from : ℕ → ℕ → ℕ → DispatchState × List PushTask
  publish_from zero index published = (queued, [])
  publish_from (suc rounds) index published =
      let rest = publish_from rounds (index + 1) (published + 1) in
      elim (o.marshal (task index)) [
        | none ↦ (after_failure published, [])
        | some raw ↦
            if ltb (256 * 1024) (length raw)
            then (after_failure published, [])
            else elim (o.publish index raw) [
              | acknowledged ↦ (rest.0, task index ∷ rest.1)
              | not_published ↦ (after_failure published, [])
              | uncertain ↦ (unknown, [])
            ]
      ]

abbrev send_result : Str → Saved → DispatchState → SendResult
send_result client_id saved state = record {
  client_message_id = client_id;
  stored = true;
  message = saved.message;
  replayed = saved.replayed;
  dispatch = state;
}

-- dispatch: its answer, and the tasks that were acknowledged. The destination is read for each task:
-- where it is missing and there is somebody to write to, the code reads through a nil pointer, which is
-- `none`.
unfoldable pub dispatch : Outside → Str → Saved → Str → Option (SendResult × List PushTask)
unfolding publish_from
dispatch o client_id saved request_id = elim saved.message.destination [
  | none ↦
      if length saved.recipients == 0 then some (send_result client_id saved queued, []) else none
  | some d ↦
      let (state, tasks) =
        publish_from o d saved request_id (chunk_total o d saved request_id) 0 0 in
      some (send_result client_id saved state, tasks)
]
