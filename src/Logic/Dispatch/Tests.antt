-- ===== src/Logic/Dispatch/Tests.antt =====
-- The theorems on dispatch, for a message with 250 recipients whose second chunk is lost.
use fable.Prelude.{
  ℕ, zero, suc, ◌≡◌, refl, Str, true, false, none, some, List, [], ◌∷◌, text, itoa, ℕ_discrete,
  if◌then◌else◌, ◌==◌, nat_eq,
}
use fable.Wire.{Destination, receive_group, message_text, origin_user}
use fable.Wire.Push.{PushTask}
use fable.Logic.Dispatch.{
  Saved, SendResult, unknown, acknowledged, uncertain, Outside, dispatch, publish_from, task,
}
use fable.Logic.Dispatch.Chunks.{Covers, dispatch-Covers}

abbrev outside : Outside
outside = record {
  lookup_routes = λ _ _. none;
  marshal = λ t. some t.task_id;
  publish = λ n _. if n == 1 then uncertain else acknowledged;
}

abbrev repeat : ℕ → Str → List Str
repeat zero s = []
repeat (suc n) s = s ∷ repeat n s

abbrev team : Destination
team = record { receive_type = receive_group; receive_id = text "G1" }

abbrev saved : Saved
saved = record {
  message = record {
    message_id = text "M1";
    conversation_id = text "group:G1";
    session_id = text "G1";
    sender_id = text "UA";
    destination = some team;
    message_type = message_text;
    content = text "hello";
    origin = origin_user;
    created_at = none;
    position = 1;
  };
  recipients = repeat 250 (text "UB");
  replayed = false;
}

abbrev result : SendResult
result = record {
  client_message_id = text "c";
  stored = true;
  message = saved.message;
  replayed = false;
  dispatch = unknown;
}

abbrev sent : List PushTask
sent = task outside team saved (text "r") 0 ∷ []

dispatch-eq-some : dispatch outside (text "c") saved (text "r") ≡ some (result, sent)
unfolding dispatch publish_from task itoa ℕ_discrete
dispatch-eq-some = refl

dispatch-Covers_example : Covers saved.recipients unknown sent
dispatch-Covers_example =
    dispatch-Covers outside (text "c") saved (text "r") result sent dispatch-eq-some
