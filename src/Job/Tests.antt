-- ===== src/Job/Tests.antt =====
-- The theorems of the Job role at concrete tasks, records and surroundings.
use fable.Prelude.{
  ◌≤◌, ◌≡◌, ◌≢◌, refl, ◌⊎◌, inl, Str, Bool, true, false, not, Option, none, some, List, [], ◌∷◌,
  ◌==◌, map, All, arith, lookup, text, ltb, str_eq, ℕ_discrete, Str-discrete,
}
use fable.Wire.{Codecs, Destination, receive_user, message_text, origin_user, MessageView}
use fable.Wire.Identity.{valid_id, valid_uuid}
use fable.Wire.Push.{PushTask, push_kind}
use fable.Comet.Validation.{validate_message, is_destination}
use fable.Logic.Dispatch.{public_message}
use fable.Job.{unresolved, other_code, failure}
use fable.Job.Round.{InstanceEnv, RoundEnv, round}
use fable.Job.Round.Frozen.{Kept}
use fable.Job.Round.Steps.{round-Kept}
use fable.Job.Processor.{TaskEnv, pending_recipients, process, scope, start_states}
use fable.Job.Processor.Results.{SaysWhy, process_lem}
use fable.Job.Consumer.{
  new_options, Consumer, conflict, AckEnv, Stop, ack, Record, StepEnv, Event, run_record,
}
use fable.Job.Consumer.Identities.{Bounded, conflict-Bounded}
use fable.Job.Consumer.Boundary.{Answers, ack-Answers}
use fable.Job.Consumer.Commits.Partition.{Handled, Ran, run_record-Handled, run_partition-Ran}
use fable.Job.Task.{new_timestamp, message_view}
use fable.Job.Task.Views.{message_view-public_message}

-- Libraries that take every text for a uuid, for UTF-8, and for its own encoding.
abbrev lenient : Codecs
lenient = record {
  uuid_validate = λ _. true;
  utf8_valid = λ _. true;
  raw_url_decode = λ s. some s;
  raw_url_encode = λ s. s;
  split_host_port = λ s. some (s, text "80");
}

abbrev uuid : Str
uuid = text "11111111-1111-1111-1111-111111111111"

abbrev direct : Destination
direct = record {
  receive_type = receive_user;
  receive_id = text "U21111111-1111-1111-1111-111111111111";
}

abbrev view : MessageView
view = record {
  message_id = text "M11111111-1111-1111-1111-111111111111";
  conversation_id = text "direct:S11111111-1111-1111-1111-111111111111";
  session_id = text "S11111111-1111-1111-1111-111111111111";
  sender_id = text "U11111111-1111-1111-1111-111111111111";
  destination = some direct;
  message_type = message_text;
  content = text "hello";
  origin = origin_user;
  created_at = some (new_timestamp 7);
  position = 12;
}

message_view-public_message_example :
    message_view lenient 0 (public_message direct view) ≡ some view
unfolding validate_message is_destination valid_id valid_uuid ℕ_discrete Str-discrete
message_view-public_message_example =
    message_view-public_message lenient view direct 7 refl refl refl

abbrev push : PushTask
push = record {
  schema_version = 1;
  kind = push_kind;
  task_id = text "push:v1:M1:0";
  message = public_message direct view;
  recipients = text "UA" ∷ text "UB" ∷ [];
  targets = some [];
  chunk_index = 0;
  chunk_count = 1;
  request_id = [];
  pending_recipients = none;
  replay_run_id = [];
}

abbrev no_instance : InstanceEnv
no_instance = record {
  over = false;
  lease_clock = 1;
  route_clock = 1;
  dial = λ _. false;
  late_lease_clock = 1;
  late_route_clock = 1;
  rpc_over = false;
  deliver = λ _ _. failure (record { code = other_code; details = [] });
}

-- Logic does not answer.
abbrev silent : RoundEnv
silent = record {
  lookup = λ _. failure (record { code = other_code; details = [] });
  lookup_clock = λ _ _. 1;
  over = false;
  resolve = λ _. failure (record { code = other_code; details = [] });
  resolve_clock = λ _ _. 1;
  instance_env = λ _. no_instance;
}

abbrev no_luck : TaskEnv
no_luck = record { over = λ _. false; over_after_delay = λ _. false; round_env = λ _. silent }

round-Kept_example :
    Kept
      (start_states push)
      (round lenient silent (text "push:v1:M1:0") (text "M1") false (start_states push)).0
round-Kept_example =
    round-Kept lenient silent (text "push:v1:M1:0") (text "M1") false (start_states push)

process_lem_example :
    let (result, failed) = process lenient no_luck push in
    (map (λ r. r.user_id) result.recipients ≡ scope push)
    × (result.attempts ≤ 3)
    × (result.task ≡ push)
    × All SaysWhy result.recipients
    × (((failed ≡ false) × All (λ r. r.outcome ≢ unresolved) result.recipients)
        ⊎ ((failed ≡ true) × (pending_recipients result.recipients ≢ [])))
process_lem_example = process_lem lenient no_luck push

abbrev fresh : Consumer
fresh = record {
  options = new_options 2 1;
  stats = record {
    processed = 0;
    committed = 0;
    dlq = 0;
    invalid = 0;
    conflicts = 0;
    retries = 0;
    dlq_errors = 0;
    commit_errors = 0;
    offline_count = 0;
    enqueued_count = 0;
    duplicate_count = 0;
    unresolved_count = 0;
  };
  identities = [];
  order = [];
  next = 0;
  blocked = 0;
}

fresh-Bounded : Bounded fresh
unfolding new_options lookup
fresh-Bounded = record {
  positive = omega arith;
  small = omega arith;
  inside = inl refl;
  listed = λ k. inl refl;
}

-- The second attempt of an acknowledgement succeeds.
abbrev second_time : AckEnv
second_time = record { over = λ _. false; succeeds = λ n. ltb 0 n; over_in_pause = λ _. false }

abbrev surroundings : StepEnv
surroundings = record {
  decode = λ _. some push;
  digest = λ t. t.task_id;
  process = λ _. process lenient no_luck push;
  over_after_process = false;
  over_before_ack = false;
  write = λ _. second_time;
  commit = second_time;
}

abbrev records : List Record
records = record { offset = 4; value = text "a" } ∷ record { offset = 5; value = text "b" } ∷ []

run_partition-Ran_example : Ran (λ _. surroundings) 0 records fresh
run_partition-Ran_example = run_partition-Ran (λ _. surroundings) 0 records fresh fresh-Bounded

run_record-Handled_example :
    (c' : Consumer) × (events : List Event) × (stop : Option Stop) × (run_record surroundings
        (record { offset = 4; value = text "a" })
        fresh
      ≡ some (c', (events, stop)))
    × Bounded c'
    × Handled surroundings (record { offset = 4; value = text "a" }) fresh c' events stop
run_record-Handled_example =
    run_record-Handled surroundings (record { offset = 4; value = text "a" }) fresh fresh-Bounded

ack-Answers_example : Answers second_time fresh.options.attempts 0 (ack second_time true fresh).1
ack-Answers_example = ack-Answers second_time true fresh

conflict-Bounded_example :
    (c' : Consumer) × (b : Bool) × (known : Str) × (conflict (text "t") (text "d") fresh
      ≡ some (c', b))
    × Bounded c'
    × (c'.stats ≡ fresh.stats)
    × (lookup (text "t") c'.identities ≡ some known)
    × (b ≡ not (known == text "d"))
    × ((lookup (text "t") fresh.identities ≡ some known)
        ⊎ ((lookup (text "t") fresh.identities ≡ none) × (known ≡ text "d")))
conflict-Bounded_example = conflict-Bounded (text "t") (text "d") fresh fresh-Bounded
