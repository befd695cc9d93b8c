-- ===== src/Logic/Service/Tests.antt =====
-- The theorems on the service, for one Comet with one user.
use fable.Prelude.{
  atoi, pos, sort_strings, insert_sorted, str_le, ◌+◌, ◌*◌, ◌≤◌, ◌≡◌, ◌≢◌, refl, ◌⊎◌, Str, true,
  false, Option, none, some, List, [], ◌∷◌, ◌++◌, arith, text, str_eq, nat_eq, ℕ_discrete,
  Str-discrete, has_prefix, ok, err, length,
}
use fable.Wire.{Codecs, stamp, unix_epoch, ConnectionIdentity, RouteLease}
use fable.Wire.Identity.{
  same_connection, valid_id, valid_uuid, valid_instance, valid_comet, valid_connection, valid_token,
}
use fable.Wire.Status.{denied}
use fable.Wire.Requests.{ConnectRequest, SubmitMessageRequest}
use fable.Logic.Service.{
  Grant, Service, boots, new_service, valid_grants, comet_auth, job_auth, grant_of, bearer,
  valid_request_id, local_address,
}
use fable.Logic.Service
use fable.Logic.Service.Handlers.{
  kick_capacity, Surroundings, connect, submit_message, connection_auth, parse_jwt, after_connect,
  same_route, dispatch_saved,
}
use fable.Logic.Service.Roles.{with_token, comet_auth-job_auth}
use fable.Logic.Routing.Fixtures.{
  visitor, get_cell, Cells, Cells, cells, keys, keys-IsStore, connected, connected-IsReadable,
  other_claim, other_uuid,
}
use fable.Logic.Routing.Store
use fable.Logic.Routing.Script
use fable.Logic.Routing.Stored.{IsReadable, IsReadable-later}
use fable.Logic.Routing.Readable.{run-IsReadable}
use fable.Logic.Routing.Calls.{run, step, connects}
use fable.Logic.Service.Held.{Held, submit_message-Held}
use fable.Logic.Service.Replaced.{Replaces, connect-kicks, connect-submit_message}
use fable.Logic.Messages.{
  sorted_unique, unique, unique_after, valid_text, validate_input, message_view, is_sound, row_kind,
  row_origin,
}
use fable.Logic.Messages.Save.{
  fingerprint, check_direct, lock_direct, conversation, require_from, authorize, insert_new, store,
  save_as, save,
}
use fable.Logic.Messages.Fixtures.{
  tables, encodings, lenient, uuid, alice, to_bob, written, answered,
}
use fable.Logic.Dispatch.{dispatch, publish_from, SendResult, not_queued, acknowledged}

abbrev codecs : Codecs
codecs = record lenient { split_host_port = λ _. some (text "localhost", text "50051") }

abbrev job : Str
job = text "job-job-job-job-job-job-job-job-job"

abbrev kick : Str
kick = text "kick-kick-kick-kick-kick-kick-kick-kick"

abbrev comet_1 : Grant
comet_1 = record {
  identity = record { instance_id = text "comet-1"; boot_id = uuid };
  rpc_address = text "localhost:50051";
  token = text "comet-comet-comet-comet-comet-comet";
}

abbrev service : Service
service = record { jwt_key = job; job_token = job; kick_token = kick; grants = comet_1 ∷ [] }

service_made : new_service codecs (λ _. true) job job kick (comet_1 ∷ []) ≡ some service
unfolding atoi new_service valid_grants Service.valid_token local_address valid_comet valid_instance
    valid_uuid ℕ_discrete Str-discrete
service_made = refl

comet_auth-job_auth_example :
    ((comet_auth service (with_token comet_1.token) (boots comet_1.identity) ≡ ok comet_1)
      × (job_auth service (with_token comet_1.token) ≡ err denied))
    × ((comet_auth service (with_token job) (boots comet_1.identity) ≡ err denied)
        × (job_auth service (with_token job) ≡ ok tt))
    × ((comet_auth service (with_token kick) (boots comet_1.identity) ≡ err denied)
        × (job_auth service (with_token kick) ≡ err denied))
unfolding ℕ_discrete Str-discrete
comet_auth-job_auth_example =
    comet_auth-job_auth codecs (λ _. true) job job kick [] [] comet_1 service
      (boots comet_1.identity) service_made

-- The connection that `connected` holds, and another one of its user.
abbrev held : ConnectionIdentity
held = record {
  user_id = alice;
  instance_id = text "comet-1";
  connection_id = uuid;
  route_token = text "AAAAAAAAAAAAAAAAAAAAAA";
}

abbrev surroundings : Surroundings
surroundings = record {
  user_exists = λ _. ok true;
  parse_with_claims = λ _ raw.
      some (true, record { user_uuid = raw; expires_at = stamp (unix_epoch + 30000 * 1_000_000) });
  marshal = λ _. none;
  publish = λ _ _. acknowledged;
  new_uuid = uuid;
}

abbrev hello : SubmitMessageRequest
hello = record {
  identity = some held;
  client_message_id = uuid;
  destination = some to_bob;
  content = text "hello";
  request_id = text "r";
}

abbrev told : SendResult
told = record {
  client_message_id = uuid;
  stored = true;
  message = answered.message;
  replayed = false;
  dispatch = not_queued;
}

submit_ok :
    submit_message cells keys codecs service
      (with_token comet_1.token)
      surroundings
      tables
      encodings
      (50, connected)
      (50, connected)
      (λ _. (60, connected))
      (some hello)
      []
    ≡ ok (written ∷ [], some (told, []))
unfolding submit_message valid_request_id connection_auth comet_auth grant_of bearer has_prefix
    Store.resolve Store.valid_batch Store.batch_loop Store.resolution_results Store.comet_lease
    valid_instance Script.resolve Script.resolve_one Script.read Script.is_stored run step
    Script.connect Script.register Script.grant_instance Script.save Store.check valid_connection
    valid_token Script.check Script.current Script.same Script.valid_owner Store.connection_record
    save save_as validate_input authorize conversation lock_direct check_direct require_from
    sorted_unique unique unique_after sort_strings insert_sorted str_le store insert_new fingerprint
    message_view is_sound row_kind row_origin valid_text valid_id valid_uuid dispatch_saved dispatch
    publish_from Script.is_instance Script.is_uuid Script.is_timestamp Script.is_user
    Script.is_token ℕ_discrete Str-discrete
submit_ok = refl

submit_message-Held_example :
    Held cells keys codecs service
      (with_token comet_1.token)
      surroundings
      tables
      encodings
      (50, connected)
      (50, connected)
      (some hello)
      []
      (written ∷ [])
      (some (told, []))
submit_message-Held_example =
    submit_message-Held cells keys codecs service (with_token comet_1.token) surroundings tables
      encodings (50, connected) (50, connected) (λ _. (60, connected)) (some hello) []
      (written ∷ []) (some (told, [])) submit_ok

abbrev other : ConnectionIdentity
other = record held { connection_id = other_uuid }

abbrev joining : ConnectRequest
joining = record {
  comet = some comet_1.identity;
  connection_id = other_uuid;
  route_token = text "AAAAAAAAAAAAAAAAAAAAAA";
  user_jwt = alice;
  request_id = text "r";
}

abbrev lease_of : ConnectionIdentity → RouteLease
lease_of id = record {
  identity = some id;
  auth_expires_at = some (stamp (unix_epoch + 30000 * 1_000_000));
  lease_deadline = some (stamp (unix_epoch + 30000 * 1_000_000));
}

abbrev rejoined : Cells
rejoined =
    run cells keys
      ((30, connects (record other_claim { connection = other_uuid }) (pos 30000)) ∷ []) connected

join_ok :
    connect cells keys codecs service
      (with_token comet_1.token)
      surroundings
      (30, connected)
      (some joining)
      []
    ≡ ok (rejoined, ((lease_of other, some (lease_of held)), some held ∷ []))
unfolding connect valid_request_id comet_auth grant_of bearer has_prefix parse_jwt after_connect
    same_route same_connection Store.connect valid_comet Store.unix_milli Store.route_lease
    valid_instance Script.read Script.is_stored run step Script.connect Script.register
    Script.grant_instance Script.save valid_connection valid_token Script.current Script.same
    Script.valid_owner Store.connection_record valid_id valid_uuid ℕ_discrete Str-discrete
    Script.is_instance Script.is_uuid Script.is_timestamp Script.is_user Script.is_token
join_ok = refl

abbrev no_kicks : List (Option ConnectionIdentity)
no_kicks = []

connect-kicks_example :
    (1 ≤ kick_capacity)
    × ((((some held ∷ []) ≡ [])
          × ((some (lease_of held) ≡ none)
              ⊎ ((o : RouteLease) × (some (lease_of held) ≡ some o)
                  × (same_route o.identity (some other) ≡ true))
              ⊎ (length no_kicks ≡ kick_capacity)))
        ⊎ ((target : Option ConnectionIdentity) × Replaces cells keys codecs service surroundings
              (some (lease_of held))
              (lease_of other)
              target
            × (some held ∷ [] ≡ [] ++ (target ∷ []))))
connect-kicks_example =
    connect-kicks cells keys codecs service surroundings (with_token comet_1.token) (30, connected)
      (some joining) [] (some held ∷ []) rejoined (lease_of other) (some (lease_of held))
      (omega arith) join_ok

rejoined-IsReadable : IsReadable cells keys keys-IsStore 30 rejoined
unfolding Script.is_instance Script.is_uuid Script.is_user Script.is_token ℕ_discrete Str-discrete
rejoined-IsReadable =
    run-IsReadable cells keys keys-IsStore 20
      ((30, connects (record other_claim { connection = other_uuid }) (pos 30000)) ∷ []) connected
      (omega arith, (refl, refl, refl, refl, refl, omega arith), tt) connected-IsReadable

-- Another user connects at 40.
abbrev moved : Cells
moved = run cells keys ((40, connects visitor (pos 30000)) ∷ []) rejoined

moved-IsReadable : IsReadable cells keys keys-IsStore 40 moved
unfolding Script.is_instance Script.is_uuid Script.is_user Script.is_token ℕ_discrete Str-discrete
moved-IsReadable =
    run-IsReadable cells keys keys-IsStore 30 ((40, connects visitor (pos 30000)) ∷ []) rejoined
      (omega arith, (refl, refl, refl, refl, refl, omega arith), tt) rejoined-IsReadable

moved_route :
    get_cell 50 (Script.route_key cells keys other.user_id) moved
    ≡ get_cell 50 (Script.route_key cells keys other.user_id) rejoined
unfolding run step Script.valid_owner Script.connect Script.register Script.read Script.is_stored
    Script.grant_instance Script.save Script.is_instance Script.is_uuid Script.is_user
    Script.is_token Script.is_timestamp has_prefix ℕ_discrete Str-discrete
moved_route = refl

connect-submit_message_example :
    submit_message cells keys codecs service
      (with_token comet_1.token)
      surroundings
      tables
      encodings
      (50, rejoined)
      (50, moved)
      (λ _. (60, moved))
      (some hello)
      []
    ≢ ok (written ∷ [], some (told, []))
unfolding same_connection ℕ_discrete Str-discrete
connect-submit_message_example =
    connect-submit_message cells keys codecs service surroundings keys-IsStore tables encodings
      (with_token comet_1.token) (with_token comet_1.token) (30, connected) (some joining) []
      (some held ∷ []) rejoined moved (lease_of other) (some (lease_of held)) other held hello 50
      (50, rejoined) (λ _. (60, moved)) [] (written ∷ []) (some (told, []))
      (IsReadable-later cells keys keys-IsStore 20 30 connected (omega arith) connected-IsReadable)
      (IsReadable-later cells keys keys-IsStore 40 50 moved (omega arith) moved-IsReadable)
      moved_route join_ok refl (omega arith)
      (stamp (unix_epoch + 30000 * 1_000_000), refl, omega arith) refl refl refl
