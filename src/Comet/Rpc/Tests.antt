-- ===== src/Comet/Rpc/Tests.antt =====
-- The calls on a Comet that has just begun.
use fable.Prelude.{pos, Str, true, none, some, List, [], ◌∷◌, ◌++◌, text}
use fable.Wire.{Codecs, CometIdentity, stamp}
use fable.Comet.Hub.{Hub, new_hub}
use fable.Comet.Rpc.{
  RpcCredentials, DeliverRequest, KickRequest, replaced, waits, DrainRequest, handle_deliver,
  handle_kick, handle_drain,
}
use fable.Comet.Rpc.Fencing.{Fenced, comet_of, handle-Fenced}

abbrev codecs : Codecs
codecs = record {
  uuid_validate = λ _. true;
  utf8_valid = λ _. true;
  raw_url_decode = λ s. some s;
  raw_url_encode = λ s. s;
  split_host_port = λ s. none;
}

abbrev home : CometIdentity
home = record {
  instance_id = text "comet-1";
  boot_id = text "11111111-1111-1111-1111-111111111111";
}

abbrev hub : Hub
hub = new_hub home (pos 4)

abbrev credentials : RpcCredentials
credentials = record {
  job_token = text "job-job-job-job-job-job-job-job-job";
  logic_token = text "logic-logic-logic-logic-logic-logic";
  admin_token = text "admin-admin-admin-admin-admin-admin";
}

abbrev header : List Str
header = (text "Bearer " ++ credentials.admin_token) ∷ []

abbrev delivery : DeliverRequest
delivery = record {
  comet = some home;
  task_id = text "push:v1:M1:0";
  message = none;
  targets = [];
  request_id = [];
}

abbrev kick : KickRequest
kick = record { comet = some home; target = none; reason = replaced; request_id = [] }

abbrev drain_request : DrainRequest
drain_request = record { comet = some home; deadline = some (stamp 200); request_id = [] }

handle-Fenced_example :
    Fenced codecs credentials header credentials.job_token
      (comet_of codecs credentials header (λ q. q.comet) (some delivery))
      waits
      hub
      (handle_deliver codecs credentials header waits (λ n. n) (some delivery) hub)
    × Fenced codecs credentials header credentials.logic_token
        (comet_of codecs credentials header (λ q. q.comet) (some kick))
        waits
        hub
        (handle_kick codecs credentials header waits (some kick) hub)
    × Fenced codecs credentials header credentials.admin_token
        (comet_of codecs credentials header (λ q. q.comet) (some drain_request))
        waits
        hub
        (handle_drain codecs credentials header waits 100 (some drain_request) hub)
handle-Fenced_example =
    handle-Fenced codecs credentials header waits (λ n. n) 100 (some delivery) (some kick)
      (some drain_request) hub
