-- ===== src/Wire.antt =====
-- The protobuf messages that the roles exchange (api/proto/fable/v1), and what the roles take from
-- libraries outside the repository. A pointer that may be nil is an `Option`.
pub mod Identity
pub mod Push
pub mod Status
pub mod Requests
use fable.Prelude.{Str, ℕ, ◌*◌, Bool, true, Option, none, some}

-- Nanoseconds since year 1, the least time that a Timestamp can hold and Go's zero `time.Time`.
abbrev pub Time : Type 0
Time = ℕ

-- A `timestamppb.Timestamp`: the time that `AsTime` gives, and whether `CheckValid` accepts it.
pub record Timestamp : Type 0 where
  pub as_time : Time
  pub check_valid : Bool

-- timestamppb.New, of a time that a Timestamp can hold.
abbrev pub stamp : Time → Timestamp
stamp t = record { as_time = t; check_valid = true }

-- 1970 in nanoseconds since year 1.
abbrev pub unix_epoch : Time
unix_epoch = 62135596800 * 1_000_000_000

-- `AsTime` of a pointer: that of a missing Timestamp is 1970.
abbrev pub as_time : Option Timestamp → Time
as_time none = unix_epoch
as_time (some t) = t.as_time

pub record CometIdentity : Type 0 where
  pub instance_id : Str
  pub boot_id : Str

pub record ConnectionIdentity : Type 0 where
  pub user_id : Str
  pub instance_id : Str
  pub connection_id : Str
  pub route_token : Str

pub data ReceiveType : Type 0 where
  receive_unspecified receive_user receive_group : ReceiveType

pub data MessageType : Type 0 where
  message_unspecified message_text : MessageType

pub data MessageOrigin : Type 0 where
  origin_unspecified origin_user origin_ai : MessageOrigin

pub record Destination : Type 0 where
  pub receive_type : ReceiveType
  pub receive_id : Str

pub record MessageView : Type 0 where
  pub message_id : Str
  pub conversation_id : Str
  pub session_id : Str
  pub sender_id : Str
  pub destination : Option Destination
  pub message_type : MessageType
  pub content : Str
  pub origin : MessageOrigin
  pub created_at : Option Timestamp
  pub position : ℕ  -- uint64

pub data DeliveryOutcome : Type 0 where
  enqueued duplicate not_found stale queue_full draining : DeliveryOutcome

pub record DeliveryResult : Type 0 where
  pub target : ConnectionIdentity
  pub outcome : DeliveryOutcome

pub data ConditionalDeleteOutcome : Type 0 where
  deleted not_current missing : ConditionalDeleteOutcome

pub record CometLease : Type 0 where
  pub identity : Option CometIdentity
  pub rpc_address : Str
  pub draining_lease : Bool
  pub lease_deadline : Option Timestamp

pub record RouteLease : Type 0 where
  pub identity : Option ConnectionIdentity
  pub auth_expires_at : Option Timestamp
  pub lease_deadline : Option Timestamp

-- The `oneof state` of a RouteLookupResult; the reasons are the enum's numbers.
pub data RouteState : Type 0 where
  no_state : RouteState
  route : Option RouteLease → RouteState
  offline : ℕ → RouteState

pub record RouteLookupResult : Type 0 where
  pub user_id : Str
  pub state : RouteState

pub data ResolutionState : Type 0 where
  no_state : ResolutionState
  lease : Option CometLease → ResolutionState
  absent : ℕ → ResolutionState

pub record CometResolution : Type 0 where
  pub instance_id : Str
  pub state : ResolutionState

-- github.com/google/uuid, unicode/utf8 and encoding/base64 and net, as far as the roles call them.
pub record Codecs : Type 0 where
  pub uuid_validate : Str → Bool
  pub utf8_valid : Str → Bool
  pub raw_url_decode : Str → Option Str
  pub raw_url_encode : Str → Str
  -- net.SplitHostPort
  pub split_host_port : Str → Option (Str × Str)
