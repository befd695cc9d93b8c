-- ===== src/Wire/Requests.antt =====
-- The requests of Logic's RPC service (api/proto/fable/v1/logic.proto).
use fable.Prelude.{Str, Bool, Option, List}
use fable.Wire.{CometIdentity, ConnectionIdentity, Destination}

pub record RegisterCometRequest : Type 0 where
  pub identity : Option CometIdentity
  pub rpc_address : Str
  pub request_id : Str

pub record RenewCometRequest : Type 0 where
  pub identity : Option CometIdentity
  pub is_draining : Bool
  pub request_id : Str

pub record UnregisterCometRequest : Type 0 where
  pub identity : Option CometIdentity
  pub request_id : Str

pub record ConnectRequest : Type 0 where
  pub comet : Option CometIdentity
  pub connection_id : Str
  pub route_token : Str
  pub user_jwt : Str
  pub request_id : Str

pub record HeartbeatRequest : Type 0 where
  pub identity : Option ConnectionIdentity
  pub request_id : Str

pub record DisconnectRequest : Type 0 where
  pub identity : Option ConnectionIdentity
  pub request_id : Str

pub record SubmitMessageRequest : Type 0 where
  pub identity : Option ConnectionIdentity
  pub client_message_id : Str
  pub destination : Option Destination
  pub content : Str
  pub request_id : Str

pub record LookupRoutesRequest : Type 0 where
  pub user_ids : List Str
  pub request_id : Str

pub record ResolveCometsRequest : Type 0 where
  pub instance_ids : List Str
  pub request_id : Str
