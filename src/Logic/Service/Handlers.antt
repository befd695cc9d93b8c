-- ===== src/Logic/Service/Handlers.antt =====
-- internal/logic/service.go: the handlers. Time-outs and failures of Redis itself are left out.
use fable.Prelude.{
  ℕ, Str, Bool, false, not, ◌&&◌, ◌||◌, Option, none, some, List, [], ◌∷◌, ◌++◌, ◌==◌, ltb, leb,
  length, str_eq, nat_eq, if◌then◌else◌, Result, ok, err, ◌>>=◌, ◌>>◌, guard,
}
use fable.Wire.{
  Timestamp, Codecs, ConnectionIdentity, CometLease, RouteLease, RouteLookupResult, lease,
  CometResolution, ConditionalDeleteOutcome,
}
use fable.Wire.Identity.{valid_id, valid_uuid, same_connection}
use fable.Wire.Push.{PushTask}
use fable.Wire.Status.{Status, not_authenticated}
use fable.Wire.Requests.{
  RegisterCometRequest, RenewCometRequest, UnregisterCometRequest, ConnectRequest, HeartbeatRequest,
  DisconnectRequest, SubmitMessageRequest, LookupRoutesRequest, ResolveCometsRequest,
}
use fable.Logic.Service.{
  Grant, Service, serves, claim_of, comet_auth, job_auth, Failure, routing, messages, map_error,
  invalid_request, valid_request_id,
}
use fable.Logic.Routing
use fable.Logic.Routing.{Redis, Keys}
use fable.Logic.Routing.Store
use fable.Logic.Messages
use fable.Logic.Messages.{Input}
use fable.Logic.Messages.Save.{Tables, Encodings, save, save_ai}
use fable.Logic.Dispatch.{Saved, SendResult, Published, dispatch}

-- internal/auth/jwt.go: Claims, with the expiry that WithExpirationRequired insists on.
pub record Claims : Type 0 where
  pub user_uuid : Str
  pub expires_at : Timestamp

-- What the service calls: the callback UserExists, jwt.ParseWithClaims with its key function (asked
-- whether the method is HS256) and the mark `Valid`, json.Marshal, the publisher, uuid.NewString.
pub record Surroundings : Type 0 where
  pub user_exists : Str → Result Failure Bool
  pub parse_with_claims : (Bool → Option Str) → Str → Option (Bool × Claims)
  pub marshal : PushTask → Option Str
  pub publish : ℕ → Str → Published
  pub new_uuid : Str

-- ParseJWT
unfoldable pub parse_jwt : Surroundings → Str → Str → Option Claims
parse_jwt x raw key =
    elim (x.parse_with_claims (λ is_hs256. if is_hs256 then some key else none) raw) [
      | none ↦ none
      | some (valid, claims) ↦ if not valid || claims.user_uuid == [] then none else some claims
    ]

-- sameConnection
unfoldable pub same_route : Option ConnectionIdentity → Option ConnectionIdentity → Bool
unfolding same_connection
same_route (some a) (some b) = same_connection a b
same_route _ _ = false

abbrev pub kick_capacity : ℕ
kick_capacity = 128

-- The targets that wait in the channel `kicks`, behind a Connect.
unfoldable pub after_connect :
    RouteLease
    → Option RouteLease
    → List (Option ConnectionIdentity)
    → List (Option ConnectionIdentity)
unfolding same_route
after_connect route none kicks = kicks
after_connect route (some old) kicks =
    if same_route old.identity route.identity
    then kicks
    else if ltb (length kicks) kick_capacity
    then kicks ++ (old.identity ∷ [])
    else kicks

-- `if e != nil { return nil, mapError(e, id) }`, of an error of the routing or the message store.
abbrev pub routed {ℓ} : {A : Type ℓ} → Str → Result Routing.Error A → Result Status A
routed id (ok a) = ok a
routed id (err e) = err (map_error (routing e) id)

abbrev pub stored {ℓ} : {A : Type ℓ} → Str → Result Messages.Error A → Result Status A
stored id (ok a) = ok a
stored id (err e) = err (map_error (messages e) id)

-- A handler's call of Redis meets a time and a database: others may have acted since its last call.
-- A handler that writes does so in its last call; what it answers comes with the database behind it.
module _ (R : Redis) (K : Keys) (c : Codecs) (s : Service) (header : List Str) where
  open R use {Db}

  abbrev pub Met : Type 0
  Met = ℕ × Db

  unfoldable pub register_comet :
      Met → Option RegisterCometRequest → Result Status (Db × CometLease)
  unfolding valid_request_id
  register_comet met none = err (invalid_request [])
  register_comet met (some r) = do
    grant ← comet_auth s header (claim_of r.identity)
    guard (valid_request_id r.request_id && r.rpc_address == grant.rpc_address) (invalid_request [])
    routed r.request_id (Store.register R K c met.0 r.identity r.rpc_address met.1)

  unfoldable pub renew_comet : Met → Option RenewCometRequest → Result Status (Db × CometLease)
  unfolding valid_request_id
  renew_comet met none = err (invalid_request [])
  renew_comet met (some r) = do
    grant ← comet_auth s header (claim_of r.identity)
    guard (valid_request_id r.request_id) (invalid_request [])
    routed r.request_id (Store.renew R K c met.0 r.identity r.is_draining met.1)

  unfoldable pub unregister_comet :
      Met → Option UnregisterCometRequest → Result Status (Db × ConditionalDeleteOutcome)
  unfolding valid_request_id
  unregister_comet met none = err (invalid_request [])
  unregister_comet met (some r) = do
    grant ← comet_auth s header (claim_of r.identity)
    guard (valid_request_id r.request_id) (invalid_request [])
    routed r.request_id (Store.unregister R K c met.0 r.identity met.1)

  -- connectionAuth. (A lease of the store has an identity.)
  unfoldable pub connection_auth : Met → Option ConnectionIdentity → Result Status Grant
  connection_auth met none = err (invalid_request [])
  connection_auth met (some id) = do
    grant ← comet_auth s header (serves id.instance_id)
    leases ← routed [] (Store.resolve R K c met.0 (id.instance_id ∷ []) met.1)
    let not_registered : Result Status Grant = err (map_error (routing Routing.not_registered) [])
    elim leases [
      | item ∷ [] ↦ elim item.state [
        | lease (some l) ↦ elim l.identity [
          | some comet ↦
              if comet.boot_id == grant.identity.boot_id then ok grant else not_registered
          | none ↦ not_registered
        ]
        | _ ↦ not_registered
      ]
      | _ ↦ not_registered
    ]

  unfoldable pub heartbeat : Met → Met → Option HeartbeatRequest → Result Status (Db × RouteLease)
  unfolding valid_request_id connection_auth
  heartbeat resolving met none = err (invalid_request [])
  heartbeat resolving met (some r) = do
    guard (valid_request_id r.request_id) (invalid_request [])
    grant ← connection_auth resolving r.identity
    routed r.request_id (Store.heartbeat R K c met.0 r.identity met.1)

  unfoldable pub disconnect :
      Met → Option DisconnectRequest → Result Status (Db × ConditionalDeleteOutcome)
  unfolding valid_request_id
  disconnect met none = err (invalid_request [])
  disconnect met (some r) = do
    guard (valid_request_id r.request_id) (invalid_request [])
    grant ← elim r.identity [
      | none ↦ err (invalid_request [])
      | some id ↦ comet_auth s header (serves id.instance_id)
    ]
    routed r.request_id (Store.disconnect R K c met.0 r.identity met.1)

  unfoldable pub lookup_routes :
      Met → Option LookupRoutesRequest → Result Status (List RouteLookupResult)
  unfolding job_auth valid_request_id
  lookup_routes met none = do job_auth s header; err (invalid_request [])
  lookup_routes met (some r) = do
    job_auth s header
    guard (valid_request_id r.request_id) (invalid_request [])
    routed r.request_id (Store.lookup_routes R K c met.0 r.user_ids met.1)

  unfoldable pub resolve_comets :
      Met → Option ResolveCometsRequest → Result Status (List CometResolution)
  unfolding job_auth valid_request_id
  resolve_comets met none = do job_auth s header; err (invalid_request [])
  resolve_comets met (some r) = do
    job_auth s header
    guard (valid_request_id r.request_id) (invalid_request [])
    routed r.request_id (Store.resolve R K c met.0 r.instance_ids met.1)

  module _ (x : Surroundings) where
    -- Connect: the database, the answer, and the kicks that wait.
    unfoldable pub connect :
        Met
        → Option ConnectRequest
        → List (Option ConnectionIdentity)
        → Result Status (Db × ((RouteLease × Option RouteLease) × List (Option ConnectionIdentity)))
    unfolding valid_request_id parse_jwt after_connect valid_id
    connect met none kicks = err (invalid_request [])
    connect met (some r) kicks = do
      grant ← comet_auth s header (claim_of r.comet)
      guard (valid_request_id r.request_id && leb (length r.user_jwt) 8192) (invalid_request [])
      claims ← elim (parse_jwt x r.user_jwt s.jwt_key) [
        | none ↦ err (not_authenticated r.request_id)
        | some claims ↦
            if valid_id c claims.user_uuid b'U'
            then ok claims
            else err (not_authenticated r.request_id)
      ]
      exists ← elim (x.user_exists claims.user_uuid) [
        | ok exists ↦ ok exists
        | err e ↦ err (map_error e r.request_id)
      ]
      guard exists (not_authenticated r.request_id)
      (db', routes) ← routed r.request_id (
          Store.connect R K c met.0 r.comet claims.user_uuid r.connection_id r.route_token
            claims.expires_at met.1)
      ok (db', (routes, after_connect routes.0 routes.1 kicks))

    module _ (T : Tables) (e : Encodings) where
      -- s.dispatch, whose lookup for the chunk of a number meets `lookups`.
      unfoldable pub dispatch_saved :
          (ℕ → Met) → Str → Saved → Str → Option (SendResult × List PushTask)
      dispatch_saved lookups client_id saved request_id =
          dispatch
            record {
              lookup_routes = λ n ids.
                  elim (Store.lookup_routes R K c (lookups n).0 ids (lookups n).1) [
                    | ok routes ↦ some routes
                    | err _ ↦ none
                  ];
              marshal = x.marshal;
              publish = x.publish;
            }
            client_id saved request_id

      -- SubmitMessage: the tables behind it, and what the dispatch answers.
      unfoldable pub submit_message :
          Met
          → Met
          → (ℕ → Met)
          → Option SubmitMessageRequest
          → T.Db
          → Result Status (T.Db × Option (SendResult × List PushTask))
      unfolding valid_request_id valid_uuid connection_auth dispatch_saved
      submit_message resolving checking lookups none db = err (invalid_request [])
      submit_message resolving checking lookups (some r) db = do
        guard
            (valid_request_id r.request_id
              && (valid_uuid c r.client_message_id
                  && (not (r.content == [])
                      && (leb (length r.content) 16384 && c.utf8_valid r.content))))
            (invalid_request [])
        grant ← connection_auth resolving r.identity
        checked ← routed r.request_id (Store.check R K c checking.0 r.identity checking.1)
        let sender : Str = elim r.identity [ none ↦ [] | some id ↦ id.user_id ]
        let input : Input = record {
          sender_id = sender;
          client_message_id = r.client_message_id;
          destination = r.destination;
          content = r.content;
        }
        (db', saved) ← stored r.request_id (save T e c input db)
        ok (db', dispatch_saved lookups r.client_message_id saved r.request_id)

      -- SendAI, with the answer of Ping.
      unfoldable send_ai :
          Result Failure (Unit {0})
          → Str
          → Str
          → Str
          → Str
          → (ℕ → Met)
          → Str
          → T.Db
          → Result Failure (T.Db × Option (SendResult × List PushTask))
      unfolding save_ai dispatch_saved
      send_ai ping user session client_id content lookups request_id db = do
        ping
        let client : Str = if client_id == [] then x.new_uuid else client_id
        (db', saved) ← elim (save_ai T e c user session client content db) [
          | ok r ↦ ok r
          | err e ↦ err (messages e)
        ]
        ok (db', dispatch_saved lookups client saved request_id)
