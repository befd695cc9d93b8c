-- ===== src/Logic/Routing/Store.antt =====
-- internal/logic/routing/store.go: the checks before the script is run, and the replies after it.
use fable.Prelude.{
  ℕ, ℤ, pos, negsuc, ◌+◌, ◌-◌, ◌*◌, ◌/◌, Str, Bool, true, false, not, ◌&&◌, ◌||◌, Option, none,
  some, List, [], ◌∷◌, ◌++◌, ◌==◌, ltb, leb, length, any, contains, str_eq, nat_eq, text,
  canonical_decimal, if◌then◌else◌, Result, ok, err, ◌>>=◌, ◌>>◌, guard,
}
use fable.Wire.{
  Time, Timestamp, stamp, unix_epoch, Codecs, CometIdentity, ConnectionIdentity, CometLease,
  RouteLease, RouteLookupResult, route, offline, CometResolution, lease, absent,
  ConditionalDeleteOutcome,
}
use fable.Wire.Identity.{valid_id, valid_instance, valid_comet, valid_connection}
use fable.Logic.Routing.{Error, invalid, dependency, Lease, Redis, Keys}
use fable.Logic.Routing.Script
use fable.Logic.Routing.Script.{Found}

-- Milliseconds of a lease time in nanoseconds, rounded up; zero means a minute.
unfoldable pub ttl_millis : ℕ → ℕ
ttl_millis d = ((if d == 0 then 60_000_000_000 else d) - 1) / 1_000_000 + 1

-- "{}\r\n\x00"
abbrev key_breakers : Str
key_breakers = 123 ∷ 125 ∷ 13 ∷ 10 ∷ 0 ∷ []

-- New, for a client that is there and lease times that are not negative.
unfoldable pub new_store : Str → ℕ → ℕ → Result Error Keys
unfolding ttl_millis
new_store prefix instance_ttl route_ttl =
    if ltb 256 (length prefix) || any (contains key_breakers) prefix
    then err invalid
    else (let base = prefix ++ text "{logic-routing}:" in
        ok (record {
          instances = base ++ text "instance:";
          routes = base ++ text "route:";
          instance_ttl = ttl_millis instance_ttl;
          route_ttl = ttl_millis route_ttl;
        }))

-- time.UnixMilli
abbrev from_unix_milli : ℕ → Time
from_unix_milli ms = unix_epoch + ms * 1_000_000

-- t.UnixMilli(), rounded down.
unfoldable pub unix_milli : Time → ℤ
unix_milli t =
    if ltb t unix_epoch
    then negsuc ((unix_epoch - t - 1) / 1_000_000)
    else pos ((t - unix_epoch) / 1_000_000)

-- "/@?#\r\n\t "
abbrev address_breakers : Str
address_breakers = 47 ∷ 64 ∷ 63 ∷ 35 ∷ 13 ∷ 10 ∷ 9 ∷ 32 ∷ []

abbrev pub blank : Lease
blank = record {
  user = [];
  instance_name = [];
  boot = [];
  connection = [];
  token = [];
  address = [];
  is_draining = false;
  auth = 0;
  deadline = 0;
}

unfoldable pub instance_record : CometIdentity → Str → Bool → Lease
instance_record id address is_draining = record blank {
  instance_name = id.instance_id;
  boot = id.boot_id;
  address = address;
  is_draining = is_draining;
}

unfoldable pub connection_record : ConnectionIdentity → Lease
connection_record id = record blank {
  user = id.user_id;
  instance_name = id.instance_id;
  connection = id.connection_id;
  token = id.route_token;
}

unfoldable pub comet_lease : Lease → CometLease
comet_lease r = record {
  identity = some (record { instance_id = r.instance_name; boot_id = r.boot });
  rpc_address = r.address;
  draining_lease = r.is_draining;
  lease_deadline = some (stamp (from_unix_milli r.deadline));
}

unfoldable pub route_lease : Lease → RouteLease
route_lease r = record {
  identity = some (record {
    user_id = r.user;
    instance_id = r.instance_name;
    connection_id = r.connection;
    route_token = r.token;
  });
  auth_expires_at = some (stamp (from_unix_milli r.auth));
  lease_deadline = some (stamp (from_unix_milli r.deadline));
}

-- The loop of validBatch; `seen` holds the ids before.
unfoldable pub batch_loop : (Str → Bool) → List Str → List Str → Bool
batch_loop valid seen [] = true
batch_loop valid seen (id ∷ ids) =
    let rest = batch_loop valid (id ∷ seen) ids in
    if not (valid id) || contains seen id then false else rest

unfoldable pub valid_batch : (Str → Bool) → List Str → Bool
unfolding batch_loop
valid_batch valid ids =
    if ltb (length ids) 1 || ltb 100 (length ids) then false else batch_loop valid [] ids

module _ (R : Redis) (K : Keys) (c : Codecs) where
  open R use {Db}

  unfoldable pub valid_address : Str → Bool
  valid_address a =
      if ltb 512 (length a) || any (contains address_breakers) a
      then false
      else elim (c.split_host_port a) [
        | none ↦ false
        | some (host, port) ↦
            not (host == [])
            && elim (canonical_decimal port) [ none ↦ false | some n ↦ ltb 0 n && leb n 65535 ]
      ]

  unfoldable pub register : ℕ → Option CometIdentity → Str → Db → Result Error (Db × CometLease)
  unfolding valid_address instance_record comet_lease
  register now none address db = err invalid
  register now (some id) address db = do
    guard (valid_comet c (some id) && valid_address address) invalid
    (db', r) ← Script.register R K now (instance_record id address false) db
    ok (db', comet_lease r)

  unfoldable pub renew : ℕ → Option CometIdentity → Bool → Db → Result Error (Db × CometLease)
  unfolding instance_record comet_lease
  renew now none is_draining db = err invalid
  renew now (some id) is_draining db = do
    guard (valid_comet c (some id)) invalid
    (db', r) ← Script.renew R K now (instance_record id [] is_draining) db
    ok (db', comet_lease r)

  unfoldable pub unregister :
      ℕ → Option CometIdentity → Db → Result Error (Db × ConditionalDeleteOutcome)
  unfolding instance_record
  unregister now none db = err invalid
  unregister now (some id) db = do
    guard (valid_comet c (some id)) invalid
    Script.unregister R K now (instance_record id [] false) db

  -- `authExpires`, with what `timestamppb.New` and `CheckValid` make of it.
  unfoldable pub connect :
      ℕ
      → Option CometIdentity
      → Str
      → Str
      → Str
      → Timestamp
      → Db
      → Result Error (Db × (RouteLease × Option RouteLease))
  unfolding connection_record route_lease unix_milli
  connect now none user connection token auth db = err invalid
  connect now (some id) user connection token auth db = do
    let identity : ConnectionIdentity = record {
      user_id = user;
      instance_id = id.instance_id;
      connection_id = connection;
      route_token = token;
    }
    guard
        (valid_comet c (some id)
          && (valid_connection c (some identity) && (not (auth.as_time == 0) && auth.check_valid)))
        invalid
    (db', granted) ←
        Script.connect R K now (record (connection_record identity) { boot = id.boot_id })
          (unix_milli auth.as_time) db
    ok (
      db',
      (route_lease granted.0, elim granted.1 [ none ↦ none | some old ↦ some (route_lease old) ]),
    )

  -- `route`, for Heartbeat and Check.
  unfoldable pub heartbeat : ℕ → Option ConnectionIdentity → Db → Result Error (Db × RouteLease)
  unfolding connection_record route_lease
  heartbeat now none db = err invalid
  heartbeat now (some id) db = do
    guard (valid_connection c (some id)) invalid
    (db', r) ← Script.heartbeat R K now (connection_record id) db
    ok (db', route_lease r)

  unfoldable pub check : ℕ → Option ConnectionIdentity → Db → Result Error (Db × RouteLease)
  unfolding connection_record route_lease
  check now none db = err invalid
  check now (some id) db = do
    guard (valid_connection c (some id)) invalid
    (db', r) ← Script.check R K now (connection_record id) db
    ok (db', route_lease r)

  unfoldable pub disconnect :
      ℕ → Option ConnectionIdentity → Db → Result Error (Db × ConditionalDeleteOutcome)
  unfolding connection_record
  disconnect now none db = err invalid
  disconnect now (some id) db = do
    guard (valid_connection c (some id)) invalid
    Script.disconnect R K now (connection_record id) db

-- The loops over the script's results.
unfoldable pub route_results : List Found → Result Error (List RouteLookupResult)
unfolding route_lease
route_results [] = ok []
route_results (item ∷ items) = do
  state ← elim item.state [
    | ok r ↦ ok (route (some (route_lease r)))
    | err reason ↦ if leb 1 reason && leb reason 3 then ok (offline reason) else err dependency
  ]
  rest ← route_results items
  ok (record { user_id = item.id; state = state } ∷ rest)

unfoldable pub resolution_results : List Found → Result Error (List CometResolution)
unfolding comet_lease
resolution_results [] = ok []
resolution_results (item ∷ items) = do
  state ← elim item.state [
    | ok r ↦ ok (lease (some (comet_lease r)))
    | err reason ↦ if leb 1 reason && leb reason 2 then ok (absent reason) else err dependency
  ]
  rest ← resolution_results items
  ok (record { instance_id = item.id; state = state } ∷ rest)

module _ (R : Redis) (K : Keys) (c : Codecs) where
  open R use {Db}

  unfoldable pub lookup_routes : ℕ → List Str → Db → Result Error (List RouteLookupResult)
  unfolding valid_batch route_results
  lookup_routes now ids db = do
    guard (valid_batch (λ id. valid_id c id b'U') ids) invalid
    found ← Script.lookup_routes R K now ids db
    guard (length found == length ids) dependency
    route_results found

  unfoldable pub resolve : ℕ → List Str → Db → Result Error (List CometResolution)
  unfolding valid_batch resolution_results
  resolve now ids db = do
    guard (valid_batch valid_instance ids) invalid
    found ← Script.resolve R K now ids db
    guard (length found == length ids) dependency
    resolution_results found
