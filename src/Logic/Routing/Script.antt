-- ===== src/Logic/Routing/Script.antt =====
-- The Lua program of internal/logic/routing/scripts.go, which Redis runs as one step at the time
-- `now`. Every error of the script comes before its one write, so an error leaves the database alone.
use fable.Prelude.{
  ℕ, zero, suc, ℤ, pos, negsuc, pos_part, ◌+◌, ◌-◌, ◌%◌, min, Str, Bool, true, false, not, ◌&&◌,
  ◌||◌, Option, none, some, List, [], ◌∷◌, ◌++◌, ◌==◌, ltb, leb, length, get_elem?, all, contains,
  in_range, str_eq, nat_eq, text, has_prefix, if◌then◌else◌, Result, ok, err, ◌>>=◌, ◌>>◌, guard,
}
use fable.Wire.{ConditionalDeleteOutcome, deleted, not_current, missing}
use fable.Wire.Identity.{nil_uuid, instance_char}
use fable.Logic.Routing.{
  Error, conflict, not_registered, superseded, lease_expired, draining, dependency, Lease, Redis,
  Keys,
}

abbrev hex_char : ℕ → Bool
hex_char c = in_range 48 57 c || in_range 65 70 c || in_range 97 102 c

-- v:gsub('-','')
without_dashes : Str → Str
without_dashes [] = []
without_dashes (c ∷ s) = if c == 45 then without_dashes s else c ∷ without_dashes s

abbrev has_char : Str → ℕ → ℕ → Bool
has_char v i c = elim (get_elem? v i) [ none ↦ false | some d ↦ d == c ]

-- uuid(v)
unfoldable pub is_uuid : Str → Bool
unfolding without_dashes
is_uuid v =
    length v == 36
    && (not (v == nil_uuid)
        && ((has_char v 8 45 && (has_char v 13 45 && (has_char v 18 45 && has_char v 23 45)))
            && (length (without_dashes v) == 32 && all hex_char (without_dashes v))))

-- instanceid(v)
unfoldable pub is_instance : Str → Bool
is_instance v = leb 1 (length v) && (leb (length v) 64 && all instance_char v)

-- The last millisecond of the year 9999.
abbrev pub max_timestamp : ℕ
max_timestamp = 253402300799999

-- timestamp(v)
unfoldable pub is_timestamp : ℕ → Bool
is_timestamp v = ltb 0 v && leb v max_timestamp

abbrev url_char : ℕ → Bool
url_char c = in_range 65 90 c || (in_range 97 122 c || (in_range 48 57 c || (c == 95 || c == 45)))

last_in : Str → Str → Bool
last_in v set = elim (get_elem? v (length v - 1)) [ none ↦ false | some c ↦ contains set c ]

-- token(v)
unfoldable pub is_token : Str → Bool
unfolding last_in
is_token v =
    leb 22 (length v)
    && (leb (length v) 128
        && (all url_char v
            && (let mod4 = length v % 4 in
                if mod4 == 1
                then false
                else if mod4 == 2
                then last_in v (text "AQgw")
                else if mod4 == 3
                then last_in v (text "AEIMQUYcgkosw048")
                else true)))

-- v:sub(1,1)=='U' and uuid(v:sub(2)), for a text of 37 bytes
unfoldable pub is_user : Str → Bool
unfolding is_uuid
is_user [] = false
is_user (c ∷ rest) = length (c ∷ rest) == 37 && (c == b'U' && is_uuid rest)

-- live(v)
abbrev pub live : ℕ → Lease → Bool
live now v = ltb now v.deadline

-- same(a,b)
unfoldable pub same : Lease → Lease → Bool
same a b =
    a.user == b.user
    && (a.instance_name == b.instance_name && (a.connection == b.connection && a.token == b.token))

module _ (R : Redis) (K : Keys) where
  open R use {Db, get, set_px, del}

  abbrev pub instance_key : Str → Str
  instance_key id = K.instances ++ id

  abbrev pub route_key : Str → Str
  route_key user = K.routes ++ user

  -- The tests of `read` on a stored value.
  unfoldable pub is_stored : Str → Lease → Bool
  is_stored key v =
      is_instance v.instance_name
      && (is_uuid v.boot
          && (is_timestamp v.deadline
              && (if has_prefix key K.instances
                  then key == instance_key v.instance_name && not (v.address == [])
                  else is_user v.user
                    && (key == route_key v.user
                        && (is_uuid v.connection
                            && (is_token v.token
                                && (is_timestamp v.auth && leb v.deadline v.auth)))))))

  -- read(key): the script stops on a value that it could not have written.
  unfoldable pub read : ℕ → Str → Db → Result Error (Option Lease)
  read now key db = elim (get now key db) [
    | none ↦ ok none
    | some v ↦ if is_stored key v then ok (some v) else err dependency
  ]

  -- save(key,v)
  unfoldable pub save : ℕ → Str → Lease → Db → Db
  save now key v db = set_px now key v (v.deadline - now) db

  -- validinstance(r)
  unfoldable pub valid_owner : ℕ → Lease → Db → Result Error Bool
  valid_owner now r db = do
    i ← read now (instance_key r.instance_name) db
    ok (elim i [ none ↦ false | some i ↦ live now i && i.boot == r.boot ])

  unfoldable pub grant_instance : ℕ → Str → Lease → Bool → Db → Result Error (Db × Lease)
  grant_instance now key p is_draining db =
      let lease : Lease = record p { is_draining = is_draining; deadline = now + K.instance_ttl } in
      ok (save now key lease db, lease)

  -- op=='register'
  unfoldable pub register : ℕ → Lease → Db → Result Error (Db × Lease)
  unfolding grant_instance
  register now p db = do
    found ← read now (instance_key p.instance_name) db
    elim found [
      | none ↦ grant_instance now (instance_key p.instance_name) p false db
      | some old ↦
          if live now old
          then if old.boot == p.boot && old.address == p.address
            then grant_instance now (instance_key p.instance_name) p old.is_draining db
            else err conflict
          else grant_instance now (instance_key p.instance_name) p false db
    ]

  -- op=='renew'
  unfoldable pub renew : ℕ → Lease → Db → Result Error (Db × Lease)
  unfolding grant_instance
  renew now p db = do
    found ← read now (instance_key p.instance_name) db
    elim found [
      | none ↦ err not_registered
      | some old ↦
          if live now old && old.boot == p.boot
          then grant_instance now (instance_key p.instance_name) old
              (old.is_draining || p.is_draining) db
          else err not_registered
    ]

  -- op=='unregister' and op=='disconnect': the test of the caller's claim is what differs.
  unfoldable pub release :
      ℕ → Str → (Lease → Bool) → Db → Result Error (Db × ConditionalDeleteOutcome)
  release now key owns db = do
    found ← read now key db
    elim found [
      | none ↦ ok (db, missing)
      | some old ↦
          if live now old
          then if owns old then ok (del key db, deleted) else ok (db, not_current)
          else ok (db, missing)
    ]

  unfoldable pub unregister : ℕ → Lease → Db → Result Error (Db × ConditionalDeleteOutcome)
  unfolding release
  unregister now p db = release now (instance_key p.instance_name) (λ old. old.boot == p.boot) db

  unfoldable pub disconnect : ℕ → Lease → Db → Result Error (Db × ConditionalDeleteOutcome)
  unfolding release
  disconnect now p db = release now (route_key p.user) (λ old. same old p) db

  -- `previous` of a connect: a route that is still good.
  abbrev unexpired : ℕ → Option Lease → Option Lease
  unexpired now none = none
  unexpired now (some old) = if live now old && ltb now old.auth then some old else none

  -- `tonumber(p.auth)-now<=5000`. Go leaves an `auth` of 0 out, and then the script fails.
  abbrev lasts : ℕ → ℤ → Result Error (Unit {0})
  lasts now (pos zero) = err dependency
  lasts now (pos (suc n)) = guard (ltb (now + 5000) (suc n)) lease_expired
  lasts now (negsuc n) = err lease_expired

  -- op=='connect'
  unfoldable pub connect : ℕ → Lease → ℤ → Db → Result Error (Db × (Lease × Option Lease))
  connect now p auth db = do
    found ← read now (instance_key p.instance_name) db
    guard (elim found [ none ↦ false | some i ↦ live now i && i.boot == p.boot ]) not_registered
    guard (elim found [ none ↦ false | some i ↦ not i.is_draining ]) draining
    lasts now auth
    old ← read now (route_key p.user) db
    let lease : Lease = record p {
      auth = pos_part auth;
      deadline = min (now + K.route_ttl) (pos_part auth);
    }
    ok (save now (route_key p.user) lease db, (lease, unexpired now old))

  -- The tests that op=='check' and op=='heartbeat' share.
  unfoldable pub current : ℕ → Lease → Db → Result Error Lease
  current now p db = do
    found ← read now (route_key p.user) db
    elim found [
      | none ↦ err lease_expired
      | some old ↦
          if not (same old p)
          then err superseded
          else if not (live now old && ltb now old.auth)
          then err lease_expired
          else (valid_owner now old db >>= λ valid. if valid then ok old else err not_registered)
    ]

  unfoldable pub check : ℕ → Lease → Db → Result Error (Db × Lease)
  check now p db = do old ← current now p db; ok (db, old)

  unfoldable pub heartbeat : ℕ → Lease → Db → Result Error (Db × Lease)
  heartbeat now p db = do
    old ← current now p db
    let lease : Lease = record old { deadline = min (now + K.route_ttl) old.auth }
    ok (save now (route_key p.user) lease db, lease)

-- One entry of `results`: a lease, or the number of the reason why there is none.
pub record Found : Type 0 where
  pub id : Str
  pub state : Result ℕ Lease

module _ (R : Redis) (K : Keys) where
  open R use {Db}

  unfoldable pub lookup_one : ℕ → Str → Db → Result Error Found
  lookup_one now id db = do
    found ← read R K now (route_key R K id) db
    elim found [
      | none ↦ ok (record { id = id; state = err 1 })
      | some r ↦
          if not (live now r && ltb now r.auth)
          then ok (record { id = id; state = err 2 })
          else (valid_owner R K now r db >>= λ valid.
              ok (record { id = id; state = if valid then ok r else err 3 }))
    ]

  -- op=='lookup'
  unfoldable pub lookup_routes : ℕ → List Str → Db → Result Error (List Found)
  unfolding lookup_one
  lookup_routes now [] db = ok []
  lookup_routes now (id ∷ ids) db = do
    r ← lookup_one now id db
    rs ← lookup_routes now ids db
    ok (r ∷ rs)

  unfoldable pub resolve_one : ℕ → Str → Db → Result Error Found
  resolve_one now id db = do
    found ← read R K now (instance_key R K id) db
    ok (record {
      id = id;
      state = elim found [ none ↦ err 1 | some i ↦ if live now i then ok i else err 2 ];
    })

  -- op=='resolve'
  unfoldable pub resolve : ℕ → List Str → Db → Result Error (List Found)
  unfolding resolve_one
  resolve now [] db = ok []
  resolve now (id ∷ ids) db = do r ← resolve_one now id db; rs ← resolve now ids db; ok (r ∷ rs)
