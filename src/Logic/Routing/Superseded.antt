-- ===== src/Logic/Routing/Superseded.antt =====
-- The fencing of connections, as Store's own callers see it.
use fable.Prelude.{
  ℕ, ◌+◌, ◌*◌, ◌≤◌, ◌<◌, ◌≡◌, ◌≢◌, refl, ap, ◌∙◌, subst, inl, inr, Str, false, Option, none, some,
  str_eq, nat_eq, arith, Result-cases, ok,
}
use fable.Wire.{Timestamp, unix_epoch, Codecs, CometIdentity, ConnectionIdentity, RouteLease}
use fable.Wire.Identity.{same_connection}
use fable.Logic.Routing.{Lease, Redis, Keys}
use fable.Logic.Routing.Script
use fable.Logic.Routing.Script.{same, route_key}
use fable.Logic.Routing.Store.{connect, check, connection_record, route_lease, unix_milli}
use fable.Logic.Routing.Stored.{IsStore, IsReadable}
use fable.Logic.Routing.Fencing.{connect_supersedes, connect-get}

module _ (R : Redis) (K : Keys) (c : Codecs) where
  open R use {Db, get}

  -- A Connect that succeeds is one of the script, of the identity and the boot that it names.
  pub record Connected (now : ℕ) (id : Option CometIdentity) (user connection token : Str)
      (auth : Timestamp) (db db' : Db) (route : RouteLease) : Type 0 where
    pub claim : Lease
    pub made : Lease
    pub previous : Option Lease
    pub claimed : claim.user ≡ user
    pub script :
        Script.connect R K now claim (unix_milli auth.as_time) db ≡ ok (db', (made, previous))
    pub route_is : route ≡ route_lease made

  connect-Connected :
      (now : ℕ) (id : Option CometIdentity) (user connection token : Str) (auth : Timestamp)
      (db db' : Db) (route : RouteLease) (old : Option RouteLease)
      → connect R K c now id user connection token auth db ≡ ok (db', (route, old))
      → Connected now id user connection token auth db db' route
  unfolding connect connection_record
  connect-Connected now none user connection token auth db db' route old h = absurd (ground arith)
  connect-Connected now (some id) user connection token auth db db' route old h =
      let identity : ConnectionIdentity = record {
        user_id = user;
        instance_id = id.instance_id;
        connection_id = connection;
        route_token = token;
      } in
      let claim : Lease = record (connection_record identity) { boot = id.boot_id } in
      elim (Result-cases (Script.connect R K now claim (unix_milli auth.as_time) db)) [
        | inr (z, k) ↦ absurd (ground (arith, h))
        | inl ((db₁, (made, previous)), k) ↦ record {
          claim = claim;
          made = made;
          previous = previous;
          claimed = refl;
          script = ground (arith, h);
          route_is = ground (arith, h);
        }
      ]

  -- The end of a lease of the store, in nanoseconds.
  abbrev pub EndsAfter : ℕ → RouteLease → Type 0
  EndsAfter t route =
      (d : Timestamp) × (route.lease_deadline ≡ some d) × (unix_epoch + t * 1_000_000 < d.as_time)

  route_lease-same :
      (made : Lease) (w q : ConnectionIdentity)
      → (route_lease made).identity ≡ some w
      → same_connection w q ≡ false
      → same made (connection_record q) ≡ false
  unfolding route_lease same same_connection connection_record
  route_lease-same made w q i h =
      let user : made.user ≡ w.user_id = ground arith in
      let name : made.instance_name ≡ w.instance_id = ground arith in
      let connection : made.connection ≡ w.connection_id = ground arith in
      let token : made.token ≡ w.route_token = ground arith in
      ground (arith, user, name, connection, token)

  route_lease-user :
      (made : Lease) (w : ConnectionIdentity)
      → (route_lease made).identity ≡ some w
      → w.user_id ≡ made.user
  unfolding route_lease
  route_lease-user made w i = ground arith

  connection_record-user : (q : ConnectionIdentity) → (connection_record q).user ≡ q.user_id
  unfolding connection_record
  connection_record-user q = refl

  route_lease-deadline : (made : Lease) (t : ℕ) → EndsAfter t (route_lease made) → t < made.deadline
  unfolding route_lease
  route_lease-deadline made t (d, is, late) =
      let at : d.as_time ≡ unix_epoch + made.deadline * 1_000_000 = ground arith in
      omega (arith, at, late)

  module _ (good : IsStore K) where
    -- Between a Connect and the end of its lease, while the route of the user is what the Connect left, no
    -- other connection of the user passes the check.
    pub connect-check :
        (now t : ℕ) (id : Option CometIdentity) (user connection token : Str) (auth : Timestamp)
        (db db' later db₂ : Db) (route found : RouteLease) (old : Option RouteLease)
        (w q : ConnectionIdentity)
        → IsReadable R K good now db
        → IsReadable R K good t later
        → get t (route_key R K w.user_id) later ≡ get t (route_key R K w.user_id) db'
        → connect R K c now id user connection token auth db ≡ ok (db', (route, old))
        → route.identity ≡ some w
        → now ≤ t
        → EndsAfter t route
        → q.user_id ≡ w.user_id
        → same_connection w q ≡ false
        → check R K c t (some q) later ≢ ok (db₂, found)
    unfolding check
    connect-check now t id user connection token auth db db' later db₂ route found old w q r r' kept
          h i l late u differ passed =
        let C = connect-Connected now id user connection token auth db db' route old h in
        let late' = route_lease-deadline C.made t (subst (EndsAfter t) C.route_is late) in
        let g =
          connect-get R K good now t C.claim (unix_milli auth.as_time) db db' C.made C.previous r
            C.script l late' in
        let i' : (route_lease C.made).identity ≡ some w = ground (arith, C.route_is) in
        let holder : w.user_id ≡ C.claim.user =
          route_lease-user C.made w i' ∙ ap (λ m. m.user) g.1 in
        let user_is : (connection_record q).user ≡ C.claim.user =
          connection_record-user q ∙ u ∙ holder in
        let kept' : get t (route_key R K C.claim.user) later
            ≡ get t (route_key R K C.claim.user) db' =
          subst (λ k. get t (route_key R K k) later ≡ get t (route_key R K k) db') holder kept in
        let refused =
          (connect_supersedes R K good now t C.claim (connection_record q) (unix_milli auth.as_time)
            db db' later C.made C.previous r r' kept' C.script l late' user_is
            (route_lease-same C.made w q i' differ)).0 in
        ground (arith, refused, passed)
