-- ===== src/Logic/Service/Replaced.antt =====
-- What a Connect does to the connection that it replaces.
use fable.Prelude.{
  ℕ, ◌≤◌, ◌≡◌, ◌≢◌, refl, subst, ◌⊎◌, inl, inr, Str, true, false, Option, none, some, List, [], ◌∷◌,
  ◌++◌, ltb, length, length-append, str_eq, nat_eq, arith, Option-cases, Result-cases, Bool-cases,
  ok,
}
use fable.Wire.{Codecs, ConnectionIdentity, RouteLease}
use fable.Wire.Identity.{same_connection}
use fable.Wire.Push.{PushTask}
use fable.Wire.Requests.{ConnectRequest, SubmitMessageRequest}
use fable.Logic.Service.{Service}
use fable.Logic.Service.Handlers.{
  Surroundings, Claims, connect, parse_jwt, after_connect, same_route, kick_capacity,
  submit_message,
}
use fable.Logic.Service.Current.{submit_message-Submitted}
use fable.Logic.Routing.{Redis, Keys}
use fable.Logic.Routing.Script.{route_key}
use fable.Logic.Routing.Store
use fable.Logic.Routing.Stored.{IsStore, IsReadable}
use fable.Logic.Routing.Superseded.{EndsAfter, connect-check}
use fable.Logic.Messages.Save.{Tables, Encodings}
use fable.Logic.Dispatch.{SendResult}

module _ (R : Redis) (K : Keys) (c : Codecs) (s : Service) (x : Surroundings) where
  open R use {Db, get}

  -- What stands behind a Connect that is granted.
  pub record Granted (header : List Str) (met : ℕ × Db) (r : Option ConnectRequest)
      (kicks : List (Option ConnectionIdentity)) (db' : Db) (route : RouteLease)
      (old : Option RouteLease) (kicks' : List (Option ConnectionIdentity)) : Type 0 where
    pub request : ConnectRequest
    pub claims : Claims
    pub request_is : r ≡ some request
    pub claims_are : parse_jwt x request.user_jwt s.jwt_key ≡ some claims
    pub exists : x.user_exists claims.user_uuid ≡ ok true
    pub routes_are :
        Store.connect R K c met.0 request.comet claims.user_uuid request.connection_id
          request.route_token claims.expires_at met.1
        ≡ ok (db', (route, old))
    pub kicks_are : kicks' ≡ after_connect route old kicks

  pub connect-Granted :
      (header : List Str) (met : ℕ × Db) (r : Option ConnectRequest)
      (kicks kicks' : List (Option ConnectionIdentity)) (db' : Db) (route : RouteLease)
      (old : Option RouteLease)
      → connect R K c s header x met r kicks ≡ ok (db', ((route, old), kicks'))
      → Granted header met r kicks db' route old kicks'
  unfolding connect
  connect-Granted header met none kicks kicks' db' route old h = absurd (ground arith)
  connect-Granted header met (some q) kicks kicks' db' route old h =
      elim (Option-cases (parse_jwt x q.user_jwt s.jwt_key)) [
        | inl n ↦ absurd (ground arith)
        | inr (claims, n) ↦ elim (Result-cases (x.user_exists claims.user_uuid)) [
          | inr (z, k) ↦ absurd (ground arith)
          | inl (there, k) ↦
              elim (Result-cases (
                Store.connect R K c met.0 q.comet claims.user_uuid q.connection_id q.route_token
                  claims.expires_at met.1)) [
                    | inr (z, m) ↦ absurd (ground arith)
                    | inl ((db₁, (route₁, old₁)), m) ↦ record {
                      request = q;
                      claims = claims;
                      request_is = refl;
                      claims_are = n;
                      exists = ground arith;
                      routes_are = ground arith;
                      kicks_are = ground arith;
                    }
                  ]
        ]
      ]

  -- The connection that a Connect replaced.
  abbrev pub Replaces : Option RouteLease → RouteLease → Option ConnectionIdentity → Type 0
  Replaces old route target =
      (o : RouteLease) × (old ≡ some o)
      × (o.identity ≡ target)
      × (same_route target route.identity ≡ false)

  -- The channel of kicks never holds more than it can: a Connect that is granted puts in the
  -- connection that it replaced, at the end, or leaves the channel alone where it replaced none, where
  -- it was the same one, or where the channel is full.
  pub connect-kicks :
      (header : List Str) (met : ℕ × Db) (r : Option ConnectRequest)
      (kicks kicks' : List (Option ConnectionIdentity)) (db' : Db) (route : RouteLease)
      (old : Option RouteLease)
      → length kicks ≤ kick_capacity
      → connect R K c s header x met r kicks ≡ ok (db', ((route, old), kicks'))
      → (length kicks' ≤ kick_capacity)
        × (((kicks' ≡ kicks)
              × ((old ≡ none)
                  ⊎ ((o : RouteLease) × (old ≡ some o)
                      × (same_route o.identity route.identity ≡ true))
                  ⊎ (length kicks ≡ kick_capacity)))
            ⊎ ((target : Option ConnectionIdentity) × Replaces old route target
                × (kicks' ≡ kicks ++ (target ∷ []))))
  unfolding after_connect
  connect-kicks header met r kicks kicks' db' route none room h =
      let G = connect-Granted header met r kicks kicks' db' route none h in
      (ground (arith, G.kicks_are), inl (G.kicks_are, inl refl))
  connect-kicks header met r kicks kicks' db' route (some o) room h =
      let G = connect-Granted header met r kicks kicks' db' route (some o) h in
      elim (Bool-cases (same_route o.identity route.identity)) [
        | inl y ↦
            let kept : kicks' ≡ kicks = ground (arith, G.kicks_are) in
            (ground (arith, kept), inl (kept, inr (inl (o, refl, y))))
        | inr n ↦ elim (Bool-cases (ltb (length kicks) kick_capacity)) [
          | inl y ↦
              let added : kicks' ≡ kicks ++ (o.identity ∷ []) = ground (arith, G.kicks_are) in
              (
                ground (arith, length-append kicks (o.identity ∷ []), added),
                inr (o.identity, (o, refl, refl, n), added),
              )
          | inr full ↦
              let kept : kicks' ≡ kicks = ground (arith, G.kicks_are) in
              (ground (arith, kept), inl (kept, inr (inr (ground (arith, full)))))
        ]
      ]

  module _ (good : IsStore K) (T : Tables) (e : Encodings) where
    -- On databases that the script can read, after a Connect that is granted and until its lease ends, no submission in the name of another
    -- connection of the same user succeeds, whatever its credentials, if its check of that connection meets
    -- a later database where the route of the user is still what the Connect left.
    pub connect-submit_message :
        (header header₂ : List Str) (met : ℕ × Db) (r : Option ConnectRequest)
        (kicks kicks' : List (Option ConnectionIdentity)) (db' later : Db) (route : RouteLease)
        (old : Option RouteLease) (w id : ConnectionIdentity) (q : SubmitMessageRequest) (t : ℕ)
        (resolving : ℕ × Db) (lookups : ℕ → ℕ × Db) (tables tables' : T.Db)
        (out : Option (SendResult × List PushTask))
        → IsReadable R K good met.0 met.1
        → IsReadable R K good t later
        → get t (route_key R K w.user_id) later ≡ get t (route_key R K w.user_id) db'
        → connect R K c s header x met r kicks ≡ ok (db', ((route, old), kicks'))
        → route.identity ≡ some w
        → met.0 ≤ t
        → EndsAfter R K c t route
        → q.identity ≡ some id
        → id.user_id ≡ w.user_id
        → same_connection w id ≡ false
        → submit_message R K c s header₂ x T e resolving (t, later) lookups (some q) tables
          ≢ ok (tables', out)
    connect-submit_message header header₂ met r kicks kicks' db' later route old w id q t resolving
          lookups tables tables' out r₁ r₂ kept h i l late is u differ done =
        let G = connect-Granted header met r kicks kicks' db' route old h in
        let S =
          submit_message-Submitted R K c s header₂ x T e resolving (t, later) lookups (some q)
            tables tables' out done in
        let who : S.identity ≡ id = ground (arith, S.request_is, S.identity_is, is) in
        connect-check R K c good met.0 t G.request.comet G.claims.user_uuid G.request.connection_id
          G.request.route_token G.claims.expires_at met.1 db' later S.checked.0 route S.checked.1
          old w id r₁ r₂ kept G.routes_are i l late u differ
          (subst (λ k. Store.check R K c t (some k) later ≡ ok (S.checked.0, S.checked.1)) who
            S.checked_is)
