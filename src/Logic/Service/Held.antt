-- ===== src/Logic/Service/Held.antt =====
-- Who may submit a message: what the credentials, the leases and the route of a submission were.
use fable.Prelude.{
  ℕ, ◌<◌, ◌≡◌, refl, sym, ap, ◌∙◌, subst, ◌⊎◌, inl, inr, Str, true, false, Option, none, some, List,
  [], ◌∷◌, ◌++◌, ◌==◌, str_eq, nat_eq, arith, has_prefix, has_prefix-drop, drop, Option-cases,
  Result-cases, Bool-cases, ok,
}
use fable.Wire.{Codecs, ConnectionIdentity, RouteLease}
use fable.Wire.Push.{PushTask}
use fable.Wire.Requests.{SubmitMessageRequest}
use fable.Logic.Service.{Grant, Service, serves, comet_auth, bearer, bearer_prefix, grant_of}
use fable.Logic.Service.Handlers.{Surroundings, connection_auth, submit_message}
use fable.Logic.Service.Roles.{with_token}
use fable.Logic.Service.Current.{input_of, submit_message-Submitted}
use fable.Logic.Routing.{Lease, Redis, Keys}
use fable.Logic.Routing.Script
use fable.Logic.Routing.Script.{
  Found, same, read, instance_key, route_key, current, valid_owner, resolve_one,
}
use fable.Logic.Routing.Store
use fable.Logic.Routing.Store.{connection_record, resolution_results, comet_lease}
use fable.Logic.Messages.Save.{Tables, Encodings, save}
use fable.Logic.Dispatch.{Saved, SendResult}
use fable.Logic.Dispatch.Chunks.{Covers}

grant_of-some :
    (gs : List Grant) (token : Str) (g : Grant)
    → grant_of gs token ≡ some g
    → (token ≡ g.token) × ((front : List Grant) × (back : List Grant) × (gs ≡ front ++ g ∷ back))
unfolding grant_of
grant_of-some [] token g h = absurd (ground arith)
grant_of-some (x ∷ gs) token g h = elim (Bool-cases (token == x.token)) [
  | inl y ↦
      let is : x ≡ g = ground (arith, h, y) in
      (ground (arith, y, is), ([], gs, ap (λ k. k ∷ gs) is))
  | inr n ↦
      let (same_token, (front, back, e)) = grant_of-some gs token g (ground (arith, h, n)) in
      (same_token, (x ∷ front, back, ap (◌∷◌ x) e))
]

bearer-cases : (header : List Str) → (header ≡ with_token (bearer header)) ⊎ (bearer header ≡ [])
unfolding bearer
bearer-cases [] = inr refl
bearer-cases (v ∷ w ∷ vs) = inr refl
bearer-cases (v ∷ []) = elim (Bool-cases (has_prefix v bearer_prefix)) [
  | inl y ↦
      let whole : v ≡ bearer_prefix ++ drop 7 v = has_prefix-drop v bearer_prefix y in
      inl (ground (arith, y, whole))
  | inr n ↦ inr (ground (arith, n))
]

-- A grant of the service, whose token the caller sent. (An empty token, which NewService refuses, is
-- also what a header without one gives.)
abbrev pub Presents : Service → List Str → Grant → Type 0
Presents s header g =
    ((front : List Grant) × (back : List Grant) × (s.grants ≡ front ++ g ∷ back))
    × ((header ≡ with_token g.token) ⊎ (g.token ≡ []))

comet_auth-Presents :
    (s : Service) (header : List Str) (instance_name : Str) (g : Grant)
    → comet_auth s header (serves instance_name) ≡ ok g
    → Presents s header g × (instance_name ≡ g.identity.instance_id)
unfolding comet_auth
comet_auth-Presents s header instance_name g h =
    elim (Option-cases (grant_of s.grants (bearer header))) [
      | inl n ↦ absurd (ground (arith, h, n))
      | inr (x, n) ↦ elim (Bool-cases (instance_name == x.identity.instance_id)) [
        | inr m ↦ absurd (ground (arith, h, n, m))
        | inl m ↦
            let is : x ≡ g = ground (arith, h, n, m) in
            let (token, from) = grant_of-some s.grants (bearer header) g (n ∙ ap some is) in
            (
              (
                from,
                elim (bearer-cases header) [
                  | inl e ↦ inl (e ∙ ap with_token token)
                  | inr e ↦ inr (sym token ∙ e)
                ],
              ),
              ground (arith, m, is),
            )
      ]
    ]

module _ (R : Redis) (K : Keys) where
  open R use {Db, get}

  -- The instance holds a lease that has not ended, under a boot.
  abbrev pub Booted : ℕ → Db → Str → Str → Type 0
  Booted now db instance_name boot =
      (i : Lease) × (get now (instance_key R K instance_name) db ≡ some i)
      × (now < i.deadline)
      × (i.boot ≡ boot)

  -- The connection holds the route of its user, neither the lease nor the authentication has ended, and
  -- its instance is up under the boot of the route.
  abbrev pub IsCurrent : ℕ → Db → ConnectionIdentity → Type 0
  IsCurrent now db id =
      (r : Lease) × (get now (route_key R K id.user_id) db ≡ some r)
      × (r.user ≡ id.user_id)
      × (r.instance_name ≡ id.instance_id)
      × (r.connection ≡ id.connection_id)
      × (r.token ≡ id.route_token)
      × (now < r.deadline)
      × (now < r.auth)
      × Booted now db id.instance_id r.boot

  read-get :
      (now : ℕ) (key : Str) (db : Db) (found : Option Lease)
      → read R K now key db ≡ ok found
      → get now key db ≡ found
  unfolding read
  read-get now key db found h = ground (arith, h)

  valid_owner-Booted :
      (now : ℕ) (r : Lease) (db : Db)
      → valid_owner R K now r db ≡ ok true
      → Booted now db r.instance_name r.boot
  unfolding valid_owner
  valid_owner-Booted now r db h =
      let key = instance_key R K r.instance_name in
      elim (Result-cases (read R K now key db)) [
        | inr (e, n) ↦ absurd (ground (arith, h, n))
        | inl (found, n) ↦ elim (Option-cases found) [
          | inl m ↦ absurd (ground (arith, h, n, m))
          | inr (i, m) ↦
              (i, read-get now key db found n ∙ m, ground (arith, h, n, m), ground (arith, h, n, m))
        ]
      ]

  current-IsCurrent :
      (now : ℕ) (id : ConnectionIdentity) (db : Db) (old : Lease)
      → current R K now (connection_record id) db ≡ ok old
      → IsCurrent now db id
  unfolding current same connection_record
  current-IsCurrent now id db old h =
      let key = route_key R K id.user_id in
      elim (Result-cases (read R K now key db)) [
        | inr (e, n) ↦ absurd (ground (arith, h, n))
        | inl (none, n) ↦ absurd (ground (arith, h, n))
        | inl (some r, n) ↦ elim (Result-cases (valid_owner R K now r db)) [
          | inr (e, k) ↦ absurd (ground (arith, h, n, k))
          | inl (false, k) ↦ absurd (ground (arith, h, n, k))
          | inl (true, k) ↦
              let instance : r.instance_name ≡ id.instance_id = ground (arith, h, n, k) in
              (
                r,
                read-get now key db (some r) n,
                ground (arith, h, n, k),
                instance,
                ground (arith, h, n, k),
                ground (arith, h, n, k),
                ground (arith, h, n, k),
                ground (arith, h, n, k),
                subst (λ j. Booted now db j r.boot) instance (valid_owner-Booted now r db k),
              )
        ]
      ]

  connection_auth-Booted :
      (c : Codecs) (s : Service) (header : List Str) (now : ℕ) (db : Db) (id : ConnectionIdentity)
      (g : Grant)
      → connection_auth R K c s header (now, db) (some id) ≡ ok g
      → (comet_auth s header (serves id.instance_id) ≡ ok g)
        × Booted now db id.instance_id g.identity.boot_id
  unfolding connection_auth Store.resolve Script.resolve resolve_one resolution_results comet_lease
  connection_auth-Booted c s header now db id g h =
      let key = instance_key R K id.instance_id in
      (
        ground (arith, h),
        elim (Result-cases (read R K now key db)) [
          | inr (e, n) ↦ absurd (ground (arith, h, n))
          | inl (none, n) ↦ absurd (ground (arith, h, n))
          | inl (some i, n) ↦
              (i, read-get now key db (some i) n, ground (arith, h, n), ground (arith, h, n))
        ],
      )

  check-IsCurrent :
      (c : Codecs) (now : ℕ) (id : ConnectionIdentity) (db : Db) (answer : Db × RouteLease)
      → Store.check R K c now (some id) db ≡ ok answer
      → IsCurrent now db id
  unfolding Store.check Script.check
  check-IsCurrent c now id db answer h =
      elim (Result-cases (current R K now (connection_record id) db)) [
        | inr (e, n) ↦ absurd (ground (arith, h, n))
        | inl (old, n) ↦ current-IsCurrent now id db old n
      ]

module _ (R : Redis) (K : Keys) (c : Codecs) (s : Service) (header : List Str) (x : Surroundings)
    (T : Tables) (e : Encodings) where
  -- What a submission that succeeds shows, at the times and databases that its two calls of Redis met.
  pub record Held (resolving checking : ℕ × R.Db) (r : Option SubmitMessageRequest) (db db' : T.Db)
      (out : Option (SendResult × List PushTask)) : Type 1 where
    pub request : SubmitMessageRequest
    pub identity : ConnectionIdentity
    pub grant : Grant
    pub saved : Saved
    pub result : SendResult
    pub tasks : List PushTask
    pub request_is : r ≡ some request
    pub identity_is : request.identity ≡ some identity
    pub presents : Presents s header grant
    pub serves_it : identity.instance_id ≡ grant.identity.instance_id
    pub booted : Booted R K resolving.0 resolving.1 identity.instance_id grant.identity.boot_id
    pub is_current : IsCurrent R K checking.0 checking.1 identity
    pub saved_is : save T e c (input_of R K c s header x T e identity request) db ≡ ok (db', saved)
    pub out_is : out ≡ some (result, tasks)
    pub stored_is : (result.stored ≡ true) × (result.message ≡ saved.message)
    pub covers : Covers saved.recipients result.dispatch tasks

  -- A submission is answered with success only where: the caller sent the token of one of the service's
  -- grants (or that token is empty, which NewService refuses), which names the instance of the connection; that instance holds a live lease under the boot
  -- of the grant; the route of the user is the connection itself, in all its names and its token, with a
  -- lease and an authentication that have not ended, on an instance that is live under the route's boot;
  -- and the save of the request in the name of that user succeeded. Then the answer says that the
  -- message is stored, and its dispatch state is true of the tasks that were acknowledged.
  pub submit_message-Held :
      (resolving checking : ℕ × R.Db) (lookups : ℕ → ℕ × R.Db) (r : Option SubmitMessageRequest)
      (db db' : T.Db) (out : Option (SendResult × List PushTask))
      → submit_message R K c s header x T e resolving checking lookups r db ≡ ok (db', out)
      → Held resolving checking r db db' out
  submit_message-Held resolving checking lookups r db db' out h =
      let S =
        submit_message-Submitted R K c s header x T e resolving checking lookups r db db' out h in
      let (auth, boot) =
        connection_auth-Booted R K c s header resolving.0 resolving.1 S.identity S.grant
          S.grant_is in
      let (sent, names) = comet_auth-Presents s header S.identity.instance_id S.grant auth in
      record {
        request = S.request;
        identity = S.identity;
        grant = S.grant;
        saved = S.saved;
        result = S.result;
        tasks = S.tasks;
        request_is = S.request_is;
        identity_is = S.identity_is;
        presents = sent;
        serves_it = names;
        booted = boot;
        is_current = check-IsCurrent R K c checking.0 S.identity checking.1 S.checked S.checked_is;
        saved_is = S.saved_is;
        out_is = S.out_is;
        stored_is = S.stored_is;
        covers = S.covers;
      }
