-- ===== src/Logic/Routing/Readable.antt =====
-- The script never stops on a value that it has stored itself ('invalid stored lease').
use fable.Prelude.{
  ℕ, zero, suc, ℤ, pos, negsuc, pos_part, ◌+◌, min, ◌≤◌, ◌<◌, ◌≡◌, inl, inr, Str, Bool, true, false,
  ◌||◌, none, some, List, [], ◌∷◌, ltb, arith, str_eq, nat_eq, Option-cases, Bool-cases,
  Result-cases, ok,
}
use fable.Logic.Routing.{Lease, Redis, Keys}
use fable.Logic.Routing.Script.{
  max_timestamp, same, instance_key, route_key, read, valid_owner, grant_instance, register, renew,
  release, unregister, disconnect, connect, current, heartbeat,
}
use fable.Logic.Routing.Stored.{
  IsStore, NamesInstance, NamesConnection, IsReadable, IsReadable-later, read_ok, save-IsReadable,
  del-IsReadable, instance-is_stored, connection-is_stored, stored-instance, stored-route,
}
use fable.Logic.Routing.Calls.{
  after, Call, registers, renews, unregisters, heartbeats, disconnects, connects, IsValid, step,
  run, AreValid, last_time,
}

module _ (R : Redis) (K : Keys) (good : IsStore K) where
  open R use {Db, get}

  -- The grants of register and renew.
  granted-IsReadable :
      (now : ℕ) (p : Lease) (d : Bool) (db : Db)
      → NamesInstance R K good p
      → now + K.instance_ttl ≤ max_timestamp
      → IsReadable R K good now db
      → IsReadable R K good now
          (after db (grant_instance R K now (instance_key R K p.instance_name) p d db))
  unfolding grant_instance
  granted-IsReadable now p d db n m r =
      let granted : Lease = record p { is_draining = d; deadline = now + K.instance_ttl } in
      save-IsReadable R K good now _ granted db (omega (arith, good.instance_pos))
        (instance-is_stored R K good granted n (omega (arith, good.instance_pos)) m) r

  register-IsReadable :
      (now : ℕ) (p : Lease) (db : Db)
      → NamesInstance R K good p
      → now + K.instance_ttl ≤ max_timestamp
      → IsReadable R K good now db
      → IsReadable R K good now (after db (register R K now p db))
  unfolding register
  register-IsReadable now p db n m r t j w h e = ground (
    arith,
    read_ok R K good now (instance_key R K p.instance_name) db r,
    r t j w h,
    granted-IsReadable now p false db n m r t j w h,
    granted-IsReadable now p true db n m r t j w h,
    e,
  )

  renew-IsReadable :
      (now : ℕ) (p : Lease) (db : Db)
      → now + K.instance_ttl ≤ max_timestamp
      → IsReadable R K good now db
      → IsReadable R K good now (after db (renew R K now p db))
  unfolding renew
  renew-IsReadable now p db m r t j w h e =
      elim (Option-cases (get now (instance_key R K p.instance_name) db)) [
        | inl f ↦
            ground
              (arith, read_ok R K good now (instance_key R K p.instance_name) db r, r t j w h, e)
        | inr (old, f) ↦
            let (n, same_key) =
              stored-instance R K good p.instance_name old (r now _ old (omega arith) f) in
            let d : Bool = old.is_draining || p.is_draining in
            ground (
              arith,
              read_ok R K good now (instance_key R K p.instance_name) db r,
              r t j w h,
              granted-IsReadable now old d db n m r t j w h,
              e,
            )
      ]

  release-IsReadable :
      (now : ℕ) (key : Str) (owns : Lease → Bool) (db : Db)
      → IsReadable R K good now db
      → IsReadable R K good now (after db (release R K now key owns db))
  unfolding release
  release-IsReadable now key owns db r t j w h e = ground (
    arith,
    read_ok R K good now key db r,
    r t j w h,
    del-IsReadable R K good now key db r t j w h,
    e,
  )

  connect-IsReadable :
      (now : ℕ) (p : Lease) (auth : ℤ) (db : Db)
      → NamesConnection R K good p
      → pos_part auth ≤ max_timestamp
      → IsReadable R K good now db
      → IsReadable R K good now (after db (connect R K now p auth db))
  unfolding connect
  connect-IsReadable now p (negsuc a) db n m r t j w h e =
      ground (arith, read_ok R K good now (instance_key R K p.instance_name) db r, r t j w h, e)
  connect-IsReadable now p (pos zero) db n m r t j w h e =
      ground (arith, read_ok R K good now (instance_key R K p.instance_name) db r, r t j w h, e)
  connect-IsReadable now p (pos (suc a)) db n m r t j w h e =
      elim (Bool-cases (ltb (now + 5000) (suc a))) [
        | inl f ↦
            let made : Lease = record p {
              auth = suc a;
              deadline = min (now + K.route_ttl) (suc a);
            } in
            let late : now < min (now + K.route_ttl) (suc a) = ground (arith, good.route_pos) in
            ground (
              arith,
              read_ok R K good now (instance_key R K p.instance_name) db r,
              read_ok R K good now (route_key R K p.user) db r,
              r t j w h,
              save-IsReadable R K good now (route_key R K p.user) made db late
                  (connection-is_stored R K good made n (omega arith) (omega arith) m) r t j w h,
              e,
            )
        | inr f ↦
            ground
              (arith, read_ok R K good now (instance_key R K p.instance_name) db r, r t j w h, e)
      ]

  -- What check and heartbeat have established when they succeed.
  pub current-eq-ok :
      (now : ℕ) (p : Lease) (db : Db) (old : Lease)
      → IsReadable R K good now db
      → current R K now p db ≡ ok old
      → (get now (route_key R K p.user) db ≡ some old)
        × (same old p ≡ true)
        × (now < old.deadline)
        × (now < old.auth)
        × (valid_owner R K now old db ≡ ok true)
  unfolding current
  current-eq-ok now p db old r e = elim (Option-cases (get now (route_key R K p.user) db)) [
    | inl f ↦ ground (arith, read_ok R K good now (route_key R K p.user) db r)
    | inr (v, f) ↦ elim (Result-cases (valid_owner R K now v db)) [
      | inl (b, g) ↦ ground (arith, read_ok R K good now (route_key R K p.user) db r)
      | inr (x, g) ↦ ground (arith, read_ok R K good now (route_key R K p.user) db r)
    ]
  ]

  heartbeat-IsReadable :
      (now : ℕ) (p : Lease) (db : Db)
      → IsReadable R K good now db
      → IsReadable R K good now (after db (heartbeat R K now p db))
  unfolding heartbeat
  heartbeat-IsReadable now p db r t j w h e = elim (Result-cases (current R K now p db)) [
    | inr (x, f) ↦ ground (arith, r t j w h)
    | inl (old, f) ↦
        let (found, claims, live_still, authorized, owned) = current-eq-ok now p db old r f in
        let (n, same_key, m) = stored-route R K good p.user old (r now _ old (omega arith) found) in
        let made : Lease = record old { deadline = min (now + K.route_ttl) old.auth } in
        let put =
          save-IsReadable R K good now (route_key R K old.user) made db
            (omega (arith, good.route_pos))
            (connection-is_stored R K good made n (omega (arith, good.route_pos)) (omega arith) m) r
            t j w h in
        ground (arith, put, same_key)
  ]

module _ (R : Redis) (K : Keys) (good : IsStore K) where
  open R use {Db, get}

  step-IsReadable :
      (now : ℕ) (c : Call) (db : Db)
      → IsValid K now c
      → IsReadable R K good now db
      → IsReadable R K good now (step R K now c db)
  unfolding step unregister disconnect
  step-IsReadable now (registers p) db v r =
      register-IsReadable R K good now p db (v.0, v.1, v.2) v.3 r
  step-IsReadable now (renews p) db v r = renew-IsReadable R K good now p db v r
  step-IsReadable now (unregisters p) db v r = release-IsReadable R K good now _ _ db r
  step-IsReadable now (heartbeats p) db v r = heartbeat-IsReadable R K good now p db r
  step-IsReadable now (disconnects p) db v r = release-IsReadable R K good now _ _ db r
  step-IsReadable now (connects p auth) db v r =
      connect-IsReadable R K good now p auth db (v.0, v.1, v.2, v.3, v.4) v.5 r

  pub run-IsReadable :
      (now : ℕ) (cs : List (ℕ × Call)) (db : Db)
      → AreValid R K now cs
      → IsReadable R K good now db
      → IsReadable R K good (last_time R K now cs) (run R K cs db)
  unfolding run
  run-IsReadable now [] db v r = r
  run-IsReadable now ((t, c) ∷ cs) db v r =
      run-IsReadable t cs (step R K t c db) v.2
        (step-IsReadable t c db v.1 (IsReadable-later R K good now t db v.0 r))

  -- After any calls on a database that was empty, at times that do not fall and with well-formed
  -- names, `read` of any key succeeds at any later time: the script never meets a stored value that
  -- it would refuse.
  pub read-run :
      (now t : ℕ) (cs : List (ℕ × Call)) (db : Db) (key : Str)
      → ((t : ℕ) (key : Str) → get t key db ≡ none)
      → AreValid R K now cs
      → last_time R K now cs ≤ t
      → read R K t key (run R K cs db) ≡ ok (get t key (run R K cs db))
  read-run now t cs db key empty v le = read_ok R K good t key (run R K cs db) (
      IsReadable-later R K good (last_time R K now cs) t (run R K cs db) le
        (run-IsReadable now cs db v (λ u k w h e. ground (arith, empty u k))))
