-- ===== src/Logic/Routing/Fencing.antt =====
-- What a lease protects: an instance from a second boot, a route from connections that were replaced.
use fable.Prelude.{
  ℕ, zero, suc, ℤ, pos, negsuc, pos_part, ◌+◌, ◌-◌, min, ◌≤◌, ◌<◌, ◌≡◌, ◌∙◌, ap, true, false,
  Option, some, arith, str_eq, nat_eq, ok, err,
}
use fable.Wire.{not_current}
use fable.Logic.Routing.{superseded, Lease, Redis, Keys}
use fable.Logic.Routing.Script.{
  same, instance_key, route_key, save, valid_owner, release, disconnect, connect, current, check,
  heartbeat,
}
use fable.Logic.Routing.Stored.{IsStore, IsReadable, read_ok}

module _ (R : Redis) (K : Keys) (good : IsStore K) where
  open R use {Db, get, set_px, del}

  -- After a Connect that succeeded, and until its lease ends, the key holds its route.
  pub connect-get :
      (now t : ℕ) (p : Lease) (auth : ℤ) (db db' : Db) (made : Lease) (previous : Option Lease)
      → IsReadable R K good now db
      → connect R K now p auth db ≡ ok (db', (made, previous))
      → now ≤ t
      → t < made.deadline
      → (get t (route_key R K p.user) db' ≡ some made)
        × (made ≡ record p { auth = made.auth; deadline = made.deadline })
        × (now + 5000 < made.auth)
        × (made.deadline ≤ made.auth)
        × (made.auth ≡ pos_part auth)
        × (made.deadline ≤ now + K.route_ttl)
  unfolding connect save
  connect-get now t p (pos zero) db db' made previous r e h l =
      ground (arith, read_ok R K good now (instance_key R K p.instance_name) db r)
  connect-get now t p (negsuc a) db db' made previous r e h l =
      ground (arith, read_ok R K good now (instance_key R K p.instance_name) db r)
  connect-get now t p (pos (suc a)) db db' made previous r e h l =
      let M : Lease = record p { auth = suc a; deadline = min (now + K.route_ttl) (suc a) } in
      let key = route_key R K p.user in
      ground (
        arith,
        read_ok R K good now (instance_key R K p.instance_name) db r,
        read_ok R K good now key db r,
        good.route_pos,
        λ (q : 0 < M.deadline - now). R.get-set_px now t key key M (M.deadline - now) db h q,
      )

  -- On databases that the script can read, from a Connect that succeeded until the new lease ends, and in
  -- any later database where the route of the
  -- user is still what the Connect left, whatever else was written: a check or a heartbeat of another
  -- connection of the user is told that it was superseded, and its disconnect changes nothing.
  pub connect_supersedes :
      (now t : ℕ) (p q : Lease) (auth : ℤ) (db db' later : Db) (made : Lease)
      (previous : Option Lease)
      → IsReadable R K good now db
      → IsReadable R K good t later
      → get t (route_key R K p.user) later ≡ get t (route_key R K p.user) db'
      → connect R K now p auth db ≡ ok (db', (made, previous))
      → now ≤ t
      → t < made.deadline
      → q.user ≡ p.user
      → same made q ≡ false
      → (check R K t q later ≡ err superseded)
        × (heartbeat R K t q later ≡ err superseded)
        × (disconnect R K t q later ≡ ok (later, not_current))
  unfolding check heartbeat current disconnect release
  connect_supersedes now t p q auth db db' later made previous r r' kept e h l u s =
      let found : get t (route_key R K q.user) later ≡ some made =
        rw u (kept ∙ (connect-get now t p auth db db' made previous r e h l).0) in
      let k = read_ok R K good t (route_key R K q.user) later r' in
      (ground (arith, found, k), ground (arith, found, k), ground (arith, found, k))

  -- On databases that the script can read, from a Connect that succeeded until its lease ends, and in any
  -- later database where the route of the
  -- user is still what the Connect left and its instance is live under the boot of the Connect, the new
  -- connection passes the check; the lease ends with the authentication at the latest.
  pub connect_checks :
      (now t : ℕ) (p : Lease) (auth : ℤ) (db db' later : Db) (made : Lease)
      (previous : Option Lease)
      → IsReadable R K good now db
      → IsReadable R K good t later
      → get t (route_key R K p.user) later ≡ get t (route_key R K p.user) db'
      → connect R K now p auth db ≡ ok (db', (made, previous))
      → now ≤ t
      → t < made.deadline
      → valid_owner R K t made later ≡ ok true
      → (check R K t p later ≡ ok (later, made))
        × (made.deadline ≤ made.auth)
        × (made.deadline ≤ now + K.route_ttl)
        × (now + 5000 < made.auth)
  unfolding check current same
  connect_checks now t p auth db db' later made previous r r' kept e h l v =
      let g = connect-get now t p auth db db' made previous r e h l in
      let k = read_ok R K good t (route_key R K p.user) later r' in
      let found : get t (route_key R K p.user) later ≡ some made = kept ∙ g.0 in
      let whole : made ≡ record p { auth = made.auth; deadline = made.deadline } = g.1 in
      (
        ground (
          arith,
          found,
          k,
          ap (λ m. m.user) whole,
          ap (λ m. m.instance_name) whole,
          ap (λ m. m.connection) whole,
          ap (λ m. m.token) whole,
        ),
        g.3,
        g.5,
        g.2,
      )
