-- ===== src/Logic/Routing/Exclusive.antt =====
-- The lease of an instance belongs to one boot, and draining is for good.
use fable.Prelude.{
  ℕ, ℤ, ◌+◌, ◌-◌, ◌≤◌, ◌<◌, ◌≡◌, ◌≢◌, ◌∙◌, inl, inr, Str, Bool, true, false, some, arith, str_eq,
  nat_eq, Result-cases, ok, err,
}
use fable.Wire.{not_current}
use fable.Logic.Routing.{conflict, not_registered, Lease, Redis, Keys}
use fable.Logic.Routing.Script.{
  instance_key, read, save, grant_instance, register, renew, release, unregister, connect,
}
use fable.Logic.Routing.Stored.{IsStore, IsReadable, read_ok}

module _ (R : Redis) (K : Keys) (good : IsStore K) where
  open R use {Db, get, set_px, del}

  grant_instance-get :
      (now t : ℕ) (key : Str) (p : Lease) (d : Bool) (db db' : Db) (made : Lease)
      → grant_instance R K now key p d db ≡ ok (db', made)
      → now ≤ t
      → t < made.deadline
      → (get t key db' ≡ some made)
        × (made ≡ record p { is_draining = d; deadline = now + K.instance_ttl })
  unfolding grant_instance save
  grant_instance-get now t key p d db db' made e h l =
      let M : Lease = record p { is_draining = d; deadline = now + K.instance_ttl } in
      ground (
        arith,
        R.get-set_px now t key key M (M.deadline - now) db h (omega (arith, good.instance_pos)),
      )

  register-deadline :
      (now : ℕ) (p : Lease) (db db' : Db) (made : Lease)
      → register R K now p db ≡ ok (db', made)
      → made.deadline ≡ now + K.instance_ttl
  unfolding register grant_instance
  register-deadline now p db db' made e =
      elim (Result-cases (read R K now (instance_key R K p.instance_name) db)) [
        | inl (found, f) ↦ ground arith
        | inr (x, f) ↦ ground arith
      ]

  register-get :
      (now t : ℕ) (p : Lease) (db db' : Db) (made : Lease)
      → IsReadable R K good now db
      → register R K now p db ≡ ok (db', made)
      → now ≤ t
      → t < made.deadline
      → (get t (instance_key R K p.instance_name) db' ≡ some made)
        × (made.boot ≡ p.boot)
        × (made.address ≡ p.address)
        × (made.deadline ≡ now + K.instance_ttl)
  unfolding register
  register-get now t p db db' made r e h l =
      let key = instance_key R K p.instance_name in
      ground (
        arith,
        read_ok R K good now key db r,
        λ (q : grant_instance R K now key p false db ≡ ok (db', made)).
            grant_instance-get now t key p false db db' made q h l,
        λ (q : grant_instance R K now key p true db ≡ ok (db', made)).
            grant_instance-get now t key p true db db' made q h l,
      )

  -- On databases that the script can read, from a Register that succeeded until its lease ends, and in
  -- any later database where the lease of the
  -- instance is still what the Register left, whatever else was written, another boot of the instance is
  -- refused: its Register conflicts, its Renew and its Connect are not registered, and its Unregister
  -- finds another owner and changes nothing.
  pub register_exclusive :
      (now t : ℕ) (p q : Lease) (auth : ℤ) (db db' later : Db) (made : Lease)
      → IsReadable R K good now db
      → IsReadable R K good t later
      → get t (instance_key R K p.instance_name) later
        ≡ get t (instance_key R K p.instance_name) db'
      → register R K now p db ≡ ok (db', made)
      → now ≤ t
      → t < now + K.instance_ttl
      → q.instance_name ≡ p.instance_name
      → q.boot ≢ p.boot
      → (register R K t q later ≡ err conflict)
        × (renew R K t q later ≡ err not_registered)
        × (connect R K t q auth later ≡ err not_registered)
        × (unregister R K t q later ≡ ok (later, not_current))
  unfolding register renew connect unregister release
  register_exclusive now t p q auth db db' later made r r' kept e h l i b =
      let key = instance_key R K p.instance_name in
      let long : made.deadline ≡ now + K.instance_ttl = register-deadline now p db db' made e in
      let g = register-get now t p db db' made r e h (omega arith) in
      let k = read_ok R K good t (instance_key R K q.instance_name) later r' in
      let found : get t (instance_key R K p.instance_name) later ≡ some made = kept ∙ g.0 in
      (
        ground (arith, g, found, k),
        ground (arith, g, found, k),
        ground (arith, g, found, k),
        ground (arith, g, found, k),
      )
