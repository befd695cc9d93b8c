-- ===== src/Logic/Routing/Stored.antt =====
-- What the values of a store look like, and when `read` accepts them.
use fable.Prelude.{
  ℕ, ◌-◌, ◌≤◌, ◌<◌, ◌≡◌, ◌≢◌, inl, inr, Str, true, false, some, [], ◌++◌, arith, str_eq, nat_eq,
  text, has_prefix, has_prefix-append, has_prefix-append_self, ℕ_discrete, subst, Option-cases, ok,
}
use mathlib.Core.List.{append_assoc}
use fable.Logic.Routing.{Lease, Redis, Keys}
use fable.Logic.Routing.Script.{
  is_uuid, is_instance, is_timestamp, is_token, is_user, max_timestamp, instance_key, route_key,
  is_stored, read, save,
}
use fable.Logic.Routing.Store.{new_store, ttl_millis}

-- What New guarantees of its keys and times.
pub record IsStore (K : Keys) : Type 0 where
  pub apart : (u : Str) → has_prefix (K.routes ++ u) K.instances ≡ false
  pub instance_pos : 0 < K.instance_ttl
  pub route_pos : 0 < K.route_ttl

-- The keys that New makes.
abbrev made_keys : Str → ℕ → ℕ → Keys
made_keys base a b = record {
  instances = base ++ text "instance:";
  routes = base ++ text "route:";
  instance_ttl = ttl_millis a;
  route_ttl = ttl_millis b;
}

made_keys-IsStore : (base : Str) (a b : ℕ) → IsStore (made_keys base a b)
unfolding has_prefix ttl_millis ℕ_discrete
made_keys-IsStore base a b = record {
  apart = λ u. rw append_assoc (has_prefix-append base (text "route:" ++ u) (text "instance:"));
  instance_pos = omega arith;
  route_pos = omega arith;
}

-- Keys of routes and of instances never meet, and lease times are positive, for any store of New.
pub new_store-IsStore :
    (prefix : Str) (a b : ℕ) (K : Keys) → new_store prefix a b ≡ ok K → IsStore K
unfolding new_store ttl_millis
new_store-IsStore prefix a b K e =
    let made = made_keys-IsStore (prefix ++ text "{logic-routing}:") a b in
    subst IsStore (ground arith) made

module _ (R : Redis) (K : Keys) (good : IsStore K) where
  open R use {Db, get, set_px, del}

  -- Whatever the database gives from now on passes the tests of `read`.
  abbrev pub IsReadable : ℕ → Db → Type 0
  IsReadable now db =
      (t : ℕ) (key : Str) (v : Lease) → now ≤ t → get t key db ≡ some v → is_stored R K key v ≡ true

  pub IsReadable-later : (now t : ℕ) (db : Db) → now ≤ t → IsReadable now db → IsReadable t db
  IsReadable-later now t db le r u key v h e = r u key v (omega arith) e

  pub read_ok :
      (now : ℕ) (key : Str) (db : Db)
      → IsReadable now db
      → read R K now key db ≡ ok (get now key db)
  unfolding read
  read_ok now key db r = elim (Option-cases (get now key db)) [
    | inl e ↦ ground arith
    | inr (v, e) ↦ ground (arith, r now key v (omega arith) e)
  ]

  pub save-IsReadable :
      (now : ℕ) (key : Str) (v : Lease) (db : Db)
      → now < v.deadline
      → is_stored R K key v ≡ true
      → IsReadable now db
      → IsReadable now (save R K now key v db)
  unfolding save
  save-IsReadable now key v db late s r t j w h e =
      ground (arith, R.get-set_px now t key j v (v.deadline - now) db h (omega arith), r t j w h, e)

  pub del-IsReadable :
      (now : ℕ) (key : Str) (db : Db) → IsReadable now db → IsReadable now (del key db)
  del-IsReadable now key db r t j w h e = ground (arith, R.get-del t key j db, r t j w h, e)

  -- A claim of an instance, and of a connection, as the script's own tests see it.
  abbrev pub NamesInstance : Lease → Type 0
  NamesInstance p =
      (is_instance p.instance_name ≡ true) × (is_uuid p.boot ≡ true) × (p.address ≢ [])

  abbrev pub NamesConnection : Lease → Type 0
  NamesConnection p =
      (is_instance p.instance_name ≡ true)
      × (is_uuid p.boot ≡ true)
      × (is_user p.user ≡ true)
      × (is_uuid p.connection ≡ true)
      × (is_token p.token ≡ true)

  pub instance-is_stored :
      (p : Lease)
      → NamesInstance p
      → 0 < p.deadline
      → p.deadline ≤ max_timestamp
      → is_stored R K (instance_key R K p.instance_name) p ≡ true
  unfolding is_stored is_timestamp
  instance-is_stored p n d m = ground (arith, has_prefix-append_self K.instances p.instance_name)

  pub connection-is_stored :
      (p : Lease)
      → NamesConnection p
      → 0 < p.deadline
      → p.deadline ≤ p.auth
      → p.auth ≤ max_timestamp
      → is_stored R K (route_key R K p.user) p ≡ true
  unfolding is_stored is_timestamp
  connection-is_stored p n d a m = ground (arith, good.apart p.user)

  -- The other way round: what a stored instance, and a stored route, have passed.
  pub stored-instance :
      (id : Str) (v : Lease)
      → is_stored R K (instance_key R K id) v ≡ true
      → NamesInstance v × (instance_key R K id ≡ instance_key R K v.instance_name)
  unfolding is_stored
  stored-instance id v s = ground (arith, has_prefix-append_self K.instances id)

  pub stored-route :
      (user : Str) (v : Lease)
      → is_stored R K (route_key R K user) v ≡ true
      → NamesConnection v × (route_key R K user ≡ route_key R K v.user) × (v.auth ≤ max_timestamp)
  unfolding is_stored is_timestamp
  stored-route user v s = ground (arith, good.apart user)
