-- ===== src/Logic/Routing/Lookup.antt =====
-- What Lookup answers: one entry for each id in order, and only routes that are good now.
use fable.Prelude.{
  ℕ, ◌≤◌, ◌<◌, ◌≡◌, refl, ◌⊎◌, inl, inr, Str, true, false, ◌&&◌, none, some, List, [], ◌∷◌, ◌==◌,
  ltb, map, All, arith, str_eq, nat_eq, Option-cases, Bool-cases, ok, err,
}
use fable.Logic.Routing.{Lease, Redis, Keys}
use fable.Logic.Routing.Script.{
  live, instance_key, route_key, valid_owner, Found, lookup_one, lookup_routes,
}
use fable.Logic.Routing.Stored.{IsStore, IsReadable, read_ok}

module _ (R : Redis) (K : Keys) (good : IsStore K) where
  open R use {Db, get}

  -- What an entry of Lookup says of the database.
  abbrev pub Answers : ℕ → Db → Found → Type 0
  Answers now db f =
      ((f.state ≡ err 1) × (get now (route_key R K f.id) db ≡ none))
      ⊎ ((v : Lease) × (get now (route_key R K f.id) db ≡ some v)
          × (((f.state ≡ err 2) × ((v.deadline ≤ now) ⊎ (v.auth ≤ now)))
              ⊎ ((f.state ≡ err 3)
                  × (now < v.deadline)
                  × (now < v.auth)
                  × (valid_owner R K now v db ≡ ok false))
              ⊎ ((f.state ≡ ok v)
                  × (now < v.deadline)
                  × (now < v.auth)
                  × (valid_owner R K now v db ≡ ok true))))

  valid_owner_ok :
      (now : ℕ) (v : Lease) (db : Db)
      → IsReadable R K good now db
      → (valid_owner R K now v db ≡ ok false) ⊎ (valid_owner R K now v db ≡ ok true)
  unfolding valid_owner
  valid_owner_ok now v db r =
      let k = read_ok R K good now (instance_key R K v.instance_name) db r in
      elim (Option-cases (get now (instance_key R K v.instance_name) db)) [
        | inl e ↦ inl (ground (arith, k))
        | inr (i, e) ↦ elim (Bool-cases (live now i && i.boot == v.boot)) [
          | inl b ↦ inr (ground (arith, k))
          | inr b ↦ inl (ground (arith, k))
        ]
      ]

  lookup_one-Answers :
      (now : ℕ) (id : Str) (db : Db)
      → IsReadable R K good now db
      → (f : Found) × (lookup_one R K now id db ≡ ok f) × (f.id ≡ id) × Answers now db f
  unfolding lookup_one
  lookup_one-Answers now id db r = elim (Option-cases (get now (route_key R K id) db)) [
    | inl e ↦ (
      record { id = id; state = err 1 },
      ground (arith, read_ok R K good now (route_key R K id) db r),
      refl,
      inl (refl, e),
    )
    | inr (v, e) ↦ elim (Bool-cases (live now v && ltb now v.auth)) [
      | inr b ↦ (
        record { id = id; state = err 2 },
        ground (arith, read_ok R K good now (route_key R K id) db r),
        refl,
        inr (v, e, inl (refl, ground arith)),
      )
      | inl b ↦ elim (valid_owner_ok now v db r) [
        | inl o ↦ (
          record { id = id; state = err 3 },
          ground (arith, read_ok R K good now (route_key R K id) db r),
          refl,
          inr (v, e, inr (inl (refl, ground arith, ground arith, o))),
        )
        | inr o ↦ (
          record { id = id; state = ok v },
          ground (arith, read_ok R K good now (route_key R K id) db r),
          refl,
          inr (v, e, inr (inr (refl, ground arith, ground arith, o))),
        )
      ]
    ]
  ]

  -- On a readable database the lookup succeeds, with an entry for each id in the order asked, and
  -- each entry says which of the four cases its key is in.
  pub lookup_routes-Answers :
      (now : ℕ) (ids : List Str) (db : Db)
      → IsReadable R K good now db
      → (fs : List Found) × (lookup_routes R K now ids db ≡ ok fs)
        × (map (λ f. f.id) fs ≡ ids)
        × All (Answers now db) fs
  unfolding lookup_routes
  lookup_routes-Answers now [] db r = ([], refl, refl, tt)
  lookup_routes-Answers now (id ∷ ids) db r =
      let (f, e, i, a) = lookup_one-Answers now id db r in
      let (fs, es, is, as') = lookup_routes-Answers now ids db r in
      (f ∷ fs, ground arith, ground arith, (a, as'))
