-- ===== src/Logic/Routing/Calls.antt =====
-- Histories of calls of the lease script.
use fable.Prelude.{
  ℕ, ℤ, pos_part, ◌+◌, ◌≤◌, ◌≡◌, ◌≢◌, true, List, [], ◌∷◌, str_eq, nat_eq, Result, ok, err,
}
use fable.Logic.Routing.{Error, Lease, Redis, Keys}
use fable.Logic.Routing.Script.{
  is_uuid, is_instance, is_token, is_user, max_timestamp, register, renew, unregister, disconnect,
  connect, heartbeat,
}

-- The database behind an operation: an error leaves it as it was.
abbrev pub after {ℓ κ} : {D : Type κ} {A : Type ℓ} → D → Result Error (D × A) → D
after db (ok (db', a)) = db'
after db (err e) = db

-- One call of the store's script.
pub data Call : Type 0 where
  registers renews unregisters heartbeats disconnects : Lease → Call
  connects : Lease → ℤ → Call

-- Store hands the script well-formed names; expiries and deadlines stay before the year 10000.
abbrev pub IsValid : Keys → ℕ → Call → Type 0
IsValid K now (registers p) =
    (is_instance p.instance_name ≡ true)
    × (is_uuid p.boot ≡ true)
    × (p.address ≢ [])
    × (now + K.instance_ttl ≤ max_timestamp)
IsValid K now (renews p) = now + K.instance_ttl ≤ max_timestamp
IsValid K now (unregisters p) = Unit
IsValid K now (heartbeats p) = Unit
IsValid K now (disconnects p) = Unit
IsValid K now (connects p auth) =
    (is_instance p.instance_name ≡ true)
    × (is_uuid p.boot ≡ true)
    × (is_user p.user ≡ true)
    × (is_uuid p.connection ≡ true)
    × (is_token p.token ≡ true)
    × (pos_part auth ≤ max_timestamp)

module _ (R : Redis) (K : Keys) where
  open R use {Db}

  unfoldable pub step : ℕ → Call → Db → Db
  step now (registers p) db = after db (register R K now p db)
  step now (renews p) db = after db (renew R K now p db)
  step now (unregisters p) db = after db (unregister R K now p db)
  step now (heartbeats p) db = after db (heartbeat R K now p db)
  step now (disconnects p) db = after db (disconnect R K now p db)
  step now (connects p auth) db = after db (connect R K now p auth db)

  -- Calls at times that do not fall, each well formed.
  abbrev pub AreValid : ℕ → List (ℕ × Call) → Type 0
  AreValid now [] = Unit
  AreValid now ((t, c) ∷ cs) = (now ≤ t) × IsValid K t c × AreValid t cs

  unfoldable pub run : List (ℕ × Call) → Db → Db
  run [] db = db
  run ((t, c) ∷ cs) db = run cs (step t c db)

  abbrev pub last_time : ℕ → List (ℕ × Call) → ℕ
  last_time now [] = now
  last_time now ((t, c) ∷ cs) = last_time t cs
