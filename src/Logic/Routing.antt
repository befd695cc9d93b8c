-- ===== src/Logic/Routing.antt =====
-- internal/logic/routing: the leases of Comet instances and of user connections.
pub mod Script
pub mod Store
pub mod Stored
pub mod Calls
pub mod Readable
pub mod Fencing
pub mod Exclusive
pub mod Lookup
pub mod Superseded
pub mod Fixtures
mod Tests
use fable.Prelude.{
  ℕ, ◌+◌, ◌<◌, ◌≤◌, ◌≡◌, Str, Bool, Option, none, some, ◌==◌, ltb, str_eq, if◌then◌else◌,
}

pub data Error : Type 0 where
  invalid conflict not_registered superseded lease_expired draining dependency : Error

-- The Go type `record` and the Lua tables that it becomes. An empty text stands for a field that
-- `omitempty` leaves out; so does 0 for `auth` and `deadline`, in milliseconds since 1970.
pub record Lease : Type 0 where
  pub user : Str
  pub instance_name : Str
  pub boot : Str
  pub connection : Str
  pub token : Str
  pub address : Str
  pub is_draining : Bool
  pub auth : ℕ
  pub deadline : ℕ

-- Redis, as the script calls it: GET, SET with PX, and DEL, each at a time in milliseconds. Values
-- are the tables that cjson encodes. The laws are those of the Redis command reference.
pub record Redis : Type 1 where
  pub Db : Type 0
  pub get : ℕ → Str → Db → Option Lease
  pub set_px : ℕ → Str → Lease → ℕ → Db → Db
  pub del : Str → Db → Db
  pub get-set_px :
      (now later : ℕ) (k j : Str) (v : Lease) (px : ℕ) (db : Db)
      → now ≤ later
      → 0 < px
      → get later j (set_px now k v px db)
        ≡ (if k == j then (if ltb later (now + px) then some v else none) else get later j db)
  pub get-del :
      (later : ℕ) (k j : Str) (db : Db)
      → get later j (del k db) ≡ (if k == j then none else get later j db)

-- The key prefixes of a store, and the two lease times in milliseconds.
pub record Keys : Type 0 where
  pub instances : Str
  pub routes : Str
  pub instance_ttl : ℕ
  pub route_ttl : ℕ
