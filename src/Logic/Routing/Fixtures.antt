-- ===== src/Logic/Routing/Fixtures.antt =====
-- A concrete Redis, a function from keys to values with their expiry, and leases in it.
use fable.Prelude.{
  ℕ, pos, ◌+◌, ◌≤◌, ◌<◌, ◌≡◌, refl, Str, Bool, true, false, Option, none, some, List, [], ◌∷◌, ◌==◌,
  ltb, arith, text, if◌then◌else◌, str_eq, ℕ_discrete, Str-discrete, ok,
}
use fable.Logic.Routing.{Lease, Redis, Keys}
use fable.Logic.Routing.Script.{is_uuid, is_instance, is_token, is_user}
use fable.Logic.Routing.Store.{new_store, ttl_millis, blank}
use fable.Logic.Routing.Stored.{IsStore, IsReadable, new_store-IsStore}
use fable.Logic.Routing.Calls.{Call, registers, connects, run, AreValid}
use fable.Logic.Routing.Readable.{run-IsReadable}

abbrev pub Cells : Type 0
Cells = Str → Option (Lease × ℕ)

abbrev pub read_cell : ℕ → Option (Lease × ℕ) → Option Lease
read_cell now none = none
read_cell now (some (v, expiry)) = if ltb now expiry then some v else none

abbrev pub get_cell : ℕ → Str → Cells → Option Lease
get_cell now k db = read_cell now (db k)

pub read_cell-if :
    (now : ℕ) (b : Bool) (x y : Option (Lease × ℕ))
    → read_cell now (if b then x else y) ≡ (if b then read_cell now x else read_cell now y)
read_cell-if now true x y = refl
read_cell-if now false x y = refl

abbrev pub set_cell : ℕ → Str → Lease → ℕ → Cells → Cells
set_cell now k v px db j = if k == j then some (v, now + px) else db j

abbrev pub del_cell : Str → Cells → Cells
del_cell k db j = if k == j then none else db j

pub set_cell_lem :
    (now later : ℕ) (k j : Str) (v : Lease) (px : ℕ) (db : Cells)
    → now ≤ later
    → 0 < px
    → get_cell later j (set_cell now k v px db)
      ≡ (if k == j then (if ltb later (now + px) then some v else none) else get_cell later j db)
set_cell_lem now later k j v px db h l = read_cell-if later (k == j) (some (v, now + px)) (db j)

pub del_cell_lem :
    (later : ℕ) (k j : Str) (db : Cells)
    → get_cell later j (del_cell k db) ≡ (if k == j then none else get_cell later j db)
del_cell_lem later k j db = read_cell-if later (k == j) none (db j)

abbrev pub cells : Redis
cells = record {
  Db = Cells;
  get = get_cell;
  set_px = set_cell;
  del = del_cell;
  get-set_px = set_cell_lem;
  get-del = del_cell_lem;
}

abbrev pub keys : Keys
keys = record {
  instances = text "{logic-routing}:instance:";
  routes = text "{logic-routing}:route:";
  instance_ttl = 60000;
  route_ttl = 60000;
}

pub keys_made : new_store [] 0 0 ≡ ok keys
unfolding new_store ttl_millis ℕ_discrete
keys_made = refl

pub keys-IsStore : IsStore keys
keys-IsStore = new_store-IsStore [] 0 0 keys keys_made

abbrev pub nothing : Cells
nothing k = none

pub nothing-IsReadable : (now : ℕ) → IsReadable cells keys keys-IsStore now nothing
nothing-IsReadable now t key v h e = ground arith

abbrev pub uuid : Str
uuid = text "11111111-1111-1111-1111-111111111111"

abbrev pub other_uuid : Str
other_uuid = text "21111111-1111-1111-1111-111111111111"

abbrev pub boot : Lease
boot = record blank { instance_name = text "comet-1"; boot = uuid; address = text "host:1" }

abbrev pub other_boot : Lease
other_boot = record boot { boot = other_uuid }

abbrev pub claim : Lease
claim = record blank {
  user = b'U' ∷ uuid;
  instance_name = text "comet-1";
  boot = uuid;
  connection = uuid;
  token = text "AAAAAAAAAAAAAAAAAAAAAA";
}

abbrev pub other_claim : Lease
other_claim = record claim { connection = other_uuid }

-- The instance registers at 10 and the user connects at 20, until 30000.
abbrev pub calls : List (ℕ × Call)
calls = (10, registers boot) ∷ (20, connects claim (pos 30000)) ∷ []

pub calls-AreValid : AreValid cells keys 0 calls
unfolding is_instance is_uuid is_user is_token ℕ_discrete Str-discrete
calls-AreValid = (
  omega arith,
  (refl, refl, (λ e. cc), omega arith),
  (omega arith, (refl, refl, refl, refl, refl, omega arith), tt),
)

abbrev pub served : Cells
served = run cells keys ((10, registers boot) ∷ []) nothing

abbrev pub connected : Cells
connected = run cells keys calls nothing

abbrev pub route : Lease
route = record claim { auth = 30000; deadline = 30000 }

abbrev pub instance_lease : Lease
instance_lease = record boot { deadline = 60010 }

pub served-IsReadable : IsReadable cells keys keys-IsStore 10 served
unfolding is_instance is_uuid ℕ_discrete Str-discrete
served-IsReadable =
    run-IsReadable cells keys keys-IsStore 0 ((10, registers boot) ∷ []) nothing
      (omega arith, (refl, refl, (λ e. cc), omega arith), tt) (nothing-IsReadable 0)

pub connected-IsReadable : IsReadable cells keys keys-IsStore 20 connected
connected-IsReadable =
    run-IsReadable cells keys keys-IsStore 0 calls nothing calls-AreValid (nothing-IsReadable 0)

-- Another user connects at 30.
abbrev pub visitor : Lease
visitor = record claim { user = b'U' ∷ other_uuid; connection = other_uuid }

abbrev pub visited : Cells
visited = run cells keys ((30, connects visitor (pos 30000)) ∷ []) connected

pub visited-IsReadable : IsReadable cells keys keys-IsStore 30 visited
unfolding is_instance is_uuid is_user is_token ℕ_discrete Str-discrete
visited-IsReadable =
    run-IsReadable cells keys keys-IsStore 20 ((30, connects visitor (pos 30000)) ∷ []) connected
      (omega arith, (refl, refl, refl, refl, refl, omega arith), tt) connected-IsReadable
