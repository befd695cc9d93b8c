-- ===== src/Logic/Routing/Tests.antt =====
-- The theorems on leases over a concrete database: a function from keys to values with their expiry.
use fable.Prelude.{
  pos, ◌+◌, ◌≤◌, ◌<◌, ◌≡◌, refl, true, none, List, [], ◌∷◌, ◌++◌, map, All, arith, text, has_prefix,
  str_eq, ℕ_discrete, Str-discrete, ok, err,
}
use fable.Wire.{not_current}
use fable.Logic.Routing.{conflict, not_registered, superseded}
use fable.Logic.Routing.Script.{
  is_uuid, is_instance, is_token, is_user, same, route_key, instance_key, read, register, renew,
  unregister, disconnect, connect, check, heartbeat, valid_owner, Found, lookup_routes, is_stored,
  grant_instance, save, is_timestamp,
}
use fable.Logic.Routing.Stored.{IsReadable-later}
use fable.Logic.Routing.Calls.{run, step}
use fable.Logic.Routing.Readable.{read-run}
use fable.Logic.Routing.Fencing.{connect_supersedes, connect_checks}
use fable.Logic.Routing.Exclusive.{register_exclusive}
use fable.Logic.Routing.Lookup.{Answers, lookup_routes-Answers}
use fable.Logic.Routing.Fixtures.{
  visited, visited-IsReadable, connected-IsReadable, Cells, get_cell, set_cell, cells, keys,
  keys-IsStore, nothing, nothing-IsReadable, uuid, other_uuid, boot, other_boot, claim, other_claim,
  calls, calls-AreValid, served, connected, route, instance_lease, served-IsReadable,
}

read-run_example :
    read cells keys 50 (route_key cells keys (b'U' ∷ uuid)) (run cells keys calls nothing)
    ≡ ok (get_cell 50 (route_key cells keys (b'U' ∷ uuid)) (run cells keys calls nothing))
read-run_example =
    read-run cells keys keys-IsStore 0 50 calls nothing (route_key cells keys (b'U' ∷ uuid))
      (λ t k. refl) calls-AreValid (omega arith)

connect_ok : connect cells keys 20 claim (pos 30000) served ≡ ok (connected, (route, none))
unfolding connect run step register read is_stored grant_instance save is_instance is_uuid is_user
    is_token ℕ_discrete Str-discrete has_prefix is_timestamp
connect_ok = refl

route_kept :
    get_cell 50 (route_key cells keys claim.user) visited
    ≡ get_cell 50 (route_key cells keys claim.user) connected
unfolding valid_owner connect run step register read is_stored grant_instance save is_instance
    is_uuid is_user is_token ℕ_discrete Str-discrete has_prefix is_timestamp
route_kept = refl

connect_supersedes_example :
    (check cells keys 50 other_claim visited ≡ err superseded)
    × (heartbeat cells keys 50 other_claim visited ≡ err superseded)
    × (disconnect cells keys 50 other_claim visited ≡ ok (visited, not_current))
unfolding same ℕ_discrete Str-discrete
connect_supersedes_example =
    connect_supersedes cells keys keys-IsStore 20 50 claim other_claim (pos 30000) served connected
      visited route none
      (IsReadable-later cells keys keys-IsStore 10 20 served (omega arith) served-IsReadable)
      (IsReadable-later cells keys keys-IsStore 30 50 visited (omega arith) visited-IsReadable)
      route_kept connect_ok (omega arith) (omega arith) refl refl

owner_ok : valid_owner cells keys 50 route visited ≡ ok true
unfolding valid_owner connect run step register read is_stored grant_instance save is_instance
    is_uuid is_user is_token ℕ_discrete Str-discrete has_prefix is_timestamp
owner_ok = refl

connect_checks_example :
    (check cells keys 50 claim visited ≡ ok (visited, route))
    × (30000 ≤ 30000)
    × (30000 ≤ 20 + 60000)
    × (20 + 5000 < 30000)
connect_checks_example =
    connect_checks cells keys keys-IsStore 20 50 claim (pos 30000) served connected visited route
      none (IsReadable-later cells keys keys-IsStore 10 20 served (omega arith) served-IsReadable)
      (IsReadable-later cells keys keys-IsStore 30 50 visited (omega arith) visited-IsReadable)
      route_kept connect_ok (omega arith) (omega arith) owner_ok

abbrev kept : Cells
kept = set_cell 30 (text "{logic-routing}:route:" ++ b'U' ∷ uuid) route 29970 connected

register-eq-ok : register cells keys 10 boot nothing ≡ ok (served, instance_lease)
unfolding run step register read is_stored grant_instance save ℕ_discrete Str-discrete
register-eq-ok = refl

instance_kept :
    get_cell 40 (instance_key cells keys boot.instance_name) connected
    ≡ get_cell 40 (instance_key cells keys boot.instance_name) served
unfolding valid_owner connect run step register read is_stored grant_instance save is_instance
    is_uuid is_user is_token ℕ_discrete Str-discrete has_prefix is_timestamp
instance_kept = refl

register_exclusive_example :
    (register cells keys 40 other_boot connected ≡ err conflict)
    × (renew cells keys 40 other_boot connected ≡ err not_registered)
    × (connect cells keys 40 other_boot (pos 30000) connected ≡ err not_registered)
    × (unregister cells keys 40 other_boot connected ≡ ok (connected, not_current))
register_exclusive_example =
    register_exclusive cells keys keys-IsStore 10 40 boot other_boot (pos 30000) nothing served
      connected instance_lease (nothing-IsReadable 10)
      (IsReadable-later cells keys keys-IsStore 20 40 connected (omega arith) connected-IsReadable)
      instance_kept register-eq-ok (omega arith) (omega arith) refl (λ e. ground arith)

lookup_routes-Answers_example :
    (fs : List Found) × (lookup_routes cells keys 50
        ((b'U' ∷ uuid) ∷ (b'U' ∷ other_uuid) ∷ [])
        connected
      ≡ ok fs)
    × (map (λ f. f.id) fs ≡ (b'U' ∷ uuid) ∷ (b'U' ∷ other_uuid) ∷ [])
    × All (Answers cells keys keys-IsStore 50 connected) fs
lookup_routes-Answers_example =
    lookup_routes-Answers cells keys keys-IsStore 50 ((b'U' ∷ uuid) ∷ (b'U' ∷ other_uuid) ∷ [])
      connected
      (IsReadable-later cells keys keys-IsStore 20 50 connected (omega arith) connected-IsReadable)
