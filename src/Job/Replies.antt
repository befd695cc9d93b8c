-- ===== src/Job/Replies.antt =====
-- The checks of internal/job/routing.go on what Logic and Comet answer. Each check reads the clock
-- anew, so a clock is a function of the item and of the check.
use fable.Prelude.{
  ℕ, ◌+◌, Str, Bool, true, false, not, ◌&&◌, ◌||◌, Option, none, some, List, [], ◌∷◌, ◌==◌, ltb,
  leb, length, any, contains, str_eq, nat_eq, atoi,
}
use fable.Wire.{
  Time, Timestamp, as_time, Codecs, ConnectionIdentity, CometLease, RouteLease, RouteLookupResult,
  RouteState, no_state, route, offline, CometResolution, lease, absent, DeliveryOutcome,
}
use fable.Wire.Identity.{valid_connection, valid_uuid, same_connection}

-- future(t), at the time that it reads.
pub future : Time → Option Timestamp → Bool
future now none = false
future now (some t) = t.check_valid && ltb now t.as_time

-- A response without its pointer is none, and so is an item.
abbrev pub LookupResponse : Type 0
LookupResponse = Option (List (Option RouteLookupResult))

abbrev pub ResolveResponse : Type 0
ResolveResponse = Option (List (Option CometResolution))

pub record DeliverResponse : Type 0 where
  pub task_id : Str
  pub message_id : Str
  pub results : List (Option (Option ConnectionIdentity × Option DeliveryOutcome))

-- "/@?# \t\r\n\\"
abbrev host_breakers : Str
host_breakers = 47 ∷ 64 ∷ 63 ∷ 35 ∷ 32 ∷ 9 ∷ 13 ∷ 10 ∷ 92 ∷ []

abbrev owned_by : Str → Option ConnectionIdentity → Bool
owned_by user none = false
owned_by user (some id) = id.user_id == user

-- sameTarget, against a target that is there.
same_target : Option ConnectionIdentity → ConnectionIdentity → Bool
unfolding same_connection
same_target none b = false
same_target (some a) b = same_connection a b

-- validDelivery's loop. An outcome is none where its number is not from ENQUEUED to DRAINING.
delivery_items :
    List (Option (Option ConnectionIdentity × Option DeliveryOutcome))
    → List ConnectionIdentity
    → Bool
unfolding same_target
delivery_items [] [] = true
delivery_items (none ∷ rs) (t ∷ ts) = false
delivery_items (some (target, none) ∷ rs) (t ∷ ts) = false
delivery_items (some (target, some outcome) ∷ rs) (t ∷ ts) =
    same_target target t && delivery_items rs ts
delivery_items _ _ = false

unfoldable pub valid_delivery : Option DeliverResponse → Str → Str → List ConnectionIdentity → Bool
unfolding delivery_items
valid_delivery none task message targets = false
valid_delivery (some r) task message targets =
    r.task_id == task
    && (r.message_id == message
        && (length r.results == length targets && delivery_items r.results targets))

module _ (c : Codecs) (clock : ℕ → ℕ → Time) where
  valid_route : ℕ → Str → Option RouteLease → Bool
  unfolding future
  valid_route i user none = false
  valid_route i user (some a) =
      valid_connection c a.identity
      && (owned_by user a.identity
          && (future (clock i 0) a.auth_expires_at
              && (future (clock i 1) a.lease_deadline
                  && leb (as_time a.lease_deadline) (as_time a.auth_expires_at))))

  valid_route_state : ℕ → Str → RouteState → Bool
  unfolding valid_route
  valid_route_state i user (route a) = valid_route i user a
  valid_route_state i user (offline reason) = reason == 1 || (reason == 2 || reason == 3)
  valid_route_state i user no_state = false

  -- validLookups, from item i on.
  lookup_items : ℕ → List (Option RouteLookupResult) → List Str → Bool
  unfolding valid_route_state
  lookup_items i [] [] = true
  lookup_items i (none ∷ rs) (id ∷ ids) = false
  lookup_items i (some item ∷ rs) (id ∷ ids) =
      item.user_id == id && (valid_route_state i id item.state && lookup_items (i + 1) rs ids)
  lookup_items i _ _ = false

  unfoldable pub valid_lookups : LookupResponse → List Str → Bool
  unfolding lookup_items
  valid_lookups none ids = false
  valid_lookups (some rs) ids = length rs == length ids && lookup_items 0 rs ids

  unfoldable pub valid_address : Str → Bool
  valid_address address = elim (c.split_host_port address) [
    | none ↦ false
    | some (host, port) ↦
        elim (atoi port) [ none ↦ false | some n ↦ ltb 0 n && leb n 65535 ]
        && (not (host == []) && not (any (contains host_breakers) host))
  ]

  valid_lease : ℕ → Str → Option CometLease → Bool
  unfolding valid_address future
  valid_lease i id none = false
  valid_lease i id (some a) = elim a.identity [
    | none ↦ false
    | some who ↦
        who.instance_id == id
        && (valid_uuid c who.boot_id
            && (future (clock i 0) a.lease_deadline && valid_address a.rpc_address))
  ]

  resolution_items : ℕ → List (Option CometResolution) → List Str → Bool
  unfolding valid_lease
  resolution_items i [] [] = true
  resolution_items i (none ∷ rs) (id ∷ ids) = false
  resolution_items i (some item ∷ rs) (id ∷ ids) =
      item.instance_id == id
      && (elim item.state [
        | lease a ↦ valid_lease i id a
        | absent reason ↦ reason == 1 || reason == 2
        | no_state ↦ false
      ]
          && resolution_items (i + 1) rs ids)
  resolution_items i _ _ = false

  unfoldable pub valid_resolutions : ResolveResponse → List Str → Bool
  unfolding resolution_items
  valid_resolutions none ids = false
  valid_resolutions (some rs) ids = length rs == length ids && resolution_items 0 rs ids
