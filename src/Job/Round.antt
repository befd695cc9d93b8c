-- ===== src/Job/Round.antt =====
-- One round of internal/job/routing.go. What the round is answered, and when it finds
-- its context over, are its surroundings, given by position in the program.
pub mod Frozen
pub mod Steps
use fable.Prelude.{
  ℕ, zero, suc, ◌+◌, Str, Bool, true, false, not, ◌&&◌, ◌||◌, Option, none, some, List, [], ◌∷◌,
  ◌++◌, ◌==◌, leb, get_elem?, contains, str_eq, nat_eq, sort_strings, if◌then◌else◌,
}
use fable.Wire.{
  Time, Codecs, ConnectionIdentity, CometIdentity, CometLease, RouteLookupResult, RouteState, route,
  offline, no_state, CometResolution, lease, absent, DeliveryOutcome, as_time, MessageView,
}
use fable.Wire
use fable.Job.{
  Outcome, outcome_eq, unresolved, enqueued, duplicate, offline as offline_outcome, Reason,
  dependency_failure, invalid_response, route_changed, delivery_rejected, Recipient, Code,
  invalid_argument, permission_denied, unauthenticated, already_exists, unimplemented,
  RetryDirective, do_not_retry, reauthenticate, same_request, refresh_route, other_directive,
  RpcError, Reply, answer, failure,
}
use fable.Job.Batches.{
  apply_from, apply, positions_from, positions, collect, mark, repair_with, stop, rpc_failure,
}
use fable.Job.Replies.{
  future, LookupResponse, ResolveResponse, DeliverResponse, valid_delivery, valid_lookups,
  valid_resolutions,
}

-- What surrounds the delivery to one instance.
pub record InstanceEnv : Type 0 where
  pub over : Bool  -- ctx.Err() at the head of the loop
  pub lease_clock : Time  -- of the first `eligible`
  pub route_clock : Time
  pub dial : Str → Bool  -- whether a client came back
  pub late_lease_clock : Time  -- of the second `eligible`
  pub late_route_clock : Time
  pub rpc_over : Bool
  pub deliver : CometIdentity → List ConnectionIdentity → Reply (Option DeliverResponse)

-- What surrounds a round.
pub record RoundEnv : Type 0 where
  pub lookup : List Str → Reply LookupResponse
  pub lookup_clock : ℕ → ℕ → Time
  pub over : Bool  -- ctx.Err() before the instances are resolved
  pub resolve : List Str → Reply ResolveResponse
  pub resolve_clock : ℕ → ℕ → Time
  pub instance_env : Str → InstanceEnv

-- The loop over the items of a lookup that has been validated.
pub found : RouteLookupResult → Recipient → Recipient
found item s = elim item.state [
  | route (some a) ↦ record s {
    route = a.identity;
    route_deadline = as_time a.lease_deadline;
    repair = false;
  }
  | _ ↦ record s { outcome = offline_outcome; reason = none }
]

pub settle_lookup : List ℕ → List (Option RouteLookupResult) → List Recipient → List Recipient
unfolding found
settle_lookup (i ∷ is) (some item ∷ items) states =
    settle_lookup is items (apply (found item) (i ∷ []) states)
settle_lookup _ _ states = states

abbrev pub user_of : Recipient → List Str
user_of s = s.user_id ∷ []

-- lookup, for the recipients at the positions of the batch.
unfoldable pub lookup : Codecs → RoundEnv → List ℕ → List Recipient → List Recipient
unfolding collect rpc_failure settle_lookup
lookup c env batch states =
    let ids = collect user_of states batch in
    elim (env.lookup ids) [
      | failure e ↦ apply (rpc_failure e false) batch states
      | answer r ↦
          if valid_lookups c env.lookup_clock r ids
          then elim r [ none ↦ states | some items ↦ settle_lookup batch items states ]
          else apply (mark invalid_response) batch states
    ]

abbrev is_none {ℓ} : {A : Type ℓ} → Option A → Bool
is_none none = true
is_none (some a) = false

-- The first loop of `round`: who wants a route, and who has used the one repair.
abbrev wants_route : Recipient → Bool
wants_route s = s.outcome == unresolved && (not s.stopped && is_none s.route)

abbrev pub looked_up : Bool → Recipient → Bool
looked_up repaired s = wants_route s && not (s.repair && repaired)

abbrev pub spent : Bool → Recipient → Bool
spent repaired s = wants_route s && (s.repair && repaired)

-- The lookup phase: the recipients, and `repaired`, after it.
pub find_routes : Codecs → RoundEnv → Bool → List Recipient → List Recipient × Bool
unfolding apply_from positions_from lookup
find_routes c env repaired states =
    let batch = positions (looked_up repaired) states in
    let asked = apply stop (positions (spent repaired) states) states in
    elim batch [
      | [] ↦ (asked, repaired)
      | i ∷ is ↦
          let is_repair = positions (λ s. looked_up repaired s && s.repair) states in
          let answered = lookup c env (i ∷ is) asked in
          (
            apply (λ s. if s.repair && is_none s.route then stop s else s) (i ∷ is) answered,
            elim is_repair [ [] ↦ repaired | _ ∷ _ ↦ true ],
          )
    ]

-- `groups[id]`
abbrev pub routed_to : Str → Recipient → Bool
routed_to id s =
    s.outcome == unresolved
    && (not s.stopped && elim s.route [ none ↦ false | some a ↦ a.instance_id == id ])

abbrev routed : Recipient → Bool
routed s =
    s.outcome == unresolved && (not s.stopped && elim s.route [ none ↦ false | some a ↦ true ])

-- The keys of `groups`, once each.
unfoldable pub instance_names : List Recipient → List Str → List Str
instance_names [] names = names
instance_names (s ∷ ss) names = instance_names ss (
    if routed s
    then elim s.route [
      | none ↦ names
      | some a ↦ if contains names a.instance_id then names else names ++ a.instance_id ∷ []
    ]
    else names)

pub keep : (ℕ → Bool) → List ℕ → List ℕ
keep p [] = []
keep p (i ∷ is) = let rest = keep p is in if p i then i ∷ rest else rest

-- A route whose deadline is known and has passed.
abbrev pub late : Time → Recipient → Bool
late now s = not (s.route_deadline == 0) && leb s.route_deadline now

abbrev pub at {ℓ} : {A : Type ℓ} → A → (Recipient → A) → List Recipient → ℕ → A
at d f states i = elim (get_elem? states i) [ none ↦ d | some s ↦ f s ]

-- eligible: the recipients after it, and the batch that is left.
pub eligible : Time → Time → CometLease → List ℕ → List Recipient → List Recipient × List ℕ
unfolding apply_from
eligible lease_clock route_clock a batch states =
    if not (future lease_clock a.lease_deadline)
    then (apply (repair_with route_changed) batch states, [])
    else (
      apply (λ s. if late route_clock s then repair_with route_changed s else s) batch states,
      keep (λ i. at false (λ s. not (late route_clock s)) states i) batch,
    )

-- The switch over an outcome of a delivery.
pub delivered : DeliveryOutcome → Recipient → Recipient
delivered Wire.enqueued s = record s { outcome = enqueued; reason = none }
delivered Wire.duplicate s = record s { outcome = duplicate; reason = none }
delivered _ s = repair_with route_changed s

pub settle_delivery :
    List ℕ
    → List (Option (Option ConnectionIdentity × Option DeliveryOutcome))
    → List Recipient
    → List Recipient
unfolding delivered
settle_delivery (i ∷ is) (some (target, some o) ∷ items) states =
    settle_delivery is items (apply (delivered o) (i ∷ []) states)
settle_delivery _ _ states = states

abbrev pub route_of : Recipient → List ConnectionIdentity
route_of s = elim s.route [ none ↦ [] | some a ↦ a ∷ [] ]

-- What follows the dial and the second `eligible`: the call of Deliver, and its answer.
pub send : InstanceEnv → Str → Str → CometIdentity → List ℕ → List Recipient → List Recipient
unfolding collect rpc_failure settle_delivery
send env task_id message_id who batch states =
    let targets = collect route_of states batch in
    elim (env.deliver who targets) [
      | failure e ↦ apply (rpc_failure e true) batch states
      | answer r ↦
          if valid_delivery r task_id message_id targets
          then elim r [ none ↦ states | some r ↦ settle_delivery batch r.results states ]
          else apply (repair_with invalid_response) batch states
    ]

-- The body of the loop over the instances, for an instance with a lease.
pub deliver_to :
    InstanceEnv → Str → Str → CometLease → CometIdentity → List ℕ → List Recipient → List Recipient
unfolding eligible send
deliver_to env task_id message_id a who batch states =
    let (states₁, batch₁) = eligible env.lease_clock env.route_clock a batch states in
    elim batch₁ [
      | [] ↦ states₁
      | i ∷ is ↦
          if not (env.dial a.rpc_address)
          then apply (mark dependency_failure) (i ∷ is) states₁
          else (let (states₂, batch₂) =
                eligible env.late_lease_clock env.late_route_clock a (i ∷ is) states₁ in
              elim batch₂ [
                | [] ↦ states₂
                | j ∷ js ↦
                    if env.rpc_over
                    then states₂
                    else send env task_id message_id who (j ∷ js) states₂
              ])
    ]

-- The loop over the instances and their resolutions. The batches were formed before it, so each is
-- given with its instance.
pub deliver_each :
    RoundEnv
    → Str
    → Str
    → List (Str × List ℕ)
    → List (Option CometResolution)
    → List Recipient
    → List Recipient
unfolding deliver_to
deliver_each env task_id message_id ((id, batch) ∷ groups) (some r ∷ rs) states =
    if (env.instance_env id).over
    then states
    else deliver_each env task_id message_id groups rs (elim r.state [
      | lease (some a) ↦ elim a.identity [
        | none ↦ states
        | some who ↦ deliver_to (env.instance_env id) task_id message_id a who batch states
      ]
      | _ ↦ apply (repair_with route_changed) batch states
    ])
deliver_each env task_id message_id _ _ states = states

pub batches : List Recipient → List Str → List (Str × List ℕ)
unfolding positions_from
batches states [] = []
batches states (id ∷ ids) = (id, positions (routed_to id) states) ∷ batches states ids

-- `for _, batch := range groups { ... }`
pub apply_groups : (Recipient → Recipient) → List (Str × List ℕ) → List Recipient → List Recipient
unfolding apply_from
apply_groups f [] states = states
apply_groups f ((id, batch) ∷ groups) states = apply_groups f groups (apply f batch states)

-- The delivery phase.
pub dispatch_round : Codecs → RoundEnv → Str → Str → List Recipient → List Recipient
unfolding deliver_each batches apply_groups rpc_failure
dispatch_round c env task_id message_id states =
    let instances = sort_strings (instance_names states []) in
    let groups = batches states instances in
    elim instances [
      | [] ↦ states
      | id ∷ ids ↦ if env.over then states else elim (env.resolve (id ∷ ids)) [
        | failure e ↦ apply_groups (rpc_failure e false) groups states
        | answer r ↦
            if valid_resolutions c env.resolve_clock r (id ∷ ids)
            then elim r [
              | none ↦ states
              | some rs ↦ deliver_each env task_id message_id groups rs states
            ]
            else apply_groups (mark invalid_response) groups states
      ]
    ]

-- round: the recipients, and `*repaired`, after it.
unfoldable pub round : Codecs → RoundEnv → Str → Str → Bool → List Recipient → List Recipient × Bool
unfolding find_routes dispatch_round
round c env task_id message_id repaired states =
    let (states₁, repaired₁) = find_routes c env repaired states in
    (dispatch_round c env task_id message_id states₁, repaired₁)
