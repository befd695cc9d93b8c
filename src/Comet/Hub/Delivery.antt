-- ===== src/Comet/Hub/Delivery.antt =====
-- What Deliver does with each target, and that Unregister is fenced by the whole identity.
use fable.Prelude.{
  ℕ, ◌+◌, ◌≤◌, ◌≡◌, ◌≢◌, refl, ap, ◌⊎◌, inl, inr, Str, true, false, none, some, List, [], ◌∷◌, ◌++◌,
  ◌&&◌, ◌||◌, ltb, leb, length, map, All, arith, lookup, lookup-erase, str_eq, nat_eq, Option-cases,
  Bool-cases,
}
use fable.Wire.{
  Time, CometIdentity, ConnectionIdentity, MessageView, DeliveryOutcome, enqueued, not_found, stale,
  queue_full, DeliveryResult, ConditionalDeleteOutcome, deleted, not_current, missing,
}
use fable.Wire
use fable.Wire.Identity.{same_connection}
use fable.Comet.Hub.{Hub, drop_client, unregister, mark_slow, offer, deliver_one, deliver}

-- A report for every target, in the order of the request.
pub targets-deliver :
    (m : MessageView) (ts : List (Time × ConnectionIdentity)) (h : Hub)
    → map (λ r. r.target) (deliver m ts h).1 ≡ map (λ t. t.1) ts
unfolding deliver
targets-deliver m [] h = refl
targets-deliver m ((now, id) ∷ ts) h = ap (◌∷◌ id) (targets-deliver m ts (deliver_one m now id h).0)

abbrev pub queue : Hub → ℕ → List MessageView
queue h r = (h.heap r).outbound

-- What an ENQUEUED report means.
abbrev pub Queued : MessageView → ConnectionIdentity → Hub → Hub → Type 0
Queued m id h h' =
    (r : ℕ) × (lookup id.user_id h.clients ≡ some r)
    × (same_connection (h.heap r).identity id ≡ true)
    × ((h.heap r).pending ≡ false)
    × (queue h' r ≡ queue h r ++ m ∷ [])
    × ((q : ℕ) → (q ≡ r) ⊎ (queue h' q ≡ queue h q))

drop_client-queue : (k : Str) (h : Hub) (q : ℕ) → queue (drop_client k h) q ≡ queue h q
unfolding drop_client
drop_client-queue k h q = ground arith

mark_slow-queue : (r : ℕ) (h : Hub) (q : ℕ) → queue (mark_slow r h) q ≡ queue h q
unfolding mark_slow
mark_slow-queue r h q = ground arith

offer_cases :
    (m : MessageView) (id : ConnectionIdentity) (r : ℕ) (h : Hub)
    → let (h', outcome) = offer m id r h in
      ((outcome ≡ enqueued)
        × (queue h' r ≡ queue h r ++ m ∷ [])
        × ((q : ℕ) → (q ≡ r) ⊎ (queue h' q ≡ queue h q)))
      ⊎ ((outcome ≡ queue_full) × ((q : ℕ) → queue h' q ≡ queue h q))
unfolding offer
offer_cases m id r h = elim (Bool-cases (ltb (length (queue h r)) h.queue_size)) [
  | inl e ↦ inl (rw e, ground arith, λ q. ground arith)
  | inr e ↦
      let full : Hub = record h { queue_full_total = h.queue_full_total + 1 } in
      inr (
        rw e,
        λ q.
            ground
              (arith, drop_client-queue id.user_id (mark_slow r full) q, mark_slow-queue r full q),
      )
]

-- A target is reported ENQUEUED exactly when the message went to the end of the queue of the user's
-- current, active connection with that very identity, and to no other; on any other outcome no
-- queue changes.
pub deliver_one_cases :
    (m : MessageView) (now : Time) (id : ConnectionIdentity) (h : Hub)
    → let (h', outcome) = deliver_one m now id h in
      ((outcome ≡ enqueued) × Queued m id h h')
      ⊎ ((outcome ≢ enqueued) × ((q : ℕ) → queue h' q ≡ queue h q))
unfolding deliver_one
deliver_one_cases m now id h = elim (Option-cases (lookup id.user_id h.clients)) [
  | inl e ↦ inr (ground arith, λ q. ground arith)
  | inr (r, e) ↦ elim (Bool-cases (h.draining && leb h.deadline now || (h.heap r).pending)) [
    | inl b ↦ inr (ground arith, λ q. ground arith)
    | inr b ↦ elim (Bool-cases (same_connection (h.heap r).identity id)) [
      | inr d ↦ inr (ground arith, λ q. ground arith)
      | inl d ↦ elim (offer_cases m id r h) [
        | inl (o, p, n) ↦
            inl (ground arith, (r, e, d, ground arith, ground arith, λ q. ground (arith, n q)))
        | inr (o, n) ↦ inr (ground arith, λ q. ground (arith, n q))
      ]
    ]
  ]
]

-- Once the deadline of a drain has passed, Deliver changes nothing and reports DRAINING throughout.
pub deliver_past_deadline :
    (m : MessageView) (ts : List (Time × ConnectionIdentity)) (h : Hub)
    → h.draining ≡ true
    → All (λ t. h.deadline ≤ t.0) ts
    → ((deliver m ts h).0 ≡ h) × All (λ r. r.outcome ≡ Wire.draining) (deliver m ts h).1
unfolding deliver deliver_one
deliver_past_deadline m [] h d late = (refl, tt)
deliver_past_deadline m ((now, id) ∷ ts) h d late =
    ground (arith, deliver_past_deadline m ts h d late.1)

-- Unregister: with no client of the user, MISSING; with another identity, NOT_CURRENT; both leave
-- the hub as it was. With the same identity the client goes, and its connection is closed.
pub unregister_cases :
    (id : ConnectionIdentity) (h : Hub)
    → let (h', outcome) = unregister id h in
      ((lookup id.user_id h.clients ≡ none) × (outcome ≡ missing) × (h' ≡ h))
      ⊎ ((r : ℕ) × (lookup id.user_id h.clients ≡ some r)
          × (((same_connection (h.heap r).identity id ≡ false) × (outcome ≡ not_current) × (h' ≡ h))
              ⊎ ((same_connection (h.heap r).identity id ≡ true)
                  × (outcome ≡ deleted)
                  × (lookup id.user_id h'.clients ≡ none)
                  × ((h'.heap r).closes ≡ (h.heap r).closes + 1))))
unfolding unregister drop_client
unregister_cases id h = elim (Option-cases (lookup id.user_id h.clients)) [
  | inl e ↦ inl (e, ground arith, ground arith)
  | inr (r, e) ↦ inr (
    r,
    e,
    elim (Bool-cases (same_connection (h.heap r).identity id)) [
      | inl s ↦ inr (
        s,
        ground arith,
        ground (arith, lookup-erase id.user_id id.user_id h.clients),
        ground arith,
      )
      | inr s ↦ inl (s, ground arith, ground arith)
    ],
  )
]
