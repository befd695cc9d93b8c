-- ===== src/Comet/Hub/Presence.antt =====
-- What a hub promises, without its heap, queues and channels: who is connected, and whether it drains.
pub mod Targets
pub mod Steps
use fable.Prelude.{
  ℕ, ◌+◌, ◌<◌, ◌≡◌, refl, sym, ap, ◌∙◌, subst, ◌⊎◌, inl, inr, Str, Bool, true, false, Option, none,
  some, List, [], ◌∷◌, ◌==◌, ◌&&◌, ◌||◌, not, ltb, leb, length, arith, lookup, lookup-insert,
  lookup-erase, str_eq, nat_eq, if◌then◌else◌, Option-cases, Bool-cases,
}
use fable.Wire.{Time, ConnectionIdentity, MessageView, CometIdentity}
use fable.Wire.Identity.{same_connection}
use fable.Comet.Hub.{
  Hub, new_hub, close_connection, drop_client, close_each, close_all, add_client, register,
  unregister, mark_slow, offer, deliver_one, deliver, drain, activate, timer_fires, close_hub,
  receive, Command, registers, unregisters, delivers, drains, activates, fires, receives,
  fails_write, closes_hub, step, run,
}
use fable.Comet.Hub.Invariant.{Inv, step-Inv, run-Inv}
use fable.Comet.Hub.Lifecycle.{close_all_lem}

-- The abstract hub.
pub record Presence : Type 0 where
  pub is_draining : Bool
  pub is_closed : Bool
  pub connected : Str → Option ConnectionIdentity

-- The connection that the client map holds under a user.
abbrev pub held : Hub → Str → Option ConnectionIdentity
held h u = elim (lookup u h.clients) [ none ↦ none | some r ↦ some (h.heap r).identity ]

abbrev pub view : Hub → Presence
view h = record { is_draining = h.draining; is_closed = h.done; connected = held h }

-- Whether the connection of an identity's user is that identity.
abbrev pub holds : (Str → Option ConnectionIdentity) → ConnectionIdentity → Bool
holds f id = elim (f id.user_id) [ none ↦ false | some who ↦ same_connection who id ]

abbrev pub puts :
    ConnectionIdentity
    → Option ConnectionIdentity
    → (Str → Option ConnectionIdentity)
    → Str
    → Option ConnectionIdentity
puts id who f u = if id.user_id == u then who else f u

-- A connection joins unless the hub drains or is closed, or it is there already; it takes its user over
-- from whoever was there.
abbrev pub joins : ConnectionIdentity → Presence → Presence
joins id p =
    if p.is_closed || (p.is_draining || holds p.connected id)
    then p
    else record p { connected = puts id (some id) p.connected }

-- Only the connection that is there can leave.
abbrev pub leaves : ConnectionIdentity → Presence → Presence
leaves id p =
    if p.is_closed || not (holds p.connected id)
    then p
    else record p { connected = puts id none p.connected }

-- A deadline within the 30 seconds from now on starts the draining.
abbrev pub starts_draining : Time → Time → Presence → Presence
starts_draining now deadline p =
    if p.is_closed || (leb deadline now || ltb (now + 30_000_000_000) deadline)
    then p
    else record p { is_draining = true }

abbrev pub empties : Presence → Presence
empties p = if p.is_closed then p else record p { connected = λ _. none }

abbrev pub closes : Presence → Presence
closes p = if p.is_closed then p else record p { is_closed = true; connected = λ _. none }

abbrev pub Agrees : Presence → Presence → Type 0
Agrees q p =
    (q.is_draining ≡ p.is_draining)
    × (q.is_closed ≡ p.is_closed)
    × ((u : Str) → q.connected u ≡ p.connected u)

-- A user is one of the targets, by the connection that it has.
abbrev pub Meant :
    List (Time × ConnectionIdentity) → (Str → Option ConnectionIdentity) → Str → Type 0
Meant [] f u = ⊥
Meant ((now, id) ∷ ts) f u = ((id.user_id ≡ u) × (holds f id ≡ true)) ⊎ Meant ts f u

-- A delivery may cost a target its connection, and touches nobody else.
abbrev pub Sheds : List (Time × ConnectionIdentity) → Presence → Presence → Type 0
Sheds ts p q =
    (q.is_draining ≡ p.is_draining)
    × (q.is_closed ≡ p.is_closed)
    × ((u : Str)
        → (q.connected u ≡ p.connected u)
          ⊎ ((p.is_closed ≡ false) × (q.connected u ≡ none) × Meant ts p.connected u))

-- What a command does to the abstract hub.
abbrev pub Does : Command → Presence → Presence → Type 0
Does (registers id pending) p q = Agrees q (joins id p)
Does (unregisters id) p q = Agrees q (leaves id p)
Does (delivers m ts) p q = Sheds ts p q
Does (drains now deadline) p q = Agrees q (starts_draining now deadline p)
Does (activates r) p q = Agrees q p
Does fires p q = Agrees q (empties p)
Does (receives r) p q = Agrees q p
Does (fails_write r) p q = Agrees q p
Does closes_hub p q = Agrees q (closes p)

-- The abstract hub takes the same commands, one by one.
pub data Follows : List Command → Presence → Presence → Type 0 where
  ends : {p : Presence} → Follows [] p p
  does :
      {c : Command} {cs : List Command} {p q r : Presence}
      → Does c p q
      → Follows cs q r
      → Follows (c ∷ cs) p r

close_connection-held : (r : ℕ) (h : Hub) (u : Str) → held (close_connection r h) u ≡ held h u
unfolding close_connection
close_connection-held r h u = ground arith

mark_slow-held : (r : ℕ) (h : Hub) (u : Str) → held (mark_slow r h) u ≡ held h u
unfolding mark_slow
mark_slow-held r h u = ground arith

drop_client-held :
    (k : Str) (h : Hub) (u : Str) → held (drop_client k h) u ≡ (if k == u then none else held h u)
unfolding drop_client close_connection
drop_client-held k h u = ground (arith, lookup-erase k u h.clients)

receive-held : (r : ℕ) (h : Hub) (u : Str) → held (receive r h).0 u ≡ held h u
unfolding receive
receive-held r h u = ground arith

activate-held : (r : ℕ) (h : Hub) (u : Str) → held (activate r h).0 u ≡ held h u
unfolding activate
activate-held r h u = ground arith

drain-held : (now deadline : Time) (h : Hub) (u : Str) → held (drain now deadline h).0 u ≡ held h u
unfolding drain
drain-held now deadline h u = ground arith

close_connection-below :
    (old : ℕ) (h : Hub) (u : Str)
    → Inv h
    → (r : ℕ) → lookup u (close_connection old h).clients ≡ some r
    → r < (close_connection old h).next
unfolding close_connection
close_connection-below old h u v r f = (v.live u r f).0

add_client-held :
    (id : ConnectionIdentity) (p : Bool) (h : Hub) (u : Str)
    → ((r : ℕ) → lookup u h.clients ≡ some r → r < h.next)
    → held (add_client id p h).0 u ≡ (if id.user_id == u then some id else held h u)
unfolding add_client
add_client-held id p h u v = elim (Option-cases (lookup u h.clients)) [
  | inl e ↦ ground (arith, lookup-insert id.user_id u h.next h.clients)
  | inr (r, e) ↦ ground (arith, lookup-insert id.user_id u h.next h.clients, v r e)
]

register-held :
    (id : ConnectionIdentity) (p : Bool) (h : Hub) (u : Str)
    → Inv h
    → held (register id p h).0 u
      ≡ (if h.draining || holds (held h) id then held h u else puts id (some id) (held h) u)
unfolding register
register-held id p h u v = elim (Bool-cases h.draining) [
  | inl d ↦ ground (arith, d)
  | inr d ↦ elim (Option-cases (lookup id.user_id h.clients)) [
    | inl e ↦ ground (arith, d, e, add_client-held id p h u (λ r f. (v.live u r f).0))
    | inr (old, e) ↦ elim (Bool-cases (same_connection (h.heap old).identity id)) [
      | inl m ↦ ground (arith, d, e, m)
      | inr m ↦ ground (
        arith,
        d,
        e,
        m,
        close_connection-held old h u,
        add_client-held id p (close_connection old h) u
            (λ r f. close_connection-below old h u v r f),
      )
    ]
  ]
]
