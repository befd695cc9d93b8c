-- ===== src/Comet/Hub/Invariant.antt =====
-- What holds of the hub between two commands of its owner loop.
use fable.Prelude.{
  ℤ, ℕ, ◌+◌, ◌≤◌, ◌<◌, ◌≡◌, ◌≢◌, inl, inr, Str, Bool, true, Option, none, some, List, [], ◌∷◌, ltb,
  length, arith, length-append, lookup, lookup-insert, lookup-erase, str_eq, nat_eq, Option-cases,
  Bool-cases,
}
use fable.Wire.{Time, CometIdentity, ConnectionIdentity, MessageView}
use fable.Comet.Hub.{
  Hub, new_hub, close_connection, drop_client, close_each, close_all, add_client, register,
  unregister, mark_slow, offer, deliver_one, deliver, drain, activate, receive, Command, registers,
  unregisters, delivers, drains, activates, fires, receives, fails_write, closes_hub, step, run,
}

-- A client in the map is an allocated connection of that user that has not been closed; no
-- connection was ever closed twice; no queue is longer than the hub allows.
pub record Inv (h : Hub) : Type 0 where
  pub live :
      (k : Str) (r : ℕ)
      → lookup k h.clients ≡ some r
      → (r < h.next) × ((h.heap r).closes ≡ 0) × ((h.heap r).identity.user_id ≡ k)
  pub once : (r : ℕ) → (h.heap r).closes ≤ 1
  pub bounded : (r : ℕ) → length (h.heap r).outbound ≤ h.queue_size

drop_client-Inv : (k : Str) (h : Hub) → Inv h → Inv (drop_client k h)
unfolding drop_client
drop_client-Inv k h v = elim (Option-cases (lookup k h.clients)) [
  | inl e ↦ rw (e, drop_client) v
  | inr (r, e) ↦
      rw (e, drop_client)
        (record {
          live = λ j q f. ground (arith, lookup-erase k j h.clients, v.live k r e, v.live j q, f);
          once = λ q. ground (arith, v.live k r e, v.once q);
          bounded = λ q. ground (arith, v.bounded q, v.bounded r);
        })
]

close_each-Inv : (m : List (Str × ℕ)) (h : Hub) → Inv h → Inv (close_each m h)
unfolding close_each
close_each-Inv [] h v = v
close_each-Inv ((k, r) ∷ m) h v = close_each-Inv m (drop_client k h) (drop_client-Inv k h v)

mark_slow-Inv : (r : ℕ) (h : Hub) → Inv h → Inv (mark_slow r h)
unfolding mark_slow
mark_slow-Inv r h v = elim (Bool-cases (h.heap r).slow_closed) [
  | inl e ↦ rw (e, mark_slow) v
  | inr e ↦
      rw (e, mark_slow)
        (record {
          live = λ j q f. ground (arith, v.live j q f);
          once = λ q. ground (arith, v.once q, v.once r);
          bounded = λ q. ground (arith, v.bounded q, v.bounded r);
        })
]

-- The same, but for what the map holds under one user.
record Replaceable (u : Str) (h : Hub) : Type 0 where
  others :
      (k : Str) (r : ℕ)
      → k ≢ u
      → lookup k h.clients ≡ some r
      → (r < h.next) × ((h.heap r).closes ≡ 0) × ((h.heap r).identity.user_id ≡ k)
  once : (r : ℕ) → (h.heap r).closes ≤ 1
  bounded : (r : ℕ) → length (h.heap r).outbound ≤ h.queue_size

absent-Replaceable : (u : Str) (h : Hub) → Inv h → Replaceable u h
absent-Replaceable u h v = record {
  others = λ k r n e. v.live k r e;
  once = v.once;
  bounded = v.bounded;
}

closed-Replaceable :
    (u : Str) (r : ℕ) (h : Hub)
    → lookup u h.clients ≡ some r
    → Inv h
    → Replaceable u (close_connection r h)
unfolding close_connection
closed-Replaceable u r h e v = record {
  others = λ k q n f. ground (arith, v.live k q f, v.live u r e);
  once = λ q. ground (arith, v.live u r e, v.once q);
  bounded = λ q. ground (arith, v.bounded q, v.bounded r);
}

add_client-Inv :
    (id : ConnectionIdentity) (p : Bool) (h : Hub)
    → Replaceable id.user_id h
    → Inv (add_client id p h).0
unfolding add_client
add_client-Inv id p h v = record {
  live = λ j q f. ground (
    arith,
    lookup-insert id.user_id j h.next h.clients,
    f,
    λ (n : j ≢ id.user_id) (e : lookup j h.clients ≡ some q). v.others j q n e,
  );
  once = λ q. ground (arith, v.once q);
  bounded = λ q. ground (arith, v.bounded q);
}

register-Inv : (id : ConnectionIdentity) (p : Bool) (h : Hub) → Inv h → Inv (register id p h).0
unfolding register
register-Inv id p h v = elim (Option-cases (lookup id.user_id h.clients)) [
  | inl e ↦ ground (arith, add_client-Inv id p h (absent-Replaceable id.user_id h v))
  | inr (old, e) ↦ ground (
    arith,
    add_client-Inv id p (close_connection old h) (closed-Replaceable id.user_id old h e v),
  )
]

unregister-Inv : (id : ConnectionIdentity) (h : Hub) → Inv h → Inv (unregister id h).0
unfolding unregister
unregister-Inv id h v = ground (arith, drop_client-Inv id.user_id h v)

offer-Inv :
    (m : MessageView) (id : ConnectionIdentity) (r : ℕ) (h : Hub) → Inv h → Inv (offer m id r h).0
unfolding offer
offer-Inv m id r h v = elim (Bool-cases (ltb (length (h.heap r).outbound) h.queue_size)) [
  | inl e ↦
      rw (e, offer)
        (record {
          live = λ j q f. ground (arith, v.live j q f);
          once = λ q. ground (arith, v.once q, v.once r);
          bounded = λ q. ground (arith, v.bounded q, length-append (h.heap r).outbound (m ∷ []));
        })
  | inr e ↦
      rw (e, offer)
        (let full : Hub = record h { queue_full_total = h.queue_full_total + 1 } in
          drop_client-Inv id.user_id (mark_slow r full)
            (mark_slow-Inv r full (record { live = v.live; once = v.once; bounded = v.bounded })))
]

deliver_one-Inv :
    (m : MessageView) (now : Time) (id : ConnectionIdentity) (h : Hub)
    → Inv h
    → Inv (deliver_one m now id h).0
unfolding deliver_one
deliver_one-Inv m now id h v = elim (Option-cases (lookup id.user_id h.clients)) [
  | inl e ↦ ground arith
  | inr (r, e) ↦ ground (arith, offer-Inv m id r h v)
]

deliver-Inv :
    (m : MessageView) (ts : List (Time × ConnectionIdentity)) (h : Hub)
    → Inv h
    → Inv (deliver m ts h).0
unfolding deliver
deliver-Inv m [] h v = v
deliver-Inv m ((now, id) ∷ ts) h v =
    deliver-Inv m ts (deliver_one m now id h).0 (deliver_one-Inv m now id h v)

drain-Inv : (now deadline : Time) (h : Hub) → Inv h → Inv (drain now deadline h).0
unfolding drain
drain-Inv now deadline h v = record {
  live = λ j q f. ground (arith, v.live j q, f);
  once = λ q. ground (arith, v.once q);
  bounded = λ q. ground (arith, v.bounded q);
}

activate-Inv : (r : ℕ) (h : Hub) → Inv h → Inv (activate r h).0
unfolding activate
activate-Inv r h v = record {
  live = λ j q f. ground (arith, v.live j q, f);
  once = λ q. ground (arith, v.once q, v.once r);
  bounded = λ q. ground (arith, v.bounded q, v.bounded r);
}

receive-Inv : (r : ℕ) (h : Hub) → Inv h → Inv (receive r h).0
unfolding receive
receive-Inv r h v = record {
  live = λ j q f. ground (arith, v.live j q, f);
  once = λ q. ground (arith, v.once q, v.once r);
  bounded = λ q. ground (arith, v.bounded q, v.bounded r);
}

pub close_all-Inv : (h : Hub) → Inv h → Inv (close_all h)
unfolding close_all
close_all-Inv h v = close_each-Inv h.clients h v

reset-Inv : (h : Hub) (d : Bool) (t : Option Time) → Inv h → Inv (record h { done = d; timer = t })
reset-Inv h d t v = record { live = v.live; once = v.once; bounded = v.bounded }

-- Every command keeps the invariant.
pub step-Inv : (c : Command) (h : Hub) → Inv h → Inv (step h c)
unfolding step
step-Inv (registers id p) h v = ground (arith, register-Inv id p h v)
step-Inv (unregisters id) h v = ground (arith, unregister-Inv id h v)
step-Inv (delivers m ts) h v = ground (arith, deliver-Inv m ts h v)
step-Inv (drains now deadline) h v = ground (arith, drain-Inv now deadline h v)
step-Inv (activates r) h v = ground (arith, activate-Inv r h v)
step-Inv fires h v =
    ground (arith, reset-Inv (close_all h) (close_all h).done none (close_all-Inv h v))
step-Inv (receives r) h v = receive-Inv r h v
step-Inv (fails_write r) h v = mark_slow-Inv r h v
step-Inv closes_hub h v = ground (arith, reset-Inv (close_all h) true none (close_all-Inv h v))

run_from-Inv : (cs : List Command) (h : Hub) → Inv h → Inv (run h cs)
unfolding run
run_from-Inv [] h v = v
run_from-Inv (c ∷ cs) h v = run_from-Inv cs (step h c) (step-Inv c h v)

new_hub-Inv : (id : CometIdentity) (size : ℤ) → Inv (new_hub id size)
unfolding new_hub lookup
new_hub-Inv id size = record {
  live = λ k r e. cc;
  once = λ r. omega arith;
  bounded = λ r. omega arith;
}

-- After any history of commands: each user's client in the map is an open connection of that user,
-- no connection has been closed twice (which would panic), and no queue exceeds the hub's size.
pub run-Inv : (id : CometIdentity) (size : ℤ) (cs : List Command) → Inv (run (new_hub id size) cs)
run-Inv id size cs = run_from-Inv cs (new_hub id size) (new_hub-Inv id size)
