-- ===== src/Comet/Hub/Presence/Steps.antt =====
-- Each command of the hub does to the abstract hub what the specification says.
use fable.Prelude.{
  ℤ, ◌+◌, ◌≡◌, refl, sym, subst, inl, inr, Str, Bool, true, false, none, some, List, [], ◌∷◌, ◌||◌,
  ltb, leb, arith, lookup, str_eq, nat_eq, if◌then◌else◌, Bool-cases,
}
use fable.Wire.{Time, ConnectionIdentity, MessageView, CometIdentity}
use fable.Comet.Hub.{
  Hub, new_hub, close_all, register, unregister, deliver, drain, activate, timer_fires, close_hub,
  Command, registers, unregisters, delivers, drains, activates, fires, receives, fails_write,
  closes_hub, step, run,
}
use fable.Comet.Hub.Invariant.{Inv, step-Inv, run-Inv}
use fable.Comet.Hub.Lifecycle.{close_all_lem}
use fable.Comet.Hub.Presence.{
  Presence, held, view, holds, puts, joins, leaves, starts_draining, empties, closes, Agrees, Sheds,
  Does, Follows, ends, does, mark_slow-held, receive-held, activate-held, drain-held, register-held,
}
use fable.Comet.Hub.Presence.Targets.{
  register-Alone, unregister-Alone, activate-Alone, receive-Alone, mark_slow-Alone, close_all-Alone,
  unregister-held, deliver-SeesShed,
}

-- A hub that has stopped stays as it is.
stopped-Agrees :
    (h h' : Hub) (p : Presence)
    → (h.done ≡ true → p ≡ view h)
    → (h.done ≡ false → Agrees (view h') p)
    → Agrees (view (if h.done then h else h')) p
stopped-Agrees h h' p f g = elim (Bool-cases h.done) [
  | inl d ↦
      let is : h ≡ (if h.done then h else h') = ground (arith, d) in
      subst (λ k. Agrees (view k) p) is
        (subst (Agrees (view h)) (sym (f d)) (refl, refl, λ u. refl))
  | inr d ↦
      let is : h' ≡ (if h.done then h else h') = ground (arith, d) in
      subst (λ k. Agrees (view k) p) is (g d)
]

joins-Agrees :
    (id : ConnectionIdentity) (p : Bool) (h : Hub)
    → Inv h
    → h.done ≡ false
    → Agrees (view (register id p h).0) (joins id (view h))
joins-Agrees id p h v d =
    let (same, on) = register-Alone id p h in
    elim (Bool-cases (h.draining || holds (held h) id)) [
      | inl stays ↦
          let is : view h ≡ joins id (view h) = ground (arith, d, stays) in
          subst (Agrees (view (register id p h).0)) is
            (same, on, λ u. ground (arith, register-held id p h u v, stays))
      | inr comes ↦
          let is : record (view h) { connected = puts id (some id) (held h) } ≡ joins id (view h) =
            ground (arith, d, comes) in
          subst (Agrees (view (register id p h).0)) is
            (same, on, λ u. ground (arith, register-held id p h u v, comes))
    ]

leaves-Agrees :
    (id : ConnectionIdentity) (h : Hub)
    → h.done ≡ false
    → Agrees (view (unregister id h).0) (leaves id (view h))
leaves-Agrees id h d =
    let (same, on) = unregister-Alone id h in
    elim (Bool-cases (holds (held h) id)) [
      | inr stays ↦
          let is : view h ≡ leaves id (view h) = ground (arith, d, stays) in
          subst (Agrees (view (unregister id h).0)) is
            (same, on, λ u. ground (arith, unregister-held id h u, stays))
      | inl goes ↦
          let is : record (view h) { connected = puts id none (held h) } ≡ leaves id (view h) =
            ground (arith, d, goes) in
          subst (Agrees (view (unregister id h).0)) is
            (same, on, λ u. ground (arith, unregister-held id h u, goes))
    ]

drain-status :
    (now deadline : Time) (h : Hub)
    → ((drain now deadline h).0.draining
        ≡ (if leb deadline now || ltb (now + 30_000_000_000) deadline then h.draining else true))
      × ((drain now deadline h).0.done ≡ h.done)
unfolding drain
drain-status now deadline h = (ground arith, ground arith)

drain-Agrees :
    (now deadline : Time) (h : Hub)
    → h.done ≡ false
    → Agrees (view (drain now deadline h).0) (starts_draining now deadline (view h))
drain-Agrees now deadline h d =
    let (status, on) = drain-status now deadline h in
    elim (Bool-cases (leb deadline now || ltb (now + 30_000_000_000) deadline)) [
      | inl bad ↦
          let is : view h ≡ starts_draining now deadline (view h) = ground (arith, d, bad) in
          subst (Agrees (view (drain now deadline h).0)) is
            (ground (arith, status, bad), on, drain-held now deadline h)
      | inr good ↦
          let is : record (view h) { is_draining = true } ≡ starts_draining now deadline (view h) =
            ground (arith, d, good) in
          subst (Agrees (view (drain now deadline h).0)) is
            (ground (arith, status, good), on, drain-held now deadline h)
    ]

emptied : (h : Hub) (u : Str) → Inv h → held (close_all h) u ≡ none
emptied h u v = ground (arith, (close_all_lem h v u).0)

fires-Agrees : (h : Hub) → Inv h → h.done ≡ false → Agrees (view (timer_fires h)) (empties (view h))
unfolding timer_fires
fires-Agrees h v d =
    let is : record (view h) { connected = λ _. none } ≡ empties (view h) = ground (arith, d) in
    let (same, on) = close_all-Alone h in
    subst (Agrees (view (timer_fires h))) is (same, on, λ u. emptied h u v)

closes-Agrees : (h : Hub) → Inv h → h.done ≡ false → Agrees (view (close_hub h)) (closes (view h))
unfolding close_hub
closes-Agrees h v d =
    let is : record (view h) { is_closed = true; connected = λ _. none } ≡ closes (view h) =
      ground (arith, d) in
    subst (Agrees (view (close_hub h))) is ((close_all-Alone h).0, refl, λ u. emptied h u v)

deliver-Sheds :
    (m : MessageView) (ts : List (Time × ConnectionIdentity)) (h : Hub)
    → Sheds ts (view h) (view (if h.done then h else (deliver m ts h).0))
deliver-Sheds m ts h = elim (Bool-cases h.done) [
  | inl d ↦
      let is : h ≡ (if h.done then h else (deliver m ts h).0) = ground (arith, d) in
      subst (λ k. Sheds ts (view h) (view k)) is (refl, refl, λ u. inl refl)
  | inr d ↦
      let is : (deliver m ts h).0 ≡ (if h.done then h else (deliver m ts h).0) =
        ground (arith, d) in
      let ((same, on), each) = deliver-SeesShed m ts h in
      subst (λ k. Sheds ts (view h) (view k)) is
        (
          same,
          on,
          λ u. elim (each u) [ inl kept ↦ inl kept | inr (gone, meant) ↦ inr (d, gone, meant) ],
        )
]

step-Does : (c : Command) (h : Hub) → Inv h → Does c (view h) (view (step h c))
unfolding step
step-Does (registers id p) h v =
    stopped-Agrees h (register id p h).0 (joins id (view h)) (λ d. ground (arith, d))
      (joins-Agrees id p h v)
step-Does (unregisters id) h v =
    stopped-Agrees h (unregister id h).0 (leaves id (view h)) (λ d. ground (arith, d))
      (leaves-Agrees id h)
step-Does (delivers m ts) h v = deliver-Sheds m ts h
step-Does (drains now deadline) h v =
    stopped-Agrees h (drain now deadline h).0 (starts_draining now deadline (view h))
      (λ d. ground (arith, d)) (drain-Agrees now deadline h)
step-Does (activates r) h v =
    let (same, on) = activate-Alone r h in
    stopped-Agrees h (activate r h).0 (view h) (λ d. refl) (λ d. (same, on, activate-held r h))
step-Does fires h v =
    stopped-Agrees h (timer_fires h) (empties (view h)) (λ d. ground (arith, d)) (fires-Agrees h v)
step-Does (receives r) h v = let (same, on) = receive-Alone r h in (same, on, receive-held r h)
step-Does (fails_write r) h v =
    let (same, on) = mark_slow-Alone r h in (same, on, mark_slow-held r h)
step-Does closes_hub h v =
    stopped-Agrees h (close_hub h) (closes (view h)) (λ d. ground (arith, d)) (closes-Agrees h v)

run_from-Follows : (cs : List Command) (h : Hub) → Inv h → Follows cs (view h) (view (run h cs))
unfolding run
run_from-Follows [] h v = ends
run_from-Follows (c ∷ cs) h v =
    does (step-Does c h v) (run_from-Follows cs (step h c) (step-Inv c h v))

-- Nobody is connected to a hub that neither drains nor is closed.
abbrev pub nobody_there : Presence
nobody_there = record { is_draining = false; is_closed = false; connected = λ u. none }

-- For whoever only sees who is connected, whether the hub drains and whether it is closed, every
-- history of commands on a hub does, command by command, what the abstract hub does to the same commands
-- from the empty state on: a register, an unregister, a drain, a timer and a close have exactly one
-- outcome, a delivery may only cost a target the connection that it means, and the rest change nothing.
pub run-Follows :
    (id : CometIdentity) (size : ℤ) (cs : List Command)
    → Follows cs nobody_there (view (run (new_hub id size) cs))
unfolding new_hub lookup run
run-Follows id size cs = run_from-Follows cs (new_hub id size) (run-Inv id size [])
