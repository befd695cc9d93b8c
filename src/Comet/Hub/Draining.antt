-- ===== src/Comet/Hub/Draining.antt =====
-- What a draining hub still does: its deadline only comes nearer, and it gains no client.
use fable.Prelude.{
  ℕ, ◌+◌, ◌≤◌, ◌<◌, ◌≡◌, refl, sym, none, ◌∙◌, ◌⊎◌, inl, inr, Str, true, some, List, [], ◌∷◌, ◌||◌,
  ltb, leb, length, arith, lookup, lookup-erase, str_eq, nat_eq, Option-cases, Bool-cases, ok, err,
}
use fable.Wire.{Time, ConnectionIdentity, MessageView}
use fable.Comet.Hub.{
  invalid_error, Hub, drop_client, close_each, close_all, register, unregister, mark_slow, offer,
  deliver_one, deliver, drain, activate, timer_fires, close_hub, receive, Command, registers,
  unregisters, delivers, drains, activates, fires, receives, fails_write, closes_hub, step, run,
}

-- A step that leaves the drain alone and gains no client.
abbrev Shrinks : Hub → Hub → Type 0
Shrinks h h' =
    (h'.draining ≡ h.draining)
    × (h'.deadline ≡ h.deadline)
    × ((k : Str) (r : ℕ) → lookup k h'.clients ≡ some r → lookup k h.clients ≡ some r)

drop_client-Shrinks : (k : Str) (h : Hub) → Shrinks h (drop_client k h)
unfolding drop_client
drop_client-Shrinks k h =
    (ground arith, ground arith, λ j r e. ground (arith, lookup-erase k j h.clients))

close_each-Shrinks : (m : List (Str × ℕ)) (h : Hub) → Shrinks h (close_each m h)
unfolding close_each
close_each-Shrinks [] h = (refl, refl, λ j r e. e)
close_each-Shrinks ((k, q) ∷ m) h =
    let (d, t, s) = close_each-Shrinks m (drop_client k h) in
    let (d', t', s') = drop_client-Shrinks k h in (d ∙ d', t ∙ t', λ j r e. s' j r (s j r e))

mark_slow-Shrinks : (r : ℕ) (h : Hub) → Shrinks h (mark_slow r h)
unfolding mark_slow
mark_slow-Shrinks r h = (ground arith, ground arith, λ j q e. ground arith)

offer-Shrinks :
    (m : MessageView) (id : ConnectionIdentity) (r : ℕ) (h : Hub) → Shrinks h (offer m id r h).0
unfolding offer
offer-Shrinks m id r h =
    let full : Hub = record h { queue_full_total = h.queue_full_total + 1 } in
    let (d, t, s) = drop_client-Shrinks id.user_id (mark_slow r full) in
    let (d', t', s') = mark_slow-Shrinks r full in
    (ground arith, ground arith, λ j q e. ground (arith, s j q, s' j q))

deliver_one-Shrinks :
    (m : MessageView) (now : Time) (id : ConnectionIdentity) (h : Hub)
    → Shrinks h (deliver_one m now id h).0
unfolding deliver_one
deliver_one-Shrinks m now id h = elim (Option-cases (lookup id.user_id h.clients)) [
  | inl e ↦ (ground arith, ground arith, λ j q f. ground arith)
  | inr (r, e) ↦
      let (d, t, s) = offer-Shrinks m id r h in
      (ground arith, ground arith, λ j q f. ground (arith, s j q))
]

deliver-Shrinks :
    (m : MessageView) (ts : List (Time × ConnectionIdentity)) (h : Hub)
    → Shrinks h (deliver m ts h).0
unfolding deliver
deliver-Shrinks m [] h = (refl, refl, λ j r e. e)
deliver-Shrinks m ((now, id) ∷ ts) h =
    let (d, t, s) = deliver-Shrinks m ts (deliver_one m now id h).0 in
    let (d', t', s') = deliver_one-Shrinks m now id h in (d ∙ d', t ∙ t', λ j r e. s' j r (s j r e))

unregister-Shrinks : (id : ConnectionIdentity) (h : Hub) → Shrinks h (unregister id h).0
unfolding unregister
unregister-Shrinks id h =
    let (d, t, s) = drop_client-Shrinks id.user_id h in
    (ground arith, ground arith, λ j r e. ground (arith, s j r))

-- What stays true of a draining hub.
abbrev Narrows : Hub → Hub → Type 0
Narrows h h' =
    (h'.draining ≡ true)
    × (h'.deadline ≤ h.deadline)
    × ((k : Str) (r : ℕ) → lookup k h'.clients ≡ some r → lookup k h.clients ≡ some r)

of_Shrinks : (h h' : Hub) → h.draining ≡ true → Shrinks h h' → Narrows h h'
of_Shrinks h h' d s = (ground arith, ground arith, s.2)

step-Narrows : (c : Command) (h : Hub) → h.draining ≡ true → Narrows h (step h c)
unfolding step register drain activate receive timer_fires close_hub close_all
step-Narrows (registers id p) h d = (ground arith, ground arith, λ j r e. ground arith)
step-Narrows (unregisters id) h d = elim (Bool-cases h.done) [
  | inl e ↦ (ground arith, ground arith, λ j r f. ground arith)
  | inr e ↦
      let s = of_Shrinks h (unregister id h).0 d (unregister-Shrinks id h) in
      (ground arith, ground arith, λ j r f. ground (arith, s.2 j r))
]
step-Narrows (delivers m ts) h d =
    let s = of_Shrinks h (deliver m ts h).0 d (deliver-Shrinks m ts h) in
    (ground arith, ground arith, λ j r f. ground (arith, s.2 j r))
step-Narrows (drains now deadline) h d = (ground arith, ground arith, λ j r e. ground arith)
step-Narrows (activates r) h d = (ground arith, ground arith, λ j r e. ground arith)
step-Narrows fires h d =
    let s = of_Shrinks h (close_each h.clients h) d (close_each-Shrinks h.clients h) in
    (ground arith, ground arith, λ j r f. ground (arith, s.2 j r))
step-Narrows (receives r) h d = (ground arith, ground arith, λ j r e. ground arith)
step-Narrows (fails_write r) h d = of_Shrinks h (mark_slow r h) d (mark_slow-Shrinks r h)
step-Narrows closes_hub h d =
    let s = of_Shrinks h (close_each h.clients h) d (close_each-Shrinks h.clients h) in
    (ground arith, ground arith, λ j r f. ground (arith, s.2 j r))

run-Narrows : (cs : List Command) (h : Hub) → h.draining ≡ true → Narrows h (run h cs)
unfolding run
run-Narrows [] h d = (d, omega arith, λ k r e. e)
run-Narrows (c ∷ cs) h d =
    let (d1, t1, s1) = step-Narrows c h d in
    let (d2, t2, s2) = run-Narrows cs (step h c) d1 in (d2, omega arith, λ k r e. s1 k r (s2 k r e))

-- What a draining hub has become: it still drains, to a deadline that is no later, and a user has the
-- same client as before or none.
abbrev pub StillDraining : Hub → Hub → Type 0
StillDraining h h' =
    (h'.draining ≡ true)
    × (h'.deadline ≤ h.deadline)
    × ((k : Str) → (lookup k h'.clients ≡ none) ⊎ (lookup k h'.clients ≡ lookup k h.clients))

-- From a draining hub, whatever the commands: it goes on draining, its deadline never moves later,
-- and every client of the end was that user's client at the start.
pub run-StillDraining :
    (cs : List Command) (h : Hub) → h.draining ≡ true → StillDraining h (run h cs)
run-StillDraining cs h d =
    let (d', t, s) = run-Narrows cs h d in
    (
      d',
      t,
      λ k. elim (Option-cases (lookup k (run h cs).clients)) [
        | inl e ↦ inl e
        | inr (r, e) ↦ inr (e ∙ sym (s k r e))
      ],
    )

-- Drain accepts exactly a deadline in the future, at most 30 seconds away; it then answers with the
-- deadline in force, which is the given one or an earlier one of an earlier drain.
pub drain_cases :
    (now deadline : Time) (h : Hub)
    → let (h', answer) = drain now deadline h in
      (((deadline ≤ now) ⊎ (now + 30_000_000_000 < deadline))
        × (answer ≡ err invalid_error)
        × (h' ≡ h))
      ⊎ ((now < deadline)
          × (deadline ≤ now + 30_000_000_000)
          × (h'.draining ≡ true)
          × (h'.deadline ≤ deadline)
          × (answer
              ≡ ok (record {
                deadline = h'.deadline;
                already_draining = h.draining;
                active_connections = length h.clients;
              }))
          × ((h'.deadline ≡ deadline) ⊎ ((h.draining ≡ true) × (h'.deadline ≡ h.deadline))))
unfolding drain
drain_cases now deadline h =
    elim (Bool-cases (leb deadline now || ltb (now + 30_000_000_000) deadline)) [
      | inl e ↦ inl (ground arith, ground arith, ground arith)
      | inr e ↦
          inr (ground arith, ground arith, ground arith, ground arith, ground arith, ground arith)
    ]
