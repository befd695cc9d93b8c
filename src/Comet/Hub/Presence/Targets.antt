-- ===== src/Comet/Hub/Presence/Targets.antt =====
-- What the hub's operations do to its status, and what a delivery costs its targets.
use fable.Prelude.{
  ℕ, ◌+◌, ◌≡◌, refl, sym, ap, ◌∙◌, subst, ◌⊎◌, inl, inr, Str, Bool, true, Option, none, some, List,
  [], ◌∷◌, ◌==◌, ◌&&◌, ltb, leb, length, arith, lookup, str_eq, nat_eq, if◌then◌else◌, Option-cases,
  Bool-cases,
}
use fable.Wire.{Time, ConnectionIdentity, MessageView}
use fable.Wire.Identity.{same_connection}
use fable.Comet.Hub.{
  Hub, close_connection, drop_client, close_each, close_all, add_client, register, unregister,
  mark_slow, offer, deliver_one, deliver, activate, receive,
}
use fable.Comet.Hub.Presence.{held, holds, puts, Meant, mark_slow-held, drop_client-held}

-- An operation leaves the draining and the end of the hub alone.
abbrev pub Alone : Hub → Hub → Type 0
Alone h h' = (h'.draining ≡ h.draining) × (h'.done ≡ h.done)

pub register-Alone : (id : ConnectionIdentity) (p : Bool) (h : Hub) → Alone h (register id p h).0
unfolding register add_client close_connection
register-Alone id p h = (ground arith, ground arith)

pub unregister-Alone : (id : ConnectionIdentity) (h : Hub) → Alone h (unregister id h).0
unfolding unregister drop_client close_connection
unregister-Alone id h = (ground arith, ground arith)

drop_client-Alone : (k : Str) (h : Hub) → Alone h (drop_client k h)
unfolding drop_client close_connection
drop_client-Alone k h = (ground arith, ground arith)

pub mark_slow-Alone : (r : ℕ) (h : Hub) → Alone h (mark_slow r h)
unfolding mark_slow
mark_slow-Alone r h = (ground arith, ground arith)

pub activate-Alone : (r : ℕ) (h : Hub) → Alone h (activate r h).0
unfolding activate
activate-Alone r h = (ground arith, ground arith)

pub receive-Alone : (r : ℕ) (h : Hub) → Alone h (receive r h).0
unfolding receive
receive-Alone r h = (ground arith, ground arith)

close_each-Alone : (m : List (Str × ℕ)) (h : Hub) → Alone h (close_each m h)
unfolding close_each
close_each-Alone [] h = (refl, refl)
close_each-Alone ((k, r) ∷ m) h =
    let (d, e) = close_each-Alone m (drop_client k h) in
    let (f, g) = drop_client-Alone k h in (d ∙ f, e ∙ g)

pub close_all-Alone : (h : Hub) → Alone h (close_all h)
unfolding close_all
close_all-Alone h = close_each-Alone h.clients h

pub unregister-held :
    (id : ConnectionIdentity) (h : Hub) (u : Str)
    → held (unregister id h).0 u ≡ (if holds (held h) id then puts id none (held h) u else held h u)
unfolding unregister
unregister-held id h u = elim (Option-cases (lookup id.user_id h.clients)) [
  | inl e ↦ ground (arith, e)
  | inr (r, e) ↦ ground (arith, e, drop_client-held id.user_id h u)
]

-- The hub that `offer` drops a client from: a total and a mark have changed.
abbrev slowed : ℕ → Hub → Hub
slowed r h = mark_slow r (record h { queue_full_total = h.queue_full_total + 1 })

slowed-held : (r : ℕ) (h : Hub) (u : Str) → held (slowed r h) u ≡ held h u
slowed-held r h u = mark_slow-held r (record h { queue_full_total = h.queue_full_total + 1 }) u

-- One target of a delivery, seen from a user.
abbrev Touches : ConnectionIdentity → Hub → Hub → Type 0
Touches id h h' =
    Alone h h'
    × ((u : Str)
        → (held h' u ≡ held h u)
          ⊎ ((held h' u ≡ none) × (id.user_id ≡ u) × (holds (held h) id ≡ true)))

offer-Touches :
    (m : MessageView) (id : ConnectionIdentity) (r : ℕ) (h : Hub)
    → lookup id.user_id h.clients ≡ some r
    → same_connection (h.heap r).identity id ≡ true
    → Touches id h (offer m id r h).0
unfolding offer
offer-Touches m id r h e same = elim (Bool-cases (ltb (length (h.heap r).outbound) h.queue_size)) [
  | inl room ↦ ((ground (arith, room), ground (arith, room)), λ u. inl (ground (arith, room)))
  | inr full ↦
      let is : (offer m id r h).0 ≡ drop_client id.user_id (slowed r h) = ground (arith, full) in
      let (d, f) = drop_client-Alone id.user_id (slowed r h) in
      let (d', f') = mark_slow-Alone r (record h { queue_full_total = h.queue_full_total + 1 }) in
      (
        (ap (λ k. k.draining) is ∙ (d ∙ d'), ap (λ k. k.done) is ∙ (f ∙ f')),
        λ u.
            let gone = drop_client-held id.user_id (slowed r h) u in
            elim (Bool-cases (id.user_id == u)) [
              | inl y ↦ inr (
                ap (λ k. held k u) is ∙ ground (arith, gone, y),
                ground (arith, y),
                ground (arith, e, same),
              )
              | inr n ↦ inl (ap (λ k. held k u) is ∙ (ground (arith, gone, n) ∙ slowed-held r h u))
            ],
      )
]

deliver_one-Touches :
    (m : MessageView) (now : Time) (id : ConnectionIdentity) (h : Hub)
    → Touches id h (deliver_one m now id h).0
unfolding deliver_one
deliver_one-Touches m now id h = elim (Bool-cases (h.draining && leb h.deadline now)) [
  | inl late ↦ ((ground (arith, late), ground (arith, late)), λ u. inl (ground (arith, late)))
  | inr early ↦ elim (Option-cases (lookup id.user_id h.clients)) [
    | inl e ↦
        ((ground (arith, early, e), ground (arith, early, e)), λ u. inl (ground (arith, early, e)))
    | inr (r, e) ↦ elim (Bool-cases (h.heap r).pending) [
      | inl p ↦ (
        (ground (arith, early, e, p), ground (arith, early, e, p)),
        λ u. inl (ground (arith, early, e, p)),
      )
      | inr p ↦ elim (Bool-cases (same_connection (h.heap r).identity id)) [
        | inr n ↦ (
          (ground (arith, early, e, p, n), ground (arith, early, e, p, n)),
          λ u. inl (ground (arith, early, e, p, n)),
        )
        | inl n ↦
            let is : (offer m id r h).0 ≡ (deliver_one m now id h).0 =
              ground (arith, early, e, p, n) in
            subst (Touches id h) is (offer-Touches m id r h e n)
      ]
    ]
  ]
]

-- Who is meant depends on the connection of that user alone.
Meant-same :
    (ts : List (Time × ConnectionIdentity)) (f g : Str → Option ConnectionIdentity) (u : Str)
    → f u ≡ g u
    → Meant ts f u
    → Meant ts g u
Meant-same [] f g u e m = m
Meant-same ((now, id) ∷ ts) f g u e (inl (i, h)) =
    let same : f id.user_id ≡ g id.user_id = subst (λ k. f k ≡ g k) (sym i) e in
    inl (i, ground (arith, same, h))
Meant-same ((now, id) ∷ ts) f g u e (inr m) = inr (Meant-same ts f g u e m)

abbrev pub SeesShed : List (Time × ConnectionIdentity) → Hub → Hub → Type 0
SeesShed ts h h' =
    Alone h h' × ((u : Str) → (held h' u ≡ held h u) ⊎ ((held h' u ≡ none) × Meant ts (held h) u))

SeesShed-step :
    (now : Time) (id : ConnectionIdentity) (ts : List (Time × ConnectionIdentity)) (h i j : Hub)
    → Touches id h i
    → SeesShed ts i j
    → SeesShed ((now, id) ∷ ts) h j
SeesShed-step now id ts h i j ((d, e), one) ((d', e'), more) = (
  (d' ∙ d, e' ∙ e),
  λ u. elim (one u) [
    | inl same ↦ elim (more u) [
      | inl again ↦ inl (again ∙ same)
      | inr (gone, meant) ↦ inr (gone, inr (Meant-same ts (held i) (held h) u same meant))
    ]
    | inr (gone, is, was) ↦ elim (more u) [
      | inl again ↦ inr (again ∙ gone, inl (is, was))
      | inr (gone', meant) ↦ inr (gone', inl (is, was))
    ]
  ],
)

pub deliver-SeesShed :
    (m : MessageView) (ts : List (Time × ConnectionIdentity)) (h : Hub)
    → SeesShed ts h (deliver m ts h).0
unfolding deliver
deliver-SeesShed m [] h = ((refl, refl), λ u. inl refl)
deliver-SeesShed m ((now, id) ∷ ts) h =
    SeesShed-step now id ts h (deliver_one m now id h).0 (deliver m ((now, id) ∷ ts) h).0
      (deliver_one-Touches m now id h) (deliver-SeesShed m ts (deliver_one m now id h).0)
