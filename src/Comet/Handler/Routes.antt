-- ===== src/Comet/Handler/Routes.antt =====
-- How long a connection is served.
use fable.Prelude.{
  inl, inr, ap, ◌∙◌, ◌+◌, ◌≤◌, ◌≡◌, arith, Option, none, some, List, [], ◌∷◌, nat_eq, str_eq,
  Option-cases, Result-cases, ok,
}
use fable.Wire.{Time, ConnectionIdentity, RouteLease}
use fable.Comet.Instance.{safety_margin}
use fable.Comet.Handler.{route_deadline, Beat, beat, beats}

-- The safe deadline is the margin before the end of the caller's authentication, or earlier.
route_deadline-auth :
    (now auth safe : Time) (route : Option RouteLease) (id : ConnectionIdentity)
    → route_deadline now route id auth ≡ ok safe
    → safe + safety_margin ≤ auth
unfolding route_deadline
route_deadline-auth now auth safe none id h = absurd (ground arith)
route_deadline-auth now auth safe (some r) id h = ground (arith, h)

beat-auth :
    (id : ConnectionIdentity) (auth : Time) (b : Beat) (safe next : Time)
    → safe + safety_margin ≤ auth
    → beat id auth b safe ≡ some next
    → next + safety_margin ≤ auth
unfolding beat
beat-auth id auth b safe next before h = elim (Result-cases b.answer) [
  | inr (code, a) ↦ let kept : safe ≡ next = ground (arith, h) in omega (arith, kept, before)
  | inl (none, a) ↦ absurd (ground (arith, h))
  | inl (some route, a) ↦ elim (Result-cases (route_deadline b.validated route id auth)) [
    | inr (e, r) ↦ absurd (ground (arith, h))
    | inl (made, r) ↦
        let is : made ≡ next = ground (arith, h) in
        route_deadline-auth b.validated auth next route id (r ∙ ap ok is)
  ]
]

beats_from-auth :
    (id : ConnectionIdentity) (auth : Time) (bs : List Beat) (safe next : Time)
    → safe + safety_margin ≤ auth
    → beats id auth bs safe ≡ some next
    → next + safety_margin ≤ auth
unfolding beats
beats_from-auth id auth [] safe next before h =
    let kept : safe ≡ next = ground (arith, h) in omega (arith, kept, before)
beats_from-auth id auth (b ∷ bs) safe next before h = elim (Option-cases (beat id auth b safe)) [
  | inl e ↦ absurd (ground (arith, h))
  | inr (later, e) ↦
      beats_from-auth id auth bs later next (beat-auth id auth b safe later before e)
        (ground (arith, h))
]

-- However often Logic renews the route of a connection, its heartbeat never goes on with a deadline that
-- is less than five seconds before the end of the user's authentication.
pub beats-auth :
    (id : ConnectionIdentity) (auth : Time) (now first next : Time) (route : Option RouteLease)
    (bs : List Beat)
    → route_deadline now route id auth ≡ ok first
    → beats id auth bs first ≡ some next
    → next + safety_margin ≤ auth
beats-auth id auth now first next route bs begun h =
    beats_from-auth id auth bs first next (route_deadline-auth now auth first route id begun) h
