-- ===== src/Comet/Instance/Leases.antt =====
-- While a Comet says that it is ready, it holds a lease; and how its loop ends.
pub mod Endings
use mathlib.Core.List.{append_assoc}
use fable.Prelude.{
  All-append, ◌+◌, ◌≤◌, ◌<◌, ◌≡◌, refl, sym, ap, ◌∙◌, subst, ◌⊎◌, inl, inr, Bool, true, false, not,
  Option, none, some, List, [], ◌∷◌, ◌++◌, All, arith, str_eq, nat_eq, Option-cases, Result-cases,
  Result, ok, err,
}
use fable.Wire.{Time, Timestamp, CometLease}
use fable.Wire.Status.{StatusCode}
use fable.Comet.Instance.{
  safety_margin, Error, Setup, Instance, Effect, closes_hub, unregisters, renews, same_comet,
  validate_lease, rpc_deadline, Round, is_final, settle, renew, round, ended, run, ready, Startup,
  start,
}

-- A lease on the name and the address of a Comet, whose safe deadline is the margin before its end.
abbrev pub Backs : Setup → Time → CometLease → Type 0
Backs s safe l =
    (same_comet l.identity s.hub ≡ true)
    × (l.rpc_address ≡ s.address)
    × ((d : Timestamp) × (l.lease_deadline ≡ some d)
        × (d.check_valid ≡ true)
        × (safe + safety_margin ≡ d.as_time))

validate_lease-Backs :
    (s : Setup) (now safe : Time) (lease : Option CometLease) (draining : Bool)
    → validate_lease s now lease draining ≡ ok safe
    → (l : CometLease) × (lease ≡ some l) × Backs s safe l × (now < safe)
unfolding validate_lease
validate_lease-Backs s now safe none draining h = absurd (ground arith)
validate_lease-Backs s now safe (some l) draining h = elim (Option-cases l.lease_deadline) [
  | inl n ↦ absurd (ground arith)
  | inr (d, n) ↦
      (l, refl, (ground arith, ground arith, (d, n, ground arith, ground arith)), ground arith)
]

-- What a round that goes on has done: either the renewal failed in a way that may pass, and the Comet
-- is no longer ready but keeps its deadline; or a new lease backs the new deadline.
abbrev pub GoesOn : Setup → Round → Instance → Instance → Type 0
GoesOn s r i i' =
    ((code : StatusCode) × (r.answer ≡ err code)
      × (is_final code ≡ false)
      × (i' ≡ record i { is_ready = false }))
    ⊎ ((l : CometLease) × (r.answer ≡ ok (some (some l)))
        × Backs s i'.safe_deadline l
        × (r.validated < i'.safe_deadline)
        × (i'.is_ready ≡ not r.still_draining)
        × (i' ≡ record i { safe_deadline = i'.safe_deadline; is_ready = i'.is_ready }))

settle-GoesOn :
    (s : Setup) (r : Round) (i i' : Instance)
    → settle s r i ≡ ok i'
    → (r.answered < i.safe_deadline) × GoesOn s r i i'
unfolding settle
settle-GoesOn s r i i' h = elim (Result-cases r.answer) [
  | inr (code, a) ↦ (ground arith, inl (code, a, ground arith, ground arith))
  | inl (none, a) ↦ absurd (ground arith)
  | inl (some lease, a) ↦ elim (Result-cases (validate_lease s r.validated lease r.is_draining)) [
    | inr (e, v) ↦ absurd (ground arith)
    | inl (next, v) ↦
        let (l, is, backs, later) = validate_lease-Backs s r.validated next lease r.is_draining v in
        let made : i' ≡ record i { safe_deadline = next; is_ready = not r.still_draining } =
          ground (arith, h) in
        let deadline : i'.safe_deadline ≡ next = ap (λ j. j.safe_deadline) made in
        let mark : i'.is_ready ≡ not r.still_draining = ap (λ j. j.is_ready) made in
        (
          ground arith,
          inr (
            l,
            a ∙ ap (λ x. ok (some x)) is,
            subst (λ t. Backs s t l) (sym deadline) backs,
            subst (λ t. r.validated < t) (sym deadline) later,
            mark,
            ground (arith, made, deadline, mark),
          ),
        )
  ]
]

-- A round goes on only if it began, and had its answer, before the safe deadline.
abbrev pub Timely : Round → Instance → Type 0
Timely r i = (r.started < i.safe_deadline) × (r.answered < i.safe_deadline)

round-GoesOn :
    (s : Setup) (r : Round) (i i' : Instance) (effects : List Effect)
    → round s r i ≡ (effects, ok i')
    → Timely r i
      × GoesOn s r i i'
      × (effects ≡ renews r.is_draining (rpc_deadline s r.woken i.safe_deadline) ∷ [])
unfolding round renew
round-GoesOn s r i i' effects h =
    let settled : settle s r i ≡ ok i' = ground (arith, h) in
    let (answered, goes) = settle-GoesOn s r i i' settled in
    ((ground (arith, h), answered), goes, ground (arith, h))

run-ended :
    (s : Setup) (r : Round) (rs : List Round) (i : Instance) (e : Error)
    → (round s r i).1 ≡ err e
    → run s (r ∷ rs) i ≡ ((round s r i).0 ++ (closes_hub ∷ unregisters ∷ []), ended e i)
unfolding run
run-ended s r rs i e h = ground (arith, h)

run-goes_on :
    (s : Setup) (r : Round) (rs : List Round) (i i' : Instance)
    → (round s r i).1 ≡ ok i'
    → run s (r ∷ rs) i ≡ ((round s r i).0 ++ (run s rs i').0, (run s rs i').1)
unfolding run
run-goes_on s r rs i i' h = ground (arith, h)

-- The leases that Logic's answers carry.
abbrev pub Gives {ℓ} :
    (CometLease → Type ℓ) → Result StatusCode (Option (Option CometLease)) → Type ℓ
Gives P (ok (some (some l))) = P l
Gives P _ = Unit

abbrev Backed {ℓ} : (CometLease → Type ℓ) → Setup → Instance → Type ℓ
Backed P s i = (l : CometLease) × P l × Backs s i.safe_deadline l

module _ {ℓ} (Granted : CometLease → Type ℓ) (s : Setup) where
  round-Backed :
      (r : Round) (i i' : Instance) (effects : List Effect)
      → Gives Granted r.answer
      → Backed Granted s i
      → round s r i ≡ (effects, ok i')
      → Backed Granted s i'
  round-Backed r i i' effects given (l, p, b) h =
      let (t, goes, e) = round-GoesOn s r i i' effects h in
      elim goes [
        | inl (code, a, f, same) ↦
            let kept : i.safe_deadline ≡ i'.safe_deadline = sym (ap (λ j. j.safe_deadline) same) in
            (l, p, subst (λ t. Backs s t l) kept b)
        | inr (m, a, backs, later, mark, same) ↦ (m, subst (Gives Granted) a given, backs)
      ]

  run-Backed :
      (rs : List Round) (i : Instance)
      → All (λ r. Gives Granted r.answer) rs
      → Backed Granted s i
      → Backed Granted s (run s rs i).1
  unfolding run
  run-Backed [] i given b = b
  run-Backed (r ∷ rs) i given b = elim (Result-cases (round s r i).1) [
    | inr (e, h) ↦ subst (λ p. Backed Granted s p.1) (sym (run-ended s r rs i e h)) b
    | inl (i', h) ↦
        subst (λ p. Backed Granted s p.1) (sym (run-goes_on s r rs i i' h))
          (run-Backed rs i' given.1
            (round-Backed r i i' (round s r i).0 given.0 b (ap (λ x. ((round s r i).0, x)) h)))
  ]

  start-Backed :
      (u : Startup) (i : Instance) (effects : List Effect)
      → Gives Granted u.answer
      → start s u ≡ (effects, ok i)
      → Backed Granted s i × (i.is_done ≡ false)
  unfolding start
  start-Backed u i effects given h = elim (Result-cases u.answer) [
    | inr (code, a) ↦ absurd (ground arith)
    | inl (none, a) ↦ absurd (ground arith)
    | inl (some lease, a) ↦ elim (Result-cases (validate_lease s u.validated lease false)) [
      | inr (e, v) ↦ absurd (ground arith)
      | inl (safe, v) ↦
          let (l, is, backs, later) = validate_lease-Backs s u.validated safe lease false v in
          let carried : u.answer ≡ ok (some (some l)) = a ∙ ap (λ x. ok (some x)) is in
          let made : i
              ≡ record { safe_deadline = safe; is_ready = true; failure = none; is_done = false } =
            ground (arith, h) in
          (
            (
              l,
              subst (Gives Granted) carried given,
              subst (λ t. Backs s t l) (sym (ap (λ j. j.safe_deadline) made)) backs,
            ),
            ap (λ j. j.is_done) made,
          )
    ]
  ]

  -- Whenever a Comet says that it is ready, Logic has granted it a lease on its own name, boot and
  -- address that ends more than five seconds later.
  pub ready-Granted :
      (u : Startup) (rs : List Round) (i : Instance) (effects : List Effect) (now : Time)
      (hub_draining hub_stopped : Bool)
      → Gives Granted u.answer
      → All (λ r. Gives Granted r.answer) rs
      → start s u ≡ (effects, ok i)
      → ready now hub_draining hub_stopped (run s rs i).1 ≡ true
      → (l : CometLease) × Granted l
        × (same_comet l.identity s.hub ≡ true)
        × (l.rpc_address ≡ s.address)
        × ((d : Timestamp) × (l.lease_deadline ≡ some d)
            × (d.check_valid ≡ true)
            × (now + safety_margin < d.as_time))
  unfolding ready
  ready-Granted u rs i effects now hub_draining hub_stopped given more h k =
      let (l, p, (same, address, (d, is, valid, ends))) =
        run-Backed rs i more (start-Backed u i effects given h).0 in
      (l, p, same, address, (d, is, valid, ground (arith, ends, k)))
