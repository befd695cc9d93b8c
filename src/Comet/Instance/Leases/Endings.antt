-- ===== src/Comet/Instance/Leases/Endings.antt =====
-- How the loop of a Comet ends.
use mathlib.Core.List.{append_assoc}
use fable.Prelude.{
  All-append, ◌≤◌, ◌≡◌, sym, ap, ◌∙◌, subst, ◌⊎◌, inl, inr, true, false, some, List, [], ◌∷◌, ◌++◌,
  All, arith, str_eq, nat_eq, Result-cases, err,
}
use fable.Wire.Status.{StatusCode}
use fable.Comet.Instance.{
  Error, Setup, Instance, Effect, closes_hub, unregisters, renews, Round, renew, round, run,
}
use fable.Comet.Instance.Leases.{GoesOn, round-GoesOn, run-ended, run-goes_on}

-- A request to renew.
abbrev pub IsRenewal : Effect → Type 0
IsRenewal (renews d t) = Unit
IsRenewal _ = ⊥

-- How a run has ended: with these effects before it stopped its hub and gave its name back.
abbrev pub Ended : List Effect → Instance → Type 0
Ended effects i =
    (before : List Effect) × (e : Error) × (effects ≡ before ++ (closes_hub ∷ unregisters ∷ []))
    × All IsRenewal before
    × (i.failure ≡ some e)
    × (i.is_done ≡ true)
    × (i.is_ready ≡ false)

round-IsRenewal : (s : Setup) (r : Round) (i : Instance) → All IsRenewal (round s r i).0
unfolding round renew
round-IsRenewal s r i = ground arith

GoesOn-is_done :
    (s : Setup) (r : Round) (i i' : Instance) → GoesOn s r i i' → i'.is_done ≡ i.is_done
GoesOn-is_done s r i i' (inl (code, a, f, same)) = ap (λ j. j.is_done) same
GoesOn-is_done s r i i' (inr (l, a, b, v, m, same)) = ap (λ j. j.is_done) same

-- A run that was begun has done nothing but ask for renewals while it goes on, whatever it was
-- answered; and it ends with one closing of its hub and then one Unregister, never to be ready again.
pub run_cases :
    (s : Setup) (rs : List Round) (i : Instance)
    → i.is_done ≡ false
    → ((All IsRenewal (run s rs i).0 × ((run s rs i).1.is_done ≡ false))
        ⊎ Ended (run s rs i).0 (run s rs i).1)
unfolding run
run_cases s [] i h = inl (tt, h)
run_cases s (r ∷ rs) i h = elim (Result-cases (round s r i).1) [
  | inr (e, k) ↦
      let is = run-ended s r rs i e k in
      inr (
        (round s r i).0,
        e,
        ap (λ p. p.0) is,
        round-IsRenewal s r i,
        ap (λ p. p.1.failure) is,
        ap (λ p. p.1.is_done) is,
        ap (λ p. p.1.is_ready) is,
      )
  | inl (i', k) ↦
      let is = run-goes_on s r rs i i' k in
      let first = (round s r i).0 in
      let renewal = round-IsRenewal s r i in
      let alive : i'.is_done ≡ false =
        GoesOn-is_done s r i i' (round-GoesOn s r i i' first (ap (λ x. (first, x)) k)).1 ∙ h in
      elim (run_cases s rs i' alive) [
        | inl (all, d) ↦ inl (
          subst (λ p. All IsRenewal p.0) (sym is)
              (All-append IsRenewal first (run s rs i').0 renewal all),
          ap (λ p. p.1.is_done) is ∙ d,
        )
        | inr (before, e, same, all, f, d, u) ↦ inr (
          first ++ before,
          e,
          ap (λ p. p.0) is
              ∙ (ap (◌++◌ first) same
                  ∙ sym (append_assoc first before (closes_hub ∷ unregisters ∷ []))),
          All-append IsRenewal first before renewal all,
          ap (λ p. p.1.failure) is ∙ f,
          ap (λ p. p.1.is_done) is ∙ d,
          ap (λ p. p.1.is_ready) is ∙ u,
        )
      ]
]

-- A run whose renewals all fail is over once a round begins at the safe deadline or later.
pub run_unrenewed :
    (s : Setup) (rs : List Round) (r : Round) (i : Instance)
    → All (λ q. (code : StatusCode) × (q.answer ≡ err code)) rs
    → i.safe_deadline ≤ r.started
    → (run s (rs ++ (r ∷ [])) i).1.is_done ≡ true
unfolding run round
run_unrenewed s [] r i failing late = ground arith
run_unrenewed s (q ∷ rs) r i ((code, a), failing) late = elim (Result-cases (round s q i).1) [
  | inr (e, k) ↦ ap (λ p. p.1.is_done) (run-ended s q (rs ++ (r ∷ [])) i e k)
  | inl (i', k) ↦
      let (t, goes, e) = round-GoesOn s q i i' (round s q i).0 (ap (λ x. ((round s q i).0, x)) k) in
      elim goes [
        | inr (l, b, backs, later, mark, same) ↦ absurd (ground arith)
        | inl (c, b, f, same) ↦
            let kept : i'.safe_deadline ≡ i.safe_deadline = ap (λ j. j.safe_deadline) same in
            ap (λ p. p.1.is_done) (run-goes_on s q (rs ++ (r ∷ [])) i i' k)
            ∙ run_unrenewed s rs r i' failing (omega (arith, kept, late))
      ]
]
