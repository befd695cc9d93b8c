-- ===== src/Job/Processor/Results.antt =====
-- What Process reports, whatever its surroundings.
use fable.Prelude.{
  ℕ, zero, suc, ◌+◌, ◌≤◌, ◌≡◌, ◌≢◌, refl, ap, ◌∙◌, ◌⊎◌, inl, inr, Str, Bool, true, false, not, ◌&&◌,
  ◌||◌, none, List, [], ◌∷◌, ◌==◌, map, any, All, arith, Bool-cases, nat_eq,
}
use fable.Wire.{Codecs}
use fable.Wire.Push.{PushTask}
use fable.Job.{outcome_eq, unresolved, Recipient, RecipientResult}
use fable.Job.Round.{round}
use fable.Job.Round.Frozen.{Kept, Kept-refl, Kept-trans}
use fable.Job.Round.Steps.{round-Kept}
use fable.Job.Processor.{
  TaskEnv, pending_recipients, start, start_states, scope, hints_of, attempt_from, report, process,
  is_runnable, some_left,
}

-- Over any number of attempts everyone who was done stays as they were, and no more rounds are run
-- than attempts are left.
attempt_from-Kept :
    (c : Codecs) (env : TaskEnv) (task : PushTask) (left attempt : ℕ) (repaired : Bool)
    (ss : List Recipient)
    → Kept ss (attempt_from c env task left attempt repaired ss).0
      × ((attempt_from c env task left attempt repaired ss).1 ≤ left)
unfolding attempt_from
attempt_from-Kept c env task zero attempt repaired ss = (Kept-refl ss, omega arith)
attempt_from-Kept c env task (suc left) attempt repaired ss =
    let ran = round c (env.round_env attempt) task.task_id task.message.message_id repaired ss in
    let kept =
      round-Kept c (env.round_env attempt) task.task_id task.message.message_id repaired ss in
    let (k, n) = attempt_from-Kept c env task left (attempt + 1) ran.1 ran.0 in
    elim (Bool-cases (env.over attempt || not (any (is_runnable repaired) ss))) [
      | inl e ↦ rw (e, attempt_from) (Kept-refl ss, omega arith)
      | inr e ↦ elim (Bool-cases (not (attempt == 0) && env.over_after_delay attempt)) [
        | inl f ↦ rw (e, f, attempt_from) (Kept-refl ss, omega arith)
        | inr f ↦ rw (e, f, attempt_from) (Kept-trans ss ran.0 _ kept k, omega arith)
      ]
    ]

users-Kept :
    (ss ts : List Recipient) → Kept ss ts → map (λ t. t.user_id) ts ≡ map (λ s. s.user_id) ss
users-Kept [] [] k = refl
users-Kept [] (t ∷ ts) k = absurd k
users-Kept (s ∷ ss) [] k = absurd k
users-Kept (s ∷ ss) (t ∷ ts) (u, f, k) = ground (arith, users-Kept ss ts k)

users-report :
    (ss : List Recipient) → map (λ r. r.user_id) (map report ss) ≡ map (λ s. s.user_id) ss
unfolding report
users-report [] = refl
users-report (s ∷ ss) = ap (◌∷◌ s.user_id) (users-report ss)

users-start :
    (task : PushTask) (ids : List Str)
    → map (λ s. s.user_id) (map (start (hints_of task)) ids) ≡ ids
unfolding start
users-start task [] = refl
users-start task (id ∷ ids) = ap (◌∷◌ id) (users-start task ids)

-- A result that is unresolved says why.
abbrev pub SaysWhy : RecipientResult → Type 0
SaysWhy r = (r.outcome ≢ unresolved) ⊎ (r.reason ≢ none)

report-SaysWhy : (ss : List Recipient) → All SaysWhy (map report ss)
unfolding report outcome_eq
report-SaysWhy [] = tt
report-SaysWhy (s ∷ ss) = (
  elim (outcome_eq.dec s.outcome unresolved) [ yes e ↦ inr (ground arith) | no n ↦ inl n ],
  report-SaysWhy ss,
)

resolved-pending :
    (rs : List RecipientResult) → pending_recipients rs ≡ [] → All (λ r. r.outcome ≢ unresolved) rs
unfolding pending_recipients outcome_eq
resolved-pending [] e = tt
resolved-pending (r ∷ rs) e = elim (outcome_eq.dec r.outcome unresolved) [
  | yes u ↦ ground arith
  | no n ↦ (n, resolved-pending rs (ground arith))
]

verdict :
    (rs : List RecipientResult)
    → ((some_left (pending_recipients rs) ≡ false) × All (λ r. r.outcome ≢ unresolved) rs)
      ⊎ ((some_left (pending_recipients rs) ≡ true) × (pending_recipients rs ≢ []))
verdict rs = split (pending_recipients rs) refl
  where
    split :
        (ids : List Str)
        → pending_recipients rs ≡ ids
        → ((some_left (pending_recipients rs) ≡ false) × All (λ r. r.outcome ≢ unresolved) rs)
          ⊎ ((some_left (pending_recipients rs) ≡ true) × (pending_recipients rs ≢ []))
    split [] e = inl (ap some_left e, resolved-pending rs e)
    split (id ∷ ids) e = inr (ap some_left e, λ f. cc)

-- The result names the recipients of the task, or the subset of a replay, in their order; at most
-- three rounds were run; every unresolved recipient has a reason; and Process fails exactly when some
-- recipient is unresolved.
pub process_lem :
    (c : Codecs) (env : TaskEnv) (task : PushTask)
    → let (result, failed) = process c env task in
      (map (λ r. r.user_id) result.recipients ≡ scope task)
      × (result.attempts ≤ 3)
      × (result.task ≡ task)
      × All SaysWhy result.recipients
      × (((failed ≡ false) × All (λ r. r.outcome ≢ unresolved) result.recipients)
          ⊎ ((failed ≡ true) × (pending_recipients result.recipients ≢ [])))
unfolding process start_states
process_lem c env task =
    let first = start_states task in
    let (k, n) = attempt_from-Kept c env task 3 0 false first in
    let last = (attempt_from c env task 3 0 false first).0 in
    (
      users-report last ∙ users-Kept first last k ∙ users-start task (scope task),
      n,
      refl,
      report-SaysWhy last,
      verdict (map report last),
    )
