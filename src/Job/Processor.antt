-- ===== src/Job/Processor.antt =====
-- internal/job/processor.go: at most three rounds over the recipients of a task that has been decoded.
pub mod Results
use fable.Prelude.{
  ℕ, zero, suc, ◌+◌, Str, Bool, true, false, not, ◌&&◌, ◌||◌, Option, none, some, List, [], ◌∷◌,
  ◌==◌, map, any, lookup, str_eq, nat_eq, if◌then◌else◌,
}
use fable.Wire.{Codecs, ConnectionIdentity}
use fable.Wire.Push.{PushTask}
use fable.Job.{
  Outcome, outcome_eq, unresolved, Reason, budget_exhausted, Recipient, RecipientResult,
}
use fable.Job.Round.{RoundEnv, round}

-- What surrounds the rounds: ctx.Err() at the head of the loop, and after the delay of a retry.
pub record TaskEnv : Type 0 where
  pub over : ℕ → Bool
  pub over_after_delay : ℕ → Bool
  pub round_env : ℕ → RoundEnv

pub record Result : Type 0 where
  pub task : PushTask
  pub recipients : List RecipientResult
  pub attempts : ℕ

-- PendingRecipients
pub pending_recipients : List RecipientResult → List Str
pending_recipients [] = []
pending_recipients (r ∷ rs) =
    let rest = pending_recipients rs in if r.outcome == unresolved then r.user_id ∷ rest else rest

pub add_hints : List ConnectionIdentity → List (Str × ConnectionIdentity)
add_hints [] = []
add_hints (h ∷ hs) = (h.user_id, h) ∷ add_hints hs

-- Job's decoder has made sure that each user has one hint at most.
pub start : List (Str × ConnectionIdentity) → Str → Recipient
start hints id = record {
  user_id = id;
  outcome = unresolved;
  reason = none;
  route = lookup id hints;
  route_deadline = 0;
  repair = false;
  stopped = false;
}

abbrev pub scope : PushTask → List Str
scope task = elim task.pending_recipients [ none ↦ task.recipients | some ids ↦ ids ]

abbrev pub hints_of : PushTask → List (Str × ConnectionIdentity)
hints_of task = elim task.pending_recipients [
  | some _ ↦ []
  | none ↦ elim task.targets [ none ↦ [] | some targets ↦ add_hints targets ]
]

pub start_states : PushTask → List Recipient
unfolding start add_hints
start_states task = map (start (hints_of task)) (scope task)

abbrev pub is_runnable : Bool → Recipient → Bool
is_runnable repaired s = s.outcome == unresolved && (not s.stopped && not (s.repair && repaired))

-- The loop, with the attempts that are left: the recipients after it, and the rounds that were run.
pub attempt_from : Codecs → TaskEnv → PushTask → ℕ → ℕ → Bool → List Recipient → List Recipient × ℕ
unfolding round
attempt_from c env task zero attempt repaired states = (states, 0)
attempt_from c env task (suc left) attempt repaired states =
    let ran =
      round c (env.round_env attempt) task.task_id task.message.message_id repaired states in
    let rest = attempt_from c env task left (attempt + 1) ran.1 ran.0 in
    let more : List Recipient × ℕ = (rest.0, suc rest.1) in
    if env.over attempt || not (any (is_runnable repaired) states)
    then (states, 0)
    else if not (attempt == 0) && env.over_after_delay attempt
    then (states, 0)
    else more

-- The last loop of Process.
pub report : Recipient → RecipientResult
report s = record {
  user_id = s.user_id;
  outcome = s.outcome;
  reason =
      if s.outcome == unresolved
      then elim s.reason [ none ↦ some budget_exhausted | some r ↦ some r ]
      else s.reason;
}

-- len(ids) > 0
abbrev pub some_left : List Str → Bool
some_left [] = false
some_left (id ∷ ids) = true

-- Process, behind DecodeTask: the result, and whether it comes with ErrUnresolved.
pub process : Codecs → TaskEnv → PushTask → Result × Bool
unfolding start_states attempt_from report pending_recipients
process c env task =
    let (states, attempts) = attempt_from c env task 3 0 false (start_states task) in
    let results = map report states in
    (
      record { task = task; recipients = results; attempts = attempts },
      some_left (pending_recipients results),
    )
