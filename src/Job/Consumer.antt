-- ===== src/Job/Consumer.antt =====
-- internal/job/consumer.go: one partition, whose records are processed, put on the dead-letter queue
-- where that is needed, and committed, one after the other.
pub mod Identities
pub mod Boundary
pub mod Commits
use fable.Prelude.{
  ℕ, zero, suc, ◌+◌, ◌-◌, ◌%◌, ◌<◌, Str, Bool, true, false, not, ◌&&◌, ◌||◌, Option, none, some,
  List, [], ◌∷◌, ◌++◌, ◌==◌, ltb, length, str_eq, nat_eq, lookup, insert, erase, get_elem?,
  if◌then◌else◌, Result, ok, err,
}
use fable.Wire.Push.{PushTask}
use fable.Job.{Outcome, outcome_eq, unresolved, enqueued, duplicate, offline, RecipientResult}
use fable.Job.Processor
use fable.Job.Processor.{pending_recipients}

pub record Options : Type 0 where
  pub attempts : ℕ
  pub identity_capacity : ℕ

-- NewConsumer, of options that are not negative. (The retry delay has no effect here.)
unfoldable pub new_options : ℕ → ℕ → Options
new_options attempts capacity = record {
  attempts = if ltb attempts 1 || ltb 3 attempts then 3 else attempts;
  identity_capacity = if ltb capacity 1 || ltb 65536 capacity then 4096 else capacity;
}

-- uint64 counters, which a run does not wrap.
pub record Stats : Type 0 where
  pub processed : ℕ
  pub committed : ℕ
  pub dlq : ℕ
  pub invalid : ℕ
  pub conflicts : ℕ
  pub retries : ℕ
  pub dlq_errors : ℕ
  pub commit_errors : ℕ
  pub offline_count : ℕ
  pub enqueued_count : ℕ
  pub duplicate_count : ℕ
  pub unresolved_count : ℕ

-- `set` of a slice element that is there.
pub set_at : List Str → ℕ → Str → List Str
set_at [] i v = []
set_at (x ∷ xs) zero v = v ∷ xs
set_at (x ∷ xs) (suc i) v = x ∷ set_at xs i v

-- `identities` maps a task's id to its digest; `order` is a ring of those ids, oldest at `next`.
pub record Consumer : Type 0 where
  pub options : Options
  pub stats : Stats
  pub identities : List (Str × Str)
  pub order : List Str
  pub next : ℕ
  pub blocked : ℕ

-- conflict: whether the id is known with another digest; a new id takes the place of the oldest.
-- An index past the end of `order` would panic, which is `none`.
pub conflict : Str → Str → Consumer → Option (Consumer × Bool)
unfolding set_at
conflict id digest c = elim (lookup id c.identities) [
  | some old ↦ some (c, not (old == digest))
  | none ↦
      if ltb (length c.order) c.options.identity_capacity
      then some (
        record c { order = c.order ++ id ∷ []; identities = insert id digest c.identities },
        false,
      )
      else elim (get_elem? c.order c.next) [
        | none ↦ none
        | some oldest ↦ some (
          record c {
            order = set_at c.order c.next id;
            next = (c.next + 1) % length c.order;
            identities = insert id digest (erase oldest c.identities);
          },
          false,
        )
      ]
]

-- What an acknowledgement meets at each attempt: a cancelled context before it, its success, and a
-- context that is cancelled during the pause after it.
pub record AckEnv : Type 0 where
  pub over : ℕ → Bool
  pub succeeds : ℕ → Bool
  pub over_in_pause : ℕ → Bool

pub data Stop : Type 0 where
  cancelled boundary : Stop

abbrev pub count_failure : Bool → Stats → Stats
count_failure true s = record s { dlq_errors = s.dlq_errors + 1 }
count_failure false s = record s { commit_errors = s.commit_errors + 1 }

-- The loop of `ack`, with the attempts that are left; the stop, if any, and the attempts made.
pub ack_from : AckEnv → Bool → ℕ → ℕ → Stats → Stats × (Result Stop ℕ)
ack_from env dlq zero attempt s = (s, err boundary)
ack_from env dlq (suc left) attempt s =
    let failed = count_failure dlq s in
    let retried : Stats = record failed { retries = failed.retries + 1 } in
    let again = ack_from env dlq left (attempt + 1) retried in
    if env.over attempt
    then (s, err cancelled)
    else if env.succeeds attempt
    then (s, ok (attempt + 1))
    else if left == 0
    then (failed, err boundary)
    else if env.over_in_pause attempt
    then (retried, err cancelled)
    else again

-- ack. While it retries, the consumer counts as blocked; the deferred call takes that back.
pub ack : AckEnv → Bool → Consumer → Consumer × Result Stop ℕ
unfolding ack_from
ack env dlq c =
    let (s, r) = ack_from env dlq c.options.attempts 0 c.stats in (record c { stats = s }, r)

pub data DeadReason : Type 0 where
  invalid_task immutable_task_conflict unresolved_recipients : DeadReason

-- A dead letter, as far as it depends on the processing: topic, partition, times and the base64 of
-- the record's key are copied from the record.
pub record DeadLetter : Type 0 where
  pub reason : DeadReason
  pub offset : ℕ
  pub task : Option PushTask
  pub pending : List Str
  pub payload : Str

-- A record of the partition.
pub record Record : Type 0 where
  pub offset : ℕ
  pub value : Str

-- What surrounds one record: its decoding and digest, the processor's answer with its error, and the
-- context and acknowledgements after it.
pub record StepEnv : Type 0 where
  pub decode : Str → Option PushTask
  pub digest : PushTask → Str
  pub process : Str → Processor.Result × Bool
  pub over_after_process : Bool
  pub over_before_ack : Bool
  pub write : DeadLetter → AckEnv
  pub commit : AckEnv

-- The switch over a recipient's outcome, and its loop.
abbrev pub count_outcome : Outcome → Stats → Stats
count_outcome offline s = record s { offline_count = s.offline_count + 1 }
count_outcome enqueued s = record s { enqueued_count = s.enqueued_count + 1 }
count_outcome duplicate s = record s { duplicate_count = s.duplicate_count + 1 }
count_outcome unresolved s = record s { unresolved_count = s.unresolved_count + 1 }

pub count_outcomes : List RecipientResult → Stats → Stats
count_outcomes [] s = s
count_outcomes (r ∷ rs) s = count_outcomes rs (count_outcome r.outcome s)

pub count_processed : Processor.Result → Consumer → Consumer
unfolding count_outcomes
count_processed r c =
    let s = c.stats in
    let s₁ : Stats = record s {
      processed = s.processed + 1;
      retries = if ltb 1 r.attempts then s.retries + (r.attempts - 1) else s.retries;
    } in
    record c { stats = count_outcomes r.recipients s₁ }

-- The dead letter of a result: the pending recipients, and all of the task's scope where the processor
-- failed without naming any.
pub dead_of : Record → PushTask → List Str → Bool → Option DeadLetter
dead_of m task (i ∷ is) failed = some record {
  reason = unresolved_recipients;
  offset = m.offset;
  task = some task;
  pending = i ∷ is;
  payload = m.value;
}
dead_of m task [] true = some record {
  reason = unresolved_recipients;
  offset = m.offset;
  task = some task;
  pending = Processor.scope task;
  payload = m.value;
}
dead_of m task [] false = none

abbrev pub raw_dead : DeadReason → Record → DeadLetter
raw_dead reason m = record {
  reason = reason;
  offset = m.offset;
  task = none;
  pending = [];
  payload = m.value;
}

-- What processing a record leaves: a dead letter to write or none, or the end of the worker.
pub data Verdict : Type 0 where
  settled : Option DeadLetter → Verdict
  interrupted : Verdict

pub judge : StepEnv → Record → Consumer → Option (Consumer × Verdict)
unfolding conflict count_processed dead_of
judge env m c = elim (env.decode m.value) [
  | none ↦ some (
    record c { stats = record c.stats { invalid = c.stats.invalid + 1 } },
    settled (some (raw_dead invalid_task m)),
  )
  | some task ↦ elim (conflict task.task_id (env.digest task) c) [
    | none ↦ none
    | some (c', true) ↦ some (
      record c' {
        stats = record c'.stats {
          invalid = c'.stats.invalid + 1;
          conflicts = c'.stats.conflicts + 1;
        };
      },
      settled (some (raw_dead immutable_task_conflict m)),
    )
    | some (c', false) ↦
        let (r, failed) = env.process m.value in
        if env.over_after_process
        then some (c', interrupted)
        else some (
          count_processed r c',
          settled (dead_of m task (pending_recipients r.recipients) failed),
        )
  ]
]

-- What the outside sees of the worker, in order.
pub data Event : Type 0 where
  wrote : DeadLetter → Event
  committed_at : ℕ → Event

-- From the verdict to the commit: the events of success, and the stop if there is one.
pub finish : StepEnv → Record → Option DeadLetter → Consumer → Consumer × (List Event × Option Stop)
unfolding ack
finish env m none c =
    let (c', r) = ack env.commit false c in
    elim r [
      | err stop ↦ (c', ([], some stop))
      | ok n ↦ (
        record c' { stats = record c'.stats { committed = c'.stats.committed + 1 } },
        (committed_at m.offset ∷ [], none),
      )
    ]
finish env m (some dead) c =
    let (c', r) = ack (env.write dead) true c in
    elim r [
      | err stop ↦ (c', ([], some stop))
      | ok n ↦
          let counted : Consumer = record c' {
            stats = record c'.stats { dlq = c'.stats.dlq + 1 };
          } in
          let (c'', r') = ack env.commit false counted in
          elim r' [
            | err stop ↦ (c'', (wrote dead ∷ [], some stop))
            | ok n ↦ (
              record c'' { stats = record c''.stats { committed = c''.stats.committed + 1 } },
              (wrote dead ∷ committed_at m.offset ∷ [], none),
            )
          ]
    ]

-- One round of RunPartition on a record that was fetched.
pub run_record : StepEnv → Record → Consumer → Option (Consumer × (List Event × Option Stop))
unfolding judge finish
run_record env m c = elim (judge env m c) [
  | none ↦ none
  | some (c', interrupted) ↦ some (c', ([], some cancelled))
  | some (c', settled dead) ↦
      if env.over_before_ack then some (c', ([], some cancelled)) else some (finish env m dead c')
]

-- RunPartition over the records that are fetched, until the worker stops.
pub run_partition :
    (ℕ → StepEnv) → ℕ → List Record → Consumer → Option (Consumer × (List Event × Option Stop))
unfolding run_record
run_partition env n [] c = some (c, ([], some cancelled))
run_partition env n (m ∷ ms) c = elim (run_record (env n) m c) [
  | none ↦ none
  | some (c', (events, some stop)) ↦ some (c', (events, some stop))
  | some (c', (events, none)) ↦ elim (run_partition env (n + 1) ms c') [
    | none ↦ none
    | some (c'', (later, stop)) ↦ some (c'', (events ++ later, stop))
  ]
]
