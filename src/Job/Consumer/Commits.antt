-- ===== src/Job/Consumer/Commits.antt =====
-- RunPartition in internal/job/consumer.go: what has been committed, and on what grounds.
pub mod Partition
use fable.Prelude.{
  ℕ, zero, suc, ◌+◌, ◌≤◌, ◌≡◌, ◌≢◌, refl, ap, ◌∙◌, ◌⊎◌, inl, inr, Str, Bool, true, false, Option,
  none, some, List, [], ◌∷◌, ◌++◌, arith, Bool-cases, Option-cases, Result-cases, nat_eq, map, take,
  length,
}
use fable.Job.{Outcome, offline, enqueued, duplicate, unresolved, RecipientResult}
use fable.Job.Processor.{pending_recipients}
use fable.Job.Consumer.{
  Consumer, Stats, AckEnv, Stop, cancelled, count_failure, ack_from, ack, DeadLetter, Record,
  StepEnv, Verdict, settled, interrupted, judge, Event, wrote, committed_at, finish, run_record,
  run_partition, dead_of, raw_dead, invalid_task, immutable_task_conflict, count_outcome,
  count_outcomes, count_processed, conflict,
}
use fable.Wire.Push.{PushTask}
use fable.Job.Consumer.Identities.{Bounded, conflict-Bounded}

-- The offsets that are committed, in order.
abbrev commits : List Event → List ℕ
commits [] = []
commits (wrote d ∷ es) = commits es
commits (committed_at n ∷ es) = n ∷ commits es

-- What the outside sees of a record that is done.
abbrev pub wanted : Record → Option DeadLetter → List Event
wanted m none = committed_at m.offset ∷ []
wanted m (some d) = wrote d ∷ committed_at m.offset ∷ []

ack_from-committed :
    (env : AckEnv) (dlq : Bool) (left a : ℕ) (s : Stats)
    → (ack_from env dlq left a s).0.committed ≡ s.committed
unfolding ack_from
ack_from-committed env dlq zero a s = refl
ack_from-committed env dlq (suc left) a s =
    let failed = count_failure dlq s in
    let retried : Stats = record failed { retries = failed.retries + 1 } in
    ground (arith, ack_from-committed env dlq left (a + 1) retried)

count_outcome-committed : (o : Outcome) (s : Stats) → (count_outcome o s).committed ≡ s.committed
count_outcome-committed offline s = refl
count_outcome-committed enqueued s = refl
count_outcome-committed duplicate s = refl
count_outcome-committed unresolved s = refl

count_outcomes-committed :
    (rs : List RecipientResult) (s : Stats) → (count_outcomes rs s).committed ≡ s.committed
unfolding count_outcomes
count_outcomes-committed [] s = refl
count_outcomes-committed (r ∷ rs) s =
    count_outcomes-committed rs (count_outcome r.outcome s) ∙ count_outcome-committed r.outcome s

-- A consumer with the identities of another.
unfoldable with_stats-Bounded :
    (s : Stats) (c : Consumer) → Bounded c → Bounded (record c { stats = s })
with_stats-Bounded s c b = record {
  positive = b.positive;
  small = b.small;
  inside = b.inside;
  listed = b.listed;
}

-- Between the verdict and the commit: either both steps are done, in order, and the record counts as
-- committed, or the worker stops and nothing is committed.
abbrev Finished : Record → Option DeadLetter → ℕ → ℕ → List Event → Option Stop → Type 0
Finished m d before after events stop =
    ((stop ≡ none) × (events ≡ wanted m d) × (after ≡ before + 1))
    ⊎ ((stop ≢ none) × (commits events ≡ []) × (after ≡ before))

finish-Finished :
    (env : StepEnv) (m : Record) (d : Option DeadLetter) (c : Consumer)
    → let (c', (events, stop)) = finish env m d c in
      Finished m d c.stats.committed c'.stats.committed events stop
unfolding finish ack
finish-Finished env m none c =
    ground (arith, ack_from-committed env.commit false c.options.attempts 0 c.stats)
finish-Finished env m (some d) c =
    let c' : Consumer = (ack (env.write d) true c).0 in
    let counted : Consumer = record c' { stats = record c'.stats { dlq = c'.stats.dlq + 1 } } in
    ground (
      arith,
      ack_from-committed (env.write d) true c.options.attempts 0 c.stats,
      ack_from-committed env.commit false counted.options.attempts 0 counted.stats,
    )

finish-Bounded :
    (env : StepEnv) (m : Record) (d : Option DeadLetter) (c : Consumer)
    → Bounded c
    → Bounded (finish env m d c).0
unfolding finish ack
finish-Bounded env m none c b =
    elim (Result-cases (ack_from env.commit false c.options.attempts 0 c.stats).1) [
      | inl (n, e) ↦ rw (e, finish) (with_stats-Bounded _ c b)
      | inr (s, e) ↦ rw (e, finish) (with_stats-Bounded _ c b)
    ]
finish-Bounded env m (some d) c b =
    let c' : Consumer = (ack (env.write d) true c).0 in
    let counted : Consumer = record c' { stats = record c'.stats { dlq = c'.stats.dlq + 1 } } in
    elim (Result-cases (ack_from (env.write d) true c.options.attempts 0 c.stats).1) [
      | inr (s, e) ↦ rw (e, finish) (with_stats-Bounded _ c b)
      | inl (n, e) ↦
          elim (Result-cases (ack_from env.commit false c.options.attempts 0 counted.stats).1) [
            | inr (s, f) ↦ rw (e, f, finish) (with_stats-Bounded _ c b)
            | inl (k, f) ↦ rw (e, f, finish) (with_stats-Bounded _ c b)
          ]
    ]

-- What a verdict rests on. Nothing is put aside only for a record that decodes, whose task is not in
-- conflict, and that the processor settled without an error and with nobody pending.
abbrev Grounds : StepEnv → Record → Verdict → Type 0
Grounds env m interrupted = env.over_after_process ≡ true
Grounds env m (settled (some d)) = d.payload ≡ m.value
Grounds env m (settled none) =
    (task : PushTask) × (env.decode m.value ≡ some task)
    × ((env.process m.value).1 ≡ false)
    × (pending_recipients (env.process m.value).0.recipients ≡ [])

-- A dead letter is due unless the processor ended without an error and nobody is pending.
dead_of-Grounds :
    (env : StepEnv) (m : Record) (task : PushTask) (ids : List Str) (failed : Bool)
    → env.decode m.value ≡ some task
    → pending_recipients (env.process m.value).0.recipients ≡ ids
    → (env.process m.value).1 ≡ failed
    → Grounds env m (settled (dead_of m task ids failed))
unfolding dead_of
dead_of-Grounds env m task (id ∷ ids) failed e f g = refl
dead_of-Grounds env m task [] true e f g = refl
dead_of-Grounds env m task [] false e f g = (task, e, g, f)

judge_lem :
    (env : StepEnv) (m : Record) (c : Consumer)
    → Bounded c
    → (c' : Consumer) × (v : Verdict) × (judge env m c ≡ some (c', v))
      × Bounded c'
      × (c'.stats.committed ≡ c.stats.committed)
      × Grounds env m v
unfolding judge count_processed
judge_lem env m c b = elim (Option-cases (env.decode m.value)) [
  | inl e ↦ (
    record c { stats = record c.stats { invalid = c.stats.invalid + 1 } },
    settled (some (raw_dead invalid_task m)),
    rw (e, judge) refl,
    with_stats-Bounded _ c b,
    refl,
    refl,
  )
  | inr (task, e) ↦
      let (c', hit, known, f, b', g, h, k, l) =
        conflict-Bounded task.task_id (env.digest task) c b in
      settle task c' e b' g hit f
]
  where
    settle :
        (task : PushTask) (c' : Consumer)
        → env.decode m.value ≡ some task
        → Bounded c'
        → c'.stats ≡ c.stats
        → (hit : Bool) → conflict task.task_id (env.digest task) c ≡ some (c', hit)
        → (d : Consumer) × (v : Verdict) × (judge env m c ≡ some (d, v))
          × Bounded d
          × (d.stats.committed ≡ c.stats.committed)
          × Grounds env m v
    settle task c' e b' g true f = (
      record c' {
        stats = record c'.stats {
          invalid = c'.stats.invalid + 1;
          conflicts = c'.stats.conflicts + 1;
        };
      },
      settled (some (raw_dead immutable_task_conflict m)),
      rw (e, f, judge) refl,
      with_stats-Bounded _ c' b',
      ap (λ s. s.committed) g,
      refl,
    )
    settle task c' e b' g false f = elim (Bool-cases env.over_after_process) [
      | inl o ↦ (c', interrupted, rw (e, f, o, judge) refl, b', ap (λ s. s.committed) g, o)
      | inr o ↦ (
        count_processed (env.process m.value).0 c',
        settled (
            dead_of m task (pending_recipients (env.process m.value).0.recipients)
              (env.process m.value).1),
        rw (e, f, o, judge) refl,
        with_stats-Bounded _ c' b',
        count_outcomes-committed (env.process m.value).0.recipients _ ∙ ap (λ s. s.committed) g,
        dead_of-Grounds env m task _ _ e refl refl,
      )
    ]
