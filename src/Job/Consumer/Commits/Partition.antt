-- ===== src/Job/Consumer/Commits/Partition.antt =====
-- What a partition worker commits, record after record.
use fable.Prelude.{
  ℕ, suc, ◌+◌, ◌≤◌, ◌≡◌, ◌≢◌, refl, ap, ◌∙◌, ◌⊎◌, inl, inr, Option, none, some, List, [], ◌∷◌, ◌++◌,
  arith, Bool-cases, nat_eq, map, take, length,
}
use fable.Job.Consumer.{
  Consumer, Stop, cancelled, DeadLetter, Record, StepEnv, Verdict, settled, interrupted, judge,
  Event, wrote, committed_at, finish, run_record, run_partition,
}
use fable.Job.Consumer.Identities.{Bounded}
use fable.Job.Consumer.Commits.{
  commits, wanted, finish-Finished, finish-Bounded, Grounds, judge_lem,
}

-- What one record comes to: settled with its grounds, or the end of the worker.
abbrev pub Handled : StepEnv → Record → Consumer → Consumer → List Event → Option Stop → Type 0
Handled env m c c' events stop =
    ((d : Option DeadLetter) × (stop ≡ none)
      × (events ≡ wanted m d)
      × (c'.stats.committed ≡ c.stats.committed + 1)
      × Grounds env m (settled d))
    ⊎ ((stop ≢ none) × (commits events ≡ []) × (c'.stats.committed ≡ c.stats.committed))

-- With a ring of identities that is well formed, a record that was fetched is handled without a panic.
-- Either its offset is committed, after the write of its dead letter if it has one, and it has none
-- only when the task was decoded, processed without an error and leaves nobody pending; or the worker
-- stops and the offset is not committed.
pub run_record-Handled :
    (env : StepEnv) (m : Record) (c : Consumer)
    → Bounded c
    → (c' : Consumer) × (events : List Event) × (stop : Option Stop) × (run_record env m c
        ≡ some (c', (events, stop)))
      × Bounded c'
      × Handled env m c c' events stop
unfolding run_record
run_record-Handled env m c b = let (c₁, v, e, b₁, n, g) = judge_lem env m c b in go c₁ v e b₁ n g
  where
    go :
        (c₁ : Consumer) (v : Verdict)
        → judge env m c ≡ some (c₁, v)
        → Bounded c₁
        → c₁.stats.committed ≡ c.stats.committed
        → Grounds env m v
        → (c' : Consumer) × (events : List Event) × (stop : Option Stop) × (run_record env m c
            ≡ some (c', (events, stop)))
          × Bounded c'
          × Handled env m c c' events stop
    go c₁ interrupted e b₁ n g =
        (c₁, [], some cancelled, rw (e, run_record) refl, b₁, inr ((λ f. cc), refl, n))
    go c₁ (settled d) e b₁ n g = elim (Bool-cases env.over_before_ack) [
      | inl o ↦ (c₁, [], some cancelled, rw (e, o, run_record) refl, b₁, inr ((λ f. cc), refl, n))
      | inr o ↦
          let r = finish env m d c₁ in
          (
            r.0,
            r.1.0,
            r.1.1,
            rw (e, o, run_record) refl,
            finish-Bounded env m d c₁ b₁,
            elim (finish-Finished env m d c₁) [
              | inl (z, w, k) ↦ inl (d, z, w, omega (arith, k, n), g)
              | inr (z, w, k) ↦ inr (z, w, k ∙ n)
            ],
          )
    ]

commits-append : (xs ys : List Event) → commits (xs ++ ys) ≡ commits xs ++ commits ys
commits-append [] ys = refl
commits-append (wrote d ∷ xs) ys = commits-append xs ys
commits-append (committed_at n ∷ xs) ys = ap (◌∷◌ n) (commits-append xs ys)

commits-wanted : (m : Record) (d : Option DeadLetter) → commits (wanted m d) ≡ m.offset ∷ []
commits-wanted m none = refl
commits-wanted m (some d) = refl

-- What a worker's run over the records comes to.
abbrev pub Ran : (ℕ → StepEnv) → ℕ → List Record → Consumer → Type 0
Ran env n ms c =
    (c' : Consumer) × (events : List Event) × (stop : Option Stop) × (k : ℕ) × (run_partition env n
        ms c
      ≡ some (c', (events, stop)))
    × Bounded c'
    × (stop ≢ none)
    × (k ≤ length ms)
    × (commits events ≡ take k (map (λ m. m.offset) ms))
    × (c'.stats.committed ≡ c.stats.committed + k)

Ran-stopped :
    (env : ℕ → StepEnv) (n : ℕ) (m : Record) (ms : List Record) (c c₁ : Consumer) (es : List Event)
    (s : Option Stop)
    → run_record (env n) m c ≡ some (c₁, (es, s))
    → Bounded c₁
    → s ≢ none
    → commits es ≡ []
    → c₁.stats.committed ≡ c.stats.committed
    → Ran env n (m ∷ ms) c
unfolding run_partition
Ran-stopped env n m ms c c₁ es none e b₁ z w k = absurd (z refl)
Ran-stopped env n m ms c c₁ es (some s) e b₁ z w k =
    (c₁, es, some s, 0, rw (e, run_partition) refl, b₁, z, omega arith, w, omega (arith, k))

Ran-more :
    (env : ℕ → StepEnv) (n : ℕ) (m : Record) (ms : List Record) (c c₁ : Consumer) (es : List Event)
    (s : Option Stop) (d : Option DeadLetter)
    → run_record (env n) m c ≡ some (c₁, (es, s))
    → s ≡ none
    → es ≡ wanted m d
    → c₁.stats.committed ≡ c.stats.committed + 1
    → Ran env (n + 1) ms c₁
    → Ran env n (m ∷ ms) c
unfolding run_partition
Ran-more env n m ms c c₁ es (some s) d e z w k r = absurd cc
Ran-more env n m ms c c₁ es none d e z w k (c', later, stop, i, f, b', y, l, x, t) = (
  c',
  es ++ later,
  stop,
  suc i,
  rw (e, f, run_partition) refl,
  b',
  y,
  omega (arith, l),
  commits-append es later
      ∙ ap (λ v. commits v ++ commits later) w
      ∙ ap (λ v. v ++ commits later) (commits-wanted m d)
      ∙ ap (◌∷◌ m.offset) x,
  omega (arith, k, t),
)

-- From a well-formed ring of identities, over any records and surroundings, the worker does not panic, and the offsets it has committed are
-- exactly those of the first k records, in their order, for the k that its statistics count: no
-- record is skipped or committed twice.
pub run_partition-Ran :
    (env : ℕ → StepEnv) (n : ℕ) (ms : List Record) (c : Consumer) → Bounded c → Ran env n ms c
unfolding run_partition
run_partition-Ran env n [] c b =
    (c, [], some cancelled, 0, refl, b, (λ f. cc), omega arith, refl, omega arith)
run_partition-Ran env n (m ∷ ms) c b =
    let (c₁, es, s, e, b₁, h) = run_record-Handled (env n) m c b in
    elim h [
      | inl (d, z, w, k, g) ↦
          Ran-more env n m ms c c₁ es s d e z w k (run_partition-Ran env (n + 1) ms c₁ b₁)
      | inr (z, w, k) ↦ Ran-stopped env n m ms c c₁ es s e b₁ z w k
    ]
