-- ===== src/Job/Consumer/Boundary.antt =====
-- The acknowledgement boundary of internal/job/consumer.go.
use fable.Prelude.{
  ℕ, zero, suc, ◌+◌, ◌≤◌, ◌<◌, ◌≡◌, ◌⊎◌, inl, inr, Bool, true, false, ◌==◌, arith, Bool-cases,
  nat_eq, ok, err, Result,
}
use fable.Job.Consumer.{
  Consumer, Stats, AckEnv, Stop, cancelled, boundary, count_failure, ack_from, ack,
}

-- What the answer of an acknowledgement with `left` attempts from `a` on says of its surroundings.
abbrev pub Answers : AckEnv → ℕ → ℕ → Result Stop ℕ → Type 0
Answers env left a (ok n) =
    (k : ℕ) × (n ≡ suc k)
    × (a ≤ k)
    × (k < a + left)
    × (env.succeeds k ≡ true)
    × (env.over k ≡ false)
    × ((i : ℕ) → (i < a) ⊎ (k ≤ i) ⊎ (env.succeeds i ≡ false))
Answers env left a (err boundary) = (i : ℕ) → (i < a) ⊎ (a + left ≤ i) ⊎ (env.succeeds i ≡ false)
Answers env left a (err cancelled) =
    (k : ℕ) × (a ≤ k) × (k < a + left) × ((env.over k ≡ true) ⊎ (env.over_in_pause k ≡ true))

-- One more attempt, before those, that failed.
Answers-later :
    (env : AckEnv) (left a : ℕ) (r : Result Stop ℕ)
    → env.succeeds a ≡ false
    → Answers env left (a + 1) r
    → Answers env (suc left) a r
Answers-later env left a (ok n) f (k, e, l, u, s, o, before) =
    (k, e, omega arith, omega arith, s, o, λ i. ground (arith, before i))
Answers-later env left a (err boundary) f all_failed = λ i. ground (arith, all_failed i)
Answers-later env left a (err cancelled) f (k, l, u, o) = (k, omega arith, omega arith, o)

ack_from-Answers :
    (env : AckEnv) (dlq : Bool) (left a : ℕ) (s : Stats)
    → Answers env left a (ack_from env dlq left a s).1
unfolding ack_from
ack_from-Answers env dlq zero a s = λ i. ground arith
ack_from-Answers env dlq (suc left) a s =
    let failed = count_failure dlq s in
    let retried : Stats = record failed { retries = failed.retries + 1 } in
    let later = ack_from-Answers env dlq left (a + 1) retried in
    elim (Bool-cases (env.over a)) [
      | inl o ↦ rw (o, ack_from) (a, omega arith, omega arith, inl o)
      | inr o ↦ elim (Bool-cases (env.succeeds a)) [
        | inl w ↦
            rw (o, w, ack_from) (a, omega arith, omega arith, omega arith, w, o, λ i. ground arith)
        | inr w ↦ elim (Bool-cases (left == 0)) [
          | inl z ↦ rw (o, w, z, ack_from) (λ i. ground arith)
          | inr z ↦ elim (Bool-cases (env.over_in_pause a)) [
            | inl p ↦ rw (o, w, z, p, ack_from) (a, omega arith, omega arith, inr p)
            | inr p ↦ rw (o, w, z, p, ack_from) (Answers-later env left a _ w later)
          ]
        ]
      ]
    ]

-- An acknowledgement succeeds at the first of its attempts that succeeds, and is given up with the
-- boundary error only when each of the attempts it is allowed has failed, or with the context's error
-- only when the context was over.
pub ack-Answers :
    (env : AckEnv) (dlq : Bool) (c : Consumer) → Answers env c.options.attempts 0 (ack env dlq c).1
unfolding ack
ack-Answers env dlq c = ack_from-Answers env dlq c.options.attempts 0 c.stats
