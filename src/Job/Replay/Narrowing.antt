-- ===== src/Job/Replay/Narrowing.antt =====
-- What a replay may send, and to whom.
use fable.Prelude.{
  ◌≡◌, refl, ◌⊎◌, inl, inr, Str, Bool, true, false, none, some, List, [], ◌∷◌, ◌==◌, contains,
  length, All, Distinct, str_eq, nat_eq, arith, Option-cases, Bool-cases,
}
use fable.Wire.{Codecs}
use fable.Wire.Push.{PushTask}
use fable.Job.Decode.{Json, decode_task}
use fable.Job.Replay.{
  Envelope, Archive, immutable_digest, allowed_of, selects, valid_envelope, replay_task,
}

-- An id that may be sent to, and was not met before.
abbrev Chosen : (Str → Bool) → List Str → Str → Type 0
Chosen allowed seen id = (allowed id ≡ true) × (contains seen id ≡ false)

unseen :
    (allowed : Str → Bool) (id : Str) (seen ids : List Str)
    → All (Chosen allowed (id ∷ seen)) ids
    → (contains ids id ≡ false) × All (Chosen allowed seen) ids
unseen allowed id seen [] h = (refl, tt)
unseen allowed id seen (k ∷ ks) ((a, f), h) =
    let (rest, all) = unseen allowed id seen ks h in
    (ground (arith, rest, f), ((a, ground (arith, f)), all))

selects-Chosen :
    (allowed : Str → Bool) (seen ids : List Str)
    → selects allowed seen ids ≡ true
    → All (Chosen allowed seen) ids × Distinct ids
unfolding selects
selects-Chosen allowed seen [] h = (tt, tt)
selects-Chosen allowed seen (id ∷ ids) h =
    let (all, apart) = selects-Chosen allowed (id ∷ seen) ids (ground (arith, h)) in
    let (fresh, kept) = unseen allowed id seen ids all in
    (((ground (arith, h), ground (arith, h)), kept), (fresh, apart))

-- The recipients of a task that its replays may still reach.
abbrev pub Within : PushTask → Str → Type 0
Within t id =
    (contains t.recipients id ≡ true)
    × ((t.pending_recipients ≡ none)
        ⊎ ((subset : List Str) × (t.pending_recipients ≡ some subset)
            × (contains subset id ≡ true)))

-- The same of the task that the envelope preserves.
abbrev pub Pending : PushTask → Str → Type 0
Pending t id =
    (t.pending_recipients ≡ none)
    ⊎ ((subset : List Str) × (t.pending_recipients ≡ some subset) × (contains subset id ≡ true))

allowed_of-Within :
    (task source : PushTask) (id : Str)
    → allowed_of task source id ≡ true
    → Within task id × Pending source id
allowed_of-Within task source id h = elim (Option-cases task.pending_recipients) [
  | inl n ↦ elim (Option-cases source.pending_recipients) [
    | inl m ↦ ((ground arith, inl n), inl m)
    | inr (ys, m) ↦ ((ground arith, inl n), inr (ys, m, ground arith))
  ]
  | inr (xs, n) ↦ elim (Option-cases source.pending_recipients) [
    | inl m ↦ ((ground arith, inr (xs, n, ground arith)), inl m)
    | inr (ys, m) ↦ ((ground arith, inr (xs, n, ground arith)), inr (ys, m, ground arith))
  ]
]

All-map {ℓ κ μ} :
    {A : Type ℓ} (P : A → Type κ) (Q : A → Type μ) (xs : List A)
    → ((x : A) → P x → Q x)
    → All P xs
    → All Q xs
All-map P Q [] f h = tt
All-map P Q (x ∷ xs) f (p, h) = (f x p, All-map P Q xs f h)

valid_envelope_some :
    (run_id : Str) (r : Envelope)
    → valid_envelope run_id r ≡ true
    → (length r.pending_recipients == 0) ≡ false
unfolding valid_envelope
valid_envelope_some run_id r h = ground (arith, h)

-- What stands behind a replay.
pub record Replayed (J : Json) (a : Archive) (c : Codecs) (r : Envelope) (run_id : Str)
    (replayed : PushTask) : Type 0 where
  pub held : PushTask
  pub task : PushTask
  pub source : PushTask
  pub raw : Str
  pub original : Str
  pub held_is : r.task ≡ some held
  pub raw_is : J.marshal held ≡ some raw
  pub task_is : decode_task J c raw ≡ some task
  pub original_is : a.base64_decode r.original_payload_base64 ≡ some original
  pub source_is : decode_task J c original ≡ some source
  pub same_identity : immutable_digest a source ≡ immutable_digest a task
  pub replayed_is : replayed ≡ record task {
    pending_recipients = some r.pending_recipients;
    replay_run_id = run_id;
    targets = some [];
  }
  pub narrows : All (λ id. Within task id × Pending source id) r.pending_recipients
  pub distinct : Distinct r.pending_recipients
  pub some_left : (length r.pending_recipients == 0) ≡ false

-- A replay is the task that its dead letter holds, written out and decoded again, with the identity of
-- the preserved original payload, as that is decoded, for a set of distinct recipients that is not empty and lies within the recipients and the pending recipients of
-- both; it takes no route from the envelope.
pub replay_task-Replayed :
    (J : Json) (a : Archive) (c : Codecs) (r : Envelope) (run_id : Str) (replayed : PushTask)
    → replay_task J a c r run_id ≡ some replayed
    → Replayed J a c r run_id replayed
unfolding replay_task
replay_task-Replayed json a c r run_id replayed h = elim (Option-cases r.task) [
  | inl n ↦ absurd (ground arith)
  | inr (held, n) ↦ elim (Bool-cases (valid_envelope run_id r)) [
    | inr v ↦ absurd (ground arith)
    | inl v ↦ elim (Option-cases (json.marshal held)) [
      | inl m ↦ absurd (ground arith)
      | inr (raw, m) ↦ elim (Option-cases (decode_task json c raw)) [
        | inl d ↦ absurd (ground arith)
        | inr (task, d) ↦ elim (Option-cases (a.base64_decode r.original_payload_base64)) [
          | inl b ↦ absurd (ground arith)
          | inr (original, b) ↦ elim (Option-cases (decode_task json c original)) [
            | inl o ↦ absurd (ground arith)
            | inr (source, o) ↦
                let chosen : selects (allowed_of task source) [] r.pending_recipients ≡ true =
                  ground arith in
                let (all, apart) =
                  selects-Chosen (allowed_of task source) [] r.pending_recipients chosen in
                record {
                  held = held;
                  task = task;
                  source = source;
                  raw = raw;
                  original = original;
                  held_is = n;
                  raw_is = m;
                  task_is = d;
                  original_is = b;
                  source_is = o;
                  same_identity = ground arith;
                  replayed_is = ground arith;
                  narrows =
                      All-map (Chosen (allowed_of task source) [])
                        (λ id. Within task id × Pending source id) r.pending_recipients
                        (λ id k. allowed_of-Within task source id k.0) all;
                  distinct = apart;
                  some_left = valid_envelope_some run_id r v;
                }
          ]
        ]
      ]
    ]
  ]
]
