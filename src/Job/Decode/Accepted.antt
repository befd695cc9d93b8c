-- ===== src/Job/Decode/Accepted.antt =====
-- What Logic's dispatch publishes is what Job's decoder asks for.
use fable.Prelude.{
  not, Option-cases, ℕ, zero, suc, ◌+◌, ◌*◌, ◌^◌, ◌≤◌, ◌<◌, ◌≡◌, ◌≢◌, refl, subst, ◌⊎◌, inl, inr,
  Str, true, false, Option, none, some, List, [], ◌∷◌, ◌++◌, ◌==◌, length, take, drop, All, lookup,
  text, str_eq, nat_eq, arith, itoa,
}
use fable.Wire.{Codecs, Destination, ConnectionIdentity, RouteLookupResult, Time}
use fable.Wire.Identity.{printable}
use fable.Wire.Push.{PushTask, Message, push_kind, task_prefix}
use fable.Comet.Validation.{validate_message}
use fable.Logic.Dispatch.{
  Saved, SendResult, Outside, public_message, chunk, targets_of, chunk_total, task, publish_from,
  dispatch,
}
use fable.Logic.Dispatch.Chunks.{task-IsChunk}
use fable.Job.Task.{new_timestamp, message_view}
use fable.Job.Task.Views.{message_view-public_message}
use fable.Job.Decode.Hints.{
  AnswersFor, hints-valid_targets, valid_recipients-Distinct, contained, nothing_seen,
}
use fable.Logic.Service.{valid_request_id}
use fable.Job.Decode.{
  ids_of, null_value, valid_recipients, valid_targets, valid_pending, has_field, valid_task,
}

valid_recipients-weaken :
    (c : Codecs) (m : Message) (before : Option Str) (ids : List Str)
    → valid_recipients c m before ids ≡ true
    → valid_recipients c m none ids ≡ true
unfolding valid_recipients
valid_recipients-weaken c m before [] h = refl
valid_recipients-weaken c m before (id ∷ ids) h = ground (arith, h)

valid_recipients-drop :
    (c : Codecs) (m : Message) (n : ℕ) (before : Option Str) (ids : List Str)
    → valid_recipients c m before ids ≡ true
    → valid_recipients c m none (drop n ids) ≡ true
unfolding valid_recipients
valid_recipients-drop c m zero before ids h = valid_recipients-weaken c m before ids h
valid_recipients-drop c m (suc n) before [] h = refl
valid_recipients-drop c m (suc n) before (id ∷ ids) h =
    valid_recipients-drop c m n (some id) ids (ground (arith, h))

valid_recipients-take :
    (c : Codecs) (m : Message) (n : ℕ) (before : Option Str) (ids : List Str)
    → valid_recipients c m before ids ≡ true
    → valid_recipients c m before (take n ids) ≡ true
unfolding valid_recipients
valid_recipients-take c m zero before ids h = refl
valid_recipients-take c m (suc n) before [] h = refl
valid_recipients-take c m (suc n) before (id ∷ ids) h =
    ground (arith, h, valid_recipients-take c m n (some id) ids)

-- The JSON fields of a task that is no replay: its request id is left out, or is a text.
abbrev IsFresh : List (Str × Str) → Str → Type 0
IsFresh fields request_id =
    (has_field fields (text "pending_recipients") ≡ false)
    × (has_field fields (text "replay_run_id") ≡ false)
    × ((lookup (text "request_id") fields ≡ none)
        ⊎ ((raw : Str) × (lookup (text "request_id") fields ≡ some raw)
            × ((raw == null_value) ≡ false)
            × (printable request_id 128 ≡ true)))

valid_task-parts :
    (c : Codecs) (fields : List (Str × Str)) (t : PushTask) (hs : List ConnectionIdentity)
    → (t.schema_version ≡ 1)
    → (t.kind ≡ push_kind)
    → (t.task_id ≡ task_prefix ++ t.message.message_id ++ (58 ∷ []) ++ itoa t.chunk_index)
    → t.chunk_index < t.chunk_count
    → 1 ≤ length t.recipients
    → length t.recipients ≤ 100
    → ((v : _) × (message_view c 0 t.message ≡ some v))
    → valid_recipients c t.message none t.recipients ≡ true
    → t.targets ≡ some hs
    → valid_targets c t.recipients [] hs ≡ true
    → t.pending_recipients ≡ none
    → IsFresh fields t.request_id
    → valid_task c fields 0 t ≡ true
unfolding valid_task valid_pending
valid_task-parts c fields t hs version kind id index some_there few (v, view) valid targets hints
      fresh (p, q, inl r) =
    ground arith
valid_task-parts c fields t hs version kind id index some_there few (v, view) valid targets hints
      fresh (p, q, inr (raw, r, n, k)) =
    ground arith

list_empty : (s : Str) → (s ≡ []) ⊎ ((length s == 0) ≡ false)
list_empty [] = inl refl
list_empty (x ∷ s) = inr (ground arith)

-- The fields of a task in JSON, as `omitempty` has them: one that is empty is left out, and one that is
-- there is not null.
abbrev pub IsTagged : (PushTask → List (Str × Str)) → PushTask → Type 0
IsTagged fields t =
    (has_field (fields t) (text "pending_recipients")
      ≡ not (length (ids_of t.pending_recipients) == 0))
    × (has_field (fields t) (text "replay_run_id") ≡ not (t.replay_run_id == []))
    × (((t.request_id ≡ []) × (lookup (text "request_id") (fields t) ≡ none))
        ⊎ ((t.request_id ≢ [])
            × ((raw : Str) × (lookup (text "request_id") (fields t) ≡ some raw)
                × ((raw == null_value) ≡ false))))

IsTagged-IsFresh :
    (fields : PushTask → List (Str × Str)) (t : PushTask)
    → IsTagged fields t
    → t.pending_recipients ≡ none
    → t.replay_run_id ≡ []
    → valid_request_id t.request_id ≡ true
    → IsFresh (fields t) t.request_id
unfolding valid_request_id printable
IsTagged-IsFresh fields t (p, q, inl (e, r)) none_left no_run valid =
    (ground (arith, p, none_left), ground (arith, q, no_run), inl r)
IsTagged-IsFresh fields t (p, q, inr (e, (raw, r, n))) none_left no_run valid = (
  ground (arith, p, none_left),
  ground (arith, q, no_run),
  inr (
    raw,
    r,
    n,
    elim (list_empty t.request_id) [ inl z ↦ absurd (e z) | inr z ↦ ground (arith, valid, z) ],
  ),
)

module _ (c : Codecs) (fields : PushTask → List (Str × Str)) (o : Outside) (d : Destination)
    (saved : Saved) (request_id : Str) (t : Time) where
  -- A saved message that Comet would accept, with the recipients of a sound snapshot, in order; lookups
  -- that fail or answer for each user of the chunk with a sound connection of that user, if any; and JSON
  -- that leaves out what is empty.
  pub record Sound : Type 0 where
    pub destination : saved.message.destination ≡ some d
    pub created : saved.message.created_at ≡ some (new_timestamp t)
    pub view : validate_message c saved.message ≡ true
    pub recipients :
        valid_recipients c (public_message d saved.message) none saved.recipients ≡ true
    pub routes :
        (n : ℕ) (rs : List RouteLookupResult)
        → o.lookup_routes n (chunk o d saved request_id n) ≡ some rs
        → AnswersFor c (chunk o d saved request_id n) rs
    pub few : chunk_total o d saved request_id < 2 ^ 32
    pub asked : valid_request_id request_id ≡ true
    pub tagged : (p : PushTask) → IsTagged fields p

  chunk_recipients :
      (i : ℕ)
      → Sound
      → valid_recipients c (public_message d saved.message) none (chunk o d saved request_id i)
        ≡ true
  chunk_recipients i s =
      let m = public_message d saved.message in
      valid_recipients-take c m 100 none (drop (i * 100) saved.recipients)
        (valid_recipients-drop c m (i * 100) none saved.recipients s.recipients)

  targets_of-valid_targets :
      (i : ℕ)
      → Sound
      → valid_targets c (chunk o d saved request_id i) [] (targets_of o d saved request_id i) ≡ true
  unfolding valid_targets
  targets_of-valid_targets i s =
      let ids = chunk o d saved request_id i in
      elim (Option-cases (o.lookup_routes i ids)) [
        | inl n ↦ ground (arith, n)
        | inr (rs, n) ↦
            let accepted =
              hints-valid_targets c ids [] ids rs (contained ids ids (λ k h. h)) (nothing_seen ids)
                (valid_recipients-Distinct c (public_message d saved.message) none ids
                  (chunk_recipients i s))
                (s.routes i rs n) in
            ground (arith, n, accepted)
      ]

  task-valid_task :
      (i : ℕ)
      → Sound
      → i < chunk_total o d saved request_id
      → valid_task c (fields (task o d saved request_id i)) 0 (task o d saved request_id i) ≡ true
  unfolding task public_message
  task-valid_task i s h =
      let (version, kind, id, index, some_there, few) =
        task-IsChunk o d saved request_id i h s.few in
      let m = public_message d saved.message in
      valid_task-parts c (fields (task o d saved request_id i)) (task o d saved request_id i)
        (targets_of o d saved request_id i) version kind id index some_there few
        (
          saved.message,
          message_view-public_message c saved.message d t s.destination s.created s.view,
        )
        (chunk_recipients i s) refl (targets_of-valid_targets i s) refl
        (IsTagged-IsFresh fields (task o d saved request_id i)
          (s.tagged (task o d saved request_id i)) refl refl s.asked)

  publish_from-valid_task :
      (n i : ℕ)
      → Sound
      → i + n ≡ chunk_total o d saved request_id
      → All (λ p. valid_task c (fields p) 0 p ≡ true) (publish_from o d saved request_id n i i).1
  unfolding publish_from
  publish_from-valid_task zero i s e = tt
  publish_from-valid_task (suc n) i s e =
      ground (
        arith,
        task-valid_task i s (omega arith),
        publish_from-valid_task n (i + 1) s (omega arith),
      )

-- Where Comet would accept the saved message, its recipients are a sound snapshot, every lookup that
-- succeeds answers for each user of the chunk with a sound connection of that user or with none, the
-- count of chunks fits its field, the request id passes Logic's own check, and JSON leaves out what is
-- empty: every acknowledged task passes the checks that Job's decoder makes of a decoded task.
pub dispatch-valid_task :
    (c : Codecs) (fields : PushTask → List (Str × Str)) (o : Outside) (d : Destination)
    (saved : Saved) (client_id request_id : Str) (t : Time) (result : SendResult)
    (ts : List PushTask)
    → Sound c fields o d saved request_id t
    → dispatch o client_id saved request_id ≡ some (result, ts)
    → All (λ p. valid_task c (fields p) 0 p ≡ true) ts
unfolding dispatch
dispatch-valid_task c fields o d saved client_id request_id t result ts s e =
    let total = chunk_total o d saved request_id in
    let there = s.destination in
    let tasks : (publish_from o d saved request_id total 0 0).1 ≡ ts = ground (arith, there, e) in
    subst (All (λ p. valid_task c (fields p) 0 p ≡ true)) tasks
      (publish_from-valid_task c fields o d saved request_id t total 0 s (omega arith))
