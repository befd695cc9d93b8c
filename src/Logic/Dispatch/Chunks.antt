-- ===== src/Logic/Dispatch/Chunks.antt =====
-- What the acknowledged tasks of a dispatch hold, and what its state says of them.
use mathlib.Core.Path.{◌≡⟨◌⟩◌, ◌∎}
use mathlib.Core.List.{append_assoc, append-nil}
use fable.Prelude.{
  ℕ, zero, suc, ◌+◌, ◌*◌, ◌/◌, ◌%◌, ◌^◌, ◌≤◌, ◌<◌, ◌≡◌, refl, subst, true, sym, ap, ◌∙◌, ◌⊎◌, inl,
  inr, Str, some, List, [], ◌∷◌, ◌++◌, length, take, drop, drop-drop, drop_all, take-append-drop,
  length-take, length-drop, flatten, map, All, arith, Option-cases, nat_eq, itoa,
}
use fable.Wire.{Destination}
use fable.Wire.Push.{PushTask, push_kind, task_prefix}
use fable.Logic.Dispatch.{
  Saved, DispatchState, queued, not_queued, unknown, SendResult, Outside, chunk_total, task,
  publish_from, dispatch,
}

-- The recipients that the tasks name, in order.
abbrev pub covered : List PushTask → List Str
covered ts = flatten (map (λ t. t.recipients) ts)

-- What Job's decoder asks of the identity and the recipients of a task.
abbrev pub IsChunk : Saved → PushTask → Type 0
IsChunk saved t =
    (t.schema_version ≡ 1)
    × (t.kind ≡ push_kind)
    × (t.task_id ≡ task_prefix ++ saved.message.message_id ++ (58 ∷ []) ++ itoa t.chunk_index)
    × (t.chunk_index < t.chunk_count)
    × (1 ≤ length t.recipients)
    × (length t.recipients ≤ 100)

-- How a state relates to the tasks acknowledged before and since, of those still to do.
abbrev Says : DispatchState → ℕ → ℕ → ℕ → Type 0
Says state before since todo =
    ((state ≡ queued) × (since ≡ todo))
    ⊎ ((state ≡ not_queued) × (before + since ≡ 0))
    ⊎ ((state ≡ unknown) × (since < todo))

module _ (o : Outside) (d : Destination) (saved : Saved) (request_id : Str) where
  abbrev from : ℕ → ℕ → DispatchState × List PushTask
  from n i = publish_from o d saved request_id n i i

  publish_from-Says : (n i : ℕ) → Says (from n i).0 i (length (from n i).1) n
  unfolding publish_from
  publish_from-Says zero i = inl (refl, refl)
  publish_from-Says (suc n) i = ground (arith, publish_from-Says n (i + 1))

  step_covered :
      (i : ℕ) (ts : List PushTask)
      → covered ts ++ drop ((i + 1 + length ts) * 100) saved.recipients
        ≡ drop ((i + 1) * 100) saved.recipients
      → covered (task o d saved request_id i ∷ ts)
          ++ drop ((i + suc (length ts)) * 100) saved.recipients
        ≡ drop (i * 100) saved.recipients
  unfolding task
  step_covered i ts ih =
      let all = saved.recipients in
      let now = take 100 (drop (i * 100) all) in
      let shift : (i + suc (length ts)) * 100 ≡ (i + 1 + length ts) * 100 = omega arith in
      let next = drop-drop (i * 100) 100 ((i + 1) * 100) all (omega arith) in
      (now ++ covered ts) ++ drop ((i + suc (length ts)) * 100) all
      ≡⟨ append_assoc now (covered ts) _ ⟩
        now ++ (covered ts ++ drop ((i + suc (length ts)) * 100) all)
      ≡⟨ ap (λ k. now ++ (covered ts ++ drop k all)) shift ∙ ap (◌++◌ now) (ih ∙ sym next) ⟩
        now ++ drop 100 (drop (i * 100) all)
      ≡⟨ take-append-drop 100 (drop (i * 100) all) ⟩ drop (i * 100) all ∎

  stopped_covered :
      (i : ℕ)
      → covered [] ++ drop ((i + 0) * 100) saved.recipients ≡ drop (i * 100) saved.recipients
  stopped_covered i =
      let same : (i + 0) * 100 ≡ i * 100 = omega arith in ap (λ k. drop k saved.recipients) same

  publish_from-covered :
      (n i : ℕ)
      → covered (from n i).1 ++ drop ((i + length (from n i).1) * 100) saved.recipients
        ≡ drop (i * 100) saved.recipients
  unfolding publish_from
  publish_from-covered zero i = stopped_covered i
  publish_from-covered (suc n) i =
      ground (
        arith,
        stopped_covered i,
        step_covered i (from n (i + 1)).1 (publish_from-covered n (i + 1)),
      )

  pub task-IsChunk :
      (i : ℕ)
      → i < chunk_total o d saved request_id
      → chunk_total o d saved request_id < 2 ^ 32
      → IsChunk saved (task o d saved request_id i)
  unfolding task
  task-IsChunk i h w = (
    refl,
    refl,
    ap (λ k. task_prefix ++ saved.message.message_id ++ (58 ∷ []) ++ itoa k) small,
    omega arith,
    omega (
      arith,
      length-take 100 (drop (i * 100) saved.recipients),
      length-drop (i * 100) saved.recipients,
    ),
    omega (arith, length-take 100 (drop (i * 100) saved.recipients)),
  )
    where
      small : i ≡ i % 2 ^ 32
      small = omega arith

  publish_from-IsChunk :
      (n i : ℕ)
      → i + n ≡ chunk_total o d saved request_id
      → chunk_total o d saved request_id < 2 ^ 32
      → All (IsChunk saved) (from n i).1
  unfolding publish_from
  publish_from-IsChunk zero i e w = tt
  publish_from-IsChunk (suc n) i e w =
      ground (arith, task-IsChunk i (omega arith) w, publish_from-IsChunk n (i + 1) (omega arith) w)

length-eq-zero {ℓ} : {A : Type ℓ} (xs : List A) → length xs ≡ 0 → xs ≡ []
length-eq-zero [] h = refl
length-eq-zero (x ∷ xs) h = absurd (omega arith)

-- What the state of a dispatch says of the acknowledged tasks.
abbrev pub Covers : List Str → DispatchState → List PushTask → Type 0
Covers all state ts =
    (covered ts ++ drop (length ts * 100) all ≡ all)
    × (((state ≡ queued) × (covered ts ≡ all))
        ⊎ ((state ≡ not_queued) × (ts ≡ []))
        ⊎ ((state ≡ unknown) × (length ts < (length all + 99) / 100)))

Covers-from :
    (all : List Str) (state : DispatchState) (ts : List PushTask)
    → Says state 0 (length ts) ((length all + 99) / 100)
    → covered ts ++ drop ((0 + length ts) * 100) all ≡ drop (0 * 100) all
    → Covers all state ts
Covers-from all state ts says cover = (
  begins,
  elim says [
    | inl (q, n) ↦
        inl (q, sym (append-nil (covered ts)) ∙ ap (◌++◌ (covered ts)) (sym (done n)) ∙ begins)
    | inr (inl (q, n)) ↦ inr (inl (q, length-eq-zero ts (omega arith)))
    | inr (inr (q, n)) ↦ inr (inr (q, n))
  ],
)
  where
    begins : covered ts ++ drop (length ts * 100) all ≡ all
    begins =
        let same : length ts * 100 ≡ (0 + length ts) * 100 = omega arith in
        ap (λ k. covered ts ++ drop k all) same ∙ cover

    done : length ts ≡ (length all + 99) / 100 → drop (length ts * 100) all ≡ []
    done n = drop_all (length ts * 100) all (omega arith)

-- The acknowledged tasks name, in order, a beginning of the recipients that were saved, and what is
-- missing is the rest of them. QUEUED: all recipients are covered. NOT_QUEUED: no task was
-- acknowledged. UNKNOWN: some chunk was not acknowledged.
pub dispatch-Covers :
    (o : Outside) (client_id : Str) (saved : Saved) (request_id : Str) (result : SendResult)
    (ts : List PushTask)
    → dispatch o client_id saved request_id ≡ some (result, ts)
    → Covers saved.recipients result.dispatch ts
unfolding dispatch
dispatch-Covers o client_id saved request_id result ts e =
    elim (Option-cases saved.message.destination) [
      | inl n ↦ ground arith
      | inr (d, n) ↦
          let total = chunk_total o d saved request_id in
          let both = publish_from o d saved request_id total 0 0 in
          let c =
            Covers-from saved.recipients both.0 both.1
              (publish_from-Says o d saved request_id total 0)
              (publish_from-covered o d saved request_id total 0) in
          let state : both.0 ≡ result.dispatch = ground arith in
          let tasks : both.1 ≡ ts = ground arith in
          subst (λ t. Covers saved.recipients result.dispatch t) tasks
            (subst (λ s. Covers saved.recipients s both.1) state c)
    ]

-- Every acknowledged task has the identity that Job's decoder wants and 1 to 100 recipients, as
-- long as the count of chunks fits its field; and the sender is always told that the message is
-- stored, with the message and the replay mark of the save.
pub dispatch-IsChunk :
    (o : Outside) (client_id : Str) (saved : Saved) (request_id : Str) (result : SendResult)
    (ts : List PushTask)
    → (length saved.recipients + 99) / 100 < 2 ^ 32
    → dispatch o client_id saved request_id ≡ some (result, ts)
    → All (IsChunk saved) ts
      × (result.stored ≡ true)
      × (result.message ≡ saved.message)
      × (result.replayed ≡ saved.replayed)
unfolding dispatch
dispatch-IsChunk o client_id saved request_id result ts w e =
    elim (Option-cases saved.message.destination) [
      | inl n ↦ ground arith
      | inr (d, n) ↦
          let total = chunk_total o d saved request_id in
          let tasks : (publish_from o d saved request_id total 0 0).1 ≡ ts = ground arith in
          (
            subst (All (IsChunk saved)) tasks
                (publish_from-IsChunk o d saved request_id total 0 (omega arith) w),
            ground arith,
            ground arith,
            ground arith,
          )
    ]

-- A message with a destination is dispatched, and its sender is told that it is stored.
pub dispatch-some :
    (o : Outside) (client_id : Str) (saved : Saved) (request_id : Str) (d : Destination)
    → saved.message.destination ≡ some d
    → (result : SendResult) × (ts : List PushTask) × (dispatch o client_id saved request_id
        ≡ some (result, ts))
      × (result.stored ≡ true)
      × (result.message ≡ saved.message)
unfolding dispatch
dispatch-some o client_id saved request_id d h =
    let both = publish_from o d saved request_id (chunk_total o d saved request_id) 0 0 in
    (
      record {
        client_message_id = client_id;
        stored = true;
        message = saved.message;
        replayed = saved.replayed;
        dispatch = both.0;
      },
      both.1,
      ground (arith, h),
      refl,
      refl,
    )
