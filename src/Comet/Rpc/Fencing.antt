-- ===== src/Comet/Rpc/Fencing.antt =====
-- Whom a Comet obeys: its callers' roles, and the boot that they mean.
use fable.Prelude.{
  ◌∙◌, ◌++◌, ◌∷◌, text, has_prefix-drop, has_prefix, drop, ℕ, ◌≡◌, sym, ap, subst, ◌⊎◌, inl, inr,
  Str, true, false, Option, none, some, List, [], str_eq, nat_eq, arith, Option-cases, Bool-cases,
  Result-cases, Result, ok, err,
}
use fable.Wire.{Time, Codecs, CometIdentity, DeliveryResult, ConditionalDeleteOutcome}
use fable.Wire.Status.{Status}
use fable.Comet.Hub.{invalid_error, Hub}
use fable.Comet.Instance.{same_comet}
use fable.Comet.Rpc.{
  RpcCredentials, DeliverRequest, KickRequest, DrainRequest, authorize, check_identity, hub_deliver,
  hub_unregister, replied, handle_deliver, handle_kick, handle_drain, map_error, CallError, of_hub,
  Caller, hub_drain, DeliverResponse, is_reason, drain_reply,
}
use fable.Comet.Rpc.Calls.{
  GaveUp, Careful, hub_deliver-Careful, hub_unregister-Careful, hub_drain-Careful,
}

-- The header that carries a token.
abbrev pub carries : Str → List Str
carries token = (text "Bearer " ++ token) ∷ []

same_comet-some :
    (a : Option CometIdentity) (b : CometIdentity) → same_comet a b ≡ true → a ≡ some b
same_comet-some none b h = absurd (ground arith)
same_comet-some (some a) b h =
    let name : a.instance_id ≡ b.instance_id = ground (arith, h) in
    let boot : a.boot_id ≡ b.boot_id = ground (arith, h) in ground (arith, name, boot)

authorize-carries :
    (c : Codecs) (s : RpcCredentials) (header : List Str) (expected : Str)
    → authorize c s header expected ≡ ok tt
    → header ≡ carries expected
unfolding authorize
authorize-carries c s [] expected k = absurd (ground arith)
authorize-carries c s (v ∷ w ∷ vs) expected k = absurd (ground arith)
authorize-carries c s (v ∷ []) expected k = elim (Bool-cases (has_prefix v (text "Bearer "))) [
  | inr n ↦ absurd (ground (arith, n))
  | inl y ↦
      let token : drop 7 v ≡ expected = ground (arith, y) in
      ap (λ k. k ∷ []) (has_prefix-drop v (text "Bearer ") y ∙ ap (◌++◌ (text "Bearer ")) token)
]

module _ (c : Codecs) (s : RpcCredentials) (header : List Str) where
  -- An answer to a call: an error, with the hub as it was; or else the caller sent the role's token, it
  -- named this instance and this boot, and the hub ran; then the call succeeded, or the caller gave it
  -- up while the owner had it.
  abbrev pub Fenced {ℓ} :
      {A : Type ℓ} → Str → Option CometIdentity → Caller → Hub → Hub × Result Status A → Type ℓ
  Fenced {A = A} expected comet caller h r =
      ((e : Status) × (r ≡ (h, err e)))
      ⊎ ((header ≡ carries expected)
          × (comet ≡ some h.identity)
          × (h.done ≡ false)
          × (((h' : Hub) × (a : A) × (r ≡ (h', ok a)))
              ⊎ (GaveUp caller × ((h' : Hub) × (e : Status) × (r ≡ (h', err e))))))

  replied-Fenced {ℓ κ} :
      {A : Type ℓ} {B : Type κ} (id : Str) (make : A → B) (expected : Str)
      (comet : Option CometIdentity) (caller : Caller) (h : Hub) (r : Hub × Result CallError A)
      → Careful caller h r
      → authorize c s header expected ≡ ok tt
      → same_comet comet h.identity ≡ true
      → Fenced expected comet caller h (replied c s header id make r)
  unfolding replied
  replied-Fenced id make expected comet caller h r (inl (e, k)) a same =
      inl (map_error e id, ap (replied c s header id make) k)
  replied-Fenced id make expected comet caller h r (inr (d, inl (h', x, k))) a same = inr (
    authorize-carries c s header expected a,
    same_comet-some comet h.identity same,
    d,
    inl (h', make x, ap (replied c s header id make) k),
  )
  replied-Fenced id make expected comet caller h r (inr (d, inr (g, (h', e, k)))) a same = inr (
    authorize-carries c s header expected a,
    same_comet-some comet h.identity same,
    d,
    inr (g, (h', map_error e id, ap (replied c s header id make) k)),
  )

  check_identity-same_comet :
      (h : Hub) (comet : Option CometIdentity) (id : Str)
      → check_identity c s header h comet id ≡ ok tt
      → same_comet comet h.identity ≡ true
  unfolding check_identity
  check_identity-same_comet h comet id k = ground (arith, k)

  abbrev pub comet_of {ℓ} :
      {A : Type ℓ} → (A → Option CometIdentity) → Option A → Option CometIdentity
  comet_of f none = none
  comet_of f (some r) = f r

  handle_deliver-Fenced :
      (caller : Caller) (clock : ℕ → Time) (r : Option DeliverRequest) (h : Hub)
      → Fenced s.job_token
          (comet_of (λ q. q.comet) r)
          caller
          h
          (handle_deliver c s header caller clock r h)
  unfolding handle_deliver
  handle_deliver-Fenced caller clock none h =
      elim (Result-cases (authorize c s header s.job_token)) [
        | inr (e, a) ↦ inl (e, ground arith)
        | inl (u, a) ↦ inl (map_error (of_hub invalid_error) [], ground arith)
      ]
  handle_deliver-Fenced caller clock (some q) h =
      elim (Result-cases (authorize c s header s.job_token)) [
        | inr (e, a) ↦ inl (e, ground arith)
        | inl (u, a) ↦ elim (Result-cases (check_identity c s header h q.comet q.request_id)) [
          | inr (e, k) ↦ inl (e, ground arith)
          | inl (v, k) ↦
              let done = hub_deliver c s header caller clock q.task_id q.message q.targets h in
              let make : Str × List DeliveryResult → DeliverResponse =
                λ x. record { task_id = q.task_id; message_id = x.0; results = x.1 } in
              let is : handle_deliver c s header caller clock (some q) h
                  ≡ replied c s header q.request_id make done =
                ground (arith, a, k) in
              subst (Fenced s.job_token q.comet caller h) (sym is) (
                replied-Fenced q.request_id make s.job_token q.comet caller h done
                  (hub_deliver-Careful c s header caller clock q h) a
                  (check_identity-same_comet h q.comet q.request_id k))
        ]
      ]

  handle_kick-Fenced :
      (caller : Caller) (r : Option KickRequest) (h : Hub)
      → Fenced s.logic_token
          (comet_of (λ q. q.comet) r)
          caller
          h
          (handle_kick c s header caller r h)
  unfolding handle_kick
  handle_kick-Fenced caller none h = elim (Result-cases (authorize c s header s.logic_token)) [
    | inr (e, a) ↦ inl (e, ground arith)
    | inl (u, a) ↦ inl (map_error (of_hub invalid_error) [], ground arith)
  ]
  handle_kick-Fenced caller (some q) h = elim (Result-cases (authorize c s header s.logic_token)) [
    | inr (e, a) ↦ inl (e, ground arith)
    | inl (u, a) ↦ elim (Result-cases (check_identity c s header h q.comet q.request_id)) [
      | inr (e, k) ↦ inl (e, ground arith)
      | inl (v, k) ↦ elim (Bool-cases (is_reason c s header q.reason)) [
        | inr n ↦ inl (map_error (of_hub invalid_error) q.request_id, ground (arith, a, k, n))
        | inl n ↦
            let done = hub_unregister c s header caller q.target h in
            let make : ConditionalDeleteOutcome → ConditionalDeleteOutcome = λ x. x in
            let is : handle_kick c s header caller (some q) h
                ≡ replied c s header q.request_id make done =
              ground (arith, a, k, n) in
            subst (Fenced s.logic_token q.comet caller h) (sym is) (
              replied-Fenced q.request_id make s.logic_token q.comet caller h done
                (hub_unregister-Careful c s header caller q.target h) a
                (check_identity-same_comet h q.comet q.request_id k))
      ]
    ]
  ]

  handle_drain-Fenced :
      (caller : Caller) (now : Time) (r : Option DrainRequest) (h : Hub)
      → Fenced s.admin_token
          (comet_of (λ q. q.comet) r)
          caller
          h
          (handle_drain c s header caller now r h)
  unfolding handle_drain
  handle_drain-Fenced caller now none h = elim (Result-cases (authorize c s header s.admin_token)) [
    | inr (e, a) ↦ inl (e, ground arith)
    | inl (u, a) ↦ inl (map_error (of_hub invalid_error) [], ground arith)
  ]
  handle_drain-Fenced caller now (some q) h =
      elim (Result-cases (authorize c s header s.admin_token)) [
        | inr (e, a) ↦ inl (e, ground arith)
        | inl (u, a) ↦ elim (Result-cases (check_identity c s header h q.comet q.request_id)) [
          | inr (e, k) ↦ inl (e, ground arith)
          | inl (v, k) ↦ elim (Option-cases q.deadline) [
            | inl n ↦ inl (map_error (of_hub invalid_error) q.request_id, ground arith)
            | inr (t, n) ↦ elim (Bool-cases t.check_valid) [
              | inr b ↦ inl (map_error (of_hub invalid_error) q.request_id, ground arith)
              | inl b ↦
                  let done = hub_drain c s header caller now t.as_time h in
                  let is : handle_drain c s header caller now (some q) h
                      ≡ replied c s header q.request_id drain_reply done =
                    ground (arith, a, k, n, b) in
                  subst (Fenced s.admin_token q.comet caller h) (sym is) (
                    replied-Fenced q.request_id drain_reply s.admin_token q.comet caller h done
                      (hub_drain-Careful c s header caller now t.as_time h) a
                      (check_identity-same_comet h q.comet q.request_id k))
            ]
          ]
        ]
      ]

  -- Deliver is for Job alone, Kick for Logic alone and Drain for the administrator alone: each either
  -- answers with an error and leaves the hub as it was, or its caller sent exactly that role's token and
  -- named this instance and this boot, while the hub ran. Then the answer is a success, or the caller
  -- gave up while the owner had its command, and does not learn what that did.
  pub handle-Fenced :
      (caller : Caller) (clock : ℕ → Time) (now : Time) (delivery : Option DeliverRequest)
      (kick : Option KickRequest) (drain_request : Option DrainRequest) (h : Hub)
      → Fenced s.job_token
          (comet_of (λ q. q.comet) delivery)
          caller
          h
          (handle_deliver c s header caller clock delivery h)
        × Fenced s.logic_token
            (comet_of (λ q. q.comet) kick)
            caller
            h
            (handle_kick c s header caller kick h)
        × Fenced s.admin_token
            (comet_of (λ q. q.comet) drain_request)
            caller
            h
            (handle_drain c s header caller now drain_request h)
  handle-Fenced caller clock now delivery kick drain_request h = (
    handle_deliver-Fenced caller clock delivery h,
    handle_kick-Fenced caller kick h,
    handle_drain-Fenced caller now drain_request h,
  )
