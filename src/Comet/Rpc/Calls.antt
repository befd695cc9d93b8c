-- ===== src/Comet/Rpc/Calls.antt =====
-- What a call on the hub leaves behind when it fails.
use fable.Prelude.{
  ◌+◌, ◌||◌, ltb, leb, ℕ, ◌≡◌, refl, sym, ap, subst, ◌⊎◌, inl, inr, Str, false, Option, none, some,
  List, str_eq, nat_eq, arith, Option-cases, Bool-cases, Result-cases, Result, ok, err,
}
use fable.Wire.{Time, Codecs, ConnectionIdentity, DeliveryResult, ConditionalDeleteOutcome}
use fable.Comet.Validation.{validate_delivery, validate_connection}
use fable.Comet.Hub.{Error, invalid_error, closed_error, Hub, DrainState, drain, drain_limit}
use fable.Comet.Rpc.{
  RpcCredentials, DeliverRequest, call, hub_deliver, hub_unregister, CallError, of_hub, Caller,
  waits, gives_up_before, gives_up_after, hub_drain, delivering, unregistering,
}

-- A call on the hub that a caller gave up while the owner had its command.
abbrev pub GaveUp : Caller → Type 0
GaveUp caller = (e : CallError) × (caller ≡ gives_up_after e)

-- A call on the hub that failed has left it alone, unless the caller gave it up; where it may have done
-- something, it found the hub running.
abbrev pub Careful {ℓ} : {A : Type ℓ} → Caller → Hub → Hub × Result CallError A → Type ℓ
Careful {A = A} caller h r =
    ((e : CallError) × (r ≡ (h, err e)))
    ⊎ ((h.done ≡ false)
        × (((h' : Hub) × (a : A) × (r ≡ (h', ok a)))
            ⊎ (GaveUp caller × ((h' : Hub) × (e : CallError) × (r ≡ (h', err e))))))

module _ (c : Codecs) (s : RpcCredentials) (header : List Str) where
  call-Careful {ℓ} :
      {A : Type ℓ} (caller : Caller) (h : Hub) (f : Hub → Hub × Result Error A)
      → (((e : Error) × (f h ≡ (h, err e))) ⊎ ((h' : Hub) × (a : A) × (f h ≡ (h', ok a))))
      → Careful caller h (call c s header caller h f)
  unfolding call
  call-Careful (gives_up_before e) h f k = inl (e, refl)
  call-Careful waits h f k = elim (Bool-cases h.done) [
    | inl d ↦ inl (of_hub closed_error, ground (arith, d))
    | inr d ↦ elim k [
      | inl (e, q) ↦ inl (of_hub e, ground (arith, d, q))
      | inr (h', a, q) ↦ inr (d, inl (h', a, ground (arith, d, q)))
    ]
  ]
  call-Careful (gives_up_after e) h f k = elim (Bool-cases h.done) [
    | inl d ↦ inl (of_hub closed_error, ground (arith, d))
    | inr d ↦ inr (d, inr ((e, refl), ((f h).0, e, ground (arith, d))))
  ]

  pub hub_deliver-Careful :
      (caller : Caller) (clock : ℕ → Time) (r : DeliverRequest) (h : Hub)
      → Careful caller h (hub_deliver c s header caller clock r.task_id r.message r.targets h)
  unfolding hub_deliver
  hub_deliver-Careful caller clock r h = elim (Option-cases r.message) [
    | inl n ↦ inl (of_hub invalid_error, ground arith)
    | inr (m, n) ↦
        elim (Bool-cases (validate_delivery c r.task_id m r.targets h.identity.instance_id)) [
          | inr v ↦ inl (of_hub invalid_error, ground arith)
          | inl v ↦
              let f : Hub → Hub × Result Error (Str × List DeliveryResult) =
                delivering c s header clock m r.targets in
              let is : hub_deliver c s header caller clock r.task_id r.message r.targets h
                  ≡ call c s header caller h f =
                ground (arith, n, v) in
              subst (Careful caller h) (sym is) (call-Careful caller h f (inr ((f h).0, _, refl)))
        ]
  ]

  pub hub_unregister-Careful :
      (caller : Caller) (target : Option ConnectionIdentity) (h : Hub)
      → Careful caller h (hub_unregister c s header caller target h)
  unfolding hub_unregister
  hub_unregister-Careful caller none h = inl (of_hub invalid_error, refl)
  hub_unregister-Careful caller (some id) h =
      elim (Bool-cases (validate_connection c h.identity.instance_id id)) [
        | inr v ↦ inl (of_hub invalid_error, ground arith)
        | inl v ↦
            let f : Hub → Hub × Result Error ConditionalDeleteOutcome =
              unregistering c s header id in
            let is : hub_unregister c s header caller (some id) h ≡ call c s header caller h f =
              ground (arith, v) in
            subst (Careful caller h) (sym is) (call-Careful caller h f (inr ((f h).0, _, refl)))
      ]

  drain_cases_of :
      (now deadline : Time) (h : Hub)
      → ((e : Error) × (drain now deadline h ≡ (h, err e)))
        ⊎ ((h' : Hub) × (a : DrainState) × (drain now deadline h ≡ (h', ok a)))
  unfolding drain
  drain_cases_of now deadline h = elim (Result-cases (drain now deadline h).1) [
    | inl (a, k) ↦ inr ((drain now deadline h).0, a, ap (λ x. ((drain now deadline h).0, x)) k)
    | inr (e, k) ↦ inl (e, ground (arith, k))
  ]

  pub hub_drain-Careful :
      (caller : Caller) (now deadline : Time) (h : Hub)
      → Careful caller h (hub_drain c s header caller now deadline h)
  unfolding hub_drain
  hub_drain-Careful caller now deadline h =
      elim (Bool-cases (leb deadline now || ltb (now + drain_limit) deadline)) [
        | inl b ↦ inl (of_hub invalid_error, ground (arith, b))
        | inr b ↦
            let f : Hub → Hub × Result Error DrainState = drain now deadline in
            let is : hub_drain c s header caller now deadline h ≡ call c s header caller h f =
              ground (arith, b) in
            subst (Careful caller h) (sym is)
              (call-Careful caller h f (drain_cases_of now deadline h))
      ]
