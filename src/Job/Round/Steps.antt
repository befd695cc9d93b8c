-- ===== src/Job/Round/Steps.antt =====
-- The steps of a round, one by one, and the rounds of a task.
use fable.Prelude.{
  ℕ, suc, ◌≡◌, refl, subst, inl, inr, Str, Bool, true, false, not, Option, none, some, List, [],
  ◌∷◌, nat_eq, str_eq, arith, Bool-cases, sort_strings,
}
use fable.Wire.{
  Time, Codecs, CometIdentity, CometLease, no_state, CometResolution, ResolutionState, lease,
  absent,
}
use fable.Job.{
  outcome_eq, Recipient, RpcError, Reply, answer, failure, route_changed, invalid_response,
}
use fable.Job.Replies.{valid_delivery, valid_lookups, valid_resolutions, future}
use fable.Job.Batches.{apply, positions, mark, repair_with, stop, rpc_failure, collect}
use fable.Job.Round.{
  settle_lookup, lookup, looked_up, spent, find_routes, routed_to, eligible, settle_delivery, send,
  deliver_to, deliver_each, batches, apply_groups, dispatch_round, round, user_of, route_of,
  instance_names, InstanceEnv, RoundEnv,
}
use fable.Job.Round.Frozen.{
  Kept, Kept-refl, Safe, keep-Safe, if-Kept, positions_from-Safe, apply_from-Kept, rpc_failure-user,
  settle_lookup-Kept, settle_delivery-Kept,
}

some-Kept {ℓ} :
    {A : Type ℓ} (ss : List Recipient) (r : Option A) (x : List Recipient) (f : A → List Recipient)
    → Kept ss x
    → ((a : A) → Kept ss (f a))
    → Kept ss (elim r [ none ↦ x | some a ↦ f a ])
some-Kept ss none x f k l = k
some-Kept ss (some a) x f k l = l a

cons-Kept {ℓ} :
    {A : Type ℓ} (ss : List Recipient) (b : List A) (x : List Recipient)
    (f : A → List A → List Recipient)
    → Kept ss x
    → ((a : A) (as' : List A) → b ≡ a ∷ as' → Kept ss (f a as'))
    → Kept ss (elim b [ [] ↦ x | a ∷ as' ↦ f a as' ])
cons-Kept ss [] x f k l = k
cons-Kept ss (a ∷ as') x f k l = l a as' refl

cons_pair-Kept {ℓ} :
    {A : Type ℓ} (ss : List Recipient) (b : List A) (x : List Recipient × Bool)
    (f : A → List A → List Recipient × Bool)
    → Kept ss x.0
    → ((a : A) (as' : List A) → b ≡ a ∷ as' → Kept ss (f a as').0)
    → (let out : List Recipient × Bool = elim b [ [] ↦ x | a ∷ as' ↦ f a as' ] in Kept ss out.0)
cons_pair-Kept ss [] x f k l = k
cons_pair-Kept ss (a ∷ as') x f k l = l a as' refl

reply-Kept {ℓ} :
    {A : Type ℓ} (ss : List Recipient) (r : Reply A) (f : RpcError → List Recipient)
    (g : A → List Recipient)
    → ((e : RpcError) → Kept ss (f e))
    → ((a : A) → Kept ss (g a))
    → Kept ss (elim r [ failure e ↦ f e | answer a ↦ g a ])
reply-Kept ss (answer a) f g k l = l a
reply-Kept ss (failure e) f g k l = k e

-- From here on, against the recipients `ss` at the start of the round.
module _ (ss : List Recipient) where
  failed-Kept :
      (e : RpcError) (r : Bool) (b : List ℕ) (ts : List Recipient)
      → Safe b 0 ss
      → Kept ss ts
      → Kept ss (apply (rpc_failure e r) b ts)
  failed-Kept e r b ts safe k =
      apply_from-Kept (rpc_failure e r) (rpc_failure-user e r) b 0 ss ts safe k

  lookup-Kept :
      (c : Codecs) (env : RoundEnv) (b : List ℕ) (ts : List Recipient)
      → Safe b 0 ss
      → Kept ss ts
      → Kept ss (lookup c env b ts)
  unfolding lookup
  lookup-Kept c env b ts safe k =
      reply-Kept ss (env.lookup (collect user_of ts b)) _ _ (λ e. failed-Kept e false b ts safe k)
        λ r.
          if-Kept (valid_lookups c env.lookup_clock r (collect user_of ts b)) ss _ _
            (some-Kept ss r ts (λ items. settle_lookup b items ts) k
              λ items. settle_lookup-Kept b items ss ts safe k)
            (apply_from-Kept _ (λ s. refl) b 0 ss ts safe k)

  find_routes-Kept :
      (c : Codecs) (env : RoundEnv) (repaired : Bool) → Kept ss (find_routes c env repaired ss).0
  unfolding find_routes
  find_routes-Kept c env repaired =
      let asked = apply stop (positions (spent repaired) ss) ss in
      let start : Kept ss ss = Kept-refl ss in
      let asked_kept : Kept ss asked =
        apply_from-Kept stop (λ s. refl) (positions (spent repaired) ss) 0 ss ss
          (positions_from-Safe (spent repaired) (λ s p. ground arith) 0 ss ss start) start in
      let safe : Safe (positions (looked_up repaired) ss) 0 ss =
        positions_from-Safe (looked_up repaired) (λ s p. ground arith) 0 ss ss start in
      cons_pair-Kept ss (positions (looked_up repaired) ss) (asked, repaired) _ asked_kept
        λ i is e.
          let safe' : Safe (i ∷ is) 0 ss = subst (λ b. Safe b 0 ss) e safe in
          apply_from-Kept _ (λ s. ground arith) (i ∷ is) 0 ss (lookup c env (i ∷ is) asked) safe'
            (lookup-Kept c env (i ∷ is) asked safe' asked_kept)

  eligible-Kept :
      (l r : Time) (a : CometLease) (b : List ℕ) (ts : List Recipient)
      → Safe b 0 ss
      → Kept ss ts
      → Kept ss (eligible l r a b ts).0 × Safe (eligible l r a b ts).1 0 ss
  unfolding eligible
  eligible-Kept l r a b ts safe k = elim (Bool-cases (future l a.lease_deadline)) [
    | inl e ↦ rw e (apply_from-Kept _ (λ s. ground arith) b 0 ss ts safe k, keep-Safe _ b 0 ss safe)
    | inr e ↦ rw e (apply_from-Kept _ (λ s. refl) b 0 ss ts safe k, nobody 0 ss)
  ]
    where
      nobody : (n : ℕ) (us : List Recipient) → Safe [] n us
      nobody n [] = tt
      nobody n (u ∷ us) = (inl refl, nobody (suc n) us)

  send-Kept :
      (env : InstanceEnv) (t m : Str) (who : CometIdentity) (b : List ℕ) (ts : List Recipient)
      → Safe b 0 ss
      → Kept ss ts
      → Kept ss (send env t m who b ts)
  unfolding send
  send-Kept env t m who b ts safe k =
      reply-Kept ss (env.deliver who (collect route_of ts b)) _ _
        (λ e. failed-Kept e true b ts safe k)
        λ r.
          if-Kept (valid_delivery r t m (collect route_of ts b)) ss _ _
            (some-Kept ss r ts (λ r. settle_delivery b r.results ts) k
              λ r. settle_delivery-Kept b r.results ss ts safe k)
            (apply_from-Kept _ (λ s. refl) b 0 ss ts safe k)

  deliver_to-Kept :
      (env : InstanceEnv) (t m : Str) (a : CometLease) (who : CometIdentity) (b : List ℕ)
      (ts : List Recipient)
      → Safe b 0 ss
      → Kept ss ts
      → Kept ss (deliver_to env t m a who b ts)
  unfolding deliver_to
  deliver_to-Kept env t m a who b ts safe k =
      let first = eligible env.lease_clock env.route_clock a b ts in
      let (k₁, safe₁) = eligible-Kept env.lease_clock env.route_clock a b ts safe k in
      cons-Kept ss first.1 first.0 _ k₁ λ i is e.
        let safe_is : Safe (i ∷ is) 0 ss = subst (λ x. Safe x 0 ss) e safe₁ in
        let second = eligible env.late_lease_clock env.late_route_clock a (i ∷ is) first.0 in
        let (k₂, safe₂) =
          eligible-Kept env.late_lease_clock env.late_route_clock a (i ∷ is) first.0 safe_is k₁ in
        if-Kept (not (env.dial a.rpc_address)) ss _ _
          (apply_from-Kept _ (λ s. refl) (i ∷ is) 0 ss first.0 safe_is k₁)
          (cons-Kept ss second.1 second.0 _ k₂ λ j js f.
            if-Kept env.rpc_over ss _ _ k₂
              (send-Kept env t m who (j ∷ js) second.0 (subst (λ x. Safe x 0 ss) f safe₂) k₂))

  -- Every batch of the groups is safe.
  abbrev SafeGroups : List (Str × List ℕ) → Type 0
  SafeGroups [] = Unit
  SafeGroups ((id, b) ∷ gs) = Safe b 0 ss × SafeGroups gs

  resolved-Kept :
      (env : InstanceEnv) (t m : Str) (r : CometResolution) (b : List ℕ) (ts : List Recipient)
      → Safe b 0 ss
      → Kept ss ts
      → Kept ss (elim r.state [
        | lease (some a) ↦ elim a.identity [ none ↦ ts | some who ↦ deliver_to env t m a who b ts ]
        | _ ↦ apply (repair_with route_changed) b ts
      ])
  resolved-Kept env t m r b ts safe k = go r.state
    where
      changed : Kept ss (apply (repair_with route_changed) b ts)
      changed = apply_from-Kept _ (λ s. refl) b 0 ss ts safe k

      go :
          (st : ResolutionState)
          → Kept ss (elim st [
            | lease (some a) ↦ elim a.identity [
              | none ↦ ts
              | some who ↦ deliver_to env t m a who b ts
            ]
            | _ ↦ apply (repair_with route_changed) b ts
          ])
      go no_state = changed
      go (absent n) = changed
      go (lease none) = changed
      go (lease (some a)) =
          some-Kept ss a.identity ts (λ who. deliver_to env t m a who b ts) k
            λ who. deliver_to-Kept env t m a who b ts safe k

  deliver_each-Kept :
      (env : RoundEnv) (t m : Str) (gs : List (Str × List ℕ)) (rs : List (Option CometResolution))
      (ts : List Recipient)
      → SafeGroups gs
      → Kept ss ts
      → Kept ss (deliver_each env t m gs rs ts)
  unfolding deliver_each
  deliver_each-Kept env t m [] rs ts safe k = k
  deliver_each-Kept env t m (g ∷ gs) [] ts safe k = k
  deliver_each-Kept env t m (g ∷ gs) (none ∷ rs) ts safe k = k
  deliver_each-Kept env t m ((id, b) ∷ gs) (some r ∷ rs) ts (here, safe) k =
      if-Kept (env.instance_env id).over ss _ _ k (
        deliver_each-Kept env t m gs rs _ safe
          (resolved-Kept (env.instance_env id) t m r b ts here k))

  apply_groups-Kept :
      (f : Recipient → Recipient)
      → ((s : Recipient) → (f s).user_id ≡ s.user_id)
      → (gs : List (Str × List ℕ)) (ts : List Recipient) → SafeGroups gs
      → Kept ss ts
      → Kept ss (apply_groups f gs ts)
  unfolding apply_groups
  apply_groups-Kept f same [] ts safe k = k
  apply_groups-Kept f same ((id, b) ∷ gs) ts (here, safe) k =
      apply_groups-Kept f same gs (apply f b ts) safe (apply_from-Kept f same b 0 ss ts here k)

  batches-SafeGroups :
      (ts : List Recipient) (ids : List Str) → Kept ss ts → SafeGroups (batches ts ids)
  unfolding batches
  batches-SafeGroups ts [] k = tt
  batches-SafeGroups ts (id ∷ ids) k = (
    positions_from-Safe (routed_to id) (λ s p. ground arith) 0 ss ts k,
    batches-SafeGroups ts ids k,
  )

  dispatch_round-Kept :
      (c : Codecs) (env : RoundEnv) (t m : Str) (ts : List Recipient)
      → Kept ss ts
      → Kept ss (dispatch_round c env t m ts)
  unfolding dispatch_round
  dispatch_round-Kept c env t m ts k =
      let names = sort_strings (instance_names ts []) in
      let groups = batches ts names in
      let safe = batches-SafeGroups ts names k in
      cons-Kept ss names ts _ k λ id ids e. if-Kept env.over ss _ _ k (
        reply-Kept ss (env.resolve (id ∷ ids)) _ _
          (λ x. apply_groups-Kept (rpc_failure x false) (rpc_failure-user x false) groups ts safe k)
          λ r.
            if-Kept (valid_resolutions c env.resolve_clock r (id ∷ ids)) ss _ _
              (some-Kept ss r ts (λ rs. deliver_each env t m groups rs ts) k
                λ rs. deliver_each-Kept env t m groups rs ts safe k)
              (apply_groups-Kept (mark invalid_response) (λ s. refl) groups ts safe k))

-- A round keeps every recipient's place and user, and leaves alone, whatever the other roles
-- answer, everyone who has a terminal outcome or was stopped.
pub round-Kept :
    (c : Codecs) (env : RoundEnv) (task_id message_id : Str) (repaired : Bool) (ss : List Recipient)
    → Kept ss (round c env task_id message_id repaired ss).0
unfolding round
round-Kept c env task_id message_id repaired ss =
    dispatch_round-Kept ss c env task_id message_id (find_routes c env repaired ss).0
      (find_routes-Kept ss c env repaired)
