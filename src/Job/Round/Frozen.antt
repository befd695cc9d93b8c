-- ===== src/Job/Round/Frozen.antt =====
-- A round leaves alone whoever is done: a recipient with a terminal outcome, or one that was stopped.
use fable.Prelude.{
  ℕ, suc, ◌<◌, ◌≡◌, refl, ◌⊎◌, inl, inr, Bool, true, false, not, ◌||◌, Option, none, some, List, [],
  ◌∷◌, ◌==◌, contains, nat_eq, str_eq, arith, if◌then◌else◌,
}
use fable.Wire.{ConnectionIdentity, RouteLookupResult, DeliveryOutcome}
use fable.Job.{outcome_eq, unresolved, Recipient, RpcError, Reply, answer, failure}
use fable.Job.Batches.{apply_from, apply, positions_from, rpc_failure}
use fable.Job.Round.{found, settle_lookup, keep, delivered, settle_delivery}

abbrev frozen : Recipient → Bool
frozen s = not (s.outcome == unresolved) || s.stopped

-- Position by position, the same user, and the same recipient where it was done.
abbrev pub Kept : List Recipient → List Recipient → Type 0
Kept [] [] = Unit
Kept [] (t ∷ ts) = ⊥
Kept (s ∷ ss) [] = ⊥
Kept (s ∷ ss) (t ∷ ts) = (t.user_id ≡ s.user_id) × ((frozen s ≡ false) ⊎ (t ≡ s)) × Kept ss ts

pub Kept-refl : (ss : List Recipient) → Kept ss ss
Kept-refl [] = tt
Kept-refl (s ∷ ss) = (refl, inr refl, Kept-refl ss)

pub Kept-trans : (ss ts us : List Recipient) → Kept ss ts → Kept ts us → Kept ss us
Kept-trans [] [] [] k l = tt
Kept-trans [] [] (u ∷ us) k l = l
Kept-trans [] (t ∷ ts) us k l = absurd k
Kept-trans (s ∷ ss) [] us k l = absurd k
Kept-trans (s ∷ ss) (t ∷ ts) [] k l = l
Kept-trans (s ∷ ss) (t ∷ ts) (u ∷ us) (a, b, k) (c, d, l) =
    (ground arith, ground arith, Kept-trans ss ts us k l)

Reply-cases {ℓ} :
    {A : Type ℓ} (r : Reply A) → ((a : A) × (r ≡ answer a)) ⊎ ((e : RpcError) × (r ≡ failure e))
Reply-cases (answer a) = inl (a, refl)
Reply-cases (failure e) = inr (e, refl)

pub if-Kept :
    (c : Bool) (ss x y : List Recipient) → Kept ss x → Kept ss y → Kept ss (if c then x else y)
if-Kept true ss x y k l = k
if-Kept false ss x y k l = l

-- A batch that holds nobody who was done at the start of the round.
abbrev pub Safe : List ℕ → ℕ → List Recipient → Type 0
Safe b n [] = Unit
Safe b n (s ∷ ss) = ((contains b n ≡ false) ⊎ (frozen s ≡ false)) × Safe b (suc n) ss

pub apply_from-Kept :
    (f : Recipient → Recipient)
    → ((s : Recipient) → (f s).user_id ≡ s.user_id)
    → (b : List ℕ) (n : ℕ) (ss ts : List Recipient) → Safe b n ss
    → Kept ss ts
    → Kept ss (apply_from f b n ts)
unfolding apply_from
apply_from-Kept f same b n [] [] safe k = tt
apply_from-Kept f same b n [] (t ∷ ts) safe k = absurd k
apply_from-Kept f same b n (s ∷ ss) [] safe k = k
apply_from-Kept f same b n (s ∷ ss) (t ∷ ts) (here, safe) (u, k, ks) =
    (ground (arith, same t), ground arith, apply_from-Kept f same b (suc n) ss ts safe ks)

contains-positions_from :
    (p : Recipient → Bool) (k n : ℕ) (ts : List Recipient)
    → k < n
    → contains (positions_from p n ts) k ≡ false
unfolding positions_from
contains-positions_from p k n [] h = refl
contains-positions_from p k n (t ∷ ts) h =
    ground (arith, contains-positions_from p k (suc n) ts (omega arith))

Safe-cons :
    (i : ℕ) (b : List ℕ) (n : ℕ) (ss : List Recipient) → i < n → Safe b n ss → Safe (i ∷ b) n ss
Safe-cons i b n [] h safe = tt
Safe-cons i b n (s ∷ ss) h (here, safe) =
    (ground arith, Safe-cons i b (suc n) ss (omega arith) safe)

if-Safe :
    (c : Bool) (x y : List ℕ) (n : ℕ) (ss : List Recipient)
    → (c ≡ true → Safe x n ss)
    → (c ≡ false → Safe y n ss)
    → Safe (if c then x else y) n ss
if-Safe true x y n ss f g = f refl
if-Safe false x y n ss f g = g refl

-- The positions that a test picks are safe if it picks nobody who is done.
pub positions_from-Safe :
    (p : Recipient → Bool)
    → ((s : Recipient) → p s ≡ true → frozen s ≡ false)
    → (n : ℕ) (ss ts : List Recipient) → Kept ss ts
    → Safe (positions_from p n ts) n ss
unfolding positions_from
positions_from-Safe p picks n [] ts k = tt
positions_from-Safe p picks n (s ∷ ss) [] k = absurd k
positions_from-Safe p picks n (s ∷ ss) (t ∷ ts) (u, k, ks) =
    if-Safe (p t) (n ∷ later) later n (s ∷ ss)
      (λ e. (
        inr (ground (arith, picks t e)),
        Safe-cons n later (suc n) ss (omega arith) (positions_from-Safe p picks (suc n) ss ts ks),
      ))
      (λ e. (
        inl (contains-positions_from p n (suc n) ts (omega arith)),
        positions_from-Safe p picks (suc n) ss ts ks,
      ))
  where
    later : List ℕ
    later = positions_from p (suc n) ts

contains-keep :
    (p : ℕ → Bool) (b : List ℕ) (n : ℕ) → contains b n ≡ false → contains (keep p b) n ≡ false
unfolding keep
contains-keep p [] n h = refl
contains-keep p (i ∷ is) n h = ground (arith, contains-keep p is n)

pub keep-Safe :
    (p : ℕ → Bool) (b : List ℕ) (n : ℕ) (ss : List Recipient) → Safe b n ss → Safe (keep p b) n ss
keep-Safe p b n [] safe = tt
keep-Safe p b n (s ∷ ss) (here, safe) =
    (ground (arith, contains-keep p b n), keep-Safe p b (suc n) ss safe)

Safe-head :
    (i : ℕ) (b : List ℕ) (n : ℕ) (ss : List Recipient) → Safe (i ∷ b) n ss → Safe (i ∷ []) n ss
Safe-head i b n [] safe = tt
Safe-head i b n (s ∷ ss) (here, safe) = (ground arith, Safe-head i b (suc n) ss safe)

Safe-tail : (i : ℕ) (b : List ℕ) (n : ℕ) (ss : List Recipient) → Safe (i ∷ b) n ss → Safe b n ss
Safe-tail i b n [] safe = tt
Safe-tail i b n (s ∷ ss) (here, safe) = (ground arith, Safe-tail i b (suc n) ss safe)

pub rpc_failure-user :
    (e : RpcError) (r : Bool) (s : Recipient) → (rpc_failure e r s).user_id ≡ s.user_id
unfolding rpc_failure
rpc_failure-user e r s = ground arith

found-user : (item : RouteLookupResult) (s : Recipient) → (found item s).user_id ≡ s.user_id
unfolding found
found-user item s = ground arith

delivered-user : (o : DeliveryOutcome) (s : Recipient) → (delivered o s).user_id ≡ s.user_id
unfolding delivered
delivered-user o s = ground arith

pub settle_lookup-Kept :
    (b : List ℕ) (items : List (Option RouteLookupResult)) (ss ts : List Recipient)
    → Safe b 0 ss
    → Kept ss ts
    → Kept ss (settle_lookup b items ts)
unfolding settle_lookup
settle_lookup-Kept [] items ss ts safe k = k
settle_lookup-Kept (i ∷ is) [] ss ts safe k = k
settle_lookup-Kept (i ∷ is) (none ∷ items) ss ts safe k = k
settle_lookup-Kept (i ∷ is) (some item ∷ items) ss ts safe k =
    settle_lookup-Kept is items ss (apply (found item) (i ∷ []) ts) (Safe-tail i is 0 ss safe)
      (apply_from-Kept (found item) (found-user item) (i ∷ []) 0 ss ts (Safe-head i is 0 ss safe) k)

pub settle_delivery-Kept :
    (b : List ℕ) (items : List (Option (Option ConnectionIdentity × Option DeliveryOutcome)))
    (ss ts : List Recipient)
    → Safe b 0 ss
    → Kept ss ts
    → Kept ss (settle_delivery b items ts)
unfolding settle_delivery
settle_delivery-Kept [] items ss ts safe k = k
settle_delivery-Kept (i ∷ is) [] ss ts safe k = k
settle_delivery-Kept (i ∷ is) (none ∷ items) ss ts safe k = k
settle_delivery-Kept (i ∷ is) (some (target, none) ∷ items) ss ts safe k = k
settle_delivery-Kept (i ∷ is) (some (target, some o) ∷ items) ss ts safe k =
    settle_delivery-Kept is items ss (apply (delivered o) (i ∷ []) ts) (Safe-tail i is 0 ss safe) (
      apply_from-Kept (delivered o) (delivered-user o) (i ∷ []) 0 ss ts (Safe-head i is 0 ss safe)
        k)
