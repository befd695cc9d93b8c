-- ===== src/Job/Consumer/Identities.antt =====
-- The bounded memory of task identities in internal/job/consumer.go.
use fable.Prelude.{
  ℕ, zero, suc, ◌+◌, ◌%◌, ◌≤◌, ◌<◌, ◌≡◌, refl, ap, ◌⊎◌, inl, inr, Str, Bool, true, false, not, ◌||◌,
  none, some, List, [], ◌∷◌, ◌++◌, ◌==◌, arith, Bool-cases, Option-cases, nat_eq, str_eq, ltb,
  length, length-append, get_elem?, lookup, insert, erase, lookup-insert, lookup-erase, contains,
  Str-discrete,
}
use fable.Job.Consumer.{Consumer, set_at, conflict}

-- `order` is a ring of at most `capacity` ids, and names every id that is remembered.
pub record Bounded (c : Consumer) : Type 0 where
  pub positive : 0 < c.options.identity_capacity
  pub small : length c.order ≤ c.options.identity_capacity
  pub inside : (c.next ≡ 0) ⊎ (c.next < length c.order)
  pub listed : (k : Str) → (lookup k c.identities ≡ none) ⊎ (contains c.order k ≡ true)

get_elem?-in : (xs : List Str) (i : ℕ) → i < length xs → (x : Str) × (get_elem? xs i ≡ some x)
get_elem?-in [] i h = absurd (omega arith)
get_elem?-in (x ∷ xs) zero h = (x, refl)
get_elem?-in (x ∷ xs) (suc i) h = get_elem?-in xs i (omega arith)

length-set_at : (xs : List Str) (i : ℕ) (v : Str) → length (set_at xs i v) ≡ length xs
unfolding set_at
length-set_at [] i v = refl
length-set_at (x ∷ xs) zero v = refl
length-set_at (x ∷ xs) (suc i) v = ap suc (length-set_at xs i v)

contains-append :
    (xs : List Str) (v k : Str) → contains (xs ++ v ∷ []) k ≡ (contains xs k || v == k)
contains-append [] v k = ground arith
contains-append (x ∷ xs) v k = ground (arith, contains-append xs v k)

set_at-new :
    (xs : List Str) (i : ℕ) (v x : Str)
    → get_elem? xs i ≡ some x
    → contains (set_at xs i v) v ≡ true
unfolding set_at
set_at-new [] i v x e = ground arith
set_at-new (y ∷ xs) zero v x e = ground arith
set_at-new (y ∷ xs) (suc i) v x e = ground (arith, set_at-new xs i v x e)

set_at-old :
    (xs : List Str) (i : ℕ) (v x k : Str)
    → get_elem? xs i ≡ some x
    → contains xs k ≡ true
    → (x ≡ k) ⊎ (contains (set_at xs i v) k ≡ true)
unfolding set_at
set_at-old [] i v x k e h = ground arith
set_at-old (y ∷ xs) zero v x k e h = ground arith
set_at-old (y ∷ xs) (suc i) v x k e h = elim (Str-discrete y k) [
  | yes p ↦ inr (ground arith)
  | no n ↦ elim (set_at-old xs i v x k e (ground arith)) [
    | inl f ↦ inl f
    | inr f ↦ inr (ground arith)
  ]
]

-- The consumer after an id that is not remembered: `order` and what it says about the ids.
appended-Bounded :
    (id digest : Str) (c : Consumer)
    → Bounded c
    → length c.order < c.options.identity_capacity
    → Bounded (record c { order = c.order ++ id ∷ []; identities = insert id digest c.identities })
appended-Bounded id digest c b room = record {
  positive = b.positive;
  small = omega (arith, room, length-append c.order (id ∷ []));
  inside = elim b.inside [
    | inl e ↦ inl e
    | inr l ↦ inr (omega (arith, l, length-append c.order (id ∷ [])))
  ];
  listed = λ k.
      ground
        (arith, b.listed k, lookup-insert id k digest c.identities, contains-append c.order id k);
}

replaced-Bounded :
    (id digest oldest : Str) (c : Consumer)
    → Bounded c
    → get_elem? c.order c.next ≡ some oldest
    → 0 < length c.order
    → Bounded (record c {
      order = set_at c.order c.next id;
      next = (c.next + 1) % length c.order;
      identities = insert id digest (erase oldest c.identities);
    })
replaced-Bounded id digest oldest c b e some_there = record {
  positive = b.positive;
  small = omega (arith, b.small, length-set_at c.order c.next id);
  inside = inr (omega (arith, some_there, length-set_at c.order c.next id));
  listed = λ k. elim (b.listed k) [
    | inl f ↦ ground (
      arith,
      lookup-insert id k digest (erase oldest c.identities),
      lookup-erase oldest k c.identities,
      set_at-new c.order c.next id oldest e,
    )
    | inr f ↦ ground (
      arith,
      lookup-insert id k digest (erase oldest c.identities),
      lookup-erase oldest k c.identities,
      set_at-new c.order c.next id oldest e,
      set_at-old c.order c.next id oldest k e f,
    )
  ];
}

-- With a ring that is well formed the identity check does not panic and keeps it so, at no more ids
-- than the capacity; afterwards the id is remembered with the digest it was first seen with, and the
-- answer is whether this one differs.
pub conflict-Bounded :
    (id digest : Str) (c : Consumer)
    → Bounded c
    → (c' : Consumer) × (b : Bool) × (known : Str) × (conflict id digest c ≡ some (c', b))
      × Bounded c'
      × (c'.stats ≡ c.stats)
      × (lookup id c'.identities ≡ some known)
      × (b ≡ not (known == digest))
      × ((lookup id c.identities ≡ some known)
          ⊎ ((lookup id c.identities ≡ none) × (known ≡ digest)))
unfolding conflict
conflict-Bounded id digest c b = elim (Option-cases (lookup id c.identities)) [
  | inr (old, e) ↦ (c, not (old == digest), old, rw (e, conflict) refl, b, refl, e, refl, inl e)
  | inl e ↦ elim (Bool-cases (ltb (length c.order) c.options.identity_capacity)) [
    | inl room ↦ (
      _,
      false,
      digest,
      rw (e, room, conflict) refl,
      appended-Bounded id digest c b (ground arith),
      refl,
      ground (arith, lookup-insert id id digest c.identities),
      ground arith,
      inr (e, refl),
    )
    | inr full ↦
        let there : 0 < length c.order = ground (arith, b.positive) in
        let (oldest, g) = get_elem?-in c.order c.next (ground (arith, b.inside)) in
        (
          _,
          false,
          digest,
          rw (e, full, g, conflict) refl,
          replaced-Bounded id digest oldest c b g there,
          refl,
          ground (arith, lookup-insert id id digest (erase oldest c.identities)),
          ground arith,
          inr (e, refl),
        )
  ]
]
