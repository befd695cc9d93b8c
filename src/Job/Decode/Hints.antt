-- ===== src/Job/Decode/Hints.antt =====
-- The hints that Logic takes from its lookups are targets that Job's decoder accepts.
use fable.Prelude.{
  ◌≡◌, refl, sym, subst, ◌⊎◌, inl, inr, Str, true, false, Option, none, some, List, [], ◌∷◌, ◌==◌,
  All, Distinct, contains, str_eq, nat_eq, arith, str_le, str_le-total, str_le_trans, Option-cases,
}
use fable.Wire.{
  Codecs, ConnectionIdentity, RouteLease, RouteLookupResult, RouteState, route, offline, no_state,
}
use fable.Wire.Identity.{valid_connection}
use fable.Wire.Push.{Message}
use fable.Logic.Dispatch.{hint, hints}
use fable.Job.Decode.{valid_recipients, valid_targets}

-- A lookup's entry for a user: a route that it holds is a sound connection of that user.
abbrev pub RoutesTo : Codecs → Str → RouteLookupResult → Type 0
RoutesTo c user r =
    (lease : RouteLease) (id : ConnectionIdentity)
    → r.state ≡ route (some lease)
    → lease.identity ≡ some id
    → (id.user_id ≡ user) × (valid_connection c (some id) ≡ true)

-- A lookup's answer has one entry for each user, in their order.
abbrev pub AnswersFor : Codecs → List Str → List RouteLookupResult → Type 0
AnswersFor c [] [] = Unit
AnswersFor c (u ∷ us) (r ∷ rs) = RoutesTo c u r × AnswersFor c us rs
AnswersFor c _ _ = ⊥

hint-cases :
    (r : RouteLookupResult) (s : RouteState)
    → r.state ≡ s
    → (hint r ≡ [])
      ⊎ ((lease : RouteLease) × (id : ConnectionIdentity) × (r.state ≡ route (some lease))
          × (lease.identity ≡ some id)
          × (hint r ≡ id ∷ []))
unfolding hint
hint-cases r no_state e = inl (ground (arith, e))
hint-cases r (offline k) e = inl (ground (arith, e))
hint-cases r (route none) e = inl (ground (arith, e))
hint-cases r (route (some lease)) e = elim (Option-cases lease.identity) [
  | inl n ↦ inl (ground (arith, e, n))
  | inr (id, n) ↦ inr (lease, id, e, n, ground (arith, e, n))
]

fresh_for :
    (u : Str) (seen us : List Str)
    → contains us u ≡ false
    → All (λ k. contains seen k ≡ false) us
    → All (λ k. contains (u ∷ seen) k ≡ false) us
fresh_for u seen [] n h = tt
fresh_for u seen (k ∷ ks) n (f, h) =
    (ground (arith, f, n), fresh_for u seen ks (ground (arith, n)) h)

pub hints-valid_targets :
    (c : Codecs) (recipients seen us : List Str) (rs : List RouteLookupResult)
    → All (λ k. contains recipients k ≡ true) us
    → All (λ k. contains seen k ≡ false) us
    → Distinct us
    → AnswersFor c us rs
    → valid_targets c recipients seen (hints rs) ≡ true
unfolding hints valid_targets
hints-valid_targets c recipients seen [] [] there fresh apart a = refl
hints-valid_targets c recipients seen [] (r ∷ rs) there fresh apart a = absurd a
hints-valid_targets c recipients seen (u ∷ us) [] there fresh apart a = absurd a
hints-valid_targets c recipients seen (u ∷ us) (r ∷ rs) (m, there) (f, fresh) (n, apart) (a, rest) =
    elim (hint-cases r r.state refl) [
      | inl e ↦
          ground (arith, e, hints-valid_targets c recipients seen us rs there fresh apart rest)
      | inr (lease, id, s, i, e) ↦
          let (who, valid) = a lease id s i in
          ground (
            arith,
            e,
            who,
            valid,
            m,
            f,
            hints-valid_targets c recipients (u ∷ seen) us rs there (fresh_for u seen us n fresh)
                apart rest,
          )
    ]

str_le_refl : (a : Str) → str_le a a ≡ true
str_le_refl a = elim (str_le-total a a) [ inl h ↦ h | inr h ↦ h ]

-- What follows an id in a list that valid_recipients passed comes after it.
valid_recipients-after :
    (c : Codecs) (m : Message) (first before : Str) (ids : List Str)
    → str_le first before ≡ true
    → valid_recipients c m (some before) ids ≡ true
    → contains ids first ≡ false
unfolding valid_recipients
valid_recipients-after c m first before [] l h = refl
valid_recipients-after c m first before (id ∷ ids) l h =
    let above : str_le id before ≡ false = ground (arith, h) in
    let below : str_le before id ≡ true = ground (arith, str_le-total before id) in
    let apart : (id == first) ≡ false =
      ground (arith, λ (e : id ≡ first). subst (λ k. str_le k before ≡ true) (sym e) l, above) in
    let rest =
      valid_recipients-after c m first id ids (str_le_trans first before id l below)
        (ground (arith, h)) in
    ground (arith, apart, rest)

pub valid_recipients-Distinct :
    (c : Codecs) (m : Message) (before : Option Str) (ids : List Str)
    → valid_recipients c m before ids ≡ true
    → Distinct ids
unfolding valid_recipients
valid_recipients-Distinct c m before [] h = tt
valid_recipients-Distinct c m before (id ∷ ids) h = (
  valid_recipients-after c m id id ids (str_le_refl id) (ground (arith, h)),
  valid_recipients-Distinct c m (some id) ids (ground (arith, h)),
)

pub contained :
    (all ids : List Str)
    → ((k : Str) → contains ids k ≡ true → contains all k ≡ true)
    → All (λ k. contains all k ≡ true) ids
contained all [] f = tt
contained all (id ∷ ids) f =
    (f id (ground arith), contained all ids (λ k h. f k (ground (arith, h))))

pub nothing_seen : (ids : List Str) → All (λ k. contains [] k ≡ false) ids
nothing_seen [] = tt
nothing_seen (id ∷ ids) = (refl, nothing_seen ids)
