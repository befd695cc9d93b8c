-- ===== src/Logic/Messages/Snapshots.antt =====
-- The recipients of a message are a strictly increasing list, which sorting again does not change.
use fable.Prelude.{
  ◌≡◌, ◌≢◌, refl, sym, subst, ap, ◌∙◌, ◌⊎◌, inl, inr, Str, true, false, not, ◌&&◌, ◌||◌, List, [],
  ◌∷◌, ◌==◌, length, all, All, contains, str_eq, nat_eq, arith, Bool-cases, Str-discrete,
  sort_strings, insert_sorted, str_le, str_le-total, str_le-antisym, str_le_trans, ok, err,
}
use fable.Wire.{Codecs}
use fable.Wire.Identity.{valid_id}
use fable.Logic.Messages.{
  database, unique_after, unique, sorted_unique, same_list, check_recipients,
}

abbrev Below : Str → Str → Type 0
Below x y = (str_le x y ≡ true) × (x ≢ y)

-- Each id comes strictly before all that follow it.
abbrev pub Increasing : List Str → Type 0
Increasing [] = Unit
Increasing (x ∷ xs) = All (Below x) xs × Increasing xs

abbrev AtLeast : Str → List Str → Type 0
AtLeast x xs = All (λ y. str_le x y ≡ true) xs

-- Sorted, repetitions allowed.
abbrev Sorted : List Str → Type 0
Sorted [] = Unit
Sorted (x ∷ xs) = AtLeast x xs × Sorted xs

AtLeast-trans : (x y : Str) (ys : List Str) → str_le x y ≡ true → AtLeast y ys → AtLeast x ys
AtLeast-trans x y [] h k = tt
AtLeast-trans x y (z ∷ zs) h (k, ks) = (str_le_trans x y z h k, AtLeast-trans x y zs h ks)

insert_sorted-AtLeast :
    (x s : Str) (ts : List Str) → str_le x s ≡ true → AtLeast x ts → AtLeast x (insert_sorted s ts)
unfolding insert_sorted
insert_sorted-AtLeast x s [] h k = (h, tt)
insert_sorted-AtLeast x s (t ∷ ts) h (k, ks) = elim (Bool-cases (str_le s t)) [
  | inl e ↦ rw (e, insert_sorted) (h, (k, ks))
  | inr e ↦ rw (e, insert_sorted) (k, insert_sorted-AtLeast x s ts h ks)
]

insert_sorted-Sorted : (s : Str) (ts : List Str) → Sorted ts → Sorted (insert_sorted s ts)
unfolding insert_sorted
insert_sorted-Sorted s [] h = (tt, tt)
insert_sorted-Sorted s (t ∷ ts) (h, k) = elim (Bool-cases (str_le s t)) [
  | inl e ↦ rw (e, insert_sorted) ((e, AtLeast-trans s t ts e h), (h, k))
  | inr e ↦
      rw (e, insert_sorted)
        (
          insert_sorted-AtLeast t s ts (ground (arith, str_le-total s t)) h,
          insert_sorted-Sorted s ts k,
        )
]

sort_strings-Sorted : (xs : List Str) → Sorted (sort_strings xs)
unfolding sort_strings
sort_strings-Sorted [] = tt
sort_strings-Sorted (x ∷ xs) = insert_sorted-Sorted x (sort_strings xs) (sort_strings-Sorted xs)

contains-insert_sorted :
    (s : Str) (ts : List Str) (k : Str)
    → contains (insert_sorted s ts) k ≡ (s == k || contains ts k)
unfolding insert_sorted
contains-insert_sorted s [] k = refl
contains-insert_sorted s (t ∷ ts) k = ground (arith, contains-insert_sorted s ts k)

contains-sort_strings : (xs : List Str) (k : Str) → contains (sort_strings xs) k ≡ contains xs k
unfolding sort_strings
contains-sort_strings [] k = refl
contains-sort_strings (x ∷ xs) k =
    ground (arith, contains-insert_sorted x (sort_strings xs) k, contains-sort_strings xs k)

All-Below :
    (last id : Str) (ys : List Str)
    → str_le last id ≡ true
    → id ≢ last
    → All (Below id) ys
    → All (Below last) ys
All-Below last id [] h n k = tt
All-Below last id (y ∷ ys) h n ((l, m), k) = (
  (str_le_trans last id y h l, λ e. n (str_le-antisym id last (ground arith) h)),
  All-Below last id ys h n k,
)

unique_after-Increasing :
    (last : Str) (ids : List Str)
    → AtLeast last ids
    → Sorted ids
    → All (Below last) (unique_after last ids) × Increasing (unique_after last ids)
unfolding unique_after
unique_after-Increasing last [] h k = (tt, tt)
unique_after-Increasing last (id ∷ ids) (h, hs) (k, ks) =
    let (a, i) = unique_after-Increasing id ids k ks in
    elim (Str-discrete id last) [
      | yes e ↦ ground arith
      | no n ↦ ground (arith, All-Below last id (unique_after id ids) h n a)
    ]

contains-unique_after :
    (last : Str) (ids : List Str) (k : Str)
    → (last == k || contains (unique_after last ids) k) ≡ (last == k || contains ids k)
unfolding unique_after
contains-unique_after last [] k = refl
contains-unique_after last (id ∷ ids) k = ground (arith, contains-unique_after id ids k)

-- The sorted recipients are strictly increasing, so that none is named twice, and they are the ids that
-- were given.
pub sorted_unique_lem :
    (ids : List Str)
    → Increasing (sorted_unique ids) × ((k : Str) → contains (sorted_unique ids) k ≡ contains ids k)
unfolding sorted_unique unique
sorted_unique_lem ids = go (sort_strings ids) (sort_strings-Sorted ids) (contains-sort_strings ids)
  where
    go :
        (xs : List Str)
        → Sorted xs
        → ((k : Str) → contains xs k ≡ contains ids k)
        → Increasing (unique xs) × ((k : Str) → contains (unique xs) k ≡ contains ids k)
    go [] h f = (tt, f)
    go (x ∷ xs) (h, k) f =
        (unique_after-Increasing x xs h k, λ j. contains-unique_after x xs j ∙ f j)

insert_sorted-first : (x : Str) (xs : List Str) → All (Below x) xs → insert_sorted x xs ≡ x ∷ xs
unfolding insert_sorted
insert_sorted-first x [] h = refl
insert_sorted-first x (y ∷ ys) ((h, n), k) = ground arith

sort_strings-Increasing : (xs : List Str) → Increasing xs → sort_strings xs ≡ xs
unfolding sort_strings
sort_strings-Increasing [] h = refl
sort_strings-Increasing (x ∷ xs) (h, k) =
    ap (insert_sorted x) (sort_strings-Increasing xs k) ∙ insert_sorted-first x xs h

unique_after-Below :
    (last : Str) (xs : List Str) → All (Below last) xs → Increasing xs → unique_after last xs ≡ xs
unfolding unique_after
unique_after-Below last [] h k = refl
unique_after-Below last (x ∷ xs) ((a, n), h) (k, ks) = ground (arith, unique_after-Below x xs k ks)

unique-Increasing : (xs : List Str) → Increasing xs → unique xs ≡ xs
unfolding unique
unique-Increasing [] h = refl
unique-Increasing (x ∷ xs) (h, k) = ap (◌∷◌ x) (unique_after-Below x xs h k)

pub sorted_unique-Increasing : (xs : List Str) → Increasing xs → sorted_unique xs ≡ xs
unfolding sorted_unique
sorted_unique-Increasing xs h = ap unique (sort_strings-Increasing xs h) ∙ unique-Increasing xs h

same_list_refl : (xs : List Str) → same_list xs xs ≡ true
same_list_refl [] = refl
same_list_refl (x ∷ xs) = ground (arith, same_list_refl xs)

same_list-eq : (xs ys : List Str) → same_list xs ys ≡ true → xs ≡ ys
same_list-eq [] [] h = refl
same_list-eq [] (y ∷ ys) h = ground arith
same_list-eq (x ∷ xs) [] h = ground arith
same_list-eq (x ∷ xs) (y ∷ ys) h = ground (arith, same_list-eq xs ys)

-- A stored snapshot of recipients is accepted exactly when it names somebody, has only user ids, and
-- is strictly increasing.
pub check_recipients_cases :
    (c : Codecs) (ids : List Str)
    → let sound = not (length ids == 0) && all (λ id. valid_id c id b'U') ids in
      ((check_recipients c ids ≡ ok ids) × (sound ≡ true) × Increasing ids)
      ⊎ ((check_recipients c ids ≡ err database) × ((sound ≡ false) ⊎ ¬ Increasing ids))
unfolding check_recipients
check_recipients_cases c ids = elim (Bool-cases (same_list ids (sorted_unique ids))) [
  | inl e ↦
      let f = same_list-eq ids (sorted_unique ids) e in
      let up = subst Increasing (sym f) (sorted_unique_lem ids).0 in
      let l = ap length f in
      elim (Bool-cases (not (length ids == 0) && all (λ id. valid_id c id b'U') ids)) [
        | inl g ↦ inl (ground arith, g, up)
        | inr g ↦ inr (ground arith, inl g)
      ]
  | inr e ↦ inr (
    ground arith,
    inr (λ up.
        ground (arith, ap (same_list ids) (sorted_unique-Increasing ids up), same_list_refl ids)),
  )
]
