-- ===== src/Prelude/Sort.antt =====
-- sort.Strings: byte strings in lexicographic order. (Equal strings cannot be told apart, so any
-- sort of them gives this list.)
use mathlib.Core.Path.{◌≡◌, refl}
use mathlib.Core.Logic.{◌⊎◌, inl, inr}
use native.Mathlib.Omega.{arith}
use mathlib.Core.Bool.{Bool, true, false, ◌||◌, ◌&&◌}
use mathlib.Core.List.{List, [], ◌∷◌}
use fable.Prelude.Compare.{◌==◌, nat_eq, ltb, if◌then◌else◌}
use fable.Prelude.Text.{Str}

-- a <= b
unfoldable pub str_le : Str → Str → Bool
str_le [] b = true
str_le (x ∷ a) [] = false
str_le (x ∷ a) (y ∷ b) = ltb x y || (x == y && str_le a b)

unfoldable pub insert_sorted : Str → List Str → List Str
insert_sorted s [] = s ∷ []
insert_sorted s (t ∷ ts) = if str_le s t then s ∷ t ∷ ts else t ∷ insert_sorted s ts

unfoldable pub sort_strings : List Str → List Str
unfolding insert_sorted str_le
sort_strings [] = []
sort_strings (s ∷ ts) = insert_sorted s (sort_strings ts)

-- Go's order of strings is total.
pub str_le-total : (a b : Str) → (str_le a b ≡ true) ⊎ (str_le b a ≡ true)
unfolding str_le
str_le-total [] b = inl refl
str_le-total (x ∷ a) [] = inr refl
str_le-total (x ∷ a) (y ∷ b) = elim (str_le-total a b) [
  | inl e ↦ ground arith
  | inr e ↦ ground arith
]

pub str_le-antisym : (a b : Str) → str_le a b ≡ true → str_le b a ≡ true → a ≡ b
unfolding str_le
str_le-antisym [] [] h k = refl
str_le-antisym [] (y ∷ b) h k = ground arith
str_le-antisym (x ∷ a) [] h k = ground arith
str_le-antisym (x ∷ a) (y ∷ b) h k = ground (arith, str_le-antisym a b)

pub str_le_trans : (a b d : Str) → str_le a b ≡ true → str_le b d ≡ true → str_le a d ≡ true
unfolding str_le
str_le_trans [] b d h k = refl
str_le_trans (x ∷ a) [] d h k = ground arith
str_le_trans (x ∷ a) (y ∷ b) [] h k = ground arith
str_le_trans (x ∷ a) (y ∷ b) (z ∷ d) h k = ground (arith, str_le_trans a b d)
