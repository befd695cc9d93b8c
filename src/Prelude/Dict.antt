-- ===== src/Prelude/Dict.antt =====
-- A Go map with string keys, as an association list; `update` is a write through a pointer.
use Prim.Native.Nat.{ℕ}
use mathlib.Core.Path.{◌≡◌, refl}
use mathlib.Core.List.{List, [], ◌∷◌}
use mathlib.Core.Option.{Option, none, some}
use native.Mathlib.Omega.{arith}
use fable.Prelude.Compare.{◌==◌, nat_eq, if◌then◌else◌}
use fable.Prelude.Text.{Str, str_eq}

module _ {ℓ} {V : Type ℓ} where
  unfoldable pub lookup : Str → List (Str × V) → Option V
  lookup wanted ((key, value) ∷ entries) =
      if key == wanted then some value else lookup wanted entries
  lookup wanted [] = none

  unfoldable pub insert : Str → V → List (Str × V) → List (Str × V)
  insert key value ((old, before) ∷ entries) =
      let kept = (old, before) ∷ insert key value entries in
      if old == key then (key, value) ∷ entries else kept
  insert key value [] = (key, value) ∷ []

  -- Go's `delete`: every entry under the key goes, of which there is at most one.
  unfoldable pub erase : Str → List (Str × V) → List (Str × V)
  erase k [] = []
  erase k ((j, v) ∷ m) = let rest = erase k m in if j == k then rest else (j, v) ∷ rest

  pub lookup-insert :
      (key wanted : Str) (value : V) (entries : List (Str × V))
      → lookup wanted (insert key value entries)
        ≡ (if key == wanted then some value else lookup wanted entries)
  unfolding lookup insert
  lookup-insert key wanted value ((old, before) ∷ entries) =
      ground (arith, lookup-insert key wanted value entries)
  lookup-insert key wanted value [] = refl

  pub lookup-erase :
      (k j : Str) (m : List (Str × V))
      → lookup j (erase k m) ≡ (if k == j then none else lookup j m)
  unfolding lookup erase
  lookup-erase k j [] = ground arith
  lookup-erase k j ((i, w) ∷ m) = ground (arith, lookup-erase k j m)

module _ {ℓ} {A : Type ℓ} where
  abbrev pub update : (ℕ → A) → ℕ → A → ℕ → A
  update h p a q = if p == q then a else h q
