-- ===== src/Prelude/Text.antt =====
-- A Go string is a sequence of bytes.
use Prim.Native.Char.{code}
use Prim.Native.String.{String}
use Prim.Native.Nat.{ℕ}
use mathlib.Core.Bool.{Bool, true, false, ◌&&◌}
use mathlib.Core.List.{List, [], ◌∷◌, ◌++◌}
use mathlib.Core.Path.{◌≡◌, refl, ap, ◌∙◌}
use native.Mathlib.Omega.{arith}
use native.Mathlib.Decide.{ℕ_discrete}
use fable.Prelude.Lists.{length, drop}
use fable.Prelude.Compare.{Eq, ◌==◌, nat_eq, leb}

abbrev pub Str : Type 0
Str = List ℕ

-- The bytes of an ASCII literal.
abbrev pub text : String → Str
text String.[] = []
text (String.◌∷◌ c s) = code c ∷ text s

unfoldable pub Str-discrete : Discrete Str
unfolding ℕ_discrete
Str-discrete = hlevel ℕ_discrete

instance abbrev pub str_eq : Eq Str
str_eq = record { dec = Str-discrete }

-- strings.HasPrefix.
unfoldable pub has_prefix : Str → Str → Bool
has_prefix s [] = true
has_prefix [] (p ∷ ps) = false
has_prefix (c ∷ s) (p ∷ ps) = c == p && has_prefix s ps

abbrev pub in_range : ℕ → ℕ → ℕ → Bool
in_range lo hi c = leb lo c && leb c hi

pub has_prefix-append : (base s p : Str) → has_prefix (base ++ s) (base ++ p) ≡ has_prefix s p
unfolding has_prefix
has_prefix-append [] s p = refl
has_prefix-append (b ∷ base) s p = ground (arith, has_prefix-append base s p)

pub has_prefix-append_self : (p s : Str) → has_prefix (p ++ s) p ≡ true
unfolding has_prefix
has_prefix-append_self [] s = refl
has_prefix-append_self (b ∷ p) s = ground (arith, has_prefix-append_self p s)

pub has_prefix-drop : (s p : Str) → has_prefix s p ≡ true → s ≡ p ++ drop (length p) s
unfolding has_prefix
has_prefix-drop s [] h = refl
has_prefix-drop [] (c ∷ p) h = absurd (ground arith)
has_prefix-drop (b ∷ s) (c ∷ p) h =
    let same : b ≡ c = ground (arith, h) in
    let rest : s ≡ p ++ drop (length p) s = has_prefix-drop s p (ground (arith, h)) in
    ap (λ k. k ∷ s) same ∙ ap (◌∷◌ c) rest
