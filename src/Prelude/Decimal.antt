-- ===== src/Prelude/Decimal.antt =====
-- strconv on numbers that are not negative: `Itoa` and the canonical digits that it prints.
use Prim.Native.Nat.{ℕ, zero, suc, ◌+◌, ◌*◌, ◌/◌, ◌%◌, ◌-◌, ◌<◌}
use mathlib.Core.Path.{◌≡◌, ap}
use native.Mathlib.Omega.{arith}
use native.Mathlib.Decide.{ℕ_discrete}
use mathlib.Core.List.{[], ◌∷◌}
use mathlib.Core.Option.{Option, none, some}
use fable.Prelude.Compare.{◌==◌, nat_eq, if◌then◌else◌}
use fable.Prelude.Text.{Str, str_eq, in_range}

-- The fuel bounds the number of digits.
unfoldable pub digits_onto : ℕ → ℕ → Str → Str
digits_onto zero n out = out
digits_onto (suc f) n out =
    let rest = digits_onto f (n / 10) ((48 + n % 10) ∷ out) in
    if n / 10 == 0 then (48 + n % 10) ∷ out else rest

unfoldable pub itoa : ℕ → Str
unfolding digits_onto
itoa n = digits_onto (n + 1) n []

unfoldable pub digits_value : ℕ → Str → Option ℕ
digits_value acc [] = some acc
digits_value acc (c ∷ s) =
    let rest = digits_value (10 * acc + (c - 48)) s in if in_range 48 57 c then rest else none

-- A text that is the canonical decimal of a number. (ParseInt and Atoi take signs and leading zeros
-- too, but their callers compare the text with the one that the number prints to.)
unfoldable pub canonical_decimal : Str → Option ℕ
unfolding digits_value itoa
canonical_decimal s = elim (digits_value 0 s) [
  | none ↦ none
  | some n ↦ if itoa n == s then some n else none
]

-- Atoi of a number that is not negative, an optional plus sign in front; none where it fails or
-- the text has a minus sign.
unfoldable pub atoi : Str → Option ℕ
unfolding digits_value
atoi [] = none
atoi (c ∷ []) = if in_range 48 57 c then some (c - 48) else none
atoi (c ∷ d ∷ s) = if c == 43 then digits_value 0 (d ∷ s) else digits_value 0 (c ∷ d ∷ s)

digits_value-digits_onto :
    (f n : ℕ) (out : Str) → n < f → digits_value 0 (digits_onto f n out) ≡ digits_value n out
unfolding digits_value digits_onto
digits_value-digits_onto zero n out h = absurd (omega arith)
digits_value-digits_onto (suc f) n out h = elim (ℕ_discrete (n / 10) 0) [
  | yes z ↦
      let digit : 10 * 0 + (48 + n % 10 - 48) ≡ n = omega arith in
      rw (z, digits_onto) (ground (arith, ap (λ k. digits_value k out) digit))
  | no k ↦
      let digit : 10 * (n / 10) + (48 + n % 10 - 48) ≡ n = omega arith in
      let ih = digits_value-digits_onto f (n / 10) ((48 + n % 10) ∷ out) (omega arith) in
      ground (arith, ih, ap (λ k. digits_value k out) digit)
]

-- The text that a number prints to is the canonical decimal of that number.
pub canonical_decimal-itoa : (n : ℕ) → canonical_decimal (itoa n) ≡ some n
unfolding canonical_decimal itoa
canonical_decimal-itoa n =
    let back : digits_value 0 (itoa n) ≡ some n =
      digits_value-digits_onto (n + 1) n [] (omega arith) in
    ground (arith, back)
