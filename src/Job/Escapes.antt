-- ===== src/Job/Escapes.antt =====
-- validUnicodeEscapes in internal/job/task.go, with what is left of the bytes in place of the index.
pub mod Grammar
use fable.Prelude.{
  ℕ, ◌+◌, ◌-◌, ◌*◌, ◌≤◌, ◌<◌, ◌≡◌, ◌≢◌, refl, ◌⊎◌, inl, inr, Str, Bool, true, false, not, ◌&&◌,
  ◌||◌, Option, none, some, [], ◌∷◌, ◌==◌, in_range, nat_eq, if◌then◌else◌, arith, Option-cases,
  Bool-cases,
}

abbrev pub backslash : ℕ
backslash = 92

-- 'u'
abbrev pub letter_u : ℕ
letter_u = 117

unfoldable hex_digit : ℕ → Option ℕ
hex_digit c =
    if in_range 48 57 c
    then some (c - 48)
    else if in_range 65 70 c
    then some (c - 55)
    else if in_range 97 102 c
    then some (c - 87)
    else none

-- strconv.ParseUint of four bytes, to base 16.
unfoldable pub parse_hex : ℕ → ℕ → ℕ → ℕ → Option ℕ
unfolding hex_digit
parse_hex a b c d = elim (hex_digit a) [
  | none ↦ none
  | some a ↦ elim (hex_digit b) [
    | none ↦ none
    | some b ↦ elim (hex_digit c) [
      | none ↦ none
      | some c ↦ elim (hex_digit d) [
        | none ↦ none
        | some d ↦ some (((a * 16 + b) * 16 + c) * 16 + d)
      ]
    ]
  ]
]

unfoldable pub is_high : ℕ → Bool
is_high n = in_range 55296 56319 n

unfoldable pub is_low : ℕ → Bool
is_low n = in_range 56320 57343 n

unfoldable mutual
  pub valid_unicode_escapes : Str → Bool
  valid_unicode_escapes [] = true
  valid_unicode_escapes (c ∷ rest) =
      if c == backslash then after_backslash rest else valid_unicode_escapes rest

  pub after_backslash : Str → Bool
  after_backslash [] = false
  after_backslash (c ∷ rest) = if c == letter_u then after_u rest else valid_unicode_escapes rest

  pub after_u : Str → Bool
  after_u (a ∷ b ∷ c ∷ d ∷ rest) = elim (parse_hex a b c d) [
    | none ↦ false
    | some n ↦
        if is_low n
        then false
        else if is_high n
        then after_high rest
        else valid_unicode_escapes rest
  ]
  after_u _ = false

  pub after_high : Str → Bool
  after_high (s ∷ u ∷ a ∷ b ∷ c ∷ d ∷ rest) =
      let rest_valid = valid_unicode_escapes rest in
      if s == backslash && u == letter_u
      then elim (parse_hex a b c d) [ none ↦ false | some n ↦ is_low n && rest_valid ]
      else false
  after_high _ = false
