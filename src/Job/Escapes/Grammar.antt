-- ===== src/Job/Escapes/Grammar.antt =====
-- Which bytes validUnicodeEscapes accepts, as a grammar.
use fable.Prelude.{
  ℕ, ◌≡◌, ◌≢◌, refl, sym, subst, ◌↔◌, inl, inr, Str, true, false, some, [], ◌∷◌, ◌==◌, nat_eq,
  arith, Option-cases, Bool-cases,
}
use fable.Job.Escapes.{
  backslash, letter_u, parse_hex, is_high, is_low, valid_unicode_escapes, after_backslash, after_u,
  after_high,
}

-- Bytes in which a backslash stands before another byte, `\u` before four hexadecimal digits, and a
-- surrogate only as the first of a pair of escapes, high and then low.
pub data IsEscaped : Str → Type 0 where
  done : IsEscaped []
  plain : {c : ℕ} {rest : Str} → c ≢ backslash → IsEscaped rest → IsEscaped (c ∷ rest)
  simple : {c : ℕ} {rest : Str} → c ≢ letter_u → IsEscaped rest → IsEscaped (backslash ∷ c ∷ rest)
  unit :
      {a b c d n : ℕ} {rest : Str}
      → parse_hex a b c d ≡ some n
      → is_low n ≡ false
      → is_high n ≡ false
      → IsEscaped rest
      → IsEscaped (backslash ∷ letter_u ∷ a ∷ b ∷ c ∷ d ∷ rest)
  pair :
      {a b c d n a' b' c' d' n' : ℕ} {rest : Str}
      → parse_hex a b c d ≡ some n
      → is_high n ≡ true
      → parse_hex a' b' c' d' ≡ some n'
      → is_low n' ≡ true
      → IsEscaped rest
      → IsEscaped
          (backslash ∷ letter_u ∷ a ∷ b ∷ c ∷ d ∷ backslash ∷ letter_u ∷ a' ∷ b' ∷ c' ∷ d' ∷ rest)

is_equal : (x y : ℕ) → (x == y) ≡ true → x ≡ y
is_equal x y h = ground arith

is_other : (x y : ℕ) → (x == y) ≡ false → x ≢ y
is_other x y h e = ground arith

high_low : (n : ℕ) → is_high n ≡ true → is_low n ≡ false
unfolding is_high is_low
high_low n h = ground arith

mutual
  unfolding valid_unicode_escapes after_backslash after_u after_high

  valid-IsEscaped : (s : Str) → valid_unicode_escapes s ≡ true → IsEscaped s
  valid-IsEscaped [] h = done
  valid-IsEscaped (c ∷ rest) h = elim (Bool-cases (c == backslash)) [
    | inl e ↦
        subst (λ x. IsEscaped (x ∷ rest)) (sym (is_equal c backslash e))
          (after_backslash-IsEscaped rest (ground arith))
    | inr e ↦ plain (is_other c backslash e) (valid-IsEscaped rest (ground arith))
  ]

  after_backslash-IsEscaped : (s : Str) → after_backslash s ≡ true → IsEscaped (backslash ∷ s)
  after_backslash-IsEscaped [] h = absurd (ground arith)
  after_backslash-IsEscaped (c ∷ rest) h = elim (Bool-cases (c == letter_u)) [
    | inl e ↦
        subst (λ x. IsEscaped (backslash ∷ x ∷ rest)) (sym (is_equal c letter_u e))
          (after_u-IsEscaped rest (ground arith))
    | inr e ↦ simple (is_other c letter_u e) (valid-IsEscaped rest (ground arith))
  ]

  after_u-IsEscaped : (s : Str) → after_u s ≡ true → IsEscaped (backslash ∷ letter_u ∷ s)
  after_u-IsEscaped [] h = absurd (ground arith)
  after_u-IsEscaped (a ∷ []) h = absurd (ground arith)
  after_u-IsEscaped (a ∷ b ∷ []) h = absurd (ground arith)
  after_u-IsEscaped (a ∷ b ∷ c ∷ []) h = absurd (ground arith)
  after_u-IsEscaped (a ∷ b ∷ c ∷ d ∷ rest) h = elim (Option-cases (parse_hex a b c d)) [
    | inl e ↦ absurd (ground arith)
    | inr (n, e) ↦ elim (Bool-cases (is_high n)) [
      | inl high ↦ after_high-IsEscaped a b c d n rest e high (ground (arith, high_low n))
      | inr small ↦ unit e (ground arith) small (valid-IsEscaped rest (ground arith))
    ]
  ]

  after_high-IsEscaped :
      (a b c d n : ℕ) (s : Str)
      → parse_hex a b c d ≡ some n
      → is_high n ≡ true
      → after_high s ≡ true
      → IsEscaped (backslash ∷ letter_u ∷ a ∷ b ∷ c ∷ d ∷ s)
  after_high-IsEscaped a b c d n (s ∷ u ∷ a' ∷ b' ∷ c' ∷ d' ∷ rest) e high h =
      elim (Option-cases (parse_hex a' b' c' d')) [
        | inl f ↦ absurd (ground arith)
        | inr (n', f) ↦
            let s_is : s ≡ backslash = is_equal s backslash (ground arith) in
            let u_is : u ≡ letter_u = is_equal u letter_u (ground arith) in
            subst
              (λ x.
                IsEscaped (backslash ∷ letter_u ∷ a ∷ b ∷ c ∷ d ∷ x ∷ u ∷ a' ∷ b' ∷ c' ∷ d' ∷ rest))
              (sym s_is)
              (subst
                (λ x.
                  IsEscaped (
                    backslash ∷ letter_u ∷ a ∷ b ∷ c ∷ d ∷ backslash ∷ x ∷ a' ∷ b' ∷ c' ∷ d'
                    ∷ rest))
                (sym u_is) (pair e high f (ground arith) (valid-IsEscaped rest (ground arith))))
      ]
  after_high-IsEscaped a b c d n _ e high h = absurd (ground arith)

IsEscaped-valid : {s : Str} → IsEscaped s → valid_unicode_escapes s ≡ true
unfolding valid_unicode_escapes after_backslash after_u after_high
IsEscaped-valid done = refl
IsEscaped-valid (plain n e) = ground (arith, IsEscaped-valid e)
IsEscaped-valid (simple n e) = ground (arith, IsEscaped-valid e)
IsEscaped-valid (unit p low high e) = ground (arith, IsEscaped-valid e)
IsEscaped-valid (pair {n = n} p high q low e) = ground (arith, IsEscaped-valid e, high_low n high)

-- The scanner accepts exactly what the grammar generates.
pub valid_unicode_escapes-IsEscaped : (s : Str) → (valid_unicode_escapes s ≡ true) ↔ IsEscaped s
valid_unicode_escapes-IsEscaped s = (valid-IsEscaped s, λ e. IsEscaped-valid e)
