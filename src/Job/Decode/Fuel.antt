-- ===== src/Job/Decode/Fuel.antt =====
-- The recursion of checkJSON ends: every call of it takes a token, and a text has only so many.
use fable.Prelude.{
  ℕ, zero, suc, ◌+◌, ◌*◌, ◌≤◌, ◌<◌, ◌≡◌, refl, ◌⊎◌, inl, inr, Str, Bool, true, false, not, ◌||◌,
  List, [], ◌∷◌, ◌==◌, ltb, contains, str_eq, nat_eq, arith, length, if◌then◌else◌, Result-cases,
  Result, ok, err, ◌>>=◌,
}
use fable.Job.Decode.{
  open_object, open_array, Token, delim, string_token, other_token, Fault, refused, Json,
  take_token, close_value, check_json, check_members, check_elements,
}

module _ (J : Json) where
  open J use {Decoder, token, left, more, new_decoder}

  -- A check that ended: it took something, or refused the text.
  abbrev pub Ends : Decoder → Result Fault Decoder → Type 0
  Ends d r = ((d' : Decoder) × (r ≡ ok d') × (left d' < left d)) ⊎ (r ≡ err refused)

  take_token_cases :
      (d : Decoder)
      → ((t : Token) × (d' : Decoder) × (take_token J d ≡ ok (t, d')) × (left d' < left d))
        ⊎ (take_token J d ≡ err refused)
  unfolding take_token
  take_token_cases d = elim (Result-cases (token d)) [
    | inl ((t, d'), h) ↦ inl (t, d', ground (arith, h), J.left-token d d' t h)
    | inr (e, h) ↦ inr (ground (arith, h))
  ]

  close_value-Ends : (d : Decoder) → Ends d (close_value J d)
  unfolding close_value
  close_value-Ends d = elim (take_token_cases d) [
    | inl (t, d', h, l) ↦ inl (d', ground (arith, h), l)
    | inr h ↦ inr (ground (arith, h))
  ]

  Ends-if :
      (b : Bool) (d : Decoder) (x y : Result Fault Decoder)
      → Ends d x
      → Ends d y
      → Ends d (if b then x else y)
  Ends-if true d x y p q = p
  Ends-if false d x y p q = q

  -- What ends behind a smaller decoder ends.
  Ends-then : (d d₁ : Decoder) (r : Result Fault Decoder) → left d₁ < left d → Ends d₁ r → Ends d r
  Ends-then d d₁ r l (inl (d', h, k)) = inl (d', h, omega (arith, l, k))
  Ends-then d d₁ r l (inr h) = inr h

  Ends-bind :
      (d : Decoder) (r : Result Fault Decoder) (f : Decoder → Result Fault Decoder)
      → Ends d r
      → ((d₁ : Decoder) → left d₁ < left d → Ends d₁ (f d₁))
      → Ends d (r >>= f)
  Ends-bind d r f (inl (d₁, h, l)) go = rw h (Ends-then d d₁ (f d₁) l (go d₁ l))
  Ends-bind d r f (inr h) go = rw h (inr refl)

  Ends-token :
      (d : Decoder) (f : Token × Decoder → Result Fault Decoder)
      → ((t : Token) (d₁ : Decoder) → left d₁ < left d → Ends d (f (t, d₁)))
      → Ends d (take_token J d >>= f)
  Ends-token d f go = elim (take_token_cases d) [
    | inl (t, d₁, h, l) ↦ rw h (go t d₁ l)
    | inr h ↦ rw h (inr refl)
  ]

  -- What follows the first token of a value.
  abbrev after_token : ℕ → ℕ → Token × Decoder → Result Fault Decoder
  after_token fuel depth r = elim r.0 [
    | delim c ↦
        if c == open_object
        then check_members J fuel depth [] r.1
        else if c == open_array
        then check_elements J fuel depth r.1
        else err refused
    | _ ↦ ok r.1
  ]

  -- What follows the first token of a member.
  abbrev member : ℕ → ℕ → List Str → Token × Decoder → Result Fault Decoder
  member fuel depth seen r = elim r.0 [
    | string_token key ↦
        if contains seen key || not (key == J.to_lower key)
        then err refused
        else (check_json J fuel (depth + 1) r.1 >>= λ d'.
            check_members J fuel depth (key ∷ seen) d')
    | _ ↦ err refused
  ]

  after_token-Ends :
      (fuel depth : ℕ) (d : Decoder)
      → ((d₁ : Decoder) → left d₁ < left d → Ends d₁ (check_members J fuel depth [] d₁))
      → ((d₁ : Decoder) → left d₁ < left d → Ends d₁ (check_elements J fuel depth d₁))
      → (t : Token) (d₁ : Decoder) → left d₁ < left d
      → Ends d (after_token fuel depth (t, d₁))
  after_token-Ends fuel depth d members elements (delim c) d₁ l =
      Ends-if (c == open_object) d (check_members J fuel depth [] d₁)
        (if c == open_array then check_elements J fuel depth d₁ else err refused)
        (Ends-then d d₁ (check_members J fuel depth [] d₁) l (members d₁ l))
        (Ends-if (c == open_array) d (check_elements J fuel depth d₁) (err refused)
          (Ends-then d d₁ (check_elements J fuel depth d₁) l (elements d₁ l)) (inr refl))
  after_token-Ends fuel depth d members elements (string_token s) d₁ l = inl (d₁, refl, l)
  after_token-Ends fuel depth d members elements other_token d₁ l = inl (d₁, refl, l)

  member-Ends :
      (fuel depth : ℕ) (seen : List Str) (d : Decoder)
      → ((d₁ : Decoder) → left d₁ < left d → Ends d₁ (check_json J fuel (depth + 1) d₁))
      → ((key : Str) (d₁ : Decoder)
          → left d₁ < left d
          → Ends d₁ (check_members J fuel depth (key ∷ seen) d₁))
      → (t : Token) (d₁ : Decoder) → left d₁ < left d
      → Ends d (member fuel depth seen (t, d₁))
  member-Ends fuel depth seen d value members (delim c) d₁ l = inr refl
  member-Ends fuel depth seen d value members other_token d₁ l = inr refl
  member-Ends fuel depth seen d value members (string_token key) d₁ l =
      let rest : Decoder → Result Fault Decoder = check_members J fuel depth (key ∷ seen) in
      let whole = check_json J fuel (depth + 1) d₁ >>= rest in
      Ends-if (contains seen key || not (key == J.to_lower key)) d (err refused) whole (inr refl) (
        Ends-then d d₁ whole l (
          Ends-bind d₁ (check_json J fuel (depth + 1) d₁) rest (value d₁ l)
            (λ d₂ k. members key d₂ (omega (arith, l, k)))))

  mutual
    unfolding check_json check_members check_elements

    check_json-Ends :
        (fuel depth : ℕ) (d : Decoder) → 2 * left d + 1 ≤ fuel → Ends d (check_json J fuel depth d)
    check_json-Ends zero depth d h = absurd (omega arith)
    check_json-Ends (suc fuel) depth d h =
        Ends-if (ltb 16 depth) d (err refused) (take_token J d >>= after_token fuel depth)
          (inr refl)
          (Ends-token d (after_token fuel depth) (
            after_token-Ends fuel depth d
              (λ d₁ l. check_members-Ends fuel depth [] d₁ (omega (arith, h, l)))
              (λ d₁ l. check_elements-Ends fuel depth d₁ (omega (arith, h, l)))))

    check_members-Ends :
        (fuel depth : ℕ) (seen : List Str) (d : Decoder)
        → 2 * left d + 1 ≤ fuel
        → Ends d (check_members J fuel depth seen d)
    check_members-Ends zero depth seen d h = absurd (omega arith)
    check_members-Ends (suc fuel) depth seen d h =
        Ends-if (not (more d)) d (close_value J d) (take_token J d >>= member fuel depth seen)
          (close_value-Ends d)
          (Ends-token d (member fuel depth seen) (
            member-Ends fuel depth seen d
              (λ d₁ l. check_json-Ends fuel (depth + 1) d₁ (omega (arith, h, l)))
              (λ key d₁ l. check_members-Ends fuel depth (key ∷ seen) d₁ (omega (arith, h, l)))))

    check_elements-Ends :
        (fuel depth : ℕ) (d : Decoder)
        → 2 * left d + 2 ≤ fuel
        → Ends d (check_elements J fuel depth d)
    check_elements-Ends zero depth d h = absurd (omega arith)
    check_elements-Ends (suc fuel) depth d h =
        Ends-if (not (more d)) d (close_value J d)
          (check_json J fuel (depth + 1) d >>= λ d'. check_elements J fuel depth d')
          (close_value-Ends d)
          (Ends-bind d (check_json J fuel (depth + 1) d) (λ d'. check_elements J fuel depth d')
            (check_json-Ends fuel (depth + 1) d (omega (arith, h)))
            (λ d₁ l. check_elements-Ends fuel depth d₁ (omega (arith, h, l))))

  -- The fuel that DecodeTask's check is given, twice the length and one, is enough: the check of any
  -- text accepts a value and stands behind it, or refuses the text.
  pub check_json-new_decoder :
      (raw : Str) → Ends (new_decoder raw) (check_json J (2 * length raw + 1) 0 (new_decoder raw))
  check_json-new_decoder raw =
      check_json-Ends (2 * length raw + 1) 0 (new_decoder raw)
        (omega (arith, J.left-new_decoder raw))
