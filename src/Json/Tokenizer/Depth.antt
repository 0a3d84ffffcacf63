-- ===== src/Json/Tokenizer/Depth.antt =====
-- How deep the calls of Tokenizer::write_element to itself go (Json.Tokenizer.cpp).
use webel.Prelude.{
  none, some, take, arith, sym, Outcome-cases, ◌∙◌, subst, fatal, returns, get_elem?, ◌⊎◌, ℕ, suc,
  ◌-◌, ◌%◌, ◌≡◌, refl, true, inl, inr, some, Bool-cases, Option-cases, ◌==◌, [],
}
use webel.Basic.Numbers.{base_10, within}
use webel.Basic.Numbers.Streams.{NumberStream}
use webel.Json.Tokens.{spelling, LongDouble, ws, quote}
use webel.Json.Tokenizer.State.{
  write_hex_digit, Emitting, character_code_state, error_state, literal_state,
  utf16_surrogate_state, escape_state, State, start_state, token_state, string_state, number_state,
  Tokenizer,
}
use webel.Json.Tokenizer.Texts.{
  end_character_code, in_literal, in_escape, in_utf16_surrogate, in_character_code, escaped, symbol,
  find_literal, in_start, in_start_default,
}
use webel.Json.Tokenizer.Numbers.{in_number}
use webel.Json.Tokenizer.Digits.{counting, write_dec_digit-counting}
use webel.Json.Tokenizer.Machine.{dispatch, write_within}

-- The tokenizer in a state.
abbrev pub at : {F : Type 0} → State → Tokenizer F → Tokenizer F
at state t = record t { state = state }

pub error_depth :
    {F : Type 0} (long_double : LongDouble F) (c : ℕ) (spent : Tokenizer F → ℕ → Emitting F) (n : ℕ)
    (t : Tokenizer F)
    → write_within long_double spent (suc n) (at error_state t) c ≡ fatal
unfolding write_within dispatch
error_depth long_double c spent n t = refl

-- The value that stands where the calls nest deeper does not count: on the left it is `spent`, on
-- the right that of `write_element`.
module _ {F : Type 0} (long_double : LongDouble F) (c : ℕ)
    (spent : Tokenizer F → ℕ → Emitting F) where
  abbrev within_spent : ℕ → Tokenizer F → ℕ → Emitting F
  within_spent = write_within long_double spent

  abbrev within_fatal : ℕ → Tokenizer F → ℕ → Emitting F
  within_fatal = write_within long_double (λ t c. fatal)

  error_same :
      (n : ℕ) (t : Tokenizer F)
      → within_spent (suc n) (at error_state t) c ≡ within_fatal 1 (at error_state t) c
  error_same n t =
      error_depth long_double c spent n t ∙ sym (error_depth long_double c (λ t c. fatal) 0 t)

  pub token_depth :
      (n : ℕ) (t : Tokenizer F)
      → within_spent (suc n) (at token_state t) c ≡ within_fatal 1 (at token_state t) c
  unfolding write_within dispatch
  token_depth n t = refl

  pub string_depth :
      (n : ℕ) (t : Tokenizer F)
      → within_spent (suc n) (at string_state t) c ≡ within_fatal 1 (at string_state t) c
  unfolding write_within dispatch
  string_depth n t = refl

  digit_depth :
      (n : ℕ) (t : Tokenizer F) (s : NumberStream) (v : ℕ)
      → base_10 c ≡ some v
      → within_spent (suc n) (at number_state (counting t s)) c
        ≡ within_fatal 1 (at number_state (counting t s)) c
  unfolding write_within dispatch
  digit_depth n t s v h = rw (write_dec_digit-counting (at number_state t) s c v h, in_number) refl

  pub base_10-within : within b'0' b'9' c ≡ true → base_10 c ≡ some ((c - b'0') % 256)
  unfolding base_10
  base_10-within h = rw h refl

  default_depth :
      (n : ℕ) (t : Tokenizer F)
      → in_start_default (within_spent (suc n)) (at start_state t) c
        ≡ in_start_default (within_fatal 1) (at start_state t) c
  unfolding in_start_default
  default_depth n t = elim (Bool-cases (within b'0' b'9' c)) [
    | inl d ↦
        rw (d, in_start_default)
          (digit_depth n (record t { sign = 1 }) (record { value = t.whole; count = 0 }) _
            (base_10-within d))
    | inr d ↦ elim (Option-cases (find_literal c)) [
      | inr (literal, l) ↦ rw (d, in_start_default) (rw l refl)
      | inl l ↦ elim (Bool-cases (ws c)) [
        | inl w ↦ rw (d, in_start_default) (rw l (rw w refl))
        | inr w ↦ rw (d, in_start_default) (rw l (rw w (token_depth n (record t { string = [] }))))
      ]
    ]
  ]

  pub start_depth :
      (n : ℕ) (t : Tokenizer F)
      → within_spent (suc (suc n)) (at start_state t) c ≡ within_fatal 2 (at start_state t) c
  unfolding write_within dispatch
  start_depth n t = elim (Option-cases (symbol {F = F} c)) [
    | inr (token, e) ↦ rw (e, in_start) refl
    | inl e ↦ elim (Bool-cases (c == quote)) [
      | inl q ↦ rw (e, in_start) (rw q refl)
      | inr q ↦ elim (Bool-cases (c == b'-')) [
        | inl m ↦ rw (e, in_start) (rw q (rw m refl))
        | inr m ↦ rw (e, in_start) (rw q (rw m (default_depth n t)))
      ]
    ]
  ]

  pub literal_depth :
      (n : ℕ) (t : Tokenizer F)
      → in_literal (within_spent (suc n)) (at literal_state t) c
        ≡ in_literal (within_fatal 1) (at literal_state t) c
  unfolding in_literal
  literal_depth n t = elim (Option-cases (get_elem? (spelling t.literal) t.matched)) [
    | inl e ↦ rw (e, in_literal) refl
    | inr (expected, e) ↦ elim (Bool-cases (c == expected)) [
      | inl q ↦ rw (e, in_literal) (rw q refl)
      | inr q ↦
          rw (e, in_literal)
            (rw q (token_depth n (record t { string = take t.matched (spelling t.literal) })))
    ]
  ]

  pub escape_depth :
      (n : ℕ) (t : Tokenizer F)
      → in_escape (within_spent (suc n)) (at escape_state t) c
        ≡ in_escape (within_fatal 1) (at escape_state t) c
  unfolding in_escape
  escape_depth n t = elim (Option-cases (escaped c)) [
    | inr (plain, e) ↦ rw (e, in_escape) refl
    | inl e ↦ elim (Bool-cases (c == b'u')) [
      | inl q ↦ rw (e, in_escape) (rw q refl)
      | inr q ↦ rw (e, in_escape) (rw q (error_same n t))
    ]
  ]

  pub surrogate_depth :
      (n : ℕ) (t : Tokenizer F)
      → in_utf16_surrogate (within_spent (suc n)) (at utf16_surrogate_state t) c
        ≡ in_utf16_surrogate (within_fatal 1) (at utf16_surrogate_state t) c
  unfolding in_utf16_surrogate
  surrogate_depth n t = elim (Bool-cases (c == b'u')) [
    | inl q ↦ rw (q, in_utf16_surrogate) refl
    | inr q ↦ rw (q, in_utf16_surrogate) (error_same n t)
  ]

  -- A character code ends in a string or in an error.
  end_character_code-cases :
      (t t' : Tokenizer F)
      → end_character_code (at character_code_state t) ≡ returns t'
      → (t'.state ≡ string_state) ⊎ (t'.state ≡ error_state)
  unfolding end_character_code
  end_character_code-cases t t' h = ground arith

  behind_code :
      (n : ℕ) (t : Tokenizer F)
      → (t.state ≡ string_state) ⊎ (t.state ≡ error_state)
      → within_spent (suc n) t c ≡ within_fatal 1 t c
  behind_code n t (inl h) =
      subst (λ s. within_spent (suc n) (at s t) c ≡ within_fatal 1 (at s t) c) (sym h)
        (string_depth n t)
  behind_code n t (inr h) =
      subst (λ s. within_spent (suc n) (at s t) c ≡ within_fatal 1 (at s t) c) (sym h)
        (error_same n t)

  pub character_code_depth :
      (n : ℕ) (t : Tokenizer F)
      → in_character_code (within_spent (suc n)) (at character_code_state t) c
        ≡ in_character_code (within_fatal 1) (at character_code_state t) c
  unfolding in_character_code
  character_code_depth n t = elim (Outcome-cases (write_hex_digit (at character_code_state t) c)) [
    | inl e ↦ rw (e, in_character_code) refl
    | inr (some t', e) ↦ rw (e, in_character_code) refl
    | inr (none, e) ↦ elim (Outcome-cases (end_character_code (at character_code_state t))) [
      | inl f ↦ rw (e, in_character_code) (rw f refl)
      | inr (t', f) ↦
          rw (e, in_character_code) (rw f (behind_code n t' (end_character_code-cases t t' f)))
    ]
  ]
