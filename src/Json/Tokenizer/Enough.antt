-- ===== src/Json/Tokenizer/Enough.antt =====
-- Three calls of Tokenizer::write_element inside one another are enough (Json.Tokenizer.cpp).
use webel.Prelude.{
  fatal, ◌∷◌, ℕ, suc, ◌≡◌, refl, sym, ◌∙◌, inl, inr, none, some, Bool-cases, Outcome-cases, ◌==◌,
  [], ap,
}
use webel.Json.Tokens.{LongDouble, number_token}
use webel.Json.Tokenizer.State.{
  State, start_state, literal_state, token_state, string_state, escape_state, character_code_state,
  utf16_surrogate_state, number_state, fraction_state, exponent_state, done_state, error_state,
  Tokenizer, Emitting, behind, write_dec_digit,
}
use webel.Json.Tokenizer.Numbers.{signed_whole, with_fraction, in_number, in_fraction, in_exponent}
use webel.Json.Tokenizer.Depth.{
  at, start_depth, error_depth, literal_depth, escape_depth, surrogate_depth, character_code_depth,
}
use webel.Json.Tokenizer.Machine.{dispatch, write_within, write_element}
use webel.Basic.Numbers.{lower_case}

module _ {F : Type 0} (long_double : LongDouble F) (c : ℕ)
    (spent : Tokenizer F → ℕ → Emitting F) where
  abbrev deepest : Tokenizer F → ℕ → Emitting F
  deepest t' c' = fatal

  abbrev within_spent : ℕ → Tokenizer F → ℕ → Emitting F
  within_spent = write_within long_double spent

  abbrev within_fatal : ℕ → Tokenizer F → ℕ → Emitting F
  within_fatal = write_within long_double deepest

  error_again :
      (n : ℕ) (t : Tokenizer F)
      → within_spent (suc (suc n)) (at error_state t) c ≡ within_fatal 2 (at error_state t) c
  error_again n t =
      error_depth long_double c spent (suc n) t ∙ sym (error_depth long_double c deepest 1 t)

  number_depth :
      (n : ℕ) (t : Tokenizer F)
      → in_number long_double (within_spent (suc (suc n))) (at number_state t) c
        ≡ in_number long_double (within_fatal 2) (at number_state t) c
  unfolding in_number
  number_depth n t = elim (Outcome-cases (write_dec_digit (at number_state t) c)) [
    | inl e ↦ rw (e, in_number) refl
    | inr (some t', e) ↦ rw (e, in_number) refl
    | inr (none, e) ↦ elim (Bool-cases (t.dec_count == 0)) [
      | inl z ↦ rw (e, in_number) (rw z (error_again n t))
      | inr z ↦ elim (Bool-cases (c == b'.')) [
        | inl q ↦ rw (e, in_number) (rw z (rw q refl))
        | inr q ↦ elim (Bool-cases (lower_case c == b'e')) [
          | inl x ↦ rw (e, in_number) (rw z (rw q (rw x refl)))
          | inr x ↦
              rw (e, in_number)
                (rw z (
                  rw q (
                    rw x (
                      ap (behind (number_token (signed_whole long_double t) ∷ [])) (
                        start_depth long_double c spent n
                          (record t { number = signed_whole long_double t }))))))
        ]
      ]
    ]
  ]

  fraction_depth :
      (n : ℕ) (t : Tokenizer F)
      → in_fraction long_double (within_spent (suc (suc n))) (at fraction_state t) c
        ≡ in_fraction long_double (within_fatal 2) (at fraction_state t) c
  unfolding in_fraction
  fraction_depth n t = elim (Outcome-cases (write_dec_digit (at fraction_state t) c)) [
    | inl e ↦ rw (e, in_fraction) refl
    | inr (some t', e) ↦ rw (e, in_fraction) refl
    | inr (none, e) ↦ elim (Bool-cases (t.dec_count == 0)) [
      | inl z ↦ rw (e, in_fraction) (rw z (error_again n t))
      | inr z ↦ elim (Bool-cases (lower_case c == b'e')) [
        | inl x ↦ rw (e, in_fraction) (rw z (rw x refl))
        | inr x ↦
            rw (e, in_fraction)
              (rw z (
                rw x (
                  ap (behind (number_token (with_fraction long_double t) ∷ [])) (
                    start_depth long_double c spent n
                      (record t { number = with_fraction long_double t })))))
      ]
    ]
  ]

  exponent_depth :
      (n : ℕ) (t : Tokenizer F)
      → in_exponent long_double (within_spent (suc (suc n))) (at exponent_state t) c
        ≡ in_exponent long_double (within_fatal 2) (at exponent_state t) c
  unfolding in_exponent
  exponent_depth n t = elim (Outcome-cases (write_dec_digit (at exponent_state t) c)) [
    | inl e ↦ rw (e, in_exponent) refl
    | inr (some t', e) ↦ rw (e, in_exponent) refl
    | inr (none, e) ↦ elim (Bool-cases (t.dec_count == 0)) [
      | inl z ↦ rw (e, in_exponent) (rw z (error_again n t))
      | inr z ↦
          rw (e, in_exponent)
            (rw z (
              ap
                (behind
                  (number_token (long_double.pow t.number (long_double.of_uint64 t.exponent)) ∷ []))
                (start_depth long_double c spent n (record t {
                  number = long_double.pow t.number (long_double.of_uint64 t.exponent);
                }))))
    ]
  ]

  -- One call deeper than `write_element` needs makes no difference, whatever the state, and nor does
  -- what stands for a call that nests deeper.
  dispatch_depth :
      (s : State) (n : ℕ) (t : Tokenizer F)
      → dispatch long_double (within_spent (suc (suc n))) s (at s t) c
        ≡ dispatch long_double (within_fatal 2) s (at s t) c
  unfolding dispatch write_within
  dispatch_depth start_state n t =
      start_depth long_double c spent (suc n) t ∙ sym (start_depth long_double c deepest 1 t)
  dispatch_depth literal_state n t =
      literal_depth long_double c spent (suc n) t ∙ sym (literal_depth long_double c deepest 1 t)
  dispatch_depth token_state n t = refl
  dispatch_depth string_state n t = refl
  dispatch_depth escape_state n t =
      escape_depth long_double c spent (suc n) t ∙ sym (escape_depth long_double c deepest 1 t)
  dispatch_depth utf16_surrogate_state n t =
      surrogate_depth long_double c spent (suc n) t
      ∙ sym (surrogate_depth long_double c deepest 1 t)
  dispatch_depth character_code_state n t =
      character_code_depth long_double c spent (suc n) t
      ∙ sym (character_code_depth long_double c deepest 1 t)
  dispatch_depth number_state n t = number_depth n t
  dispatch_depth fraction_state n t = fraction_depth n t
  dispatch_depth exponent_state n t = exponent_depth n t
  dispatch_depth done_state n t = refl
  dispatch_depth error_state n t = refl

-- At most three calls of Tokenizer::write_element stand inside one another, in every state and on
-- every code point: where three or more may, the result is that of `write_element`, whatever stands
-- for the calls that nest deeper.
pub write_within_enough :
    {F : Type 0} (long_double : LongDouble F) (spent : Tokenizer F → ℕ → Emitting F) (n : ℕ)
    (t : Tokenizer F) (c : ℕ)
    → write_within long_double spent (suc (suc (suc n))) t c ≡ write_element long_double t c
unfolding write_element write_within
write_within_enough long_double spent n t c = dispatch_depth long_double c spent t.state n t
