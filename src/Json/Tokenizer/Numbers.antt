-- ===== src/Json/Tokenizer/Numbers.antt =====
-- The states of Tokenizer::write_element (Json.Tokenizer.cpp) that read numbers.
use webel.Prelude.{ℕ, none, some, [], ◌∷◌, returns, ◌>>=◌, ◌==◌, if◌then◌else◌}
use webel.Basic.Numbers.{lower_case}
use webel.Json.Tokens.{LongDouble, number_token}
use webel.Json.Tokenizer.State.{
  start_state, fraction_state, exponent_state, error_state, fraction_target, exponent_target,
  Tokenizer, Emitting, goto, move, behind, write_dec_digit,
}

module _ {F : Type 0} (long_double : LongDouble F) where
  -- `(long double)this->whole * (long double)this->sign`
  abbrev pub signed_whole : Tokenizer F → F
  signed_whole t = long_double.times (long_double.of_uint64 t.whole) (long_double.of_int64 t.sign)

  -- `number += fraction / pow(10, digits of the fraction)`
  abbrev pub with_fraction : Tokenizer F → F
  with_fraction t = long_double.plus t.number (
      long_double.divide (long_double.of_uint64 t.fraction)
        (long_double.pow (long_double.of_uint64 10) (long_double.of_uint64 t.dec_count)))

module _ {F : Type 0} (again : Tokenizer F → ℕ → Emitting F) where
  -- The number token goes out, and the code point is read again.
  abbrev pub end_number : Tokenizer F → ℕ → Emitting F
  end_number t c = behind (number_token t.number ∷ []) (goto start_state t >>= λ t'. again t' c)

  abbrev pub no_digits : Tokenizer F → ℕ → Emitting F
  no_digits t c = goto error_state t >>= λ t'. again t' c

abbrev pub begin_exponent : {F : Type 0} → Tokenizer F → Emitting F
begin_exponent t = move exponent_state (record t { dec_target = exponent_target; dec_count = 0 })

module _ {F : Type 0} (long_double : LongDouble F) (again : Tokenizer F → ℕ → Emitting F) where
  unfoldable pub in_number : Tokenizer F → ℕ → Emitting F
  in_number t c = write_dec_digit t c >>= λ written. elim written [
    | some t' ↦ returns (t', [])
    | none ↦
        let t' = record t { number = signed_whole long_double t } in
        if t.dec_count == 0
        then no_digits again t c
        else if c == b'.'
        then move fraction_state (record t' { dec_target = fraction_target; dec_count = 0 })
        else if lower_case c == b'e'
        then begin_exponent t'
        else end_number again t' c
  ]

  unfoldable pub in_fraction : Tokenizer F → ℕ → Emitting F
  in_fraction t c = write_dec_digit t c >>= λ written. elim written [
    | some t' ↦ returns (t', [])
    | none ↦
        let t' = record t { number = with_fraction long_double t } in
        if t.dec_count == 0
        then no_digits again t c
        else if lower_case c == b'e'
        then begin_exponent t'
        else end_number again t' c
  ]

  unfoldable pub in_exponent : Tokenizer F → ℕ → Emitting F
  in_exponent t c = write_dec_digit t c >>= λ written. elim written [
    | some t' ↦ returns (t', [])
    | none ↦
        if t.dec_count == 0
        then no_digits again t c
        else end_number again
            (record t { number = long_double.pow t.number (long_double.of_uint64 t.exponent) }) c
  ]
