-- ===== src/Json/Tokenizer/Machine.antt =====
-- Tokenizer::write_element (Json.Tokenizer.cpp). It calls itself to read a code point again in
-- another state; `depth` bounds how many calls stand inside one another, and `spent` stands where
-- that bound is reached.
use webel.Prelude.{ℕ, zero, suc, List, [], ◌∷◌, returns, fatal, ◌>>=◌}
use webel.Json.Tokens.{LongDouble}
use webel.Json.Tokenizer.State.{
  State, start_state, literal_state, token_state, string_state, escape_state, character_code_state,
  utf16_surrogate_state, number_state, fraction_state, exponent_state, Tokenizer, Emitting, behind,
}
use webel.Json.Tokenizer.Texts.{
  in_start, in_literal, in_token, in_string, in_escape, in_utf16_surrogate, in_character_code,
}
use webel.Json.Tokenizer.Numbers.{in_number, in_fraction, in_exponent}

module _ {F : Type 0} (long_double : LongDouble F) where
  -- The switch on the state; done_state and error_state are its default, which throws.
  unfoldable pub dispatch : (Tokenizer F → ℕ → Emitting F) → State → Tokenizer F → ℕ → Emitting F
  unfolding in_start in_literal in_token in_string in_escape in_utf16_surrogate in_character_code
      in_number in_fraction in_exponent
  dispatch again start_state = in_start again
  dispatch again literal_state = in_literal again
  dispatch again token_state = in_token again
  dispatch again string_state = in_string again
  dispatch again escape_state = in_escape again
  dispatch again character_code_state = in_character_code again
  dispatch again utf16_surrogate_state = in_utf16_surrogate again
  dispatch again number_state = in_number long_double again
  dispatch again fraction_state = in_fraction long_double again
  dispatch again exponent_state = in_exponent long_double again
  dispatch again _ = λ t c. fatal

  unfoldable pub write_within : (Tokenizer F → ℕ → Emitting F) → ℕ → Tokenizer F → ℕ → Emitting F
  write_within spent zero t c = spent t c
  write_within spent (suc depth) t c = dispatch (write_within spent depth) t.state t c

  unfoldable pub write_element : Tokenizer F → ℕ → Emitting F
  unfolding write_within dispatch
  write_element = write_within (λ t c. fatal) 3

  -- UnitStream::write_elements (Basic.IStream.h).
  unfoldable pub write_elements : Tokenizer F → List ℕ → Emitting F
  write_elements t [] = returns (t, [])
  write_elements t (c ∷ cs) =
      write_element t c >>= λ (t', tokens). behind tokens (write_elements t' cs)
