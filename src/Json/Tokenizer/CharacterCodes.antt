-- ===== src/Json/Tokenizer/CharacterCodes.antt =====
-- What the tokenizer makes of `\u` in a string (Json.Tokenizer.cpp).
use webel.Prelude.{
  ℕ, ◌%◌, ◌<◌, ◌≡◌, refl, ◌∙◌, ap, List, [], ◌∷◌, ◌++◌, map, All, length, none, returns, fatal,
  arith,
}
use webel.Basic.Numbers.{base_16, hex_digit, base_16-hex_digit}
use webel.Basic.Numbers.Streams.{NumberStream, push_digit, push_digits, push_digits-horner, horner}
use webel.Json.Tokens.{LongDouble, backslash}
use webel.Json.Tokenizer.State.{
  string_state, character_code_state, error_state, Tokenizer, uint64_values,
}
use webel.Json.Tokenizer.Texts.{escaped, in_character_code, end_character_code}
use webel.Json.Tokenizer.Digits.{hex_counting, write_hex_digit-counting, write_hex_digit-none}
use webel.Json.Tokenizer.Machine.{write_element, write_elements}
use webel.Json.Tokenizer.Steps.{write_elements-silent}

-- Digits as `\u` is written with them, in upper case.
abbrev pub hexadecimal : List ℕ → List ℕ
hexadecimal hs = map hex_digit hs

-- The stream behind a character code's digits.
abbrev pub code_of : List ℕ → NumberStream
code_of hs = record { value = horner 0x10 0 hs % uint64_values; count = length hs }

module _ {F : Type 0} (long_double : LongDouble F) (t : Tokenizer F) where
  -- In a string; and in a character code, with what the digit stream has come to.
  abbrev pub in_text : Tokenizer F
  in_text = record t { state = string_state }

  abbrev pub coding : NumberStream → Tokenizer F
  coding s = record (hex_counting t s) { state = character_code_state }

  begins_code :
      (rest : List ℕ)
      → write_elements long_double in_text (backslash ∷ b'u' ∷ rest)
        ≡ write_elements long_double (coding (record { value = t.whole; count = 0 })) rest
  unfolding write_element escaped
  begins_code rest =
      write_elements-silent long_double _ backslash _ _ refl
      ∙ write_elements-silent long_double _ b'u' _ _ refl

  next_hex :
      (s : NumberStream) (h : ℕ)
      → h < 16
      → write_element long_double (coding s) (hex_digit h)
        ≡ returns (coding (push_digit uint64_values 0x10 s h), [])
  unfolding write_element
  next_hex s h k =
      rw
        (
          write_hex_digit-counting (record t { state = character_code_state }) s (hex_digit h) h
              (base_16-hex_digit h k),
          in_character_code,
        )
        refl

  many_hex :
      (hs : List ℕ) (s : NumberStream) (rest : List ℕ)
      → All (λ h. h < 16) hs
      → write_elements long_double (coding s) (hexadecimal hs ++ rest)
        ≡ write_elements long_double (coding (push_digits uint64_values 0x10 s hs)) rest
  unfolding push_digits
  many_hex [] s rest k = refl
  many_hex (h ∷ hs) s rest (k, ks) =
      write_elements-silent long_double _ _ _ _ (next_hex s h k)
      ∙ many_hex hs (push_digit uint64_values 0x10 s h) rest ks

  pub reads_code :
      (h : ℕ) (hs rest : List ℕ)
      → All (λ h. h < 16) (h ∷ hs)
      → length (h ∷ hs) < 256
      → write_elements long_double in_text (backslash ∷ b'u' ∷ (hexadecimal (h ∷ hs) ++ rest))
        ≡ write_elements long_double (coding (code_of (h ∷ hs))) rest
  reads_code h hs rest k l =
      begins_code (hexadecimal (h ∷ hs) ++ rest)
      ∙ many_hex (h ∷ hs) (record { value = t.whole; count = 0 }) rest k
      ∙ ap (λ s. write_elements long_double (coding s) rest)
          (push_digits-horner uint64_values 0x10 (record { value = t.whole; count = 0 }) h hs
            (omega arith) l)

  -- The code ends at `c`, in an error.
  pub ends_fatal :
      (s : NumberStream) (c : ℕ) (t' : Tokenizer F)
      → base_16 c ≡ none
      → end_character_code (coding s) ≡ returns (record t' { state = error_state })
      → write_element long_double (coding s) c ≡ fatal
  unfolding write_element
  ends_fatal s c t' h e =
      rw (write_hex_digit-none (record t { state = character_code_state }) s c h, in_character_code)
        (rw e refl)

  -- The code ends at `c`, and the string goes on.
  pub ends_in_string :
      (s : NumberStream) (c : ℕ) (t' : Tokenizer F)
      → base_16 c ≡ none
      → end_character_code (coding s) ≡ returns (record t' { state = string_state })
      → write_element long_double (coding s) c
        ≡ write_element long_double (record t' { state = string_state }) c
  unfolding write_element
  ends_in_string s c t' h e =
      rw (write_hex_digit-none (record t { state = character_code_state }) s c h, in_character_code)
        (rw e refl)
