-- ===== src/Json/Runs.antt =====
-- Runs of the tokenizer, with natural numbers for long double, and the theorems at them.
use webel.Prelude.{
  ◌%◌, returns, ℕ, ◌+◌, ◌*◌, ◌/◌, ◌^◌, ◌≡◌, refl, true, false, List, [], ◌∷◌, ◌++◌, fatal, arith,
  inr,
}
use webel.Basic.Numbers.{base_10, base_16, lower_case}
use webel.Json.Tokens.{LongDouble, string_token, quote, backslash}
use webel.Json.Values.{
  escape_letter, write_characters, Value, null_value, bool_value, object_value, array_value,
  number_value, no_values, value_cons, no_members, member_cons, write_value, write_to_stream,
}
use webel.Json.Documents.{tokens}
use webel.Json.Documents.RoundTrip.{write_elements-write_to_stream}
use webel.Json.Tokenizer.State.{start_state, string_state, Tokenizer, initial, behind}
use webel.Json.Tokenizer.Machine.{write_within, write_element, write_elements}
use webel.Json.Tokenizer.Enough.{write_within_enough}
use webel.Json.Tokenizer.Strings.{write_elements-write_value}
use webel.Json.Tokenizer.Escapes.{escape_text, write_elements-escape_text, character_code_fatal}
use webel.Json.Tokenizer.CharacterCodes.{hexadecimal}
use webel.Json.Tokenizer.Numerals.{Numeral, numeral_text, numeral_value}

abbrev pub natural : LongDouble ℕ
natural = record {
  of_uint64 = λ n. n;
  of_int64 = λ n. n;
  plus = λ a b. a + b;
  times = λ a b. a * b;
  divide = λ a b. a / b;
  pow = λ a b. a ^ b;
}

abbrev pub begun : Tokenizer ℕ
begun = initial natural

-- The last digit, as the print of a number.
abbrev pub one_digit : ℕ → Numeral
one_digit x = record { negative = false; first = x % 10; others = [] }

abbrev pub print_digit : ℕ → List ℕ
print_digit x = numeral_text (one_digit x)

abbrev pub document : Value ℕ
document = object_value (
    member_cons (b'a' ∷ [])
      (array_value (value_cons (number_value 7) (value_cons (bool_value true) no_values)))
      (member_cons [] null_value no_members))

write_elements-write_value_example :
    write_elements natural
      (record begun { state = start_state; string = [] })
      (write_value (b'a' ∷ 0x22 ∷ 0x0A ∷ []) ++ b',' ∷ [])
    ≡ behind (string_token (b'a' ∷ 0x22 ∷ 0x0A ∷ []) ∷ []) (
        write_elements natural
          (record begun { state = start_state; string = b'a' ∷ 0x22 ∷ 0x0A ∷ [] })
          (b',' ∷ []))
write_elements-write_value_example =
    write_elements-write_value natural begun [] (b'a' ∷ 0x22 ∷ 0x0A ∷ []) (b',' ∷ [])

-- The calls that would nest deeper return the tokenizer as it is.
write_within_enough_example :
    write_within natural (λ t c. returns (t, [])) 3 begun b'x' ≡ write_element natural begun b'x'
write_within_enough_example = write_within_enough natural (λ t c. returns (t, [])) 0 begun b'x'

write_elements-escape_text_example :
    (t' : Tokenizer ℕ) × (t'.string ≡ 0x1F600 ∷ [])
    × (t'.utf16_surrogate ≡ false)
    × (write_elements natural
          (record begun { state = string_state })
          (escape_text 0x1F600 ++ quote ∷ [])
        ≡ write_elements natural (record t' { state = string_state }) (quote ∷ []))
unfolding base_16
write_elements-escape_text_example =
    write_elements-escape_text natural begun 0x1F600 quote [] refl (omega arith, inr (omega arith))
      refl

character_code_fatal_example :
    write_elements natural
      (record begun { state = string_state })
      (backslash ∷ b'u' ∷ (hexadecimal (0 ∷ 0 ∷ 4 ∷ 1 ∷ 0xB ∷ []) ++ quote ∷ []))
    ≡ fatal
unfolding base_16
character_code_fatal_example =
    character_code_fatal natural begun 0 (0 ∷ 4 ∷ 1 ∷ 0xB ∷ []) quote []
      (omega arith, (omega arith, (omega arith, (omega arith, (omega arith, tt))))) (omega arith)
      (omega arith) refl

write_elements-write_to_stream_example :
    (t' : Tokenizer ℕ) × (write_elements natural
        (record begun { state = start_state })
        (write_to_stream print_digit document ++ 0x20 ∷ [])
      ≡ behind
          (tokens (λ x. numeral_value natural (one_digit x)) document)
          (write_elements natural (record t' { state = start_state }) (0x20 ∷ [])))
unfolding base_10 lower_case
write_elements-write_to_stream_example =
    write_elements-write_to_stream natural print_digit one_digit (λ x. refl)
      (λ x. ((omega arith, tt), omega arith)) document begun 0x20 []
      (refl, omega arith, omega arith)

document_text :
    write_to_stream print_digit document
    ≡ b'{' ∷ 13 ∷ 10 ∷ 0x22 ∷ b'a' ∷ 0x22 ∷ b' ' ∷ b':' ∷ b' ' ∷ b'[' ∷ b' ' ∷ b'7' ∷ b',' ∷ b' '
      ∷ b't' ∷ b'r' ∷ b'u' ∷ b'e' ∷ b' ' ∷ b']' ∷ b',' ∷ 13 ∷ 10 ∷ 0x22 ∷ 0x22 ∷ b' ' ∷ b':' ∷ b' '
      ∷ b'n' ∷ b'u' ∷ b'l' ∷ b'l' ∷ b'}' ∷ []
unfolding write_to_stream write_characters escape_letter
document_text = refl
