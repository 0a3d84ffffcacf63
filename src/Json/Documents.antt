-- ===== src/Json/Documents.antt =====
-- The tokens that stand for what a value writes (Json.Types.cpp, Json.Tokenizer.cpp).
pub mod Parts
pub mod RoundTrip
use webel.Prelude.{
  append_assoc, some, arith, ℕ, ◌≡◌, refl, sym, Bool, true, false, List, [], ◌∷◌, ◌++◌,
}
use webel.Basic.Numbers.{base_10, lower_case}
use webel.Json.Tokenizer.Texts.{symbol}
use webel.Json.Tokenizer.Steps.{behind-nil}
use webel.Json.Tokens.{
  LongDouble, Token, begin_array_token, begin_object_token, end_array_token, end_object_token,
  name_separator_token, value_separator_token, string_token, number_token, bool_token, null_token,
  json_false, json_null, json_true, begin_array, begin_object, end_array, end_object,
  value_separator,
}
use webel.Json.Values.{
  Value, null_value, bool_value, object_value, array_value, number_value, string_value, Values,
  no_values, value_cons, Members, no_members, member_cons, write_value, has_complex,
  has_complex_member, gap, last_gap, name_gap, write_to_stream, write_more, write_more_members,
}
use webel.Json.Tokenizer.Numerals.{Numeral, IsNumeral, numeral_text, IsDelimiter, numeral_value}
use webel.Json.Tokenizer.Lexing.{
  IsDelimited, LexesBefore, LexesBefore-append, symbol_lexes, gap_lexes, last_gap_lexes,
  name_gap_lexes, literal_lexes, string_lexes, numeral_lexes,
}

-- The tokens of a value, where `read` is the value that a number is read as.
module _ {F : Type 0} (read : F → F) where
  unfoldable mutual
    pub tokens : Value F → List (Token F)
    tokens null_value = null_token ∷ []
    tokens (bool_value b) = bool_token b ∷ []
    tokens (number_value x) = number_token (read x) ∷ []
    tokens (string_value s) = string_token s ∷ []
    tokens (array_value no_values) = begin_array_token ∷ end_array_token ∷ []
    tokens (array_value (value_cons v vs)) =
        begin_array_token ∷ (tokens v ++ (more_tokens vs ++ end_array_token ∷ []))
    tokens (object_value no_members) = begin_object_token ∷ end_object_token ∷ []
    tokens (object_value (member_cons n v ms)) =
        begin_object_token
        ∷ string_token n
        ∷ name_separator_token
        ∷ (tokens v ++ (more_member_tokens ms ++ end_object_token ∷ []))

    pub more_tokens : Values F → List (Token F)
    more_tokens no_values = []
    more_tokens (value_cons v vs) = value_separator_token ∷ (tokens v ++ more_tokens vs)

    pub more_member_tokens : Members F → List (Token F)
    more_member_tokens no_members = []
    more_member_tokens (member_cons n v ms) =
        value_separator_token
        ∷ string_token n
        ∷ name_separator_token
        ∷ (tokens v ++ more_member_tokens ms)
