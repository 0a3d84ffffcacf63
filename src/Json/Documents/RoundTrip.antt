-- ===== src/Json/Documents/RoundTrip.antt =====
-- The tokenizer reads what write_to_stream writes as the value's tokens (Json.Types.cpp,
-- Json.Tokenizer.cpp).
use webel.Json.Tokenizer.State.{Tokenizer, start_state, behind}
use webel.Json.Tokenizer.Machine.{write_elements}
use webel.Prelude.{append_assoc, ℕ, ◌≡◌, refl, Bool, true, false, List, [], ◌∷◌, ◌++◌}
use webel.Json.Tokenizer.Texts.{symbol}
use webel.Json.Tokens.{
  LongDouble, begin_array_token, begin_object_token, end_array_token, end_object_token,
  name_separator_token, value_separator_token, string_token, json_false, json_null, json_true,
  begin_array, begin_object, end_array, end_object, value_separator,
}
use webel.Json.Values.{
  Value, null_value, bool_value, object_value, array_value, number_value, string_value, Values,
  no_values, value_cons, Members, no_members, member_cons, has_complex, has_complex_member, gap,
  last_gap, write_to_stream, write_more, write_more_members,
}
use webel.Json.Tokenizer.Numerals.{Numeral, IsNumeral, numeral_text, IsDelimiter, numeral_value}
use webel.Json.Tokenizer.Lexing.{IsDelimited, literal_lexes, string_lexes, numeral_lexes}
use webel.Json.Documents.{tokens, more_tokens, more_member_tokens}
use webel.Json.Documents.Parts.{
  Lexes, then, opens, closes, empty, member, nothing, array_delimits, object_delimits,
  last_delimits, more_delimits, more_members_delimits,
}

module _ {F : Type 0} (long_double : LongDouble F) (print : F → List ℕ) (numeral_of : F → Numeral)
    (prints : (x : F) → print x ≡ numeral_text (numeral_of x))
    (numerals : (x : F) → IsNumeral (numeral_of x)) where
  abbrev read : F → F
  read x = numeral_value long_double (numeral_of x)

  mutual
    unfolding write_to_stream tokens symbol

    value_lexes :
        (v : Value F) (rest : List ℕ)
        → IsDelimited rest
        → Lexes long_double rest (write_to_stream print v) (tokens read v)
    value_lexes null_value rest h = literal_lexes long_double rest json_null
    value_lexes (bool_value true) rest h = literal_lexes long_double rest json_true
    value_lexes (bool_value false) rest h = literal_lexes long_double rest json_false
    value_lexes (number_value x) rest h =
        rw (prints x) (numeral_lexes long_double (numeral_of x) rest (numerals x) h)
    value_lexes (string_value s) rest h = string_lexes long_double rest s
    value_lexes (array_value no_values) rest h =
        empty long_double begin_array end_array begin_array_token end_array_token rest refl refl
    value_lexes (array_value (value_cons v vs)) rest h =
        let complex = has_complex (value_cons v vs) in
        let closing = last_gap complex ++ end_array ∷ [] in
        let delimited = last_delimits complex end_array rest array_delimits in
        then long_double (begin_array ∷ gap complex) _ rest (begin_array_token ∷ [])
          (tokens read v ++ (more_tokens read vs ++ end_array_token ∷ []))
          (opens long_double begin_array begin_array_token complex _ refl)
          (then long_double (write_to_stream print v) (write_more print complex vs ++ closing) rest
            (tokens read v) (more_tokens read vs ++ end_array_token ∷ [])
            (value_lexes v _
              (rw append_assoc (more_delimits print vs complex (closing ++ rest) delimited)))
            (then long_double (write_more print complex vs) closing rest (more_tokens read vs)
              (end_array_token ∷ []) (more_lexes vs complex (closing ++ rest) delimited)
              (closes long_double end_array end_array_token complex rest refl)))
    value_lexes (object_value no_members) rest h =
        empty long_double begin_object end_object begin_object_token end_object_token rest refl refl
    value_lexes (object_value (member_cons n v ms)) rest h =
        let complex = has_complex_member (member_cons n v ms) in
        let closing = last_gap complex ++ end_object ∷ [] in
        let delimited = last_delimits complex end_object rest object_delimits in
        then long_double (begin_object ∷ gap complex) _ rest (begin_object_token ∷ [])
          (string_token n
            ∷ name_separator_token
            ∷ (tokens read v ++ (more_member_tokens read ms ++ end_object_token ∷ [])))
          (opens long_double begin_object begin_object_token complex _ refl)
          (member long_double n (write_to_stream print v)
            (write_more_members print complex ms ++ closing) rest (tokens read v)
            (more_member_tokens read ms ++ end_object_token ∷ [])
            (value_lexes v _ (
              rw append_assoc (more_members_delimits print ms complex (closing ++ rest) delimited)))
            (then long_double (write_more_members print complex ms) closing rest
              (more_member_tokens read ms) (end_object_token ∷ [])
              (more_members_lex ms complex (closing ++ rest) delimited)
              (closes long_double end_object end_object_token complex rest refl)))

    more_lexes :
        (vs : Values F) (complex : Bool) (rest : List ℕ)
        → IsDelimited rest
        → Lexes long_double rest (write_more print complex vs) (more_tokens read vs)
    more_lexes no_values complex rest h = nothing long_double rest
    more_lexes (value_cons v vs) complex rest h =
        then long_double (value_separator ∷ gap complex) _ rest (value_separator_token ∷ [])
          (tokens read v ++ more_tokens read vs)
          (opens long_double value_separator value_separator_token complex _ refl)
          (then long_double (write_to_stream print v) (write_more print complex vs) rest
            (tokens read v) (more_tokens read vs)
            (value_lexes v _ (more_delimits print vs complex rest h))
            (more_lexes vs complex rest h))

    more_members_lex :
        (ms : Members F) (complex : Bool) (rest : List ℕ)
        → IsDelimited rest
        → Lexes long_double rest (write_more_members print complex ms) (more_member_tokens read ms)
    more_members_lex no_members complex rest h = nothing long_double rest
    more_members_lex (member_cons n v ms) complex rest h =
        then long_double (value_separator ∷ gap complex) _ rest (value_separator_token ∷ [])
          (string_token n ∷ name_separator_token ∷ (tokens read v ++ more_member_tokens read ms))
          (opens long_double value_separator value_separator_token complex _ refl)
          (member long_double n (write_to_stream print v) (write_more_members print complex ms) rest
            (tokens read v) (more_member_tokens read ms)
            (value_lexes v _ (more_members_delimits print ms complex rest h))
            (more_members_lex ms complex rest h))

  -- Where vsprintf_s prints every number as an optional minus sign and between 1 and 255 digits, a
  -- tokenizer in start_state that is fed what write_to_stream writes for any value, and then a code
  -- point that ends a number, emits the tokens of the value, and no others, before it reads this code
  -- point from start_state; but for its numbers: the token of a number holds what the digits printed
  -- for it say, as a uint64, times the sign printed for it, which need not be the number that was
  -- written.
  pub write_elements-write_to_stream :
      (v : Value F) (t : Tokenizer F) (c : ℕ) (rest : List ℕ)
      → IsDelimiter c
      → (t' : Tokenizer F) × (write_elements long_double
            (record t { state = start_state })
            (write_to_stream print v ++ c ∷ rest)
          ≡ behind
              (tokens (λ x. numeral_value long_double (numeral_of x)) v)
              (write_elements long_double (record t' { state = start_state }) (c ∷ rest)))
  write_elements-write_to_stream v t c rest h = value_lexes v (c ∷ rest) h t
