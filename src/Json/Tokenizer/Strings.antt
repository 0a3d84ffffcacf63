-- ===== src/Json/Tokenizer/Strings.antt =====
-- The tokenizer reads back what String::write_value writes (Json.Types.cpp, Json.Tokenizer.cpp).
use webel.Prelude.{
  Option-cases, ℕ, ◌≡◌, ◌≢◌, refl, ◌∙◌, none, some, List, [], ◌∷◌, ◌++◌, append_assoc, append-nil,
  returns, inl, inr, arith,
}
use webel.Json.Tokens.{LongDouble, string_token, quote, backslash}
use webel.Json.Values.{escape_letter, escape, write_characters, write_value}
use webel.Json.Tokenizer.State.{Tokenizer, State, start_state, string_state, escape_state, behind}
use webel.Json.Tokenizer.Texts.{escaped, symbol, in_escape}
use webel.Json.Tokenizer.Machine.{write_element, write_elements}
use webel.Json.Tokenizer.Steps.{write_elements-emitting, write_elements-silent}

-- A character goes out as it is, or behind a backslash as the letter that the tokenizer reads as
-- this character.
escape_letter-none : (c : ℕ) → escape_letter c ≡ none → (c ≢ quote) × (c ≢ backslash)
unfolding escape_letter
escape_letter-none c h = ground arith

escape_letter-some : (c letter : ℕ) → escape_letter c ≡ some letter → escaped letter ≡ some c
unfolding escape_letter escaped
escape_letter-some c letter h = ground arith

module _ {F : Type 0} (long_double : LongDouble F) (t : Tokenizer F) where
  -- The tokenizer in a state, with what it has read of a string.
  abbrev reading : State → List ℕ → Tokenizer F
  reading state s = record t { state = state; string = s }

  plain_character :
      (s : List ℕ) (c : ℕ)
      → c ≢ quote
      → c ≢ backslash
      → write_element long_double (reading string_state s) c
        ≡ returns (reading string_state (s ++ c ∷ []), [])
  unfolding write_element
  plain_character s c h k = ground arith

  escaped_character :
      (s : List ℕ) (letter c : ℕ)
      → escaped letter ≡ some c
      → write_element long_double (reading escape_state s) letter
        ≡ returns (reading string_state (s ++ c ∷ []), [])
  unfolding write_element
  escaped_character s letter c h = rw (h, in_escape) refl

  begins_escape :
      (s : List ℕ)
      → write_element long_double (reading string_state s) backslash
        ≡ returns (reading escape_state s, [])
  unfolding write_element
  begins_escape s = refl

  one_character :
      (s : List ℕ) (c : ℕ) (rest : List ℕ)
      → write_elements long_double (reading string_state s) (escape c ++ rest)
        ≡ write_elements long_double (reading string_state (s ++ c ∷ [])) rest
  one_character s c rest = elim (Option-cases (escape_letter c)) [
    | inl e ↦
        rw (e, ◌++◌)
          (write_elements-silent long_double _ c rest _
            (plain_character s c (escape_letter-none c e).0 (escape_letter-none c e).1))
    | inr (letter, e) ↦
        rw (e, ◌++◌)
          (write_elements-silent long_double _ backslash (letter ∷ rest) _ (begins_escape s)
            ∙ write_elements-silent long_double _ letter rest _
                (escaped_character s letter c (escape_letter-some c letter e)))
  ]

  all_characters :
      (cs s rest : List ℕ)
      → write_elements long_double (reading string_state s) (write_characters cs ++ rest)
        ≡ write_elements long_double (reading string_state (s ++ cs)) rest
  unfolding write_characters
  all_characters [] s rest = rw append-nil refl
  all_characters (c ∷ cs) s rest = rw append_assoc (
      one_character s c (write_characters cs ++ rest)
      ∙ all_characters cs (s ++ c ∷ []) rest
      ∙ rw append_assoc refl)

  opening_quote :
      (s : List ℕ)
      → write_element long_double (reading start_state s) quote
        ≡ returns (reading string_state [], [])
  unfolding write_element symbol
  opening_quote s = refl

  closing_quote :
      (s : List ℕ)
      → write_element long_double (reading string_state s) quote
        ≡ returns (reading start_state s, string_token s ∷ [])
  unfolding write_element
  closing_quote s = refl

  -- A tokenizer in start_state that is fed what String::write_value writes for any string emits this
  -- string as one token, whatever the string holds, and is back in start_state for what follows.
  pub write_elements-write_value :
      (before s rest : List ℕ)
      → write_elements long_double
          (record t { state = start_state; string = before })
          (write_value s ++ rest)
        ≡ behind
            (string_token s ∷ [])
            (write_elements long_double (record t { state = start_state; string = s }) rest)
  write_elements-write_value before s rest =
      write_elements-silent long_double _ quote _ _ (opening_quote before)
      ∙ rw append_assoc (all_characters s [] (quote ∷ rest))
      ∙ write_elements-emitting long_double _ quote rest _ _ (closing_quote s)
