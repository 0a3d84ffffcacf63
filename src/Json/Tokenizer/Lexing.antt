-- ===== src/Json/Tokenizer/Lexing.antt =====
-- Texts that the tokenizer reads from start_state to start_state (Json.Tokenizer.cpp): how they
-- chain, and the symbols, blanks and literals.
use webel.Prelude.{
  arith, ℕ, ◌≡◌, refl, ◌∙◌, sym, ap, Bool, true, false, List, [], ◌∷◌, ◌++◌, append_assoc, some,
}
use webel.Json.Tokens.{
  LongDouble, Token, name_separator_token, string_token, number_token, Literal, json_false,
  json_null, json_true, spelling, literal_token, name_separator, ws,
}
use webel.Json.Values.{gap, last_gap, name_gap}
use webel.Json.Tokenizer.State.{start_state, Tokenizer, Emitting, behind}
use webel.Json.Tokenizer.Texts.{symbol, find_literal}
use webel.Json.Tokenizer.Machine.{write_element, write_elements}
use webel.Json.Tokenizer.Steps.{
  behind-nil, behind-append, write_elements-emitting, write_elements-silent,
}
use webel.Json.Tokenizer.Numerals.{
  IsDelimiter, Numeral, IsNumeral, numeral_text, numeral_value, write_elements-numeral,
}
use webel.Json.Tokenizer.Strings.{write_elements-write_value}
use webel.Json.Values.{write_value}
use webel.Json.Tokenizer.Texts.{in_start, in_start_default}
use webel.Json.Tokens.{literal_token, name_separator}

-- The text begins with a code point that ends a number.
abbrev pub IsDelimited : List ℕ → Type 0
IsDelimited [] = ⊥
IsDelimited (c ∷ cs) = IsDelimiter c

module _ {F : Type 0} (long_double : LongDouble F) where
  abbrev run : Tokenizer F → List ℕ → Emitting F
  run = write_elements long_double

  abbrev started : Tokenizer F → Tokenizer F
  started t = record t { state = start_state }

  -- Before `rest`, the text gives the tokens, and the tokenizer is in start_state again.
  abbrev pub LexesBefore : List ℕ → List ℕ → List (Token F) → Type 0
  LexesBefore rest text tokens =
      (t : Tokenizer F)
      → (t' : Tokenizer F) × (run (started t) (text ++ rest)
          ≡ behind tokens (run (started t') rest))

  pub LexesBefore-append :
      (xs ys rest : List ℕ) (ts us : List (Token F))
      → LexesBefore (ys ++ rest) xs ts
      → LexesBefore rest ys us
      → LexesBefore rest (xs ++ ys) (ts ++ us)
  LexesBefore-append xs ys rest ts us h k t =
      let (t', e) = h t in
      let (t'', f) = k t' in
      (t'', rw append_assoc (e ∙ ap (behind ts) f ∙ behind-append ts us (run (started t'') rest)))

  module _ (rest : List ℕ) where
    -- One code point that is a token.
    pub symbol_lexes :
        (c : ℕ) (token : Token F) → symbol c ≡ some token → LexesBefore rest (c ∷ []) (token ∷ [])
    unfolding write_element
    symbol_lexes c token h t =
        (t, write_elements-emitting long_double _ c rest _ (token ∷ []) (rw (h, in_start) refl))

    blank :
        (c : ℕ) (t : Tokenizer F) (cs : List ℕ)
        → ws c ≡ true
        → run (started t) (c ∷ cs) ≡ run (started t) cs
    unfolding write_element in_start in_start_default symbol find_literal
    blank c t cs h = write_elements-silent long_double _ c cs _ (ground arith)

    pub gap_lexes : (complex : Bool) → LexesBefore rest (gap complex) []
    gap_lexes true t =
        (t, blank 0x0D t (0x0A ∷ rest) refl ∙ blank 0x0A t rest refl ∙ sym (behind-nil _))
    gap_lexes false t = (t, blank 0x20 t rest refl ∙ sym (behind-nil _))

    pub last_gap_lexes : (complex : Bool) → LexesBefore rest (last_gap complex) []
    last_gap_lexes true t = (t, sym (behind-nil _))
    last_gap_lexes false t = (t, blank 0x20 t rest refl ∙ sym (behind-nil _))

    pub name_gap_lexes : LexesBefore rest name_gap (name_separator_token ∷ [])
    unfolding write_element symbol
    name_gap_lexes t = (
      t,
      blank 0x20 t (name_separator ∷ 0x20 ∷ rest) refl
          ∙ write_elements-emitting long_double _ _ _ _ (name_separator_token ∷ []) refl
          ∙ ap (behind (name_separator_token ∷ [])) (blank 0x20 t rest refl),
    )

    pub literal_lexes :
        (literal : Literal) → LexesBefore rest (spelling literal) (literal_token literal ∷ [])
    unfolding write_element symbol find_literal
    literal_lexes json_null t = (
      record t { literal = json_null; matched = 4 },
      write_elements-silent long_double _ _ _ _ refl
          ∙ write_elements-silent long_double _ _ _ _ refl
          ∙ write_elements-silent long_double _ _ _ _ refl
          ∙ write_elements-emitting long_double _ _ _ _ _ refl,
    )
    literal_lexes json_true t = (
      record t { literal = json_true; matched = 4 },
      write_elements-silent long_double _ _ _ _ refl
          ∙ write_elements-silent long_double _ _ _ _ refl
          ∙ write_elements-silent long_double _ _ _ _ refl
          ∙ write_elements-emitting long_double _ _ _ _ _ refl,
    )
    literal_lexes json_false t = (
      record t { literal = json_false; matched = 5 },
      write_elements-silent long_double _ _ _ _ refl
          ∙ write_elements-silent long_double _ _ _ _ refl
          ∙ write_elements-silent long_double _ _ _ _ refl
          ∙ write_elements-silent long_double _ _ _ _ refl
          ∙ write_elements-emitting long_double _ _ _ _ _ refl,
    )

    pub string_lexes : (s : List ℕ) → LexesBefore rest (write_value s) (string_token s ∷ [])
    string_lexes s t =
        (record t { string = s }, write_elements-write_value long_double t t.string s rest)

  pub numeral_lexes :
      (n : Numeral) (rest : List ℕ)
      → IsNumeral n
      → IsDelimited rest
      → LexesBefore rest (numeral_text n) (number_token (numeral_value long_double n) ∷ [])
  numeral_lexes n [] h d t = absurd d
  numeral_lexes n (c ∷ cs) h d t = write_elements-numeral long_double n t c cs h d
