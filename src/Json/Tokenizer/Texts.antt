-- ===== src/Json/Tokenizer/Texts.antt =====
-- The states of Tokenizer::write_element (Json.Tokenizer.cpp) that read symbols, literals, tokens and
-- strings. `again` is the call of write_element that reads the code point once more.
use webel.Prelude.{
  ℕ, ◌+◌, ◌-◌, ◌*◌, ◌%◌, ◌^◌, ◌&&◌, true, false, not, Option, none, some, [], ◌∷◌, ◌++◌, Outcome,
  returns, fatal, ◌>>=◌, ◌==◌, if◌then◌else◌, get_elem?, take, length,
}
use webel.Basic.Numbers.{within}
use webel.Json.Tokens.{
  Token, begin_script_token, end_script_token, begin_parameter_token, end_parameter_token,
  token_separator_token, token_token, begin_array_token, begin_object_token, end_array_token,
  end_object_token, name_separator_token, value_separator_token, string_token, Literal, json_false,
  json_null, json_true, spelling, literal_token, begin_script, end_script, begin_parameter,
  end_parameter, token_separator, begin_array, begin_object, end_array, end_object, name_separator,
  value_separator, quote, backslash, ws,
}
use webel.Json.Tokenizer.State.{
  start_state, literal_state, token_state, string_state, escape_state, character_code_state,
  number_state, error_state, whole_target, Tokenizer, Emitting, minus_one, goto, move,
  emit_and_move, behind, write_hex_digit,
}

-- handle_error, without its log entry.
abbrev pub handle_error : {F : Type 0} → Tokenizer F → Outcome (Tokenizer F)
handle_error t = goto error_state t

-- The first key of literal_map that begins with the code point.
unfoldable pub find_literal : ℕ → Option Literal
find_literal c =
    if c == b'f'
    then some json_false
    else if c == b'n'
    then some json_null
    else if c == b't'
    then some json_true
    else none

-- The tokens of one symbol, in start_state.
unfoldable pub symbol : {F : Type 0} → ℕ → Option (Token F)
symbol c =
    if c == begin_script
    then some begin_script_token
    else if c == end_script
    then some end_script_token
    else if c == begin_parameter
    then some begin_parameter_token
    else if c == end_parameter
    then some end_parameter_token
    else if c == token_separator
    then some token_separator_token
    else if c == begin_array
    then some begin_array_token
    else if c == begin_object
    then some begin_object_token
    else if c == end_array
    then some end_array_token
    else if c == end_object
    then some end_object_token
    else if c == name_separator
    then some name_separator_token
    else if c == value_separator
    then some value_separator_token
    else none

-- The character that a letter behind a backslash stands for.
unfoldable pub escaped : ℕ → Option ℕ
escaped c =
    if c == quote
    then some 0x22
    else if c == backslash
    then some 0x5C
    else if c == b'/'
    then some 0x2F
    else if c == b'b'
    then some 0x08
    else if c == b'f'
    then some 0x0C
    else if c == b'n'
    then some 0x0A
    else if c == b'r'
    then some 0x0D
    else if c == b't'
    then some 0x09
    else none

abbrev pub push : {F : Type 0} → ℕ → Tokenizer F → Tokenizer F
push c t = record t { string = t.string ++ c ∷ [] }

-- `static_cast<Codepoint>(whole)`: its low 32 bits.
abbrev pub as_codepoint : ℕ → ℕ
as_codepoint whole = whole % 2 ^ 32

abbrev pub combine : ℕ → ℕ → ℕ
combine lead low = 0x10000 + (lead - 0xD800) * 2 ^ 10 + (low - 0xDC00)

-- What a character code does once it has ended.
unfoldable pub end_character_code : {F : Type 0} → Tokenizer F → Outcome (Tokenizer F)
end_character_code t =
    let c16 = as_codepoint t.whole in
    let t' = record t { utf16_surrogate = false } in
    if not (t.hex_count == 4)
    then handle_error t
    else if t.utf16_surrogate && within 0xDC00 0xDFFF c16
    then goto string_state (push (combine t.utf16_lead_surrogate c16) t')
    else if t.utf16_surrogate
    then handle_error t'
    else if within 0xD800 0xDBFF c16
    then goto string_state (record t { utf16_surrogate = true; utf16_lead_surrogate = c16 })
    else if within 0xDC00 0xDFFF c16
    then handle_error t
    else goto string_state (push c16 t)

module _ {F : Type 0} (again : Tokenizer F → ℕ → Emitting F) where
  -- The default of start_state.
  unfoldable pub in_start_default : Tokenizer F → ℕ → Emitting F
  in_start_default t c =
      if within b'0' b'9' c
      then (goto number_state (record t { sign = 1; dec_target = whole_target; dec_count = 0 })
          >>= λ t'. again t' c)
      else elim (find_literal c) [
        | some literal ↦ move literal_state (record t { literal = literal; matched = 1 })
        | none ↦
            if ws c
            then returns (t, [])
            else (goto token_state (record t { string = [] }) >>= λ t'. again t' c)
      ]

  unfoldable pub in_start : Tokenizer F → ℕ → Emitting F
  unfolding in_start_default
  in_start t c = elim (symbol c) [
    | some token ↦ returns (t, token ∷ [])
    | none ↦
        if c == quote
        then move string_state (record t { string = [] })
        else if c == b'-'
        then move number_state
            (record t { sign = minus_one; dec_target = whole_target; dec_count = 0 })
        else in_start_default t c
  ]

  unfoldable pub in_literal : Tokenizer F → ℕ → Emitting F
  in_literal t c =
      let matched = (t.matched + 1) % 256 in
      elim (get_elem? (spelling t.literal) t.matched) [
        | none ↦ fatal
        | some expected ↦
            if not (c == expected)
            then (goto token_state (record t { string = take t.matched (spelling t.literal) })
                >>= λ t'. again t' c)
            else if matched == length (spelling t.literal)
            then emit_and_move (literal_token t.literal) start_state
                (record t { matched = matched })
            else returns (record t { matched = matched }, [])
      ]

  unfoldable pub in_token : Tokenizer F → ℕ → Emitting F
  in_token t c =
      if c == token_separator
      then returns (record t { string = [] }, token_token t.string ∷ token_separator_token ∷ [])
      else if c == begin_parameter
      then behind (token_token t.string ∷ []) (emit_and_move begin_parameter_token start_state t)
      else if c == end_script
      then behind (token_token t.string ∷ []) (emit_and_move end_script_token start_state t)
      else if ws c
      then emit_and_move (token_token t.string) start_state t
      else returns (push c t, [])

  unfoldable pub in_string : Tokenizer F → ℕ → Emitting F
  in_string t c =
      if c == quote
      then emit_and_move (string_token t.string) start_state t
      else if c == backslash
      then move escape_state t
      else returns (push c t, [])

  unfoldable pub in_escape : Tokenizer F → ℕ → Emitting F
  in_escape t c = elim (escaped c) [
    | some plain ↦ move string_state (push plain t)
    | none ↦
        if c == b'u'
        then move character_code_state (record t { hex_target = whole_target; hex_count = 0 })
        else (handle_error t >>= λ t'. again t' c)
  ]

  unfoldable pub in_utf16_surrogate : Tokenizer F → ℕ → Emitting F
  in_utf16_surrogate t c =
      if c == b'u'
      then move character_code_state (record t { hex_target = whole_target; hex_count = 0 })
      else (handle_error t >>= λ t'. again t' c)

  unfoldable pub in_character_code : Tokenizer F → ℕ → Emitting F
  unfolding end_character_code
  in_character_code t c = write_hex_digit t c >>= λ written. elim written [
    | some t' ↦ returns (t', [])
    | none ↦ end_character_code t >>= λ t'. again t' c
  ]
