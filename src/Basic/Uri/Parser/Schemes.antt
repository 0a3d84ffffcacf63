-- ===== src/Basic/Uri/Parser/Schemes.antt =====
-- The states of Uri::Parse up to the authority (Basic.Uri.cpp).
use webel.Prelude.{
  Bool, List, Option, Outcome, [], false, if◌then◌else◌, none, not, returns, some, true, ℕ, ◌&&◌,
  ◌++◌, ◌-◌, ◌==◌, ◌>>=◌, ◌||◌,
}
use webel.Basic.Numbers.{lower_case}
use webel.Basic.Utf8.Encoder.{eof}
use webel.Basic.Uri.{
  State, Uri, same_text, equals_refs, file_scheme, is_relative_scheme, is_ascii_alpha,
  is_ascii_alphanumeric, is_ascii_hex_digit, is_url_codepoint,
}
use webel.Basic.Uri.Encoding.{simple_encode_anti_set, utf_8_percent_encode}
use webel.Basic.Uri.Parser.{
  Parser, Turn, goes_on, ends, uint32_mod, forward, Look, again, push, deref, is_white, is_slash,
}

module _ (override : Option State) where
  unfoldable pub in_scheme_start_state : Look → Parser → Turn
  in_scheme_start_state l p =
      if is_ascii_alpha l.codepoint
      then goes_on (record (push (lower_case l.codepoint) p) { state = State.scheme_state })
      else elim override [
        | none ↦ goes_on (again State.no_scheme_state p)
        | some state ↦ ends true p.uri
      ]

  -- Where the scheme leads, by whether it is relative and whether the base has the same.
  unfoldable pub behind_scheme : Bool → Bool → List ℕ → State
  behind_scheme relative_flag same_as_base scheme =
      if same_text scheme file_scheme
      then State.relative_state
      else if relative_flag && same_as_base
      then State.relative_or_authority_state
      else if relative_flag
      then State.authority_first_slash_state
      else State.scheme_data_state

  abbrev pub has_scheme : Option Uri → List ℕ → Bool
  has_scheme none scheme = false
  has_scheme (some base) scheme = equals_refs base.scheme (some scheme)

  -- The colon behind the scheme; relative_flag is only ever set.
  unfoldable pub end_scheme : Option Uri → Parser → Outcome Turn
  end_scheme base p =
      let uri = record p.uri { scheme = some p.buffer } in
      elim override [
        | some state ↦ returns (ends true uri)
        | none ↦ is_relative_scheme uri.scheme >>= λ relative.
            let relative_flag = relative || p.uri.relative_flag in
            returns (
              goes_on (record p {
                uri = record uri { relative_flag = relative_flag };
                buffer = [];
                state = behind_scheme relative_flag (has_scheme base p.buffer) p.buffer;
              }))
      ]

  unfoldable pub in_scheme_state : Option Uri → Look → Parser → Outcome Turn
  in_scheme_state base l p =
      let c = l.codepoint in
      if is_ascii_alphanumeric c || c == b'+' || c == b'-' || c == b'.'
      then returns (goes_on (push (lower_case c) p))
      else if c == b':'
      then end_scheme base p
      else elim override [
        | none ↦ returns (
            goes_on
              (record p { buffer = []; state = State.no_scheme_state; pointer = uint32_mod - 1 }))
        | some state ↦ returns (ends true p.uri)
      ]

-- The query and the fragment begin, as they do behind a path.
abbrev pub begin_query : Parser → Parser
begin_query p = record p { uri = record p.uri { query = some [] }; state = State.query_state }

abbrev pub begin_fragment : Parser → Parser
begin_fragment p = record p {
  uri = record p.uri { fragment = some [] };
  state = State.fragment_state;
}

-- A code point that is reported is left out of the scheme data.
unfoldable pub in_scheme_data_state : (ℕ → List ℕ) → Look → Parser → Outcome Turn
in_scheme_data_state percent_format l p =
    let c = l.codepoint in
    if c == b'?'
    then returns (goes_on (begin_query p))
    else if c == b'#'
    then returns (goes_on (begin_fragment p))
    else if not (c == eof) && not (is_url_codepoint c) && not (c == b'%')
    then returns (goes_on p)
    else if c == b'%' && not (is_ascii_hex_digit l.remaining_0 && is_ascii_hex_digit l.remaining_1)
    then returns (goes_on p)
    else if c == eof || is_white c
    then returns (goes_on p)
    else deref p.uri.scheme_data >>= λ scheme_data. returns (
        goes_on (record p {
          uri = record p.uri {
            scheme_data =
                some (scheme_data ++ utf_8_percent_encode percent_format c simple_encode_anti_set);
          };
        }))

unfoldable pub in_no_scheme_state : Option Uri → Parser → Outcome Turn
in_no_scheme_state none p = returns (ends false p.uri)
in_no_scheme_state (some base) p = is_relative_scheme base.scheme >>= λ relative.
    returns (if relative then goes_on (again State.relative_state p) else ends false p.uri)

unfoldable pub in_relative_or_authority_state : Look → Parser → Parser
in_relative_or_authority_state l p =
    if l.codepoint == b'/' && l.remaining_0 == b'/'
    then record p { state = State.authority_ignore_slashes_state; pointer = forward p.pointer }
    else again State.relative_state p

unfoldable pub in_authority_first_slash_state : Look → Parser → Parser
in_authority_first_slash_state l p =
    if l.codepoint == b'/'
    then record p { state = State.authority_second_slash_state }
    else again State.authority_ignore_slashes_state p

unfoldable pub in_authority_second_slash_state : Look → Parser → Parser
in_authority_second_slash_state l p =
    if l.codepoint == b'/'
    then record p { state = State.authority_ignore_slashes_state }
    else again State.authority_ignore_slashes_state p

unfoldable pub in_authority_ignore_slashes_state : Look → Parser → Parser
in_authority_ignore_slashes_state l p =
    if is_slash l.codepoint then p else again State.authority_state p
