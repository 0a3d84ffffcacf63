-- ===== src/Basic/Uri/Parser/Paths.antt =====
-- The states of Uri::Parse for the path, the query and the fragment (Basic.Uri.cpp).
use webel.Prelude.{
  Bool, List, Option, Outcome, [], if◌then◌else◌, length, ltb, not, returns, some, ℕ, ◌&&◌, ◌++◌,
  ◌==◌, ◌>>=◌, ◌||◌, ◌∷◌,
}
use webel.Basic.Utf8.Encoder.{eof, encode_elements}
use webel.Basic.Uri.{State, Uri, same_text, equals, equals_any_case, file_scheme, is_ascii_alpha}
use webel.Basic.Uri.Encoding.{
  default_encode_anti_set, simple_encode_anti_set, percent_encode, utf_8_percent_encode,
}
use webel.Basic.Uri.Parser.{Parser, Look, again, push, deref, is_white, is_slash}
use webel.Basic.Uri.Parser.Schemes.{begin_query, begin_fragment}
use webel.Basic.Uri.Parser.Relative.{without_last}
use webel.Basic.Uri.Parser.Hosts.{is_given}

unfoldable pub in_relative_path_start_state : Look → Parser → Parser
in_relative_path_start_state l p =
    if is_slash l.codepoint
    then record p { state = State.relative_path_state }
    else again State.relative_path_state p

abbrev pub dot : List ℕ
dot = b'.' ∷ []

abbrev pub dot_dot : List ℕ
dot_dot = b'.' ∷ b'.' ∷ []

abbrev pub percent_two_e : List ℕ
percent_two_e = b'%' ∷ b'2' ∷ b'e' ∷ []

-- The ways to write the segments of one dot and of two.
unfoldable pub dots : List ℕ → List ℕ
dots buffer =
    if equals_any_case buffer percent_two_e
    then dot
    else if equals_any_case buffer (b'.' ∷ percent_two_e)
    then dot_dot
    else if equals_any_case buffer (percent_two_e ++ b'.' ∷ [])
    then dot_dot
    else if equals_any_case buffer dot_dot
    then dot_dot
    else buffer

-- A drive letter with a bar, at the root of a file.
unfoldable pub drive : Uri → List ℕ → List ℕ
drive uri (letter ∷ bar ∷ []) =
    if equals uri.scheme file_scheme && length uri.path == 0 && is_ascii_alpha letter && bar == b'|'
    then letter ∷ b':' ∷ []
    else letter ∷ bar ∷ []
drive uri buffer = buffer

-- The path behind a segment; `slash` tells that a slash ends the segment.
unfoldable pub with_segment : Uri → Bool → List ℕ → List (List ℕ)
with_segment uri slash segment =
    if same_text segment dot_dot
    then if slash then without_last uri.path else without_last uri.path ++ [] ∷ []
    else if same_text segment dot
    then if slash then uri.path else uri.path ++ [] ∷ []
    else uri.path ++ drive uri segment ∷ []

unfoldable pub end_segment : Look → Parser → Parser
end_segment l p =
    let c = l.codepoint in
    let path = with_segment p.uri (is_slash c) (dots p.buffer) in
    let p' = record p { uri = record p.uri { path = path }; buffer = [] } in
    if c == b'?' then begin_query p' else if c == b'#' then begin_fragment p' else p'

module _ (percent_format : ℕ → List ℕ) (override : Option State) where
  unfoldable pub in_relative_path_state : Look → Parser → Parser
  in_relative_path_state l p =
      let c = l.codepoint in
      if c == eof || is_slash c || (not (is_given override) && (c == b'?' || c == b'#'))
      then end_segment l p
      else if is_white c
      then p
      else record p {
        buffer = p.buffer ++ utf_8_percent_encode percent_format c default_encode_anti_set;
      }

  -- A byte of the query, or its percent encoding.
  unfoldable pub query_byte : ℕ → List ℕ
  query_byte b =
      if ltb b 0x21 || ltb 0x7E b || b == 0x22 || b == 0x23 || b == 0x3C || b == 0x3E || b == 0x60
      then percent_encode percent_format (b ∷ [])
      else b ∷ []

  unfoldable pub query_bytes : List ℕ → List ℕ
  query_bytes [] = []
  query_bytes (b ∷ bs) = query_byte b ++ query_bytes bs

  -- The buffer by the encoder of UTF-8, with 0x3F for what it cannot encode. The query is written
  -- to only where there is a byte.
  unfoldable pub end_query : Look → Parser → Outcome Parser
  end_query l p =
      let bytes = encode_elements 0x3F p.buffer in
      let written : Outcome (Option (List ℕ)) = elim bytes [
        | [] ↦ returns p.uri.query
        | b ∷ bs ↦ deref p.uri.query >>= λ query. returns (some (query ++ query_bytes (b ∷ bs)))
      ] in
      written >>= λ query.
      let p' = record p { uri = record p.uri { query = query }; buffer = [] } in
      returns (if l.codepoint == b'#' then begin_fragment p' else p')

  unfoldable pub in_query_state : Look → Parser → Outcome Parser
  in_query_state l p =
      let c = l.codepoint in
      if c == eof || (not (is_given override) && c == b'#')
      then end_query l p
      else if is_white c
      then returns p
      else returns (push c p)

unfoldable pub in_fragment_state : (ℕ → List ℕ) → Look → Parser → Outcome Parser
in_fragment_state percent_format l p =
    let c = l.codepoint in
    if c == eof || is_white c
    then returns p
    else deref p.uri.fragment >>= λ fragment. returns (record p {
      uri = record p.uri {
        fragment = some (fragment ++ utf_8_percent_encode percent_format c simple_encode_anti_set);
      };
    })
