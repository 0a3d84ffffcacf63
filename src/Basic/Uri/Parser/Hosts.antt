-- ===== src/Basic/Uri/Parser/Hosts.antt =====
-- The states of Uri::Parse from the authority to the port (Basic.Uri.cpp).
use webel.Prelude.{
  Bool, List, Option, Outcome, [], false, if◌then◌else◌, length, none, not, returns, some, true, ℕ,
  ◌&&◌, ◌++◌, ◌+◌, ◌==◌, ◌>>=◌, ◌||◌, ◌∷◌,
}
use webel.Basic.Uri.{
  State, hostname_state, Uri, same_text, scheme_port, is_ascii_digit, is_ascii_alpha,
}
use webel.Basic.Uri.Encoding.{default_encode_anti_set, utf_8_percent_encode, host_parse}
use webel.Basic.Uri.Parser.{
  Parser, Turn, goes_on, ends, back, Look, again, push, deref, is_separator, is_white,
}

abbrev pub percent_forty : List ℕ
percent_forty = b'%' ∷ b'4' ∷ b'0' ∷ []

-- The loop over the buffer in front of an @.
unfoldable pub credentials : (ℕ → List ℕ) → Uri → List ℕ → Outcome Uri
credentials percent_format uri [] = returns uri
credentials percent_format uri (c ∷ cs) =
    let encoded = utf_8_percent_encode percent_format c default_encode_anti_set in
    let skip = credentials percent_format uri cs in
    if is_white c then skip else elim uri.password [
      | some password ↦
          credentials percent_format (record uri { password = some (password ++ encoded) }) cs
      | none ↦ elim (c == b':') [
        | true ↦ credentials percent_format (record uri { password = some [] }) cs
        | false ↦ deref uri.username >>= λ username.
            credentials percent_format (record uri { username = some (username ++ encoded) }) cs
      ]
    ]

-- The @ behind the credentials.
unfoldable pub end_credentials : (ℕ → List ℕ) → Parser → Outcome Turn
end_credentials percent_format p =
    let buffer = if p.at_flag then percent_forty ++ p.buffer else p.buffer in
    credentials percent_format p.uri buffer >>= λ uri.
    returns (goes_on (record p { uri = uri; at_flag = true; buffer = [] }))

unfoldable pub in_authority_state : (ℕ → List ℕ) → Look → Parser → Outcome Turn
in_authority_state percent_format l p =
    if l.codepoint == b'@'
    then end_credentials percent_format p
    else if is_separator l.codepoint
    then returns (
        goes_on (record p {
          pointer = back (length p.buffer + 1) p.pointer;
          buffer = [];
          state = State.host_state;
        }))
    else returns (goes_on (push l.codepoint p))

-- The buffer is the host; `finishes` tells that Parse returns behind it.
unfoldable pub end_host : Bool → State → ℕ → Parser → Turn
end_host finishes next pointer p = elim (host_parse p.buffer) [
  | none ↦ ends false p.uri
  | some host ↦
      let uri = record p.uri { host = some host } in
      if finishes
      then ends true uri
      else goes_on (record p { uri = uri; buffer = []; state = next; pointer = pointer })
]

abbrev pub is_drive : List ℕ → Bool
is_drive (letter ∷ colon ∷ []) = is_ascii_alpha letter && (colon == b':' || colon == b'|')
is_drive buffer = false

unfoldable pub in_file_host_state : Look → Parser → Turn
in_file_host_state l p =
    if is_separator l.codepoint
    then if is_drive p.buffer
      then goes_on (again State.relative_path_state p)
      else if length p.buffer == 0
      then goes_on (again State.relative_path_start_state p)
      else end_host false State.relative_path_start_state (back 1 p.pointer) p
    else if is_white l.codepoint
    then goes_on p
    else goes_on (push l.codepoint p)

abbrev pub is_given : Option State → Bool
is_given none = false
is_given (some state) = true

abbrev pub is_hostname : Option State → Bool
is_hostname (some hostname_state) = true
is_hostname override = false

unfoldable pub in_host_state : Option State → Look → Parser → Turn
in_host_state override l p =
    let c = l.codepoint in
    if c == b':' && not p.brackets_flag
    then end_host (is_hostname override) State.port_state p.pointer p
    else if is_separator c
    then end_host (is_given override) State.relative_path_start_state (back 1 p.pointer) p
    else if is_white c
    then goes_on p
    else goes_on (record (push c p) {
      brackets_flag = if c == b'[' then true else if c == b']' then false else p.brackets_flag;
    })

-- The loop that takes a leading zero away: erase(0) takes all behind it too.
unfoldable pub trimmed : List ℕ → List ℕ
trimmed (c ∷ d ∷ cs) = if c == 0x30 then [] else c ∷ d ∷ cs
trimmed cs = cs

-- The port that is stored: none where it is the scheme's own.
unfoldable pub stored_port : Option (List ℕ) → List ℕ → List ℕ
stored_port none port = port
stored_port (some default) port = if same_text port default then [] else port

unfoldable pub end_port : Option State → Parser → Outcome Turn
end_port override p = scheme_port p.uri.scheme >>= λ default.
    let uri = record p.uri { port = some (stored_port default (trimmed p.buffer)) } in
    returns (
      if is_given override
      then ends true uri
      else goes_on (record (again State.relative_path_start_state p) { uri = uri; buffer = [] }))

unfoldable pub in_port_state : Option State → Look → Parser → Outcome Turn
in_port_state override l p =
    if is_ascii_digit l.codepoint
    then returns (goes_on (push l.codepoint p))
    else if is_separator l.codepoint || is_given override
    then end_port override p
    else if is_white l.codepoint
    then returns (goes_on p)
    else returns (ends false p.uri)
