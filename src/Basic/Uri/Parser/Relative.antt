-- ===== src/Basic/Uri/Parser/Relative.antt =====
-- The states of Uri::Parse that take what is missing from the base (Basic.Uri.cpp).
use webel.Prelude.{
  Bool, List, Option, Outcome, [], false, fatal, if◌then◌else◌, not, returns, true, ℕ, ◌==◌, ◌>>=◌,
  ◌||◌, ◌∷◌,
}
use webel.Basic.Utf8.Encoder.{eof}
use webel.Basic.Uri.{State, Uri, equals, file_scheme, is_ascii_alpha}
use webel.Basic.Uri.Parser.{Parser, Look, again, deref, is_slash}
use webel.Basic.Uri.Parser.Schemes.{begin_query, begin_fragment}

-- host, port and path of the base.
abbrev pub place_of : Uri → Parser → Parser
place_of base p = record p {
  uri = record p.uri { host = base.host; port = base.port; path = base.path };
}

abbrev pub query_of : Uri → Parser → Parser
query_of base p = record p { uri = record p.uri { query = base.query } }

-- All but the last.
abbrev pub without_last {ℓ} : {A : Type ℓ} → List A → List A
without_last [] = []
without_last (x ∷ []) = []
without_last (x ∷ y ∷ ys) = x ∷ without_last (y ∷ ys)

-- path.pop_back, which has no meaning on an empty path.
unfoldable pub pop_back : Uri → Outcome Uri
pop_back uri = elim uri.path [
  | [] ↦ fatal
  | x ∷ xs ↦ returns (record uri { path = without_last (x ∷ xs) })
]

-- The test for the drive letter. Its remaining_size is the one outside of the block that computes
-- it, and stays 0.
unfoldable pub is_no_drive_letter : Look → Uri → Bool
is_no_drive_letter l uri =
    let remaining_size : ℕ = 0 in
    not (equals uri.scheme file_scheme)
    || not (is_ascii_alpha l.codepoint)
    || not (l.remaining_0 == b':' || l.remaining_0 == b'|')
    || not (remaining_size == 1)
    || not (is_slash l.remaining_1 || l.remaining_1 == b'?' || l.remaining_1 == b'#')

-- The default of the switch: a path that begins where the base's ends.
unfoldable pub begin_path : Option Uri → Look → Parser → Outcome Parser
begin_path base l p =
    let next = again State.relative_path_state p in
    elim (is_no_drive_letter l p.uri) [
      | false ↦ returns next
      | true ↦ deref base >>= λ base.
          pop_back (place_of base next).uri >>= λ uri. returns (record next { uri = uri })
    ]

-- The switch on the code point.
unfoldable pub by_codepoint : Option Uri → Look → Parser → Outcome Parser
by_codepoint base l p =
    let c = l.codepoint in
    let slash = record p { state = State.relative_slash_state } in
    if c == eof
    then (deref base >>= λ base. returns (query_of base (place_of base p)))
    else if is_slash c
    then returns slash
    else if c == b'?'
    then (deref base >>= λ base. returns (begin_query (place_of base p)))
    else if c == b'#'
    then (deref base >>= λ base. returns (begin_fragment (query_of base (place_of base p))))
    else begin_path base l p

unfoldable pub in_relative_state : Option Uri → Look → Parser → Outcome Parser
in_relative_state base l p =
    let uri = record p.uri { relative_flag = true } in
    if equals uri.scheme file_scheme
    then by_codepoint base l (record p { uri = uri })
    else deref base >>= λ b.
        by_codepoint base l (record p { uri = record uri { scheme = b.scheme } })

unfoldable pub in_relative_slash_state : Option Uri → Look → Parser → Outcome Parser
in_relative_slash_state base l p =
    let is_file = equals p.uri.scheme file_scheme in
    if is_slash l.codepoint
    then returns (record p {
      state = if is_file then State.file_host_state else State.authority_ignore_slashes_state;
    })
    else if is_file
    then returns (again State.relative_path_state p)
    else deref base >>= λ b. returns (record (again State.relative_path_state p) {
      uri = record p.uri { host = b.host; port = b.port };
    })
