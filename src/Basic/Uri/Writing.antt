-- ===== src/Basic/Uri/Writing.antt =====
-- Uri::write_to_stream (Basic.Uri.cpp).
use webel.Prelude.{
  Bool, List, Option, Outcome, [], false, if◌then◌else◌, none, not, returns, some, true, ℕ, ◌++◌,
  ◌>>=◌, ◌||◌, ◌∷◌,
}
use webel.Basic.Uri.{Uri, is_some, is_null_or_empty}
use webel.Basic.Uri.Parser.{deref}

-- The username and the password, in front of an @.
unfoldable pub write_credentials : Uri → Outcome (List ℕ)
write_credentials uri =
    if not (is_null_or_empty uri.username) || is_some uri.password
    then (deref uri.username >>= λ username. returns (
        username
        ++ elim uri.password [ none ↦ b'@' ∷ [] | some password ↦ b':' ∷ password ++ b'@' ∷ [] ]))
    else returns []

-- A part behind its mark, if there is any.
abbrev pub marked : ℕ → Option (List ℕ) → List ℕ
marked mark none = []
marked mark (some []) = []
marked mark (some (c ∷ cs)) = mark ∷ c ∷ cs

abbrev text_of : Option (List ℕ) → List ℕ
text_of none = []
text_of (some text) = text

-- The segments behind the first one each follow a slash.
abbrev pub write_segments : List (List ℕ) → List ℕ
write_segments [] = []
write_segments (segment ∷ segments) = b'/' ∷ segment ++ write_segments segments

abbrev pub write_path : List (List ℕ) → List ℕ
write_path [] = []
write_path (segment ∷ segments) = segment ++ write_segments segments

-- What stands in front of the path, unless path_only.
unfoldable pub write_authority : Uri → Outcome (List ℕ)
write_authority uri = write_credentials uri >>= λ credentials.
    returns (b'/' ∷ b'/' ∷ credentials ++ text_of uri.host ++ marked b':' uri.port)

unfoldable pub write_scheme : Uri → Outcome (List ℕ)
write_scheme uri = deref uri.scheme >>= λ scheme. returns (scheme ++ b':' ∷ [])

unfoldable pub write_place : Bool → Uri → Outcome (List ℕ)
write_place path_only uri = elim uri.relative_flag [
  | false ↦ deref uri.scheme_data
  | true ↦ (if path_only then returns [] else write_authority uri) >>= λ authority.
      returns (authority ++ b'/' ∷ write_path uri.path)
]

unfoldable pub write_to_stream : Uri → Bool → Bool → Outcome (List ℕ)
write_to_stream uri exclude_fragment path_only =
    (if path_only then returns [] else write_scheme uri) >>= λ scheme.
    write_place path_only uri >>= λ place. returns (
      scheme
      ++ place
      ++ marked b'?' uri.query
      ++ (if exclude_fragment then [] else marked b'#' uri.fragment))
