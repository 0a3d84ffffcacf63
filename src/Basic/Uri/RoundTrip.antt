-- ===== src/Basic/Uri/RoundTrip.antt =====
-- Uris that Uri::write_to_stream writes as Uri::Parse reads them (Basic.Uri.cpp).
pub mod Leads
pub mod Opening
pub mod Places
pub mod Segments
pub mod Arrival
pub mod Tail
pub mod Whole
use webel.Prelude.{
  ==_self, ==→eq, All, All-append, Bool, Bool-cases, List, Option, Option-cases, Outcome,
  Outcome-cases, Returns, Returns-returns, [], ap, append-nil, append_assoc, arith, drop,
  drop-append, false, fatal, get_elem?, if◌then◌else◌, inl, inr, leb, leb→le, length, length-append,
  le→leb, ltb, ltb→lt, map, ne→==, none, not, refl, replicate, returns, set, some, subst, suc, sym,
  take, take-append, true, zero, ℕ, ◌%◌, ◌&&◌, ◌*◌, ◌++◌, ◌+◌, ◌-◌, ◌/◌, ◌<◌, ◌==◌, ◌>>=◌, ◌^◌,
  ◌||◌, ◌↔◌, ◌∎, ◌∙◌, ◌∷◌, ◌≡◌, ◌≡⟨◌⟩◌, ◌≢◌, ◌≤◌, ◌⊎◌, two_pow_add, two_pow_le, two_pow_positive,
  Whenever, Whenever->>=, Whenever-returns, Whenever-any, Whenever-if, Whenever-option, Returns->>=,
}
use webel.Basic.Numbers.{within}
use webel.Basic.Uri.{
  State, scheme_start_state, scheme_state, scheme_data_state, no_scheme_state,
  relative_or_authority_state, relative_state, relative_slash_state, authority_first_slash_state,
  authority_second_slash_state, authority_ignore_slashes_state, authority_state, file_host_state,
  host_state, hostname_state, port_state, relative_path_start_state, relative_path_state,
  query_state, fragment_state, Uri, initialized, same_text, equals, equals_refs, equals_any_case,
  file_scheme, http_scheme, https_scheme, ports, find, scheme_port, is_some, is_relative_scheme,
  is_secure_scheme, is_http_scheme, is_ascii_digit, is_ascii_alpha, is_ascii_alphanumeric,
  is_ascii_hex_digit, one_of, is_url_codepoint, is_null_or_empty, port_number, get_port,
}
use webel.Basic.Uri.Encoding.{default_encode_anti_set, simple_encode_anti_set}
use webel.Basic.Uri.Parser.{is_slash}
use webel.Basic.Uri.Parser.Hosts.{trimmed}
use webel.Basic.Uri.Parser.Paths.{dot, dot_dot, dots}

-- The code points that the parser takes as they are, in each part.
abbrev pub scheme_char : ℕ → Bool
scheme_char c = within b'a' b'z' c

abbrev pub host_char : ℕ → Bool
host_char c =
    within 0x21 0x7E c
    && not (one_of (b':' ∷ b'/' ∷ b'\\' ∷ b'?' ∷ b'#' ∷ b'%' ∷ b'@' ∷ b'[' ∷ b']' ∷ []) c)

abbrev pub path_char : ℕ → Bool
path_char c =
    within 0x21 0x7E c
    && not (one_of (0x22 ∷ b'#' ∷ b'<' ∷ b'>' ∷ b'?' ∷ b'`' ∷ b'/' ∷ b'\\' ∷ []) c)

abbrev pub query_char : ℕ → Bool
query_char c = within 0x21 0x7E c && not (one_of (0x22 ∷ b'#' ∷ b'<' ∷ b'>' ∷ b'`' ∷ []) c)

abbrev pub fragment_char : ℕ → Bool
fragment_char c = within 0x20 0x7E c

abbrev pub Each : (ℕ → Bool) → List ℕ → Type 0
Each char = All (λ c. char c ≡ true)

-- A segment that stands for itself.
abbrev pub IsSegment : List ℕ → Type 0
IsSegment segment =
    Each path_char segment
    × (dots segment ≡ segment)
    × (same_text segment dot ≡ false)
    × (same_text segment dot_dot ≡ false)

-- The port of a Uri: none, or digits without a leading zero that are not those of the scheme.
abbrev pub IsPort : List ℕ → List ℕ → Type 0
IsPort default [] = Unit
IsPort default (d ∷ ds) =
    Each is_ascii_digit (d ∷ ds)
    × (trimmed (d ∷ ds) ≡ d ∷ ds)
    × (same_text (d ∷ ds) default ≡ false)

-- A part that is absent, or not empty.
abbrev pub IsPart : (ℕ → Bool) → Option (List ℕ) → Type 0
IsPart char none = Unit
IsPart char (some []) = ⊥
IsPart char (some (c ∷ cs)) = Each char (c ∷ cs)
