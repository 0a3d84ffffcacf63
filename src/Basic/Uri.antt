-- ===== src/Basic/Uri.antt =====
-- class Uri (Basic.Uri.h, Basic.Uri.cpp), its scheme tests, and the constants of Basic.Globals.cpp
-- that it reads. A null UnicodeStringRef is `none`. The strings that two Uris share are not written
-- to through either.
pub mod Encoding
pub mod Writing
pub mod RoundTrip
pub mod Faults
pub mod Parser
pub mod Progress
mod Runs
use webel.Prelude.{
  ==_self, ==→eq, All, All-append, Bool, Bool-cases, List, Option, Option-cases, Outcome,
  Outcome-cases, Returns, Returns-returns, [], ap, append-nil, append_assoc, arith, drop,
  drop-append, false, fatal, get_elem?, if◌then◌else◌, inl, inr, leb, leb→le, length, length-append,
  le→leb, ltb, ltb→lt, map, ne→==, none, not, refl, replicate, returns, set, some, subst, suc, sym,
  take, take-append, true, zero, ℕ, ◌%◌, ◌&&◌, ◌*◌, ◌++◌, ◌+◌, ◌-◌, ◌/◌, ◌<◌, ◌==◌, ◌>>=◌, ◌^◌,
  ◌||◌, ◌↔◌, ◌∎, ◌∙◌, ◌∷◌, ◌≡◌, ◌≡⟨◌⟩◌, ◌≢◌, ◌≤◌, ◌⊎◌, two_pow_add, two_pow_le, two_pow_positive,
  Whenever, Whenever->>=, Whenever-returns, Whenever-any, Whenever-if, Whenever-option,
}
use webel.Basic.Numbers.{within, lower_case, base_10}
use webel.Basic.Utf8.Encoder.{eof}

pub data State : Type 0 where
  scheme_start_state scheme_state scheme_data_state no_scheme_state : State
  relative_or_authority_state relative_state relative_slash_state : State
  authority_first_slash_state authority_second_slash_state : State
  authority_ignore_slashes_state authority_state file_host_state : State
  host_state hostname_state port_state relative_path_start_state : State
  relative_path_state query_state fragment_state : State

pub record Uri : Type 0 where
  pub scheme : Option (List ℕ)
  pub scheme_data : Option (List ℕ)
  pub username : Option (List ℕ)
  pub password : Option (List ℕ)
  pub host : Option (List ℕ)
  pub port : Option (List ℕ)
  pub path : List (List ℕ)
  pub query : Option (List ℕ)
  pub fragment : Option (List ℕ)
  pub relative_flag : Bool

-- Initialize, of a Uri as it is constructed.
abbrev pub initialized : Uri
initialized = record {
  scheme = some [];
  scheme_data = some [];
  username = some [];
  password = none;
  host = none;
  port = some [];
  path = [];
  query = none;
  fragment = none;
  relative_flag = false;
}

-- String::equals with case_sensitive.
unfoldable pub same_text : List ℕ → List ℕ → Bool
same_text [] [] = true
same_text (x ∷ xs) (y ∷ ys) = (x == y) && same_text xs ys
same_text xs ys = false

-- equals, case sensitive, of a reference and a string.
abbrev pub equals : Option (List ℕ) → List ℕ → Bool
equals none right = false
equals (some left) right = same_text left right

-- equals, case sensitive, of two references.
abbrev pub equals_refs : Option (List ℕ) → Option (List ℕ) → Bool
equals_refs none none = true
equals_refs (some left) none = false
equals_refs left (some right) = equals left right

-- equals, not case sensitive.
abbrev pub equals_any_case : List ℕ → List ℕ → Bool
equals_any_case left right = same_text (map lower_case left) (map lower_case right)

abbrev pub file_scheme : List ℕ
file_scheme = b'f' ∷ b'i' ∷ b'l' ∷ b'e' ∷ []

abbrev pub http_scheme : List ℕ
http_scheme = b'h' ∷ b't' ∷ b't' ∷ b'p' ∷ []

abbrev pub https_scheme : List ℕ
https_scheme = b'h' ∷ b't' ∷ b't' ∷ b'p' ∷ b's' ∷ []

-- scheme_to_port_map.
abbrev pub ports : List (List ℕ × List ℕ)
ports =
    (b'f' ∷ b't' ∷ b'p' ∷ [], b'2' ∷ b'1' ∷ [])
    ∷ (file_scheme, [])
    ∷ (b'g' ∷ b'o' ∷ b'p' ∷ b'h' ∷ b'e' ∷ b'r' ∷ [], b'7' ∷ b'0' ∷ [])
    ∷ (http_scheme, b'8' ∷ b'0' ∷ [])
    ∷ (b'w' ∷ b's' ∷ [], b'8' ∷ b'0' ∷ [])
    ∷ (https_scheme, b'4' ∷ b'4' ∷ b'3' ∷ [])
    ∷ (b'w' ∷ b's' ∷ b's' ∷ [], b'4' ∷ b'4' ∷ b'3' ∷ [])
    ∷ []

abbrev pub find : List (List ℕ × List ℕ) → List ℕ → Option (List ℕ)
find [] scheme = none
find ((name, port) ∷ rest) scheme =
    let found = find rest scheme in if same_text name scheme then some port else found

-- scheme_to_port_map.find; the hash of a null reference reads through it.
unfoldable pub scheme_port : Option (List ℕ) → Outcome (Option (List ℕ))
scheme_port none = fatal
scheme_port (some scheme) = returns (find ports scheme)

abbrev pub is_some : Option (List ℕ) → Bool
is_some none = false
is_some (some port) = true

unfoldable pub is_relative_scheme : Option (List ℕ) → Outcome Bool
is_relative_scheme scheme = scheme_port scheme >>= λ port. returns (is_some port)

unfoldable pub is_secure_scheme : List ℕ → Bool
is_secure_scheme scheme = equals_any_case scheme https_scheme

unfoldable pub is_http_scheme : List ℕ → Bool
is_http_scheme scheme = equals_any_case scheme http_scheme || is_secure_scheme scheme

unfoldable pub is_ascii_digit : ℕ → Bool
is_ascii_digit codepoint = within 0x30 0x39 codepoint

unfoldable pub is_ascii_alpha : ℕ → Bool
is_ascii_alpha codepoint = within 0x41 0x5A codepoint || within 0x61 0x7A codepoint

unfoldable pub is_ascii_alphanumeric : ℕ → Bool
is_ascii_alphanumeric codepoint = is_ascii_alpha codepoint || is_ascii_digit codepoint

unfoldable pub is_ascii_hex_digit : ℕ → Bool
is_ascii_hex_digit codepoint =
    is_ascii_digit codepoint || within 0x41 0x46 codepoint || within 0x61 0x66 codepoint

-- The tests of is_url_codepoint on one code point each.
abbrev url_marks : List ℕ
url_marks =
    b'!' ∷ b'$' ∷ b'&' ∷ b'\'' ∷ b'(' ∷ b')' ∷ b'*' ∷ b'+' ∷ b',' ∷ b'-' ∷ b'.' ∷ b'/' ∷ b':' ∷ b';'
    ∷ b'=' ∷ b'?' ∷ b'@' ∷ b'_' ∷ b'~' ∷ []

-- Its ranges behind ASCII.
abbrev url_ranges : List (ℕ × ℕ)
url_ranges =
    (0xA0, 0xD7FF)
    ∷ (0xE000, 0xFDCF)
    ∷ (0xFDF0, 0xFFEF)
    ∷ (0x10000, 0x1FFFD)
    ∷ (0x20000, 0x2FFFD)
    ∷ (0x30000, 0x3FFFD)
    ∷ (0x40000, 0x4FFFD)
    ∷ (0x50000, 0x5FFFD)
    ∷ (0x60000, 0x6FFFD)
    ∷ (0x70000, 0x7FFFD)
    ∷ (0x80000, 0x8FFFD)
    ∷ (0x90000, 0x9FFFD)
    ∷ (0xA0000, 0xAFFFD)
    ∷ (0xB0000, 0xBFFFD)
    ∷ (0xC0000, 0xCFFFD)
    ∷ (0xD0000, 0xDFFFD)
    ∷ (0xE1000, 0xEFFFD)
    ∷ (0xF0000, 0xFFFFD)
    ∷ (0x100000, 0x10FFFD)
    ∷ []

abbrev pub one_of : List ℕ → ℕ → Bool
one_of [] codepoint = false
one_of (c ∷ cs) codepoint = codepoint == c || one_of cs codepoint

abbrev in_ranges : List (ℕ × ℕ) → ℕ → Bool
in_ranges [] codepoint = false
in_ranges ((lo, hi) ∷ ranges) codepoint = within lo hi codepoint || in_ranges ranges codepoint

unfoldable pub is_url_codepoint : ℕ → Bool
is_url_codepoint codepoint =
    is_ascii_alphanumeric codepoint || one_of url_marks codepoint || in_ranges url_ranges codepoint

-- is_null_or_empty of Basic.String.h.
abbrev pub is_null_or_empty : Option (List ℕ) → Bool
is_null_or_empty none = true
is_null_or_empty (some []) = true
is_null_or_empty (some (c ∷ cs)) = false

-- as_base_10<uint16> of Basic.String.h: it stops at the first other character.
unfoldable pub port_number : ℕ → List ℕ → ℕ
port_number value [] = value
port_number value (c ∷ cs) =
    let value' = value * 10 % 2 ^ 16 in
    elim (base_10 c) [ none ↦ value' | some digit ↦ port_number ((value' + digit) % 2 ^ 16) cs ]

unfoldable pub get_port : Uri → Outcome ℕ
get_port uri = elim (is_null_or_empty uri.port) [
  | false ↦ elim uri.port [ none ↦ fatal | some port ↦ returns (port_number 0 port) ]
  | true ↦ scheme_port uri.scheme >>= λ port. elim port [
    | none ↦ returns 0
    | some port ↦ returns (port_number 0 port)
  ]
]
