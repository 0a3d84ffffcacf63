-- ===== src/Basic/Uri/Runs.antt =====
-- Runs of Uri::Parse, and its theorems at Uris (Basic.Uri.cpp).
use webel.Basic.Uri.Writing.{
  write_credentials, write_authority, write_scheme, write_place, write_to_stream,
}
use webel.Basic.Uri.Parser.Paths.{dots}
use webel.Prelude.{
  Bool, List, [], arith, fatal, inl, none, refl, returns, some, true, ℕ, ◌%◌, ◌++◌, ◌/◌, ◌∷◌, ◌≡◌,
}
use webel.Basic.Uri.Faults.{parse-file}
use webel.Basic.Uri.Parser.{look}
use webel.Basic.Numbers.{hex_digit, lower_case}
use webel.Basic.Uri.{false, Uri, initialized, same_text, file_scheme, is_ascii_digit}
use webel.Basic.Uri.Encoding.{default_encode_anti_set, host_parse}
use webel.Basic.Uri.Encoding.RoundTrip.{IsPercentFormat, encode_text, host_parse-encode_text}
use webel.Basic.Uri.Parser.Hosts.{trimmed}
use webel.Basic.Uri.Parser.Loop.{parse_loop, begun, parse}
use webel.Basic.Uri.Progress.Termination.{parse-ends}
use webel.Basic.Uri.Progress.Safety.{parse-returns}
use webel.Basic.Uri.RoundTrip.Whole.{absolute, parse-absolute}

-- What vsprintf_s gives for a byte.
abbrev percent_text : ℕ → List ℕ
percent_text b = b'%' ∷ hex_digit (b / 16) ∷ hex_digit (b % 16) ∷ []

-- ftp://h:81/x/y?q#f
abbrev parts : Uri
parts =
    absolute (b'f' ∷ b't' ∷ b'p' ∷ []) (b'h' ∷ []) (b'8' ∷ b'1' ∷ [])
      ((b'x' ∷ []) ∷ (b'y' ∷ []) ∷ []) (some (b'q' ∷ [])) (some (b'f' ∷ []))

abbrev parts_text : List ℕ
parts_text =
    b'f' ∷ b't' ∷ b'p' ∷ b':' ∷ b'/' ∷ b'/' ∷ b'h' ∷ b':' ∷ b'8' ∷ b'1' ∷ b'/' ∷ b'x' ∷ b'/' ∷ b'y'
    ∷ b'?' ∷ b'q' ∷ b'#' ∷ b'f' ∷ []

parse-absolute_example : parse percent_text none none parts_text initialized ≡ returns (true, parts)
unfolding same_text is_ascii_digit trimmed dots lower_case write_to_stream write_scheme write_place
    write_authority write_credentials
parse-absolute_example =
    parse-absolute percent_text b'f' (b't' ∷ b'p' ∷ []) (b'2' ∷ b'1' ∷ []) b'h' []
      (b'8' ∷ b'1' ∷ []) (b'x' ∷ []) ((b'y' ∷ []) ∷ []) (some (b'q' ∷ [])) (some (b'f' ∷ []))
      parts_text (refl, (refl, (refl, tt))) refl refl (refl, tt) ((refl, (refl, tt)), refl, refl)
      (((refl, tt), refl, refl, refl), (((refl, tt), refl, refl, refl), tt)) (refl, tt) (refl, tt)
      refl (omega arith)

-- A reference against that Uri: ../z
abbrev reference : List ℕ
reference = b'.' ∷ b'.' ∷ b'/' ∷ b'z' ∷ []

parse-returns_example :
    (result : Bool × Uri) × (parse percent_text (some parts) none reference initialized
      ≡ returns result)
parse-returns_example =
    parse-returns percent_text parts refl (b'x' ∷ []) ((b'y' ∷ []) ∷ []) refl reference
      (omega arith) initialized
      (record { has_scheme = refl; has_scheme_data = refl; has_username = refl })

parse-ends_example :
    parse_loop percent_text
      (some parts)
      none
      reference
      (returns (false, parts))
      1000
      (begun percent_text (some parts) none reference initialized)
    ≡ parse percent_text (some parts) none reference initialized
parse-ends_example =
    parse-ends percent_text (some parts) none reference (omega arith) initialized
      (returns (false, parts)) 1000 (omega arith)

percent_text-IsPercentFormat : IsPercentFormat percent_text
percent_text-IsPercentFormat b h = refl

-- The text of e with an acute accent and of a space.
host_parse-encode_text_example :
    host_parse (encode_text percent_text default_encode_anti_set (0xE9 ∷ 0x20 ∷ []))
    ≡ some (0xE9 ∷ 0x20 ∷ [])
host_parse-encode_text_example =
    host_parse-encode_text percent_text percent_text-IsPercentFormat 0xE9 (0x20 ∷ []) (
      ((omega arith, inl (omega arith)), omega arith),
      (((omega arith, inl (omega arith)), omega arith), tt),
    )

-- The leading zero takes the port away.
leading_zero : trimmed (b'0' ∷ b'8' ∷ b'1' ∷ []) ≡ []
unfolding trimmed
leading_zero = refl

-- The text: file:x
parse-file_example :
    parse percent_text none none (file_scheme ++ b':' ∷ b'x' ∷ []) initialized ≡ fatal
unfolding look
parse-file_example = parse-file percent_text (b'x' ∷ []) initialized (omega arith) refl
