-- ===== src/Basic/Utf8/Runs.antt =====
-- Runs of the UTF-8 coders, and their theorems at concrete inputs.
use webel.Prelude.{ℕ, ◌≡◌, refl, List, [], ◌∷◌, All, arith}
use webel.Basic.Utf8.Decoder.{set_destination, write_elements, write_element, write_eof, decode}
use webel.Basic.Utf8.Encoder.{encode_element, encode_elements}
use webel.Basic.Utf8.Scalar.{IsScalar}
use webel.Basic.Utf8.Strict.{decode-IsScalar, encode-decode}
use webel.Basic.Utf8.RoundTrip.{decode-encode}

-- "a", U+E9, U+20AC, U+1F600
abbrev four_lengths : List ℕ
four_lengths = 0x61 ∷ 0xE9 ∷ 0x20AC ∷ 0x1F600 ∷ []

abbrev four_lengths_bytes : List ℕ
four_lengths_bytes = 0x61 ∷ 0xC3 ∷ 0xA9 ∷ 0xE2 ∷ 0x82 ∷ 0xAC ∷ 0xF0 ∷ 0x9F ∷ 0x98 ∷ 0x80 ∷ []

encode_four_lengths : encode_elements 0x7F four_lengths ≡ four_lengths_bytes
unfolding encode_elements encode_element
encode_four_lengths = refl

-- An overlong form, a surrogate and a cut sequence.
decode_bad :
    (decode (0xC0 ∷ 0x80 ∷ 0xED ∷ 0xA0 ∷ 0x80 ∷ 0x41 ∷ 0xE2 ∷ 0x82 ∷ [])).1
    ≡ 0xFFFD ∷ 0xFFFD ∷ 0xFFFD ∷ 0xFFFD ∷ 0xFFFD ∷ 0x41 ∷ 0xFFFD ∷ []
unfolding write_elements write_element write_eof
decode_bad = refl

-- A code point above 0x10FFFF goes out as its low byte, with no error.
encode_too_large : encode_element 0x7F 0x110041 ≡ 0x41 ∷ []
unfolding encode_element
encode_too_large = refl

decode-four_lengths : decode four_lengths_bytes ≡ (set_destination 0, four_lengths)
unfolding write_elements write_element write_eof
decode-four_lengths = refl

decode-IsScalar_example : All IsScalar (decode (0xED ∷ 0xA0 ∷ 0x80 ∷ 0x41 ∷ 0xE2 ∷ [])).1
decode-IsScalar_example = decode-IsScalar (0xED ∷ 0xA0 ∷ 0x80 ∷ 0x41 ∷ 0xE2 ∷ [])

encode-decode_example : encode_elements 0x3F (decode four_lengths_bytes).1 ≡ four_lengths_bytes
unfolding write_elements write_element write_eof
encode-decode_example = encode-decode 0x3F four_lengths_bytes refl

decode-encode_example :
    decode (encode_elements 0x3F four_lengths) ≡ (set_destination 0, four_lengths)
decode-encode_example = decode-encode 0x3F four_lengths (omega arith)
