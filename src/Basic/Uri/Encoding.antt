-- ===== src/Basic/Uri/Encoding.antt =====
-- Percent encoding (Basic.Uri.cpp, the sets of Basic.Globals.cpp).
pub mod RoundTrip
use webel.Prelude.{
  Bool, List, Option, [], if◌then◌else◌, none, not, some, ℕ, ◌%◌, ◌&&◌, ◌*◌, ◌++◌, ◌+◌, ◌==◌, ◌||◌,
  ◌∷◌,
}
use webel.Basic.Numbers.{within, base_16}
use webel.Basic.Utf8.Encoder.{encode_element, error_replacement_byte}
use webel.Basic.Utf8.Decoder.{set_destination, write_elements}

unfoldable pub simple_encode_anti_set : ℕ → Bool
simple_encode_anti_set codepoint = within 0x20 0x7E codepoint

unfoldable pub default_encode_anti_set : ℕ → Bool
default_encode_anti_set codepoint =
    simple_encode_anti_set codepoint
    && not (
        codepoint == 0x20
        || codepoint == 0x22
        || codepoint == 0x23
        || codepoint == 0x3C
        || codepoint == 0x3E
        || codepoint == 0x3F
        || codepoint == 0x60)

-- as_base_16<byte> of Basic.String.h, of two characters, where all of them are digits.
abbrev decoded_byte : ℕ → ℕ → Option ℕ
decoded_byte high low = elim (base_16 high) [
  | none ↦ none
  | some h ↦ elim (base_16 low) [ none ↦ none | some l ↦ some ((h * 0x10 + l) % 256) ]
]

unfoldable pub percent_decode : List ℕ → List ℕ
percent_decode [] = []
percent_decode (c ∷ []) = c % 256 ∷ []
percent_decode (c ∷ d ∷ []) = c % 256 ∷ d % 256 ∷ []
percent_decode (c ∷ d ∷ e ∷ rest) =
    let plain = c % 256 ∷ percent_decode (d ∷ e ∷ rest) in
    if c == b'%'
    then elim (decoded_byte d e) [ none ↦ plain | some b ↦ b ∷ percent_decode rest ]
    else plain

-- host_parse: `none` is false. The decoder gets no end of the stream.
unfoldable pub host_parse : List ℕ → Option (List ℕ)
host_parse [] = none
host_parse (c ∷ input) = some (write_elements (set_destination 0) (percent_decode (c ∷ input))).1

-- `percent_format` is the text that vsprintf_s gives for "%%%02X".
module _ (percent_format : ℕ → List ℕ) where
  -- percent_encode, of each byte.
  unfoldable pub percent_encode : List ℕ → List ℕ
  percent_encode [] = []
  percent_encode (b ∷ bs) = percent_format b ++ percent_encode bs

  unfoldable pub utf_8_percent_encode : ℕ → (ℕ → Bool) → List ℕ
  utf_8_percent_encode codepoint anti_set =
      if anti_set codepoint
      then codepoint ∷ []
      else percent_encode (encode_element error_replacement_byte codepoint)
