-- ===== src/Basic/Utf8/Encoder.antt =====
-- class Utf8Encoder (Basic.Utf8Encoder.cpp). A Codepoint is an int32; it stands here as its 32-bit
-- pattern, a number below 2 ^ 32. All tests on it are ranges that start at 0 or above and end below
-- 2 ^ 31, and these read the same on the pattern; a negative value is shifted by 0 bits only.
use webel.Prelude.{
  ℕ, zero, suc, ◌+◌, ◌*◌, ◌/◌, ◌%◌, ◌^◌, List, [], ◌∷◌, ◌++◌, leb, ◌==◌, if◌then◌else◌,
}
use webel.Basic.Utf8.Decoder.{within}

-- `#define EOF ((Codepoint)-1)`
abbrev pub eof : ℕ
eof = 0xFFFFFFFF

-- Utf8Encoder(): the replacement that is in force unless another is set.
abbrev pub error_replacement_byte : ℕ
error_replacement_byte = 0x7F

-- `while (count > 0)`: the continuation bytes, from the highest group of six bits down.
unfoldable pub continuation_bytes : ℕ → ℕ → List ℕ
continuation_bytes zero codepoint = []
continuation_bytes (suc count) codepoint =
    (0x80 + codepoint / 2 ^ (6 * count) % 64) % 256 ∷ continuation_bytes count codepoint

-- The first byte and those behind it.
unfoldable pub sequence : ℕ → ℕ → ℕ → List ℕ
unfolding continuation_bytes
sequence count offset codepoint =
    (codepoint / 2 ^ (6 * count) + offset) % 256 ∷ continuation_bytes count codepoint

-- `replacement` is the member error_replacement_byte.
unfoldable pub encode_element : ℕ → ℕ → List ℕ
unfolding sequence
encode_element replacement codepoint =
    if codepoint == eof
    then []
    else if leb codepoint 0x7F
    then codepoint % 256 ∷ []
    else if within 0xD800 0xDFFF codepoint
    then replacement ∷ []
    else if within 0x80 0x7FF codepoint
    then sequence 1 0xC0 codepoint
    else if within 0x800 0xFFFF codepoint
    then sequence 2 0xE0 codepoint
    else if within 0x10000 0x10FFFF codepoint
    then sequence 3 0xF0 codepoint
    else sequence 0 0 codepoint

unfoldable pub encode_elements : ℕ → List ℕ → List ℕ
encode_elements replacement [] = []
encode_elements replacement (c ∷ cs) =
    encode_element replacement c ++ encode_elements replacement cs
