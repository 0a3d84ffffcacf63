-- ===== src/Basic/Uri/Encoding/RoundTrip.antt =====
-- What percent encoding writes is read back (Basic.Uri.cpp).
use webel.Prelude.{
  All, Bool, Bool-cases, List, [], ap, arith, inl, inr, ne→==, refl, some, sym, true, ℕ, ◌%◌, ◌++◌,
  ◌/◌, ◌<◌, ◌∙◌, ◌∷◌, ◌≡◌, ◌≢◌,
}
use webel.Basic.Numbers.{hex_digit, base_16-hex_digit}
use webel.Basic.Utf8.Encoder.{
  error_replacement_byte, continuation_bytes, sequence, encode_element, encode_elements,
}
use webel.Basic.Utf8.Decoder.{set_destination, write_elements}
use webel.Basic.Utf8.Scalar.{IsScalar}
use webel.Basic.Utf8.RoundTrip.{write_elements-encode_elements}
use webel.Basic.Uri.Encoding.{
  simple_encode_anti_set, default_encode_anti_set, percent_decode, host_parse, percent_encode,
  utf_8_percent_encode,
}

-- The format "%%%02X" of vsprintf_s: a percent sign, and two digits.
abbrev pub IsPercentFormat : (ℕ → List ℕ) → Type 0
IsPercentFormat percent_format =
    (b : ℕ) → b < 256 → percent_format b ≡ b'%' ∷ hex_digit (b / 16) ∷ hex_digit (b % 16) ∷ []

pub percent_decode-plain :
    (c : ℕ) (rest : List ℕ) → c ≢ b'%' → percent_decode (c ∷ rest) ≡ c % 256 ∷ percent_decode rest
unfolding percent_decode
percent_decode-plain c [] h = refl
percent_decode-plain c (d ∷ []) h = refl
percent_decode-plain c (d ∷ e ∷ rest) h = rw (ne→== c b'%' h) refl

percent_decode-digits :
    (b : ℕ) (rest : List ℕ)
    → b < 256
    → percent_decode (b'%' ∷ hex_digit (b / 16) ∷ hex_digit (b % 16) ∷ rest)
      ≡ b ∷ percent_decode rest
unfolding percent_decode
percent_decode-digits b rest h =
    rw (base_16-hex_digit (b / 16) (omega arith), base_16-hex_digit (b % 16) (omega arith))
      (ap (λ (t : ℕ). t ∷ percent_decode rest) (omega arith))

-- The encoding of a text, code point by code point.
unfoldable pub encode_text : (ℕ → List ℕ) → (ℕ → Bool) → List ℕ → List ℕ
encode_text percent_format anti_set [] = []
encode_text percent_format anti_set (c ∷ cs) =
    utf_8_percent_encode percent_format c anti_set ++ encode_text percent_format anti_set cs

-- A byte of the default set is its own encoding.
pub encode_element-ascii :
    (c : ℕ)
    → default_encode_anti_set c ≡ true
    → encode_element error_replacement_byte c ≡ c % 256 ∷ []
unfolding encode_element default_encode_anti_set simple_encode_anti_set
encode_element-ascii c e = ground arith

encode_element-bytes : (c : ℕ) → All (λ b. b < 256) (encode_element error_replacement_byte c)
unfolding encode_element sequence continuation_bytes
encode_element-bytes c = ground arith

host_parse-decoded :
    (text : List ℕ) (c : ℕ) (cs : List ℕ)
    → (write_elements (set_destination 0) (percent_decode text)).1 ≡ c ∷ cs
    → host_parse text ≡ some (c ∷ cs)
unfolding host_parse percent_decode write_elements
host_parse-decoded [] c cs e = cc
host_parse-decoded (t ∷ ts) c cs e = ap some e

-- A Unicode scalar value that is no percent sign.
abbrev pub IsPlain : ℕ → Type 0
IsPlain c = IsScalar c × (c ≢ b'%')

plain_scalars : (cs : List ℕ) → All IsPlain cs → All IsScalar cs
plain_scalars [] h = tt
plain_scalars (c ∷ cs) ((h, p), hs) = (h, plain_scalars cs hs)

module _ (percent_format : ℕ → List ℕ) (format_law : IsPercentFormat percent_format) where
  percent_decode-percent_encode :
      (bs rest : List ℕ)
      → All (λ b. b < 256) bs
      → percent_decode (percent_encode percent_format bs ++ rest) ≡ bs ++ percent_decode rest
  unfolding percent_encode
  percent_decode-percent_encode [] rest h = refl
  percent_decode-percent_encode (b ∷ bs) rest (h, hs) =
      rw (format_law b h, percent_decode-digits b (percent_encode percent_format bs ++ rest) h)
        (ap (λ t. b ∷ t) (percent_decode-percent_encode bs rest hs))

  percent_decode-utf_8_percent_encode :
      (c : ℕ) (rest : List ℕ)
      → IsPlain c
      → percent_decode (utf_8_percent_encode percent_format c default_encode_anti_set ++ rest)
        ≡ encode_element error_replacement_byte c ++ percent_decode rest
  unfolding utf_8_percent_encode
  percent_decode-utf_8_percent_encode c rest (scalar, h) =
      elim (Bool-cases (default_encode_anti_set c)) [
        | inl e ↦
            rw (e, percent_decode-plain c rest h)
              (ap (λ t. t ++ percent_decode rest) (sym (encode_element-ascii c e)))
        | inr e ↦ rw e (percent_decode-percent_encode _ rest (encode_element-bytes c))
      ]

  percent_decode-encode_text :
      (cs : List ℕ)
      → All IsPlain cs
      → percent_decode (encode_text percent_format default_encode_anti_set cs)
        ≡ encode_elements error_replacement_byte cs
  unfolding encode_text encode_elements percent_decode
  percent_decode-encode_text [] h = refl
  percent_decode-encode_text (c ∷ cs) (h, hs) =
      percent_decode-utf_8_percent_encode c _ h
      ∙ ap (λ t. encode_element error_replacement_byte c ++ t) (percent_decode-encode_text cs hs)

  -- Where vsprintf_s prints a byte as a percent sign and two hexadecimal digits, a host that is
  -- written with utf_8_percent_encode, by default_encode_anti_set, is parsed to the text itself, for
  -- every text of Unicode scalar values that is not empty and has no percent sign.
  pub host_parse-encode_text :
      (c : ℕ) (cs : List ℕ)
      → All IsPlain (c ∷ cs)
      → host_parse (encode_text percent_format default_encode_anti_set (c ∷ cs)) ≡ some (c ∷ cs)
  host_parse-encode_text c cs h = host_parse-decoded _ c cs (
      ap (λ t. (write_elements (set_destination 0) t).1) (percent_decode-encode_text (c ∷ cs) h)
      ∙ ap (λ d. d.1)
          (write_elements-encode_elements 0 error_replacement_byte (c ∷ cs)
            (plain_scalars (c ∷ cs) h)))
