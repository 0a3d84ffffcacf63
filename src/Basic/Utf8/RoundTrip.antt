-- ===== src/Basic/Utf8/RoundTrip.antt =====
-- The decoder reads back what the encoder writes (Basic.Utf8Decoder.cpp, Basic.Utf8Encoder.cpp).
use native.Mathlib.Decide.{dec_lt}
use webel.Prelude.{
  ℕ, ◌+◌, ◌-◌, ◌*◌, ◌/◌, ◌%◌, ◌≤◌, ◌<◌, ◌≡◌, refl, ◌⊎◌, ap, ◌∙◌, append-nil, List, [], ◌∷◌, ◌++◌,
  All, arith,
}
use webel.Basic.Utf8.Decoder.{
  Decoder, set_destination, write_element, write_elements, write_eof, decode,
}
use webel.Basic.Utf8.Encoder.{encode_element, encode_elements}
use webel.Basic.Utf8.Scalar.{IsScalar, first_three, first_four}
use webel.Basic.Utf8.Strict.{
  write_idle, inside_three, inside_three_seen, inside_four, inside_four_seen, inside_four_seen_two,
}

module _ (d d' : Decoder) (b : ℕ) (bs : List ℕ) where
  -- A byte behind which nothing goes out, and the last byte of a sequence.
  step : write_element d b ≡ (d', []) → write_elements d (b ∷ bs) ≡ write_elements d' bs
  unfolding write_elements
  step e = rw e refl

last :
    (d : Decoder) (b v : ℕ) {e c : ℕ} (rest : List ℕ)
    → write_element d b ≡ (set_destination e, (v * 64 + (b - 0x80)) ∷ [])
    → v * 64 + (b - 0x80) ≡ c
    → write_elements d (b ∷ rest) ≡ (
      (write_elements (set_destination e) rest).0,
      c ∷ (write_elements (set_destination e) rest).1,
    )
unfolding write_elements
last d b v rest q p = rw (q, p) refl

module _ (r c : ℕ) where
  bytes_one : c < 0x80 → encode_element r c ≡ c ∷ []
  unfolding encode_element
  bytes_one h = ground arith

  bytes_two : 0x80 ≤ c → c < 0x800 → encode_element r c ≡ (0xC0 + c / 64) ∷ (0x80 + c % 64) ∷ []
  unfolding encode_element
  bytes_two h k = ground arith

  bytes_three :
      0x800 ≤ c
      → c < 0x10000
      → (c < 0xD800) ⊎ (0xE000 ≤ c)
      → encode_element r c ≡ (0xE0 + c / 4096) ∷ (0x80 + c / 64 % 64) ∷ (0x80 + c % 64) ∷ []
  unfolding encode_element
  bytes_three h k s = ground arith

  bytes_four :
      0x10000 ≤ c
      → c < 0x110000
      → encode_element r c
        ≡ (0xF0 + c / 262144) ∷ (0x80 + c / 4096 % 64) ∷ (0x80 + c / 64 % 64) ∷ (0x80 + c % 64) ∷ []
  unfolding encode_element
  bytes_four h k = ground arith

-- The code point `c` is read off the front of the input, and the decoder is idle again.
module _ (e c : ℕ) (rest : List ℕ) where
  abbrev Reads : List ℕ → Type 0
  Reads bs =
      let (d, out) = write_elements (set_destination e) rest in
      write_elements (set_destination e) (bs ++ rest) ≡ (d, c ∷ out)

  Reads-one : c < 0x80 → Reads (c ∷ [])
  unfolding write_elements write_element
  Reads-one h = ground arith

  Reads-two : 0x80 ≤ c → c < 0x800 → Reads ((0xC0 + c / 64) ∷ (0x80 + c % 64) ∷ [])
  unfolding write_elements write_element
  Reads-two h k = ground arith

  Reads-three :
      0x800 ≤ c
      → c < 0x10000
      → (c < 0xD800) ⊎ (0xE000 ≤ c)
      → Reads ((0xE0 + c / 4096) ∷ (0x80 + c / 64 % 64) ∷ (0x80 + c % 64) ∷ [])
  Reads-three h k s =
      let b1 = 0xE0 + c / 4096 in
      let b2 = 0x80 + c / 64 % 64 in
      let b3 = 0x80 + c % 64 in
      step _ _ b1 _ (write_idle e b1 ∙ first_three e b1 (omega arith) (omega arith))
      ∙ step _ _ b2 _ (inside_three e b2 (b1 - 0xE0) (ground arith) (ground arith))
      ∙ last _ b3 ((b1 - 0xE0) * 64 + (b2 - 0x80)) rest
          (inside_three_seen e b3 _ (omega arith) (omega arith)) (omega arith)

  Reads-four :
      0x10000 ≤ c
      → c < 0x110000
      → Reads (
          (0xF0 + c / 262144)
          ∷ (0x80 + c / 4096 % 64)
          ∷ (0x80 + c / 64 % 64)
          ∷ (0x80 + c % 64)
          ∷ [])
  Reads-four h k =
      let b1 = 0xF0 + c / 262144 in
      let b2 = 0x80 + c / 4096 % 64 in
      let b3 = 0x80 + c / 64 % 64 in
      let b4 = 0x80 + c % 64 in
      step _ _ b1 _ (write_idle e b1 ∙ first_four e b1 (omega arith) (omega arith))
      ∙ step _ _ b2 _ (inside_four e b2 (b1 - 0xF0) (ground arith) (ground arith))
      ∙ step _ _ b3 _
          (inside_four_seen e b3 ((b1 - 0xF0) * 64 + (b2 - 0x80)) (omega arith) (omega arith))
      ∙ last _ b4 (((b1 - 0xF0) * 64 + (b2 - 0x80)) * 64 + (b3 - 0x80)) rest
          (inside_four_seen_two e b4 _ (omega arith) (omega arith)) (omega arith)

-- The encoder's bytes for a scalar value are read back as that value.
reads : (e r c : ℕ) (rest : List ℕ) → IsScalar c → Reads e c rest (encode_element r c)
reads e r c rest (h, s) = elim (dec_lt c 0x80) [
  | yes h1 ↦ rw (bytes_one r c h1) (Reads-one e c rest h1)
  | no h1 ↦ elim (dec_lt c 0x800) [
    | yes h2 ↦ rw (bytes_two r c (omega arith) h2) (Reads-two e c rest (omega arith) h2)
    | no h2 ↦ elim (dec_lt c 0x10000) [
      | yes h3 ↦ rw (bytes_three r c (omega arith) h3 s) (Reads-three e c rest (omega arith) h3 s)
      | no h3 ↦ rw (bytes_four r c (omega arith) h) (Reads-four e c rest (omega arith) h)
    ]
  ]
]

pub write_elements-encode_elements :
    (e r : ℕ) (cs : List ℕ)
    → All IsScalar cs
    → write_elements (set_destination e) (encode_elements r cs) ≡ (set_destination e, cs)
unfolding encode_elements
write_elements-encode_elements e r [] h = unfold write_elements in refl
write_elements-encode_elements e r (c ∷ cs) (h, hs) =
    reads e r c (encode_elements r cs) h
    ∙ ap (λ p. (p.0, c ∷ p.1)) (write_elements-encode_elements e r cs hs)

-- For every list of Unicode scalar values, decoding what the encoder wrote gives the list back,
-- with no error in the log, whatever the replacement byte is.
pub decode-encode :
    (replacement : ℕ) (cs : List ℕ)
    → All IsScalar cs
    → decode (encode_elements replacement cs) ≡ (set_destination 0, cs)
unfolding write_eof
decode-encode r cs h =
    rw (write_elements-encode_elements 0 r cs h) (ap (λ t. (set_destination 0, t)) (append-nil cs))
