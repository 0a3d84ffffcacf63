-- ===== src/Basic/Utf8/Scalar.antt =====
-- What the decoder holds between two bytes, and what it can emit (Basic.Utf8Decoder.cpp).
use native.Mathlib.Decide.{dec_lt}
use webel.Prelude.{
  ℕ, ◌+◌, ◌-◌, ◌*◌, ◌/◌, ◌%◌, ◌≤◌, ◌<◌, ◌≡◌, ◌⊎◌, inl, inr, List, [], ◌∷◌, ◌++◌, All, arith, ◌==◌,
  if◌then◌else◌,
}
use webel.Basic.Utf8.Decoder.{Decoder, set_destination, first_byte}
use webel.Basic.Utf8.Encoder.{encode_element, encode_elements}

-- A Unicode scalar value: a code point that is no surrogate.
abbrev pub IsScalar : ℕ → Type 0
IsScalar c = (c < 0x110000) × ((c < 0xD800) ⊎ (0xE000 ≤ c))

-- A decoder that waits for continuation bytes.
abbrev pub waiting : ℕ → ℕ → ℕ → ℕ → ℕ → ℕ → Decoder
waiting needed seen codepoint lower upper errors = record {
  needed = needed;
  seen = seen;
  codepoint = codepoint;
  lower_bound = lower;
  upper_bound = upper;
  errors = errors;
}

abbrev pub lower3 : ℕ → ℕ
lower3 k = if k == 0 then 0xA0 else 0x80

abbrev pub upper3 : ℕ → ℕ
upper3 k = if k == 13 then 0x9F else 0xBF

abbrev pub lower4 : ℕ → ℕ
lower4 k = if k == 0 then 0x90 else 0x80

abbrev pub upper4 : ℕ → ℕ
upper4 k = if k == 4 then 0x8F else 0xBF

-- The states between two bytes, each with the bytes of the sequence that it has taken. `k` and `v`
-- are the bits read so far.
pub data Reading : Decoder → List ℕ → Type 0 where
  idle : (e : ℕ) → Reading (set_destination e) []
  two : (e k : ℕ) → 2 ≤ k → k < 32 → Reading (waiting 1 0 (k * 64) 0x80 0xBF e) ((0xC0 + k) ∷ [])
  three :
      (e k : ℕ)
      → k < 16
      → Reading (waiting 2 0 (k * 4096) (lower3 k) (upper3 k) e) ((0xE0 + k) ∷ [])
  three_seen :
      (e v : ℕ)
      → 0x20 ≤ v
      → v < 0x400
      → (v < 0x360) ⊎ (0x380 ≤ v)
      → Reading (waiting 2 1 (v * 64) 0x80 0xBF e) ((0xE0 + v / 64) ∷ (0x80 + v % 64) ∷ [])
  four :
      (e k : ℕ)
      → k < 5
      → Reading (waiting 3 0 (k * 262144) (lower4 k) (upper4 k) e) ((0xF0 + k) ∷ [])
  four_seen :
      (e v : ℕ)
      → 0x10 ≤ v
      → v < 0x110
      → Reading (waiting 3 1 (v * 4096) 0x80 0xBF e) ((0xF0 + v / 64) ∷ (0x80 + v % 64) ∷ [])
  four_seen_two :
      (e v : ℕ)
      → 0x400 ≤ v
      → v < 0x4400
      → Reading
          (waiting 3 2 (v * 64) 0x80 0xBF e)
          ((0xF0 + v / 4096) ∷ (0x80 + v / 64 % 64) ∷ (0x80 + v % 64) ∷ [])

-- What a step keeps: the state is again one between two bytes, only scalar values go out, and, if
-- no error was logged, the output is exactly what the encoder writes as the bytes taken.
pub record Progress (ps : List ℕ) (b errors : ℕ) (r : Decoder × List ℕ) : Type 0 where
  pub held : List ℕ
  pub reading : Reading r.0 held
  pub scalars : All IsScalar r.1
  pub grows : errors ≤ r.0.errors
  pub exact :
      (replacement : ℕ)
      → r.0.errors ≡ errors
      → encode_elements replacement r.1 ++ held ≡ ps ++ b ∷ []

-- The branches on a lead byte.
data LeadByte : ℕ → Type 0 where
  ascii : {b : ℕ} → b < 0x80 → LeadByte b
  lead_two : {b : ℕ} → 0xC2 ≤ b → b < 0xE0 → LeadByte b
  lead_three : {b : ℕ} → 0xE0 ≤ b → b < 0xF0 → LeadByte b
  lead_four : {b : ℕ} → 0xF0 ≤ b → b < 0xF5 → LeadByte b
  no_lead : {b : ℕ} → (0x80 ≤ b) × (b < 0xC2) ⊎ (0xF5 ≤ b) → LeadByte b

lead_byte : (b : ℕ) → LeadByte b
lead_byte b = elim (dec_lt b 0x80) [
  | yes h ↦ ascii h
  | no h1 ↦ elim (dec_lt b 0xC2) [
    | yes h ↦ no_lead (inl (omega arith, h))
    | no h2 ↦ elim (dec_lt b 0xE0) [
      | yes h ↦ lead_two (omega arith) h
      | no h3 ↦ elim (dec_lt b 0xF0) [
        | yes h ↦ lead_three (omega arith) h
        | no h4 ↦ elim (dec_lt b 0xF5) [
          | yes h ↦ lead_four (omega arith) h
          | no h5 ↦ no_lead (inr (omega arith))
        ]
      ]
    ]
  ]
]

module _ (e b : ℕ) where
  first_ascii : b < 0x80 → first_byte (set_destination e) b ≡ (set_destination e, b ∷ [])
  unfolding first_byte
  first_ascii h = ground arith

  first_two :
      0xC2 ≤ b
      → b < 0xE0
      → first_byte (set_destination e) b ≡ (waiting 1 0 ((b - 0xC0) * 64) 0x80 0xBF e, [])
  unfolding first_byte
  first_two h k = ground arith

  pub first_three :
      0xE0 ≤ b
      → b < 0xF0
      → first_byte (set_destination e) b
        ≡ (waiting 2 0 ((b - 0xE0) * 4096) (lower3 (b - 0xE0)) (upper3 (b - 0xE0)) e, [])
  unfolding first_byte
  first_three h k = ground arith

  pub first_four :
      0xF0 ≤ b
      → b < 0xF5
      → first_byte (set_destination e) b
        ≡ (waiting 3 0 ((b - 0xF0) * 262144) (lower4 (b - 0xF0)) (upper4 (b - 0xF0)) e, [])
  unfolding first_byte
  first_four h k = ground arith

  first_no_lead :
      (0x80 ≤ b) × (b < 0xC2) ⊎ (0xF5 ≤ b)
      → first_byte (set_destination e) b ≡ (set_destination (e + 1), 0xFFFD ∷ [])
  unfolding first_byte
  first_no_lead h = ground arith

-- The encoder on what these bytes decode to.
encode_ascii : (r b : ℕ) → b < 0x80 → encode_element r b ≡ b ∷ []
unfolding encode_element
encode_ascii r b h = ground arith

pub encode_two :
    (r k j : ℕ)
    → 2 ≤ k
    → k < 32
    → j < 64
    → encode_element r (k * 64 + j) ≡ (0xC0 + k) ∷ (0x80 + j) ∷ []
unfolding encode_element
encode_two r k j h1 h2 h3 = ground arith

pub encode_three :
    (r v j : ℕ)
    → 0x20 ≤ v
    → v < 0x400
    → (v < 0x360) ⊎ (0x380 ≤ v)
    → j < 64
    → encode_element r (v * 64 + j) ≡ (0xE0 + v / 64) ∷ (0x80 + v % 64) ∷ (0x80 + j) ∷ []
unfolding encode_element
encode_three r v j h1 h2 h3 h4 = ground arith

pub encode_four :
    (r v j : ℕ)
    → 0x400 ≤ v
    → v < 0x4400
    → j < 64
    → encode_element r (v * 64 + j)
      ≡ (0xF0 + v / 4096) ∷ (0x80 + v / 64 % 64) ∷ (0x80 + v % 64) ∷ (0x80 + j) ∷ []
unfolding encode_element
encode_four r v j h1 h2 h3 = ground arith

-- A step from the idle state.
pub Progress-first : (e b : ℕ) → Progress [] b e (first_byte (set_destination e) b)
Progress-first e b = go (lead_byte b)
  where
    go : LeadByte b → Progress [] b e (first_byte (set_destination e) b)
    go (ascii h) = rw (first_ascii e b h) (record {
      held = [];
      reading = idle e;
      scalars = (ground arith, tt);
      grows = omega arith;
      exact = λ r q. unfold encode_elements in rw (encode_ascii r b h);
    })
    go (lead_two h k) = rw (first_two e b h k) (record {
      held = (0xC0 + (b - 0xC0)) ∷ [];
      reading = two e (b - 0xC0) (omega arith) (omega arith);
      scalars = tt;
      grows = omega arith;
      exact = λ r q. unfold encode_elements in ground arith;
    })
    go (lead_three h k) = rw (first_three e b h k) (record {
      held = (0xE0 + (b - 0xE0)) ∷ [];
      reading = three e (b - 0xE0) (omega arith);
      scalars = tt;
      grows = omega arith;
      exact = λ r q. unfold encode_elements in ground arith;
    })
    go (lead_four h k) = rw (first_four e b h k) (record {
      held = (0xF0 + (b - 0xF0)) ∷ [];
      reading = four e (b - 0xF0) (omega arith);
      scalars = tt;
      grows = omega arith;
      exact = λ r q. unfold encode_elements in ground arith;
    })
    go (no_lead h) = rw (first_no_lead e b h) (record {
      held = [];
      reading = idle (e + 1);
      scalars = (ground arith, tt);
      grows = omega arith;
      exact = λ r q. absurd (omega arith);
    })
