-- ===== src/Gzip/Bits.antt =====
-- Deflate::read_next (Gzip.Deflate.cpp): bits that are read from bytes, from the lowest bit on. The
-- conjunction with an entry of `masks` is a remainder; `|=` is a sum, since the bits that it joins
-- stand apart.
pub mod Reading
use webel.Prelude.{
  All, Bool-cases, List, Option, Outcome, [], ap, arith, false, fatal, if◌then◌else◌, inl, inr,
  length, ltb, ltb→lt, none, refl, returns, some, sym, true, ℕ, ◌%◌, ◌*◌, ◌+◌, ◌-◌, ◌/◌, ◌<◌, ◌>>=◌,
  ◌^◌, ◌∙◌, ◌∷◌, ◌≡◌, ◌≤◌, ◌⊎◌, two_pow_add, two_pow_le, two_pow_positive,
}
use webel.Basic.Frame.{Event, element_stream_ending, received_bytes, other_event}

pub record BitBuffer : Type 0 where
  pub buffered_bits : ℕ
  pub buffered_bits_length : ℕ

-- A byte behind the buffered bits; they are a uint32, and their length a byte.
unfoldable pub push_byte : BitBuffer → ℕ → BitBuffer
push_byte s b = record {
  buffered_bits = s.buffered_bits + b * 2 ^ s.buffered_bits_length % 2 ^ 32;
  buffered_bits_length = (s.buffered_bits_length + 8) % 256;
}

-- The loop, over the bytes of the event: the buffer and the bytes that are left.
unfoldable pub fill : ℕ → BitBuffer → List ℕ → BitBuffer × List ℕ
fill count s [] = (s, [])
fill count s (b ∷ bs) = elim (ltb s.buffered_bits_length count) [
  | true ↦ fill count (push_byte s b) bs
  | false ↦ (s, b ∷ bs)
]

-- The number that is read, and the buffer behind it. `masks` has no entry for 16: a read past it
-- stands as `fatal`.
unfoldable pub take_bits : ℕ → BitBuffer → Outcome (ℕ × BitBuffer)
take_bits count s =
    let rest = (s.buffered_bits_length - count) in
    if ltb 15 count
    then fatal
    else if ltb 7 rest
    then fatal
    else returns (
      s.buffered_bits % 2 ^ count,
      record { buffered_bits = s.buffered_bits / 2 ^ count; buffered_bits_length = rest },
    )

-- A call of read_next: `none` is process_result_blocked.
abbrev pub Read : Type 0
Read = Outcome (Option ℕ × BitBuffer × Event)

-- Behind the loop.
unfoldable pub filled : ℕ → BitBuffer × List ℕ → Read
filled count (s, rest) =
    if ltb s.buffered_bits_length count
    then returns (none, s, received_bytes rest)
    else take_bits count s >>= λ (w, s'). returns (some w, s', received_bytes rest)

-- On the other events the loop stops at its first Event::ReadNext.
unfoldable pub read_next_bits : ℕ → BitBuffer → Event → Read
read_next_bits count s (received_bytes bs) =
    if ltb 16 count then fatal else filled count (fill count s bs)
read_next_bits count s element_stream_ending =
    if ltb 16 count
    then fatal
    else if ltb s.buffered_bits_length count
    then returns (none, s, element_stream_ending)
    else take_bits count s >>= λ (w, s'). returns (some w, s', element_stream_ending)
read_next_bits count s (other_event type) =
    if ltb 16 count
    then fatal
    else if ltb s.buffered_bits_length count
    then fatal
    else take_bits count s >>= λ (w, s'). returns (some w, s', other_event type)
