-- ===== src/Basic/Utf8/Decoder.antt =====
-- class Utf8Decoder (Basic.Utf8Decoder.cpp). `errors` counts the entries that EmitDecoderError
-- writes to the debug log.
use webel.Prelude.{
  ℕ, ◌+◌, ◌-◌, ◌*◌, ◌^◌, Bool, not, ◌&&◌, List, [], ◌∷◌, ◌++◌, leb, ◌==◌, if◌then◌else◌,
}

pub record Decoder : Type 0 where
  pub needed : ℕ
  pub seen : ℕ
  pub codepoint : ℕ
  pub lower_bound : ℕ
  pub upper_bound : ℕ
  pub errors : ℕ

-- The state behind `set_destination`; `errors` is what the log held before.
abbrev pub set_destination : ℕ → Decoder
set_destination errors = record {
  needed = 0;
  seen = 0;
  codepoint = 0;
  lower_bound = 0x80;
  upper_bound = 0xBF;
  errors = errors;
}

abbrev pub within : ℕ → ℕ → ℕ → Bool
within lo hi c = leb lo c && leb c hi

abbrev pub replacement : ℕ
replacement = 0xFFFD

-- A call of `write_element`: the state behind it, and what it emits.
abbrev pub Emitting : Type 0
Emitting = Decoder × List ℕ

-- EmitDecoderError: one log entry, and U+FFFD.
emit_decoder_error : Decoder → Emitting
emit_decoder_error d = (record d { errors = d.errors + 1 }, replacement ∷ [])

-- `codepoint <<= 6 * needed`, behind the branches on the lead byte.
lead : Decoder → ℕ → ℕ → Emitting
lead d needed codepoint =
    (record d { needed = needed; codepoint = codepoint * 2 ^ (6 * needed) }, [])

-- The part of `write_element` under `needed == 0`.
unfoldable pub first_byte : Decoder → ℕ → Emitting
unfolding emit_decoder_error lead
first_byte d b =
    if leb b 0x7F
    then (d, b ∷ [])
    else if within 0xC2 0xDF b
    then lead d 1 (b - 0xC0)
    else if within 0xE0 0xEF b
    then lead
        (if b == 0xE0
          then record d { lower_bound = 0xA0 }
          else if b == 0xED
          then record d { upper_bound = 0x9F }
          else d)
        2 (b - 0xE0)
    else if within 0xF0 0xF4 b
    then lead
        (if b == 0xF0
          then record d { lower_bound = 0x90 }
          else if b == 0xF4
          then record d { upper_bound = 0x8F }
          else d)
        3 (b - 0xF0)
    else emit_decoder_error d

-- A byte outside the bounds: the state is reset, the error goes out, and the byte is read again.
unfoldable pub out_of_bounds : Decoder → ℕ → Emitting
unfolding emit_decoder_error first_byte
out_of_bounds d b =
    let (d', reported) = emit_decoder_error (set_destination d.errors) in
    let (d'', read) = first_byte d' b in (d'', reported ++ read)

-- A byte inside the bounds. The decoder emits when it has seen all that it needed.
unfoldable pub next_byte : Decoder → ℕ → Emitting
next_byte d b =
    let seen = d.seen + 1 in
    let codepoint = d.codepoint + (b - 0x80) * 2 ^ (6 * (d.needed - seen)) in
    if not (seen == d.needed)
    then (
      record d { lower_bound = 0x80; upper_bound = 0xBF; seen = seen; codepoint = codepoint },
      [],
    )
    else (
      record d { lower_bound = 0x80; upper_bound = 0xBF; seen = 0; needed = 0; codepoint = 0 },
      codepoint ∷ [],
    )

unfoldable pub write_element : Decoder → ℕ → Emitting
unfolding first_byte out_of_bounds next_byte
write_element d b =
    if d.needed == 0
    then first_byte d b
    else if not (within d.lower_bound d.upper_bound b)
    then out_of_bounds d b
    else next_byte d b

unfoldable pub write_elements : Decoder → List ℕ → Emitting
write_elements d [] = (d, [])
write_elements d (b ∷ bs) =
    let (d', out) = write_element d b in
    let (d'', more) = write_elements d' bs in (d'', out ++ more)

-- An unfinished sequence at the end is one decoder error. Only `needed` is reset.
unfoldable pub write_eof : Decoder → Emitting
unfolding emit_decoder_error
write_eof d = if not (d.needed == 0) then emit_decoder_error (record d { needed = 0 }) else (d, [])

-- What a fresh decoder makes of a whole byte sequence.
abbrev pub decode : List ℕ → Emitting
decode bs =
    let (d, out) = write_elements (set_destination 0) bs in
    let (d', last) = write_eof d in (d', out ++ last)
