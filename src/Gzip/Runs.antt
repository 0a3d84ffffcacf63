-- ===== src/Gzip/Runs.antt =====
-- Runs of the decompressor, and the theorems at them.
use webel.Prelude.{
  List, Outcome, [], arith, false, get_elem?, length, none, refl, returns, some, true, ℕ, ◌*◌, ◌++◌,
  ◌+◌, ◌-◌, ◌<◌, ◌>>=◌, ◌^◌, ◌∷◌, ◌≡◌, ◌≤◌, ◌⊎◌,
}
use webel.Basic.Frame.{
  ProcessResult, blocked, ready, exited, Event, received_bytes, read_next, read, Processed,
  process_event_loop, process_event, process_event_change_state_on_fail,
}
use webel.Basic.NumberFrame.{receive_byte, number_step, receive_elements, stream_step}
use webel.Gzip.Bits.{BitBuffer, push_byte, fill, take_bits, filled, read_next_bits}
use webel.Gzip.Bits.Reading.{bits, bit_count, IsReady, read_next-bits}
use webel.Gzip.Huffman.{
  Alphabet, null_alphabet, node, validate, count_length, length_counts, first_codes, place,
  place_symbols, with_counts, make_alphabet,
}
use webel.Gzip.Huffman.Symbols.{read_symbol, IsSound, read_symbol-make_alphabet}
use webel.Gzip.Deflate.{
  State, bfinal_state, btype_state, uncompressed_data_state, length_code_state,
  after_extra_distance_bits_state, done_state, Deflate, initial, goto, write_output, reading,
}
use webel.Gzip.Deflate.Blocks.{
  in_next_block, in_bfinal, in_btype, through, in_len, behind_nlen, in_nlen, in_uncompressed_data,
}
use webel.Gzip.Deflate.Machine.{copy, in_after_extra_distance_bits, dispatch, deflate_process}
use webel.Gzip.Deflate.Copy.{in_after_extra_distance_bits-copies}
use webel.Gzip.Deflate.Invariant.{IsWell}
use webel.Gzip.Deflate.Invariant.States.{process_event-IsWell}

-- Two bits of the byte 0x5A are buffered, and 13 are asked for.
abbrev two_bits : BitBuffer
two_bits = record { buffered_bits = 2; buffered_bits_length = 2 }

read_next-bits_example :
    ((13 ≤ bit_count two_bits (0x5A ∷ 0xC3 ∷ 0x01 ∷ []))
      × ((w : ℕ) × (s' : BitBuffer) × (rest : List ℕ) × (read_next_bits 13 two_bits
              (received_bytes (0x5A ∷ 0xC3 ∷ 0x01 ∷ []))
            ≡ returns (some w, s', received_bytes rest))
          × (w < 2 ^ 13)
          × (bits two_bits (0x5A ∷ 0xC3 ∷ 0x01 ∷ []) ≡ w + 2 ^ 13 * bits s' rest)
          × (bit_count two_bits (0x5A ∷ 0xC3 ∷ 0x01 ∷ []) ≡ 13 + bit_count s' rest)
          × IsReady 0 s'))
    ⊎ ((bit_count two_bits (0x5A ∷ 0xC3 ∷ 0x01 ∷ []) < 13)
        × ((s' : BitBuffer) × (read_next_bits 13 two_bits (received_bytes (0x5A ∷ 0xC3 ∷ 0x01 ∷ []))
              ≡ returns (none, s', received_bytes []))
            × (bits s' [] ≡ bits two_bits (0x5A ∷ 0xC3 ∷ 0x01 ∷ []))
            × (bit_count s' [] ≡ bit_count two_bits (0x5A ∷ 0xC3 ∷ 0x01 ∷ []))
            × IsReady 13 s'))
read_next-bits_example =
    read_next-bits 13 two_bits (0x5A ∷ 0xC3 ∷ 0x01 ∷ []) (omega arith)
      (omega arith, (omega arith, (omega arith, tt))) (omega arith, omega arith)

-- The lengths of a small alphabet: a code of one bit and two of two bits.
abbrev small_lengths : List ℕ
small_lengths = 1 ∷ 2 ∷ 2 ∷ []

abbrev small_alphabet : Alphabet
small_alphabet =
    node (node null_alphabet null_alphabet 0 1 0)
      (node (node null_alphabet null_alphabet 2 2 1) (node null_alphabet null_alphabet 3 2 2) 0 0 0)
      0 0 0

make_alphabet_small : make_alphabet 256 3 small_lengths ≡ returns (some small_alphabet)
unfolding make_alphabet with_counts length_counts count_length first_codes place_symbols place
    validate
make_alphabet_small = refl

-- Three codes of one bit are refused.
make_alphabet_crowded : make_alphabet 256 3 (1 ∷ 1 ∷ 1 ∷ []) ≡ returns none
unfolding make_alphabet with_counts length_counts count_length first_codes place_symbols place
    validate
make_alphabet_crowded = refl

read_symbol-make_alphabet_example :
    IsSound 0 0 (true ∷ false ∷ true ∷ []) (read_symbol small_alphabet (true ∷ false ∷ true ∷ []))
read_symbol-make_alphabet_example =
    read_symbol-make_alphabet 256 3 small_lengths small_alphabet (true ∷ false ∷ true ∷ [])
      make_alphabet_small refl

-- The last three of four bytes, five times over.
abbrev matching : Deflate
matching = record initial {
  state = after_extra_distance_bits_state;
  look_back = b'x' ∷ b'a' ∷ b'b' ∷ b'c' ∷ [];
  extra_bits = 3;
  copy_length = 5;
}

in_after_extra_distance_bits-copies_example :
    (bytes : List ℕ) × (in_after_extra_distance_bits matching
      ≡ returns (record (write_output bytes matching) { state = length_code_state }))
    × (length bytes ≡ 5)
    × (get_elem? (matching.look_back ++ bytes) (length matching.look_back + 4)
        ≡ get_elem?
            (matching.look_back ++ bytes)
            (length matching.look_back - matching.extra_bits + 4))
in_after_extra_distance_bits-copies_example =
    in_after_extra_distance_bits-copies matching 4 refl (omega arith) (omega arith) (omega arith)

matching_copied :
    in_after_extra_distance_bits matching
    ≡ returns (record (write_output (b'a' ∷ b'b' ∷ b'c' ∷ b'a' ∷ b'b' ∷ []) matching) {
      state = length_code_state;
    })
unfolding in_after_extra_distance_bits copy goto
matching_copied = refl

-- The header of a block: the last one, without compression.
abbrev heading : Deflate
heading = record initial { state = bfinal_state }

abbrev headed : Deflate
headed = record heading {
  state = btype_state;
  bfinal = true;
  buffer = record { buffered_bits = 0; buffered_bits_length = 7 };
}

process_event-IsWell_example : IsWell headed
unfolding dispatch reading read_next_bits filled fill push_byte take_bits in_bfinal goto
process_event-IsWell_example =
    process_event-IsWell heading headed (1 ∷ []) ready (received_bytes []) (omega arith, tt)
      ((omega arith, omega arith), omega arith) refl

-- Where the state is behind an event, and what is left of the event.
abbrev outcome : Processed Deflate → Outcome (ProcessResult × State × List ℕ × Event)
outcome m = m >>= λ (result, d, event). returns (result, d.state, d.output, event)

abbrev run : List ℕ → Outcome (ProcessResult × State × List ℕ × Event)
run bs = outcome (process_event_loop deflate_process 40 initial (received_bytes bs))

-- A block of one byte without compression, as gzip writes it: LEN is read as 0x100, and the frame
-- waits for more bytes.
one_byte_waits :
    run (0x01 ∷ 0x01 ∷ 0x00 ∷ 0xFE ∷ 0xFF ∷ b'a' ∷ [])
    ≡ returns (blocked, uncompressed_data_state, b'a' ∷ [], received_bytes [])
unfolding process_event_loop dispatch reading read_next_bits filled fill push_byte take_bits
    in_bfinal goto in_next_block in_btype in_len in_nlen through process_event_change_state_on_fail
    behind_nlen number_step receive_byte read_next in_uncompressed_data stream_step receive_elements
    read process_event
one_byte_waits = refl

-- Of two such blocks, the second reads no LEN: what stands behind its header is left.
second_block_reads_no_length :
    run (0x00 ∷ 0x00 ∷ 0x00 ∷ 0xFF ∷ 0xFF ∷ 0x01 ∷ 0x00 ∷ 0x00 ∷ 0xFF ∷ 0xFF ∷ [])
    ≡ returns (exited, done_state, [], received_bytes (0x00 ∷ 0x00 ∷ 0xFF ∷ 0xFF ∷ []))
unfolding process_event_loop dispatch reading read_next_bits filled fill push_byte take_bits
    in_bfinal goto in_next_block in_btype in_len in_nlen through process_event_change_state_on_fail
    behind_nlen number_step receive_byte read_next process_event
second_block_reads_no_length = refl
