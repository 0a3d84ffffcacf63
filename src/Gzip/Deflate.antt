-- ===== src/Gzip/Deflate.antt =====
-- class Deflate (Gzip.Deflate.h): its states and fields, and its tables (Gzip.Deflate.cpp). A null
-- alphabet is `null_alphabet`. What C++ leaves open, a null pointer that is followed or an index
-- outside of a table or a vector, stands as `fatal`.
pub mod Lengths
pub mod Blocks
pub mod Machine
pub mod Copy
pub mod Invariant
use webel.Prelude.{
  ==_self, ==→eq, All, All-append, Bool, Bool-cases, List, Option, Option-cases, Outcome,
  Outcome-cases, Returns, Returns-returns, [], ap, append-nil, append_assoc, arith, drop,
  drop-append, false, fatal, get_elem?, if◌then◌else◌, inl, inr, leb, leb→le, length, length-append,
  le→leb, ltb, ltb→lt, map, ne→==, none, not, refl, replicate, returns, set, some, subst, suc, sym,
  take, take-append, true, zero, ℕ, ◌%◌, ◌&&◌, ◌*◌, ◌++◌, ◌+◌, ◌-◌, ◌/◌, ◌<◌, ◌==◌, ◌>>=◌, ◌^◌,
  ◌||◌, ◌↔◌, ◌∎, ◌∙◌, ◌∷◌, ◌≡◌, ◌≡⟨◌⟩◌, ◌≢◌, ◌≤◌, ◌⊎◌, two_pow_add, two_pow_le, two_pow_positive,
}
use webel.Basic.Frame.{
  start_state, succeeded_state, is_in_progress, is_succeeded, is_failed, switch_to_state,
  ProcessResult, blocked, ready, exited, Event, element_stream_ending, received_bytes, other_event,
  read_next, read, Processed, Process, max_slices, process_event_loop, process_event,
  process_event_throw_error_on_fail, process_event_ignore_failures,
  process_event_change_state_on_fail,
}
use webel.Basic.NumberFrame.{
  serialize_number, NumberFrame, receiving_state, reset_number, set_byte, receive_byte, number_step,
  number_process, StreamFrame, reset_stream, receive_elements, stream_step, stream_process,
}
use webel.Gzip.Bits.{BitBuffer, push_byte, fill, take_bits, Read, filled, read_next_bits}
use webel.Gzip.Huffman.{
  Alphabet, null_alphabet, node, new_node, is_null, is_leaf, child, validate, count_length,
  length_counts, first_codes, place, place_symbols, with_counts, make_alphabet,
}

pub data State : Type 0 where
  next_block_state bfinal_state btype_state len_state nlen_state uncompressed_data_state : State
  fixed_block_state hlit_state hdist_state hclen_state hclen_lengths_state lengths_state : State
  lengths_extra_bits_state lengths_after_extra_bits_state length_code_state extra_bits_state : State
  after_extra_length_bits_state distance_code_state after_extra_distance_bits_state : State
  done_state : State
  btype_failed uncompressed_failed len_failed nlen_failed uncompressed_data_failed : State
  lengths_failed length_code_failed distance_code_failed after_extra_distance_bits_failed : State

-- The number of a state.
abbrev pub code : State → ℕ
code next_block_state = 0
code bfinal_state = 1
code btype_state = 2
code len_state = 3
code nlen_state = 4
code uncompressed_data_state = 5
code fixed_block_state = 6
code hlit_state = 7
code hdist_state = 8
code hclen_state = 9
code hclen_lengths_state = 10
code lengths_state = 11
code lengths_extra_bits_state = 12
code lengths_after_extra_bits_state = 13
code length_code_state = 14
code extra_bits_state = 15
code after_extra_length_bits_state = 16
code distance_code_state = 17
code after_extra_distance_bits_state = 18
code done_state = 0x10000
code btype_failed = 0x10001
code uncompressed_failed = 0x10002
code len_failed = 0x10003
code nlen_failed = 0x10004
code uncompressed_data_failed = 0x10005
code lengths_failed = 0x10006
code length_code_failed = 0x10007
code distance_code_failed = 0x10008
code after_extra_distance_bits_failed = 0x10009

pub record ExtraBits : Type 0 where
  pub length : ℕ
  pub base : ℕ

pub record Deflate : Type 0 where
  pub state : State
  pub output : List ℕ
  pub look_back : List ℕ
  pub buffer : BitBuffer
  pub bfinal : Bool
  pub block_counter : ℕ
  pub hlit : ℕ
  pub hdist : ℕ
  pub hclen : ℕ
  pub uncompressed_data_frame : StreamFrame
  pub len_frame : NumberFrame
  pub nlen_frame : NumberFrame
  pub hclen_count : ℕ
  pub extra_bits_parameters : ExtraBits
  pub state_after_extra_bits : State
  pub hclen_root : Alphabet
  pub hclen_current : Alphabet
  pub hlit_root : Alphabet
  pub hlit_current : Alphabet
  pub hdist_root : Alphabet
  pub hdist_current : Alphabet
  pub dynamic_code_lengths : List ℕ
  pub symbol_with_extra_bits : ℕ
  pub extra_bits : ℕ
  pub copy_length : ℕ

abbrev extra : ℕ → ℕ → ExtraBits
extra length base = record { length = length; base = base }

abbrev pub hclen_index : List ℕ
hclen_index =
    16 ∷ 17 ∷ 18 ∷ 0 ∷ 8 ∷ 7 ∷ 9 ∷ 6 ∷ 10 ∷ 5 ∷ 11 ∷ 4 ∷ 12 ∷ 3 ∷ 13 ∷ 2 ∷ 14 ∷ 1 ∷ 15 ∷ []

abbrev pub clen_extra_bits_parameters : List ExtraBits
clen_extra_bits_parameters = extra 2 3 ∷ extra 3 3 ∷ extra 7 11 ∷ []

abbrev pub lit_extra_bits_parameters : List ExtraBits
lit_extra_bits_parameters =
    extra 0 3
    ∷ extra 0 4
    ∷ extra 0 5
    ∷ extra 0 6
    ∷ extra 0 7
    ∷ extra 0 8
    ∷ extra 0 9
    ∷ extra 0 10
    ∷ extra 1 11
    ∷ extra 1 13
    ∷ extra 1 15
    ∷ extra 1 17
    ∷ extra 2 19
    ∷ extra 2 23
    ∷ extra 2 27
    ∷ extra 2 31
    ∷ extra 3 35
    ∷ extra 3 43
    ∷ extra 3 51
    ∷ extra 3 59
    ∷ extra 4 67
    ∷ extra 4 83
    ∷ extra 4 99
    ∷ extra 4 115
    ∷ extra 5 131
    ∷ extra 5 163
    ∷ extra 5 195
    ∷ extra 5 227
    ∷ extra 0 258
    ∷ []

abbrev pub dist_extra_bits_parameters : List ExtraBits
dist_extra_bits_parameters =
    extra 0 1
    ∷ extra 0 2
    ∷ extra 0 3
    ∷ extra 0 4
    ∷ extra 1 5
    ∷ extra 1 7
    ∷ extra 2 9
    ∷ extra 2 13
    ∷ extra 3 17
    ∷ extra 3 25
    ∷ extra 4 33
    ∷ extra 4 49
    ∷ extra 5 65
    ∷ extra 5 97
    ∷ extra 6 129
    ∷ extra 6 193
    ∷ extra 7 257
    ∷ extra 7 385
    ∷ extra 8 513
    ∷ extra 8 769
    ∷ extra 9 1025
    ∷ extra 9 1537
    ∷ extra 10 2049
    ∷ extra 10 3073
    ∷ extra 11 4097
    ∷ extra 11 6145
    ∷ extra 12 8193
    ∷ extra 12 12289
    ∷ extra 13 16385
    ∷ extra 13 24577
    ∷ []

abbrev pub max_look_back : ℕ
max_look_back = 0x8000

-- What a pointer holds behind a call of make_alphabet: what it held before, if the call is false.
abbrev pub alphabet_or : Alphabet → Outcome (Option Alphabet) → Outcome Alphabet
alphabet_or old fatal = fatal
alphabet_or old (returns none) = returns old
alphabet_or old (returns (some a)) = returns a

abbrev pub lit_code_lengths : List ℕ
lit_code_lengths =
    replicate (143 - 0 + 1) 8
    ++ (replicate (255 - 144 + 1) 9 ++ (replicate (279 - 256 + 1) 7 ++ replicate (287 - 280 + 1) 8))

abbrev pub hlit_fixed : Outcome Alphabet
hlit_fixed = alphabet_or null_alphabet (make_alphabet (2 ^ 16) 288 lit_code_lengths)

abbrev pub hdist_fixed : Outcome Alphabet
hdist_fixed = alphabet_or null_alphabet (make_alphabet (2 ^ 8) 32 (replicate 32 5))

-- The constructor; the fields that it leaves undefined are 0 here.
abbrev pub initial : Deflate
initial = record {
  state = next_block_state;
  output = [];
  look_back = [];
  buffer = record { buffered_bits = 0; buffered_bits_length = 0 };
  bfinal = false;
  block_counter = 0;
  hlit = 0;
  hdist = 0;
  hclen = 0;
  uncompressed_data_frame = reset_stream 0;
  len_frame = record { state = start_state; received = 0; value = 0 };
  nlen_frame = record { state = start_state; received = 0; value = 0 };
  hclen_count = 0;
  extra_bits_parameters = extra 0 0;
  state_after_extra_bits = next_block_state;
  hclen_root = null_alphabet;
  hclen_current = null_alphabet;
  hlit_root = null_alphabet;
  hlit_current = null_alphabet;
  hdist_root = null_alphabet;
  hdist_current = null_alphabet;
  dynamic_code_lengths = [];
  symbol_with_extra_bits = 0;
  extra_bits = 0;
  copy_length = 0;
}

unfoldable pub goto : State → Deflate → Outcome Deflate
goto next d =
    switch_to_state (code d.state) (code next) >>= λ n. returns (record d { state = next })

-- The output stream splits into look_back and the stream that is given.
abbrev pub write_output : List ℕ → Deflate → Deflate
write_output bytes d = record d { look_back = d.look_back ++ bytes; output = d.output ++ bytes }

-- The states that go on without reading.
abbrev pub at_once : Event → Outcome Deflate → Processed Deflate
at_once event moved = moved >>= λ d. returns (ready, d, event)

-- A state that reads `count` bits and goes on with them.
unfoldable pub reading : ℕ → (Deflate → ℕ → Outcome Deflate) → Deflate → Event → Processed Deflate
reading count receive d event = read_next_bits count d.buffer event >>= λ (o, s, event'). elim o [
  | none ↦ returns (blocked, record d { buffer = s }, event')
  | some w ↦ receive (record d { buffer = s }) w >>= λ d'. returns (ready, d', event')
]

-- The next node of an alphabet.
abbrev pub follow : Alphabet → ℕ → Outcome Alphabet
follow current b = if is_null current then fatal else returns (child current (b == 1))

abbrev pub symbol_of : Alphabet → ℕ
symbol_of null_alphabet = 0
symbol_of (node l r code length symbol) = symbol
