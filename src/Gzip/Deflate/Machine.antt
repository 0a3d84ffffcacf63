-- ===== src/Gzip/Deflate/Machine.antt =====
-- Deflate::process_event, and its states that read symbols (Gzip.Deflate.cpp).
use webel.Prelude.{
  List, Outcome, [], fatal, get_elem?, if◌then◌else◌, length, ltb, none, returns, some, suc, zero,
  ℕ, ◌%◌, ◌+◌, ◌-◌, ◌==◌, ◌>>=◌, ◌^◌, ◌∷◌,
}
use webel.Basic.Frame.{is_in_progress, is_failed, Event, Processed, Process}
use webel.Basic.NumberFrame.{reset_number}
use webel.Gzip.Huffman.{null_alphabet, is_null, is_leaf}
use webel.Gzip.Deflate.{
  State, next_block_state, bfinal_state, btype_state, len_state, nlen_state,
  uncompressed_data_state, hlit_state, hdist_state, hclen_state, hclen_lengths_state, lengths_state,
  lengths_after_extra_bits_state, length_code_state, extra_bits_state,
  after_extra_length_bits_state, distance_code_state, after_extra_distance_bits_state,
  length_code_failed, distance_code_failed, after_extra_distance_bits_failed, code, ExtraBits,
  Deflate, lit_extra_bits_parameters, dist_extra_bits_parameters, goto, write_output, at_once,
  reading, follow, symbol_of,
}
use webel.Gzip.Deflate.Blocks.{
  in_next_block, in_bfinal, in_btype, in_len, in_nlen, in_uncompressed_data,
}
use webel.Gzip.Deflate.Lengths.{
  in_hlit, in_hdist, in_hclen, in_hclen_lengths, in_lengths, in_lengths_after_extra_bits,
}

unfoldable pub in_extra_bits : Deflate → Event → Processed Deflate
in_extra_bits d =
    reading d.extra_bits_parameters.length
      (λ d' w.
        goto d'.state_after_extra_bits
          (record d' { extra_bits = (w + d'.extra_bits_parameters.base) % 2 ^ 16 }))
      d

-- A symbol that extra bits follow, with their table; an index past the table stands as `fatal`
-- here, where the code takes the pointer.
unfoldable pub begin_extra_bits : List ExtraBits → ℕ → State → Deflate → Outcome Deflate
begin_extra_bits table index after d = elim (get_elem? table index) [
  | none ↦ fatal
  | some parameters ↦ goto extra_bits_state (record d {
    extra_bits_parameters = parameters;
    state_after_extra_bits = after;
    extra_bits = 0;
  })
]

-- The end of a block.
unfoldable pub end_block : Deflate → Outcome Deflate
end_block d = goto next_block_state (record d {
  hclen_count = 0;
  len_frame = reset_number d.len_frame;
  nlen_frame = reset_number d.nlen_frame;
  hclen_root = null_alphabet;
  hclen_current = null_alphabet;
  hlit_root = null_alphabet;
  hlit_current = null_alphabet;
  hdist_root = null_alphabet;
  hdist_current = null_alphabet;
})

unfoldable pub receive_symbol : Deflate → ℕ → Outcome Deflate
receive_symbol d symbol =
    if ltb symbol 256
    then returns (write_output (symbol ∷ []) d)
    else if symbol == 256
    then end_block d
    else begin_extra_bits lit_extra_bits_parameters (symbol - 257) after_extra_length_bits_state
        (record d { symbol_with_extra_bits = symbol })

unfoldable pub receive_code_bit : Deflate → ℕ → Outcome Deflate
receive_code_bit d b = follow d.hlit_current b >>= λ current.
    let d' = record d { hlit_current = current } in
    if is_null current
    then goto length_code_failed d'
    else if is_leaf current
    then receive_symbol (record d' { hlit_current = d.hlit_root }) (symbol_of current)
    else returns d'

unfoldable pub in_after_extra_length_bits : Deflate → Outcome Deflate
in_after_extra_length_bits d = goto distance_code_state (record d { copy_length = d.extra_bits })

unfoldable pub receive_distance_bit : Deflate → ℕ → Outcome Deflate
receive_distance_bit d b = follow d.hdist_current b >>= λ current.
    let d' = record d { hdist_current = current } in
    if is_null current
    then goto distance_code_failed d'
    else if is_leaf current
    then begin_extra_bits dist_extra_bits_parameters (symbol_of current)
        after_extra_distance_bits_state (record d' { hdist_current = d.hdist_root })
    else returns d'

-- The loop that copies `count` bytes of look_back from `index` on. look_back grows with each byte,
-- which may be copied in its turn. string::at throws where there is no byte.
unfoldable pub copy : ℕ → ℕ → Deflate → Outcome Deflate
copy zero index d = returns d
copy (suc count) index d = elim (get_elem? d.look_back index) [
  | none ↦ fatal
  | some value ↦ copy count (suc index) (write_output (value ∷ []) d)
]

unfoldable pub in_after_extra_distance_bits : Deflate → Outcome Deflate
in_after_extra_distance_bits d =
    let size = length d.look_back in
    if ltb size d.extra_bits
    then goto after_extra_distance_bits_failed d
    else (copy d.copy_length (size - d.extra_bits) d >>= λ d'. goto length_code_state d')

-- process_event: the switch on the state. The two states that nothing enters, and those past
-- done_state, are its default, which throws.
unfoldable pub dispatch : State → Deflate → Event → Processed Deflate
dispatch next_block_state d event = at_once event (in_next_block d)
dispatch bfinal_state d event = reading 1 in_bfinal d event
dispatch btype_state d event = reading 2 in_btype d event
dispatch len_state d event = in_len d event
dispatch nlen_state d event = in_nlen d event
dispatch uncompressed_data_state d event = in_uncompressed_data d event
dispatch hlit_state d event = reading 5 in_hlit d event
dispatch hdist_state d event = reading 5 in_hdist d event
dispatch hclen_state d event = reading 4 in_hclen d event
dispatch hclen_lengths_state d event = in_hclen_lengths d event
dispatch lengths_state d event = in_lengths d event
dispatch extra_bits_state d event = in_extra_bits d event
dispatch lengths_after_extra_bits_state d event = at_once event (in_lengths_after_extra_bits d)
dispatch length_code_state d event = reading 1 receive_code_bit d event
dispatch after_extra_length_bits_state d event = at_once event (in_after_extra_length_bits d)
dispatch distance_code_state d event = reading 1 receive_distance_bit d event
dispatch after_extra_distance_bits_state d event = at_once event (in_after_extra_distance_bits d)
dispatch state d event = fatal

abbrev pub deflate_process : Process Deflate
deflate_process = record {
  in_progress = λ d. is_in_progress (code d.state);
  failed = λ d. is_failed (code d.state);
  step = λ d event. dispatch d.state d event;
}
