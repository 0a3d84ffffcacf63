-- ===== src/Gzip/Deflate/Blocks.antt =====
-- The states of Deflate that read the header of a block and a block without compression
-- (Gzip.Deflate.cpp).
use webel.Prelude.{
  bit_xor, List, Option, Outcome, [], drop, if◌then◌else◌, length, ltb, none, not, returns, some, ℕ,
  ◌%◌, ◌+◌, ◌-◌, ◌==◌, ◌>>=◌, ◌^◌,
}
use webel.Basic.Frame.{
  ProcessResult, blocked, ready, exited, Event, Processed, Process,
  process_event_change_state_on_fail,
}
use webel.Basic.NumberFrame.{number_process, StreamFrame, reset_stream, stream_process}
use webel.Gzip.Huffman.{Alphabet}
use webel.Gzip.Deflate.{
  State, next_block_state, bfinal_state, btype_state, len_state, nlen_state,
  uncompressed_data_state, hlit_state, length_code_state, done_state, btype_failed, len_failed,
  nlen_failed, uncompressed_data_failed, Deflate, max_look_back, hlit_fixed, hdist_fixed, goto,
  write_output,
}

-- Of the bytes that were written, the last max_look_back.
abbrev pub shortened : List ℕ → List ℕ
shortened bytes =
    if ltb max_look_back (length bytes) then drop (length bytes - max_look_back) bytes else bytes

unfoldable pub in_next_block : Deflate → Outcome Deflate
in_next_block d =
    let d' = record d {
      block_counter = (d.block_counter + 1) % 2 ^ 32;
      look_back = shortened d.look_back;
    } in
    if d.bfinal then goto done_state d' else goto bfinal_state d'

unfoldable pub in_bfinal : Deflate → ℕ → Outcome Deflate
in_bfinal d b = goto btype_state (record d { bfinal = not (b == 0) })

-- A block with the fixed alphabets, over their roots.
unfoldable pub begin_fixed : Alphabet → Alphabet → Deflate → Outcome Deflate
begin_fixed literals distances d = goto length_code_state (record d {
  hlit_root = literals;
  hlit_current = literals;
  hdist_root = distances;
  hdist_current = distances;
})

unfoldable pub in_btype : Deflate → ℕ → Outcome Deflate
in_btype d b =
    if b == 0
    then goto len_state
        (record d { buffer = record { buffered_bits = 0; buffered_bits_length = 0 } })
    else if b == 1
    then (hlit_fixed >>= λ literals. hdist_fixed >>= λ distances. begin_fixed literals distances d)
    else if b == 2
    then goto hlit_state d
    else goto btype_failed d

-- The owner of a frame behind process_event_change_state_on_fail, which may have changed its state.
abbrev pub owner_or : Deflate → Option Deflate → Deflate
owner_or d none = d
owner_or d (some d') = d'

-- A state that runs a frame, and goes on when the frame is not blocked.
unfoldable pub through :
    {S : Type 0}
    → Process S
    → (Deflate → S)
    → (Deflate → S → Deflate)
    → State
    → (Deflate → Outcome (ProcessResult × Deflate))
    → Deflate
    → Event
    → Processed Deflate
through p get put failed go_on d event =
    process_event_change_state_on_fail p (get d) event (goto failed d)
    >>= λ (result, s, event', owner).
        let d' = put (owner_or d owner) s in
        elim result [
          | blocked ↦ returns (blocked, d', event')
          | ready ↦ go_on d' >>= λ (result', d''). returns (result', d'', event')
          | exited ↦ go_on d' >>= λ (result', d''). returns (result', d'', event')
        ]

abbrev pub and_ready : Outcome Deflate → Outcome (ProcessResult × Deflate)
and_ready moved = moved >>= λ d. returns (ready, d)

-- LEN is a uint16 of two bytes.
unfoldable pub in_len : Deflate → Event → Processed Deflate
in_len =
    through (number_process 2) (λ d. d.len_frame) (λ d s. record d { len_frame = s }) len_failed
      (λ d. and_ready (goto nlen_state d))

-- Behind NLEN; where it is not the complement of LEN, the result is process_result_blocked.
unfoldable pub behind_nlen : Deflate → Outcome (ProcessResult × Deflate)
behind_nlen d =
    if d.nlen_frame.value == bit_xor d.len_frame.value 0xFFFF
    then (if d.len_frame.value == 0
        then and_ready (goto next_block_state d)
        else and_ready (
            goto uncompressed_data_state
              (record d { uncompressed_data_frame = reset_stream d.len_frame.value })))
    else (goto nlen_failed d >>= λ d'. returns (blocked, d'))

unfoldable pub in_nlen : Deflate → Event → Processed Deflate
in_nlen =
    through (number_process 2) (λ d. d.nlen_frame) (λ d s. record d { nlen_frame = s }) nlen_failed
      behind_nlen

-- What the frame has written goes to the output stream.
abbrev pub take_written : Deflate → StreamFrame → Deflate
take_written d s =
    write_output s.written (record d { uncompressed_data_frame = record s { written = [] } })

unfoldable pub in_uncompressed_data : Deflate → Event → Processed Deflate
in_uncompressed_data =
    through stream_process (λ d. d.uncompressed_data_frame) take_written uncompressed_data_failed
      (λ d. and_ready (goto next_block_state d))
