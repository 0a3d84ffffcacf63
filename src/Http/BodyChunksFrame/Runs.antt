-- ===== src/Http/BodyChunksFrame/Runs.antt =====
-- A body of two chunks, and the theorem at it.
use webel.Prelude.{◌≡◌, refl, List, [], ◌∷◌, ◌++◌, returns, arith}
use webel.Basic.Frame.{exited, received_bytes, process_event}
use webel.Http.LengthBodyFrame.{write_eof}
use webel.Http.Characters.{token, ascii_encode, encode_element}
use webel.Http.HeadersFrame.{serialize}
use webel.Http.BodyChunksFrame.{BodyChunksFrame, initial, process, done_state}
use webel.Http.BodyChunksFrame.Chunk.{Chunk}
use webel.Http.BodyChunksFrame.RoundTrip.{chunks_calls}
use webel.Http.BodyChunksFrame.Total.{body_text, process_event-body_text}

-- "2" and two bytes, "00a" and ten bytes.
abbrev two_chunks : List Chunk
two_chunks =
    record { first_digit = 2; digits = []; bytes = b'h' ∷ 0 ∷ [] }
    ∷ record {
      first_digit = 0;
      digits = 0 ∷ 10 ∷ [];
      bytes = 1 ∷ 2 ∷ 3 ∷ 4 ∷ 5 ∷ 6 ∷ 7 ∷ 8 ∷ 9 ∷ 13 ∷ [];
    }
    ∷ []

process_event-body_text_example :
    (f : BodyChunksFrame) × (process_event process (initial [] []) (
        received_bytes
          (body_text (λ c. 0) 0x7F two_chunks 0 [] ((b'T' ∷ [], b'v' ∷ []) ∷ []) ++ b'!' ∷ []))
      ≡ returns (exited, f, received_bytes (b'!' ∷ [])))
    × (f.state ≡ done_state)
    × (f.chunk_frame.content ≡ ([] ++ chunks_calls two_chunks) ++ write_eof ∷ [])
    × (f.headers_frame.nvc ≡ [] ++ (b'T' ∷ [], b'v' ∷ []) ∷ [])
unfolding token serialize ascii_encode encode_element
process_event-body_text_example =
    process_event-body_text [] [] ((b'T' ∷ [], b'v' ∷ []) ∷ []) two_chunks 0 [] (b'!' ∷ []) (λ c. 0)
      0x7F
      (
        ((omega arith, tt), omega arith, refl, omega arith, omega arith),
        (
          (
            (omega arith, (omega arith, (omega arith, tt))),
            omega arith,
            refl,
            omega arith,
            omega arith,
          ),
          tt,
        ),
      )
      ((omega arith, tt), omega arith, refl) (((refl, tt), omega arith), tt) (omega arith)
