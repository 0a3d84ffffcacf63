-- ===== src/Http/BodyChunksFrame/Body.antt =====
-- The whole body: its chunks, the chunk of size 0 and the trailing headers
-- (Http.BodyChunksFrame.cpp).
use webel.Prelude.{
  ◌%◌, ◌^◌, ◌%◌, ap, ℕ, ◌+◌, ◌<◌, ◌≡◌, refl, ◌∙◌, returns, List, ◌∷◌, ◌++◌, length, All, none,
  subst,
}
use webel.Basic.Numbers.Streams.{NumberStream, horner}
use webel.Basic.Frame.{
  received_bytes, read_next, ready, exited, process_event, max_slices,
  process_event_change_state_on_fail,
}
use webel.Basic.Frame.Bytes.{loop-feed}
use webel.Basic.Frame.Iterations.{Advances, Advances-suc, Advances-one, Advances-then}
use webel.Http.Characters.{cr, lf}
use webel.Http.LengthBodyFrame.{LengthBodyFrame, Call, write_elements, write_eof}
use webel.Http.HeadersFrame.{HeadersFrame, Text, serialize}
use webel.Http.HeadersFrame.RoundTrip.{feed-serialize, IsHeader}
use webel.Http.BodyChunksFrame.{
  in_headers_frame_pending, in_expecting_lf_after_size, expecting_lf_after_size_state,
  headers_frame_pending, done_state, BodyChunksFrame, step, process,
}
use webel.Http.BodyChunksFrame.Chunk.{size_text, at, size_line}
use webel.Http.BodyChunksFrame.RoundTrip.{ready_for_chunk}
use webel.Http.Characters.{ascii_encode}

-- The text behind the chunks: digits whose number is 0, and headers.
abbrev pub IsZero : ℕ → List ℕ → Type 0
IsZero h hs = All (λ h. h < 16) (h ∷ hs) × (length (h ∷ hs) < 256) × (horner 0x10 0 (h ∷ hs) ≡ 0)

abbrev pub last_text : ℕ → List ℕ → List ℕ → List ℕ
last_text h hs trailer = size_text h hs ++ (cr ∷ lf ∷ trailer)

module _ (f : BodyChunksFrame) (headers : List (Text × Text)) (nvc : List (Text × Text))
    (fresh : f.headers_frame ≡ webel.Http.HeadersFrame.initial nvc)
    (representable : All IsHeader headers) (pointer : ℕ → ℕ) (r : ℕ) where
  abbrev trailer_text : List ℕ
  trailer_text = serialize (ascii_encode pointer r) headers

  -- The headers frame behind the trailer, and the frame behind the body.
  abbrev finished_headers : HeadersFrame
  finished_headers = record {
    state = webel.Http.HeadersFrame.done_state;
    name = none;
    value = none;
    nvc = nvc ++ headers;
  }

  abbrev pub finished : NumberStream → BodyChunksFrame
  finished size = record f {
    state = done_state;
    size = size;
    chunk_frame = webel.Http.LengthBodyFrame.call write_eof f.chunk_frame;
    headers_frame = finished_headers;
  }

  headers_processed :
      (rest : List ℕ)
      → length (trailer_text ++ rest) < max_slices
      → process_event webel.Http.HeadersFrame.process f.headers_frame
          (received_bytes (trailer_text ++ rest))
        ≡ returns (exited, finished_headers, received_bytes rest)
  unfolding process_event
  headers_processed rest h = rw fresh (
      loop-feed _ _ _ max_slices (webel.Http.HeadersFrame.initial nvc) (trailer_text ++ rest) h
      ∙ rw (feed-serialize pointer r headers nvc rest representable) refl)

  trailer_step :
      (size : NumberStream) (rest : List ℕ)
      → length (trailer_text ++ rest) < max_slices
      → step (at f headers_frame_pending size) (received_bytes (trailer_text ++ rest))
        ≡ returns (ready, finished size, received_bytes rest)
  unfolding step in_headers_frame_pending process_event_change_state_on_fail
  trailer_step size rest h =
      rw (headers_processed rest h, in_headers_frame_pending, process_event_change_state_on_fail)
        refl

  pub last_part :
      (h : ℕ) (hs rest : List ℕ)
      → IsZero h hs
      → length (trailer_text ++ rest) < max_slices
      → Advances process
          (length (h ∷ hs) + 1 + 2)
          (ready_for_chunk f)
          (received_bytes (last_text h hs (trailer_text ++ rest)))
          (finished (record { value = 0; count = length (h ∷ hs) }))
          (received_bytes rest)
  unfolding step in_expecting_lf_after_size read_next
  last_part h hs rest (k, l, z) m =
      Advances-then process (length (h ∷ hs) + 1) 2 _ _ _ _ _ _
        (subst
          (λ v.
            Advances process (length (h ∷ hs) + 1) (ready_for_chunk f)
              (received_bytes (last_text h hs (trailer_text ++ rest)))
              (at f expecting_lf_after_size_state (record { value = v; count = length (h ∷ hs) }))
              (received_bytes (lf ∷ (trailer_text ++ rest))))
          (ap (λ v. v % 2 ^ 32) z) (size_line f h hs (lf ∷ (trailer_text ++ rest)) k l))
        (Advances-suc process 1 _ _ _ _ _ _ refl refl (
          Advances-one process _ _ _ _ refl
            (trailer_step (record { value = 0; count = length (h ∷ hs) }) rest m)))
