-- ===== src/Http/BodyChunksFrame/RoundTrip.antt =====
-- A whole body in chunks under Basic::process_event (Http.BodyChunksFrame.cpp).
use webel.Prelude.{
  ℕ, ◌+◌, ◌%◌, ◌^◌, ◌≡◌, refl, sym, ◌∙◌, returns, arith, List, [], ◌∷◌, ◌++◌, append_assoc, length,
  All, ne→==, subst, append-nil,
}
use webel.Basic.Numbers.Streams.{NumberStream, horner, reset}
use webel.Basic.Frame.{received_bytes, read_next, ready, process_event_change_state_on_fail}
use webel.Basic.Frame.Iterations.{
  Advances, Advances-none, Advances-suc, Advances-one, Advances-then,
}
use webel.Http.Characters.{cr, lf}
use webel.Http.LengthBodyFrame.{LengthBodyFrame, Call, write_elements, write_eof}
use webel.Http.BodyChunksFrame.{
  in_expecting_lf_after_chunk, in_expecting_cr_after_chunk, in_expecting_lf_after_size,
  in_chunk_frame_pending, start_chunk_state, expecting_lf_after_size_state,
  chunk_frame_pending_state, expecting_cr_after_chunk_state, BodyChunksFrame, step, process,
}
use webel.Http.BodyChunksFrame.Chunk.{
  Chunk, IsChunk, size_text, at, size_line, filled, awaiting, chunk_processed,
}

abbrev pub chunk_text : Chunk → List ℕ
chunk_text c = size_text c.first_digit c.digits ++ (cr ∷ lf ∷ (c.bytes ++ (cr ∷ lf ∷ [])))

-- The calls that a chunk makes on the content stream.
abbrev pub chunk_calls : Chunk → List Call
chunk_calls c = write_elements c.bytes ∷ write_eof ∷ []

abbrev pub chunks_text : List Chunk → List ℕ
chunks_text [] = []
chunks_text (c ∷ cs) = chunk_text c ++ chunks_text cs

abbrev pub chunks_calls : List Chunk → List Call
chunks_calls [] = []
chunks_calls (c ∷ cs) = chunk_calls c ++ chunks_calls cs

-- The frame at the begin of a chunk.
abbrev pub ready_for_chunk : BodyChunksFrame → BodyChunksFrame
ready_for_chunk f = record f { state = start_chunk_state; size = reset f.size }

module _ (f : BodyChunksFrame) (c : Chunk) (valid : IsChunk c) where
  abbrev of_chunk : NumberStream
  of_chunk = record { value = length c.bytes; count = length (c.first_digit ∷ c.digits) }

  -- The frame behind the chunk's size, its bytes, and the whole chunk.
  abbrev sized : BodyChunksFrame
  sized = record f {
    state = chunk_frame_pending_state;
    size = of_chunk;
    chunk_frame = awaiting f.chunk_frame (length c.bytes);
  }

  abbrev behind_bytes : BodyChunksFrame
  behind_bytes = record f {
    state = expecting_cr_after_chunk_state;
    size = of_chunk;
    chunk_frame = filled f.chunk_frame c.bytes;
  }

  abbrev pub behind_chunk : BodyChunksFrame
  behind_chunk = record f {
    state = start_chunk_state;
    size = reset of_chunk;
    chunk_frame = filled f.chunk_frame c.bytes;
  }

  size_lf :
      (rest : List ℕ)
      → step (at f expecting_lf_after_size_state of_chunk) (received_bytes (lf ∷ rest))
        ≡ returns (ready, sized, received_bytes rest)
  unfolding step in_expecting_lf_after_size read_next webel.Http.LengthBodyFrame.reset
  size_lf rest = rw (ne→== (length c.bytes) 0 (omega (arith, valid.3))) refl

  chunk_bytes :
      (rest : List ℕ)
      → step sized (received_bytes (c.bytes ++ rest))
        ≡ returns (ready, behind_bytes, received_bytes rest)
  unfolding step in_chunk_frame_pending process_event_change_state_on_fail
  chunk_bytes rest =
      rw
        (
          chunk_processed f.chunk_frame c.bytes rest valid.3 valid.4,
          in_chunk_frame_pending,
          process_event_change_state_on_fail,
        )
        refl

  chunk_end :
      (rest : List ℕ)
      → Advances process 2 behind_bytes
          (received_bytes (cr ∷ lf ∷ rest))
          behind_chunk
          (received_bytes rest)
  unfolding step in_expecting_cr_after_chunk in_expecting_lf_after_chunk read_next
  chunk_end rest =
      Advances-suc process 1 _ _ _ _ _ _ refl refl (Advances-one process _ _ _ _ refl refl)

  -- The iterations that a chunk takes.
  abbrev pub cost : ℕ
  cost = length (c.first_digit ∷ c.digits) + 1 + 4

  size_value : horner 0x10 0 (c.first_digit ∷ c.digits) % 2 ^ 32 ≡ length c.bytes
  size_value = omega (arith, valid.2, valid.4)

  size_read :
      (rest : List ℕ)
      → Advances process
          (length (c.first_digit ∷ c.digits) + 1)
          (ready_for_chunk f)
          (received_bytes (size_text c.first_digit c.digits ++ cr ∷ rest))
          (at f expecting_lf_after_size_state of_chunk)
          (received_bytes rest)
  size_read rest =
      subst
        (λ v.
          Advances process (length (c.first_digit ∷ c.digits) + 1) (ready_for_chunk f)
            (received_bytes (size_text c.first_digit c.digits ++ cr ∷ rest))
            (at f expecting_lf_after_size_state
              (record { value = v; count = length (c.first_digit ∷ c.digits) }))
            (received_bytes rest))
        size_value (size_line f c.first_digit c.digits rest valid.0 valid.1)

  chunk_text-append :
      (rest : List ℕ)
      → chunk_text c ++ rest
        ≡ size_text c.first_digit c.digits ++ (cr ∷ lf ∷ (c.bytes ++ (cr ∷ lf ∷ rest)))
  chunk_text-append rest = simp append_assoc

  pub whole_chunk :
      (rest : List ℕ)
      → Advances process cost
          (ready_for_chunk f)
          (received_bytes (chunk_text c ++ rest))
          behind_chunk
          (received_bytes rest)
  whole_chunk rest =
      subst
        (λ bs.
          Advances process cost (ready_for_chunk f) (received_bytes bs) behind_chunk
            (received_bytes rest))
        (sym (chunk_text-append rest))
        (Advances-then process (length (c.first_digit ∷ c.digits) + 1) 4 _ _ _ _ _ _
          (size_read (lf ∷ (c.bytes ++ (cr ∷ lf ∷ rest))))
          (Advances-suc process 3 _ _ _ _ _ _ refl (size_lf (c.bytes ++ (cr ∷ lf ∷ rest))) (
            Advances-suc process 2 _ _ _ _ _ _ refl (chunk_bytes (cr ∷ lf ∷ rest))
              (chunk_end rest))))

-- The frame behind all chunks: the size is 0 digits long again, and the calls have been made.
abbrev pub behind_chunks : BodyChunksFrame → List Chunk → BodyChunksFrame
behind_chunks f [] = ready_for_chunk f
behind_chunks f (c ∷ cs) =
    behind_chunks
      (record f {
        size = record { value = length c.bytes; count = 0 };
        chunk_frame = filled f.chunk_frame c.bytes;
      })
      cs

abbrev pub costs : List Chunk → ℕ
costs [] = 0
costs (c ∷ cs) = length (c.first_digit ∷ c.digits) + 1 + 4 + costs cs

pub many_chunks :
    (cs : List Chunk) (f : BodyChunksFrame) (rest : List ℕ)
    → All IsChunk cs
    → Advances process
        (costs cs)
        (ready_for_chunk f)
        (received_bytes (chunks_text cs ++ rest))
        (behind_chunks f cs)
        (received_bytes rest)
many_chunks [] f rest h = Advances-none process _ _
many_chunks (c ∷ cs) f rest (h, hs) = rw append_assoc (
    Advances-then process (length (c.first_digit ∷ c.digits) + 1 + 4) (costs cs) _ _ _ _ _ _
      (whole_chunk f c h (chunks_text cs ++ rest))
      (many_chunks cs
        (record f {
          size = record { value = length c.bytes; count = 0 };
          chunk_frame = filled f.chunk_frame c.bytes;
        })
        rest hs))

pub behind_chunks-content :
    (cs : List Chunk) (f : BodyChunksFrame)
    → (behind_chunks f cs).chunk_frame.content ≡ f.chunk_frame.content ++ chunks_calls cs
behind_chunks-content [] f = sym (append-nil _)
behind_chunks-content (c ∷ cs) f =
    behind_chunks-content cs (record f {
      size = record { value = length c.bytes; count = 0 };
      chunk_frame = filled f.chunk_frame c.bytes;
    })
    ∙ rw append_assoc refl

pub behind_chunks-headers :
    (cs : List Chunk) (f : BodyChunksFrame) → (behind_chunks f cs).headers_frame ≡ f.headers_frame
behind_chunks-headers [] f = refl
behind_chunks-headers (c ∷ cs) f = behind_chunks-headers cs _

pub behind_chunks-ready :
    (cs : List Chunk) (f : BodyChunksFrame)
    → behind_chunks f cs ≡ ready_for_chunk (behind_chunks f cs)
behind_chunks-ready [] f = refl
behind_chunks-ready (c ∷ cs) f = behind_chunks-ready cs _
