-- ===== src/Http/BodyChunksFrame/Chunk.antt =====
-- One chunk under BodyChunksFrame (Http.BodyChunksFrame.cpp, Http.LengthBodyFrame.cpp).
use webel.Prelude.{
  ℕ, ◌+◌, ◌-◌, ◌%◌, ◌^◌, ◌<◌, ◌≡◌, ◌≢◌, refl, returns, arith, List, [], ◌∷◌, ◌++◌, append_assoc,
  map, length, All, some, take-append, drop-append, ne→==, ==_self, subst,
}
use webel.Basic.Numbers.{hex_digit, base_16-hex_digit}
use webel.Basic.Numbers.Streams.{
  NumberStream, push_digit, push_digits, push_digits-horner, horner, write_digit, reset,
}
use webel.Basic.Frame.{
  received_bytes, read, read_next, ready, exited, process_event, max_slices, start_state,
  succeeded_state, Processed,
}
use webel.Basic.Frame.Iterations.{
  Advances, Advances-none, Advances-suc, Advances-one, Advances-then, Advances-exited,
}
use webel.Http.Characters.{cr}
use webel.Http.LengthBodyFrame.{LengthBodyFrame, Call, write_elements, write_eof, receive_elements}
use webel.Http.BodyChunksFrame.{
  in_start_chunk, State, start_chunk_state, expecting_lf_after_size_state, BodyChunksFrame, step,
  process,
}

-- A chunk: the digits of its size, and its bytes.
pub record Chunk : Type 0 where
  pub first_digit : ℕ
  pub digits : List ℕ
  pub bytes : List ℕ

-- The digits are the size, which is not 0, and fits into a uint32.
abbrev pub IsChunk : Chunk → Type 0
IsChunk c =
    All (λ h. h < 16) (c.first_digit ∷ c.digits)
    × (length (c.first_digit ∷ c.digits) < 256)
    × (horner 0x10 0 (c.first_digit ∷ c.digits) ≡ length c.bytes)
    × (0 < length c.bytes)
    × (length c.bytes < 2 ^ 32)

abbrev pub size_text : ℕ → List ℕ → List ℕ
size_text h hs = map hex_digit (h ∷ hs)

read-append :
    (xs rest : List ℕ)
    → 0 < length xs
    → read (received_bytes (xs ++ rest)) (length xs) ≡ returns (some (xs, received_bytes rest))
unfolding read
read-append [] rest h = absurd (omega arith)
read-append (x ∷ xs) rest h = rw (take-append xs rest, read) (rw (drop-append xs rest) refl)

hex_digit-cr : (h : ℕ) → h < 16 → hex_digit h ≢ cr
hex_digit-cr h k = ground arith

module _ (f : BodyChunksFrame) where
  -- The frame in a state, with a size.
  abbrev pub at : State → NumberStream → BodyChunksFrame
  at state size = record f { state = state; size = size }

  abbrev step_at : State → NumberStream → List ℕ → Processed BodyChunksFrame
  step_at state size bs = step (at state size) (received_bytes bs)

  digit_step :
      (size : NumberStream) (h : ℕ) (rest : List ℕ)
      → h < 16
      → step_at start_chunk_state size (hex_digit h ∷ rest)
        ≡ returns
            (ready, at start_chunk_state (push_digit (2 ^ 32) 0x10 size h), received_bytes rest)
  unfolding step in_start_chunk read_next write_digit
  digit_step size h rest k =
      rw (ne→== (hex_digit h) cr (hex_digit-cr h k), in_start_chunk)
        (rw (base_16-hex_digit h k, write_digit) refl)

  pub size_digits :
      (hs : List ℕ) (size : NumberStream) (rest : List ℕ)
      → All (λ h. h < 16) hs
      → Advances process
          (length hs)
          (at start_chunk_state size)
          (received_bytes (map hex_digit hs ++ rest))
          (at start_chunk_state (push_digits (2 ^ 32) 0x10 size hs))
          (received_bytes rest)
  unfolding push_digits
  size_digits [] size rest k = Advances-none process _ _
  size_digits (h ∷ hs) size rest (k, ks) =
      Advances-suc process (length hs) _ _ _ _ _ _ refl (digit_step size h _ k)
        (size_digits hs (push_digit (2 ^ 32) 0x10 size h) rest ks)

  -- The digits of a size, and the line end behind them, up to the LF.
  pub size_line :
      (h : ℕ) (hs rest : List ℕ)
      → All (λ h. h < 16) (h ∷ hs)
      → length (h ∷ hs) < 256
      → Advances process
          (length (h ∷ hs) + 1)
          (at start_chunk_state (reset f.size))
          (received_bytes (size_text h hs ++ cr ∷ rest))
          (at expecting_lf_after_size_state
            (record { value = horner 0x10 0 (h ∷ hs) % 2 ^ 32; count = length (h ∷ hs) }))
          (received_bytes rest)
  unfolding step in_start_chunk read_next
  size_line h hs rest k l =
      Advances-then process (length (h ∷ hs)) 1 _ _
        (at start_chunk_state
          (record { value = horner 0x10 0 (h ∷ hs) % 2 ^ 32; count = length (h ∷ hs) }))
        (received_bytes (cr ∷ rest)) _ _
        (subst
          (λ z.
            Advances process (length (h ∷ hs)) (at start_chunk_state (reset f.size))
              (received_bytes (size_text h hs ++ cr ∷ rest)) (at start_chunk_state z)
              (received_bytes (cr ∷ rest)))
          (push_digits-horner (2 ^ 32) 0x10 f.size h hs (omega arith) l)
          (size_digits (h ∷ hs) (reset f.size) (cr ∷ rest) k))
        (Advances-one process _ _ _ _ refl refl)

-- The chunk frame under Basic::process_event: the bytes of the chunk go out in one call, and then the
-- end of the stream.
abbrev pub filled : LengthBodyFrame → List ℕ → LengthBodyFrame
filled f bytes = record f {
  state = succeeded_state;
  bytes_expected = length bytes;
  bytes_received = length bytes;
  content = f.content ++ write_elements bytes ∷ write_eof ∷ [];
}

abbrev pub awaiting : LengthBodyFrame → ℕ → LengthBodyFrame
awaiting f n = record f { state = start_state; bytes_expected = n; bytes_received = 0 }

receives_all :
    (f : LengthBodyFrame) (bytes : List ℕ)
    → length bytes < 2 ^ 32
    → receive_elements (awaiting f (length bytes)) bytes ≡ returns (filled f bytes)
unfolding receive_elements
receives_all f bytes h =
    rw (same, receive_elements) (rw (==_self (length bytes)) (rw append_assoc refl))
  where
    same : (0 + length bytes) % 2 ^ 32 ≡ length bytes
    same = omega arith

chunk_step :
    (f : LengthBodyFrame) (bytes rest : List ℕ)
    → 0 < length bytes
    → length bytes < 2 ^ 32
    → webel.Http.LengthBodyFrame.step (awaiting f (length bytes)) (received_bytes (bytes ++ rest))
      ≡ returns (ready, filled f bytes, received_bytes rest)
unfolding webel.Http.LengthBodyFrame.step
chunk_step f bytes rest h k =
    rw (all, webel.Http.LengthBodyFrame.step)
      (rw (read-append bytes rest h) (rw (receives_all f bytes k) refl))
  where
    all : (2 ^ 32 + length bytes - 0) % 2 ^ 32 ≡ length bytes
    all = omega arith

pub chunk_processed :
    (f : LengthBodyFrame) (bytes rest : List ℕ)
    → 0 < length bytes
    → length bytes < 2 ^ 32
    → process_event webel.Http.LengthBodyFrame.process
        (awaiting f (length bytes))
        (received_bytes (bytes ++ rest))
      ≡ returns (exited, filled f bytes, received_bytes rest)
unfolding process_event
chunk_processed f bytes rest h k =
    Advances-exited webel.Http.LengthBodyFrame.process 1 _ _ _ _ max_slices
      (Advances-one webel.Http.LengthBodyFrame.process _ _ _ _ refl (chunk_step f bytes rest h k))
      refl (omega arith)
