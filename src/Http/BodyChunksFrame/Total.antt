-- ===== src/Http/BodyChunksFrame/Total.antt =====
-- Basic::process_event on a body in chunks (Http.BodyChunksFrame.cpp, Http.LengthBodyFrame.cpp,
-- Http.HeadersFrame.cpp).
use webel.Basic.Numbers.{hex_digit}
use webel.Prelude.{
  sym, append_assoc, [], length-append, suc, arith, ◌≤◌, ap, map, ℕ, ◌+◌, ◌<◌, ◌≡◌, refl, returns,
  List, ◌∷◌, ◌++◌, length, All, subst,
}
use webel.Basic.Numbers.Streams.{NumberStream}
use webel.Basic.Frame.{process_event_loop, received_bytes, exited, process_event, max_slices}
use webel.Basic.Frame.Iterations.{Advances-exited, Advances, Advances-then}
use webel.Http.Characters.{cr, lf}
use webel.Http.LengthBodyFrame.{Call, write_eof}
use webel.Http.HeadersFrame.{Text, serialize}
use webel.Http.HeadersFrame.RoundTrip.{IsHeader}
use webel.Http.BodyChunksFrame.{initial, done_state, BodyChunksFrame, process}
use webel.Http.BodyChunksFrame.Chunk.{IsChunk, Chunk, size_text}
use webel.Http.Characters.{ascii_encode}
use webel.Http.BodyChunksFrame.RoundTrip.{
  chunk_text, chunks_text, chunks_calls, behind_chunks, costs, many_chunks, behind_chunks-content,
  behind_chunks-headers, behind_chunks-ready,
}
use webel.Http.BodyChunksFrame.Body.{IsZero, last_text, finished, last_part}

length-map : (f : ℕ → ℕ) (xs : List ℕ) → length (map f xs) ≡ length xs
length-map f [] = refl
length-map f (x ∷ xs) = ap suc (length-map f xs)

-- No chunk takes more iterations than it has bytes.
chunk_cost :
    (c : Chunk)
    → 0 < length c.bytes
    → length (c.first_digit ∷ c.digits) + 1 + 4 ≤ length (chunk_text c)
chunk_cost c h = omega (
  arith,
  h,
  length-map hex_digit c.digits,
  length-append (size_text c.first_digit c.digits) (cr ∷ lf ∷ (c.bytes ++ (cr ∷ lf ∷ []))),
  length-append c.bytes (cr ∷ lf ∷ []),
)

costs-le : (cs : List Chunk) → All IsChunk cs → costs cs ≤ length (chunks_text cs)
costs-le [] h = omega arith
costs-le (c ∷ cs) (h, hs) =
    omega (arith, chunk_cost c h.3, costs-le cs hs, length-append (chunk_text c) (chunks_text cs))

-- A body in chunks, with trailing headers.
abbrev pub body_text : (ℕ → ℕ) → ℕ → List Chunk → ℕ → List ℕ → List (Text × Text) → List ℕ
body_text pointer r cs h hs headers =
    chunks_text cs ++ last_text h hs (serialize (ascii_encode pointer r) headers)

body_text-append :
    (pointer : ℕ → ℕ) (r : ℕ) (cs : List Chunk) (h : ℕ) (hs : List ℕ) (headers : List (Text × Text))
    (rest : List ℕ)
    → body_text pointer r cs h hs headers ++ rest
      ≡ chunks_text cs ++ last_text h hs (serialize (ascii_encode pointer r) headers ++ rest)
body_text-append pointer r cs h hs headers rest = simp append_assoc

serialize-long :
    (pointer : ℕ → ℕ) (r : ℕ) (headers : List (Text × Text))
    → 2 ≤ length (serialize (ascii_encode pointer r) headers)
unfolding serialize
serialize-long pointer r [] = omega arith
serialize-long pointer r ((n, v) ∷ headers) =
    omega (arith, length-append (ascii_encode pointer r n) _)

-- The trailer alone, and all iterations, are below the bound when the whole text is.
within_slices :
    (cs : List Chunk) (h : ℕ) (hs trailer rest : List ℕ)
    → 2 ≤ length trailer
    → All IsChunk cs
    → length (chunks_text cs ++ last_text h hs (trailer ++ rest)) < max_slices
    → (length (trailer ++ rest) < max_slices) × (costs cs + (length (h ∷ hs) + 1 + 2) < max_slices)
within_slices cs h hs trailer rest k valid l =
    let whole = length-append (chunks_text cs) (last_text h hs (trailer ++ rest)) in
    let last = length-append (size_text h hs) (cr ∷ lf ∷ (trailer ++ rest)) in
    let digits = length-map hex_digit hs in
    let both = length-append trailer rest in
    (
      omega (arith, l, whole, last),
      omega (arith, l, whole, last, digits, both, k, costs-le cs valid),
    )

-- A fresh BodyChunksFrame under Basic::process_event, given any number of chunks, each of between 1
-- and 2 ^ 32 - 1 bytes behind their number in 1 to 255 upper case hexadecimal digits, then a chunk
-- whose digits give 0, then trailing headers that the format can carry, and anything behind them,
-- fewer than 0x10000000 bytes in all: it ends in done_state, has added exactly these headers, leaves
-- what is behind the body unread, and the calls on the content stream are, for each chunk, one of
-- write_elements with its bytes and one of write_eof, and at the end one more of write_eof.
pub process_event-body_text :
    (content : List Call) (nvc headers : List (Text × Text)) (cs : List Chunk) (h : ℕ)
    (hs rest : List ℕ) (pointer : ℕ → ℕ) (r : ℕ)
    → All IsChunk cs
    → IsZero h hs
    → All IsHeader headers
    → length (body_text pointer r cs h hs headers ++ rest) < max_slices
    → (f : BodyChunksFrame) × (process_event process
          (initial content nvc)
          (received_bytes (body_text pointer r cs h hs headers ++ rest))
        ≡ returns (exited, f, received_bytes rest))
      × (f.state ≡ done_state)
      × (f.chunk_frame.content ≡ (content ++ chunks_calls cs) ++ write_eof ∷ [])
      × (f.headers_frame.nvc ≡ nvc ++ headers)
unfolding process_event
process_event-body_text content nvc headers cs h hs rest pointer r valid zero representable l =
    let start : BodyChunksFrame = initial content nvc in
    let f : BodyChunksFrame = behind_chunks start cs in
    let trailer = serialize (ascii_encode pointer r) headers in
    let fresh = behind_chunks-headers cs start in
    let size : NumberStream = record { value = 0; count = length (h ∷ hs) } in
    let bound =
      within_slices cs h hs trailer rest (serialize-long pointer r headers) valid (
        subst (λ bs. length bs < max_slices) (body_text-append pointer r cs h hs headers rest) l) in
    (
      finished f headers nvc fresh representable pointer r size,
      subst
          (λ bs.
            process_event_loop process max_slices start (received_bytes bs)
            ≡ returns (
              exited,
              finished f headers nvc fresh representable pointer r size,
              received_bytes rest,
            ))
          (sym (body_text-append pointer r cs h hs headers rest))
          (Advances-exited process (costs cs + (length (h ∷ hs) + 1 + 2)) _ _ _ _ max_slices
            (Advances-then process (costs cs) (length (h ∷ hs) + 1 + 2) _ _ _ _ _ _
              (many_chunks cs start (last_text h hs (trailer ++ rest)) valid)
              (subst
                (λ g.
                  Advances process (length (h ∷ hs) + 1 + 2) g
                    (received_bytes (last_text h hs (trailer ++ rest)))
                    (finished f headers nvc fresh representable pointer r size)
                    (received_bytes rest))
                (sym (behind_chunks-ready cs start))
                (last_part f headers nvc fresh representable pointer r h hs rest zero bound.0)))
            refl bound.1),
      refl,
      ap (λ calls. calls ++ write_eof ∷ []) (behind_chunks-content cs start),
      refl,
    )
