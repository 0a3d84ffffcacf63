-- ===== src/Http/HeadersFrame/Runs.antt =====
-- Runs of the headers frame, and the theorems on byte frames at its states.
use webel.Prelude.{◌≡◌, refl, List, [], ◌∷◌, ◌++◌, ℕ, none, returns, ◌>>=◌, if◌then◌else◌, arith}
use webel.Basic.Frame.{blocked, exited, received_bytes, process_event, process_event_loop}
use webel.Basic.Frame.Bytes.{byte_process, feed, finish, loop-feed}
use webel.Basic.Frame.Split.{loop-append, followed_by}
use webel.Basic.Frame.Loop.{Settled}
use webel.Http.Characters.{ascii_encode, encode_element, token}
use webel.Http.HeadersFrame.{
  Text, HeadersFrame, initial, done_state, receive, in_progress, failed, process, serialize,
}
use webel.Http.HeadersFrame.RoundTrip.{feed-serialize}
use webel.Http.HeadersFrame.Safety.{HasStrings, receive-HasStrings, process_event-returns}

abbrev host : Text × Text
host = (b'H' ∷ b'o' ∷ [], b'a' ∷ b' ' ∷ b'b' ∷ [])

abbrev te : Text × Text
te = (b'T' ∷ [], [])

-- The encoder of an index that holds no code point.
abbrev ascii : Text → List ℕ
ascii = ascii_encode (λ c. 0) 0x7F

serialize_headers :
    serialize ascii (host ∷ te ∷ [])
    ≡ b'H' ∷ b'o' ∷ b':' ∷ b' ' ∷ b'a' ∷ b' ' ∷ b'b' ∷ 13 ∷ 10 ∷ b'T' ∷ b':' ∷ b' ' ∷ 13 ∷ 10 ∷ 13
      ∷ 10 ∷ []
unfolding serialize ascii_encode encode_element
serialize_headers = refl

-- A continuation line is folded into one space.
feed_folded :
    feed in_progress failed receive
      (initial [])
      (b'n' ∷ b':' ∷ b'v' ∷ 13 ∷ 10 ∷ 9 ∷ b' ' ∷ b'w' ∷ 13 ∷ 10 ∷ 13 ∷ 10 ∷ b'!' ∷ [])
    ≡ returns (
      record {
        state = done_state;
        name = none;
        value = none;
        nvc = (b'n' ∷ [], b'v' ∷ b' ' ∷ b'w' ∷ []) ∷ [];
      },
      b'!' ∷ [],
    )
unfolding feed receive token
feed_folded = refl

feed-serialize_example :
    feed in_progress failed receive (initial []) (serialize ascii (host ∷ te ∷ []) ++ b'!' ∷ [])
    ≡ returns
        (record { state = done_state; name = none; value = none; nvc = host ∷ te ∷ [] }, b'!' ∷ [])
unfolding token
feed-serialize_example =
    feed-serialize (λ c. 0) 0x7F (host ∷ te ∷ []) [] (b'!' ∷ [])
      (((refl, (refl, tt)), omega arith), (((refl, tt), tt), tt))

process_event-returns_example :
    (h : HeadersFrame) × (rest : List ℕ) × (process_event process
        (initial [])
        (received_bytes (b'n' ∷ b'?' ∷ 0 ∷ []))
      ≡ returns (if in_progress h then blocked else exited, h, received_bytes rest))
    × Settled in_progress failed receive HasStrings receive-HasStrings (b'n' ∷ b'?' ∷ 0 ∷ []) h rest
process_event-returns_example = process_event-returns [] (b'n' ∷ b'?' ∷ 0 ∷ []) (omega arith)

loop-feed_example :
    process_event_loop
      (byte_process in_progress failed receive)
      4
      (initial [])
      (received_bytes (13 ∷ 10 ∷ b'x' ∷ []))
    ≡ (feed in_progress failed receive (initial []) (13 ∷ 10 ∷ b'x' ∷ []) >>= λ t.
        returns (finish in_progress failed receive t))
loop-feed_example =
    loop-feed in_progress failed receive 4 (initial []) (13 ∷ 10 ∷ b'x' ∷ []) (omega arith)

loop-append_example :
    process_event_loop
      (byte_process in_progress failed receive)
      9
      (initial [])
      (received_bytes ((b'n' ∷ b':' ∷ []) ++ (13 ∷ 10 ∷ [])))
    ≡ (process_event_loop
          (byte_process in_progress failed receive)
          9
          (initial [])
          (received_bytes (b'n' ∷ b':' ∷ []))
        >>= λ (result, s', left).
            process_event_loop
              (byte_process in_progress failed receive)
              9
              s'
              (followed_by left (13 ∷ 10 ∷ [])))
loop-append_example =
    loop-append in_progress failed receive 9 (initial []) (b'n' ∷ b':' ∷ []) (13 ∷ 10 ∷ [])
      (omega arith)
