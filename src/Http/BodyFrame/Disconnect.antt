-- ===== src/Http/BodyFrame/Disconnect.antt =====
-- The body that ends with the connection (Http.DisconnectBodyFrame.cpp).
use webel.Basic.Frame.{
  start_state, succeeded_state, blocked, ready, exited, element_stream_ending, received_bytes, read,
  Processed, max_slices, process_event_loop, process_event,
}
use webel.Basic.Frame.Iterations.{Advances-one}
use webel.Http.BodyFrame.{DisconnectBodyFrame, receive, disconnect_step, disconnect_process}
use webel.Prelude.{
  All, List, [], ap, append_assoc, arith, drop, length, refl, returns, suc, take, zero, ℕ, ◌++◌,
  ◌-◌, ◌<◌, ◌>>=◌, ◌^◌, ◌∙◌, ◌∷◌, ◌≡◌, ◌≤◌,
}
use webel.Http.LengthBodyFrame.{Call, write_elements, write_eof}

abbrev pub receiving : List Call → DisconnectBodyFrame
receiving content = record { state = start_state; content = content }

-- The calls for packets that arrived one by one.
abbrev pub calls : List (List ℕ) → List Call
calls [] = []
calls ([] ∷ packets) = calls packets
calls ((b ∷ bs) ∷ packets) = write_elements (b ∷ bs) ∷ calls packets

-- The packets, and the end of the stream behind them.
unfoldable pub feed : DisconnectBodyFrame → List (List ℕ) → Processed DisconnectBodyFrame
feed f [] = process_event disconnect_process f element_stream_ending
feed f (bytes ∷ packets) =
    process_event disconnect_process f (received_bytes bytes) >>= λ (result, f', event).
    feed f' packets

ended :
    (content : List Call)
    → process_event disconnect_process (receiving content) element_stream_ending
      ≡ returns (
        exited,
        record { state = succeeded_state; content = content ++ write_eof ∷ [] },
        element_stream_ending,
      )
unfolding process_event process_event_loop disconnect_step
ended content = refl

packet-empty :
    (content : List Call)
    → process_event disconnect_process (receiving content) (received_bytes [])
      ≡ returns (blocked, receiving content, received_bytes [])
unfolding process_event process_event_loop disconnect_step receive read
packet-empty content = refl

take-rest : (n : ℕ) (bs : List ℕ) → length bs ≤ n → take n bs ≡ bs
take-rest zero [] h = refl
take-rest zero (b ∷ bs) h = absurd (omega arith)
take-rest (suc n) [] h = refl
take-rest (suc n) (b ∷ bs) h = ap (λ t. b ∷ t) (take-rest n bs (omega arith))

drop-rest : (n : ℕ) (bs : List ℕ) → length bs ≤ n → drop n bs ≡ []
drop-rest zero [] h = refl
drop-rest zero (b ∷ bs) h = absurd (omega arith)
drop-rest (suc n) [] h = refl
drop-rest (suc n) (b ∷ bs) h = drop-rest n bs (omega arith)

packet_step :
    (content : List Call) (b : ℕ) (bs : List ℕ)
    → length bs < 2 ^ 32 - 1
    → disconnect_step (receiving content) (received_bytes (b ∷ bs))
      ≡ returns (ready, receiving (content ++ write_elements (b ∷ bs) ∷ []), received_bytes [])
unfolding disconnect_step receive read
packet_step content b bs h =
    rw (take-rest 0xFFFFFFFE bs (omega arith), drop-rest 0xFFFFFFFE bs (omega arith)) refl

packet_rest :
    (content : List Call)
    → process_event_loop disconnect_process (max_slices - 1) (receiving content) (received_bytes [])
      ≡ returns (blocked, receiving content, received_bytes [])
unfolding process_event_loop disconnect_step receive read
packet_rest content = refl

packet :
    (content : List Call) (b : ℕ) (bs : List ℕ)
    → length bs < 2 ^ 32 - 1
    → process_event disconnect_process (receiving content) (received_bytes (b ∷ bs))
      ≡ returns (blocked, receiving (content ++ write_elements (b ∷ bs) ∷ []), received_bytes [])
unfolding process_event process_event_loop
packet content b bs h =
    let grown = content ++ write_elements (b ∷ bs) ∷ [] in
    Advances-one disconnect_process (receiving content) (received_bytes (b ∷ bs)) (receiving grown)
      (received_bytes []) refl (packet_step content b bs h) max_slices (omega arith)
    ∙ packet_rest grown

-- Whatever the packets are, as long as each has fewer than 2 ^ 32 bytes, the stream of the content
-- gets the bytes of each that is not empty, in order, and then the end of the stream; and the frame
-- ends with the stream, and not before.
pub feed-calls :
    (content : List Call) (packets : List (List ℕ))
    → All (λ bytes. length bytes < 2 ^ 32) packets
    → feed (receiving content) packets
      ≡ returns (
        exited,
        record { state = succeeded_state; content = content ++ (calls packets ++ write_eof ∷ []) },
        element_stream_ending,
      )
unfolding feed
feed-calls content [] h = ended content
feed-calls content ([] ∷ packets) (h, hs) =
    rw (packet-empty content) (feed-calls content packets hs)
feed-calls content ((b ∷ bs) ∷ packets) (h, hs) = rw (packet content b bs (omega (arith, h))) (
    feed-calls (content ++ write_elements (b ∷ bs) ∷ []) packets hs
    ∙ ap
        (λ t.
          returns (exited, record { state = succeeded_state; content = t }, element_stream_ending))
        (append_assoc content (write_elements (b ∷ bs) ∷ []) (calls packets ++ write_eof ∷ [])))
