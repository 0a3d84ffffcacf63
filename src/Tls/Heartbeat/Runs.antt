-- ===== src/Tls/Heartbeat/Runs.antt =====
-- Runs of the heartbeat message's frame (Tls.HeartbeatMessageFrame.cpp).
use webel.Prelude.{[], refl, returns, ◌∷◌, ◌≡◌}
use webel.Basic.MemoryRange.{reset_range}
use webel.Basic.Frame.{
  succeeded_state, ready, received_bytes, process_event, process_event_change_state_on_fail,
  process_event_loop, read_next,
}
use webel.Basic.Frame.Owner.{through}
use webel.Basic.NumberFrame.{number_step, receive_byte}
use webel.Tls.Heartbeat.{
  HeartbeatMessageFrame, State, dispatch, check_lengths, goto, initial, payload_length_error,
}
use webel.Tls.Heartbeat.Bounds.{IsBounded, process_event-IsBounded}

-- A frame in front of its length, in a record of 24 bytes.
abbrev before_length : HeartbeatMessageFrame
before_length = record (initial 24) { state = State.payload_length_frame_pending_state }

-- A payload of 5 bytes leaves 16 bytes for the padding.
abbrev before_payload : HeartbeatMessageFrame
before_payload = record (initial 24) {
  state = State.payload_frame_pending_state;
  padding_length = 16;
  payload_length_frame = record { state = succeeded_state; received = 2; value = 5 };
  payload_frame = reset_range 5;
}

-- A payload of 6 bytes leaves too few.
length_too_large :
    dispatch before_length.state before_length (received_bytes (0 ∷ 6 ∷ 9 ∷ []))
    ≡ returns (
      ready,
      record before_length {
        state = payload_length_error;
        padding_length = 15;
        payload_length_frame = record { state = succeeded_state; received = 2; value = 6 };
      },
      received_bytes (9 ∷ []),
    )
unfolding dispatch check_lengths goto through process_event_change_state_on_fail process_event
    process_event_loop number_step read_next receive_byte
length_too_large = refl

process_event-IsBounded_example : IsBounded before_payload
unfolding dispatch check_lengths goto through process_event_change_state_on_fail process_event
    process_event_loop number_step read_next receive_byte
process_event-IsBounded_example =
    process_event-IsBounded before_length before_payload (received_bytes (0 ∷ 5 ∷ 9 ∷ []))
      (received_bytes (9 ∷ [])) ready tt refl
