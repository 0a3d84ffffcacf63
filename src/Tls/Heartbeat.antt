-- ===== src/Tls/Heartbeat.antt =====
-- HeartbeatMessageFrame (Tls.HeartbeatMessageFrame.h, Tls.HeartbeatMessageFrame.cpp) and
-- HeartbeatMessage (Tls.Types.h). The message's type and payload_length stand in the number frames
-- that read them, its payload and padding in the memory ranges.
pub mod Bounds
mod Runs
use webel.Prelude.{
  ==_self, ==→eq, All, All-append, Bool, Bool-cases, List, Option, Option-cases, Outcome,
  Outcome-cases, Returns, Returns-returns, [], ap, append-nil, append_assoc, arith, drop,
  drop-append, false, fatal, get_elem?, if◌then◌else◌, inl, inr, leb, leb→le, length, length-append,
  le→leb, ltb, ltb→lt, map, ne→==, none, not, refl, replicate, returns, set, some, subst, suc, sym,
  take, take-append, true, zero, ℕ, ◌%◌, ◌&&◌, ◌*◌, ◌++◌, ◌+◌, ◌-◌, ◌/◌, ◌<◌, ◌==◌, ◌>>=◌, ◌^◌,
  ◌||◌, ◌↔◌, ◌∎, ◌∙◌, ◌∷◌, ◌≡◌, ◌≡⟨◌⟩◌, ◌≢◌, ◌≤◌, ◌⊎◌, two_pow_add, two_pow_le, two_pow_positive,
  Whenever, Whenever->>=, Whenever-returns, Whenever-any, Whenever-if, Whenever-option,
}
use webel.Basic.Frame.{
  start_state, succeeded_state, is_in_progress, is_succeeded, is_failed, switch_to_state,
  ProcessResult, blocked, ready, exited, Event, element_stream_ending, received_bytes, other_event,
  read_next, read, Processed, Process, max_slices, process_event_loop, process_event,
  process_event_throw_error_on_fail, process_event_ignore_failures,
  process_event_change_state_on_fail,
}
use webel.Basic.Frame.Owner.{through, through-Whenever}
use webel.Basic.NumberFrame.{
  serialize_number, NumberFrame, receiving_state, reset_number, set_byte, receive_byte, number_step,
  number_process, StreamFrame, reset_stream, receive_elements, stream_step, stream_process,
}
use webel.Basic.MemoryRange.{MemoryRange, empty_range, reset_range, range_step, range_process}

pub data State : Type 0 where
  type_frame_pending_state payload_length_frame_pending_state payload_frame_pending_state : State
  padding_frame_pending_state done_state : State
  type_frame_failed payload_length_frame_failed payload_length_error : State
  payload_frame_failed padding_frame_failed : State

-- The number of a state.
abbrev pub code : State → ℕ
code type_frame_pending_state = 0
code payload_length_frame_pending_state = 1
code payload_frame_pending_state = 2
code padding_frame_pending_state = 3
code done_state = 0x10000
code type_frame_failed = 0x10001
code payload_length_frame_failed = 0x10002
code payload_length_error = 0x10003
code payload_frame_failed = 0x10004
code padding_frame_failed = 0x10005

pub record HeartbeatMessageFrame : Type 0 where
  pub state : State
  pub plaintext_length : ℕ
  pub padding_length : ℕ
  pub type_frame : NumberFrame
  pub payload_length_frame : NumberFrame
  pub payload_frame : MemoryRange
  pub padding_frame : MemoryRange

-- payload_length is a uint16.
abbrev pub payload_length : HeartbeatMessageFrame → ℕ
payload_length f = f.payload_length_frame.value % 2 ^ 16

-- The constructor, and set_plaintext_length with a uint32.
abbrev pub initial : ℕ → HeartbeatMessageFrame
initial plaintext_length = record {
  state = type_frame_pending_state;
  plaintext_length = plaintext_length;
  padding_length = 0;
  type_frame = record { state = start_state; received = 0; value = 1 };
  payload_length_frame = record { state = start_state; received = 0; value = 0 };
  payload_frame = empty_range;
  padding_frame = empty_range;
}

unfoldable pub goto : State → HeartbeatMessageFrame → Outcome HeartbeatMessageFrame
goto next f =
    switch_to_state (code f.state) (code next) >>= λ n. returns (record f { state = next })

-- payload_length_frame_pending_state behind the length. The sums and differences are of uint32; none
-- of them wraps.
unfoldable pub check_lengths : HeartbeatMessageFrame → Outcome HeartbeatMessageFrame
check_lengths f =
    let non_padding_length = payload_length f + 3 in
    let padding_length = f.plaintext_length - non_padding_length in
    let f' = record f { padding_length = padding_length } in
    if ltb f.plaintext_length non_padding_length
    then goto payload_length_error f
    else if ltb padding_length 16
    then goto payload_length_error f'
    else if ltb 0x4000 f.plaintext_length
    then goto payload_length_error f'
    else goto payload_frame_pending_state
        (record f' { payload_frame = reset_range (payload_length f) })

unfoldable pub begin_padding : HeartbeatMessageFrame → Outcome HeartbeatMessageFrame
begin_padding f =
    goto padding_frame_pending_state (record f { padding_frame = reset_range f.padding_length })

-- process_event: the switch on the state; done_state and the failures are its default.
unfoldable pub dispatch : State → HeartbeatMessageFrame → Event → Processed HeartbeatMessageFrame
dispatch type_frame_pending_state f event =
    through (number_process 1) (λ g. g.type_frame) (λ g s. record g { type_frame = s })
      (goto type_frame_failed f) (goto payload_length_frame_pending_state) f event
dispatch payload_length_frame_pending_state f event =
    through (number_process 2) (λ g. g.payload_length_frame)
      (λ g s. record g { payload_length_frame = s }) (goto payload_length_frame_failed f)
      check_lengths f event
dispatch payload_frame_pending_state f event =
    through range_process (λ g. g.payload_frame) (λ g s. record g { payload_frame = s })
      (goto payload_frame_failed f) begin_padding f event
dispatch padding_frame_pending_state f event =
    through range_process (λ g. g.padding_frame) (λ g s. record g { padding_frame = s })
      (goto padding_frame_failed f) (goto done_state) f event
dispatch state f event = fatal
