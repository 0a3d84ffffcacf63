-- ===== src/Tls/RecordFrame.antt =====
-- RecordFrame (Tls.RecordFrame.h, Tls.RecordFrame.cpp) and Record (Tls.Types.h), whose fields stand in
-- the frames that read them.
pub mod RoundTrip
mod Runs
use webel.Prelude.{
  ==_self, ==→eq, All, All-append, Bool, Bool-cases, List, Option, Option-cases, Outcome,
  Outcome-cases, Returns, Returns-returns, [], ap, append-nil, append_assoc, arith, drop,
  drop-append, false, fatal, get_elem?, if◌then◌else◌, inl, inr, leb, leb→le, length, length-append,
  le→leb, ltb, ltb→lt, map, ne→==, none, not, refl, replicate, returns, set, some, subst, suc, sym,
  take, take-append, true, zero, ℕ, ◌%◌, ◌&&◌, ◌*◌, ◌++◌, ◌+◌, ◌-◌, ◌/◌, ◌<◌, ◌==◌, ◌>>=◌, ◌^◌,
  ◌||◌, ◌↔◌, ◌∎, ◌∙◌, ◌∷◌, ◌≡◌, ◌≡⟨◌⟩◌, ◌≢◌, ◌≤◌, ◌⊎◌, two_pow_add, two_pow_le, two_pow_positive,
  Whenever, Whenever->>=, Whenever-returns, Whenever-any, Whenever-if, Whenever-option, Returns->>=,
}
use webel.Basic.Frame.{
  start_state, succeeded_state, is_in_progress, is_succeeded, is_failed, switch_to_state,
  ProcessResult, blocked, ready, exited, Event, element_stream_ending, received_bytes, other_event,
  read_next, read, Processed, Process, max_slices, process_event_loop, process_event,
  process_event_throw_error_on_fail, process_event_ignore_failures,
  process_event_change_state_on_fail,
}
use webel.Basic.Frame.Owner.{through}
use webel.Basic.NumberFrame.{
  serialize_number, NumberFrame, receiving_state, reset_number, set_byte, receive_byte, number_step,
  number_process, StreamFrame, reset_stream, receive_elements, stream_step, stream_process,
}
use webel.Basic.MemoryRange.{MemoryRange, empty_range, reset_range, range_step, range_process}

pub data State : Type 0 where
  type_frame_pending_state version_frame_pending_state length_frame_pending_state : State
  fragment_frame_pending_state done_state : State
  type_frame_failed version_frame_failed length_frame_failed fragment_frame_failed : State

-- The number of a state.
abbrev pub code : State → ℕ
code type_frame_pending_state = 0
code version_frame_pending_state = 1
code length_frame_pending_state = 2
code fragment_frame_pending_state = 3
code done_state = 0x10000
code type_frame_failed = 0x10001
code version_frame_failed = 0x10002
code length_frame_failed = 0x10003
code fragment_frame_failed = 0x10004

pub record RecordFrame : Type 0 where
  pub state : State
  pub type_frame : NumberFrame
  pub version_frame : NumberFrame
  pub length_frame : NumberFrame
  pub fragment_frame : MemoryRange

pub record Record : Type 0 where
  pub type : ℕ
  pub version : ℕ
  pub length : ℕ
  pub fragment : List ℕ

-- reset; the fragment's frame is reset behind the length.
unfoldable pub reset : RecordFrame → RecordFrame
reset f = record f {
  state = type_frame_pending_state;
  type_frame = reset_number f.type_frame;
  version_frame = reset_number f.version_frame;
  length_frame = reset_number f.length_frame;
}

unfoldable pub goto : State → RecordFrame → Outcome RecordFrame
goto next f =
    switch_to_state (code f.state) (code next) >>= λ n. returns (record f { state = next })

unfoldable pub begin_fragment : RecordFrame → Outcome RecordFrame
begin_fragment f =
    goto fragment_frame_pending_state
      (record f { fragment_frame = reset_range f.length_frame.value })

-- process_event: the switch on the state; done_state and the failures are its default.
unfoldable pub dispatch : State → RecordFrame → Event → Processed RecordFrame
dispatch type_frame_pending_state f event =
    through (number_process 1) (λ g. g.type_frame) (λ g s. record g { type_frame = s })
      (goto type_frame_failed f) (goto version_frame_pending_state) f event
dispatch version_frame_pending_state f event =
    through (number_process 2) (λ g. g.version_frame) (λ g s. record g { version_frame = s })
      (goto version_frame_failed f) (goto length_frame_pending_state) f event
dispatch length_frame_pending_state f event =
    through (number_process 2) (λ g. g.length_frame) (λ g s. record g { length_frame = s })
      (goto length_frame_failed f) begin_fragment f event
dispatch fragment_frame_pending_state f event =
    through range_process (λ g. g.fragment_frame) (λ g s. record g { fragment_frame = s })
      (goto fragment_frame_failed f) (goto done_state) f event
dispatch state f event = fatal

abbrev pub record_process : Process RecordFrame
record_process = record {
  in_progress = λ f. is_in_progress (code f.state);
  failed = λ f. is_failed (code f.state);
  step = λ f event. dispatch f.state f event;
}

-- serialize<Tls::Record>.
unfoldable pub serialize_record : Record → List ℕ
serialize_record r =
    serialize_number 1 r.type
    ++ (serialize_number 2 r.version ++ (serialize_number 2 r.length ++ r.fragment))
