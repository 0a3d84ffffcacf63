-- ===== src/Http/BodyChunksFrame.antt =====
-- class BodyChunksFrame (Http.BodyChunksFrame.h, Http.BodyChunksFrame.cpp). It shares the content
-- stream with its chunk frame; the calls made on the stream stand in the chunk frame's record.
pub mod Chunk
pub mod RoundTrip
pub mod Body
pub mod Total
mod Runs
use webel.Prelude.{
  ℕ, ◌+◌, ◌^◌, none, some, List, Outcome, returns, fatal, ◌>>=◌, ◌==◌, if◌then◌else◌,
}
use webel.Basic.Numbers.{base_16}
use webel.Basic.Numbers.Streams.{NumberStream, reset, write_digit}
use webel.Basic.Frame.{
  blocked, ready, Event, read_next, Processed, Process, is_in_progress, is_failed, succeeded_state,
  switch_to_state, process_event_change_state_on_fail,
}
use webel.Http.Characters.{cr, lf}
use webel.Http.LengthBodyFrame.{LengthBodyFrame, Call, write_eof, call}
use webel.Http.LengthBodyFrame
use webel.Http.HeadersFrame.{HeadersFrame, Text}
use webel.Http.HeadersFrame

pub data State : Type 0 where
  start_chunk_state expecting_lf_after_size_state chunk_frame_pending_state : State
  expecting_cr_after_chunk_state expecting_lf_after_chunk_state headers_frame_pending : State
  done_state start_chunk_error expecting_lf_after_size_error chunk_frame_failed : State
  expecting_cr_after_chunk_error expecting_lf_after_chunk_error header_frame_failed : State

-- The numbers of the enum.
abbrev pub code : State → ℕ
code start_chunk_state = 0
code expecting_lf_after_size_state = 1
code chunk_frame_pending_state = 2
code expecting_cr_after_chunk_state = 3
code expecting_lf_after_chunk_state = 4
code headers_frame_pending = 5
code done_state = succeeded_state
code start_chunk_error = succeeded_state + 1
code expecting_lf_after_size_error = succeeded_state + 2
code chunk_frame_failed = succeeded_state + 3
code expecting_cr_after_chunk_error = succeeded_state + 4
code expecting_lf_after_chunk_error = succeeded_state + 5
code header_frame_failed = succeeded_state + 6

-- `size` is the number `size` together with the digit count of `size_stream`, which points to it.
pub record BodyChunksFrame : Type 0 where
  pub state : State
  pub size : NumberStream
  pub chunk_frame : LengthBodyFrame
  pub headers_frame : HeadersFrame

-- The constructor.
abbrev pub initial : List Call → List (Text × Text) → BodyChunksFrame
initial content headers = record {
  state = start_chunk_state;
  size = record { value = 0; count = 0 };
  chunk_frame = webel.Http.LengthBodyFrame.initial content;
  headers_frame = webel.Http.HeadersFrame.initial headers;
}

abbrev pub goto : State → BodyChunksFrame → Outcome BodyChunksFrame
goto next f =
    switch_to_state (code f.state) (code next) >>= λ _. returns (record f { state = next })

-- `process_result_ready`, with the rest of the event.
abbrev pub go_on : Event → Outcome BodyChunksFrame → Processed BodyChunksFrame
go_on event switched = switched >>= λ f. returns (ready, f, event)

-- ReadNext, and what is done with the byte.
abbrev pub with_byte :
    BodyChunksFrame → Event → (ℕ → Event → Processed BodyChunksFrame) → Processed BodyChunksFrame
with_byte f event use_byte = read_next event >>= λ o. elim o [
  | none ↦ returns (blocked, f, event)
  | some (b, event') ↦ use_byte b event'
]

in_start_chunk : BodyChunksFrame → Event → Processed BodyChunksFrame
in_start_chunk f event = with_byte f event (λ b event'.
    if b == cr
    then go_on event' (goto expecting_lf_after_size_state f)
    else elim (write_digit (2 ^ 32) 0x10 base_16 f.size b) [
      | some size ↦ returns (ready, record f { size = size }, event')
      | none ↦ go_on event' (goto start_chunk_error f)
    ])

in_expecting_lf_after_size : BodyChunksFrame → Event → Processed BodyChunksFrame
in_expecting_lf_after_size f event = with_byte f event (λ b event'.
    if b == lf
    then if f.size.value == 0
      then go_on event' (goto headers_frame_pending f)
      else (webel.Http.LengthBodyFrame.reset f.size.value f.chunk_frame >>= λ chunk_frame.
          go_on event' (goto chunk_frame_pending_state (record f { chunk_frame = chunk_frame })))
    else go_on event' (goto expecting_lf_after_size_error f))

in_chunk_frame_pending : BodyChunksFrame → Event → Processed BodyChunksFrame
unfolding process_event_change_state_on_fail
in_chunk_frame_pending f event =
    process_event_change_state_on_fail webel.Http.LengthBodyFrame.process f.chunk_frame event
      (goto chunk_frame_failed f)
    >>= λ (result, chunk_frame, event', switched).
        let f' : BodyChunksFrame = record (elim switched [ none ↦ f | some owner ↦ owner ]) {
          chunk_frame = chunk_frame;
        } in
        elim result [
          | blocked ↦ returns (blocked, f', event')
          | _ ↦ go_on event' (goto expecting_cr_after_chunk_state f')
        ]

in_expecting_cr_after_chunk : BodyChunksFrame → Event → Processed BodyChunksFrame
in_expecting_cr_after_chunk f event = with_byte f event (λ b event'.
    if b == cr
    then go_on event' (goto expecting_lf_after_chunk_state f)
    else go_on event' (goto expecting_cr_after_chunk_error f))

in_expecting_lf_after_chunk : BodyChunksFrame → Event → Processed BodyChunksFrame
in_expecting_lf_after_chunk f event = with_byte f event (λ b event'.
    if b == lf
    then go_on event' (goto start_chunk_state (record f { size = reset f.size }))
    else go_on event' (goto expecting_lf_after_chunk_error f))

in_headers_frame_pending : BodyChunksFrame → Event → Processed BodyChunksFrame
unfolding process_event_change_state_on_fail
in_headers_frame_pending f event =
    process_event_change_state_on_fail webel.Http.HeadersFrame.process f.headers_frame event
      (goto header_frame_failed f)
    >>= λ (result, headers_frame, event', switched).
        let f' : BodyChunksFrame = record (elim switched [ none ↦ f | some owner ↦ owner ]) {
          headers_frame = headers_frame;
        } in
        elim result [
          | blocked ↦ returns (blocked, f', event')
          | _ ↦
              go_on event'
                (goto done_state (record f' { chunk_frame = call write_eof f'.chunk_frame }))
        ]

-- The switch on the state; the states that have ended are the default, which throws.
dispatch : State → BodyChunksFrame → Event → Processed BodyChunksFrame
unfolding in_start_chunk in_expecting_lf_after_size in_chunk_frame_pending
    in_expecting_cr_after_chunk in_expecting_lf_after_chunk in_headers_frame_pending
dispatch start_chunk_state = in_start_chunk
dispatch expecting_lf_after_size_state = in_expecting_lf_after_size
dispatch chunk_frame_pending_state = in_chunk_frame_pending
dispatch expecting_cr_after_chunk_state = in_expecting_cr_after_chunk
dispatch expecting_lf_after_chunk_state = in_expecting_lf_after_chunk
dispatch headers_frame_pending = in_headers_frame_pending
dispatch _ = λ f event. fatal

unfoldable pub step : BodyChunksFrame → Event → Processed BodyChunksFrame
unfolding dispatch
step f event = dispatch f.state f event

abbrev pub process : Process BodyChunksFrame
process = record {
  in_progress = λ f. is_in_progress (code f.state);
  failed = λ f. is_failed (code f.state);
  step = step;
}
