-- ===== src/Http/LengthBodyFrame.antt =====
-- class LengthBodyFrame (Http.LengthBodyFrame.h, Http.LengthBodyFrame.cpp). The stream that the
-- content goes to is the list of the calls made on it.
use webel.Prelude.{
  ℕ, ◌+◌, ◌-◌, ◌%◌, ◌^◌, Bool, none, some, List, [], ◌∷◌, ◌++◌, Outcome, returns, fatal, ◌>>=◌,
  ◌==◌, if◌then◌else◌, length,
}
use webel.Basic.Frame.{
  start_state, succeeded_state, switch_to_state, is_in_progress, is_failed, Event, blocked, ready,
  read, Processed, Process,
}

pub data Call : Type 0 where
  write_elements : List ℕ → Call
  write_eof : Call

-- `state` is the number of the state: receiving_body_state is 0, and done_state succeeded_state.
pub record LengthBodyFrame : Type 0 where
  pub state : ℕ
  pub bytes_expected : ℕ
  pub bytes_received : ℕ
  pub content : List Call

abbrev pub in_progress : LengthBodyFrame → Bool
in_progress f = is_in_progress f.state

abbrev pub failed : LengthBodyFrame → Bool
failed f = is_failed f.state

-- The constructor with no length, over the stream.
abbrev pub initial : List Call → LengthBodyFrame
initial content = record {
  state = start_state;
  bytes_expected = 0;
  bytes_received = 0;
  content = content;
}

abbrev pub call : Call → LengthBodyFrame → LengthBodyFrame
call c f = record f { content = f.content ++ c ∷ [] }

abbrev goto_done : LengthBodyFrame → Outcome LengthBodyFrame
goto_done f =
    switch_to_state f.state succeeded_state >>= λ state. returns (record f { state = state })

-- reset(bytes_expected); Frame::reset goes back to the start state.
unfoldable pub reset : ℕ → LengthBodyFrame → Outcome LengthBodyFrame
reset expected f =
    let f' = record f { state = start_state; bytes_expected = expected; bytes_received = 0 } in
    if expected == 0 then goto_done (call write_eof f') else returns f'

-- receiving_body_state, of which the elements have been read.
unfoldable pub receive_elements : LengthBodyFrame → List ℕ → Outcome LengthBodyFrame
receive_elements f elements =
    let f' = record (call (write_elements elements) f) {
      bytes_received = (f.bytes_received + length elements) % 2 ^ 32;
    } in
    if f'.bytes_received == f'.bytes_expected then goto_done (call write_eof f') else returns f'

-- process_event; the subtraction is that of uint32.
unfoldable pub step : LengthBodyFrame → Event → Processed LengthBodyFrame
unfolding receive_elements
step f event =
    if f.state == start_state
    then (read event ((2 ^ 32 + f.bytes_expected - f.bytes_received) % 2 ^ 32) >>= λ o. elim o [
      | none ↦ returns (blocked, f, event)
      | some (elements, event') ↦ receive_elements f elements >>= λ f'. returns (ready, f', event')
    ])
    else fatal

abbrev pub process : Process LengthBodyFrame
process = record { in_progress = in_progress; failed = failed; step = step }
