-- ===== src/Basic/NumberFrame.antt =====
-- serialize_number and NumberFrame (Basic.NumberFrame.h), for a type of as many bytes as are
-- encoded, `encoded_length`; and StreamFrame on bytes (Basic.StreamFrame.h).
pub mod RoundTrip
mod Runs
use webel.Prelude.{
  List, Outcome, [], fatal, if◌then◌else◌, length, none, returns, some, suc, zero, ℕ, ◌%◌, ◌*◌,
  ◌++◌, ◌+◌, ◌-◌, ◌/◌, ◌==◌, ◌>>=◌, ◌^◌, ◌∷◌,
}
use webel.Basic.Frame.{
  start_state, succeeded_state, is_in_progress, is_failed, switch_to_state, blocked, ready, Event,
  read_next, read, Processed, Process,
}

-- The bytes of a number, the most significant first: the loop of serialize_number. The type has as
-- many bytes as are encoded, so there is no overflow to test for and no padding to write before it.
unfoldable pub serialize_number : ℕ → ℕ → List ℕ
serialize_number zero value = []
serialize_number (suc encoded_length) value =
    (value / 256 ^ encoded_length % 256) ∷ serialize_number encoded_length value

-- `state` is the number of the state: start_state is 0, receiving_state 1, done_state
-- succeeded_state.
pub record NumberFrame : Type 0 where
  pub state : ℕ
  pub received : ℕ
  pub value : ℕ

abbrev pub receiving_state : ℕ
receiving_state = 1

-- The constructor and reset leave the value alone.
abbrev pub reset_number : NumberFrame → NumberFrame
reset_number f = record f { state = start_state; received = 0 }

-- A byte of a number, by its index from the least significant byte on.
abbrev pub set_byte : ℕ → ℕ → ℕ → ℕ
set_byte value index b =
    value / 256 ^ (index + 1) * 256 ^ (index + 1) + b * 256 ^ index + value % 256 ^ index

unfoldable pub receive_byte : ℕ → NumberFrame → ℕ → Outcome NumberFrame
receive_byte encoded_length f b =
    let f' = record f {
      value = set_byte f.value (encoded_length - f.received - 1) b;
      received = (f.received + 1) % 2 ^ 32;
    } in
    if f'.received == encoded_length
    then (switch_to_state f.state succeeded_state >>= λ s. returns (record f' { state = s }))
    else returns f'

unfoldable pub number_step : ℕ → NumberFrame → Event → Processed NumberFrame
number_step encoded_length f event =
    if f.state == start_state
    then (switch_to_state f.state receiving_state >>= λ s.
        returns (ready, record f { value = 0; state = s }, event))
    else if f.state == receiving_state
    then (read_next event >>= λ o. elim o [
      | none ↦ returns (blocked, f, event)
      | some (b, event') ↦ receive_byte encoded_length f b >>= λ f'. returns (ready, f', event')
    ])
    else fatal

abbrev pub number_process : ℕ → Process NumberFrame
number_process encoded_length = record {
  in_progress = λ f. is_in_progress f.state;
  failed = λ f. is_failed f.state;
  step = number_step encoded_length;
}

-- StreamFrame; what it writes to its destination is collected in `written`.
pub record StreamFrame : Type 0 where
  pub state : ℕ
  pub expected : ℕ
  pub received : ℕ
  pub written : List ℕ

abbrev pub reset_stream : ℕ → StreamFrame
reset_stream expected = record {
  state = start_state;
  expected = expected;
  received = 0;
  written = [];
}

unfoldable pub receive_elements : StreamFrame → List ℕ → Outcome StreamFrame
receive_elements f elements =
    let f' = record f {
      received = f.received + length elements;
      written = f.written ++ elements;
    } in
    if f'.received == f'.expected
    then (switch_to_state f.state succeeded_state >>= λ s. returns (record f' { state = s }))
    else returns f'

unfoldable pub stream_step : StreamFrame → Event → Processed StreamFrame
stream_step f event =
    if f.state == start_state
    then (read event (f.expected - f.received) >>= λ o. elim o [
      | none ↦ returns (blocked, f, event)
      | some (elements, event') ↦ receive_elements f elements >>= λ f'. returns (ready, f', event')
    ])
    else fatal

abbrev pub stream_process : Process StreamFrame
stream_process = record {
  in_progress = λ f. is_in_progress f.state;
  failed = λ f. is_failed f.state;
  step = stream_step;
}
