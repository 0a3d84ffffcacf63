-- ===== src/Basic/Frame.antt =====
-- StateMachine, Frame and the loop process_event (Basic.Frame.h, Basic.Frame.cpp), the results and
-- events of Basic.IProcess.h, and Event::Read and Event::ReadNext on bytes (Basic.Event.cpp,
-- Basic.ElementSource.h). An element source is the list of the elements not yet read; its
-- observers are not modelled.
pub mod Bytes
pub mod Loop
pub mod Iterations
pub mod Split
pub mod Owner
use webel.Prelude.{
  ℕ, zero, suc, ◌+◌, Bool, true, false, not, ◌||◌, Option, none, some, List, [], ◌∷◌, Outcome,
  returns, fatal, ◌>>=◌, ltb, ◌==◌, if◌then◌else◌, take, drop,
}

-- StateMachine: Start_State, Succeeded_State and the tests on a state's number.
abbrev pub start_state : ℕ
start_state = 0

abbrev pub succeeded_state : ℕ
succeeded_state = 0x10000

abbrev pub is_in_progress : ℕ → Bool
is_in_progress state = ltb state succeeded_state

abbrev pub is_succeeded : ℕ → Bool
is_succeeded state = state == succeeded_state

abbrev pub is_failed : ℕ → Bool
is_failed state = ltb succeeded_state state

-- StateMachine::switch_to_state: it throws when the state does not change, and when the machine
-- has ended.
abbrev pub switch_to_state : ℕ → ℕ → Outcome ℕ
switch_to_state state next =
    if state == next then fatal else if not (is_in_progress state) then fatal else returns next

pub data ProcessResult : Type 0 where
  blocked ready exited : ProcessResult

-- An event that a process receives: the end of the stream, bytes of which some are not yet read,
-- or one of another type, by its number.
pub data Event : Type 0 where
  element_stream_ending : Event
  received_bytes : List ℕ → Event
  other_event : ℕ → Event

-- Event::ReadNext: `none` is process_result_blocked.
unfoldable pub read_next : Event → Outcome (Option (ℕ × Event))
read_next element_stream_ending = returns none
read_next (received_bytes []) = returns none
read_next (received_bytes (b ∷ bs)) = returns (some (b, received_bytes bs))
read_next (other_event type) = fatal

-- Event::Read: at most `count` elements. ElementSource::Read throws when `count` is 0.
unfoldable pub read : Event → ℕ → Outcome (Option (List ℕ × Event))
read element_stream_ending count = returns none
read (received_bytes []) count = returns none
read (received_bytes (b ∷ bs)) zero = fatal
read (received_bytes (b ∷ bs)) (suc count) =
    returns (some (b ∷ take count bs, received_bytes (drop count bs)))
read (other_event type) count = fatal

-- A call of IProcess::process_event: the result, the process behind it, and what is left of the
-- event.
abbrev pub Processed : Type 0 → Type 0
Processed S = Outcome (ProcessResult × S × Event)

-- IProcess, over the states `S` of the process.
pub record Process (S : Type 0) : Type 0 where
  pub in_progress : S → Bool
  pub failed : S → Bool
  pub step : S → Event → Processed S

-- The iterations that Basic::process_event gives to one event.
abbrev pub max_slices : ℕ
max_slices = 0x10000000

module _ {S : Type 0} (p : Process S) where
  -- The loop of Basic::process_event; it throws when the iterations run out.
  unfoldable pub process_event_loop : ℕ → S → Event → Processed S
  process_event_loop zero s event = fatal
  process_event_loop (suc slices) s event = elim (p.in_progress s) [
    | false ↦ returns (exited, s, event)
    | true ↦ elim (p.step s event) [
      | fatal ↦ fatal
      | returns (blocked, s', event') ↦ returns (blocked, s', event')
      | returns (ready, s', event') ↦ process_event_loop slices s' event'
      | returns (exited, s', event') ↦ process_event_loop slices s' event'
    ]
  ]

  unfoldable pub process_event : S → Event → Processed S
  process_event = process_event_loop max_slices

  -- process_event_throw_error_on_fail
  unfoldable pub process_event_throw_error_on_fail : S → Event → Processed S
  process_event_throw_error_on_fail s event = elim (process_event s event) [
    | fatal ↦ fatal
    | returns (result, s', event') ↦ if p.failed s' then fatal else returns (result, s', event')
  ]

  -- process_event_ignore_failures; the event's rest is not looked at by its caller.
  unfoldable pub process_event_ignore_failures : S → Event → Outcome S
  process_event_ignore_failures s event = elim (process_event s event) [
    | fatal ↦ fatal
    | returns (ready, s', event') ↦ fatal
    | returns (blocked, s', event') ↦ returns s'
    | returns (exited, s', event') ↦ returns s'
  ]

  -- Frame::process_event_change_state_on_fail, for an owner whose call of switch_to_state gives
  -- `switched`: the owner is `none` if its state stays.
  unfoldable pub process_event_change_state_on_fail :
      {F : Type 0} → S → Event → Outcome F → Outcome (ProcessResult × S × Event × Option F)
  process_event_change_state_on_fail s event switched = elim (process_event s event) [
    | fatal ↦ fatal
    | returns (result, s', event') ↦ elim (p.failed s') [
      | true ↦ switched >>= λ owner. returns (blocked, s', event', some owner)
      | false ↦ returns (result, s', event', none)
    ]
  ]
