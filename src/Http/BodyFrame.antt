-- ===== src/Http/BodyFrame.antt =====
-- BodyFrame::make_body_frame (Http.BodyFrame.cpp), the lookups of Basic.NameValueCollection.h, and
-- DisconnectBodyFrame (Http.DisconnectBodyFrame.cpp).
pub mod Choice
pub mod Disconnect
mod Runs
use webel.Prelude.{
  ==_self, ==→eq, All, All-append, Bool, Bool-cases, List, Option, Option-cases, Outcome,
  Outcome-cases, Returns, Returns-returns, [], ap, append-nil, append_assoc, arith, drop,
  drop-append, false, fatal, get_elem?, if◌then◌else◌, inl, inr, leb, leb→le, length, length-append,
  le→leb, ltb, ltb→lt, map, ne→==, none, not, refl, replicate, returns, set, some, subst, suc, sym,
  take, take-append, true, zero, ℕ, ◌%◌, ◌&&◌, ◌*◌, ◌++◌, ◌+◌, ◌-◌, ◌/◌, ◌<◌, ◌==◌, ◌>>=◌, ◌^◌,
  ◌||◌, ◌↔◌, ◌∎, ◌∙◌, ◌∷◌, ◌≡◌, ◌≡⟨◌⟩◌, ◌≢◌, ◌≤◌, ◌⊎◌, two_pow_add, two_pow_le, two_pow_positive,
  Whenever, Whenever->>=, Whenever-returns, Whenever-any, Whenever-if, Whenever-option, Returns->>=,
}
use webel.Basic.Numbers.{base_10}
use webel.Basic.Uri.{equals_any_case}
use webel.Basic.Frame.{
  start_state, succeeded_state, is_in_progress, is_succeeded, is_failed, switch_to_state,
  ProcessResult, blocked, ready, exited, Event, element_stream_ending, received_bytes, other_event,
  read_next, read, Processed, Process, max_slices, process_event_loop, process_event,
  process_event_throw_error_on_fail, process_event_ignore_failures,
  process_event_change_state_on_fail,
}
use webel.Http.LengthBodyFrame.{Call, write_elements, write_eof}

abbrev pub gzip : List ℕ
gzip = b'g' ∷ b'z' ∷ b'i' ∷ b'p' ∷ []

abbrev pub identity : List ℕ
identity = b'i' ∷ b'd' ∷ b'e' ∷ b'n' ∷ b't' ∷ b'i' ∷ b't' ∷ b'y' ∷ []

abbrev pub chunked : List ℕ
chunked = b'c' ∷ b'h' ∷ b'u' ∷ b'n' ∷ b'k' ∷ b'e' ∷ b'd' ∷ []

-- The headers that are looked at, as `find` of the multimap gives them.
pub record Headers : Type 0 where
  pub content_type : Option (List ℕ)
  pub content_encoding : Option (List ℕ)
  pub transfer_encoding : Option (List ℕ)
  pub transfer_length : Option (List ℕ)
  pub content_length : Option (List ℕ)

-- as_base_10<uint32> of Basic.String.h, where all characters are digits.
unfoldable pub as_base_10 : ℕ → List ℕ → Option ℕ
as_base_10 value [] = some value
as_base_10 value (c ∷ cs) = elim (base_10 c) [
  | none ↦ none
  | some digit ↦ as_base_10 ((value * 10 % 2 ^ 32 + digit) % 2 ^ 32) cs
]

-- get_base_10.
unfoldable pub get_base_10 : Option (List ℕ) → Option ℕ
get_base_10 none = none
get_base_10 (some text) = as_base_10 0 text

pub data Framing : Type 0 where
  chunks until_disconnect : Framing
  of_length : ℕ → Framing

-- The body's frame, and whether its content goes through Gzip::FileFormat.
pub record Body : Type 0 where
  pub decoded : Bool
  pub framing : Framing

abbrev pub length_body : Bool → ℕ → Option Body
length_body decoded n =
    if n == 0 then none else some (record { decoded = decoded; framing = of_length n })

-- Where the transfer encoding leaves the length to other headers.
unfoldable pub by_length : Bool → Headers → Option Body
by_length decoded h = elim (get_base_10 h.transfer_length) [
  | some n ↦ length_body decoded n
  | none ↦ elim (get_base_10 h.content_length) [
    | some n ↦ length_body decoded n
    | none ↦ some (record { decoded = decoded; framing = until_disconnect })
  ]
]

unfoldable pub by_transfer_encoding : Bool → Headers → Option Body
by_transfer_encoding decoded h = elim h.transfer_encoding [
  | none ↦ by_length decoded h
  | some encoding ↦
      if equals_any_case encoding chunked
      then some (record { decoded = decoded; framing = chunks })
      else if not (equals_any_case encoding identity)
      then none
      else by_length decoded h
]

unfoldable pub by_content_encoding : Headers → Option Body
by_content_encoding h = elim h.content_encoding [
  | none ↦ by_transfer_encoding false h
  | some encoding ↦
      if equals_any_case encoding gzip
      then by_transfer_encoding true h
      else if not (equals_any_case encoding identity)
      then none
      else by_transfer_encoding false h
]

-- `none` is the null frame.
unfoldable pub make_body_frame : Headers → Option Body
make_body_frame h = elim h.content_type [ none ↦ none | some type ↦ by_content_encoding h ]

-- DisconnectBodyFrame: receiving_body_state is start_state, and done_state succeeded_state.
pub record DisconnectBodyFrame : Type 0 where
  pub state : ℕ
  pub content : List Call

-- Behind the test of the event's type.
unfoldable pub receive : DisconnectBodyFrame → Event → Processed DisconnectBodyFrame
receive f event = read event 0xFFFFFFFF >>= λ o. elim o [
  | none ↦ returns (blocked, f, event)
  | some (elements, event') ↦
      returns (ready, record f { content = f.content ++ write_elements elements ∷ [] }, event')
]

unfoldable pub disconnect_step : DisconnectBodyFrame → Event → Processed DisconnectBodyFrame
disconnect_step f event =
    if f.state == start_state
    then elim event [
      | element_stream_ending ↦ switch_to_state f.state succeeded_state >>= λ s. returns (
        ready,
        record { state = s; content = f.content ++ write_eof ∷ [] },
        element_stream_ending,
      )
      | received_bytes bytes ↦ receive f (received_bytes bytes)
      | other_event type ↦ receive f (other_event type)
    ]
    else fatal

abbrev pub disconnect_process : Process DisconnectBodyFrame
disconnect_process = record {
  in_progress = λ f. is_in_progress f.state;
  failed = λ f. is_failed f.state;
  step = disconnect_step;
}
