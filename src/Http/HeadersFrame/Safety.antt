-- ===== src/Http/HeadersFrame/Safety.antt =====
-- The frame throws nothing and follows no null pointer (Http.HeadersFrame.cpp).
use webel.Prelude.{
  ℕ, ◌<◌, ◌≡◌, refl, Bool, true, false, Option, none, some, List, returns, Returns, length,
  if◌then◌else◌, arith, ◌&&◌,
}
use webel.Basic.Frame.{blocked, exited, received_bytes, process_event, max_slices}
use webel.Basic.Frame.Loop.{Settled, process_event-Settled}
use webel.Http.HeadersFrame.{
  State, expecting_name_state, receiving_name_state, expecting_colon_state, expecting_value_state,
  expecting_next_header_state, expecting_lf_after_value_state, receiving_value_state, Text,
  HeadersFrame, initial, receive, in_progress, failed, process,
}

abbrev is_some : Option Text → Bool
is_some none = false
is_some (some t) = true

-- Which strings stand in which state.
abbrev has_strings : State → Option Text → Option Text → Bool
has_strings receiving_name_state n v = is_some n
has_strings expecting_colon_state n v = is_some n && is_some v
has_strings expecting_value_state n v = is_some n && is_some v
has_strings expecting_next_header_state n v = is_some n && is_some v
has_strings expecting_lf_after_value_state n v = is_some n && is_some v
has_strings receiving_value_state n v = is_some n && is_some v
has_strings _ n v = true

abbrev pub HasStrings : HeadersFrame → Type 0
HasStrings h = has_strings h.state h.name h.value ≡ true

keeps_at :
    (s : State) (h : HeadersFrame) (b : ℕ)
    → h.state ≡ s
    → HasStrings h
    → in_progress h ≡ true
    → Returns HasStrings (receive h b)
unfolding receive
keeps_at expecting_name_state h b e v p = ground arith
keeps_at _ h b e v p = ground arith

pub receive-HasStrings :
    (h : HeadersFrame) (b : ℕ)
    → HasStrings h
    → in_progress h ≡ true
    → Returns HasStrings (receive h b)
receive-HasStrings h b = keeps_at h.state h b refl

-- On fewer than 0x10000000 bytes, whatever they are, a fresh frame under Basic::process_event throws
-- no FatalError and follows no null pointer. It is blocked with all bytes read, or has exited with
-- the bytes behind its end unread.
pub process_event-returns :
    (nvc : List (Text × Text)) (bs : List ℕ)
    → length bs < max_slices
    → (h : HeadersFrame) × (rest : List ℕ) × (process_event process
          (initial nvc)
          (received_bytes bs)
        ≡ returns (if in_progress h then blocked else exited, h, received_bytes rest))
      × Settled in_progress failed receive HasStrings receive-HasStrings bs h rest
process_event-returns nvc bs short =
    process_event-Settled in_progress failed receive HasStrings receive-HasStrings bs (initial nvc)
      short refl
