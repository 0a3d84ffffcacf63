-- ===== src/Basic/MemoryRange.antt =====
-- class MemoryRange (Basic.MemoryRange.h, Basic.MemoryRange.cpp): the bytes that were received, of
-- `count`. It has ended as soon as there is nothing more to receive.
pub mod Filling
pub mod Writing
mod Runs
use webel.Prelude.{
  ==_self, ==→eq, All, All-append, Bool, Bool-cases, List, Option, Option-cases, Outcome,
  Outcome-cases, Returns, Returns-returns, [], ap, append-nil, append_assoc, arith, drop,
  drop-append, false, fatal, get_elem?, if◌then◌else◌, inl, inr, leb, leb→le, length, length-append,
  le→leb, ltb, ltb→lt, map, ne→==, none, not, refl, replicate, returns, set, some, subst, suc, sym,
  take, take-append, true, zero, ℕ, ◌%◌, ◌&&◌, ◌*◌, ◌++◌, ◌+◌, ◌-◌, ◌/◌, ◌<◌, ◌==◌, ◌>>=◌, ◌^◌,
  ◌||◌, ◌↔◌, ◌∎, ◌∙◌, ◌∷◌, ◌≡◌, ◌≡⟨◌⟩◌, ◌≢◌, ◌≤◌, ◌⊎◌, two_pow_add, two_pow_le, two_pow_positive,
  Whenever, Whenever->>=, Whenever-returns, Whenever-any, Whenever-if, Whenever-option, Returns->>=,
}
use webel.Basic.Frame.{blocked, ready, Event, read, Processed, Process}

pub record MemoryRange : Type 0 where
  pub received : ℕ
  pub count : ℕ
  pub bytes : List ℕ

-- The constructor, and reset with the size of a buffer.
abbrev pub empty_range : MemoryRange
empty_range = record { received = 0; count = 0; bytes = [] }

abbrev pub reset_range : ℕ → MemoryRange
reset_range count = record { received = 0; count = count; bytes = [] }

unfoldable pub range_step : MemoryRange → Event → Processed MemoryRange
range_step m event = read event (m.count - m.received) >>= λ o. elim o [
  | none ↦ returns (blocked, m, event)
  | some (elements, event') ↦ returns (
    ready,
    record m { received = m.received + length elements; bytes = m.bytes ++ elements },
    event',
  )
]

-- What may still be received, as a uint32.
abbrev pub remaining : MemoryRange → ℕ
remaining m = (m.count + 2 ^ 32 - m.received) % 2 ^ 32

-- The calls of IStream.
unfoldable pub write_elements : MemoryRange → List ℕ → Outcome MemoryRange
write_elements m elements =
    if ltb (remaining m) (length elements)
    then fatal
    else returns (record m {
      received = (m.received + length elements) % 2 ^ 32;
      bytes = m.bytes ++ elements;
    })

unfoldable pub write_element : MemoryRange → ℕ → Outcome MemoryRange
write_element m element =
    if m.count == m.received
    then fatal
    else returns
        (record m { received = (m.received + 1) % 2 ^ 32; bytes = m.bytes ++ element ∷ [] })

unfoldable pub write_eof : MemoryRange → Outcome MemoryRange
write_eof m = if ltb m.count m.received then fatal else returns m

abbrev pub range_process : Process MemoryRange
range_process = record {
  in_progress = λ m. ltb m.received m.count;
  failed = λ m. false;
  step = range_step;
}
