-- ===== src/Basic/MemoryRange/Filling.antt =====
-- The bytes that fill a MemoryRange (Basic.MemoryRange.cpp).
use webel.Prelude.{
  List, [], arith, drop-append, false, length, ltb, refl, returns, suc, take-append, true, ℕ, ◌++◌,
  ◌+◌, ◌-◌, ◌∷◌, ◌≡◌,
}
use webel.Basic.Frame.{exited, ready, received_bytes, read, process_event, max_slices}
use webel.Basic.Frame.Iterations.{Advances-none, Advances-one, Advances-exited}
use webel.Basic.MemoryRange.{MemoryRange, reset_range, range_step, range_process}

range_step-fills :
    (m : MemoryRange) (b : ℕ) (bs rest : List ℕ)
    → m.received + suc (length bs) ≡ m.count
    → range_step m (received_bytes (b ∷ bs ++ rest))
      ≡ returns
          (ready, record m { received = m.count; bytes = m.bytes ++ b ∷ bs }, received_bytes rest)
unfolding range_step read
range_step-fills m b bs rest e =
    let missing : m.count - m.received ≡ suc (length bs) = omega (arith, e) in
    rw (missing, take-append bs rest, drop-append bs rest, e) refl

-- Where a range misses as many bytes as stand in front of `rest`, at least one of them, one call of
-- process_event stores them behind those that were received, ends, and leaves `rest` in the event.
pub process_event-fills :
    (m : MemoryRange) (b : ℕ) (bs rest : List ℕ)
    → m.received + suc (length bs) ≡ m.count
    → process_event range_process m (received_bytes (b ∷ bs ++ rest))
      ≡ returns
          (exited, record m { received = m.count; bytes = m.bytes ++ b ∷ bs }, received_bytes rest)
unfolding process_event
process_event-fills m b bs rest e =
    let full = record m { received = m.count; bytes = m.bytes ++ b ∷ bs } in
    let missing : ltb m.received m.count ≡ true = ground (arith, e) in
    let ended : ltb m.count m.count ≡ false = ground arith in
    Advances-exited range_process 1 m (received_bytes (b ∷ bs ++ rest)) full (received_bytes rest)
      max_slices
      (Advances-one range_process m (received_bytes (b ∷ bs ++ rest)) full (received_bytes rest)
        missing (range_step-fills m b bs rest e))
      ended (omega arith)

-- The bytes that a range was reset for, which may be none.
pub process_event-reset_range :
    (bytes rest : List ℕ)
    → process_event range_process (reset_range (length bytes)) (received_bytes (bytes ++ rest))
      ≡ returns (
        exited,
        record { received = length bytes; count = length bytes; bytes = bytes },
        received_bytes rest,
      )
unfolding process_event
process_event-reset_range [] rest =
    Advances-exited range_process 0 (reset_range 0) (received_bytes rest) (reset_range 0)
      (received_bytes rest) max_slices (Advances-none range_process _ _) refl (omega arith)
process_event-reset_range (b ∷ bs) rest =
    process_event-fills (reset_range (suc (length bs))) b bs rest (omega arith)
