-- ===== src/Basic/MemoryRange/Runs.antt =====
-- A range that is filled in two calls (Basic.MemoryRange.cpp).
use webel.Prelude.{[], arith, refl, returns, ◌∷◌, ◌≡◌}
use webel.Basic.Frame.{exited, received_bytes, process_event}
use webel.Basic.MemoryRange.{write_elements, range_process}
use webel.Basic.MemoryRange.Writing.{write_each, write_elements-write_each}
use webel.Basic.MemoryRange.Filling.{process_event-fills}

process_event-fills_example :
    process_event range_process
      (record { received = 1; count = 3; bytes = 9 ∷ [] })
      (received_bytes (7 ∷ 8 ∷ 5 ∷ []))
    ≡ returns (
      exited,
      record { received = 3; count = 3; bytes = 9 ∷ 7 ∷ 8 ∷ [] },
      received_bytes (5 ∷ []),
    )
process_event-fills_example =
    process_event-fills (record { received = 1; count = 3; bytes = 9 ∷ [] }) 7 (8 ∷ []) (5 ∷ [])
      refl

write_elements-write_each_example :
    write_elements (record { received = 1; count = 3; bytes = 9 ∷ [] }) (7 ∷ 8 ∷ [])
    ≡ write_each (record { received = 1; count = 3; bytes = 9 ∷ [] }) (7 ∷ 8 ∷ [])
write_elements-write_each_example =
    write_elements-write_each (record { received = 1; count = 3; bytes = 9 ∷ [] }) (7 ∷ 8 ∷ [])
      (omega arith) (omega arith)
