-- ===== src/Basic/NumberFrame/Runs.antt =====
-- The round trip of a number of two bytes.
use webel.Prelude.{[], arith, refl, returns, ◌++◌, ◌∷◌, ◌≡◌}
use webel.Basic.Frame.{start_state, succeeded_state, exited, received_bytes, process_event}
use webel.Basic.NumberFrame.{serialize_number, number_process}
use webel.Basic.NumberFrame.RoundTrip.{process_event-serialize_number}

number_bytes : serialize_number 2 0x1234 ≡ 0x12 ∷ 0x34 ∷ []
unfolding serialize_number
number_bytes = refl

process_event-serialize_number_example :
    process_event
      (number_process 2)
      (record { state = start_state; received = 0; value = 99 })
      (received_bytes (serialize_number 2 0x1234 ++ 7 ∷ []))
    ≡ returns (
      exited,
      record { state = succeeded_state; received = 2; value = 0x1234 },
      received_bytes (7 ∷ []),
    )
process_event-serialize_number_example =
    process_event-serialize_number 1 0x1234 99 (7 ∷ []) (omega arith) (omega arith)
