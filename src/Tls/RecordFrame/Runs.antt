-- ===== src/Tls/RecordFrame/Runs.antt =====
-- A record of three bytes, and what follows it (Tls.RecordFrame.cpp).
use webel.Prelude.{[], arith, refl, returns, ◌++◌, ◌∷◌, ◌≡◌}
use webel.Basic.Frame.{exited, received_bytes, process_event}
use webel.Basic.NumberFrame.{serialize_number}
use webel.Tls.RecordFrame.{Record, reset, record_process, serialize_record}
use webel.Tls.RecordFrame.RoundTrip.{done, process_event-serialize_record}

abbrev hello : Record
hello = record { type = 22; version = 0x0303; length = 3; fragment = 7 ∷ 8 ∷ 9 ∷ [] }

hello_bytes : serialize_record hello ≡ 22 ∷ 3 ∷ 3 ∷ 0 ∷ 3 ∷ 7 ∷ 8 ∷ 9 ∷ []
unfolding serialize_record serialize_number
hello_bytes = refl

process_event-serialize_record_example :
    process_event record_process
      (reset (done hello))
      (received_bytes (serialize_record hello ++ 5 ∷ []))
    ≡ returns (exited, done hello, received_bytes (5 ∷ []))
process_event-serialize_record_example =
    process_event-serialize_record (done hello) 22 0x0303 (7 ∷ 8 ∷ 9 ∷ []) (5 ∷ []) (omega arith)
      (omega arith) (omega arith)
