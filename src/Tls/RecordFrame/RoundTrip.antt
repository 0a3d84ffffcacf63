-- ===== src/Tls/RecordFrame/RoundTrip.antt =====
-- RecordFrame reads the records that serialize writes (Tls.RecordFrame.cpp).
use webel.Prelude.{List, append_assoc, arith, length, refl, returns, ℕ, ◌++◌, ◌<◌, ◌^◌, ◌≡◌}
use webel.Basic.Frame.{
  succeeded_state, ready, exited, Event, received_bytes, max_slices, process_event,
}
use webel.Basic.Frame.Iterations.{Advances-suc, Advances-one, Advances-exited}
use webel.Basic.Frame.Owner.{through-exited}
use webel.Basic.NumberFrame.{serialize_number, reset_number, number_process}
use webel.Basic.MemoryRange.{reset_range, range_process}
use webel.Basic.MemoryRange.Filling.{process_event-reset_range}
use webel.Tls.RecordFrame.{
  type_frame_pending_state, version_frame_pending_state, length_frame_pending_state,
  fragment_frame_pending_state, done_state, type_frame_failed, version_frame_failed,
  length_frame_failed, fragment_frame_failed, RecordFrame, Record, reset, goto, begin_fragment,
  dispatch, record_process, serialize_record,
}
use webel.Basic.NumberFrame.RoundTrip.{process_event-serialize_number}

-- The frame behind a record.
abbrev pub done : Record → RecordFrame
done r = record {
  state = done_state;
  type_frame = record { state = succeeded_state; received = 1; value = r.type };
  version_frame = record { state = succeeded_state; received = 2; value = r.version };
  length_frame = record { state = succeeded_state; received = 2; value = r.length };
  fragment_frame = record { received = r.length; count = r.length; bytes = r.fragment };
}

module _ (f : RecordFrame) (type version : ℕ) (bytes rest : List ℕ) where
  abbrev whole : Record
  whole = record { type = type; version = version; length = length bytes; fragment = bytes }

  abbrev f1 : RecordFrame
  f1 = record f {
    state = version_frame_pending_state;
    type_frame = record { state = succeeded_state; received = 1; value = type };
    version_frame = reset_number f.version_frame;
    length_frame = reset_number f.length_frame;
  }

  abbrev f2 : RecordFrame
  f2 = record f1 {
    state = length_frame_pending_state;
    version_frame = record { state = succeeded_state; received = 2; value = version };
  }

  abbrev f3 : RecordFrame
  f3 = record f2 {
    state = fragment_frame_pending_state;
    length_frame = record { state = succeeded_state; received = 2; value = length bytes };
    fragment_frame = reset_range (length bytes);
  }

  abbrev e1 : Event
  e1 =
      received_bytes
        (serialize_number 2 version ++ (serialize_number 2 (length bytes) ++ (bytes ++ rest)))

  abbrev e2 : Event
  e2 = received_bytes (serialize_number 2 (length bytes) ++ (bytes ++ rest))

  type_read :
      type < 256
      → dispatch type_frame_pending_state (reset f) (
          received_bytes (
            serialize_number 1 type
            ++ (serialize_number 2 version
                ++ (serialize_number 2 (length bytes) ++ (bytes ++ rest)))))
        ≡ returns (ready, f1, e1)
  unfolding dispatch reset goto
  type_read h =
      through-exited (number_process 1) (λ g. g.type_frame) (λ g s. record g { type_frame = s })
        (goto type_frame_failed (reset f)) (goto version_frame_pending_state) (reset f) f1
        (record { state = succeeded_state; received = 1; value = type }) _ e1
        (process_event-serialize_number 0 type f.type_frame.value _ (omega arith) (omega arith))
        refl refl

  version_read :
      version < 2 ^ 16 → dispatch version_frame_pending_state f1 e1 ≡ returns (ready, f2, e2)
  unfolding dispatch goto
  version_read h =
      through-exited (number_process 2) (λ g. g.version_frame)
        (λ g s. record g { version_frame = s }) (goto version_frame_failed f1)
        (goto length_frame_pending_state) f1 f2
        (record { state = succeeded_state; received = 2; value = version }) e1 e2
        (process_event-serialize_number 1 version f.version_frame.value _ (omega arith)
          (omega arith))
        refl refl

  length_read :
      length bytes < 2 ^ 16
      → dispatch length_frame_pending_state f2 e2
        ≡ returns (ready, f3, received_bytes (bytes ++ rest))
  unfolding dispatch goto begin_fragment
  length_read h =
      through-exited (number_process 2) (λ g. g.length_frame) (λ g s. record g { length_frame = s })
        (goto length_frame_failed f2) begin_fragment f2 f3
        (record { state = succeeded_state; received = 2; value = length bytes }) e2 _
        (process_event-serialize_number 1 (length bytes) f.length_frame.value _ (omega arith)
          (omega arith))
        refl refl

  fragment_read :
      dispatch fragment_frame_pending_state f3 (received_bytes (bytes ++ rest))
      ≡ returns (ready, done whole, received_bytes rest)
  unfolding dispatch goto
  fragment_read =
      through-exited range_process (λ g. g.fragment_frame) (λ g s. record g { fragment_frame = s })
        (goto fragment_frame_failed f3) (goto done_state) f3 (done whole)
        (record { received = length bytes; count = length bytes; bytes = bytes }) _ _
        (process_event-reset_range bytes rest) refl refl

  -- A frame that was reset, whatever it held, reads a record that serialize has written, whose
  -- fragment has the announced length and fewer than 2 ^ 16 bytes, with one call of process_event: it
  -- ends with each part of the record in its place, and leaves the bytes behind the record.
  pub process_event-serialize_record :
      type < 256
      → version < 2 ^ 16
      → length bytes < 2 ^ 16
      → process_event record_process (reset f) (received_bytes (serialize_record whole ++ rest))
        ≡ returns (exited, done whole, received_bytes rest)
  unfolding process_event serialize_record reset
  process_event-serialize_record ht hv hl =
      let p = record_process in
      let e0 = received_bytes (
        serialize_number 1 type
        ++ (serialize_number 2 version
            ++ (serialize_number 2 (length bytes) ++ (bytes ++ rest)))) in
      let regrouped : received_bytes (serialize_record whole ++ rest) ≡ e0 = simp append_assoc in
      rw regrouped (
        Advances-exited p 4 (reset f) e0 (done whole) (received_bytes rest) max_slices
          (Advances-suc p 3 (reset f) e0 f1 e1 (done whole) (received_bytes rest) refl
            (type_read ht)
            (Advances-suc p 2 f1 e1 f2 e2 (done whole) (received_bytes rest) refl (version_read hv)
              (Advances-suc p 1 f2 e2 f3 (received_bytes (bytes ++ rest)) (done whole)
                (received_bytes rest) refl (length_read hl)
                (Advances-one p f3 (received_bytes (bytes ++ rest)) (done whole)
                  (received_bytes rest) refl fragment_read))))
          refl (omega arith))
