-- ===== src/Tls/Heartbeat/Bounds.antt =====
-- The lengths of a heartbeat message (Tls.HeartbeatMessageFrame.cpp).
use webel.Prelude.{
  Bool, Outcome, arith, false, if◌then◌else◌, ltb, refl, returns, true, ℕ, ◌+◌, ◌-◌, ◌≡◌, ◌≤◌,
  Whenever, Whenever->>=, Whenever-returns, Whenever-any,
}
use webel.Basic.Frame.{switch_to_state, ProcessResult, Event}
use webel.Basic.Frame.Owner.{After, through-Whenever}
use webel.Tls.Heartbeat.{
  State, type_frame_pending_state, payload_length_frame_pending_state, payload_frame_pending_state,
  padding_frame_pending_state, done_state, type_frame_failed, payload_length_frame_failed,
  payload_length_error, payload_frame_failed, padding_frame_failed, code, HeartbeatMessageFrame,
  payload_length, goto, check_lengths, begin_padding, dispatch,
}

-- What RFC 6520 asks of the lengths.
abbrev pub HasLengths : HeartbeatMessageFrame → Type 0
HasLengths f =
    (3 + payload_length f + f.padding_length ≡ f.plaintext_length)
    × (16 ≤ f.padding_length)
    × (f.plaintext_length ≤ 0x4000)

-- The states in which the payload is read, or has been read.
abbrev IsBoundedIn : State → HeartbeatMessageFrame → Type 0
IsBoundedIn payload_frame_pending_state f = HasLengths f
IsBoundedIn padding_frame_pending_state f = HasLengths f
IsBoundedIn done_state f = HasLengths f
IsBoundedIn state f = Unit

abbrev pub IsBounded : HeartbeatMessageFrame → Type 0
IsBounded f = IsBoundedIn f.state f

goto-Whenever :
    (P : HeartbeatMessageFrame → Type 0) (next : State) (f : HeartbeatMessageFrame)
    → P (record f { state = next })
    → Whenever P (goto next f)
unfolding goto
goto-Whenever P next f h =
    Whenever->>= (λ n. Unit) P (switch_to_state (code f.state) (code next))
      (λ n. returns (record f { state = next })) (Whenever-any _) (λ n k. h)

lengths_lem :
    (l n : ℕ)
    → ltb n (l + 3) ≡ false
    → ltb (n - (l + 3)) 16 ≡ false
    → ltb 0x4000 n ≡ false
    → (3 + l + (n - (l + 3)) ≡ n) × (16 ≤ n - (l + 3)) × (n ≤ 0x4000)
lengths_lem l n e e' e'' = (ground arith, ground arith, ground arith)

Whenever-test :
    (P : HeartbeatMessageFrame → Type 0) (b : Bool) (x y : Outcome HeartbeatMessageFrame)
    → (b ≡ true → Whenever P x)
    → (b ≡ false → Whenever P y)
    → Whenever P (if b then x else y)
Whenever-test P true x y h k = h refl
Whenever-test P false x y h k = k refl

check_lengths-IsBounded : (f : HeartbeatMessageFrame) → Whenever IsBounded (check_lengths f)
unfolding check_lengths
check_lengths-IsBounded f =
    Whenever-test IsBounded (ltb f.plaintext_length (payload_length f + 3)) _ _
      (λ e. goto-Whenever IsBounded payload_length_error _ tt)
      (λ e.
        Whenever-test IsBounded (ltb (f.plaintext_length - (payload_length f + 3)) 16) _ _
          (λ e'. goto-Whenever IsBounded payload_length_error _ tt)
          (λ e'.
            Whenever-test IsBounded (ltb 0x4000 f.plaintext_length) _ _
              (λ e''. goto-Whenever IsBounded payload_length_error _ tt)
              (λ e''.
                goto-Whenever IsBounded payload_frame_pending_state _ (lengths_lem _ _ e e' e''))))

dispatch-IsBounded :
    (state : State) (f : HeartbeatMessageFrame) (event : Event)
    → IsBoundedIn state f
    → Whenever (After IsBounded) (dispatch state (record f { state = state }) event)
unfolding dispatch begin_padding
dispatch-IsBounded type_frame_pending_state f event h =
    let g = record f { state = type_frame_pending_state } in
    through-Whenever IsBounded _ _ _ _ _ g event (λ s. tt)
      (goto-Whenever _ type_frame_failed g (λ s. tt))
      (λ s. goto-Whenever IsBounded payload_length_frame_pending_state _ tt)
dispatch-IsBounded payload_length_frame_pending_state f event h =
    let g = record f { state = payload_length_frame_pending_state } in
    through-Whenever IsBounded _ _ _ _ _ g event (λ s. tt)
      (goto-Whenever _ payload_length_frame_failed g (λ s. tt))
      (λ s. check_lengths-IsBounded (record g { payload_length_frame = s }))
dispatch-IsBounded payload_frame_pending_state f event h =
    let g = record f { state = payload_frame_pending_state } in
    through-Whenever IsBounded _ _ _ _ _ g event (λ s. h)
      (goto-Whenever _ payload_frame_failed g (λ s. tt))
      (λ s. goto-Whenever IsBounded padding_frame_pending_state _ h)
dispatch-IsBounded padding_frame_pending_state f event h =
    let g = record f { state = padding_frame_pending_state } in
    through-Whenever IsBounded _ _ _ _ _ g event (λ s. h)
      (goto-Whenever _ padding_frame_failed g (λ s. tt))
      (λ s. goto-Whenever IsBounded done_state _ h)
dispatch-IsBounded done_state f event h = tt
dispatch-IsBounded type_frame_failed f event h = tt
dispatch-IsBounded payload_length_frame_failed f event h = tt
dispatch-IsBounded payload_length_error f event h = tt
dispatch-IsBounded payload_frame_failed f event h = tt
dispatch-IsBounded padding_frame_failed f event h = tt

-- A call of process_event on any event, in any state, keeps the following: where the payload or the
-- padding is being read, or the message is complete, the header of 3 bytes, the payload by its
-- announced length and the padding are together as long as the record's plaintext, the padding has
-- at least 16 bytes, and the plaintext at most 2 ^ 14.
pub process_event-IsBounded :
    (f f' : HeartbeatMessageFrame) (event event' : Event) (result : ProcessResult)
    → IsBounded f
    → dispatch f.state f event ≡ returns (result, f', event')
    → IsBounded f'
process_event-IsBounded f f' event event' result h e =
    Whenever-returns (After IsBounded) (dispatch f.state f event) (result, f', event')
      (dispatch-IsBounded f.state f event h) e
